-- ===== src/UnitTests.antt =====
-- The tests of the crates, as statements about the model: each test is the proposition that its
-- assertions make, in one order of the steps of a concurrent test, and holds by computation.
pub mod Settings
pub mod Events
pub mod Keys
pub mod Databases
pub mod Server
pub mod Answers
pub mod Workers
pub mod Journeys
pub mod Admissions
pub mod Claims
