-- ===== src/UnitTests/Databases.antt =====
-- The tests of crates/pulsestream-store/src/testing.rs.
use pulse_stream.Common.{
  ◌≡◌, refl, Text, codes, some, ok, err, [], ◌∷◌, All, utf8, utf8_char, text_eq,
}
use pulse_stream.Config.{strip_prefix}
use pulse_stream.TestDatabase.{
  split_first, split_query, split_database_name, is_plain, ends_with, guard_test_database_name,
}

abbrev pub SplitsDatabaseNames : Type 0
SplitsDatabaseNames =
    (split_database_name (codes "postgres://u:p@h:1/pulsestream_test?sslmode=disable")
      ≡ some (codes "postgres://u:p@h:1/", codes "pulsestream_test", codes "?sslmode=disable"))
    × (split_database_name (codes "postgres://h/db") ≡ some (codes "postgres://h/", codes "db", []))

SplitsDatabaseNames_passes : SplitsDatabaseNames
unfolding split_database_name split_first split_query strip_prefix
SplitsDatabaseNames_passes = (refl, refl)

abbrev IsGuarded : Text → Type 0
IsGuarded name = (message : Text) × (guard_test_database_name (λ t. t) name ≡ err message)

abbrev pub GuardAcceptsOnlyTestDatabases : Type 0
GuardAcceptsOnlyTestDatabases =
    (guard_test_database_name (λ t. t) (codes "pulsestream_test") ≡ ok tt)
    × All IsGuarded (
        codes "pulsestream"
        ∷ codes "prod"
        ∷ codes "test"
        ∷ codes "pulsestream_test2"
        ∷ codes "x_test\"; DROP"
        ∷ []
        ∷ [])

GuardAcceptsOnlyTestDatabases_passes : GuardAcceptsOnlyTestDatabases
unfolding guard_test_database_name is_plain ends_with utf8 utf8_char text_eq
GuardAcceptsOnlyTestDatabases_passes =
    (refl, ((_, refl), ((_, refl), ((_, refl), ((_, refl), ((_, refl), ((_, refl), tt)))))))
