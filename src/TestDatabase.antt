-- ===== src/TestDatabase.antt =====
-- crates/pulsestream-store/src/testing.rs: the names of the disposable databases that the tests use,
-- and what the tests read and change in the `events` table. A panic is no result; the hexadecimal
-- text of a fresh UUID and the Debug form of a text are arguments.
pub mod Urls
pub mod Names
pub mod Rows
pub mod Leases
pub mod Outage
pub mod Proxy
use pulse_stream.Common.{
  ℕ, zero, suc, ◌+◌, ◌-◌, Bool, true, ◌&&◌, ◌||◌, not, Text, String, codes, utf8, text_eq, is_empty,
  all, take, leb, ltb, ◌==◌, if◌then◌else◌, Option, none, some, Result, ok, err, List, [], ◌∷◌,
  ◌++◌,
}
use pulse_stream.Event.{EventId, EventStatus, pending, processing, processed, as_db_str}
use pulse_stream.Config.{strip_prefix}
use pulse_stream.Store.Schema.{Row, Table, find_by_id}
use pulse_stream.Store.Complete.{is_processing}

abbrev pub test_database_url_var : String
test_database_url_var = "PULSESTREAM_TEST_DATABASE_URL"

-- The text before the first place where `str::find` finds a pattern, and the text after it.
unfoldable pub split_first : Text → Text → Option (Text × Text)
unfolding strip_prefix
split_first pattern [] = none
split_first pattern (c ∷ s) =
    let rest = split_first pattern s in
    elim (strip_prefix (c ∷ s) pattern) [
      | some after ↦ some ([], after)
      | none ↦ elim rest [ none ↦ none | some (before, after) ↦ some (c ∷ before, after) ]
    ]

-- The match on the place of `?`.
unfoldable pub split_query : Text → Text × Text
unfolding split_first
split_query path = elim (split_first (codes "?") path) [
  | none ↦ (path, [])
  | some (name, query) ↦ (name, codes "?" ++ query)
]

-- The prefix up to the `/`, the name and the query.
unfoldable pub split_database_name : Text → Option (Text × Text × Text)
unfolding split_first split_query
split_database_name url = elim (split_first (codes "://") url) [
  | none ↦ none
  | some (scheme, rest) ↦ elim (split_first (codes "/") rest) [
    | none ↦ none
    | some (authority, path) ↦
        let (name, query) = split_query path in
        some (scheme ++ (codes "://" ++ (authority ++ codes "/")), name, query)
  ]
]

-- A lowercase letter, a digit or an underscore.
unfoldable pub is_plain : ℕ → Bool
is_plain b = (leb 97 b && leb b 122) || (leb 48 b && leb b 57) || (b == 95)

-- `str::ends_with`.
unfoldable pub ends_with : Text → Text → Bool
ends_with [] suffix = is_empty suffix
ends_with (c ∷ s) suffix = text_eq (c ∷ s) suffix || ends_with s suffix

unfoldable pub guard_test_database_name : (Text → Text) → Text → Result (Unit {0}) Text
unfolding utf8 is_plain ends_with
guard_test_database_name debug name =
    if (not (is_empty name) && all is_plain (utf8 name)) && ends_with name (codes "_test")
    then ok tt
    else err (
        codes test_database_url_var
        ++ (codes " must name a database ending in `_test` "
            ++ (codes "(lowercase letters, digits, underscores); refusing to use " ++ debug name)))

-- `TestDatabase` without its store.
pub record TestDatabase : Type 0 where
  pub url : Text
  pub admin_url : Text
  pub name : Text

unfoldable pub named : Text → Text → Text × Text × Text → TestDatabase
named hex admin_url (server, base, query) =
    let name = base ++ (codes "_" ++ take 12 hex) in
    record { url = server ++ (name ++ query); admin_url = admin_url; name = name }

-- `create_empty`, up to the statement that creates the database.
unfoldable pub create_empty : (Text → Text) → (String → Option Text) → Text → Option TestDatabase
unfolding split_database_name guard_test_database_name named
create_empty debug env hex = elim (env test_database_url_var) [
  | none ↦ none
  | some admin_url ↦ elim (split_database_name admin_url) [
    | none ↦ none
    | some (server, base, query) ↦ elim (guard_test_database_name debug base) [
      | err message ↦ none
      | ok done ↦ some (named hex admin_url (server, base, query))
    ]
  ]
]
