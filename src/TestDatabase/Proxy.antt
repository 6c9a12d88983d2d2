-- ===== src/TestDatabase/Proxy.antt =====
-- The addresses of crates/pulsestream-store/src/testing.rs' OutageProxy: where it connects to, and
-- the URL that leads through it. A panic is no result.
pub mod Addresses
use pulse_stream.Common.{
  ℕ, Bool, true, false, ◌||◌, is_empty, ◌&&◌, any, Text, codes, ◌==◌, if◌then◌else◌, Option, none,
  some, List, [], ◌∷◌, ◌++◌,
}
use pulse_stream.Config.{after_at}
use pulse_stream.TestDatabase.{split_first, split_database_name}

-- `str::trim_end_matches` of a slash.
unfoldable pub trim_end_slashes : Text → Text
trim_end_slashes [] = []
trim_end_slashes (c ∷ s) =
    let rest = trim_end_slashes s in if (c == b'/') && is_empty rest then [] else c ∷ rest

-- `str::split` at "://", `nth(1)`.
unfoldable pub second_part : Text → Option Text
unfolding split_first
second_part s = elim (split_first (codes "://") s) [
  | none ↦ none
  | some (first, rest) ↦ elim (split_first (codes "://") rest) [
    | none ↦ some rest
    | some (second, others) ↦ some second
  ]
]

-- A host without a port has PostgreSQL's.
unfoldable pub with_port : Text → Text
with_port host_port =
    if any (λ c. c == b':') host_port then host_port else host_port ++ codes ":5432"

-- The `target` of `OutageProxy::start`.
unfoldable pub target : Text → Option Text
unfolding split_database_name second_part trim_end_slashes after_at with_port
target url = elim (split_database_name url) [
  | none ↦ none
  | some (server, name, query) ↦ elim (second_part server) [
    | none ↦ none
    | some authority ↦ some (with_port (after_at (trim_end_slashes authority)))
  ]
]

-- The text before the last `@`, with it: what `rsplit_once('@')` and `unwrap_or_default` give.
unfoldable pub credentials : Text → Text
credentials [] = []
credentials (c ∷ s) =
    let rest = credentials s in
    if is_empty rest then (if c == b'@' then c ∷ [] else []) else c ∷ rest

-- The slice without the last character.
unfoldable pub drop_last : Text → Text
drop_last [] = []
drop_last (c ∷ []) = []
drop_last (c ∷ d ∷ s) = c ∷ drop_last (d ∷ s)

-- `OutageProxy::proxied_url`, for the proxy's address.
unfoldable pub proxied_url : Text → Text → Option Text
unfolding split_database_name split_first credentials drop_last
proxied_url addr url = elim (split_database_name url) [
  | none ↦ none
  | some (server, name, query) ↦ elim (split_first (codes "://") server) [
    | none ↦ none
    | some (scheme, rest) ↦ some (
        scheme
        ++ (codes "://"
            ++ (credentials (drop_last rest) ++ (addr ++ (codes "/" ++ (name ++ query))))))
  ]
]
