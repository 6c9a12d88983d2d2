-- ===== src/TestDatabase/Proxy/Addresses.antt =====
-- The URL through the proxy leads to the proxy, and nothing else of it changes.
use pulse_stream.Common.{
  ℕ, ◌≡◌, refl, ap, ◌∙◌, inl, inr, true, false, not, all, any, ◌==◌, is_empty, Text, codes,
  Option-cases, Bool-cases, none, some, arith, [], ◌∷◌, ◌++◌, append_assoc, all-append,
}
use pulse_stream.Config.Scan.{IsUserInfo, no_at}
use pulse_stream.Config.Urls.{user-append}
use pulse_stream.TestDatabase.Urls.{split_query_again, split_database_name_lem, split_first-again}
use pulse_stream.Config.{after_at, has_at, strip_prefix}
use pulse_stream.TestDatabase.{split_first, split_query, split_database_name}
use pulse_stream.TestDatabase.Proxy.{
  trim_end_slashes, second_part, with_port, target, credentials, drop_last, proxied_url,
}

-- No character of the text is this one.
abbrev pub Lacks : ℕ → Text → Type 0
Lacks x s = all (λ c. not (c == x)) s ≡ true

drop_last-append : (s : Text) (c : ℕ) → drop_last (s ++ c ∷ []) ≡ s
unfolding drop_last
drop_last-append [] c = refl
drop_last-append (d ∷ []) c = refl
drop_last-append (d ∷ e ∷ s) c = ap (◌∷◌ d) (drop_last-append (e ∷ s) c)

trim_end_slashes-append : (s : Text) → Lacks b'/' s → trim_end_slashes (s ++ codes "/") ≡ s
unfolding trim_end_slashes
trim_end_slashes-append [] h = refl
trim_end_slashes-append (c ∷ s) h = ground (arith, trim_end_slashes-append s)

credentials-Lacks : (x : ℕ) (s : Text) → Lacks x s → Lacks x (credentials s)
unfolding credentials
credentials-Lacks x [] h = refl
credentials-Lacks x (c ∷ s) h = ground (arith, credentials-Lacks x s)

-- A slash ends the text that has none.
split_first-slash :
    (s path : Text)
    → Lacks b'/' s
    → split_first (codes "/") (s ++ (codes "/" ++ path)) ≡ some (s, path)
unfolding split_first strip_prefix
split_first-slash [] path h = refl
split_first-slash (c ∷ s) path h = ground (arith, split_first-slash s path)

split_first-Lacks :
    (s before after : Text) → split_first (codes "/") s ≡ some (before, after) → Lacks b'/' before
unfolding split_first strip_prefix
split_first-Lacks [] before after h = cc
split_first-Lacks (c ∷ s) before after h = elim (Option-cases (split_first (codes "/") s)) [
  | inl e ↦ ground arith
  | inr ((b, a), e) ↦ ground (arith, split_first-Lacks s b a e)
]

-- One slash at the end of a text does not make another `://`.
one_slash : (s : Text) → Lacks b'/' s → split_first (codes "://") (s ++ codes "/") ≡ none
unfolding split_first strip_prefix
one_slash [] h = refl
one_slash (c ∷ []) h = ground arith
one_slash (c ∷ d ∷ s) h = ground (arith, one_slash (d ∷ s))

is_empty-append : (s : Text) (c : ℕ) → is_empty (s ++ c ∷ []) ≡ false
is_empty-append [] c = refl
is_empty-append (d ∷ s) c = refl

credentials-IsUserInfo : (s : Text) → IsUserInfo (credentials s)
unfolding credentials
credentials-IsUserInfo [] = inl refl
credentials-IsUserInfo (c ∷ s) = elim (credentials-IsUserInfo s) [
  | inl e ↦ elim (Bool-cases (c == b'@')) [
    | inl k ↦ inr ([], ground arith)
    | inr k ↦ inl (ground arith)
  ]
  | inr (name, e) ↦ inr (c ∷ name, rw (e, is_empty-append name b'@') refl)
]

after_at-credentials : (s host : Text) → Lacks b'@' host → after_at (credentials s ++ host) ≡ host
after_at-credentials s host h =
    user-append (credentials s) host (credentials-IsUserInfo s) (no_at host ∙ rw h)

is_empty-credentials : (s : Text) → is_empty (credentials s) ≡ not (has_at s)
unfolding credentials has_at
is_empty-credentials [] = refl
is_empty-credentials (c ∷ s) = ground (arith, is_empty-credentials s)

credentials-append : (s : Text) → credentials s ++ after_at s ≡ s
unfolding credentials after_at has_at
credentials-append [] = refl
credentials-append (c ∷ s) = ground (arith, credentials-append s, is_empty-credentials s)

-- The text of a URL with this scheme and authority.
abbrev url_of : Text → Text → Text → Text
url_of scheme authority path = scheme ++ (codes "://" ++ (authority ++ (codes "/" ++ path)))

abbrev server_of : Text → Text → Text
server_of scheme authority = scheme ++ (codes "://" ++ (authority ++ codes "/"))

-- The scheme of a URL ends at the first `://`, whatever follows.
abbrev IsScheme : Text → Type 0
IsScheme scheme =
    (rest : Text)
    → split_first (codes "://") (scheme ++ (codes "://" ++ rest)) ≡ some (scheme, rest)

split_parts :
    (url server name query : Text)
    → split_database_name url ≡ some (server, name, query)
    → (scheme authority : Text) × IsScheme scheme
      × Lacks b'/' authority
      × (server ≡ server_of scheme authority)
      × (split_query (name ++ query) ≡ (name, query))
unfolding split_database_name
split_parts url server name query h = elim (Option-cases (split_first (codes "://") url)) [
  | inl a ↦ ground arith
  | inr ((scheme, rest), a) ↦ elim (Option-cases (split_first (codes "/") rest)) [
    | inl b ↦ ground arith
    | inr ((authority, path), b) ↦
        let n = (split_query path).0 in
        let q = (split_query path).1 in
        let whole = split_database_name_lem url scheme rest authority path n q a b refl in
        let x = (split_query_again path [] n q refl refl).0 in
        let same_server : server ≡ server_of scheme authority = cc (h, whole) in
        let same_name : name ≡ n = cc (h, whole) in
        let same_query : query ≡ q = cc (h, whole) in
        (
          scheme,
          authority,
          λ other. split_first-again b':' (codes "//") url scheme rest other a,
          split_first-Lacks rest authority path b,
          same_server,
          rw (same_name, same_query, ← x) refl,
        )
  ]
]

url_of-split :
    (scheme authority name query : Text)
    → IsScheme scheme
    → Lacks b'/' authority
    → split_query (name ++ query) ≡ (name, query)
    → split_database_name (url_of scheme authority (name ++ query))
      ≡ some (server_of scheme authority, name, query)
url_of-split scheme authority name query i l s =
    split_database_name_lem _ scheme _ authority (name ++ query) name query (i _)
      (split_first-slash authority (name ++ query) l) s

target_lem :
    (url scheme authority name query : Text)
    → IsScheme scheme
    → Lacks b'/' authority
    → split_database_name url ≡ some (server_of scheme authority, name, query)
    → target url ≡ some (with_port (after_at authority))
unfolding target second_part
target_lem url scheme authority name query i l s =
    rw
      (
        target,
        s,
        second_part,
        i (authority ++ codes "/"),
        one_slash authority l,
        trim_end_slashes-append authority l,
      )
      refl

proxied_url_lem :
    (addr url scheme authority name query : Text)
    → IsScheme scheme
    → split_database_name url ≡ some (server_of scheme authority, name, query)
    → proxied_url addr url
      ≡ some (
          scheme
          ++ (codes "://" ++ (credentials authority ++ (addr ++ (codes "/" ++ (name ++ query))))))
unfolding proxied_url
proxied_url_lem addr url scheme authority name query i s =
    rw (proxied_url, s, i (authority ++ codes "/"), drop_last-append authority b'/') refl

with_port_lem : (s : Text) → any (λ c. c == b':') s ≡ true → with_port s ≡ s
unfolding with_port
with_port_lem s h = rw h refl

-- A URL through the proxy, for a URL that is split and an address of the proxy with a port and
-- without `/` and `@`: it is the URL with its host replaced. The scheme, the credentials, the name
-- and the query stay, and a proxy to it would connect to this address, as one to the first URL
-- does to its host, at the port 5432 if it has none.
pub proxied_leads :
    (addr url server name query : Text)
    → split_database_name url ≡ some (server, name, query)
    → Lacks b'/' addr
    → Lacks b'@' addr
    → any (λ c. c == b':') addr ≡ true
    → (scheme user host proxied : Text) × (server
        ≡ scheme ++ (codes "://" ++ ((user ++ host) ++ codes "/")))
      × (target url ≡ some (with_port host))
      × (proxied_url addr url ≡ some proxied)
      × (split_database_name proxied
          ≡ some (scheme ++ (codes "://" ++ ((user ++ addr) ++ codes "/")), name, query))
      × (target proxied ≡ some addr)
proxied_leads addr url server name query h no_slash no_at has_port =
    let (scheme, authority, is_scheme, one_part, same_server, is_query) =
      split_parts url server name query h in
    let found = h ∙ rw same_server refl in
    let user = credentials authority in
    let whole = credentials-append authority in
    let fits : Lacks b'/' (user ++ addr) =
      all-append (λ c. not (c == b'/')) user addr
      ∙ rw (credentials-Lacks b'/' authority one_part, no_slash) refl in
    let proxied = url_of scheme (user ++ addr) (name ++ query) in
    let split = url_of-split scheme (user ++ addr) name query is_scheme fits is_query in
    let reached = target_lem proxied scheme (user ++ addr) name query is_scheme fits split in
    (
      scheme,
      user,
      after_at authority,
      proxied,
      rw whole same_server,
      target_lem url scheme authority name query is_scheme one_part found,
      proxied_url_lem addr url scheme authority name query is_scheme found
          ∙ rw (append_assoc user addr (codes "/" ++ (name ++ query))) refl,
      split,
      reached ∙ rw (after_at-credentials authority addr no_at, with_port_lem addr has_port) refl,
    )
