-- ===== src/TestDatabase/Urls.antt =====
-- Where a database URL is split.
use pulse_stream.Common.{
  ℕ, ◌≤◌, ◌≡◌, inl, inr, refl, ap, ◌∙◌, sym, true, Text, codes, all, length, length-append,
  Option-cases, none, some, arith, [], ◌∷◌, ◌++◌, append_assoc, append-nil,
}
use pulse_stream.Config.{strip_prefix}
use pulse_stream.Config.Scan.{strip_prefix-eq, strip_prefix-append}
use pulse_stream.TestDatabase.{split_first, split_query, split_database_name, is_plain}

-- Whether a pattern stands at the begin hangs on as many characters as the pattern has.
strip_prefix-none :
    (x pattern a b : Text)
    → length pattern ≤ length x
    → strip_prefix (x ++ a) pattern ≡ none
    → strip_prefix (x ++ b) pattern ≡ none
unfolding strip_prefix
strip_prefix-none x [] a b l h = cc
strip_prefix-none [] (d ∷ t) a b l h = absurd (omega (arith, l))
strip_prefix-none (c ∷ x) (d ∷ t) a b l h = ground (arith, strip_prefix-none x t a b)

split_first-hit :
    (pattern : Text) (c : ℕ) (s rest : Text)
    → strip_prefix (c ∷ s) pattern ≡ some rest
    → split_first pattern (c ∷ s) ≡ some ([], rest)
unfolding split_first
split_first-hit pattern c s rest e = rw (split_first, e) refl

split_first-miss :
    (pattern : Text) (c : ℕ) (s before after : Text)
    → strip_prefix (c ∷ s) pattern ≡ none
    → split_first pattern s ≡ some (before, after)
    → split_first pattern (c ∷ s) ≡ some (c ∷ before, after)
unfolding split_first
split_first-miss pattern c s before after e f = rw (split_first, e, f) refl

split_first-none :
    (pattern : Text) (c : ℕ) (s : Text)
    → strip_prefix (c ∷ s) pattern ≡ none
    → split_first pattern s ≡ none
    → split_first pattern (c ∷ s) ≡ none
unfolding split_first
split_first-none pattern c s e f = rw (split_first, e, f) refl

strip_prefix-other :
    (x pattern a b : Text)
    → strip_prefix (x ++ (pattern ++ a)) pattern ≡ none
    → strip_prefix (x ++ (pattern ++ b)) pattern ≡ none
strip_prefix-other x pattern a b h = rw (← append_assoc x pattern b) (
    strip_prefix-none (x ++ pattern) pattern a b (omega (arith, length-append x pattern))
      (rw (append_assoc x pattern a) h))

module _ (d : ℕ) (t : Text) where
  pub split_first-eq :
      (s before after : Text)
      → split_first (d ∷ t) s ≡ some (before, after)
      → s ≡ before ++ (d ∷ t ++ after)
  unfolding split_first
  split_first-eq [] before after h = cc
  split_first-eq (c ∷ s) before after h = elim (Option-cases (strip_prefix (c ∷ s) (d ∷ t))) [
    | inr (rest, e) ↦
        let q = strip_prefix-eq (c ∷ s) (d ∷ t) rest e in
        let same : some ([], rest) ≡ some (before, after) =
          sym (split_first-hit (d ∷ t) c s rest e) ∙ h in
        cc (q, same)
    | inl e ↦ elim (Option-cases (split_first (d ∷ t) s)) [
      | inl f ↦ cc (split_first-none (d ∷ t) c s e f, h)
      | inr ((b, a), f) ↦
          let q = split_first-eq s b a f in
          let same : some (c ∷ b, a) ≡ some (before, after) =
            sym (split_first-miss (d ∷ t) c s b a e f) ∙ h in
          cc (q, same)
    ]
  ]

  pub split_first-again :
      (s before after other : Text)
      → split_first (d ∷ t) s ≡ some (before, after)
      → split_first (d ∷ t) (before ++ (d ∷ t ++ other)) ≡ some (before, other)
  unfolding split_first
  split_first-again [] before after other h = cc
  split_first-again (c ∷ s) before after other h =
      elim (Option-cases (strip_prefix (c ∷ s) (d ∷ t))) [
        | inr (rest, e) ↦
            let same : some ([], rest) ≡ some (before, after) =
              sym (split_first-hit (d ∷ t) c s rest e) ∙ h in
            let empty : [] ≡ before = cc same in
            rw (← empty)
              (split_first-hit (d ∷ t) d (t ++ other) other (strip_prefix-append (d ∷ t) other))
        | inl e ↦ elim (Option-cases (split_first (d ∷ t) s)) [
          | inl f ↦ cc (split_first-none (d ∷ t) c s e f, h)
          | inr ((b, a), f) ↦
              let same : some (c ∷ b, a) ≡ some (before, after) =
                sym (split_first-miss (d ∷ t) c s b a e f) ∙ h in
              let begin : c ∷ b ≡ before = cc same in
              rw (← begin) (
                split_first-miss (d ∷ t) c _ b other
                  (strip_prefix-other (c ∷ b) (d ∷ t) a other (rw (← split_first-eq s b a f) e))
                  (split_first-again s b a other f))
        ]
      ]

plain_split_first : (m : Text) → all is_plain m ≡ true → split_first (codes "?") m ≡ none
unfolding split_first strip_prefix is_plain
plain_split_first [] h = refl
plain_split_first (c ∷ m) h = ground (arith, plain_split_first m)

plain_split_first_query :
    (m x : Text)
    → all is_plain m ≡ true
    → split_first (codes "?") (m ++ (codes "?" ++ x)) ≡ some (m, x)
unfolding split_first strip_prefix is_plain
plain_split_first_query [] x h = refl
plain_split_first_query (c ∷ m) x h = ground (arith, plain_split_first_query m x)

split_query-none :
    (path : Text) → split_first (codes "?") path ≡ none → split_query path ≡ (path, [])
unfolding split_query
split_query-none path e = rw (split_query, e) refl

split_query-some :
    (path name query : Text)
    → split_first (codes "?") path ≡ some (name, query)
    → split_query path ≡ (name, codes "?" ++ query)
unfolding split_query
split_query-some path name query e = rw (split_query, e) refl

pub split_query_again :
    (path m name query : Text)
    → all is_plain m ≡ true
    → split_query path ≡ (name, query)
    → (path ≡ name ++ query) × (split_query (m ++ query) ≡ (m, query))
split_query_again path m name query h s = elim (Option-cases (split_first (codes "?") path)) [
  | inl e ↦
      let q : query ≡ [] = cc (s, split_query-none path e) in
      let n : name ≡ path = cc (s, split_query-none path e) in
      (
        rw (q, n) (sym (append-nil path)),
        rw (q, append-nil m) (split_query-none m (plain_split_first m h)),
      )
  | inr ((n, x), e) ↦
      let q : query ≡ codes "?" ++ x = cc (s, split_query-some path n x e) in
      let r : name ≡ n = cc (s, split_query-some path n x e) in
      (
        rw (q, r) (split_first-eq b'?' [] path n x e),
        rw q (split_query-some (m ++ (codes "?" ++ x)) m x (plain_split_first_query m x h)),
      )
]

pub split_database_name_lem :
    (url scheme rest authority path name query : Text)
    → split_first (codes "://") url ≡ some (scheme, rest)
    → split_first (codes "/") rest ≡ some (authority, path)
    → split_query path ≡ (name, query)
    → split_database_name url
      ≡ some (scheme ++ (codes "://" ++ (authority ++ codes "/")), name, query)
unfolding split_database_name
split_database_name_lem url scheme rest authority path name query a b c =
    rw (split_database_name, a, b, c) refl

server_append :
    (scheme authority r : Text)
    → (scheme ++ (codes "://" ++ (authority ++ codes "/"))) ++ r
      ≡ scheme ++ (codes "://" ++ (authority ++ (codes "/" ++ r)))
server_append scheme authority r =
    append_assoc scheme (codes "://" ++ (authority ++ codes "/")) r
    ∙ ap (λ z. scheme ++ (codes "://" ++ z)) (append_assoc authority (codes "/") r)

-- A database URL that is split is put together again from its parts; and with another name of
-- lowercase letters, digits and underscores in it, it is split at the same places.
pub split_database_name_again :
    (url server name query other : Text)
    → split_database_name url ≡ some (server, name, query)
    → all is_plain other ≡ true
    → (url ≡ server ++ (name ++ query))
      × (split_database_name (server ++ (other ++ query)) ≡ some (server, other, query))
unfolding split_database_name
split_database_name_again url server name query other h k =
    elim (Option-cases (split_first (codes "://") url)) [
      | inl a ↦ ground arith
      | inr ((scheme, rest), a) ↦ elim (Option-cases (split_first (codes "/") rest)) [
        | inl b ↦ ground arith
        | inr ((authority, path), b) ↦
            let n = (split_query path).0 in
            let q = (split_query path).1 in
            let whole = split_database_name_lem url scheme rest authority path n q a b refl in
            let (x, again) = split_query_again path other n q k refl in
            let s : server ≡ scheme ++ (codes "://" ++ (authority ++ codes "/")) = cc (h, whole) in
            let same_name : name ≡ n = cc (h, whole) in
            let same_query : query ≡ q = cc (h, whole) in
            let first = split_first-eq b':' (codes "//") url scheme rest a in
            let second = split_first-eq b'/' [] rest authority path b in
            let tail = authority ++ (codes "/" ++ (other ++ q)) in
            let first_again = split_first-again b':' (codes "//") url scheme rest tail a in
            let second_again = split_first-again b'/' [] rest authority path (other ++ q) b in
            (
              rw (s, same_name, same_query, server_append scheme authority (n ++ q), ← x, ← second)
                  first,
              rw (s, same_query, server_append scheme authority (other ++ q))
                  (split_database_name_lem (scheme ++ (codes "://" ++ tail)) scheme tail authority
                    (other ++ q) other q first_again second_again again),
            )
      ]
    ]
