-- ===== src/Config/Urls.antt =====
-- Which database URLs are accepted (DatabaseUrl::parse).
use pulse_stream.Common.{
  ◌≡◌, ◌≢◌, ◌⊎◌, inl, inr, ◌↔◌, refl, ◌∙◌, sym, true, false, not, ◌||◌, Bool-cases, Text, codes,
  trim, is_empty, all, starts_with, ◌==◌, Option, Option-cases, none, some, ok, arith, [], ◌∷◌,
  ◌++◌, append_assoc,
}
use pulse_stream.Config.{
  DatabaseUrl, strip_prefix, before_path, has_at, after_at, or_else, check_host, parse_url,
}
use pulse_stream.Config.Scan.{
  strip_prefix-eq, strip_prefix-append, EndsAuthority, IsUserInfo, before_path-eq,
  before_path-append, after_at-none, after_at-append, after_at-eq, no_at,
}

-- A scheme, perhaps a user before an `@`, a host, and perhaps a path or a query.
pub record IsDatabaseUrl (value : Text) : Type 0 where
  pub scheme : Text
  pub user : Text
  pub host : Text
  pub tail : Text
  pub made_of : value ≡ scheme ++ ((user ++ host) ++ tail)
  pub known : (scheme ≡ codes "postgres://") ⊎ (scheme ≡ codes "postgresql://")
  pub info : IsUserInfo user
  pub one_part : all (λ c. not ((c == b'/') || (c == b'?'))) (user ++ host) ≡ true
  pub ends : EndsAuthority tail
  pub no_user : all (λ c. not (c == b'@')) host ≡ true
  pub not_empty : host ≢ []
  pub not_port : starts_with host (codes ":") ≡ false

other_scheme :
    (rest : Text) → strip_prefix (codes "postgresql://" ++ rest) (codes "postgres://") ≡ none
unfolding strip_prefix
other_scheme rest = refl

after_scheme_iff :
    (value rest : Text)
    → (or_else
          (strip_prefix value (codes "postgres://"))
          (strip_prefix value (codes "postgresql://"))
        ≡ some rest)
      ↔ ((value ≡ codes "postgres://" ++ rest) ⊎ (value ≡ codes "postgresql://" ++ rest))
unfolding or_else
after_scheme_iff value rest = (
  λ h. elim (Option-cases (strip_prefix value (codes "postgres://"))) [
    | inl e ↦ inr (strip_prefix-eq value (codes "postgresql://") rest (rw e at h))
    | inr (r, e) ↦ inl (strip_prefix-eq value (codes "postgres://") rest (cc (e, rw e at h)))
  ],
  λ h. elim h [
    | inl e ↦ rw (e, strip_prefix-append (codes "postgres://") rest) refl
    | inr e ↦ rw (e, other_scheme rest, strip_prefix-append (codes "postgresql://") rest) refl
  ],
)

pub user-append :
    (user host : Text) → IsUserInfo user → has_at host ≡ false → after_at (user ++ host) ≡ host
user-append user host i h = elim i [
  | inl e ↦ rw e (after_at-none host h)
  | inr (name, e) ↦ rw (e, append_assoc name (b'@' ∷ []) host) (after_at-append name host h)
]

host_of :
    (user host tail : Text)
    → IsUserInfo user
    → all (λ c. not (c == b'@')) host ≡ true
    → all (λ c. not ((c == b'/') || (c == b'?'))) (user ++ host) ≡ true
    → EndsAuthority tail
    → after_at (before_path ((user ++ host) ++ tail)) ≡ host
host_of user host tail i h a t =
    rw (before_path-append (user ++ host) tail a t)
      (user-append user host i (no_at host ∙ rw h refl))

nonempty : (s : Text) → (is_empty s ≡ false) ↔ (s ≢ [])
nonempty [] = (λ h. cc, λ h. absurd (h refl))
nonempty (c ∷ s) = (λ h e. cc, λ h. refl)

check_host_iff :
    (value rest : Text) (url : DatabaseUrl)
    → (check_host value (some rest) ≡ ok url) ↔ (
        (url.text ≡ value)
        × (after_at (before_path rest) ≢ [])
        × (starts_with (after_at (before_path rest)) (codes ":") ≡ false))
unfolding check_host
check_host_iff value rest url = ground (arith, nonempty (after_at (before_path rest)))

abbrev after_scheme : Text → Option Text
after_scheme value =
    or_else (strip_prefix value (codes "postgres://")) (strip_prefix value (codes "postgresql://"))

parse_url_lem :
    (raw : Text) (o : Option Text)
    → is_empty (trim raw) ≡ false
    → after_scheme (trim raw) ≡ o
    → parse_url raw ≡ check_host (trim raw) o
unfolding parse_url
parse_url_lem raw o n h = rw (parse_url, n, h) refl

parse_url-none :
    (raw : Text) (url : DatabaseUrl)
    → (is_empty (trim raw) ≡ true) ⊎ (after_scheme (trim raw) ≡ none)
    → parse_url raw ≢ ok url
unfolding parse_url check_host
parse_url-none raw url (inl e) h = ground arith
parse_url-none raw url (inr e) h = ground arith

scheme_of :
    (value rest : Text)
    → (value ≡ codes "postgres://" ++ rest) ⊎ (value ≡ codes "postgresql://" ++ rest)
    → (scheme : Text) × (value ≡ scheme ++ rest)
      × ((scheme ≡ codes "postgres://") ⊎ (scheme ≡ codes "postgresql://"))
scheme_of value rest (inl e) = (codes "postgres://", e, inl refl)
scheme_of value rest (inr e) = (codes "postgresql://", e, inr refl)

-- The parts that the code finds are those of the description.
parts_of :
    (value rest : Text)
    → (value ≡ codes "postgres://" ++ rest) ⊎ (value ≡ codes "postgresql://" ++ rest)
    → after_at (before_path rest) ≢ []
    → starts_with (after_at (before_path rest)) (codes ":") ≡ false
    → IsDatabaseUrl value
parts_of value rest k n p =
    let (tail, e, a, t) = before_path-eq rest in
    let (user, q, i, h) = after_at-eq (before_path rest) in
    let host = after_at (before_path rest) in
    let whole : rest ≡ (user ++ host) ++ tail = rw (← q) e in
    let (scheme, same, known) = scheme_of value rest k in
    record {
      scheme = scheme;
      user = user;
      host = host;
      tail = tail;
      made_of = rw (← whole) same;
      known = known;
      info = i;
      one_part = rw (← q) a;
      ends = t;
      no_user = ground (arith, no_at host, h);
      not_empty = n;
      not_port = p;
    }

url_rest :
    (value : Text) (d : IsDatabaseUrl value)
    → (value ≡ codes "postgres://" ++ ((d.user ++ d.host) ++ d.tail))
      ⊎ (value ≡ codes "postgresql://" ++ ((d.user ++ d.host) ++ d.tail))
url_rest value d = elim d.known [
  | inl e ↦ inl (d.made_of ∙ rw e refl)
  | inr e ↦ inr (d.made_of ∙ rw e refl)
]

not_blank :
    (value rest : Text)
    → (value ≡ codes "postgres://" ++ rest) ⊎ (value ≡ codes "postgresql://" ++ rest)
    → is_empty value ≡ false
not_blank value rest (inl e) = rw e refl
not_blank value rest (inr e) = rw e refl

-- A database URL is accepted exactly if it has, without the white space around it, one of the two
-- schemes, perhaps a user before an `@`, a host that is not empty, has no `@` and does not begin
-- with a colon, and then nothing, a path or a query; it is kept without that white space.
pub parse_url_iff :
    (raw : Text) (url : DatabaseUrl)
    → (parse_url raw ≡ ok url) ↔ ((url.text ≡ trim raw) × IsDatabaseUrl (trim raw))
unfolding parse_url
parse_url_iff raw url = (
  λ h. elim (Bool-cases (is_empty (trim raw))) [
    | inl e ↦ absurd (parse_url-none raw url (inl e) h)
    | inr n ↦ elim (Option-cases (after_scheme (trim raw))) [
      | inl e ↦ absurd (parse_url-none raw url (inr e) h)
      | inr (rest, e) ↦
          let checked = sym (parse_url_lem raw (some rest) n e) ∙ h in
          let (same, some_host, no_port) = (check_host_iff (trim raw) rest url).0 checked in
          (
            same,
            parts_of (trim raw) rest ((after_scheme_iff (trim raw) rest).0 e) some_host no_port,
          )
    ]
  ],
  λ (e, d).
      let rest = (d.user ++ d.host) ++ d.tail in
      let split = url_rest (trim raw) d in
      let host = host_of d.user d.host d.tail d.info d.no_user d.one_part d.ends in
      parse_url_lem raw (some rest) (not_blank (trim raw) rest split)
        ((after_scheme_iff (trim raw) rest).1 split)
      ∙ (check_host_iff (trim raw) rest url).1 (e, rw host d.not_empty, rw host d.not_port),
)
