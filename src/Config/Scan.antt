-- ===== src/Config/Scan.antt =====
-- What the scans of DatabaseUrl::parse find.
use pulse_stream.Common.{
  ℕ, ◌≡◌, ◌⊎◌, inl, inr, refl, ap, ◌∙◌, sym, true, false, not, ◌||◌, Bool-cases, Text, all, ◌==◌,
  ==_iff, some, arith, [], ◌∷◌, ◌++◌,
}
use pulse_stream.Config.{strip_prefix, before_path, has_at, after_at}

pub strip_prefix-eq :
    (s pattern after : Text) → strip_prefix s pattern ≡ some after → s ≡ pattern ++ after
unfolding strip_prefix
strip_prefix-eq s [] after h = cc
strip_prefix-eq [] (d ∷ t) after h = cc
strip_prefix-eq (c ∷ s) (d ∷ t) after h = ground (arith, strip_prefix-eq s t after)

pub strip_prefix-append :
    (pattern after : Text) → strip_prefix (pattern ++ after) pattern ≡ some after
unfolding strip_prefix
strip_prefix-append [] after = refl
strip_prefix-append (d ∷ t) after = ground (arith, strip_prefix-append t after)

abbrev pub EndsAuthority : Text → Type 0
EndsAuthority [] = Unit
EndsAuthority (c ∷ s) = ((c == b'/') || (c == b'?')) ≡ true

pub before_path-eq :
    (s : Text)
    → (tail : Text) × (s ≡ before_path s ++ tail)
      × (all (λ c. not ((c == b'/') || (c == b'?'))) (before_path s) ≡ true)
      × EndsAuthority tail
unfolding before_path
before_path-eq [] = ([], refl, refl, tt)
before_path-eq (c ∷ s) =
    let (tail, e, a, t) = before_path-eq s in
    elim (Bool-cases ((c == b'/') || (c == b'?'))) [
      | inl q ↦ rw q (c ∷ s, refl, refl, q)
      | inr q ↦ rw q (tail, ap (λ z. c ∷ z) e, rw q a, t)
    ]

pub before_path-append :
    (a tail : Text)
    → all (λ c. not ((c == b'/') || (c == b'?'))) a ≡ true
    → EndsAuthority tail
    → before_path (a ++ tail) ≡ a
unfolding before_path
before_path-append [] [] h t = refl
before_path-append [] (c ∷ tail) h t = ground arith
before_path-append (c ∷ a) tail h t = ground (arith, before_path-append a tail)

-- What stands before the host.
abbrev pub IsUserInfo : Text → Type 0
IsUserInfo user = (user ≡ []) ⊎ ((name : Text) × (user ≡ name ++ b'@' ∷ []))

pub after_at-none : (s : Text) → has_at s ≡ false → after_at s ≡ s
unfolding after_at has_at
after_at-none [] h = refl
after_at-none (c ∷ s) h = ground (arith, after_at-none s)

has_at-append : (name host : Text) → has_at (name ++ b'@' ∷ host) ≡ true
unfolding has_at
has_at-append [] host = refl
has_at-append (c ∷ name) host = ground (arith, has_at-append name host)

pub after_at-append :
    (name host : Text) → has_at host ≡ false → after_at (name ++ b'@' ∷ host) ≡ host
unfolding after_at has_at
after_at-append [] host h = after_at-none host h
after_at-append (c ∷ name) host h =
    ground (arith, after_at-append name host, has_at-append name host)

after_at_later : (c : ℕ) (s : Text) → has_at s ≡ true → after_at (c ∷ s) ≡ after_at s
unfolding after_at
after_at_later c s e = ground arith

has_at-none : (c : ℕ) (s : Text) → (c == b'@') ≡ false → has_at s ≡ false → has_at (c ∷ s) ≡ false
unfolding has_at
has_at-none c s q e = rw (q, e) refl

after_at_last : (s : Text) → has_at s ≡ false → after_at (b'@' ∷ s) ≡ s
unfolding after_at
after_at_last s e = after_at-none s e

pub after_at-eq :
    (s : Text)
    → (user : Text) × (s ≡ user ++ after_at s) × IsUserInfo user × (has_at (after_at s) ≡ false)
unfolding after_at has_at
after_at-eq [] = ([], refl, inl refl, refl)
after_at-eq (c ∷ s) = elim (Bool-cases (has_at s)) [
  | inl e ↦
      let (user, q, i, n) = after_at-eq s in
      elim i [
        | inl empty ↦ let same : s ≡ after_at s = q ∙ rw empty refl in cc (same, e, n)
        | inr (name, p) ↦ (
          c ∷ user,
          rw (after_at_later c s e) (ap (λ z. c ∷ z) q),
          inr (c ∷ name, ap (λ z. c ∷ z) p),
          rw (after_at_later c s e) n,
        )
      ]
  | inr e ↦ elim (Bool-cases (c == b'@')) [
    | inl q ↦
        let same : c ≡ b'@' = (==_iff _ _).0 q in
        (
          c ∷ [],
          rw (same, after_at_last s e) refl,
          inr ([], ap (λ z. z ∷ []) same),
          rw (same, after_at_last s e) e,
        )
    | inr q ↦
        let none_here = has_at-none c s q e in
        let whole = after_at-none (c ∷ s) none_here in ([], sym whole, inl refl, rw whole none_here)
  ]
]

pub no_at : (s : Text) → has_at s ≡ not (all (λ c. not (c == b'@')) s)
unfolding has_at
no_at [] = refl
no_at (c ∷ s) = ground (arith, no_at s)
