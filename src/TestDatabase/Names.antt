-- ===== src/TestDatabase/Names.antt =====
-- Which database names the tests accept, and the names and URLs that they make.
use pulse_stream.Common.{
  ℕ, zero, suc, ◌≡◌, ◌≢◌, inl, inr, ◌↔◌, refl, ap, ◌∙◌, sym, Bool, true, Bool-cases, Text, String,
  codes, utf8, utf8_char, text_eq, text_eq_iff, text_eq_refl, all, all-append, length,
  length-append, take, Option, Option-cases, some, Result-cases, ok, arith, [], ◌∷◌, ◌++◌,
}
use pulse_stream.TestDatabase.{
  TestDatabase, is_plain, ends_with, guard_test_database_name, split_database_name, named,
  create_empty, test_database_url_var,
}
use pulse_stream.TestDatabase.Urls.{split_database_name_again}

ends_with_refl : (s : Text) → ends_with s s ≡ true
unfolding ends_with
ends_with_refl [] = refl
ends_with_refl (c ∷ s) = ground (arith, text_eq_refl (c ∷ s))

ends_with-append : (front suffix : Text) → ends_with (front ++ suffix) suffix ≡ true
unfolding ends_with
ends_with-append [] suffix = ends_with_refl suffix
ends_with-append (c ∷ front) suffix = ground (arith, ends_with-append front suffix)

front_of : (s suffix : Text) → ends_with s suffix ≡ true → (front : Text) × (s ≡ front ++ suffix)
unfolding ends_with
front_of [] [] h = ([], refl)
front_of [] (d ∷ t) h = cc
front_of (c ∷ s) suffix h = elim (Bool-cases (text_eq (c ∷ s) suffix)) [
  | inl e ↦ ([], (text_eq_iff (c ∷ s) suffix).0 e)
  | inr e ↦ let (front, q) = front_of s suffix (ground arith) in (c ∷ front, ap (λ z. c ∷ z) q)
]

ends_with_iff :
    (s suffix : Text) → (ends_with s suffix ≡ true) ↔ ((front : Text) × (s ≡ front ++ suffix))
ends_with_iff s suffix = (front_of s suffix, λ (front, q). rw q (ends_with-append front suffix))

utf8_char-plain : (c : ℕ) → all is_plain (utf8_char c) ≡ is_plain c
unfolding utf8_char is_plain
utf8_char-plain c = ground arith

utf8-plain : (name : Text) → all is_plain (utf8 name) ≡ all is_plain name
unfolding utf8
utf8-plain [] = refl
utf8-plain (c ∷ s) =
    rw (all-append is_plain (utf8_char c) (utf8 s), utf8_char-plain c, utf8-plain s) refl

guard_lem :
    (debug : Text → Text) (name : Text)
    → (guard_test_database_name debug name ≡ ok tt)
      ↔ ((all is_plain name ≡ true) × (ends_with name (codes "_test") ≡ true))
unfolding guard_test_database_name ends_with
guard_lem debug [] = ground arith
guard_lem debug (c ∷ s) = ground (arith, utf8-plain (c ∷ s))

-- The guard lets a name pass exactly if it consists of lowercase letters, digits and underscores
-- and ends in `_test`.
pub guard_test_database_name_iff :
    (debug : Text → Text) (name : Text)
    → (guard_test_database_name debug name ≡ ok tt)
      ↔ ((all is_plain name ≡ true) × ((front : Text) × (name ≡ front ++ codes "_test")))
unfolding guard_test_database_name
guard_test_database_name_iff debug name =
    ground (arith, guard_lem debug name, ends_with_iff name (codes "_test"))

all-take : (p : ℕ → Bool) (n : ℕ) (s : Text) → all p s ≡ true → all p (take n s) ≡ true
all-take p zero s h = refl
all-take p (suc n) [] h = refl
all-take p (suc n) (c ∷ s) h = ground (arith, all-take p n s)

named_lem :
    (hex admin_url server base query : Text)
    → all is_plain base ≡ true
    → all is_plain hex ≡ true
    → split_database_name admin_url ≡ some (server, base, query)
    → (all is_plain (named hex admin_url (server, base, query)).name ≡ true)
      × (split_database_name (named hex admin_url (server, base, query)).url
          ≡ some (server, (named hex admin_url (server, base, query)).name, query))
unfolding named is_plain
named_lem hex admin_url server base query b h s =
    let name = base ++ (codes "_" ++ take 12 hex) in
    let plain : all is_plain name ≡ true =
      ground
        (arith, all-append is_plain base (codes "_" ++ take 12 hex), all-take is_plain 12 hex) in
    (plain, (split_database_name_again admin_url server base query name s plain).1)

create_empty_lem :
    (debug : Text → Text) (env : String → Option Text) (hex admin_url server base query : Text)
    → env test_database_url_var ≡ some admin_url
    → split_database_name admin_url ≡ some (server, base, query)
    → guard_test_database_name debug base ≡ ok tt
    → create_empty debug env hex ≡ some (named hex admin_url (server, base, query))
unfolding create_empty
create_empty_lem debug env hex admin_url server base query e s g = rw (create_empty, e, s, g) refl

longer : (c : ℕ) (front back : Text) → front ++ c ∷ back ≢ front
longer c front back h = omega (arith, length-append front (c ∷ back), ap length h)

-- A disposable database, given a UUID's text of lowercase letters and digits: the variable of the
-- tests names a database that ends in `_test`; the disposable one has a name of its own, of
-- lowercase letters, digits and underscores, that begins with that name; and its URL is split
-- into the same server and query as the variable's, with the disposable name between them.
pub create_empty_confined :
    (debug : Text → Text) (env : String → Option Text) (hex : Text) (d : TestDatabase)
    → all is_plain hex ≡ true
    → create_empty debug env hex ≡ some d
    → (server base query front : Text) × (env test_database_url_var ≡ some d.admin_url)
      × (split_database_name d.admin_url ≡ some (server, base, query))
      × (split_database_name d.url ≡ some (server, d.name, query))
      × (base ≡ front ++ codes "_test")
      × (d.name ≡ base ++ (codes "_" ++ take 12 hex))
      × (d.name ≢ base)
      × (all is_plain d.name ≡ true)
unfolding create_empty named
create_empty_confined debug env hex d h c = elim (Option-cases (env test_database_url_var)) [
  | inl e ↦ ground arith
  | inr (admin_url, e) ↦ elim (Option-cases (split_database_name admin_url)) [
    | inl s ↦ ground arith
    | inr ((server, base, query), s) ↦ elim (Result-cases (guard_test_database_name debug base)) [
      | inr (message, g) ↦ ground arith
      | inl (done, g) ↦
          let whole = create_empty_lem debug env hex admin_url server base query e s g in
          let same : named hex admin_url (server, base, query) ≡ d = cc (c, whole) in
          let (plain, (front, q)) = (guard_test_database_name_iff debug base).0 g in
          let (p, again) = named_lem hex admin_url server base query plain h s in
          (
            server,
            base,
            query,
            front,
            e ∙ ap (λ x. some x.admin_url) same,
            rw (← same) s,
            rw (← same) again,
            q,
            ap (λ x. x.name) (sym same),
            rw (← same) (longer b'_' base (take 12 hex)),
            rw (← same) p,
          )
    ]
  ]
]
