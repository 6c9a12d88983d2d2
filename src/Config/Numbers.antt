-- ===== src/Config/Numbers.antt =====
-- `str::parse::<u64>`.
use pulse_stream.Common.{
  ℕ, ◌+◌, ◌*◌, ◌-◌, ◌^◌, Text, ◌&&◌, leb, ltb, ◌==◌, if◌then◌else◌, Option, none, some, [], ◌∷◌,
}

-- The digits after a number that is read already, with checked arithmetic.
unfoldable pub parse_digits : Text → ℕ → Option ℕ
parse_digits [] n = some n
parse_digits (c ∷ s) n =
    let rest = parse_digits s (n * 10 + (c - 48)) in
    if leb 48 c && leb c 57 && ltb (n * 10 + (c - 48)) (2 ^ 64) then rest else none

unfoldable pub parse_number : Text → Option ℕ
unfolding parse_digits
parse_number [] = none
parse_number (c ∷ s) = parse_digits (c ∷ s) 0

-- One plus sign may come first.
unfoldable pub parse_u64 : Text → Option ℕ
unfolding parse_number
parse_u64 [] = none
parse_u64 (c ∷ s) = if c == 43 then parse_number s else parse_number (c ∷ s)
