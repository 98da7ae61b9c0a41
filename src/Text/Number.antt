-- ===== src/Text/Number.antt =====
-- strconv.ParseInt(s, 10, 64) and strconv.Atoi, where int has 64 bits.
use copyfail_validation.Base.{
  ℕ, [], ◌∷◌, Bool, true, false, ◌&&◌, ◌==◌, leb, ltb, ◌+◌, ◌-◌, ◌*◌, ◌^◌, if◌then◌else◌,
}
use copyfail_validation.Base.Int.{ℤ, pos, negsuc}
use copyfail_validation.Text.{Text}

pub data NumError : Type 0 where
  invalid_syntax value_out_of_range : NumError

pub data Parsed {ℓ} (A : Type ℓ) : Type ℓ where
  parsed : A → Parsed A
  refused : NumError → Parsed A

unfoldable pub is_digit : ℕ → Bool
is_digit c = leb b'0' c && leb c b'9'

-- The loop of ParseUint: it stops at the first byte that is no digit, and at the first value
-- that does not fit 64 bits.
unfoldable pub parse_digits : ℕ → Text → Parsed ℕ
unfolding is_digit
parse_digits n [] = parsed n
parse_digits n (c ∷ s) =
    let m = n * 10 + (c - b'0') in
    let rest = parse_digits m s in
    if is_digit c
    then if ltb m (2 ^ 64) then rest else refused value_out_of_range
    else refused invalid_syntax

unfoldable pub parse_uint : Text → Parsed ℕ
unfolding parse_digits
parse_uint [] = refused invalid_syntax
parse_uint (c ∷ s) = parse_digits 0 (c ∷ s)

unfoldable pub with_sign : Bool → Parsed ℕ → Parsed ℤ
with_sign neg (refused e) = refused e
with_sign false (parsed n) = if ltb n (2 ^ 63) then parsed (pos n) else refused value_out_of_range
with_sign true (parsed n) =
    if n == 0
    then parsed (pos 0)
    else if leb n (2 ^ 63)
    then parsed (negsuc (n - 1))
    else refused value_out_of_range

unfoldable pub parse_int : Text → Parsed ℤ
unfolding parse_uint with_sign
parse_int [] = refused invalid_syntax
parse_int (c ∷ s) =
    if c == b'-'
    then with_sign true (parse_uint s)
    else if c == b'+'
    then with_sign false (parse_uint s)
    else with_sign false (parse_uint (c ∷ s))
