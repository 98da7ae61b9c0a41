-- ===== src/Text/Decimal.antt =====
-- strconv.Itoa and the verb `%d`: decimal digits, and that they are read back.
use Prim.Native.Nat.{◌/◌, ◌%◌}
use copyfail_validation.Base.{
  ℕ, zero, suc, [], ◌∷◌, ◌+◌, ◌*◌, ◌^◌, ◌<◌, ◌≤◌, ◌-◌, ◌≡◌, ◌∙◌, arith, ltb, if◌then◌else◌,
  Bool-cases, inl, inr, All, true, ltb→lt,
}
use copyfail_validation.Base.Int.{ℤ, pos, negsuc}
use copyfail_validation.Text.{Text}
use copyfail_validation.Text.Number.{parsed, is_digit, parse_digits}

-- The digits of a number before the text; the fuel is to be above the number.
unfoldable pub digits : ℕ → ℕ → Text → Text
digits zero n rest = rest
digits (suc fuel) n rest =
    let more = digits fuel (n / 10) ((b'0' + n % 10) ∷ rest) in
    if ltb n 10 then (b'0' + n) ∷ rest else more

unfoldable pub format_ℕ : ℕ → Text
unfolding digits
format_ℕ n = digits (suc n) n []

unfoldable pub format_ℤ : ℤ → Text
unfolding format_ℕ
format_ℤ (pos n) = format_ℕ n
format_ℤ (negsuc n) = b'-' ∷ format_ℕ (n + 1)

-- Reading a digit after a value.
parse_digits-cons :
    (m d n : ℕ) (rest : Text)
    → d < 10
    → m * 10 + d ≡ n
    → n < 2 ^ 64
    → parse_digits m ((b'0' + d) ∷ rest) ≡ parse_digits n rest
unfolding parse_digits is_digit
parse_digits-cons m d n rest h e k =
    let same : m * 10 + (b'0' + d - b'0') ≡ n = omega arith in rw same (ground (arith, h, k))

parse_digits-digits :
    (fuel n : ℕ) (rest : Text)
    → n < fuel
    → n < 2 ^ 64
    → parse_digits 0 (digits fuel n rest) ≡ parse_digits n rest
unfolding digits
parse_digits-digits zero n rest h k = absurd (omega arith)
parse_digits-digits (suc fuel) n rest h k = elim (Bool-cases (ltb n 10)) [
  | inl l ↦ rw l (parse_digits-cons 0 n n rest (ltb→lt n 10 l) (omega arith) k)
  | inr g ↦
      let big : 10 ≤ n = ground (arith, g) in
      rw g (
        parse_digits-digits fuel (n / 10) ((b'0' + n % 10) ∷ rest) (omega arith) (omega arith)
        ∙ parse_digits-cons (n / 10) (n % 10) n rest (omega arith) (omega arith) k)
]

-- What Itoa writes, Atoi reads.
pub parse_digits-format_ℕ : (n : ℕ) → n < 2 ^ 64 → parse_digits 0 (format_ℕ n) ≡ parsed n
unfolding format_ℕ parse_digits
parse_digits-format_ℕ n h = parse_digits-digits (suc n) n [] (omega arith) h

digits-is_digit :
    (fuel n : ℕ) (rest : Text)
    → All (λ c. is_digit c ≡ true) rest
    → All (λ c. is_digit c ≡ true) (digits fuel n rest)
unfolding digits is_digit
digits-is_digit zero n rest h = h
digits-is_digit (suc fuel) n rest h = elim (Bool-cases (ltb n 10)) [
  | inl l ↦ rw l (ground (arith, l), h)
  | inr g ↦ rw g (digits-is_digit fuel (n / 10) ((b'0' + n % 10) ∷ rest) (ground arith, h))
]

pub format_ℕ-is_digit : (n : ℕ) → All (λ c. is_digit c ≡ true) (format_ℕ n)
unfolding format_ℕ
format_ℕ-is_digit n = digits-is_digit (suc n) n [] tt
