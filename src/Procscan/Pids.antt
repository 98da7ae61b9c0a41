-- ===== src/Procscan/Pids.antt =====
-- Which entries of /proc internal/procscan/afalg.go takes for processes.
use copyfail_validation.Base.{
  ℕ, [], ◌∷◌, true, false, some, ltb, ◌+◌, ◌*◌, ◌-◌, ◌^◌, ◌<◌, ◌≡◌, ◌↔◌, refl, arith, Bool-cases,
  inl, inr, All, ◌≤◌, ltb→lt,
}
use copyfail_validation.Text.{Text}
use copyfail_validation.Text.Number.{
  parsed, refused, is_digit, parse_digits, parse_uint, with_sign, parse_int, value_out_of_range,
}
use copyfail_validation.Text.Decimal.{format_ℕ, format_ℕ-is_digit, parse_digits-format_ℕ}
use copyfail_validation.Procscan.{all_digits, positive, pid_from_name}

-- The number that digits stand for, behind the digits of `n`.
abbrev pub value_from : ℕ → Text → ℕ
value_from n [] = n
value_from n (c ∷ s) = value_from (n * 10 + (c - b'0')) s

value_from-le : (n : ℕ) (s : Text) → n ≤ value_from n s
value_from-le n [] = omega arith
value_from-le n (c ∷ s) = omega (arith, value_from-le (n * 10 + (c - b'0')) s)

-- What the loop of ParseUint makes of digits.
parse_digits-value :
    (n : ℕ) (s : Text)
    → All (λ c. is_digit c ≡ true) s
    → n < 2 ^ 64
    → (value_from n s < 2 ^ 64 → parse_digits n s ≡ parsed (value_from n s))
      × (2 ^ 64 ≤ value_from n s → parse_digits n s ≡ refused value_out_of_range)
unfolding parse_digits
parse_digits-value n [] h k = (λ l. refl, λ l. absurd (omega arith))
parse_digits-value n (c ∷ s) h k = elim (Bool-cases (ltb (n * 10 + (c - b'0')) (2 ^ 64))) [
  | inl l ↦
      rw (h.0, l)
        (parse_digits-value (n * 10 + (c - b'0')) s h.1 (ltb→lt (n * 10 + (c - b'0')) (2 ^ 64) l))
  | inr g ↦
      rw (h.0, g)
        (
          λ l.
              let le : n * 10 + (c - b'0') ≤ value_from (n * 10 + (c - b'0')) s =
                value_from-le (n * 10 + (c - b'0')) s in
              absurd (ground (arith, g, le, l)),
          λ l. refl,
        )
]

all_digits_iff : (s : Text) → (all_digits s ≡ true) ↔ All (λ c. is_digit c ≡ true) s
unfolding all_digits
all_digits_iff [] = (λ h. tt, λ h. refl)
all_digits_iff (c ∷ s) = elim (Bool-cases (is_digit c)) [
  | inl d ↦ rw d (λ h. (refl, (all_digits_iff s).0 h), λ h. (all_digits_iff s).1 h.1)
  | inr n ↦ rw n (λ h. absurd (cc), λ h. absurd (cc (h.0)))
]

parse_int_of_digit :
    (c : ℕ) (s : Text)
    → is_digit c ≡ true
    → parse_int (c ∷ s) ≡ with_sign false (parse_digits 0 (c ∷ s))
unfolding parse_int parse_uint is_digit
parse_int_of_digit c s h = ground (arith, h)

-- A name of digits, by its number.
pid_from_name_of_digits :
    (c : ℕ) (s : Text)
    → All (λ d. is_digit d ≡ true) (c ∷ s)
    → pid_from_name (c ∷ s) ≡ positive (with_sign false (parse_digits 0 (c ∷ s)))
unfolding pid_from_name
pid_from_name_of_digits c s h = rw ((all_digits_iff (c ∷ s)).1 h) (rw (parse_int_of_digit c s h.0))

-- The number of digits as a PID.
positive_iff :
    (v p : ℕ) → (positive (with_sign false (parsed v)) ≡ some p) ↔ (v ≡ p) × (0 < p) × (p < 2 ^ 63)
unfolding positive with_sign
positive_iff v p = (λ h. ground (arith, h), λ h. ground (arith, h))

digits_iff :
    (name : Text) (p : ℕ)
    → All (λ c. is_digit c ≡ true) name
    → (positive (with_sign false (parse_digits 0 name)) ≡ some p)
      ↔ (value_from 0 name ≡ p) × (0 < p) × (p < 2 ^ 63)
unfolding positive with_sign
digits_iff name p d =
    let (fits, big) = parse_digits-value 0 name d (omega arith) in
    elim (Bool-cases (ltb (value_from 0 name) (2 ^ 64))) [
      | inl l ↦
          rw (fits (ltb→lt (value_from 0 name) (2 ^ 64) l)) (positive_iff (value_from 0 name) p)
      | inr g ↦
          let large : 2 ^ 64 ≤ value_from 0 name = ground (arith, g) in
          rw (big large) (λ h. absurd (cc), λ (v, nonzero, small). absurd (omega arith))
    ]

-- An entry counts as the process `p` exactly if its name is made of digits that stand for `p`, and `p` is
-- positive and fits an int of 64 bits.
pub pid_from_name_iff :
    (name : Text) (p : ℕ)
    → (pid_from_name name ≡ some p)
      ↔ All (λ c. is_digit c ≡ true) name × (value_from 0 name ≡ p) × (0 < p) × (p < 2 ^ 63)
unfolding pid_from_name
pid_from_name_iff [] p = (λ h. absurd (cc), λ (d, v, nonzero, small). absurd (omega arith))
pid_from_name_iff (c ∷ s) p = elim (Bool-cases (all_digits (c ∷ s))) [
  | inl h ↦
      let d = (all_digits_iff (c ∷ s)).0 h in
      let (to, from) = digits_iff (c ∷ s) p d in
      rw (pid_from_name_of_digits c s d)
        (λ e. (d, (to e).0, (to e).1, (to e).2), λ (_, v, nonzero, small). from (v, nonzero, small))
  | inr n ↦ (
    λ e. absurd (ground (arith, n, e)),
    λ (d, v, nonzero, small). absurd (cc (n, (all_digits_iff (c ∷ s)).1 d)),
  )
]

value_from-format_ℕ : (p : ℕ) → p < 2 ^ 64 → value_from 0 (format_ℕ p) ≡ p
value_from-format_ℕ p small =
    let (fits, big) = parse_digits-value 0 (format_ℕ p) (format_ℕ-is_digit p) (omega arith) in
    elim (Bool-cases (ltb (value_from 0 (format_ℕ p)) (2 ^ 64))) [
      | inl l ↦
          cc (fits (ltb→lt (value_from 0 (format_ℕ p)) (2 ^ 64) l), parse_digits-format_ℕ p small)
      | inr g ↦
          let large : 2 ^ 64 ≤ value_from 0 (format_ℕ p) = ground (arith, g) in
          absurd (cc (big large, parse_digits-format_ℕ p small))
    ]

-- The directory that the scan asks for a process is one that it takes for that process.
pub pid_from_name-format_ℕ : (p : ℕ) → 0 < p → p < 2 ^ 63 → pid_from_name (format_ℕ p) ≡ some p
pid_from_name-format_ℕ p nonzero small =
    (pid_from_name_iff (format_ℕ p) p).1
      (format_ℕ-is_digit p, value_from-format_ℕ p (omega arith), nonzero, small)
