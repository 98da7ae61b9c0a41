-- ===== src/Exec/Characters.antt =====
-- The characters that internal/exec/arg.go allows in an untrusted argument.
use copyfail_validation.Base.{
  ℕ, zero, suc, ◌<◌, ◌≤◌, ltb, ltb→lt, Bool, ◌||◌, ◌&&◌, ◌==◌, not, Bool-cases, sym, ◌∙◌, [], ◌∷◌,
  true, false, ◌≡◌, inl, inr, refl, arith,
}
use copyfail_validation.Text.{Text, codes}
use copyfail_validation.Exec.{is_safe}

-- The characters that the comment on UntrustedArgRE allows, one by one.
abbrev pub documented : Text
documented = codes "ABCDEFGHIJKLMNOPQRSTUVWXYZabcdefghijklmnopqrstuvwxyz0123456789._-/+:=,@"

unfoldable pub is_in : ℕ → Text → Bool
is_in c [] = false
is_in c (d ∷ s) = c == d || is_in c s

abbrev same : Bool → Bool → Bool
same true b = b
same false b = not b

same_eq : (a b : Bool) → same a b ≡ true → a ≡ b
same_eq a b h = ground arith

both_true : (a b : Bool) → (a && b) ≡ true → (a ≡ true) × (b ≡ true)
both_true a b h = ground arith

-- The class and the list agree on the code points below `n`.
agree_below : ℕ → Bool
unfolding is_safe is_in
agree_below zero = true
agree_below (suc n) = let rest = agree_below n in same (is_safe n) (is_in n documented) && rest

agree_below_at : (n c : ℕ) → agree_below n ≡ true → c < n → is_safe c ≡ is_in c documented
unfolding agree_below
agree_below_at zero c h l = absurd (omega arith)
agree_below_at (suc n) c h l =
    let (now, before) = both_true (same (is_safe n) (is_in n documented)) (agree_below n) h in
    elim (Bool-cases (c == n)) [
      | inl e ↦
          let at : c ≡ n = ground (arith, e) in rw at (same_eq (is_safe n) (is_in n documented) now)
      | inr d ↦ agree_below_at n c before (ground (arith, d, l))
    ]

abbrev all_below : ℕ → Text → Bool
all_below n [] = true
all_below n (d ∷ s) = ltb d n && all_below n s

is_in-above : (n c : ℕ) (s : Text) → all_below n s ≡ true → n ≤ c → is_in c s ≡ false
unfolding is_in
is_in-above n c [] h l = refl
is_in-above n c (d ∷ s) h l =
    let (now, later) : (ltb d n ≡ true) × (all_below n s ≡ true) = ground (arith, h) in
    let rest = is_in-above n c s later l in
    let apart : (c == d) ≡ false = ground (arith, now, l) in rw (apart, rest) refl

is_safe-above : (c : ℕ) → 128 ≤ c → is_safe c ≡ false
unfolding is_safe
is_safe-above c l = ground (arith, l)

agree_on_ascii : agree_below 128 ≡ true
unfolding agree_below
agree_on_ascii = refl

pub is_safe-is_in : (c : ℕ) → is_safe c ≡ is_in c documented
is_safe-is_in c = elim (Bool-cases (ltb c 128)) [
  | inl l ↦ agree_below_at 128 c agree_on_ascii (ltb→lt c 128 l)
  | inr g ↦
      let l : 128 ≤ c = ground (arith, g) in
      is_safe-above c l ∙ sym (is_in-above 128 c documented refl l)
]
