-- ===== src/Redact/Secrecy.antt =====
-- The matches of internal/redact/redact.go in two texts that differ in a secret.
use copyfail_validation.Base.{
  ℕ, List, [], ◌∷◌, ◌++◌, Bool, true, false, ◌||◌, not, ◌==◌, none, some, ◌≡◌, refl, ap, arith, All,
  Bool-cases, inl, inr,
}
use copyfail_validation.Text.{Text}
use copyfail_validation.Text.Laws.{Free}
use copyfail_validation.Redact.{
  fold_case, Match, with_code, or_match, is_blank, is_separator, rest_of_line, match_value,
  match_spaced_value, match_assignment, match_keyword, match_any,
}

abbrev pub newline : ℕ → Bool
newline c = c == b'\n'

abbrev pub has_secret : Text → Bool
has_secret [] = false
has_secret (c ∷ s) = not (is_blank c) || has_secret s

-- A value on one line that is not blank.
abbrev pub IsSecret : Text → Type 0
IsSecret v = Free newline v × (has_secret v ≡ true)

-- The text behind a line.
abbrev pub EndsLine : Text → Type 0
EndsLine [] = Unit
EndsLine (c ∷ s) = c ≡ b'\n'

rest_of_line-Free :
    (v after : Text) → Free newline v → EndsLine after → rest_of_line (v ++ after) ≡ (v, after)
unfolding rest_of_line
rest_of_line-Free [] [] h e = refl
rest_of_line-Free [] (c ∷ after) h e = rw e refl
rest_of_line-Free (c ∷ v) after h e = rw (h.0, rest_of_line-Free v after h.1 e) refl

pub match_spaced_value-IsSecret :
    (v after : Text)
    → IsSecret v
    → EndsLine after
    → match_spaced_value (v ++ after) ≡ some (v, after)
unfolding match_spaced_value match_value
match_spaced_value-IsSecret [] after (f, s) e = absurd (cc s)
match_spaced_value-IsSecret (c ∷ v) after (f, s) e = elim (Bool-cases (is_blank c)) [
  | inl b ↦
      let later : has_secret v ≡ true = rw b at s in
      rw (b, match_spaced_value-IsSecret v after (f.1, later) e) refl
  | inr n ↦ rw (n, f.0, rest_of_line-Free v after f.1 e) refl
]

-- Two secrets behind one separator, and the same text behind both.
module _ (sep : ℕ) (separates : is_separator sep ≡ true) (v w after : Text) (hv : IsSecret v)
    (hw : IsSecret w) (ends : EndsLine after) where
  -- The texts with the one secret and with the other.
  abbrev pub one : Text → Text
  one u = u ++ sep ∷ (v ++ after)

  abbrev pub two : Text → Text
  two u = u ++ sep ∷ (w ++ after)

  -- How the matches at the start of the two texts go together: there is none, or they end at one line
  -- break before the separator, or at the ends of the secrets.
  pub data Alike (u : Text) : Match → Match → Type 0 where
    neither : Alike u none none
    inside :
        (m rest : Text)
        → u ≡ m ++ b'\n' ∷ rest
        → Alike u (some (m, one (b'\n' ∷ rest))) (some (m, two (b'\n' ∷ rest)))
    across : Alike u (some (u ++ sep ∷ v, after)) (some (u ++ sep ∷ w, after))

  with_code-Alike :
      (c : ℕ) {u : Text} {a b : Match} → Alike u a b → Alike (c ∷ u) (with_code c a) (with_code c b)
  with_code-Alike c neither = neither
  with_code-Alike c (inside m rest e) = inside (c ∷ m) rest (ap (λ s. c ∷ s) e)
  with_code-Alike c across = across

  or_match-Alike :
      {u : Text} {a b c d : Match}
      → Alike u a b
      → Alike u c d
      → Alike u (or_match a c) (or_match b d)
  or_match-Alike neither h = h
  or_match-Alike (inside m rest e) h = inside m rest e
  or_match-Alike across h = across

  sep_newline : newline sep ≡ false
  unfolding is_separator
  sep_newline = ground (arith, separates)

  pub sep_blank : is_blank sep ≡ false
  unfolding is_separator is_blank
  sep_blank = ground (arith, separates)

  rest_of_line-Alike :
      (u : Text) → Alike u (some (rest_of_line (one u))) (some (rest_of_line (two u)))
  unfolding rest_of_line
  rest_of_line-Alike [] =
      rw (sep_newline, rest_of_line-Free v after hv.0 ends, rest_of_line-Free w after hw.0 ends)
        across
  rest_of_line-Alike (c ∷ u) = elim (Bool-cases (newline c)) [
    | inl n ↦ let same : c ≡ b'\n' = ground (arith, n) in rw same (inside [] u refl)
    | inr n ↦ rw n (with_code-Alike c (rest_of_line-Alike u))
  ]

  match_value-Alike : (u : Text) → Alike u (match_value (one u)) (match_value (two u))
  unfolding match_value
  match_value-Alike [] =
      rw (sep_newline, rest_of_line-Free v after hv.0 ends, rest_of_line-Free w after hw.0 ends)
        across
  match_value-Alike (c ∷ u) = elim (Bool-cases (newline c)) [
    | inl n ↦ rw n neither
    | inr n ↦ rw n (with_code-Alike c (rest_of_line-Alike u))
  ]

  match_spaced_value-Alike :
      (u : Text) → Alike u (match_spaced_value (one u)) (match_spaced_value (two u))
  unfolding match_spaced_value
  match_spaced_value-Alike [] = rw sep_blank (match_value-Alike [])
  match_spaced_value-Alike (c ∷ u) =
      let later = match_spaced_value-Alike u in
      elim (Bool-cases (is_blank c)) [
        | inl b ↦ rw b (or_match-Alike (with_code-Alike c later) (match_value-Alike (c ∷ u)))
        | inr n ↦ rw n (match_value-Alike (c ∷ u))
      ]

  match_assignment-Alike :
      (u : Text) → Alike u (match_assignment (one u)) (match_assignment (two u))
  unfolding match_assignment
  match_assignment-Alike [] =
      rw
        (
          sep_blank,
          separates,
          match_spaced_value-IsSecret v after hv ends,
          match_spaced_value-IsSecret w after hw ends,
        )
        across
  match_assignment-Alike (c ∷ u) =
      let later = match_assignment-Alike u in
      elim (Bool-cases (is_blank c)) [
        | inl b ↦ rw b (with_code-Alike c later)
        | inr n ↦ elim (Bool-cases (is_separator c)) [
          | inl s ↦ rw (n, s) (with_code-Alike c (match_spaced_value-Alike u))
          | inr m ↦ rw (n, m) neither
        ]
      ]

  no_letter : (k : ℕ) → is_separator k ≡ false → (fold_case sep == k) ≡ false
  unfolding is_separator fold_case
  no_letter k n = ground (arith, separates, n)

  match_keyword-Alike :
      (ks u : Text)
      → Free is_separator ks
      → Alike u (match_keyword ks (one u)) (match_keyword ks (two u))
  unfolding match_keyword
  match_keyword-Alike [] u f = match_assignment-Alike u
  match_keyword-Alike (k ∷ ks) [] f = rw (no_letter k f.0) neither
  match_keyword-Alike (k ∷ ks) (c ∷ u) f =
      let later = match_keyword-Alike ks u f.1 in
      elim (Bool-cases (fold_case c == k)) [
        | inl e ↦ rw e (with_code-Alike c later)
        | inr n ↦ rw n neither
      ]

  pub match_any-Alike :
      (ks : List Text) (u : Text)
      → All (Free is_separator) ks
      → Alike u (match_any ks (one u)) (match_any ks (two u))
  unfolding match_any
  match_any-Alike [] u f = neither
  match_any-Alike (k ∷ ks) u f =
      or_match-Alike (match_keyword-Alike k u f.0) (match_any-Alike ks u f.1)
