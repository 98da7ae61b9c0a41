-- ===== src/Redact/Keywords.antt =====
-- The keywords of internal/redact/redact.go, and that each is matched before an assignment.
use mathlib.Core.Path.{subst}
use copyfail_validation.Base.{
  ℕ, List, [], ◌∷◌, ◌++◌, Bool, true, false, ◌&&◌, ◌||◌, not, ◌==◌, none, some, is_some, ◌≡◌, refl,
  sym, arith, All, Bool-cases, inl, inr,
}
use copyfail_validation.Text.{Text, equal}
use copyfail_validation.Text.Laws.{equal_iff, Free}
use copyfail_validation.Text.Words.{is_free, is_free-Free}
use copyfail_validation.Redact.{
  fold_case, keywords, Match, with_code, or_match, is_blank, is_separator, match_assignment,
  match_keyword, match_any,
}
use copyfail_validation.Redact.Secrecy.{newline}

-- The keyword is one of the list, in any case of its letters.
abbrev folded : Text → Text
folded [] = []
folded (c ∷ s) = fold_case c ∷ folded s

abbrev pub is_among : Text → List Text → Bool
is_among key [] = false
is_among key (k ∷ ks) = equal (folded key) k || is_among key ks

abbrev pub is_keyword : Text → Bool
is_keyword key = is_among key keywords

-- Blanks on one line.
abbrev pub IsSpace : Text → Type 0
IsSpace = All (λ c. (is_blank c && not (newline c)) ≡ true)

pub with_code_some : (c : ℕ) (m : Match) → is_some m ≡ true → is_some (with_code c m) ≡ true
with_code_some c none h = h
with_code_some c (some p) h = refl

module _ (p : ℕ → Bool) where
  abbrev all_free : List Text → Bool
  all_free [] = true
  all_free (k ∷ ks) = is_free p k && all_free ks

  all_free-Free : (ks : List Text) → all_free ks ≡ true → All (Free p) ks
  all_free-Free [] h = tt
  all_free-Free (k ∷ ks) h =
      let (now, later) : (is_free p k ≡ true) × (all_free ks ≡ true) = ground (arith, h) in
      (is_free-Free p k now, all_free-Free ks later)

pub keywords-Free : All (Free is_separator) keywords
unfolding is_separator
keywords-Free = all_free-Free is_separator keywords refl

folded-Free : (key : Text) → Free newline (folded key) → Free newline key
unfolding fold_case
folded-Free [] h = tt
folded-Free (c ∷ key) h = (ground (arith, h.0), folded-Free key h.1)

is_among-Free :
    (key : Text) (ks : List Text)
    → All (Free newline) ks
    → is_among key ks ≡ true
    → Free newline (folded key)
is_among-Free key [] f h = absurd (cc h)
is_among-Free key (k ∷ ks) f h = elim (Bool-cases (equal (folded key) k)) [
  | inl e ↦ subst (Free newline) (sym ((equal_iff (folded key) k).0 e)) f.0
  | inr n ↦ is_among-Free key ks f.1 (rw n at h)
]

pub keyword-Free : (key : Text) → is_keyword key ≡ true → Free newline key
keyword-Free key h =
    folded-Free key (is_among-Free key keywords (all_free-Free newline keywords refl) h)

-- A keyword is matched where what stands behind it is an assignment.
match_keyword_some :
    (key s : Text)
    → is_some (match_assignment s) ≡ true
    → is_some (match_keyword (folded key) (key ++ s)) ≡ true
unfolding match_keyword
match_keyword_some [] s h = h
match_keyword_some (c ∷ key) s h =
    let same : (fold_case c == fold_case c) ≡ true = ground arith in
    rw same (with_code_some c _ (match_keyword_some key s h))

or_match_some : (m n : Match) → (is_some m || is_some n) ≡ true → is_some (or_match m n) ≡ true
or_match_some none n h = h
or_match_some (some p) n h = refl

pub match_any_some :
    (key s : Text) (ks : List Text)
    → is_among key ks ≡ true
    → is_some (match_assignment s) ≡ true
    → is_some (match_any ks (key ++ s)) ≡ true
unfolding match_any
match_any_some key s [] k h = absurd (cc k)
match_any_some key s (x ∷ ks) k h =
    or_match_some (match_keyword x (key ++ s)) (match_any ks (key ++ s))
      (elim (Bool-cases (equal (folded key) x)) [
        | inl e ↦
            let found : is_some (match_keyword x (key ++ s)) ≡ true =
              rw (← (equal_iff (folded key) x).0 e) (match_keyword_some key s h) in
            rw found refl
        | inr n ↦ let later = match_any_some key s ks (rw n at k) h in ground (arith, later)
      ])
