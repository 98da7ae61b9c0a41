-- ===== src/Text/Laws.antt =====
-- What the parsers need of equality, trimming and splitting.
use mathlib.Core.List.{append-nil}
use copyfail_validation.Base.{
  ℕ, List, [], ◌∷◌, ◌++◌, Bool, true, false, not, ◌==◌, ◌≡◌, ◌↔◌, refl, ap, arith, is_empty, keep,
  Bool-cases, inl, inr, All, ◌∙◌,
}
use copyfail_validation.Text.{
  Text, equal, is_space, trim_left, trim_right, pieces, split, fields, before, join,
}

pub equal_iff : (a b : Text) → (equal a b ≡ true) ↔ (a ≡ b)
unfolding equal
equal_iff (x ∷ a) (y ∷ b) = ground (arith, equal_iff a b)
equal_iff _ _ = ground arith

pub equal_refl : (a : Text) → equal a a ≡ true
equal_refl a = (equal_iff a a).1 refl

-- No code point of the text passes the test.
abbrev pub Free : (ℕ → Bool) → Text → Type 0
Free p = All (λ c. p c ≡ false)

pub trim_left-cons : (p : ℕ → Bool) (c : ℕ) (s : Text) → p c ≡ false → trim_left p (c ∷ s) ≡ c ∷ s
unfolding trim_left
trim_left-cons p c s h = rw h

-- A text whose last code point fails the test is not trimmed on the right.
pub trim_right-snoc :
    (p : ℕ → Bool) (s : Text) (c : ℕ) → p c ≡ false → trim_right p (s ++ c ∷ []) ≡ s ++ c ∷ []
unfolding trim_right
trim_right-snoc p [] c h = rw h
trim_right-snoc p (d ∷ []) c h = ground (arith, h)
trim_right-snoc p (d ∷ e ∷ s) c h = rw (trim_right-snoc p (e ∷ s) c h) (ground arith)

pub before-Free : (c : ℕ) (s : Text) → Free (λ d. d == c) s → before c s ≡ s
unfolding before
before-Free c [] h = refl
before-Free c (d ∷ s) h = rw (h.0, before-Free c s h.1)

pub pieces-Free :
    (sep : ℕ → Bool) (w s : Text)
    → Free sep w
    → pieces sep (w ++ s) ≡ (w ++ (pieces sep s).0, (pieces sep s).1)
unfolding pieces
pieces-Free sep [] s h = refl
pieces-Free sep (c ∷ w) s h = rw (h.0, pieces-Free sep w s h.1)

pub split-sep :
    (sep : ℕ → Bool) (w : Text) (c : ℕ) (s : Text)
    → Free sep w
    → sep c ≡ true
    → split sep (w ++ c ∷ s) ≡ w ∷ split sep s
unfolding split
split-sep sep w c s h hc = rw (pieces-Free sep w (c ∷ s) h) (unfold pieces in rw hc (rw append-nil))

pub split-Free : (sep : ℕ → Bool) (w : Text) → Free sep w → split sep w ≡ w ∷ []
unfolding split
split-Free sep w h =
    rw (← append-nil w) (rw (pieces-Free sep w [] h) (unfold pieces in rw (append-nil w)))

-- Splitting undoes joining.
pub split-join :
    (sep : ℕ → Bool) (c : ℕ) (w : Text) (ws : List Text)
    → sep c ≡ true
    → All (Free sep) (w ∷ ws)
    → split sep (join (c ∷ []) (w ∷ ws)) ≡ w ∷ ws
unfolding join
split-join sep c w [] hc h = split-Free sep w h.0
split-join sep c w (v ∷ ws) hc h =
    split-sep sep w c (join (c ∷ []) (v ∷ ws)) h.0 hc ∙ ap (◌∷◌ w) (split-join sep c v ws hc h.1)

-- A nonempty text with no white space.
pub record IsWord (w : Text) : Type 0 where
  pub no_space : Free is_space w
  pub not_empty : is_empty w ≡ false

pub keep-IsWord : (ws : List Text) → All IsWord ws → keep (λ w. not (is_empty w)) ws ≡ ws
keep-IsWord [] h = refl
keep-IsWord (w ∷ ws) h = rw (h.0.not_empty, keep-IsWord ws h.1)

All-no_space : (ws : List Text) → All IsWord ws → All (Free is_space) ws
All-no_space [] h = tt
All-no_space (w ∷ ws) h = (h.0.no_space, All-no_space ws h.1)

-- Words joined by single spaces are found again.
pub fields-join :
    (w : Text) (ws : List Text) → All IsWord (w ∷ ws) → fields (join (b' ' ∷ []) (w ∷ ws)) ≡ w ∷ ws
unfolding fields
fields-join w ws h =
    ap (keep (λ w. not (is_empty w)))
      (split-join is_space b' ' w ws (unfold is_space in refl) (All-no_space (w ∷ ws) h))
    ∙ keep-IsWord (w ∷ ws) h

pieces-Free_all :
    (sep : ℕ → Bool) (s : Text) → Free sep (pieces sep s).0 × All (Free sep) (pieces sep s).1
unfolding pieces
pieces-Free_all sep [] = (tt, tt)
pieces-Free_all sep (c ∷ s) = elim (Bool-cases (sep c)) [
  | inl h ↦ rw h (tt, (pieces-Free_all sep s))
  | inr h ↦ rw h ((h, (pieces-Free_all sep s).0), (pieces-Free_all sep s).1)
]

keep_are_words :
    (ws : List Text) → All (Free is_space) ws → All IsWord (keep (λ w. not (is_empty w)) ws)
keep_are_words [] h = tt
keep_are_words (w ∷ ws) h = elim (Bool-cases (is_empty w)) [
  | inl e ↦ rw e (keep_are_words ws h.1)
  | inr e ↦ rw e (record { no_space = h.0; not_empty = e }, keep_are_words ws h.1)
]

-- Every field is a word.
pub fields-IsWord : (s : Text) → All IsWord (fields s)
unfolding fields split
fields-IsWord s = keep_are_words (split is_space s) (pieces-Free_all is_space s)
