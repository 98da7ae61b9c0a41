-- ===== src/Text/Words.antt =====
-- Words joined by single spaces: the lines that a printer writes.
use mathlib.Core.List.{append-nil}
use copyfail_validation.Base.{
  ℕ, List, [], ◌∷◌, ◌++◌, Bool, true, false, not, ◌&&◌, ◌≡◌, refl, arith, is_empty, All, All-append,
}
use copyfail_validation.Text.{Text, is_space, trim_right, trim_space, join}
use copyfail_validation.Text.Laws.{Free, IsWord}

-- No code point of the text passes the test, tested.
abbrev pub is_free : (ℕ → Bool) → Text → Bool
is_free p [] = true
is_free p (c ∷ s) = not (p c) && is_free p s

pub is_free-Free : (p : ℕ → Bool) (s : Text) → is_free p s ≡ true → Free p s
is_free-Free p [] h = tt
is_free-Free p (c ∷ s) h =
    let (now, later) : (p c ≡ false) × (is_free p s ≡ true) = ground (arith, h) in
    (now, is_free-Free p s later)

pub Free-append : (p : ℕ → Bool) (s t : Text) → Free p s → Free p t → Free p (s ++ t)
Free-append p s t = All-append (λ c. p c ≡ false) s t

pub Free-join :
    (p : ℕ → Bool) (c : ℕ) (ws : List Text)
    → p c ≡ false
    → All (Free p) ws
    → Free p (join (c ∷ []) ws)
unfolding join
Free-join p c [] hc h = tt
Free-join p c (w ∷ []) hc h = h.0
Free-join p c (w ∷ v ∷ ws) hc h = Free-append p w _ h.0 (hc, Free-join p c (v ∷ ws) hc h.1)

-- A text that is free of the code points of `p` is free of those of a narrower test.
pub Free-weaken :
    (p q : ℕ → Bool) (s : Text) → ((c : ℕ) → p c ≡ false → q c ≡ false) → Free p s → Free q s
Free-weaken p q [] w h = tt
Free-weaken p q (c ∷ s) w h = (w c h.0, Free-weaken p q s w h.1)

pub is_empty-append_right : (s t : Text) → is_empty t ≡ false → is_empty (s ++ t) ≡ false
is_empty-append_right [] t h = h
is_empty-append_right (c ∷ s) t h = refl

pub trim_right-Free : (p : ℕ → Bool) (s : Text) → Free p s → trim_right p s ≡ s
unfolding trim_right
trim_right-Free p [] h = refl
trim_right-Free p (c ∷ s) h = rw (h.0, trim_right-Free p s h.1)

pub trim_right-append :
    (p : ℕ → Bool) (s t : Text)
    → trim_right p t ≡ t
    → is_empty t ≡ false
    → trim_right p (s ++ t) ≡ s ++ t
unfolding trim_right
trim_right-append p [] t h n = h
trim_right-append p (c ∷ s) t h n =
    ground (arith, trim_right-append p s t h n, is_empty-append_right s t n)

-- A line of words is neither empty nor trimmed on the right.
pub join_words :
    (p : ℕ → Bool) (w : Text) (ws : List Text)
    → ((c : ℕ) → is_space c ≡ false → p c ≡ false)
    → All IsWord (w ∷ ws)
    → (trim_right p (join (b' ' ∷ []) (w ∷ ws)) ≡ join (b' ' ∷ []) (w ∷ ws))
      × (is_empty (join (b' ' ∷ []) (w ∷ ws)) ≡ false)
unfolding join
join_words p w [] narrow h =
    (trim_right-Free p w (Free-weaken is_space p w narrow h.0.no_space), h.0.not_empty)
join_words p w (v ∷ ws) narrow h =
    let (t, n) = join_words p v ws narrow h.1 in
    (
      trim_right-append p w _ (trim_right-append p (b' ' ∷ []) _ t n) refl,
      is_empty-append_right w _ refl,
    )

first_of_word : (w : Text) (s : Text) → IsWord w → is_empty (trim_space (w ++ s)) ≡ false
unfolding trim_space
first_of_word [] s h = absurd (cc (h.not_empty))
first_of_word (c ∷ w) s h = ground (arith, h.no_space.0)

-- A line of words is not blank.
pub trim_space-join :
    (w : Text) (ws : List Text)
    → IsWord w
    → is_empty (trim_space (join (b' ' ∷ []) (w ∷ ws))) ≡ false
unfolding join
trim_space-join w [] h = rw (← append-nil w) (first_of_word w [] h)
trim_space-join w (v ∷ ws) h = first_of_word w _ h
