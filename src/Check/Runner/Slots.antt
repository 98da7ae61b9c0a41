-- ===== src/Check/Runner/Slots.antt =====
-- Lists of slots in which one slot changes: sums, predicates and the order of starts.
use copyfail_validation.Base.{
  ℕ, zero, suc, ◌+◌, ◌≤◌, List, [], ◌∷◌, ◌++◌, Bool, true, false, ◌≡◌, refl, arith, length, map,
  All,
}
use copyfail_validation.Check.Runner.{Slot, Worker, idle}

unfoldable pub total : (Slot → ℕ) → List Slot → ℕ
total w [] = 0
total w (x ∷ xs) = w x + total w xs

-- A change at one place changes the sum by the difference there.
pub total-replace :
    (w : Slot → ℕ) (f : List Slot) (x y : Slot) (b : List Slot)
    → total w (f ++ y ∷ b) + w x ≡ total w (f ++ x ∷ b) + w y
unfolding total
total-replace w [] x y b = omega arith
total-replace w (z ∷ f) x y b = omega (arith, total-replace w f x y b)

pub total-map :
    (w : Slot → ℕ) (g : Slot → Slot) (xs : List Slot)
    → ((x : Slot) → w (g x) ≡ w x)
    → total w (map g xs) ≡ total w xs
unfolding total
total-map w g [] h = refl
total-map w g (x ∷ xs) h = omega (arith, h x, total-map w g xs h)

pub All-replace :
    (P : Slot → Type 0) (f : List Slot) (x y : Slot) (b : List Slot)
    → P y
    → All P (f ++ x ∷ b)
    → All P (f ++ y ∷ b)
All-replace P [] x y b p h = (p, h.1)
All-replace P (z ∷ f) x y b p h = (h.0, All-replace P f x y b p h.1)

pub All-here :
    (P : Slot → Type 0) (f : List Slot) (x : Slot) (b : List Slot) → All P (f ++ x ∷ b) → P x
All-here P [] x b h = h.0
All-here P (z ∷ f) x b h = All-here P f x b h.1

pub All-map :
    (P Q : Slot → Type 0) (g : Slot → Slot) (xs : List Slot)
    → ((x : Slot) → P x → Q (g x))
    → All P xs
    → All Q (map g xs)
All-map P Q g [] h a = tt
All-map P Q g (x ∷ xs) h a = (h x a.0, All-map P Q g xs h a.1)

pub length-replace :
    (f : List Slot) (x y : Slot) (b : List Slot) → length (f ++ y ∷ b) ≡ length (f ++ x ∷ b)
length-replace [] x y b = refl
length-replace (z ∷ f) x y b = omega (arith, length-replace f x y b)

abbrev pub is_idle : Worker → Bool
is_idle idle = true
is_idle _ = false

-- The first `k` workers were started, and no other.
abbrev pub StartedTo : ℕ → List Slot → Type 0
StartedTo zero [] = Unit
StartedTo zero (x ∷ xs) = (is_idle x.worker ≡ true) × StartedTo zero xs
StartedTo (suc k) [] = ⊥
StartedTo (suc k) (x ∷ xs) = (is_idle x.worker ≡ false) × StartedTo k xs

pub StartedTo-replace :
    (k : ℕ) (f : List Slot) (x y : Slot) (b : List Slot)
    → is_idle y.worker ≡ is_idle x.worker
    → StartedTo k (f ++ x ∷ b)
    → StartedTo k (f ++ y ∷ b)
StartedTo-replace zero [] x y b e h = (cc (h.0), h.1)
StartedTo-replace (suc k) [] x y b e h = (cc (h.0), h.1)
StartedTo-replace zero (z ∷ f) x y b e h = (h.0, StartedTo-replace zero f x y b e h.1)
StartedTo-replace (suc k) (z ∷ f) x y b e h = (h.0, StartedTo-replace k f x y b e h.1)

pub StartedTo-spawn :
    (f : List Slot) (x y : Slot) (b : List Slot)
    → is_idle y.worker ≡ false
    → StartedTo (length f) (f ++ x ∷ b)
    → (is_idle x.worker ≡ true) × StartedTo (suc (length f)) (f ++ y ∷ b)
StartedTo-spawn [] x y b e h = (h.0, (e, h.1))
StartedTo-spawn (z ∷ f) x y b e h = let (i, s) = StartedTo-spawn f x y b e h.1 in (i, (h.0, s))

pub StartedTo-map :
    (k : ℕ) (g : Slot → Slot) (xs : List Slot)
    → ((x : Slot) → (g x).worker ≡ x.worker)
    → StartedTo k xs
    → StartedTo k (map g xs)
StartedTo-map zero g [] e h = tt
StartedTo-map (suc k) g [] e h = h
StartedTo-map zero g (x ∷ xs) e h = (rw (e x) h.0, StartedTo-map zero g xs e h.1)
StartedTo-map (suc k) g (x ∷ xs) e h = (rw (e x) h.0, StartedTo-map k g xs e h.1)

pub StartedTo-le : (k : ℕ) (xs : List Slot) → StartedTo k xs → k ≤ length xs
StartedTo-le zero xs h = omega arith
StartedTo-le (suc k) [] h = absurd h
StartedTo-le (suc k) (x ∷ xs) h = omega (arith, StartedTo-le k xs h.1)

-- Once all are started, none is idle.
pub StartedTo-all :
    (xs : List Slot) → StartedTo (length xs) xs → All (λ x. is_idle x.worker ≡ false) xs
StartedTo-all [] h = tt
StartedTo-all (x ∷ xs) h = (h.0, StartedTo-all xs h.1)

pub length-map : (g : Slot → Slot) (xs : List Slot) → length (map g xs) ≡ length xs
length-map g [] = refl
length-map g (x ∷ xs) = omega (arith, length-map g xs)
