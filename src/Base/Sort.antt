-- ===== src/Base/Sort.antt =====
-- A stable sort by a test, and its laws: what the program sorts with package sort.
use mathlib.Core.List.{Perm, Permᴰ, Pairwise, mem-cons_self}
use mathlib.Core.List.Perm
use mathlib.Core.List.Permᴰ
use mathlib.Core.Path.{◌≡◌, refl, sym, ap, ap₂, ◌∙◌}
use mathlib.Core.Logic.{◌↔◌, inl, inr}
use mathlib.Core.Bool.{Bool, true, false, ◌||◌, Bool-set}
use mathlib.Core.List.{List, [], ◌∷◌}
use native.Mathlib.Omega.{arith}
use copyfail_validation.Base.Tests.{if◌then◌else◌, Bool-cases}
use copyfail_validation.Base.Lists.{All, keep}

module _ {ℓ} {A : Type ℓ} (below : A → A → Bool) where
  unfoldable pub insert_by : A → List A → List A
  insert_by a [] = a ∷ []
  insert_by a (x ∷ xs) = let rest = insert_by a xs in if below x a then x ∷ rest else a ∷ x ∷ xs

  unfoldable pub sort_by : List A → List A
  unfolding insert_by
  sort_by [] = []
  sort_by (a ∷ xs) = insert_by a (sort_by xs)

  -- No element is below the one before it.
  abbrev pub Ascends : A → List A → Type 0
  Ascends x [] = Unit
  Ascends x (y ∷ ys) = (below y x ≡ false) × Ascends y ys

  abbrev pub IsSorted : List A → Type 0
  IsSorted [] = Unit
  IsSorted (x ∷ xs) = Ascends x xs

  insert_by-perm : (a : A) (xs : List A) → Perm (insert_by a xs) (a ∷ xs)
  unfolding insert_by
  insert_by-perm a [] = Perm.rfl
  insert_by-perm a (x ∷ xs) = elim (Bool-cases (below x a)) [
    | inl l ↦ rw l (Perm.trans (Perm.cons x (insert_by-perm a xs)) (Perm.swap a x xs))
    | inr g ↦ rw g Perm.rfl
  ]

  pub sort_by-perm : (xs : List A) → Perm (sort_by xs) xs
  unfolding sort_by
  sort_by-perm [] = Perm.rfl
  sort_by-perm (a ∷ xs) = Perm.trans (insert_by-perm a (sort_by xs)) (Perm.cons a (sort_by-perm xs))

module _ {ℓ κ} {A : Type ℓ} (below : A → A → Bool) (P : A → Type κ) where
  insert_by-All : (a : A) (xs : List A) → All P (insert_by below a xs) ↔ P a × All P xs
  unfolding insert_by
  insert_by-All a [] = (λ h. h, λ h. h)
  insert_by-All a (x ∷ xs) = elim (Bool-cases (below x a)) [
    | inl l ↦
        let rest = insert_by-All a xs in
        rw l (λ (p, h). ((rest.0 h).0, (p, (rest.0 h).1)), λ (q, (p, h)). (p, rest.1 (q, h)))
    | inr g ↦ rw g (λ h. h, λ h. h)
  ]

  -- What holds of all sorted elements holds of all elements, and the other way round.
  pub sort_by-All : (xs : List A) → All P (sort_by below xs) ↔ All P xs
  unfolding sort_by
  sort_by-All [] = (λ h. h, λ h. h)
  sort_by-All (a ∷ xs) =
      let first = insert_by-All a (sort_by below xs) in
      let rest = sort_by-All xs in
      (λ h. ((first.0 h).0, rest.0 (first.0 h).1), λ (p, h). first.1 (p, rest.1 h))

module _ {ℓ} {A : Type ℓ} (below : A → A → Bool) where
  insert_by-Ascends_self :
      (a : A) (xs : List A) → Ascends below a xs → insert_by below a xs ≡ a ∷ xs
  unfolding insert_by
  insert_by-Ascends_self a [] s = refl
  insert_by-Ascends_self a (x ∷ xs) s = rw s.0

  IsSorted-tail : (a : A) (xs : List A) → Ascends below a xs → IsSorted below xs
  IsSorted-tail a [] s = tt
  IsSorted-tail a (x ∷ xs) s = s.1

  -- A sorted list is left as it is.
  pub sort_by_self : (xs : List A) → IsSorted below xs → sort_by below xs ≡ xs
  unfolding sort_by
  sort_by_self [] s = refl
  sort_by_self (a ∷ xs) s =
      ap (insert_by below a) (sort_by_self xs (IsSorted-tail a xs s))
      ∙ insert_by-Ascends_self a xs s

  module _ (trans : (a b c : A) → below b a ≡ false → below c b ≡ false → below c a ≡ false)
      (p : A → Bool) where
    keep-Ascends :
        (a x : A) (xs : List A)
        → below x a ≡ false
        → Ascends below x xs
        → Ascends below a (keep p (x ∷ xs))
    keep-Ascends a x [] h s = elim (Bool-cases (p x)) [ inl y ↦ rw y (h, tt) | inr n ↦ rw n tt ]
    keep-Ascends a x (y ∷ ys) h s = elim (Bool-cases (p x)) [
      | inl q ↦ rw q (h, keep-Ascends x y ys s.0 s.1)
      | inr n ↦ rw n (keep-Ascends a y ys (trans a x y h s.0) s.1)
    ]

    -- What is kept of a sorted list is sorted.
    pub keep-IsSorted : (xs : List A) → IsSorted below xs → IsSorted below (keep p xs)
    keep-IsSorted [] s = tt
    keep-IsSorted (x ∷ []) s = elim (Bool-cases (p x)) [ inl y ↦ rw y tt | inr n ↦ rw n tt ]
    keep-IsSorted (x ∷ y ∷ ys) s = elim (Bool-cases (p x)) [
      | inl q ↦ rw q (keep-Ascends x y ys s.0 s.1)
      | inr n ↦ rw n (keep-IsSorted (y ∷ ys) s.1)
    ]

module _ {ℓ} {A : Type ℓ} (below : A → A → Bool)
    (asymm : (a b : A) → below a b ≡ true → below b a ≡ false) where
  insert_by-Ascends :
      (a x : A) (xs : List A)
      → below a x ≡ false
      → Ascends below x xs
      → Ascends below x (insert_by below a xs)
  unfolding insert_by
  insert_by-Ascends a x [] n s = (n, tt)
  insert_by-Ascends a x (y ∷ ys) n (m, s) = elim (Bool-cases (below y a)) [
    | inl l ↦ rw l (m, insert_by-Ascends a y ys (asymm y a l) s)
    | inr g ↦ rw g (n, (g, s))
  ]

  insert_by-IsSorted :
      (a : A) (xs : List A) → IsSorted below xs → IsSorted below (insert_by below a xs)
  unfolding insert_by
  insert_by-IsSorted a [] s = tt
  insert_by-IsSorted a (x ∷ xs) s = elim (Bool-cases (below x a)) [
    | inl l ↦ rw l (insert_by-Ascends a x xs (asymm x a l) s)
    | inr g ↦ rw g (g, s)
  ]

  pub sort_by-IsSorted : (xs : List A) → IsSorted below (sort_by below xs)
  unfolding sort_by
  sort_by-IsSorted [] = tt
  sort_by-IsSorted (a ∷ xs) = insert_by-IsSorted a (sort_by below xs) (sort_by-IsSorted xs)

  module _ (trans : (a b c : A) → below a b ≡ true → below b c ≡ true → below a c ≡ true) where
    insert_by_comm :
        (a b : A) (xs : List A)
        → below a b ≡ true
        → insert_by below a (insert_by below b xs) ≡ insert_by below b (insert_by below a xs)
    unfolding insert_by
    insert_by_comm a b [] h = rw (h, asymm a b h)
    insert_by_comm a b (x ∷ xs) h =
        ground (arith, h, asymm a b h, insert_by_comm a b xs h, trans x a b)

    insert_by-swap :
        (a b : A) (xs : List A)
        → (below a b || below b a) ≡ true
        → insert_by below a (insert_by below b xs) ≡ insert_by below b (insert_by below a xs)
    insert_by-swap a b xs h = elim (Bool-cases (below a b)) [
      | inl l ↦ insert_by_comm a b xs l
      | inr g ↦ sym (insert_by_comm b a xs (ground (arith, g, h)))
    ]

    -- Where the test tells all elements apart, their order does not matter.
    pub sort_by_unique :
        {xs ys : List A}
        → Permᴰ xs ys
        → Pairwise (λ a b. (below a b || below b a) ≡ true) xs
        → sort_by below xs ≡ sort_by below ys
    unfolding sort_by
    sort_by_unique Permᴰ.nil d = refl
    sort_by_unique (Permᴰ.cons {b = b} e p) (Pairwise.cons h d) =
        ap₂ (insert_by below) e (sort_by_unique p d)
    sort_by_unique (Permᴰ.swap {l = l} e f) (Pairwise.cons {a = a} h d) =
        insert_by-swap _ _ (sort_by below l) (h _ mem-cons_self)
        ∙ ap₂ (λ x y. insert_by below x (insert_by below y (sort_by below l))) f e
    sort_by_unique (Permᴰ.trans p q) d =
        sort_by_unique p d
        ∙ sort_by_unique q (Permᴰ.pairwise (λ a b. Bool-set _ _) (λ a b h. ground (arith, h)) p d)
