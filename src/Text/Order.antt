-- ===== src/Text/Order.antt =====
-- `a < b` on Go strings: the order of their bytes. Code points compare by their encodings.
use Prim.Native.Nat.{◌/◌, ◌%◌}
use copyfail_validation.Base.{
  ℕ, List, [], ◌∷◌, ◌++◌, Bool, true, false, ◌&&◌, ◌||◌, ◌==◌, ltb, ◌+◌, ◌-◌, if◌then◌else◌, ◌≡◌,
  ◌≢◌, refl, ap₂, arith, Bool-cases, inl, inr,
}
use copyfail_validation.Text.{Text}

unfoldable pub encode_code : ℕ → List ℕ
encode_code c =
    if ltb c 0x80
    then c ∷ []
    else if ltb c 0x800
    then (0xc0 + c / 0x40) ∷ (0x80 + c % 0x40) ∷ []
    else if ltb c 0x10000
    then (0xe0 + c / 0x1000) ∷ (0x80 + c / 0x40 % 0x40) ∷ (0x80 + c % 0x40) ∷ []
    else if ltb c 0x110000
    then (0xf0 + c / 0x40000)
      ∷ (0x80 + c / 0x1000 % 0x40)
      ∷ (0x80 + c / 0x40 % 0x40)
      ∷ (0x80 + c % 0x40)
      ∷ []
    else (c - 0x110000) ∷ []

unfoldable pub encode : Text → List ℕ
unfolding encode_code
encode [] = []
encode (c ∷ s) = encode_code c ++ encode s

unfoldable pub less_bytes : List ℕ → List ℕ → Bool
less_bytes [] [] = false
less_bytes [] (b ∷ bs) = true
less_bytes (a ∷ xs) [] = false
less_bytes (a ∷ xs) (b ∷ bs) = ltb a b || (a == b && less_bytes xs bs)

unfoldable pub less : Text → Text → Bool
unfolding encode less_bytes
less s t = less_bytes (encode s) (encode t)

less_bytes_asymm : (xs ys : List ℕ) → less_bytes xs ys ≡ true → less_bytes ys xs ≡ false
unfolding less_bytes
less_bytes_asymm [] [] h = absurd (cc)
less_bytes_asymm [] (b ∷ bs) h = refl
less_bytes_asymm (a ∷ xs) [] h = absurd (cc)
less_bytes_asymm (a ∷ xs) (b ∷ bs) h = ground (arith, less_bytes_asymm xs bs)

less_bytes_trans :
    (xs ys zs : List ℕ)
    → less_bytes xs ys ≡ true
    → less_bytes ys zs ≡ true
    → less_bytes xs zs ≡ true
unfolding less_bytes
less_bytes_trans [] [] zs h k = absurd (cc)
less_bytes_trans xs (y ∷ ys) [] h k = absurd (cc)
less_bytes_trans [] (y ∷ ys) (z ∷ zs) h k = refl
less_bytes_trans (x ∷ xs) [] zs h k = absurd (cc)
less_bytes_trans (x ∷ xs) (y ∷ ys) (z ∷ zs) h k = ground (arith, less_bytes_trans xs ys zs)

less_bytes_total : (xs ys : List ℕ) → xs ≢ ys → (less_bytes xs ys || less_bytes ys xs) ≡ true
unfolding less_bytes
less_bytes_total [] [] n = absurd (n refl)
less_bytes_total [] (y ∷ ys) n = refl
less_bytes_total (x ∷ xs) [] n = refl
less_bytes_total (x ∷ xs) (y ∷ ys) n = elim (Bool-cases (x == y)) [
  | inl e ↦
      let same : x ≡ y = ground (arith, e) in
      ground (arith, less_bytes_total xs ys (λ q. n (ap₂ ◌∷◌ same q)))
  | inr d ↦ ground (arith, d)
]

pub less_asymm : (s t : Text) → less s t ≡ true → less t s ≡ false
unfolding less
less_asymm s t h = less_bytes_asymm (encode s) (encode t) h

pub less_trans : (s t u : Text) → less s t ≡ true → less t u ≡ true → less s u ≡ true
unfolding less
less_trans s t u h k = less_bytes_trans (encode s) (encode t) (encode u) h k

-- Texts of different bytes are ordered.
pub less_total : (s t : Text) → encode s ≢ encode t → (less s t || less t s) ≡ true
unfolding less
less_total s t n = less_bytes_total (encode s) (encode t) n
