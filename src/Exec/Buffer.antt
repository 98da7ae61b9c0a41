-- ===== src/Exec/Buffer.antt =====
-- cappedBuffer of internal/exec/runner.go: it collects the first `cap` bytes and drops the rest.
use mathlib.Core.List.{append_assoc, append-nil}
use copyfail_validation.Base.{
  ℕ, zero, suc, ◌-◌, ◌≤◌, ◌<◌, List, [], ◌∷◌, ◌++◌, Bool, true, false, ◌≡◌, refl, sym, ap, arith,
  leb, ltb, ◌∙◌, if◌then◌else◌, length, length-append, take, is_empty, All,
}
use copyfail_validation.Text.Utf8.{Bytes}

pub record CappedBuffer : Type 0 where
  pub bytes : Bytes
  pub cap : ℕ
  pub truncated : Bool

-- Write; the count that it returns is always that of the bytes handed in.
unfoldable pub write : CappedBuffer → Bytes → CappedBuffer × ℕ
write b p =
    let remaining = b.cap - length b.bytes in
    if b.truncated
    then (b, length p)
    else if leb remaining 0
    then (record b { truncated = true }, length p)
    else if ltb remaining (length p)
    then (record b { bytes = b.bytes ++ take remaining p; truncated = true }, length p)
    else (record b { bytes = b.bytes ++ p }, length p)

-- The writes of one stream, in order.
unfoldable pub write_all : CappedBuffer → List Bytes → CappedBuffer
unfolding write
write_all b [] = b
write_all b (p ∷ ps) = write_all (write b p).0 ps

abbrev pub empty : ℕ → CappedBuffer
empty cap = record { bytes = []; cap = cap; truncated = false }

abbrev pub concat : List Bytes → Bytes
concat [] = []
concat (p ∷ ps) = p ++ concat ps

take_all : (n : ℕ) (s : Bytes) → length s ≤ n → take n s ≡ s
take_all zero [] h = refl
take_all zero (c ∷ s) h = absurd (omega arith)
take_all (suc n) [] h = refl
take_all (suc n) (c ∷ s) h = ap (◌∷◌ c) (take_all n s (omega arith))

take-append : (n : ℕ) (s t : Bytes) → length s ≤ n → take n (s ++ t) ≡ s ++ take (n - length s) t
take-append n [] t h = ap (λ k. take k t) (omega arith)
take-append zero (c ∷ s) t h = absurd (omega arith)
take-append (suc n) (c ∷ s) t h =
    ap (◌∷◌ c) (take-append n s t (omega arith) ∙ ap (λ k. s ++ take k t) (omega arith))

take-append_full : (n : ℕ) (s t : Bytes) → n ≤ length s → take n (s ++ t) ≡ take n s
take-append_full zero s t h = refl
take-append_full (suc n) [] t h = absurd (omega arith)
take-append_full (suc n) (c ∷ s) t h = ap (◌∷◌ c) (take-append_full n s t (omega arith))

length_pos : (p : Bytes) → is_empty p ≡ false → 0 < length p
length_pos [] h = absurd (cc)
length_pos (c ∷ p) h = omega arith

-- The buffer holds what it is to hold of the bytes `all` that were written to it.
record Holds (cap : ℕ) (all : Bytes) (b : CappedBuffer) : Type 0 where
  same_cap : b.cap ≡ cap
  bytes : b.bytes ≡ take cap all
  truncated : b.truncated ≡ ltb cap (length all)

write-Holds :
    {cap : ℕ} {all : Bytes} (b : CappedBuffer) (p : Bytes)
    → Holds cap all b
    → is_empty p ≡ false
    → Holds cap (all ++ p) (write b p).0
unfolding write
write-Holds {cap} {all} b p h n = ground (
  arith,
  length-append all p,
  length_pos p n,
  take_all cap all,
  take_all cap (all ++ p),
  take-append cap all p,
  take-append_full cap all p,
)

write_all-Holds :
    {cap : ℕ} (all : Bytes) (b : CappedBuffer) (ps : List Bytes)
    → Holds cap all b
    → All (λ p. is_empty p ≡ false) ps
    → Holds cap (all ++ concat ps) (write_all b ps)
unfolding write_all
write_all-Holds all b [] h n = rw append-nil h
write_all-Holds {cap} all b (p ∷ ps) h n =
    rw (append_assoc all p (concat ps)) at
      (write_all-Holds (all ++ p) (write b p).0 ps (write-Holds b p h n.0) n.1)

-- After any writes of at least one byte each, the buffer holds the first `cap` bytes of all that
-- was written, and is marked as truncated exactly if more than `cap` bytes were.
pub write_all_lem :
    (cap : ℕ) (ps : List Bytes)
    → All (λ p. is_empty p ≡ false) ps
    → ((write_all (empty cap) ps).bytes ≡ take cap (concat ps))
      × ((write_all (empty cap) ps).truncated ≡ ltb cap (length (concat ps)))
write_all_lem cap ps n = let h = write_all-Holds [] (empty cap) ps start n in (h.bytes, h.truncated)
  where
    start : Holds cap [] (empty cap)
    start = record {
      same_cap = refl;
      bytes = sym (take_all cap [] (omega arith));
      truncated = ground arith;
    }

-- Write reports every byte as consumed, whatever it drops.
pub write_consumes : (b : CappedBuffer) (p : Bytes) → (write b p).1 ≡ length p
unfolding write
write_consumes b p = ground arith
