-- ===== src/Render.antt =====
-- internal/render: the renderers. The helpers of render.go stand here, a file for each format in the
-- children. What a writer does with the bytes is a parameter, and so is the quoting of `%q`.
pub mod Human
pub mod Values
pub mod Prometheus
pub mod Sarif
pub mod Document
pub mod Init
pub mod Verdicts
use copyfail_validation.Base.{
  ℕ, List, [], ◌∷◌, ◌++◌, Bool, true, false, Option, none, some, ◌==◌, is_empty, if◌then◌else◌, ◌≡◌,
  ◌↔◌, ◌≢◌, refl, arith, Bool-cases, Option-cases, inl, inr,
}
use copyfail_validation.Text.{Text, codes}
use copyfail_validation.Text.Scan.{byte_size}
use copyfail_validation.Text.Decimal.{format_ℕ, format_ℤ}
use copyfail_validation.Errors.{
  Error, Piece, Sentinel, str, quoted, num, int, Message, Outcome, lit, is, wrap_both,
  render_failure, short_write, io_short_write,
}
use copyfail_validation.Exec.Safety.{Fails}

-- What fmt writes for a message.
unfoldable pub piece_text : (Text → Text) → Piece → Text
unfolding format_ℕ format_ℤ
piece_text quote (str s) = s
piece_text quote (quoted s) = quote s
piece_text quote (num n) = format_ℕ n
piece_text quote (int z) = format_ℤ z

unfoldable pub message_text : (Text → Text) → Message → Text
unfolding piece_text
message_text quote [] = []
message_text quote (p ∷ m) = piece_text quote p ++ message_text quote m

-- An io.Writer: the count of bytes and the error that Write returns, and the writer that it leaves.
abbrev pub Writer {ℓ} : Type ℓ → Type ℓ
Writer W = W → Text → Outcome ℕ × W

-- What flushAll makes of what Write returned for the bytes.
unfoldable pub flushed : ℕ → Outcome ℕ → Outcome ℕ
flushed size o = elim o.err [
  | some e ↦ record {
    value = o.value;
    err = some (wrap_both render_failure (lit "render: renderer failure: ") e);
  }
  | none ↦ if o.value == size then record { value = o.value; err = none } else record {
    value = o.value;
    err = some (record {
      message = lit "render: short write to writer: short write";
      chain = short_write ∷ io_short_write ∷ [];
    });
  }
]

pub flushed-none_iff :
    (size : ℕ) (o : Outcome ℕ) → ((flushed size o).err ≡ none) ↔ (o.err ≡ none) × (o.value ≡ size)
unfolding flushed
flushed-none_iff size o = elim (Option-cases o.err) [
  | inl n ↦ elim (Bool-cases (o.value == size)) [
    | inl e ↦ rw (n, flushed) (rw e (λ h. (refl, ground (arith, e)), λ h. refl))
    | inr d ↦ rw (n, flushed) (rw d (λ h. absurd (cc), λ h. absurd (ground (arith, d, h.1))))
  ]
  | inr (e, q) ↦ rw (q, flushed) (λ h. absurd (cc), λ h. absurd (cc (h.0)))
]

flushed-value : (size : ℕ) (o : Outcome ℕ) → (flushed size o).value ≡ o.value
unfolding flushed
flushed-value size o = elim (Option-cases o.err) [
  | inl n ↦ elim (Bool-cases (o.value == size)) [
    | inl e ↦ rw (n, flushed) (rw e refl)
    | inr d ↦ rw (n, flushed) (rw d refl)
  ]
  | inr (e, q) ↦ rw (q, flushed) refl
]

flushed_writer_error :
    (size : ℕ) (o : Outcome ℕ) (s : Sentinel) → Fails s o.err → Fails s (flushed size o).err
unfolding flushed is
flushed_writer_error size o s f = elim (Option-cases o.err) [
  | inl n ↦ absurd (rw n at f)
  | inr (e, q) ↦ let found : is e s ≡ true = rw q at f in rw (q, flushed) (ground (arith, found))
]

-- The write was short, and the writer did not say why.
abbrev pub IsShort : ℕ → Outcome ℕ → Type 0
IsShort size o = (o.err ≡ none) × (o.value ≢ size)

flushed_short :
    (size : ℕ) (o : Outcome ℕ)
    → IsShort size o
    → Fails short_write (flushed size o).err × (¬ Fails render_failure (flushed size o).err)
unfolding flushed is
flushed_short size o (n, d) = elim (Bool-cases (o.value == size)) [
  | inl e ↦ absurd (d (ground (arith, e)))
  | inr f ↦ rw (n, flushed) (rw f (refl, λ h. absurd (cc)))
]

module _ {ℓ} {W : Type ℓ} (write : Writer W) where
  unfoldable pub flush_all : W → Text → Outcome ℕ × W
  unfolding flushed byte_size
  flush_all w b =
      if is_empty b
      then (record { value = 0; err = none }, w)
      else (let (o, w') = write w b in (flushed (byte_size b) o, w'))

  -- Bytes reach the writer in one call of Write, and the count is the one that it returns. There is no
  -- error exactly if it took all of them without one. An error of the writer keeps its sentinels; a
  -- short count without an error is reported as ErrShortWrite, which is no ErrRender.
  pub flush_all_lem :
      (w : W) (b : Text)
      → is_empty b ≡ false
      → ((flush_all w b).1 ≡ (write w b).1)
        × ((flush_all w b).0.value ≡ (write w b).0.value)
        × (((flush_all w b).0.err ≡ none)
            ↔ ((write w b).0.err ≡ none) × ((write w b).0.value ≡ byte_size b))
        × ((s : Sentinel) → Fails s (write w b).0.err → Fails s (flush_all w b).0.err)
        × (IsShort (byte_size b) (write w b).0
            → Fails short_write (flush_all w b).0.err
              × (¬ Fails render_failure (flush_all w b).0.err))
  unfolding flush_all
  flush_all_lem w b h =
      let size = byte_size b in
      let o = (write w b).0 in
      rw h (
        refl,
        flushed-value size o,
        flushed-none_iff size o,
        flushed_writer_error size o,
        flushed_short size o,
      )
