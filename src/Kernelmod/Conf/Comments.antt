-- ===== src/Kernelmod/Conf/Comments.antt =====
-- Comments in a modprobe.d file.
use copyfail_validation.Base.{
  ℕ, List, [], ◌∷◌, ◌≡◌, refl, ap, Option, ◌==◌, Bool-cases, inl, inr, map, arith,
}
use copyfail_validation.Text.{Text, before}
use copyfail_validation.Text.Scan.{ScanError}
use copyfail_validation.Errors.{Error}
use copyfail_validation.Kernelmod.Conf.{
  ConfState, strip_inline_comment, strip, step, run, Step-cases,
}

before-before : (c : ℕ) (s : Text) → before c (before c s) ≡ before c s
unfolding before
before-before c [] = refl
before-before c (d ∷ s) = elim (Bool-cases (d == c)) [
  | inl e ↦ rw e
  | inr e ↦ rw e (rw e (ap (◌∷◌ d) (before-before c s)))
]

step-strip_inline_comment :
    (source : Text) (s : ConfState) (raw : Text)
    → step source s (strip_inline_comment raw) ≡ step source s raw
unfolding step strip strip_inline_comment
step-strip_inline_comment source s raw = rw (before-before b'#' raw)

-- What a comment says never matters: with every comment cut off, the lines parse to the same
-- directives or the same error, also where a comment ends in a backslash.
pub run-strip_inline_comment :
    (source : Text) (s : ConfState) (raws : List Text) (stop : Option (ScanError Error))
    → run source s (map strip_inline_comment raws) stop ≡ run source s raws stop
unfolding run
run-strip_inline_comment source s [] stop = refl
run-strip_inline_comment source s (raw ∷ raws) stop = elim (Step-cases (step source s raw)) [
  | inl (t, q) ↦
      ground
        (arith, step-strip_inline_comment source s raw, run-strip_inline_comment source t raws stop)
  | inr (ds, e, q) ↦ ground (arith, step-strip_inline_comment source s raw)
]
