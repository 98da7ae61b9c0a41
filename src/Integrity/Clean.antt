-- ===== src/Integrity/Clean.antt =====
-- When the result of internal/integrity for the output of `rpm -V` is clean.
use copyfail_validation.Base.{
  List, [], ◌∷◌, ◌++◌, Bool, true, false, not, ◌&&◌, ◌||◌, none, some, ◌==◌, is_empty, ◌≡◌, refl,
  sym, ap, ◌∙◌, arith, Bool-cases, Option-cases, inl, inr,
}
use copyfail_validation.Text.{Text, codes, equal, split}
use copyfail_validation.Errors.{Message}
use copyfail_validation.Integrity.{VerifyResult, clean}
use copyfail_validation.Integrity.Rpm.{
  Line, looked_at, apply_rpm_flags, on_line, fold_lines, started, reason, parse_rpm_verify,
}
use copyfail_validation.Integrity.Flags.{
  size, perms, hash, owner, group, mtime, reports, IsWide, looked_at-IsWide,
}

-- A line is against a clean result: it is for another file, or it has the marker of a configuration
-- file, or it raises a flag.
abbrev pub deviates : Text → Line → Bool
deviates queried l =
    not (equal l.path queried)
    || equal l.marker (codes "c")
    || reports size queried l
    || reports perms queried l
    || reports hash queried l
    || reports owner queried l
    || reports group queried l
    || reports mtime queried l

-- Some line of the output is.
abbrev pub some_deviation : Text → List Text → Bool
some_deviation queried [] = false
some_deviation queried (raw ∷ rest) =
    (elim (looked_at raw) as (λ _. Bool) [ none ↦ false | some l ↦ deviates queried l ])
    || some_deviation queried rest

is_empty-append : (ms : List Message) (m : Message) → is_empty (ms ++ m ∷ []) ≡ false
is_empty-append [] m = refl
is_empty-append (x ∷ ms) m = refl

clean-reason : (v : VerifyResult) (m : Message) → clean (reason v m) ≡ false
unfolding clean
clean-reason v m = rw (is_empty-append v.unverified_reasons m) refl

clean-apply_rpm_flags :
    (v : VerifyResult) (l : Line) (queried : Text)
    → IsWide l
    → equal l.path queried ≡ true
    → equal l.marker (codes "c") ≡ false
    → clean (apply_rpm_flags v l.flags) ≡ (clean v && not (deviates queried l))
unfolding clean apply_rpm_flags
clean-apply_rpm_flags v l queried w p m = ground (arith, w, p, m)

and_false : (b : Bool) → (b && false) ≡ false
and_false true = refl
and_false false = refl

on_line-clean :
    (v : VerifyResult) (queried : Text) (l : Line)
    → IsWide l
    → clean (on_line v queried l) ≡ (clean v && not (deviates queried l))
unfolding on_line
on_line-clean v queried l w = elim (Bool-cases (equal l.path queried)) [
  | inl p ↦ elim (Bool-cases (equal l.marker (codes "c"))) [
    | inl m ↦ rw (p, m) (clean-reason (apply_rpm_flags v l.flags) _ ∙ sym (and_false (clean v)))
    | inr m ↦ ground (arith, p, m, clean-apply_rpm_flags v l queried w p m)
  ]
  | inr p ↦ elim (Bool-cases (equal l.marker (codes "c"))) [
    | inl m ↦ rw (p, m) (clean-reason v _ ∙ sym (and_false (clean v)))
    | inr m ↦ rw (p, m) (clean-reason v _ ∙ sym (and_false (clean v)))
  ]
]

and_not_or : (a b c : Bool) → ((a && not b) && not c) ≡ (a && not (b || c))
and_not_or true true c = refl
and_not_or true false c = refl
and_not_or false b c = refl

fold_lines-clean :
    (v : VerifyResult) (queried : Text) (ls : List Text)
    → clean (fold_lines v queried ls) ≡ (clean v && not (some_deviation queried ls))
unfolding fold_lines
fold_lines-clean v queried [] = ground arith
fold_lines-clean v queried (raw ∷ ls) = elim (Option-cases (looked_at raw)) [
  | inl q ↦ rw (q, fold_lines) (fold_lines-clean v queried ls)
  | inr (l, q) ↦
      rw (q, fold_lines)
        (fold_lines-clean (on_line v queried l) queried ls
          ∙ ap (λ b. b && not (some_deviation queried ls))
              (on_line-clean v queried l (looked_at-IsWide raw l q))
          ∙ and_not_or (clean v) (deviates queried l) (some_deviation queried ls))
]

-- The result for the output of `rpm -V` is clean exactly if no line that can be parsed is for another
-- file, is marked as a configuration file, or has one of the six letters at its place.
pub parse_rpm_verify-clean :
    (out pkg queried : Text)
    → clean (parse_rpm_verify out pkg queried)
      ≡ not (some_deviation queried (split (λ c. c == b'\n') out))
unfolding parse_rpm_verify clean
parse_rpm_verify-clean out pkg queried =
    fold_lines-clean (started pkg queried out) queried (split (λ c. c == b'\n') out)
