-- ===== src/Preset/DryRunCheck.antt =====
-- preset/copyfail/modprobe_dry_run.go: what modprobe itself would do with the module.
use copyfail_validation.Base.{
  [], ◌∷◌, ◌++◌, true, false, Option, none, some, if◌then◌else◌, ◌≡◌, ◌≢◌, ◌↔◌, inl, inr, ap, arith,
  Option-cases, is_empty,
}
use copyfail_validation.Text.{Text, codes}
use copyfail_validation.Errors.{
  Error, Message, Outcome, Sentinel, command_not_found, command_denied, invalid_arg, timed_out, is,
  str, quoted, lit,
}
use copyfail_validation.Report.{State, pass, fail, error, Time, scalar, flag, Result}
use copyfail_validation.Exec.{Cmd, untrusted}
use copyfail_validation.Exec as Exec
use copyfail_validation.Exec.Safety.{IsSafeArg, Fails}
use copyfail_validation.Kernelmod.DryRun.{
  DryRun, dry_run_module, dry_run_cmd, parse_dry_run, blocked_target, dry_run_module_lem,
  parse_dry_run-Resolves,
}
use copyfail_validation.Preset.{opening, entry, noting, passes, fails, errs}

abbrev pub id : Text
id = codes "modprobe.dry_run"

abbrev pub title : Text
title = codes "modprobe -n -v resolves the module to /bin/false"

abbrev pub description : Text
description =
    codes "Invokes `modprobe -n -v <module>` (dry run + verbose) and verifies the first "
    ++ codes "non-blank line of stdout is exactly \"install /bin/false\". This confirms "
    ++ codes "modprobe's runtime resolution agrees with the conf-file contents — a separate "
    ++ codes "signal from the static parse so a configuration that LOOKS correct on disk but "
    ++ codes "is shadowed by a higher-priority override still surfaces as a failure."

-- The switch over the errors.
unfoldable pub detail_of : Text → Error → Message
unfolding is
detail_of m e =
    if is e command_not_found
    then lit "modprobe binary not available on this host"
    else if is e command_denied
    then lit "modprobe binary is not on the exec allowlist"
    else if is e invalid_arg
    then lit "module name " ++ quoted m ∷ lit " rejected by argument validator"
    else if is e timed_out
    then lit "modprobe -n -v " ++ str m ∷ lit " timed out"
    else lit "modprobe -n -v " ++ str m ∷ lit ": " ++ e.message

unfoldable pub judge : Result → DryRun → Result
judge res dry =
    if dry.blocked
    then passes res (lit "modprobe -n -v resolves to " ++ quoted dry.resolved_to ∷ [])
    else if is_empty dry.resolved_to
    then fails res (lit "modprobe -n -v produced no output (module may be unknown to modprobe)")
    else fails res (lit "modprobe -n -v resolved to: " ++ str dry.resolved_to ∷ [])

unfoldable pub on_dry_run : Result → Text → Outcome DryRun → Result
unfolding judge detail_of
on_dry_run res m o =
    let noted = noting res (
      entry (codes "raw_output") (str o.value.raw_output ∷ [])
      ∷ entry (codes "resolved_to") (str o.value.resolved_to ∷ [])
      ∷ (codes "blocked", scalar (flag o.value.blocked))
      ∷ []) in
    elim o.err [
      | some e ↦ errs noted (detail_of m e) (lit "copyfail: modprobe dry-run: " ++ e.message)
      | none ↦ judge noted o.value
    ]

abbrev pub opened : Time → Text → Result
opened now m = opening id title now (
    entry (codes "command") (lit "modprobe -n -v " ++ str m ∷ [])
    ∷ entry (codes "module") (str m ∷ [])
    ∷ [])

-- The result, and the runner that the check leaves behind.
unfoldable pub run_check {ℓ} :
    {R : Type ℓ} → (R → Cmd → Outcome Exec.Result × R) → R → Time → Text → Result × R
unfolding on_dry_run
run_check run r now m = let (o, s) = dry_run_module run r m in (on_dry_run (opened now m) m o, s)

on_dry_run-states :
    (res : Result) (m : Text) (o : Outcome DryRun)
    → ((on_dry_run res m o).state ≡ pass ↔ (o.err ≡ none) × (o.value.blocked ≡ true))
      × ((on_dry_run res m o).state ≡ fail ↔ (o.err ≡ none) × (o.value.blocked ≡ false))
      × ((on_dry_run res m o).state ≡ error ↔ (o.err ≢ none))
unfolding on_dry_run
on_dry_run-states res m o = elim (Option-cases o.err) [
  | inl q ↦ rw q (ground arith)
  | inr (e, q) ↦ rw q (ground arith)
]

fails_some : (s : Sentinel) (e : Option Error) → Fails s e → e ≢ none
fails_some s none f = absurd f
fails_some s (some x) f = λ q. absurd (cc)

-- The states by what is parsed, from those by the outcome that holds it.
verdict :
    (s : State) {e f : Option Error} {d p : DryRun}
    → ((e ≡ none) ↔ (f ≡ none))
    → d ≡ p
    → ((p.blocked ≡ true) ↔ (p.resolved_to ≡ blocked_target))
    → (s ≡ pass ↔ (e ≡ none) × (d.blocked ≡ true))
      × (s ≡ fail ↔ (e ≡ none) × (d.blocked ≡ false))
      × (s ≡ error ↔ (e ≢ none))
    → (s ≡ pass ↔ (f ≡ none) × (p.resolved_to ≡ blocked_target))
      × (s ≡ fail ↔ (f ≡ none) × (p.resolved_to ≢ blocked_target))
verdict s ends v b states = ground (arith, ends, ap (λ d. d.blocked) v, b, states)

pub run_check-verdict {ℓ} :
    {R : Type ℓ} (run : R → Cmd → Outcome Exec.Result × R) (r : R) (now : Time) (m : Text)
    → (IsSafeArg (untrusted m)
        → ((run_check run r now m).0.state ≡ pass
            ↔ ((run r (dry_run_cmd m)).0.err ≡ none)
              × ((parse_dry_run (run r (dry_run_cmd m)).0.value.stdout).resolved_to
                  ≡ blocked_target))
          × ((run_check run r now m).0.state ≡ fail
              ↔ ((run r (dry_run_cmd m)).0.err ≡ none)
                × ((parse_dry_run (run r (dry_run_cmd m)).0.value.stdout).resolved_to
                    ≢ blocked_target)))
      × (¬ IsSafeArg (untrusted m)
          → ((run_check run r now m).0.state ≡ error) × ((run_check run r now m).1 ≡ r))
unfolding run_check
run_check-verdict run r now m = (
  λ safe.
      let (moved, v, ends, sent) = (dry_run_module_lem run r m).1 safe in
      let states = on_dry_run-states (opened now m) m (dry_run_module run r m).0 in
      let out = (run r (dry_run_cmd m)).0.value.stdout in
      let (line, raw, b) = parse_dry_run-Resolves out in
      verdict (on_dry_run (opened now m) m (dry_run_module run r m).0).state ends v b states,
  λ unsafe.
      let (kept, f) = (dry_run_module_lem run r m).0 unsafe in
      (
        (on_dry_run-states (opened now m) m (dry_run_module run r m).0).2.1
            (fails_some invalid_arg _ f),
        kept,
      ),
)
