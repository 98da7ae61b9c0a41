-- ===== src/Preset/Mitigated.antt =====
-- What a run of the whole bundle of preset/copyfail shows of the host, if it leaves no gap.
use copyfail_validation.Base.{List, [], ◌∷◌, false, All, ◌≡◌, refl, ◌∙◌, ◌↔◌, arith}
use copyfail_validation.Text.{Text}
use copyfail_validation.Report.{pass, is_required, Time, Result, Report}
use copyfail_validation.Report.Tally.{new_summary}
use copyfail_validation.Check.Execute.{Check, execute_check}
use copyfail_validation.Cli.Exit.{
  any, is_gap, is_unknown, exit_ok, compute_exit, compute_exit-results,
}
use copyfail_validation.Preset.ConfCorrect.{IsBlocked}
use copyfail_validation.Preset.ConfPresent
use copyfail_validation.Preset.ConfCorrect
use copyfail_validation.Preset.DryRunCheck
use copyfail_validation.Preset.DependencyChain
use copyfail_validation.Preset.NotLoaded
use copyfail_validation.Preset.Bundle.{
  Host, Filled, Options, stateless, check_of, checks_of, fill_options, all_with_options,
}
use copyfail_validation.Preset.Verdicts
use copyfail_validation.Preset.Posture.{
  IsMitigated, AllPass, AllPass-IsMitigated, IsMitigated-AllPass,
}

-- The results of a list of checks, in order.
unfoldable pub results_of : Time → List Check → List Result
unfolding execute_check
results_of now [] = []
results_of now (c ∷ cs) = execute_check c now ∷ results_of now cs

-- A check that leaves neither a gap nor an unknown.
abbrev IsFine : Time → Check → Type 0
unfolding execute_check
IsFine now c = (is_gap (execute_check c now) ≡ false) × (is_unknown (execute_check c now) ≡ false)

passed :
    (now : Time) (id title description : Text) (r : Result)
    → Verdicts.IsVerdict r
    → IsFine now (check_of id title description r)
    → r.state ≡ pass
unfolding execute_check is_required
passed now id title description r v (g, u) = ground (arith, v, g, u)

all-IsFine :
    (now : Time) (cs : List Check)
    → any is_gap (results_of now cs) ≡ false
    → any is_unknown (results_of now cs) ≡ false
    → All (IsFine now) cs
unfolding results_of
all-IsFine now [] g u = tt
all-IsFine now (c ∷ cs) g u =
    let h : (is_gap (execute_check c now) ≡ false) × (any is_gap (results_of now cs) ≡ false) =
      ground (arith, g) in
    let k : (is_unknown (execute_check c now) ≡ false)
        × (any is_unknown (results_of now cs) ≡ false) =
      ground (arith, u) in
    ((h.0, k.0), all-IsFine now cs h.1 k.1)

checks_of-AllPass :
    (now : Time) (host : Host) (o : Filled) → All (IsFine now) (checks_of host o) → AllPass host o
unfolding checks_of
checks_of-AllPass now host o (f0, (f1, (f2, (f3, (f4, f5))))) =
    let fs = host.files in
    let m = o.module_name in
    let at = host.clock in
    record {
      present =
          passed now ConfPresent.id ConfPresent.title ConfPresent.description
            (ConfPresent.run_check fs (at ConfPresent.id) o.conf_path)
            (Verdicts.conf_present-IsVerdict fs (at ConfPresent.id) o.conf_path) f0;
      correct =
          passed now ConfCorrect.id ConfCorrect.title ConfCorrect.description
            (ConfCorrect.run_check fs (at ConfCorrect.id) o.conf_path m)
            (Verdicts.conf_correct-IsVerdict fs (at ConfCorrect.id) o.conf_path m) f1;
      dry_run =
          passed now DryRunCheck.id DryRunCheck.title DryRunCheck.description
            (DryRunCheck.run_check (stateless o.runner) tt (at DryRunCheck.id) m).0
            (Verdicts.dry_run-IsVerdict (stateless o.runner) tt (at DryRunCheck.id) m) f2;
      chain =
          passed now DependencyChain.id DependencyChain.title DependencyChain.description
            (DependencyChain.run_check fs (at DependencyChain.id) o.modprobe_dir m)
            (Verdicts.dependency_chain-IsVerdict fs (at DependencyChain.id) o.modprobe_dir m) f3;
      unloaded =
          passed now NotLoaded.id NotLoaded.title NotLoaded.description
            (NotLoaded.run_check fs (at NotLoaded.id) m)
            (Verdicts.not_loaded-IsVerdict fs (at NotLoaded.id) m) f4;
    }

fine :
    (now : Time) (id title description : Text) (r : Result)
    → r.state ≡ pass
    → IsFine now (check_of id title description r)
unfolding execute_check
fine now id title description r h = ground (arith, h)

AllPass-checks_of :
    (now : Time) (host : Host) (o : Filled) → AllPass host o → All (IsFine now) (checks_of host o)
unfolding checks_of
AllPass-checks_of now host o a = (
  fine now ConfPresent.id ConfPresent.title ConfPresent.description _ a.present,
  (
    fine now ConfCorrect.id ConfCorrect.title ConfCorrect.description _ a.correct,
    (
      fine now DryRunCheck.id DryRunCheck.title DryRunCheck.description _ a.dry_run,
      (
        fine now DependencyChain.id DependencyChain.title DependencyChain.description _ a.chain,
        (fine now NotLoaded.id NotLoaded.title NotLoaded.description _ a.unloaded, tt),
      ),
    ),
  ),
)

none_left :
    (now : Time) (cs : List Check)
    → All (IsFine now) cs
    → (any is_gap (results_of now cs) ≡ false) × (any is_unknown (results_of now cs) ≡ false)
unfolding results_of
none_left now [] h = (refl, refl)
none_left now (c ∷ cs) ((g, u), h) = let (gs, us) = none_left now cs h in (rw g gs, rw u us)

-- The exit code for a report on the whole bundle is 0 exactly if the module is blocked: the blocklist
-- file is a regular file that parses, its last install directive for the module runs /bin/false and
-- the module is blacklisted; so is the last install directive of the whole directory, which parses
-- too; the name is a safe argument and the dry run, without an error, resolves to
-- `install /bin/false`; and /proc/modules parses and lists no such module.
pub compute_exit-IsMitigated :
    (host : Host) (opts : Options) (now : Time) (rep : Report)
    → rep.results ≡ results_of now (all_with_options host opts)
    → rep.summary ≡ new_summary rep.results
    → (compute_exit rep ≡ exit_ok) ↔ IsMitigated host (fill_options host opts)
unfolding all_with_options
compute_exit-IsMitigated host opts now rep r s =
    let o = fill_options host opts in
    let e = compute_exit-results rep s in
    (
      λ h.
          let g : any is_gap rep.results ≡ false = ground (arith, e, h) in
          let u : any is_unknown rep.results ≡ false = ground (arith, e, h) in
          AllPass-IsMitigated host o (
            checks_of-AllPass now host o
              (all-IsFine now (checks_of host o) (rw r at g) (rw r at u))),
      λ m.
          let (g, u) =
            none_left now (checks_of host o)
              (AllPass-checks_of now host o (IsMitigated-AllPass host o m)) in
          e ∙ rw (r, g, u) refl,
    )
