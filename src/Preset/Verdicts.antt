-- ===== src/Preset/Verdicts.antt =====
-- Every result of the checks of preset/copyfail is a verdict: required, and passed, failed or in error.
use copyfail_validation.Base.{
  List, [], ◌∷◌, Option, none, some, ◌≡◌, ◌⊎◌, inl, inr, refl, arith, Option-cases, length,
}
use copyfail_validation.Text.{Text, codes}
use copyfail_validation.Errors.{Outcome, Try-cases}
use copyfail_validation.Report.{pass, fail, error, required, Time, Result, scalar, count}
use copyfail_validation.Exec.{Cmd}
use copyfail_validation.Exec as Exec
use copyfail_validation.Kernelmod.Conf.{ConfDirective}
use copyfail_validation.Kernelmod.ConfDir.{Files, parse_conf_file, parse_conf_dir}
use copyfail_validation.Kernelmod.DryRun.{DryRun, dry_run_module}
use copyfail_validation.Kernelmod.ProcModules.{LoadedModule, parse_proc_modules}
use copyfail_validation.Preset.{noting}
use copyfail_validation.Preset.ConfPresent
use copyfail_validation.Preset.ConfCorrect
use copyfail_validation.Preset.DryRunCheck
use copyfail_validation.Preset.DependencyChain
use copyfail_validation.Preset.NotLoaded

abbrev pub IsVerdict : Result → Type 0
IsVerdict r = (r.severity ≡ required) × ((r.state ≡ pass) ⊎ (r.state ≡ fail) ⊎ (r.state ≡ error))

pub conf_present-IsVerdict :
    (fs : Files) (now : Time) (path : Text) → IsVerdict (ConfPresent.run_check fs now path)
unfolding ConfPresent.run_check ConfPresent.on_info
conf_present-IsVerdict fs now path = elim (Try-cases (fs.stat path)) [
  | inl (i, q) ↦ rw (q, ConfPresent.run_check) (ground arith)
  | inr (e, q) ↦ rw (q, ConfPresent.run_check) (ground arith)
]

correct-parsed :
    (res : Result) (path m : Text) (o : Outcome (List ConfDirective))
    → res.severity ≡ required
    → IsVerdict (ConfCorrect.on_parsed res path m o)
unfolding ConfCorrect.on_parsed ConfCorrect.judge
correct-parsed res path m o h = elim (Option-cases o.err) [
  | inl q ↦ rw q (ground arith)
  | inr (e, q) ↦ rw q (ground arith)
]

pub conf_correct-IsVerdict :
    (fs : Files) (now : Time) (path m : Text) → IsVerdict (ConfCorrect.run_check fs now path m)
unfolding ConfCorrect.run_check
conf_correct-IsVerdict fs now path m =
    correct-parsed (ConfCorrect.opened now path m) path m (parse_conf_file fs path) refl

on_dry_run-IsVerdict :
    (res : Result) (m : Text) (o : Outcome DryRun)
    → res.severity ≡ required
    → IsVerdict (DryRunCheck.on_dry_run res m o)
unfolding DryRunCheck.on_dry_run DryRunCheck.judge
on_dry_run-IsVerdict res m o h = elim (Option-cases o.err) [
  | inl q ↦ rw q (ground arith)
  | inr (e, q) ↦ rw q (ground arith)
]

pub dry_run-IsVerdict {ℓ} :
    {R : Type ℓ} (run : R → Cmd → Outcome Exec.Result × R) (r : R) (now : Time) (m : Text)
    → IsVerdict (DryRunCheck.run_check run r now m).0
unfolding DryRunCheck.run_check
dry_run-IsVerdict run r now m =
    on_dry_run-IsVerdict (DryRunCheck.opened now m) m (dry_run_module run r m).0 refl

on_last-IsVerdict :
    (res : Result) (dir m : Text) (f : Option DependencyChain.Found)
    → res.severity ≡ required
    → IsVerdict (DependencyChain.on_last res dir m f)
unfolding DependencyChain.on_last
on_last-IsVerdict res dir m none h = ground arith
on_last-IsVerdict res dir m (some (t, s)) h = ground arith

on_scanned-IsVerdict :
    (res : Result) (dir m : Text) (o : Outcome (List ConfDirective))
    → res.severity ≡ required
    → IsVerdict (DependencyChain.on_scanned res dir m o)
unfolding DependencyChain.on_scanned
on_scanned-IsVerdict res dir m o h = elim (Option-cases o.err) [
  | inl q ↦ rw q (
      on_last-IsVerdict
        (noting res ((codes "directive_count", scalar (count (length o.value))) ∷ [])) dir m
        (DependencyChain.last_install_directive o.value m) h)
  | inr (e, q) ↦ rw q (ground arith)
]

pub dependency_chain-IsVerdict :
    (fs : Files) (now : Time) (dir m : Text) → IsVerdict (DependencyChain.run_check fs now dir m)
unfolding DependencyChain.run_check
dependency_chain-IsVerdict fs now dir m =
    on_scanned-IsVerdict (DependencyChain.opened now dir m) dir m (parse_conf_dir fs dir) refl

loaded-parsed :
    (res : Result) (path m : Text) (o : Outcome (List LoadedModule))
    → res.severity ≡ required
    → IsVerdict (NotLoaded.on_parsed res path m o)
unfolding NotLoaded.on_parsed NotLoaded.loaded
loaded-parsed res path m o h = elim (Option-cases o.err) [
  | inl q ↦ rw q (ground arith)
  | inr (e, q) ↦ rw q (ground arith)
]

pub not_loaded-IsVerdict :
    (fs : Files) (now : Time) (m : Text) → IsVerdict (NotLoaded.run_check fs now m)
unfolding NotLoaded.run_check
not_loaded-IsVerdict fs now m = elim (Try-cases (fs.open_file NotLoaded.proc_modules_path)) [
  | inl (r, q) ↦ rw q (
      loaded-parsed (NotLoaded.opened now NotLoaded.proc_modules_path m) NotLoaded.proc_modules_path
        m (parse_proc_modules r) refl)
  | inr (e, q) ↦ rw q (ground arith)
]
