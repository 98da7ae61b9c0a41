-- ===== src/Preset/Posture.antt =====
-- The posture that the checks of preset/copyfail establish together, and the runs of each that say so.
use copyfail_validation.Base.{false, none, some, Option-cases, ◌≡◌, inl, inr}
use copyfail_validation.Text.{Text}
use copyfail_validation.Text.Scan.{Reader, scan}
use copyfail_validation.Errors.{Error, ok, Try-cases}
use copyfail_validation.Report.{pass, Time}
use copyfail_validation.Exec.{untrusted, validate}
use copyfail_validation.Exec.Safety.{IsSafeArg, validate_iff}
use copyfail_validation.Kernelmod.Conf.Queries.{LastInstall}
use copyfail_validation.Kernelmod.ConfDir.{
  Files, FileInfo, regular, parse_conf_file, parse_conf_dir,
}
use copyfail_validation.Kernelmod.DryRun.{parse_dry_run, dry_run_cmd, blocked_target}
use copyfail_validation.Kernelmod.ProcModules.{parse_proc_modules}
use copyfail_validation.Kernelmod.ProcModules.Sound.{lists}
use copyfail_validation.Preset.{required_install_target}
use copyfail_validation.Preset.ConfCorrect.{IsBlocked}
use copyfail_validation.Preset.ConfPresent
use copyfail_validation.Preset.ConfCorrect
use copyfail_validation.Preset.DryRunCheck
use copyfail_validation.Preset.DependencyChain
use copyfail_validation.Preset.NotLoaded
use copyfail_validation.Preset.Bundle.{Host, Filled, Runner, stateless}

-- The posture that the bundle is to establish, on the options with their defaults.
pub record IsMitigated (host : Host) (o : Filled) : Type 0 where
  pub present : (i : FileInfo) × (host.files.stat o.conf_path ≡ ok i) × (i.mode ≡ regular)
  pub parsed : (parse_conf_file host.files o.conf_path).err ≡ none
  pub blocked : IsBlocked o.module_name (parse_conf_file host.files o.conf_path).value
  pub safe_name : IsSafeArg (untrusted o.module_name)
  pub ran : (o.runner (dry_run_cmd o.module_name)).err ≡ none
  pub resolved :
      (parse_dry_run (o.runner (dry_run_cmd o.module_name)).value.stdout).resolved_to
      ≡ blocked_target
  pub scanned : (parse_conf_dir host.files o.modprobe_dir).err ≡ none
  pub last_install :
      LastInstall o.module_name
        (parse_conf_dir host.files o.modprobe_dir).value
        (some required_install_target)
  pub proc_modules : Reader Error
  pub opened : host.files.open_file NotLoaded.proc_modules_path ≡ ok proc_modules
  pub listed : (parse_proc_modules proc_modules).err ≡ none
  pub unloaded : lists o.module_name (scan proc_modules).lines ≡ false

-- What a pass of the dry run says, on a name that the validation may refuse.
dry_run-pass :
    (run : Runner) (now : Time) (m : Text)
    → (DryRunCheck.run_check (stateless run) tt now m).0.state ≡ pass
    → IsSafeArg (untrusted m)
      × ((run (dry_run_cmd m)).err ≡ none)
      × ((parse_dry_run (run (dry_run_cmd m)).value.stdout).resolved_to ≡ blocked_target)
dry_run-pass run now m h =
    let (on_safe, on_unsafe) = DryRunCheck.run_check-verdict (stateless run) tt now m in
    elim (Option-cases (validate (untrusted m))) [
      | inl q ↦
          let safe = (validate_iff (untrusted m)).0 q in
          let (ran, line) = (on_safe safe).0.0 h in (safe, ran, line)
      | inr (e, q) ↦
          let unsafe : ¬ IsSafeArg (untrusted m) =
            λ safe. cc (q, (validate_iff (untrusted m)).1 safe) in
          absurd (cc (h, (on_unsafe unsafe).0))
    ]

-- What a pass of module.not_loaded says.
not_loaded-pass :
    (fs : Files) (now : Time) (m : Text)
    → (NotLoaded.run_check fs now m).state ≡ pass
    → (r : Reader Error) × (fs.open_file NotLoaded.proc_modules_path ≡ ok r)
      × ((parse_proc_modules r).err ≡ none)
      × (lists m (scan r).lines ≡ false)
not_loaded-pass fs now m h =
    let (on_parsed, on_malformed, on_failed) = NotLoaded.run_check-lists fs now m in
    elim (Try-cases (fs.open_file NotLoaded.proc_modules_path)) [
      | inl (r, q) ↦ elim (Option-cases (parse_proc_modules r).err) [
        | inl n ↦ (r, q, n, (on_parsed r q n).0.0 h)
        | inr (e, s) ↦ absurd (cc (h, on_malformed r q (λ n. cc (n, s))))
      ]
      | inr (e, q) ↦ absurd (cc (h, on_failed e q))
    ]

-- The five checks of the bundle, each of which has passed.
pub record AllPass (host : Host) (o : Filled) : Type 0 where
  pub present :
      (ConfPresent.run_check host.files (host.clock ConfPresent.id) o.conf_path).state ≡ pass
  pub correct :
      (ConfCorrect.run_check host.files (host.clock ConfCorrect.id) o.conf_path o.module_name).state
      ≡ pass
  pub dry_run :
      (DryRunCheck.run_check
        (stateless o.runner)
        tt
        (host.clock DryRunCheck.id)
        o.module_name).0.state
      ≡ pass
  pub chain :
      (DependencyChain.run_check host.files
        (host.clock DependencyChain.id)
        o.modprobe_dir
        o.module_name).state
      ≡ pass
  pub unloaded :
      (NotLoaded.run_check host.files (host.clock NotLoaded.id) o.module_name).state ≡ pass

pub AllPass-IsMitigated : (host : Host) (o : Filled) → AllPass host o → IsMitigated host o
AllPass-IsMitigated host o a =
    let (parsed, blocked) =
      (ConfCorrect.run_check-IsBlocked host.files (host.clock ConfCorrect.id) o.conf_path
          o.module_name).0.0
        a.correct in
    let (safe, ran, resolved) =
      dry_run-pass o.runner (host.clock DryRunCheck.id) o.module_name a.dry_run in
    let (scanned, last) =
      (DependencyChain.run_check-LastInstall host.files (host.clock DependencyChain.id)
          o.modprobe_dir o.module_name).0.0
        a.chain in
    let (r, opened, listed, unloaded) =
      not_loaded-pass host.files (host.clock NotLoaded.id) o.module_name a.unloaded in
    record {
      present =
          (ConfPresent.run_check-states host.files (host.clock ConfPresent.id) o.conf_path).0.0
            a.present;
      parsed = parsed;
      blocked = blocked;
      safe_name = safe;
      ran = ran;
      resolved = resolved;
      scanned = scanned;
      last_install = last;
      proc_modules = r;
      opened = opened;
      listed = listed;
      unloaded = unloaded;
    }

pub IsMitigated-AllPass : (host : Host) (o : Filled) → IsMitigated host o → AllPass host o
IsMitigated-AllPass host o a = record {
  present =
      (ConfPresent.run_check-states host.files (host.clock ConfPresent.id) o.conf_path).0.1
        a.present;
  correct =
      (ConfCorrect.run_check-IsBlocked host.files (host.clock ConfCorrect.id) o.conf_path
          o.module_name).0.1
        (a.parsed, a.blocked);
  dry_run =
      ((DryRunCheck.run_check-verdict (stateless o.runner) tt (host.clock DryRunCheck.id)
            o.module_name).0
          a.safe_name).0.1
        (a.ran, a.resolved);
  chain =
      (DependencyChain.run_check-LastInstall host.files (host.clock DependencyChain.id)
          o.modprobe_dir o.module_name).0.1
        (a.scanned, a.last_install);
  unloaded =
      ((NotLoaded.run_check-lists host.files (host.clock NotLoaded.id) o.module_name).0
          a.proc_modules a.opened a.listed).0.1
        a.unloaded;
}
