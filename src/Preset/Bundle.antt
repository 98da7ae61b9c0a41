-- ===== src/Preset/Bundle.antt =====
-- preset/copyfail/copyfail.go: the options with their defaults, and the bundle of checks.
use copyfail_validation.Base.{List, [], ◌∷◌, true, Option, none, some, is_empty, if◌then◌else◌}
use copyfail_validation.Text.{Text, codes}
use copyfail_validation.Errors.{Outcome}
use copyfail_validation.Report.{required, Time, Result}
use copyfail_validation.Exec.{Cmd}
use copyfail_validation.Exec as Exec
use copyfail_validation.Exec.Runner.{System, os_run}
use copyfail_validation.Kernelmod.ConfDir.{Files}
use copyfail_validation.Check.Execute.{Check, returns}
use copyfail_validation.Preset.ConfPresent
use copyfail_validation.Preset.ConfCorrect
use copyfail_validation.Preset.DryRunCheck
use copyfail_validation.Preset.DependencyChain
use copyfail_validation.Preset.NotLoaded

-- A runner, by its answers in the run at hand.
abbrev pub Runner : Type 0
Runner = Cmd → Outcome Exec.Result

-- The answers as a runner that keeps no state.
abbrev pub stateless : Runner → Unit {0} → Cmd → Outcome Exec.Result × Unit {0}
stateless run u cmd = (run cmd, u)

abbrev pub default_module : Text
default_module = codes "algif_aead"

abbrev pub default_conf_path : Text
default_conf_path = codes "/etc/modprobe.d/disable-algif-aead.conf"

abbrev pub default_modprobe_dir : Text
default_modprobe_dir = codes "/etc/modprobe.d"

-- `none` is the nil runner.
pub record Options : Type 0 where
  pub runner : Option Runner
  pub module_name : Text
  pub conf_path : Text
  pub modprobe_dir : Text

-- The host that the checks look at: its files, its processes, and the time at which the check with
-- an id starts.
pub record Host : Type 0 where
  pub files : Files
  pub system : System
  pub clock : Text → Time

abbrev pub os_runner : System → Runner
unfolding os_run
os_runner os cmd = (os_run os cmd).outcome

-- The options after the defaults are filled in.
pub record Filled : Type 0 where
  pub runner : Runner
  pub module_name : Text
  pub conf_path : Text
  pub modprobe_dir : Text

abbrev or_default : Text → Text → Text
or_default s fallback = if is_empty s then fallback else s

unfoldable pub fill_options : Host → Options → Filled
unfolding os_run
fill_options host opts = record {
  runner = elim opts.runner [ none ↦ os_runner host.system | some r ↦ r ];
  module_name = or_default opts.module_name default_module;
  conf_path = or_default opts.conf_path default_conf_path;
  modprobe_dir = or_default opts.modprobe_dir default_modprobe_dir;
}

-- Every check of the bundle is required and applicable everywhere.
abbrev pub check_of : Text → Text → Text → Result → Check
check_of id title description result = record {
  id = id;
  title = title;
  description = description;
  severity = required;
  applicable = returns (true, []);
  run = returns result;
}

-- The slice that AllWithOptions returns.
unfoldable pub checks_of : Host → Filled → List Check
unfolding ConfPresent.run_check ConfCorrect.run_check DryRunCheck.run_check
    DependencyChain.run_check NotLoaded.run_check
checks_of host o =
    check_of ConfPresent.id ConfPresent.title ConfPresent.description
      (ConfPresent.run_check host.files (host.clock ConfPresent.id) o.conf_path)
    ∷ check_of ConfCorrect.id ConfCorrect.title ConfCorrect.description
        (ConfCorrect.run_check host.files (host.clock ConfCorrect.id) o.conf_path o.module_name)
    ∷ check_of DryRunCheck.id DryRunCheck.title DryRunCheck.description
        (DryRunCheck.run_check (stateless o.runner) tt (host.clock DryRunCheck.id) o.module_name).0
    ∷ check_of DependencyChain.id DependencyChain.title DependencyChain.description (
        DependencyChain.run_check host.files (host.clock DependencyChain.id) o.modprobe_dir
          o.module_name)
    ∷ check_of NotLoaded.id NotLoaded.title NotLoaded.description
        (NotLoaded.run_check host.files (host.clock NotLoaded.id) o.module_name)
    ∷ []

unfoldable pub all_with_options : Host → Options → List Check
unfolding checks_of fill_options
all_with_options host opts = checks_of host (fill_options host opts)

unfoldable pub all : Host → List Check
unfolding all_with_options
all host =
    all_with_options host
      (record { runner = none; module_name = []; conf_path = []; modprobe_dir = [] })
