-- ===== src/Tests/Preset.antt =====
-- Runs of the checks of preset/copyfail, each by itself and all of them.
use copyfail_validation.Base.{List, [], ◌∷◌, none, some, ◌≡◌, ◌↔◌, ◌⊎◌, refl}
use copyfail_validation.Text.{Text, codes, has_suffix}
use copyfail_validation.Errors.{Outcome, is, not_exist, str, lit}
use copyfail_validation.Report.{pass, fail}
use copyfail_validation.Exec.{Cmd}
use copyfail_validation.Exec as Exec
use copyfail_validation.Exec.Safety.{Fails}
use copyfail_validation.Kernelmod.Conf.Queries.{LastInstall}
use copyfail_validation.Kernelmod.ConfDir.{parse_conf_dir}
use copyfail_validation.Cli.Exit.{compute_exit, exit_ok}
use copyfail_validation.Preset.{required_install_target}
use copyfail_validation.Preset.ConfCorrect
use copyfail_validation.Preset.DryRunCheck
use copyfail_validation.Preset.DependencyChain
use copyfail_validation.Preset.Bundle.{all_with_options, fill_options}
use copyfail_validation.Preset.Mitigated.{results_of, compute_exit-IsMitigated}
use copyfail_validation.Preset.Posture.{IsMitigated}
use copyfail_validation.Tests.Data.{
  absent, files, dangling_files, plain_file, link, runner, host, options, report_of,
}

abbrev dir : Text
dir = codes "/etc/modprobe.d"

abbrev target : Text
target = codes "algif_aead"

abbrev run_once : List Cmd → Cmd → Outcome Exec.Result × List Cmd
run_once calls cmd = (runner cmd, cmd ∷ calls)

run_check-LastInstall_example :
    ((DependencyChain.run_check files 1 dir target).state ≡ pass
      ↔ ((parse_conf_dir files dir).err ≡ none)
        × LastInstall target (parse_conf_dir files dir).value (some required_install_target))
    × ((DependencyChain.run_check files 1 dir target).state ≡ fail
        ↔ (((parse_conf_dir files dir).err ≡ none)
            × (¬ LastInstall target
                (parse_conf_dir files dir).value
                (some required_install_target)))
          ⊎ Fails not_exist (parse_conf_dir files dir).err)
run_check-LastInstall_example = DependencyChain.run_check-LastInstall files 1 dir target

run_check-dangling_link_example :
    ((DependencyChain.run_check dangling_files 1 dir target).state ≡ fail)
    × ((DependencyChain.run_check dangling_files 1 dir target).detail
        ≡ str dir ∷ lit " directory missing")
unfolding has_suffix is
run_check-dangling_link_example =
    DependencyChain.run_check-dangling_link dangling_files 1 dir target (plain_file ∷ []) link []
      absent refl refl refl refl refl

compute_exit-IsMitigated_example :
    (compute_exit (report_of (results_of 1 (all_with_options host options))) ≡ exit_ok)
    ↔ IsMitigated host (fill_options host options)
compute_exit-IsMitigated_example =
    compute_exit-IsMitigated host options 1
      (report_of (results_of 1 (all_with_options host options))) refl refl
