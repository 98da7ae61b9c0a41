-- ===== src/Tests/Cli.antt =====
-- Runs of the command line of cmd/copyfail-validate.
use copyfail_validation.Base.{
  ℕ, ◌*◌, ◌^◌, List, [], ◌∷◌, ◌++◌, true, false, none, ◌≡◌, ◌≢◌, refl, All, if◌then◌else◌,
}
use mathlib.Core.List.{Perm}
use copyfail_validation.Base.Int.{pos}
use copyfail_validation.Text.{Text, codes, trim_space, is_space}
use copyfail_validation.Errors.{ok, err}
use copyfail_validation.Report.{fail, error, required, Result, zero_result}
use copyfail_validation.Report.Tally.{new_summary}
use copyfail_validation.Report.Format.{json}
use copyfail_validation.Check.Execute.{Check, returns}
use copyfail_validation.Cli.Exit.{
  exit_ok, exit_interrupted, exit_mitigation_gap, exit_check_error, compute_exit, any, is_gap,
  is_unknown, compute_exit-results,
}
use copyfail_validation.Cli.Filter.{
  IsToken, is_comma, filter_checks, holds, filter_checks-partition,
}
use copyfail_validation.Cli.Flags.{Options, FlagSet, Environment, ParseDuration}
use copyfail_validation.Cli.Main.{
  Machine, IsClean, IsExitCode, run, main, run-IsClean, main-IsExitCode,
}
use copyfail_validation.Tests.Data.{absent, report_of}
use copyfail_validation.Text.Words.{is_free-Free}

abbrev check_named : Text → Check
check_named id = record {
  id = id;
  title = id;
  description = [];
  severity = required;
  applicable = returns (true, []);
  run = returns zero_result;
}

abbrev a : Check
a = check_named (codes "modprobe.dry_run")

abbrev b : Check
b = check_named (codes "module.not_loaded")

abbrev errored : Result
errored = record zero_result { state = error; severity = required }

abbrev gap : Result
gap = record zero_result { state = fail; severity = required }

abbrev options : Options
options = record {
  format = json;
  output = codes "-";
  module_name = codes "algif_aead";
  conf = codes "/etc/modprobe.d/disable-algif-aead.conf";
  only = [];
  skip = codes "module.not_loaded" ∷ [];
  timeout = pos 30;
  concurrency = pos 0;
  verbosity = pos 0;
  no_color = true;
}

-- A machine that writes the number of results, and whose checks all leave the zero result.
abbrev machine : Machine ℕ
machine = record {
  set_no_color = none;
  host = record { hostname = []; kernel_release = []; os_release = []; os_version = []; arch = [] };
  tool = record { name = []; version = []; commit = []; build_date = [] };
  now = 5;
  checks = λ m path. a ∷ b ∷ [];
  run_checks = λ opts cs. zero_result ∷ [];
  cancelled = none;
  open_output = λ path. ok 0;
  renderers =
      (codes "json", λ w rep. (record { value = rep.summary.total; err = none }, rep.summary.total))
      ∷ [];
}

abbrev flags : FlagSet
flags initial argv = ok (record initial { only_csv = codes "modprobe.dry_run" })

abbrev no_duration : ParseDuration
no_duration s = err absent

abbrev environment : Environment
environment name = []

run-IsClean_example : IsClean machine options (run machine options)
unfolding run new_summary
run-IsClean_example = run-IsClean machine options refl

main-IsExitCode_example :
    IsExitCode (main machine (err absent)).0 × ((main machine (err absent)).0 ≢ exit_interrupted)
main-IsExitCode_example = main-IsExitCode machine (err absent)

compute_exit-results_example : compute_exit (report_of (errored ∷ gap ∷ [])) ≡ (
    if any is_gap (report_of (errored ∷ gap ∷ [])).results
    then exit_mitigation_gap
    else if any is_unknown (report_of (errored ∷ gap ∷ [])).results
    then exit_check_error
    else exit_ok)
compute_exit-results_example = compute_exit-results (report_of (errored ∷ gap ∷ [])) refl

abbrev ids : List Text
ids = codes "module.not_loaded" ∷ []

filter_checks-partition_example :
    Perm ((b ∷ []) ++ (a ∷ [])) (a ∷ b ∷ [])
    × All (λ (c : Check). holds ((codes "module.not_loaded") ∷ []) c.id ≡ true) (b ∷ [])
    × All (λ (c : Check). holds ((codes "module.not_loaded") ∷ []) c.id ≡ false) (a ∷ [])
unfolding filter_checks
filter_checks-partition_example =
    filter_checks-partition (a ∷ b ∷ []) (codes "module.not_loaded") [] (b ∷ []) (a ∷ []) refl refl

ids-IsToken : All IsToken (codes "modprobe.dry_run" ∷ codes "module.not_loaded" ∷ [])
unfolding trim_space is_space
ids-IsToken = (
  record {
    no_comma = is_free-Free is_comma (codes "modprobe.dry_run") refl;
    trimmed = refl;
    not_empty = refl;
  },
  (
    record {
      no_comma = is_free-Free is_comma (codes "module.not_loaded") refl;
      trimmed = refl;
      not_empty = refl;
    },
    tt,
  ),
)

abbrev parsed_options : Options
parsed_options = record {
  format = json;
  output = codes "-";
  module_name = codes "algif_aead";
  conf = codes "/etc/modprobe.d/disable-algif-aead.conf";
  only = codes "modprobe.dry_run" ∷ [];
  skip = [];
  timeout = pos (30 * 10 ^ 9);
  concurrency = pos 0;
  verbosity = pos 0;
  no_color = false;
}
