-- ===== src/Preset.antt =====
-- preset/copyfail: the five required checks, one in each child, and the bundle of them in Bundle.
pub mod ConfPresent
pub mod ConfCorrect
pub mod DryRunCheck
pub mod DependencyChain
pub mod NotLoaded
pub mod Bundle
pub mod Verdicts
pub mod Posture
pub mod Mitigated
use copyfail_validation.Base.{List, [], ◌∷◌, ◌++◌}
use copyfail_validation.Text.{Text, codes}
use copyfail_validation.Errors.{Message}
use copyfail_validation.Report.{
  State, pass, fail, error, required, Time, Evidence, Value, scalar, text, Result, zero_result,
}

abbrev pub required_install_target : Text
required_install_target = codes "/bin/false"

-- The result that each Run starts with.
abbrev pub opening : Text → Text → Time → Evidence → Result
opening id title now evidence = record zero_result {
  check_id = id;
  title = title;
  severity = required;
  started_at = now;
  evidence = evidence;
}

-- An entry that holds a string.
abbrev pub entry : Text → Message → Text × Value
entry key m = (key, scalar (text m))

abbrev pub noting : Result → Evidence → Result
noting r more = record r { evidence = r.evidence ++ more }

abbrev pub passes : Result → Message → Result
passes r detail = record r { state = pass; detail = detail }

abbrev pub fails : Result → Message → Result
fails r detail = record r { state = fail; detail = detail }

abbrev pub errs : Result → Message → Message → Result
errs r detail err = record r { state = error; detail = detail; err = err }
