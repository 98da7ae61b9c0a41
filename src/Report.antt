-- ===== src/Report.antt =====
-- report: the value types of a run. The tally and the renderer registry are in the children.
pub mod Tally
pub mod Format
pub mod Registry
use copyfail_validation.Base.{ℕ, String, List, [], ◌∷◌, Bool, true, false, is_empty}
use copyfail_validation.Base.Int.{ℤ}
use copyfail_validation.Text.{Text, codes}
use copyfail_validation.Errors.{Message}

-- The string type State: its constants, and any other value.
pub data State : Type 0 where
  pass fail skip error : State
  other : Text → State

-- The string that a state is.
unfoldable pub state_text : State → Text
state_text State.pass = codes "pass"
state_text State.fail = codes "fail"
state_text State.skip = codes "skip"
state_text State.error = codes "error"
state_text (State.other t) = t

unfoldable pub sarif_kind : State → Text
sarif_kind State.pass = codes "pass"
sarif_kind State.fail = codes "fail"
sarif_kind State.skip = codes "notApplicable"
sarif_kind _ = codes "open"

-- The string type Severity; its zero value is `other []`.
pub data Severity : Type 0 where
  required advisory : Severity
  other : Text → Severity

unfoldable pub severity_text : Severity → Text
severity_text required = codes "required"
severity_text advisory = codes "advisory"
severity_text (Severity.other t) = t

unfoldable pub is_required : Severity → Bool
is_required required = true
is_required _ = false

-- Nanoseconds of a wall clock; 0 is the zero time.Time.
abbrev pub Time : Type 0
Time = ℕ

-- Values of the evidence map.
pub data Scalar : Type 0 where
  text : Message → Scalar
  flag : Bool → Scalar
  count : ℕ → Scalar

pub data Value : Type 0 where
  scalar : Scalar → Value
  object : List (Text × Scalar) → Value

-- The map in the order of its writes: a later entry for a key hides an earlier one.
abbrev pub Evidence : Type 0
Evidence = List (Text × Value)

pub record Result : Type 0 where
  pub started_at : Time
  pub evidence : Evidence
  pub check_id : Text
  pub title : Text
  pub state : State
  pub severity : Severity
  pub detail : Message
  pub err : Message
  pub duration_ms : ℕ

abbrev pub zero_result : Result
zero_result = record {
  started_at = 0;
  evidence = [];
  check_id = [];
  title = [];
  state = State.other [];
  severity = Severity.other [];
  detail = [];
  err = [];
  duration_ms = 0;
}

pub record Bucket : Type 0 where
  pub pass : ℕ
  pub fail : ℕ
  pub error : ℕ

pub record Summary : Type 0 where
  pub total : ℕ
  pub pass : ℕ
  pub fail : ℕ
  pub skip : ℕ
  pub error : ℕ
  pub required : Bucket

pub record ToolInfo : Type 0 where
  pub name : Text
  pub version : Text
  pub commit : Text
  pub build_date : Text

pub record HostInfo : Type 0 where
  pub hostname : Text
  pub kernel_release : Text
  pub os_release : Text
  pub os_version : Text
  pub arch : Text

pub record Report : Type 0 where
  pub generated : Time
  pub host : HostInfo
  pub tool : ToolInfo
  pub schema_version : Text
  pub results : List Result
  pub summary : Summary

abbrev pub schema_version_current : Text
schema_version_current = codes "1.0.0"
