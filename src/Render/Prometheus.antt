-- ===== src/Render/Prometheus.antt =====
-- internal/render/prom.go: the text format of Prometheus. Labels and numbers are in Render/Values, the
-- writing of the file is in a child.
pub mod Order
pub mod Atomic
use Prim.Native.Nat.{◌/◌, ◌%◌}
use copyfail_validation.Base.{
  ℕ, String, List, [], ◌∷◌, ◌++◌, ◌+◌, ◌-◌, ◌*◌, ◌^◌, Bool, true, false, ◌==◌, ltb, leb, length,
  if◌then◌else◌,
}
use copyfail_validation.Base.Int.{ℤ, pos, negsuc}
use copyfail_validation.Base.Sort.{sort_by}
use copyfail_validation.Text.{Text, codes, equal, trim_right}
use copyfail_validation.Text.Order.{less}
use copyfail_validation.Text.Decimal.{format_ℕ, format_ℤ}
use copyfail_validation.Errors.{Outcome}
use copyfail_validation.Report.{
  State, pass, fail, skip, error, state_text, severity_text, Time, Result, Summary, ToolInfo,
  Report,
}
use copyfail_validation.Render.{Writer, flush_all}
use copyfail_validation.Render.Values.{prom_label_value, format_seconds}

abbrev pub metric_check_state : Text
metric_check_state = codes "copyfail_validator_check_state"

abbrev pub metric_check_duration_seconds : Text
metric_check_duration_seconds = codes "copyfail_validator_check_duration_seconds"

abbrev pub metric_summary : Text
metric_summary = codes "copyfail_validator_summary"

abbrev pub metric_required_failures : Text
metric_required_failures = codes "copyfail_validator_required_failures"

abbrev pub metric_last_run_timestamp : Text
metric_last_run_timestamp = codes "copyfail_validator_last_run_timestamp_seconds"

abbrev pub metric_build_info : Text
metric_build_info = codes "copyfail_validator_build_info"

abbrev pub prom_state_values : List State
prom_state_values = State.pass ∷ State.fail ∷ State.skip ∷ State.error ∷ []

-- Pieces of a line, one after the other.
unfoldable pub line_of : List Text → Text
line_of [] = codes "\n"
line_of (s ∷ parts) = s ++ line_of parts

unfoldable pub head_of : Text → String → Text
unfolding line_of
head_of name help =
    line_of (codes "# HELP " ∷ name ∷ codes " " ∷ codes help ∷ [])
    ++ line_of (codes "# TYPE " ∷ name ∷ codes " gauge" ∷ [])

-- The value of a state's row: 1 for the state of the result, 0 for another.
unfoldable pub state_value : Result → State → ℕ
unfolding equal state_text
state_value r s = if equal (state_text r.state) (state_text s) then 1 else 0

unfoldable pub state_row : Result → State → Text
unfolding prom_label_value line_of state_value format_ℕ severity_text
state_row r s = line_of (
    metric_check_state
    ∷ codes "{check_id="
    ∷ prom_label_value r.check_id
    ∷ codes ",severity="
    ∷ prom_label_value (severity_text r.severity)
    ∷ codes ",state="
    ∷ prom_label_value (state_text s)
    ∷ codes "} "
    ∷ format_ℕ (state_value r s)
    ∷ [])

unfoldable pub state_rows : Result → List State → Text
unfolding state_row
state_rows r [] = []
state_rows r (s ∷ ss) = state_row r s ++ state_rows r ss

unfoldable pub all_state_rows : List Result → Text
unfolding state_rows
all_state_rows [] = []
all_state_rows (r ∷ rs) = state_rows r prom_state_values ++ all_state_rows rs

-- `a.CheckID < b.CheckID`. For results with one id sort.Slice promises no order; up to twelve of them
-- it keeps the order that they have, as this sort does.
abbrev pub by_check_id : Result → Result → Bool
by_check_id a b = less a.check_id b.check_id

unfoldable pub sorted_by_check_id : List Result → List Result
unfolding sort_by less
sorted_by_check_id = sort_by by_check_id

unfoldable pub duration_row : Result → Text
unfolding prom_label_value line_of format_seconds
duration_row r = line_of (
    metric_check_duration_seconds
    ∷ codes "{check_id="
    ∷ prom_label_value r.check_id
    ∷ codes "} "
    ∷ format_seconds r.duration_ms
    ∷ [])

unfoldable pub duration_rows : List Result → Text
unfolding duration_row
duration_rows [] = []
duration_rows (r ∷ rs) = duration_row r ++ duration_rows rs

unfoldable pub check_state_metric : List Result → Text
unfolding head_of all_state_rows sorted_by_check_id
check_state_metric rs =
    head_of metric_check_state "Result of one mitigation check (1 = current state)."
    ++ (all_state_rows (sorted_by_check_id rs) ++ codes "\n")

unfoldable pub check_duration_metric : List Result → Text
unfolding head_of duration_rows sorted_by_check_id
check_duration_metric rs =
    head_of metric_check_duration_seconds "Time spent running each check."
    ++ (duration_rows (sorted_by_check_id rs) ++ codes "\n")

unfoldable pub outcome_row : String → ℕ → Text
unfolding prom_label_value line_of format_ℕ
outcome_row outcome n = line_of (
    metric_summary
    ∷ codes "{outcome="
    ∷ prom_label_value (codes outcome)
    ∷ codes "} "
    ∷ format_ℕ n
    ∷ [])

unfoldable pub summary_metric : Summary → Text
unfolding head_of outcome_row
summary_metric s =
    head_of metric_summary "Summary of last validation run."
    ++ (outcome_row "pass" s.pass
        ++ (outcome_row "fail" s.fail
            ++ (outcome_row "skip" s.skip ++ (outcome_row "error" s.error ++ codes "\n"))))

unfoldable pub required_failures_metric : Summary → Text
unfolding head_of line_of format_ℕ
required_failures_metric s =
    head_of metric_required_failures "Required-check failures (drives paging)."
    ++ (line_of (metric_required_failures ∷ codes " " ∷ format_ℕ s.required.fail ∷ [])
        ++ codes "\n")

-- Seconds from the zero time.Time to 1970.
abbrev pub unix_epoch : ℕ
unix_epoch = 62135596800

-- time.Time.Unix
unfoldable pub unix : Time → ℤ
unix t =
    let seconds = t / 10 ^ 9 in
    if leb unix_epoch seconds then pos (seconds - unix_epoch) else negsuc (unix_epoch - seconds - 1)

unfoldable pub last_run_metric : Time → Text
unfolding head_of line_of unix format_ℤ
last_run_metric generated =
    head_of metric_last_run_timestamp "Unix time of last successful run."
    ++ (line_of (metric_last_run_timestamp ∷ codes " " ∷ format_ℤ (unix generated) ∷ [])
        ++ codes "\n")

-- For what runtime.Version answers.
unfoldable pub build_info_metric : Text → ToolInfo → Text
unfolding head_of line_of prom_label_value
build_info_metric go_version t =
    head_of metric_build_info "Build info as labels (value always 1)."
    ++ line_of (
        metric_build_info
        ∷ codes "{version="
        ∷ prom_label_value t.version
        ∷ codes ",commit="
        ∷ prom_label_value t.commit
        ∷ codes ",go_version="
        ∷ prom_label_value go_version
        ∷ codes "} 1"
        ∷ [])

unfoldable pub prometheus_text : Text → Report → Text
unfolding check_state_metric check_duration_metric summary_metric required_failures_metric
    last_run_metric build_info_metric
prometheus_text go_version rep =
    check_state_metric rep.results
    ++ (check_duration_metric rep.results
        ++ (summary_metric rep.summary
            ++ (required_failures_metric rep.summary
                ++ (last_run_metric rep.generated ++ build_info_metric go_version rep.tool))))

unfoldable pub render_prometheus {ℓ} : {W : Type ℓ} → Writer W → Text → W → Report → Outcome ℕ × W
unfolding prometheus_text flush_all
render_prometheus write go_version w rep = flush_all write w (prometheus_text go_version rep)
