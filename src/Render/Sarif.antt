-- ===== src/Render/Sarif.antt =====
-- internal/render/sarif.go: the SARIF log of a report.
pub mod Firsts
pub mod Rules
use copyfail_validation.Base.{
  ℕ, String, List, [], ◌∷◌, ◌++◌, Bool, true, false, ◌&&◌, Option, none, some, ◌==◌, is_empty,
  if◌then◌else◌,
}
use copyfail_validation.Base.Sort.{sort_by}
use copyfail_validation.Text.{Text, codes, equal}
use copyfail_validation.Text.Order.{less}
use copyfail_validation.Text.Date.{rfc3339}
use copyfail_validation.Errors.{Outcome}
use copyfail_validation.Json.{
  Json, Items, Fields, bool, string, array, object, nil, item, end, field, indent,
}
use copyfail_validation.Report.{State, fail, error, sarif_kind, is_required, Time, Result, Report}
use copyfail_validation.Render.{Writer, message_text, flush_all}

abbrev pub sarif_schema : Text
sarif_schema =
    codes "https://docs.oasis-open.org/sarif/sarif/v2.1.0/cos02/schemas/sarif-schema-2.1.0.json"

abbrev pub sarif_version : Text
sarif_version = codes "2.1.0"

abbrev pub driver_information_uri : Text
driver_information_uri = codes "https://github.com/polyglotdev/copyfail-validation"

-- sarifRule; the three descriptions are the title too.
pub record SarifRule : Type 0 where
  pub id : Text
  pub name : Text

pub record SarifResult : Type 0 where
  pub message : Text
  pub rule_id : Text
  pub kind : Text
  pub level : Text

pub record SarifInvocation : Type 0 where
  pub start_time_utc : Text
  pub machine : Text
  pub execution_successful : Bool

-- The map of the results seen, in the order of their first occurrence.
unfoldable pub is_seen : Text → List Result → Bool
unfolding equal
is_seen id [] = false
is_seen id (r ∷ rs) = if equal r.check_id id then true else is_seen id rs

unfoldable pub first_of_each : List Result → List Result → List Result
unfolding is_seen
first_of_each seen [] = seen
first_of_each seen (r ∷ rs) =
    first_of_each (if is_seen r.check_id seen then seen else seen ++ r ∷ []) rs

abbrev pub by_id : Result → Result → Bool
by_id a b = less a.check_id b.check_id

abbrev pub rule_of : Result → SarifRule
rule_of r = record { id = r.check_id; name = r.title }

abbrev pub map_rules : List Result → List SarifRule
map_rules [] = []
map_rules (r ∷ rs) = rule_of r ∷ map_rules rs

-- buildSARIFRules: the ids are sorted, and each has the result that was seen first.
unfoldable pub build_sarif_rules : List Result → List SarifRule
unfolding first_of_each sort_by less
build_sarif_rules results = map_rules (sort_by by_id (first_of_each [] results))

unfoldable pub is_failure : State → Bool
is_failure State.fail = true
is_failure _ = false

unfoldable pub sarif_level : Result → Text
unfolding is_failure is_required
sarif_level r =
    if is_failure r.state
    then (if is_required r.severity then codes "error" else codes "warning")
    else []

unfoldable pub execution_successful : Report → Bool
execution_successful rep = rep.summary.required.fail == 0 && rep.summary.required.error == 0

unfoldable pub build_sarif_invocation : Report → SarifInvocation
unfolding execution_successful rfc3339
build_sarif_invocation rep = record {
  execution_successful = execution_successful rep;
  start_time_utc = rfc3339 rep.generated;
  machine = rep.host.hostname;
}

-- A field of text.
abbrev pub text_field : String → Text → Fields → Fields
text_field k s rest = field (codes k) (string s) rest

abbrev pub text_object : Text → Json
text_object s = object (text_field "text" s end)

abbrev pub rule_json : SarifRule → Json
rule_json r = object (
    text_field "id" r.id (
      text_field "name" r.name (
        field (codes "shortDescription") (text_object r.name) (
          field (codes "fullDescription") (text_object r.name)
            (field (codes "help") (text_object r.name) end)))))

unfoldable pub rules_json : List SarifRule → Items
rules_json [] = nil
rules_json (r ∷ rs) = item (rule_json r) (rules_json rs)

-- The level is left out where it is empty.
abbrev pub level_field : Text → Fields
level_field [] = end
level_field (c ∷ s) = text_field "level" (c ∷ s) end

abbrev pub result_json : SarifResult → Json
result_json r = object (
    field (codes "message") (text_object r.message)
      (text_field "ruleId" r.rule_id (text_field "kind" r.kind (level_field r.level))))

unfoldable pub results_json : List SarifResult → Items
results_json [] = nil
results_json (r ∷ rs) = item (result_json r) (results_json rs)

abbrev pub invocation_json : SarifInvocation → Json
invocation_json i = object (
    text_field "startTimeUtc" i.start_time_utc (
      text_field "machine" i.machine
        (field (codes "executionSuccessful") (bool i.execution_successful) end)))

-- For the quoting of `%q`.
module _ (quote : Text → Text) where
  unfoldable pub sarif_message : Result → Text
  unfolding message_text
  sarif_message r =
      let shown =
        if is_empty (message_text quote r.detail) then r.title else message_text quote r.detail in
      elim r.state [
        | State.error ↦
            if is_empty (message_text quote r.err) then shown else message_text quote r.err
        | _ ↦ shown
      ]

  unfoldable pub build_sarif_results : List Result → List SarifResult
  unfolding sarif_message sarif_level sarif_kind
  build_sarif_results [] = []
  build_sarif_results (r ∷ rs) =
      record {
        rule_id = r.check_id;
        kind = sarif_kind r.state;
        level = sarif_level r;
        message = sarif_message r;
      }
      ∷ build_sarif_results rs

  unfoldable pub sarif_log : Report → Json
  unfolding build_sarif_rules build_sarif_results build_sarif_invocation rules_json results_json
  sarif_log rep =
      let driver = object (
        text_field "name" rep.tool.name (
          text_field "version" rep.tool.version (
            text_field "informationUri" driver_information_uri
              (field (codes "rules") (array (rules_json (build_sarif_rules rep.results))) end)))) in
      let run = object (
        field (codes "tool") (object (field (codes "driver") driver end)) (
          field (codes "results") (array (results_json (build_sarif_results rep.results))) (
            field (codes "invocations")
              (array (item (invocation_json (build_sarif_invocation rep)) nil)) end))) in
      object (
        text_field "$schema" sarif_schema
          (text_field "version" sarif_version (field (codes "runs") (array (item run nil)) end)))

  unfoldable pub render_sarif {ℓ} : {W : Type ℓ} → Writer W → W → Report → Outcome ℕ × W
  unfolding sarif_log indent flush_all
  render_sarif write w rep = flush_all write w (indent 0 (sarif_log rep) ++ codes "\n")
