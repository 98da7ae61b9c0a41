-- ===== src/Render/Document.antt =====
-- internal/render/json.go: the report as a JSON document. What time.Time's MarshalJSON makes of a
-- time, in the zone of the host, is a parameter; it refuses a year above 9999.
pub mod Line
pub mod Whole
use copyfail_validation.Base.{
  ℕ, List, [], ◌∷◌, ◌++◌, Bool, true, false, some, is_empty, if◌then◌else◌,
}
use copyfail_validation.Base.Sort.{sort_by}
use copyfail_validation.Text.{Text, codes, equal}
use copyfail_validation.Text.Order.{less}
use copyfail_validation.Text.Decimal.{format_ℕ}
use copyfail_validation.Errors.{Try, ok, err, Outcome, wrap_both, encode_failure, lit}
use copyfail_validation.Json.{
  Json, Items, Fields, bool, number, string, array, object, nil, item, end, field, indent, marshal,
}
use copyfail_validation.Report.{
  state_text, severity_text, Time, Scalar, text, flag, count, Value, scalar, Evidence, Result,
  Bucket, Summary, ToolInfo, HostInfo, Report,
}
use copyfail_validation.Render.{Writer, message_text, flush_all}
use copyfail_validation.Render.Sarif.{text_field}

-- The entries that no later entry hides.
unfoldable pub holds_key {ℓ} : {A : Type ℓ} → Text → List (Text × A) → Bool
unfolding equal
holds_key k [] = false
holds_key k ((j, v) ∷ es) = if equal j k then true else holds_key k es

unfoldable pub last_of_each {ℓ} : {A : Type ℓ} → List (Text × A) → List (Text × A)
unfolding holds_key
last_of_each [] = []
last_of_each ((k, v) ∷ es) =
    let rest = last_of_each es in if holds_key k es then rest else (k, v) ∷ rest

-- The entries of a map in the order that Marshal writes.
unfoldable pub sorted_entries {ℓ} : {A : Type ℓ} → List (Text × A) → List (Text × A)
unfolding last_of_each sort_by less
sorted_entries es = sort_by (λ a b. less a.0 b.0) (last_of_each es)

abbrev pub number_field : Text → ℕ → Fields → Fields
number_field k n rest = field k (number (format_ℕ n)) rest

-- A field that is left out where its text is empty.
abbrev pub optional_field : Text → Text → Fields → Fields
optional_field k s rest = if is_empty s then rest else field k (string s) rest

-- For the quoting of `%q`, and the text that MarshalJSON gives a time between its quotes.
module _ (quote : Text → Text) (marshal_time : Time → Try Text) where
  unfoldable pub scalar_json : Scalar → Json
  unfolding message_text format_ℕ
  scalar_json (text m) = string (message_text quote m)
  scalar_json (flag b) = bool b
  scalar_json (count n) = number (format_ℕ n)

  unfoldable pub scalars_json : List (Text × Scalar) → Fields
  unfolding scalar_json
  scalars_json [] = end
  scalars_json ((k, s) ∷ es) = field k (scalar_json s) (scalars_json es)

  unfoldable pub value_json : Value → Json
  unfolding scalar_json scalars_json sorted_entries
  value_json (scalar s) = scalar_json s
  value_json (Value.object es) = object (scalars_json (sorted_entries es))

  unfoldable pub values_json : List (Text × Value) → Fields
  unfolding value_json
  values_json [] = end
  values_json ((k, v) ∷ es) = field k (value_json v) (values_json es)

  abbrev pub evidence_field : Evidence → Fields → Fields
  evidence_field es rest =
      if is_empty es
      then rest
      else field (codes "evidence") (object (values_json (sorted_entries es))) rest

  unfoldable pub result_fields : Text → Result → Fields
  unfolding values_json sorted_entries message_text format_ℕ state_text severity_text
  result_fields started r = text_field "started_at" started (
      evidence_field r.evidence (
        text_field "check_id" r.check_id (
          text_field "title" r.title (
            text_field "state" (state_text r.state) (
              text_field "severity" (severity_text r.severity) (
                optional_field (codes "detail") (message_text quote r.detail) (
                  optional_field (codes "error") (message_text quote r.err)
                    (number_field (codes "duration_ms") r.duration_ms end))))))))

  unfoldable pub results_items : List Result → Try Items
  unfolding result_fields
  results_items [] = ok nil
  results_items (r ∷ rs) = elim (marshal_time r.started_at) [
    | err e ↦ err e
    | ok started ↦ elim (results_items rs) [
      | err e ↦ err e
      | ok items ↦ ok (item (object (result_fields started r)) items)
    ]
  ]

  unfoldable pub host_json : HostInfo → Json
  host_json h = object (
      text_field "hostname" h.hostname (
        text_field "kernel_release" h.kernel_release (
          text_field "os_release" h.os_release
            (text_field "os_version_id" h.os_version (text_field "arch" h.arch end)))))

  unfoldable pub tool_json : ToolInfo → Json
  tool_json t = object (
      text_field "name" t.name (
        text_field "version" t.version
          (text_field "commit" t.commit (text_field "build_date" t.build_date end))))

  unfoldable pub bucket_json : Bucket → Json
  unfolding format_ℕ
  bucket_json b = object (
      number_field (codes "pass") b.pass
        (number_field (codes "fail") b.fail (number_field (codes "error") b.error end)))

  unfoldable pub summary_json : Summary → Json
  unfolding format_ℕ bucket_json
  summary_json s = object (
      number_field (codes "total") s.total (
        number_field (codes "pass") s.pass (
          number_field (codes "fail") s.fail (
            number_field (codes "skip") s.skip (
              number_field (codes "error") s.error
                (field (codes "required") (bucket_json s.required) end))))))

  -- The fields with their tags, for a list of results that is not nil: Run always makes one.
  unfoldable pub report_json : Report → Try Json
  unfolding results_items host_json tool_json summary_json
  report_json rep = elim (marshal_time rep.generated) [
    | err e ↦ err e
    | ok generated ↦ elim (results_items rep.results) [
      | err e ↦ err e
      | ok items ↦ ok (
          object (
            text_field "generated_at" generated (
              field (codes "host") (host_json rep.host) (
                field (codes "tool") (tool_json rep.tool) (
                  text_field "schema_version" rep.schema_version (
                    field (codes "results") (array items)
                      (field (codes "summary") (summary_json rep.summary) end)))))))
    ]
  ]

  -- The bytes for the writer, by the environment variable COPYFAIL_JSON_COMPACT.
  unfoldable pub document : Text → Report → Try Text
  unfolding report_json marshal indent
  document compact rep = elim (report_json rep) [
    | err e ↦ err e
    | ok v ↦ ok ((if equal compact (codes "1") then marshal v else indent 0 v) ++ codes "\n")
  ]

  -- RenderJSON
  unfoldable pub render_json {ℓ} : {W : Type ℓ} → Text → Writer W → W → Report → Outcome ℕ × W
  unfolding document flush_all
  render_json compact write w rep = elim (document compact rep) [
    | err e ↦ (
      record { value = 0; err = some (wrap_both encode_failure (lit "render: encode failed: ") e) },
      w,
    )
    | ok out ↦ flush_all write w out
  ]
