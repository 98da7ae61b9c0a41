-- ===== src/Render/Document/Whole.antt =====
-- internal/render/json.go writes one document per line where it is asked to.
use copyfail_validation.Base.{List, [], ◌∷◌, ◌++◌, Bool, true, false, ◌&&◌, ◌≡◌, refl, inl, inr}
use copyfail_validation.Text.{Text, codes, equal}
use copyfail_validation.Errors.{Try, ok, err, Try-cases}
use copyfail_validation.Json.{Fields, end, marshal}
use copyfail_validation.Report.{
  Time, Scalar, text, flag, count, Value, scalar, Evidence, Result, Bucket, Summary, Report,
}
use copyfail_validation.Render.{message_text}
use copyfail_validation.Render.Document.{
  report_json, document, results_items, result_fields, values_json, value_json, scalars_json,
  scalar_json, evidence_field, optional_field, host_json, tool_json, bucket_json, summary_json,
  number_field, sorted_entries,
}
use copyfail_validation.Render.Document.Line.{
  IsOneLine, HasPlainNumbers, ItemsPlain, FieldsPlain, marshal-IsOneLine, format_ℕ-IsOneLine,
}

-- What holds of the value, where there is one.
abbrev pub OnSuccess : {A : Type 0} → (A → Type 0) → Try A → Type 0
OnSuccess P (ok a) = P a
OnSuccess P (err e) = Unit

abbrev pub succeeds : {A : Type 0} → Try A → Bool
succeeds (ok a) = true
succeeds (err e) = false

-- Every time at which a result began is encoded.
abbrev pub all_started : (Time → Try Text) → List Result → Bool
all_started marshal_time [] = true
all_started marshal_time (r ∷ rs) =
    succeeds (marshal_time r.started_at) && all_started marshal_time rs

-- A text without a line break, and the line break that ends it.
abbrev pub IsDocumentLine : Text → Type 0
IsDocumentLine t = (line : Text) × (t ≡ line ++ b'\n' ∷ []) × IsOneLine line

module _ (quote : Text → Text) (marshal_time : Time → Try Text) where
  scalar_plain : (s : Scalar) → HasPlainNumbers (scalar_json quote marshal_time s)
  unfolding scalar_json HasPlainNumbers
  scalar_plain (text m) = tt
  scalar_plain (flag b) = tt
  scalar_plain (count n) = format_ℕ-IsOneLine n

  scalars_plain : (es : List (Text × Scalar)) → FieldsPlain (scalars_json quote marshal_time es)
  unfolding scalars_json HasPlainNumbers
  scalars_plain [] = tt
  scalars_plain ((k, s) ∷ es) = (scalar_plain s, scalars_plain es)

  value_plain : (v : Value) → HasPlainNumbers (value_json quote marshal_time v)
  unfolding value_json HasPlainNumbers
  value_plain (scalar s) = scalar_plain s
  value_plain (Value.object es) = scalars_plain (sorted_entries es)

  values_plain : (es : List (Text × Value)) → FieldsPlain (values_json quote marshal_time es)
  unfolding values_json HasPlainNumbers
  values_plain [] = tt
  values_plain ((k, v) ∷ es) = (value_plain v, values_plain es)

  optional_plain :
      (k s : Text) (rest : Fields) → FieldsPlain rest → FieldsPlain (optional_field k s rest)
  unfolding HasPlainNumbers
  optional_plain k [] rest h = h
  optional_plain k (c ∷ s) rest h = (tt, h)

  evidence_plain :
      (es : Evidence) (rest : Fields)
      → FieldsPlain rest
      → FieldsPlain (evidence_field quote marshal_time es rest)
  unfolding HasPlainNumbers
  evidence_plain [] rest h = h
  evidence_plain (e ∷ es) rest h = (values_plain (sorted_entries (e ∷ es)), h)

  result_plain : (t : Text) (r : Result) → FieldsPlain (result_fields quote marshal_time t r)
  unfolding result_fields HasPlainNumbers
  result_plain t r =
      let last = number_field (codes "duration_ms") r.duration_ms end in
      let failure = optional_field (codes "error") (message_text quote r.err) last in
      let ends : FieldsPlain failure =
        optional_plain (codes "error") (message_text quote r.err) last
          (format_ℕ-IsOneLine r.duration_ms, tt) in
      (
        tt,
        evidence_plain r.evidence _ (
          tt,
          (
            tt,
            (tt, (tt, optional_plain (codes "detail") (message_text quote r.detail) failure ends)),
          ),
        ),
      )

  items_plain : (rs : List Result) → OnSuccess ItemsPlain (results_items quote marshal_time rs)
  unfolding results_items HasPlainNumbers
  items_plain [] = tt
  items_plain (r ∷ rs) =
      let rest = items_plain rs in
      elim (Try-cases (marshal_time r.started_at)) [
        | inr (x, e) ↦ rw (e, OnSuccess) tt
        | inl (started, e) ↦
            rw (e, OnSuccess)
              (elim (Try-cases (results_items quote marshal_time rs)) [
                | inr (x, f) ↦ rw (f, OnSuccess) tt
                | inl (items, f) ↦ rw (f, OnSuccess) (result_plain started r, rw f at rest)
              ])
      ]

  bucket_plain : (b : Bucket) → HasPlainNumbers (bucket_json quote marshal_time b)
  unfolding bucket_json HasPlainNumbers
  bucket_plain b =
      (format_ℕ-IsOneLine b.pass, (format_ℕ-IsOneLine b.fail, (format_ℕ-IsOneLine b.error, tt)))

  summary_plain : (s : Summary) → HasPlainNumbers (summary_json quote marshal_time s)
  unfolding summary_json HasPlainNumbers
  summary_plain s = (
    format_ℕ-IsOneLine s.total,
    (
      format_ℕ-IsOneLine s.pass,
      (
        format_ℕ-IsOneLine s.fail,
        (format_ℕ-IsOneLine s.skip, (format_ℕ-IsOneLine s.error, (bucket_plain s.required, tt))),
      ),
    ),
  )

  report_plain : (rep : Report) → OnSuccess HasPlainNumbers (report_json quote marshal_time rep)
  unfolding report_json host_json tool_json HasPlainNumbers
  report_plain rep =
      let results = items_plain rep.results in
      elim (Try-cases (marshal_time rep.generated)) [
        | inr (x, e) ↦ rw (e, OnSuccess) tt
        | inl (generated, e) ↦
            rw (e, OnSuccess)
              (elim (Try-cases (results_items quote marshal_time rep.results)) [
                | inr (x, f) ↦ rw (f, OnSuccess) tt
                | inl (items, f) ↦
                    rw (f, OnSuccess)
                      (
                        tt,
                        (
                          (tt, (tt, (tt, (tt, (tt, tt))))),
                          (
                            (tt, (tt, (tt, (tt, tt)))),
                            (tt, (rw f at results, (summary_plain rep.summary, tt))),
                          ),
                        ),
                      )
              ])
      ]

  items_succeed :
      (rs : List Result)
      → succeeds (results_items quote marshal_time rs) ≡ all_started marshal_time rs
  unfolding results_items
  items_succeed [] = refl
  items_succeed (r ∷ rs) =
      let rest = items_succeed rs in
      elim (Try-cases (marshal_time r.started_at)) [
        | inr (x, e) ↦ rw (e, succeeds) refl
        | inl (started, e) ↦ elim (Try-cases (results_items quote marshal_time rs)) [
          | inr (x, f) ↦ rw (e, succeeds, f) (rw f at rest)
          | inl (items, f) ↦ rw (e, succeeds, f) (rw f at rest)
        ]
      ]

  document-succeeds :
      (compact : Text) (rep : Report)
      → succeeds (document quote marshal_time compact rep)
        ≡ (succeeds (marshal_time rep.generated) && all_started marshal_time rep.results)
  unfolding document report_json
  document-succeeds compact rep =
      let rest = items_succeed rep.results in
      elim (Try-cases (marshal_time rep.generated)) [
        | inr (x, e) ↦ rw (e, succeeds) refl
        | inl (generated, e) ↦ elim (Try-cases (results_items quote marshal_time rep.results)) [
          | inr (x, f) ↦ rw (e, succeeds, f) (rw f at rest)
          | inl (items, f) ↦ rw (e, succeeds, f) (rw f at rest)
        ]
      ]

  document-OneLine :
      (rep : Report) → OnSuccess IsDocumentLine (document quote marshal_time (codes "1") rep)
  unfolding document equal
  document-OneLine rep =
      let plain = report_plain rep in
      elim (Try-cases (report_json quote marshal_time rep)) [
        | inr (x, e) ↦ rw (e, OnSuccess) tt
        | inl (v, e) ↦ rw (e, OnSuccess) (marshal v, refl, marshal-IsOneLine v (rw e at plain))
      ]

  -- The report is encoded, in the compact form or the indented one, exactly if its time and the times
  -- at which its results began are; with COPYFAIL_JSON_COMPACT set to 1 what is encoded is one line, a
  -- text without a line break and the line break that ends it.
  pub document_lem :
      (rep : Report)
      → ((compact : Text)
          → succeeds (document quote marshal_time compact rep)
            ≡ (succeeds (marshal_time rep.generated) && all_started marshal_time rep.results))
        × OnSuccess IsDocumentLine (document quote marshal_time (codes "1") rep)
  document_lem rep = (λ compact. document-succeeds compact rep, document-OneLine rep)
