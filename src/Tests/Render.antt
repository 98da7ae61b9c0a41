-- ===== src/Tests/Render.antt =====
-- Runs of the renderers of internal/render.
use mathlib.Core.Option
use mathlib.Core.Logic.Or
use mathlib.Core.HLevel.{⊥_prop}
use mathlib.Core.List.{Permᴰ, Pairwise, mem-cons, not-mem-nil}
use copyfail_validation.Base.{
  [], ◌∷◌, ◌++◌, true, false, ◌&&◌, ◌==◌, none, some, ◌≡◌, ◌≢◌, ◌↔◌, refl, ap, ◌∙◌, arith,
}
use copyfail_validation.Base.Sort.{IsSorted}
use copyfail_validation.Text.{Text, codes, equal}
use copyfail_validation.Text.Order.{encode, encode_code}
use copyfail_validation.Text.Laws.{Free, equal_iff}
use copyfail_validation.Text.Words.{is_free-Free}
use copyfail_validation.Text.Scan.{byte_size}
use copyfail_validation.Text.Date.{rfc3339}
use copyfail_validation.Errors.{ok, Sentinel, short_write, render_failure, lit}
use copyfail_validation.Exec.Safety.{Fails}
use copyfail_validation.Report.{pass, fail, required, Result, Report, zero_result, severity_text}
use copyfail_validation.Render.{Writer, IsShort, flush_all, flush_all_lem, message_text}
use copyfail_validation.Render.Human.{human_text, result_line, detail_text}
use copyfail_validation.Render.Human.Colors.{strip_colors, IsPlain, strip_colors-human_text}
use copyfail_validation.Render.Values.{
  prom_label_value, format_seconds, parse_label, parse_label-prom_label_value,
}
use copyfail_validation.Render.Prometheus.{prometheus_text}
use copyfail_validation.Render.Prometheus.Order
use copyfail_validation.Render.Prometheus.Order.{prometheus_text-perm}
use copyfail_validation.Render.Prometheus.Atomic.{
  Disk, temp_path, final_path, write_textfile_atomic,
}
use copyfail_validation.Render.Prometheus.Atomic.History.{Dir, IsAtomic}
use copyfail_validation.Render.Prometheus.Atomic.Whole.{write_textfile_atomic-IsAtomic}
use copyfail_validation.Render.Sarif.{rule_of, build_sarif_rules}
use copyfail_validation.Render.Sarif.Firsts.{first_with}
use copyfail_validation.Render.Sarif.Rules.{rule_with, IdsDiffer, rule_below, build_sarif_rules_lem}
use copyfail_validation.Render.Document.{document}
use copyfail_validation.Render.Document.Whole.{
  OnSuccess, succeeds, all_started, IsDocumentLine, document_lem,
}
use copyfail_validation.Report.Format.{json}
use copyfail_validation.Report.Registry.{write_to}
use copyfail_validation.Render.Sarif.{build_sarif_invocation}
use copyfail_validation.Render.Init.{init, json_renderer, write_to-init}
use copyfail_validation.Render.Verdicts.{line_before_last, line_before_last-compute_exit}
use copyfail_validation.Cli.Exit.{compute_exit, exit_ok}
use copyfail_validation.Tests.Data.{report_of}

abbrev quote : Text → Text
quote s = b'"' ∷ (s ++ b'"' ∷ [])

abbrev gap : Result
gap = record zero_result {
  check_id = codes "copyfail.module_not_loaded";
  state = fail;
  severity = required;
  detail = lit "algif_aead is loaded";
  duration_ms = 50;
}

abbrev fine : Result
fine = record zero_result {
  check_id = codes "copyfail.conf_present";
  state = pass;
  severity = required;
}

abbrev rep : Report
rep = report_of (gap ∷ fine ∷ [])

-- A writer that keeps what it takes, and takes three bytes at most.
abbrev short_writer : Writer Text
short_writer w b = (record { value = 3; err = none }, w ++ b)

seconds : format_seconds 50 ≡ codes "0.05"
unfolding format_seconds
seconds = refl

seconds_long : format_seconds 12500 ≡ codes "12.5"
unfolding format_seconds
seconds_long = refl

label : prom_label_value (codes "a\"b\\\n") ≡ codes "\"a\\\"b\\\\\\n\""
unfolding prom_label_value
label = refl

line_in_color :
    result_line quote true gap
    ≡ 0x1b ∷ codes "[31mFAIL "
      ++ 0x1b ∷ codes "[0m  copyfail.module_not_loaded (required): algif_aead is loaded\n"
unfolding result_line
line_in_color = refl

flush_all_lem_example :
    ((flush_all short_writer [] (codes "text")).1 ≡ (short_writer [] (codes "text")).1)
    × ((flush_all short_writer [] (codes "text")).0.value ≡ 3)
    × (((flush_all short_writer [] (codes "text")).0.err ≡ none)
        ↔ ((short_writer [] (codes "text")).0.err ≡ none)
          × ((short_writer [] (codes "text")).0.value ≡ byte_size (codes "text")))
    × ((s : Sentinel)
        → Fails s (short_writer [] (codes "text")).0.err
        → Fails s (flush_all short_writer [] (codes "text")).0.err)
    × (IsShort (byte_size (codes "text")) (short_writer [] (codes "text")).0
        → Fails short_write (flush_all short_writer [] (codes "text")).0.err
          × (¬ Fails render_failure (flush_all short_writer [] (codes "text")).0.err))
flush_all_lem_example = flush_all_lem short_writer [] (codes "text") refl

gap-IsPlain : IsPlain quote gap
unfolding severity_text message_text detail_text
gap-IsPlain = record {
  id_plain = is_free-Free (λ c. c == 0x1b) gap.check_id refl;
  severity_plain = is_free-Free (λ c. c == 0x1b) (codes "required") refl;
  detail_plain = is_free-Free (λ c. c == 0x1b) (codes "algif_aead is loaded") refl;
}

fine-IsPlain : IsPlain quote fine
unfolding severity_text message_text detail_text
fine-IsPlain = record {
  id_plain = is_free-Free (λ c. c == 0x1b) fine.check_id refl;
  severity_plain = is_free-Free (λ c. c == 0x1b) (codes "required") refl;
  detail_plain = tt;
}

strip_colors-human_text_example :
    strip_colors (human_text quote true rep) ≡ human_text quote false rep
strip_colors-human_text_example =
    strip_colors-human_text quote rep (gap-IsPlain, (fine-IsPlain, tt))

parse_label-prom_label_value_example :
    (parse_label (prom_label_value (codes "a\"b") ++ codes "}") ≡ some (codes "a\"b", codes "}"))
    × Free (λ d. d == b'\n') (prom_label_value (codes "a\"b"))
parse_label-prom_label_value_example =
    parse_label-prom_label_value (codes "a\"b") (codes "}")
      (omega arith, (omega arith, (omega arith, tt)))

ids_apart : encode gap.check_id ≢ encode fine.check_id
unfolding encode encode_code equal
ids_apart e =
    let same : false ≡ true = (equal_iff (encode gap.check_id) (encode fine.check_id)).1 e in
    absurd (cc same)

ids_differ : Order.IdsDiffer rep.results
ids_differ =
    Pairwise.cons
      (λ b m h.
        Or.elim ⊥_prop (mem-cons.0 m) (λ e. ids_apart (h ∙ ap (λ r. encode r.check_id) e))
          not-mem-nil)
      (Pairwise.cons (λ b m h. not-mem-nil m) Pairwise.nil)

prometheus_text-perm_example :
    prometheus_text (codes "go1.25") rep
    ≡ prometheus_text (codes "go1.25") (record rep { results = fine ∷ gap ∷ [] })
prometheus_text-perm_example =
    prometheus_text-perm (codes "go1.25") rep (fine ∷ gap ∷ []) (Permᴰ.swap refl refl) ids_differ

build_sarif_rules_lem_example :
    ((id : Text)
      → rule_with id (build_sarif_rules (gap ∷ fine ∷ gap ∷ []))
        ≡ Option.map rule_of (first_with id (gap ∷ fine ∷ gap ∷ [])))
    × IdsDiffer (build_sarif_rules (gap ∷ fine ∷ gap ∷ []))
    × IsSorted rule_below (build_sarif_rules (gap ∷ fine ∷ gap ∷ []))
build_sarif_rules_lem_example = build_sarif_rules_lem (gap ∷ fine ∷ gap ∷ [])

document_lem_example :
    ((compact : Text)
      → succeeds (document quote (λ t. ok (rfc3339 t)) compact rep) ≡ (
          succeeds {A = Text} (ok (rfc3339 rep.generated))
          && all_started (λ t. ok (rfc3339 t)) rep.results))
    × OnSuccess IsDocumentLine (document quote (λ t. ok (rfc3339 t)) (codes "1") rep)
document_lem_example = document_lem quote (λ t. ok (rfc3339 t)) rep

-- The key of the temporary file and the final one differ, and every step succeeds.
abbrev disk : Disk
disk = record {
  path_join = λ dir name. dir ++ b'/' ∷ name;
  go_version = codes "go1.25";
  suffix = ok (codes "00ff");
  opened = none;
  written = λ text. record { value = byte_size text; err = none };
  stored = λ text. text;
  synced = none;
  closed = none;
  removed = none;
  renamed = none;
}

abbrev nothing_there : Dir
nothing_there p = none

write_textfile_atomic-IsAtomic_example :
    IsAtomic disk
      (temp_path disk (codes "/var") (codes "copyfail") (codes "00ff"))
      (final_path disk (codes "/var") (codes "copyfail"))
      (prometheus_text disk.go_version rep)
      nothing_there
      (write_textfile_atomic disk (codes "/var") (codes "copyfail") rep).0
      (write_textfile_atomic disk (codes "/var") (codes "copyfail") rep).1
write_textfile_atomic-IsAtomic_example =
    write_textfile_atomic-IsAtomic disk (codes "/var") (codes "copyfail") (codes "00ff") rep
      nothing_there refl (λ e. cc) (λ h. refl) (λ h k. refl)

abbrev keep_all : Writer Text
keep_all w b = (record { value = byte_size b; err = none }, w ++ b)

write_to-init_example :
    write_to
      (init quote (λ t. ok (rfc3339 t)) keep_all (λ w. none) [] (codes "1") (codes "go1.25") [])
      rep
      []
      json
    ≡ json_renderer quote
        (λ t. ok (rfc3339 t))
        keep_all
        (λ w. none)
        []
        (codes "1")
        (codes "go1.25")
        []
        rep
write_to-init_example =
    write_to-init quote (λ t. ok (rfc3339 t)) keep_all (λ w. none) [] (codes "1") (codes "go1.25")
      [] rep [] json

line_before_last-compute_exit_example :
    ((line_before_last (human_text quote false rep) ≡ codes "validator result: PASS")
      ↔ (compute_exit rep ≡ exit_ok))
    × (((build_sarif_invocation rep).execution_successful ≡ true) ↔ (compute_exit rep ≡ exit_ok))
line_before_last-compute_exit_example = line_before_last-compute_exit quote rep
