-- ===== src/Render/Human.antt =====
-- internal/render/human.go: the report for a terminal.
pub mod Colors
use copyfail_validation.Base.{
  ℕ, String, List, [], ◌∷◌, ◌++◌, Bool, true, false, ◌&&◌, not, Option, none, some, ◌==◌, is_empty,
  if◌then◌else◌,
}
use copyfail_validation.Text.{Text, codes}
use copyfail_validation.Text.Decimal.{format_ℕ}
use copyfail_validation.Errors.{Error, Try, ok, err, Outcome, Message}
use copyfail_validation.Report.{
  State, pass, fail, skip, error, severity_text, Result, Summary, Report,
}
use copyfail_validation.Render.{Writer, message_text, flush_all}

abbrev pub escape : String → Text
escape s = 0x1b ∷ codes s

abbrev pub ansi_reset : Text
ansi_reset = escape "[0m"

abbrev pub ansi_bold : Text
ansi_bold = escape "[1m"

abbrev pub ansi_green : Text
ansi_green = escape "[32m"

abbrev pub ansi_red : Text
ansi_red = escape "[31m"

abbrev pub ansi_yellow : Text
ansi_yellow = escape "[33m"

abbrev pub ansi_cyan : Text
ansi_cyan = escape "[36m"

unfoldable pub status_label : State → Text
status_label State.pass = codes "OK   "
status_label State.fail = codes "FAIL "
status_label State.skip = codes "SKIP "
status_label State.error = codes "ERROR"
status_label (State.other t) = codes "?    "

abbrev pub color_of : State → Text
color_of State.pass = ansi_green
color_of State.fail = ansi_red
color_of State.skip = ansi_yellow
color_of State.error = ansi_red ++ ansi_bold
color_of (State.other t) = ansi_cyan

unfoldable pub status_color : State → Bool → Text
status_color s false = []
status_color s true = color_of s

-- shouldColor, for the value of NO_COLOR and the writer: none if it is no *os.File, and otherwise
-- whether Stat calls it a character device.
unfoldable pub should_color : Text → Option (Try Bool) → Bool
should_color (c ∷ s) file = false
should_color [] none = false
should_color [] (some (err e)) = false
should_color [] (some (ok device)) = device

-- What ends a color, where there is one.
abbrev pub reset_after : Text → Text
reset_after [] = []
reset_after (c ∷ color) = ansi_reset

unfoldable pub with_detail : Text → Text
with_detail [] = []
with_detail (c ∷ s) = codes ": " ++ (c ∷ s)

-- Whether the footer says PASS.
unfoldable pub passes : Summary → Bool
passes s = s.required.fail == 0 && s.required.error == 0

abbrev pub verdict : Bool → Text
verdict true = codes "PASS"
verdict false = codes "FAIL"

unfoldable pub verdict_color : Bool → Bool → Text
verdict_color b false = []
verdict_color true true = ansi_green ++ ansi_bold
verdict_color false true = ansi_red ++ ansi_bold

-- Numbers with the literals before them, and a last literal.
unfoldable pub write_counts : List (String × ℕ) → Text → Text
unfolding format_ℕ
write_counts [] end_text = end_text
write_counts ((label, n) ∷ counts) end_text =
    codes label ++ (format_ℕ n ++ write_counts counts end_text)

abbrev pub counts_of : Summary → List (String × ℕ)
counts_of s =
    ("total: ", s.total)
    ∷ (" pass=", s.pass)
    ∷ (" fail=", s.fail)
    ∷ (" skip=", s.skip)
    ∷ (" error=", s.error)
    ∷ (" (required: pass=", s.required.pass)
    ∷ (" fail=", s.required.fail)
    ∷ (" error=", s.required.error)
    ∷ []

unfoldable pub tally_line : Summary → Text
unfolding write_counts
tally_line s = write_counts (counts_of s) (codes ")\n")

unfoldable pub footer : Bool → Summary → Text
unfolding passes verdict_color tally_line
footer use_color s =
    let color = verdict_color (passes s) use_color in
    codes "validator result: "
    ++ (color ++ (verdict (passes s) ++ (reset_after color ++ (codes "\n" ++ tally_line s))))

module _ (quote : Text → Text) where
  -- The text behind the severity: the error of a check that ended in one, or else the detail.
  unfoldable pub detail_text : Result → Text
  unfolding message_text
  detail_text r = elim r.state [
    | State.error ↦
        if is_empty (message_text quote r.err)
        then message_text quote r.detail
        else message_text quote r.err
    | _ ↦ message_text quote r.detail
  ]

  unfoldable pub result_line : Bool → Result → Text
  unfolding status_color status_label with_detail detail_text severity_text
  result_line use_color r =
      let color = status_color r.state use_color in
      color
      ++ (status_label r.state
          ++ (reset_after color
              ++ (codes "  "
                  ++ (r.check_id
                      ++ (codes " ("
                          ++ (severity_text r.severity
                              ++ (codes ")" ++ (with_detail (detail_text r) ++ codes "\n"))))))))

  unfoldable pub result_lines : Bool → List Result → Text
  unfolding result_line
  result_lines use_color [] = []
  result_lines use_color (r ∷ rs) = result_line use_color r ++ result_lines use_color rs

  unfoldable pub human_text : Bool → Report → Text
  unfolding result_lines footer
  human_text use_color rep = result_lines use_color rep.results ++ footer use_color rep.summary

  -- RenderHuman, for the value of NO_COLOR and what the writer is.
  unfoldable pub render_human {ℓ} :
      {W : Type ℓ} → Writer W → Text → Option (Try Bool) → W → Report → Outcome ℕ × W
  unfolding human_text flush_all should_color
  render_human write no_color file w rep =
      flush_all write w (human_text (should_color no_color file) rep)
