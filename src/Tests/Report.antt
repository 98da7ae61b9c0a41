-- ===== src/Tests/Report.antt =====
-- Runs of the tally, the formats and the registry of report.
use copyfail_validation.Base.{ℕ, [], ◌∷◌, none}
use copyfail_validation.Text.{codes}
use copyfail_validation.Report.{fail, skip, required, advisory, Result, zero_result}
use copyfail_validation.Report.Tally.{Counts, new_summary, new_summary-Counts}
use copyfail_validation.Report.Registry.{Registry, Renderer}

abbrev gap : Result
gap = record zero_result { state = fail; severity = required }

abbrev hint : Result
hint = record zero_result { state = skip; severity = advisory }

-- A renderer that counts the results and keeps the count.
abbrev counter : Renderer ℕ
counter w rep = (record { value = rep.summary.total; err = none }, rep.summary.total)

abbrev registry : Registry ℕ
registry = (codes "json", counter) ∷ []

new_summary-Counts_example : Counts (gap ∷ hint ∷ []) (new_summary (gap ∷ hint ∷ []))
new_summary-Counts_example = new_summary-Counts (gap ∷ hint ∷ [])
