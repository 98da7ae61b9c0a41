-- ===== src/Cli/Exit.antt =====
-- cmd/copyfail-validate/exit.go, and signalExitCode of main.go: the exit codes.
use copyfail_validation.Base.{
  ℕ, List, [], ◌∷◌, Bool, true, false, ◌&&◌, Option, none, some, ltb, if◌then◌else◌, ◌≡◌, arith,
  refl, Bool-cases, inl, inr,
}
use copyfail_validation.Errors.{Error, canceled, is}
use copyfail_validation.Report.{Result, Report, is_required}
use copyfail_validation.Report.Tally.{new_summary, new_summary-Counts, is_fail, is_error, count}

abbrev pub exit_ok : ℕ
exit_ok = 0

abbrev pub exit_mitigation_gap : ℕ
exit_mitigation_gap = 2

abbrev pub exit_tool_error : ℕ
exit_tool_error = 3

abbrev pub exit_check_error : ℕ
exit_check_error = 4

abbrev pub exit_usage : ℕ
exit_usage = 64

abbrev pub exit_interrupted : ℕ
exit_interrupted = 130

abbrev pub exit_terminated : ℕ
exit_terminated = 143

unfoldable pub compute_exit : Report → ℕ
compute_exit rep =
    if ltb 0 rep.summary.required.fail
    then exit_mitigation_gap
    else if ltb 0 rep.summary.required.error
    then exit_check_error
    else exit_ok

-- What ctx.Err returns, and the code for it; 0 stands for no signal.
unfoldable pub signal_exit_code : Option Error → ℕ
unfolding is
signal_exit_code none = 0
signal_exit_code (some e) = if is e canceled then exit_terminated else 0

-- Some result of the list passes the test.
abbrev pub any : (Result → Bool) → List Result → Bool
any p [] = false
any p (r ∷ rs) = if p r then true else any p rs

abbrev pub is_gap : Result → Bool
is_gap r = is_required r.severity && is_fail r.state

abbrev pub is_unknown : Result → Bool
is_unknown r = is_required r.severity && is_error r.state

any-count : (p : Result → Bool) (rs : List Result) → ltb 0 (count p rs) ≡ any p rs
any-count p [] = refl
any-count p (r ∷ rs) = elim (Bool-cases (p r)) [
  | inl t ↦ ground (arith, t)
  | inr f ↦ rw f (any-count p rs)
]

-- For a report whose summary is that of its results, the exit code is 2 if a required result is a
-- failure; otherwise 4 if a required result is an error; and 0 in every other case. Results that are
-- not required, and required ones that pass or are skipped, do not count.
pub compute_exit-results :
    (rep : Report)
    → rep.summary ≡ new_summary rep.results
    → compute_exit rep ≡ (
        if any is_gap rep.results
        then exit_mitigation_gap
        else if any is_unknown rep.results
        then exit_check_error
        else exit_ok)
unfolding compute_exit
compute_exit-results rep h =
    let counts = new_summary-Counts rep.results in
    rw
      (
        h,
        counts.required_fail,
        counts.required_error,
        any-count is_gap rep.results,
        any-count is_unknown rep.results,
      )
      refl
