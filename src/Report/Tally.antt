-- ===== src/Report/Tally.antt =====
-- NewSummary of report/report.go: the tally that the exit code is computed from.
use copyfail_validation.Base.{
  ℕ, ◌+◌, List, [], ◌∷◌, Bool, true, false, ◌&&◌, ◌≡◌, arith, length, keep, if◌then◌else◌,
}
use copyfail_validation.Report.{
  State, pass, fail, skip, error, is_required, Result, Bucket, Summary,
}

-- The switch on the state, and the one on the state of a required result.
unfoldable pub count_state : State → Summary → Summary
count_state pass s = record s { pass = s.pass + 1 }
count_state fail s = record s { fail = s.fail + 1 }
count_state skip s = record s { skip = s.skip + 1 }
count_state error s = record s { error = s.error + 1 }
count_state (State.other t) s = s

unfoldable pub count_required : State → Bucket → Bucket
count_required pass b = record b { pass = b.pass + 1 }
count_required fail b = record b { fail = b.fail + 1 }
count_required error b = record b { error = b.error + 1 }
count_required _ b = b

-- The body of the loop.
unfoldable pub tally : Summary → Result → Summary
unfolding count_state count_required is_required
tally s r =
    let t = count_state r.state s in
    if is_required r.severity then record t { required = count_required r.state t.required } else t

unfoldable pub tally_all : Summary → List Result → Summary
unfolding tally
tally_all s [] = s
tally_all s (r ∷ rs) = tally_all (tally s r) rs

abbrev start : ℕ → Summary
start n = record {
  total = n;
  pass = 0;
  fail = 0;
  skip = 0;
  error = 0;
  required = record { pass = 0; fail = 0; error = 0 };
}

unfoldable pub new_summary : List Result → Summary
unfolding tally_all
new_summary rs = tally_all (start (length rs)) rs

-- The results that pass a test, counted.
abbrev pub count : (Result → Bool) → List Result → ℕ
count p rs = length (keep p rs)

abbrev pub is_pass : State → Bool
is_pass pass = true
is_pass _ = false

abbrev pub is_fail : State → Bool
is_fail fail = true
is_fail _ = false

abbrev pub is_skip : State → Bool
is_skip skip = true
is_skip _ = false

abbrev pub is_error : State → Bool
is_error error = true
is_error _ = false

-- Each field is the number of results of its kind.
pub record Counts (rs : List Result) (s : Summary) : Type 0 where
  pub total : s.total ≡ length rs
  pub pass : s.pass ≡ count (λ r. is_pass r.state) rs
  pub fail : s.fail ≡ count (λ r. is_fail r.state) rs
  pub skip : s.skip ≡ count (λ r. is_skip r.state) rs
  pub error : s.error ≡ count (λ r. is_error r.state) rs
  pub required_pass : s.required.pass ≡ count (λ r. is_required r.severity && is_pass r.state) rs
  pub required_fail : s.required.fail ≡ count (λ r. is_required r.severity && is_fail r.state) rs
  pub required_error : s.required.error ≡ count (λ r. is_required r.severity && is_error r.state) rs

-- What the loop adds to the fields of `s`.
record Adds (s : Summary) (rs : List Result) (t : Summary) : Type 0 where
  total : t.total ≡ s.total
  pass : t.pass ≡ s.pass + count (λ r. is_pass r.state) rs
  fail : t.fail ≡ s.fail + count (λ r. is_fail r.state) rs
  skip : t.skip ≡ s.skip + count (λ r. is_skip r.state) rs
  error : t.error ≡ s.error + count (λ r. is_error r.state) rs
  required_pass :
      t.required.pass ≡ s.required.pass + count (λ r. is_required r.severity && is_pass r.state) rs
  required_fail :
      t.required.fail ≡ s.required.fail + count (λ r. is_required r.severity && is_fail r.state) rs
  required_error :
      t.required.error
      ≡ s.required.error + count (λ r. is_required r.severity && is_error r.state) rs

tally_all-Adds : (s : Summary) (rs : List Result) → Adds s rs (tally_all s rs)
unfolding tally_all
tally_all-Adds s [] = ground arith
tally_all-Adds s (r ∷ rs) = ground (arith, tally_all-Adds (tally s r) rs)

-- Every field of the summary is the number of results of its kind: all results, those in each of
-- the four states, and the required ones that passed, failed or ended in an error.
pub new_summary-Counts : (rs : List Result) → Counts rs (new_summary rs)
unfolding new_summary
new_summary-Counts rs = omega (arith, tally_all-Adds (start (length rs)) rs)
