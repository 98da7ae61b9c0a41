-- ===== src/Cli/Main.antt =====
-- cmd/copyfail-validate/main.go: run and main. The signals, the environment, the output, the facts
-- about the host and the run of the checks are parameters.
use copyfail_validation.Base.{
  ℕ, List, false, ◌&&◌, Option, none, some, if◌then◌else◌, ◌==◌, ◌≡◌, ◌≢◌, ◌⊎◌, inl, inr, arith,
  refl, ap, is_some, Bool-cases, Option-cases,
}
use copyfail_validation.Text.{Text}
use copyfail_validation.Errors.{Error, Outcome, Try, ok, err}
use copyfail_validation.Report.{Result, Report, HostInfo, ToolInfo, Time, schema_version_current}
use copyfail_validation.Report.Tally.{new_summary}
use copyfail_validation.Report.Registry.{Registry, write_to}
use copyfail_validation.Check.Execute.{Check}
use copyfail_validation.Cli.Exit.{
  exit_ok, exit_tool_error, exit_usage, exit_mitigation_gap, exit_check_error, exit_terminated,
  exit_interrupted, compute_exit, signal_exit_code, any, is_gap, is_unknown, compute_exit-results,
}
use copyfail_validation.Cli.Filter.{filter_checks}
use copyfail_validation.Cli.Flags.{Options, is_help_or_version_exit}

-- What a run meets: the error of os.Setenv, the host as hostinfo.Gather returns it, the build, the
-- time, the bundle of checks for a module and a path, the results of Runner.Run, what ctx.Err
-- returns at the end, the output that is opened, and the registered renderers.
pub record Machine (W : Type 0) : Type 0 where
  pub set_no_color : Option Error
  pub host : HostInfo
  pub tool : ToolInfo
  pub now : Time
  pub checks : Text → Text → List Check
  pub run_checks : Options → List Check → List Result
  pub cancelled : Option Error
  pub open_output : Text → Try W
  pub renderers : Registry W

-- The exit code, and the output as it was left, if one was opened.
abbrev pub Ended : Type 0 → Type 0
Ended W = ℕ × Option W

unfoldable pub report_of : {W : Type 0} → Machine W → List Result → Report
report_of m rs = record {
  generated = m.now;
  host = m.host;
  tool = m.tool;
  schema_version = schema_version_current;
  results = rs;
  summary = new_summary rs;
}

-- The exit code once the report is written: a signal outranks the summary.
unfoldable pub final_exit : Option Error → Report → ℕ
unfolding signal_exit_code compute_exit
final_exit cancelled rep =
    if signal_exit_code cancelled == 0 then compute_exit rep else signal_exit_code cancelled

unfoldable pub after_write : {W : Type 0} → Option Error → Report → Outcome ℕ × W → Ended W
unfolding final_exit
after_write cancelled rep (o, w) =
    ((if is_some o.err then exit_tool_error else final_exit cancelled rep), some w)

unfoldable pub after_open : {W : Type 0} → Machine W → Options → Report → Try W → Ended W
unfolding after_write write_to
after_open m opts rep (err e) = (exit_tool_error, none)
after_open m opts rep (ok w) = after_write m.cancelled rep (write_to m.renderers rep w opts.format)

unfoldable pub after_filter : {W : Type 0} → Machine W → Options → Try (List Check) → Ended W
unfolding after_open report_of
after_filter m opts (err e) = (exit_usage, none)
after_filter m opts (ok checks) =
    after_open m opts (report_of m (m.run_checks opts checks)) (m.open_output opts.output)

unfoldable pub run : {W : Type 0} → Machine W → Options → Ended W
unfolding after_filter filter_checks
run m opts =
    let filtered = filter_checks (m.checks opts.module_name opts.conf) opts.only opts.skip in
    let rest = after_filter m opts filtered in
    if opts.no_color && is_some m.set_no_color then (exit_tool_error, none) else rest

-- main, on what parseFlags returns.
unfoldable pub main : {W : Type 0} → Machine W → Try Options → Ended W
unfolding run
main m (err e) = ((if is_help_or_version_exit (some e) then exit_ok else exit_usage), none)
main m (ok opts) = run m opts

final_exit-ok :
    (c : Option Error) (rep : Report)
    → final_exit c rep ≡ exit_ok
    → (signal_exit_code c ≡ 0) × (compute_exit rep ≡ exit_ok)
unfolding final_exit
final_exit-ok c rep h = ground (arith, h)

after_write-ok :
    {W : Type 0} (c : Option Error) (rep : Report) (p : Outcome ℕ × W)
    → (after_write c rep p).0 ≡ exit_ok
    → (p.0.err ≡ none)
      × (signal_exit_code c ≡ 0)
      × (compute_exit rep ≡ exit_ok)
      × ((after_write c rep p).1 ≡ some p.1)
unfolding after_write
after_write-ok c rep (o, w) h = elim (Option-cases o.err) [
  | inl q ↦ let (s, e) = final_exit-ok c rep (rw q at h) in (q, s, e, refl)
  | inr (e, q) ↦ absurd (cc (ap is_some q, h))
]

no_gap-report :
    {W : Type 0} (m : Machine W) (rs : List Result)
    → compute_exit (report_of m rs) ≡ exit_ok
    → (any is_gap rs ≡ false) × (any is_unknown rs ≡ false)
unfolding report_of
no_gap-report m rs h = let e = compute_exit-results (report_of m rs) refl in ground (arith, e, h)

-- What an exit code of 0 says of a run: which checks ran, that none of them left a required failure
-- or a required error, that no signal came, and what the renderer for the format wrote.
pub record IsClean {W : Type 0} (m : Machine W) (opts : Options) (e : Ended W) : Type 0 where
  pub checks : List Check
  pub chosen : filter_checks (m.checks opts.module_name opts.conf) opts.only opts.skip ≡ ok checks
  pub no_gap : any is_gap (m.run_checks opts checks) ≡ false
  pub no_unknown : any is_unknown (m.run_checks opts checks) ≡ false
  pub no_signal : signal_exit_code m.cancelled ≡ 0
  pub output : W
  pub opened : m.open_output opts.output ≡ ok output
  pub rendered :
      (write_to m.renderers (report_of m (m.run_checks opts checks)) output opts.format).0.err
      ≡ none
  pub written :
      e.1
      ≡ some (write_to m.renderers (report_of m (m.run_checks opts checks)) output opts.format).1

after_open-IsClean :
    {W : Type 0} (m : Machine W) (opts : Options) (cs : List Check) (out : Try W)
    → filter_checks (m.checks opts.module_name opts.conf) opts.only opts.skip ≡ ok cs
    → m.open_output opts.output ≡ out
    → (after_open m opts (report_of m (m.run_checks opts cs)) out).0 ≡ exit_ok
    → IsClean m opts (after_open m opts (report_of m (m.run_checks opts cs)) out)
unfolding after_open
after_open-IsClean m opts cs (err e) f q h = absurd (cc)
after_open-IsClean m opts cs (ok w) f q h =
    let rep = report_of m (m.run_checks opts cs) in
    let (r, s, c, o) = after_write-ok m.cancelled rep (write_to m.renderers rep w opts.format) h in
    let (g, u) = no_gap-report m (m.run_checks opts cs) c in
    record {
      checks = cs;
      chosen = f;
      no_gap = g;
      no_unknown = u;
      no_signal = s;
      output = w;
      opened = q;
      rendered = r;
      written = o;
    }

after_filter-IsClean :
    {W : Type 0} (m : Machine W) (opts : Options) (cs : Try (List Check))
    → filter_checks (m.checks opts.module_name opts.conf) opts.only opts.skip ≡ cs
    → (after_filter m opts cs).0 ≡ exit_ok
    → IsClean m opts (after_filter m opts cs)
unfolding after_filter
after_filter-IsClean m opts (err e) f h = absurd (cc)
after_filter-IsClean m opts (ok cs) f h =
    after_open-IsClean m opts cs (m.open_output opts.output) f refl h

-- A run that exits with 0 has chosen checks to run, has opened its output and written the report to
-- it without an error, met no signal, and none of the results is a failure or an error of a required
-- check.
pub run-IsClean :
    {W : Type 0} (m : Machine W) (opts : Options)
    → (run m opts).0 ≡ exit_ok
    → IsClean m opts (run m opts)
unfolding run
run-IsClean m opts h = elim (Bool-cases (opts.no_color && is_some m.set_no_color)) [
  | inl t ↦ absurd (cc (t, h))
  | inr f ↦ rw f (
      after_filter-IsClean m opts
        (filter_checks (m.checks opts.module_name opts.conf) opts.only opts.skip) refl (rw f at h))
]

-- The exit codes that main can end with.
abbrev pub IsExitCode : ℕ → Type 0
IsExitCode n =
    (n ≡ exit_ok)
    ⊎ (n ≡ exit_mitigation_gap)
    ⊎ (n ≡ exit_tool_error)
    ⊎ (n ≡ exit_check_error)
    ⊎ (n ≡ exit_usage)
    ⊎ (n ≡ exit_terminated)

final_exit-IsExitCode : (c : Option Error) (rep : Report) → IsExitCode (final_exit c rep)
unfolding final_exit
final_exit-IsExitCode none rep = ground arith
final_exit-IsExitCode (some e) rep = ground arith

after_write-IsExitCode :
    {W : Type 0} (c : Option Error) (rep : Report) (p : Outcome ℕ × W)
    → IsExitCode (after_write c rep p).0
unfolding after_write
after_write-IsExitCode c rep (o, w) = elim (Bool-cases (is_some o.err)) [
  | inl t ↦ rw t (ground arith)
  | inr f ↦ rw f (final_exit-IsExitCode c rep)
]

after_open-IsExitCode :
    {W : Type 0} (m : Machine W) (opts : Options) (rep : Report) (out : Try W)
    → IsExitCode (after_open m opts rep out).0
unfolding after_open
after_open-IsExitCode m opts rep (err e) = ground arith
after_open-IsExitCode m opts rep (ok w) =
    after_write-IsExitCode m.cancelled rep (write_to m.renderers rep w opts.format)

after_filter-IsExitCode :
    {W : Type 0} (m : Machine W) (opts : Options) (cs : Try (List Check))
    → IsExitCode (after_filter m opts cs).0
unfolding after_filter
after_filter-IsExitCode m opts (err e) = ground arith
after_filter-IsExitCode m opts (ok cs) =
    after_open-IsExitCode m opts (report_of m (m.run_checks opts cs)) (m.open_output opts.output)

main_code : {W : Type 0} (m : Machine W) (o : Try Options) → IsExitCode (main m o).0
unfolding main run
main_code m (err e) = ground arith
main_code m (ok opts) = elim (Bool-cases (opts.no_color && is_some m.set_no_color)) [
  | inl t ↦ rw t (ground arith)
  | inr f ↦ rw f (
      after_filter-IsExitCode m opts
        (filter_checks (m.checks opts.module_name opts.conf) opts.only opts.skip))
]

-- Whatever the arguments and the host, main ends with one of 0, 2, 3, 4, 64 and 143, so never with
-- the 130 that is documented for an interrupt.
pub main-IsExitCode :
    {W : Type 0} (m : Machine W) (o : Try Options)
    → IsExitCode (main m o).0 × ((main m o).0 ≢ exit_interrupted)
unfolding main run
main-IsExitCode m o = let c = main_code m o in (c, ground (arith, c))
