-- ===== src/Exec/Runner.antt =====
-- The runners of internal/exec/runner.go. What the operating system does is a parameter: the
-- resolution of paths, the environment, and what becomes of a process that is started.
use copyfail_validation.Base.{ℕ, List, [], ◌∷◌, ◌++◌, Bool, ◌||◌, Option, none, some, if◌then◌else◌}
use copyfail_validation.Base.Int.{ℤ, negsuc}
use copyfail_validation.Text.{Text, codes, equal, join}
use copyfail_validation.Text.Utf8.{Bytes, decode}
use copyfail_validation.Errors.{
  Error, Outcome, ok, err, timed_out, output_truncated, sentinel, plain, wrap, join_errors, str,
  quoted, num, lit,
}
use copyfail_validation.Exec.{
  Cmd, Result, empty_result, Paths, validate_all, stringify_args, cmd_timeout, resolve_command,
  max_output,
}
use copyfail_validation.Exec.Buffer.{empty, write_all}

-- A process that os/exec is told to start.
pub record Launch : Type 0 where
  pub path : Text
  pub args : List Text
  pub env : List Text
  pub timeout : ℤ

-- What the run of a process shows: the bytes it wrote, in the pieces they were read in, the error of
-- c.Run, the exit code if there is a process state, and whether the context's deadline passed.
pub record Process : Type 0 where
  pub stdout : List Bytes
  pub stderr : List Bytes
  pub failure : Option Error
  pub exit_code : Option ℤ
  pub deadline_passed : Bool
  pub duration : ℕ

pub record System : Type 0 where
  pub paths : Paths
  pub path_env : Text
  pub launch : Launch → Process

abbrev pub minus_one : ℤ
minus_one = negsuc 0

abbrev error_truncated : Error
error_truncated = sentinel output_truncated (lit "exec: output truncated")

abbrev exit_code_of : Option ℤ → ℤ
exit_code_of none = minus_one
exit_code_of (some n) = n

-- The errors of runProcess, in their order of precedence.
unfoldable pub classify : Text → Process → Bool → Option Error
unfolding join_errors
classify path p truncated =
    if p.deadline_passed
    then some (sentinel timed_out (lit "exec: command timed out: after " ++ num p.duration ∷ []))
    else elim p.failure [
      | some e ↦
          let wrapped = wrap (lit "exec " ++ str path ∷ lit ": ") e in
          if truncated then join_errors (error_truncated ∷ wrapped ∷ []) else some wrapped
      | none ↦ if truncated then some error_truncated else none
    ]

unfoldable pub run_process : Text → Process → Outcome Result
unfolding classify write_all decode
run_process path p =
    let out = write_all (empty max_output) p.stdout in
    let errs = write_all (empty max_output) p.stderr in
    record {
      value = record {
        path = path;
        stdout = decode out.bytes;
        stderr = decode errs.bytes;
        duration = p.duration;
        exit_code = exit_code_of p.exit_code;
        truncated = out.truncated || errs.truncated;
      };
      err = classify path p (out.truncated || errs.truncated);
    }

-- A result, with the processes that were started for it.
pub record Ran : Type 0 where
  pub outcome : Outcome Result
  pub launched : List Launch

abbrev refused : Result → Error → Ran
refused r e = record { outcome = record { value = r; err = some e }; launched = [] }

abbrev env_of : Text → Option (List Text) → List Text
env_of path_env none = (codes "PATH=" ++ path_env) ∷ codes "LANG=C" ∷ []
env_of path_env (some env) = env

-- The validation and the launch, on a path that is resolved.
unfoldable pub run_at : System → Text → List Text → List Text → Cmd → Ran
run_at os path prefix env cmd = elim (validate_all cmd.args) [
  | some e ↦ refused (record empty_result { path = path; exit_code = minus_one }) e
  | none ↦
      let l : Launch = record {
        path = path;
        args = prefix ++ stringify_args cmd.args;
        env = env;
        timeout = cmd_timeout cmd;
      } in
      record { outcome = run_process path (os.launch l); launched = l ∷ [] }
]

-- osRunner.Run
unfoldable pub os_run : System → Cmd → Ran
os_run os cmd = elim (resolve_command os.paths cmd.name) [
  | err e ↦ refused (record empty_result { exit_code = minus_one }) e
  | ok path ↦ run_at os path [] (env_of os.path_env cmd.env) cmd
]

-- testRunner
pub record TestRunner : Type 0 where
  pub argv0 : Text
  pub prefix : List Text
  pub env : List Text

unfoldable pub test_run : System → TestRunner → Cmd → Ran
test_run os t cmd = run_at os t.argv0 t.prefix t.env cmd

-- FakeRunner: canned answers under a key, and a record of the calls.
pub record FakeRunner : Type 0 where
  pub responses : List (Text × Result)
  pub errors : List (Text × Error)
  pub calls : List Cmd

unfoldable pub fake_key : Cmd → Text
unfolding stringify_args
fake_key cmd = join (codes " ") (cmd.name ∷ stringify_args cmd.args)

unfoldable pub find {ℓ} : {V : Type ℓ} → Text → List (Text × V) → Option V
find key [] = none
find key ((k, v) ∷ m) = if equal k key then some v else find key m

abbrev answer : Text → Option Result → Option Error → Outcome Result
answer key (some r) (some e) = record { value = r; err = some e }
answer key none (some e) = record { value = empty_result; err = some e }
answer key (some r) none = record { value = r; err = none }
answer key none none = record {
  value = empty_result;
  err = some (plain (lit "FakeRunner: no canned response for key " ++ quoted key ∷ []));
}

unfoldable pub fake_run : FakeRunner → Cmd → Outcome Result × FakeRunner
unfolding find fake_key
fake_run f cmd =
    let key = fake_key cmd in
    (
      answer key (find key f.responses) (find key f.errors),
      record f { calls = f.calls ++ cmd ∷ [] },
    )
