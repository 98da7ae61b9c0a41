-- ===== src/Exec/Safety.antt =====
-- What reaches a subprocess, and which errors a run reports.
use copyfail_validation.Base.{
  Bool, ◌&&◌, sym, List, [], ◌∷◌, ◌++◌, true, false, Option, none, some, ◌≡◌, ◌≢◌, ◌↔◌, ◌⊎◌, inl,
  inr, refl, arith, All, Option-cases,
}
use copyfail_validation.Text.{Text}
use copyfail_validation.Errors.{
  Error, ok, err, Sentinel, is, Try-cases, output_truncated, timed_out, command_denied,
  command_not_found, invalid_arg,
}
use copyfail_validation.Exec.{
  Arg, trusted, untrusted, Cmd, Paths, is_safe, all_safe, validate, validate_all, stringify_args,
  lookup, allowed_commands, resolve_with, resolve_command, denied, not_found, cmd_timeout,
}
use copyfail_validation.Exec.Characters.{documented, is_in, is_safe-is_in}
use copyfail_validation.Exec.Runner.{Launch, Process, System, run_at, os_run, run_process}

-- What an argument may be: anything the program vouches for, or a nonempty text of the documented
-- characters that is no flag.
abbrev pub IsSafeArg : Arg → Type 0
IsSafeArg (trusted s) = Unit
IsSafeArg (untrusted []) = ⊥
IsSafeArg (untrusted (c ∷ s)) = (c ≢ b'-') × All (λ d. is_in d documented ≡ true) (c ∷ s)

both : (a b x : Bool) (P : Type 0) → a ≡ b → (x ≡ true) ↔ P → ((a && x) ≡ true) ↔ (b ≡ true) × P
both true b x P e h = (λ k. (sym e, h.0 k), λ k. h.1 k.1)
both false b x P e h = (λ k. absurd (cc k), λ k. absurd (cc (e, k.0)))

all_safe_iff : (s : Text) → (all_safe s ≡ true) ↔ All (λ d. is_in d documented ≡ true) s
unfolding all_safe
all_safe_iff [] = ground arith
all_safe_iff (c ∷ s) =
    both (is_safe c) (is_in c documented) (all_safe s) _ (is_safe-is_in c) (all_safe_iff s)

-- Validate accepts an argument exactly if the program vouches for it, or it is a text of one character
-- or more, all of them letters or digits of ASCII or among `._-/+:=,@`, that does not begin with `-`.
pub validate_iff : (a : Arg) → (validate a ≡ none) ↔ IsSafeArg a
unfolding validate
validate_iff (trusted s) = (λ h. tt, λ h. refl)
validate_iff (untrusted []) = (λ h. absurd (cc), λ h. absurd h)
validate_iff (untrusted (c ∷ s)) = ground (arith, all_safe_iff (c ∷ s))

validate_all_sound : (args : List Arg) → validate_all args ≡ none → All IsSafeArg args
unfolding validate_all
validate_all_sound [] h = tt
validate_all_sound (a ∷ args) h = elim (Option-cases (validate a)) [
  | inl q ↦ ((validate_iff a).0 q, validate_all_sound args (rw (q, validate_all) at h))
  | inr (e, q) ↦ absurd (ground (arith, q))
]

-- A launch for `cmd`: the command is on the allowlist and its path is the preferred one or, where
-- that is missing, what LookPath finds; the arguments are the command's and all of them are safe.
pub record IsSafeLaunch (os : System) (cmd : Cmd) (l : Launch) : Type 0 where
  pub preferred : Text
  pub allowed : lookup cmd.name allowed_commands ≡ some preferred
  pub resolved :
      ((os.paths.exists preferred ≡ true) × (l.path ≡ preferred))
      ⊎ ((os.paths.exists preferred ≡ false) × (os.paths.look_path cmd.name ≡ ok l.path))
  pub args : l.args ≡ stringify_args cmd.args
  pub safe : All IsSafeArg cmd.args

resolve_command-cases :
    (os : Paths) (name path : Text)
    → resolve_command os name ≡ ok path
    → (preferred : Text) × (lookup name allowed_commands ≡ some preferred)
      × (((os.exists preferred ≡ true) × (path ≡ preferred))
          ⊎ ((os.exists preferred ≡ false) × (os.look_path name ≡ ok path)))
unfolding resolve_command
resolve_command-cases os name path h = elim (Option-cases (lookup name allowed_commands)) [
  | inl q ↦ absurd (ground (arith, q))
  | inr (preferred, q) ↦ (preferred, q, ground (arith, q))
]

run_at-launched :
    (P : Launch → Type 0) (os : System) (path : Text) (prefix env : List Text) (cmd : Cmd)
    → (All IsSafeArg cmd.args
        → P (record {
          path = path;
          args = prefix ++ stringify_args cmd.args;
          env = env;
          timeout = cmd_timeout cmd;
        }))
    → All P (run_at os path prefix env cmd).launched
unfolding run_at
run_at-launched P os path prefix env cmd p = elim (Option-cases (validate_all cmd.args)) [
  | inl q ↦ rw (q, run_at) (p (validate_all_sound cmd.args q), tt)
  | inr (e, q) ↦ rw (q, run_at) tt
]

-- The production runner starts nothing but safe launches of the command it was given.
pub os_run-IsSafeLaunch :
    (os : System) (cmd : Cmd) → All (IsSafeLaunch os cmd) (os_run os cmd).launched
unfolding os_run
os_run-IsSafeLaunch os cmd = elim (Try-cases (resolve_command os.paths cmd.name)) [
  | inl (path, q) ↦
      let (preferred, a, r) = resolve_command-cases os.paths cmd.name path q in
      rw (q, os_run)
        (run_at-launched (IsSafeLaunch os cmd) os path [] _ cmd (λ safe. record {
          preferred = preferred;
          allowed = a;
          resolved = r;
          args = refl;
          safe = safe;
        }))
  | inr (e, q) ↦ rw (q, os_run) tt
]

-- An error, and the sentinel that is to be found in it.
abbrev pub Fails : Sentinel → Option Error → Type 0
Fails s none = ⊥
Fails s (some e) = is e s ≡ true

pub validate_fails : (a : Arg) (e : Error) → validate a ≡ some e → is e invalid_arg ≡ true
unfolding validate is
validate_fails (trusted s) e h = absurd (cc)
validate_fails (untrusted s) e h = ground arith

validate_all_fails :
    (args : List Arg) → ¬ All IsSafeArg args → Fails invalid_arg (validate_all args)
unfolding validate_all
validate_all_fails [] h = absurd (h tt)
validate_all_fails (a ∷ args) h = elim (Option-cases (validate a)) [
  | inl q ↦ rw (q, validate_all) (validate_all_fails args (λ safe. h ((validate_iff a).0 q, safe)))
  | inr (e, q) ↦ rw (q, validate_all) (validate_fails a e q)
]

run_at_refuses :
    (os : System) (path : Text) (prefix env : List Text) (cmd : Cmd)
    → ¬ All IsSafeArg cmd.args
    → ((run_at os path prefix env cmd).launched ≡ [])
      × Fails invalid_arg (run_at os path prefix env cmd).outcome.err
unfolding run_at
run_at_refuses os path prefix env cmd unsafe = elim (Option-cases (validate_all cmd.args)) [
  | inl q ↦ absurd (unsafe (validate_all_sound cmd.args q))
  | inr (e, q) ↦ rw (q, run_at) (refl, rw q at (validate_all_fails cmd.args unsafe))
]

resolve_command_denied :
    (os : Paths) (name : Text)
    → lookup name allowed_commands ≡ none
    → (e : Error) × (resolve_command os name ≡ err e) × (is e command_denied ≡ true)
unfolding resolve_command is
resolve_command_denied os name q = (denied name, rw (q, resolve_with), refl)

resolve_command_missing :
    (os : Paths) (name preferred : Text) (x : Error)
    → lookup name allowed_commands ≡ some preferred
    → os.exists preferred ≡ false
    → os.look_path name ≡ err x
    → (e : Error) × (resolve_command os name ≡ err e) × (is e command_not_found ≡ true)
unfolding resolve_command is
resolve_command_missing os name preferred x q m n =
    (not_found name preferred x, rw (q, m, n, resolve_with) refl, refl)

-- Where the allowlist has no entry, where the preferred path is missing and LookPath fails, and where
-- an argument is unsafe, the production runner starts nothing, and its error says which of these it
-- was.
pub os_run_refuses :
    (os : System) (cmd : Cmd)
    → (lookup cmd.name allowed_commands ≡ none
        → ((os_run os cmd).launched ≡ []) × Fails command_denied (os_run os cmd).outcome.err)
      × ((preferred : Text) (x : Error)
          → lookup cmd.name allowed_commands ≡ some preferred
          → os.paths.exists preferred ≡ false
          → os.paths.look_path cmd.name ≡ err x
          → ((os_run os cmd).launched ≡ []) × Fails command_not_found (os_run os cmd).outcome.err)
      × ((path : Text)
          → resolve_command os.paths cmd.name ≡ ok path
          → ¬ All IsSafeArg cmd.args
          → ((os_run os cmd).launched ≡ []) × Fails invalid_arg (os_run os cmd).outcome.err)
unfolding os_run
os_run_refuses os cmd = (
  λ none. let (e, q, d) = resolve_command_denied os.paths cmd.name none in rw (q, os_run) (refl, d),
  λ preferred x q m n.
      let (e, r, d) = resolve_command_missing os.paths cmd.name preferred x q m n in
      rw (r, os_run) (refl, d),
  λ path q unsafe. rw (q, os_run) (run_at_refuses os path [] _ cmd unsafe),
)

-- A deadline that passed outranks everything. Otherwise truncated output is reported, and so is
-- the error of the process, with every sentinel of its chain, also where both occur.
pub run_process_errors :
    (path : Text) (p : Process) (s : Sentinel) (e : Error)
    → (p.deadline_passed ≡ true → Fails timed_out (run_process path p).err)
      × (p.deadline_passed ≡ false
          → (run_process path p).value.truncated ≡ true
          → Fails output_truncated (run_process path p).err)
      × (p.deadline_passed ≡ false
          → p.failure ≡ some e
          → is e s ≡ true
          → Fails s (run_process path p).err)
      × (((run_process path p).err ≡ none) ↔ (
          (p.deadline_passed ≡ false)
          × (p.failure ≡ none)
          × ((run_process path p).value.truncated ≡ false)))
unfolding run_process is
run_process_errors path p s e = (ground arith, ground arith, ground arith, ground arith)
