-- ===== src/Tests/Exec.antt =====
-- Runs of the runner of internal/exec.
use copyfail_validation.Base.{List, [], ◌∷◌, false, none, some, ◌≡◌, ◌↔◌, All}
use copyfail_validation.Text.{Text, codes}
use copyfail_validation.Errors.{
  Error, ok, err, command_denied, command_not_found, invalid_arg, exit_status, sentinel, lit,
}
use copyfail_validation.Exec.{Cmd, untrusted, validate, lookup, allowed_commands, resolve_command}
use copyfail_validation.Exec.Runner.{Process, os_run}
use copyfail_validation.Exec.Safety.{
  IsSafeArg, IsSafeLaunch, Fails, validate_iff, os_run-IsSafeLaunch, os_run_refuses,
}
use copyfail_validation.Tests.Data.{system, process, modprobe}

abbrev injected : Cmd
injected = record modprobe { args = untrusted (codes "-rf") ∷ [] }

abbrev exited : Error
exited = sentinel exit_status (lit "exit status 1")

abbrev failed : Process
failed = record process { failure = some exited }

validate_iff_example :
    (validate (untrusted (codes "algif_aead")) ≡ none) ↔ IsSafeArg (untrusted (codes "algif_aead"))
validate_iff_example = validate_iff (untrusted (codes "algif_aead"))

os_run-IsSafeLaunch_example : All (IsSafeLaunch system modprobe) (os_run system modprobe).launched
os_run-IsSafeLaunch_example = os_run-IsSafeLaunch system modprobe

os_run_refuses_example :
    (lookup injected.name allowed_commands ≡ none
      → ((os_run system injected).launched ≡ [])
        × Fails command_denied (os_run system injected).outcome.err)
    × ((preferred : Text) (x : Error)
        → lookup injected.name allowed_commands ≡ some preferred
        → system.paths.exists preferred ≡ false
        → system.paths.look_path injected.name ≡ err x
        → ((os_run system injected).launched ≡ [])
          × Fails command_not_found (os_run system injected).outcome.err)
    × ((path : Text)
        → resolve_command system.paths injected.name ≡ ok path
        → ¬ All IsSafeArg injected.args
        → ((os_run system injected).launched ≡ [])
          × Fails invalid_arg (os_run system injected).outcome.err)
os_run_refuses_example = os_run_refuses system injected

abbrev pieces : List Text
pieces = codes "abc" ∷ codes "def" ∷ []
