-- ===== src/Hostinfo/Gather/Facts.antt =====
-- When the gathering of internal/hostinfo/hostinfo.go succeeds, and what it returns either way.
use copyfail_validation.Base.{[], true, none, some, ◌≡◌}
use copyfail_validation.Base.Int.{pos}
use copyfail_validation.Text.{Text, codes}
use copyfail_validation.Errors.{Outcome, Try, ok, err, is, not_exist}
use copyfail_validation.Exec.{Cmd, Result}
use copyfail_validation.Hostinfo.OsRelease.{OsRelease}
use copyfail_validation.Hostinfo.Gather.{System, os_release_path, read_os_release_file, uname}

-- The file is absent, or was read without an error.
abbrev pub IsSettled : Outcome OsRelease → Type 0
IsSettled o = elim o.err as (λ _. Type 0) [ none ↦ Unit | some e ↦ is e not_exist ≡ true ]

-- The command ran without an error and with the exit code 0.
abbrev pub Answers : Outcome Result → Type 0
Answers o = (o.err ≡ none) × (o.value.exit_code ≡ pos 0)

module _ {ℓ} {R : Type ℓ} (run : R → Cmd → Outcome Result × R) (r : R) where
  abbrev pub kernel : Outcome Result
  kernel = (run r (uname (codes "-r"))).0

  abbrev pub machine : Outcome Result
  machine = (run (run r (uname (codes "-r"))).1 (uname (codes "-m"))).0

-- The name of the host, where it is known.
abbrev pub name_of : Try Text → Text
name_of (ok name) = name
name_of (err e) = []

-- A text that the file sets, where it could be read.
abbrev pub from_file : Outcome OsRelease → (OsRelease → Text) → Text
from_file o field = elim o.err as (λ _. Text) [ none ↦ field o.value | some e ↦ [] ]

module _ {ℓ} {R : Type ℓ} (run : R → Cmd → Outcome Result × R) (r : R) where
  module _ (sys : System) (root : Text) where
    abbrev pub file : Outcome OsRelease
    file = read_os_release_file sys (os_release_path sys root)
