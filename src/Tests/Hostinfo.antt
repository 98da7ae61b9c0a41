-- ===== src/Tests/Hostinfo.antt =====
-- Runs of the os-release parser and the gathering of internal/hostinfo.
use copyfail_validation.Base.{ℕ, ◌∷◌, ◌++◌, ◌+◌, some, none, ◌≡◌, refl}
use copyfail_validation.Text.{codes, is_space}
use copyfail_validation.Hostinfo.OsRelease.{is_valid_key, split_key_value}
use copyfail_validation.Hostinfo.OsRelease.Quoting.{quote, split_key_value-quote}
use copyfail_validation.Hostinfo.Gather.{System, gather_with_root, no_facts}
use copyfail_validation.Hostinfo.Gather.Facts
use copyfail_validation.Errors.{Outcome, ok, err}
use copyfail_validation.Exec.{Cmd, Result, empty_result}
use copyfail_validation.Tests.Data.{absent}

split_key_value-quote_example :
    split_key_value (codes "PRETTY_NAME" ++ b'=' ∷ quote (codes "Say \"$5\""))
    ≡ some (codes "PRETTY_NAME", codes "Say \"$5\"")
unfolding is_valid_key
split_key_value-quote_example =
    split_key_value-quote (codes "PRETTY_NAME") (codes "Say \"$5\"") refl

-- A host without an os-release file, on which uname answers; the runner counts its calls.
abbrev system : System
system = record {
  hostname = ok (codes "web-1");
  open_file = λ path. err absent;
  path_join = λ dir name. dir ++ name;
}

abbrev uname_run : ℕ → Cmd → Outcome Result × ℕ
uname_run calls cmd =
    (record { value = record empty_result { stdout = codes "6.12.1\n" }; err = none }, calls + 1)

gathered : gather_with_root uname_run system 0 (codes "/") ≡ (
  record {
    value = record no_facts {
      hostname = codes "web-1";
      kernel_release = codes "6.12.1";
      arch = codes "6.12.1";
    };
    err = none;
  },
  2,
)
unfolding gather_with_root is_space
gathered = refl
