-- ===== src/Exec.antt =====
-- internal/exec: the wrapper round subprocesses. Arguments and their validation, the allowlist of
-- commands, and the data of one command. The runners and the output buffer are in the children.
pub mod Buffer
pub mod Runner
pub mod Characters
pub mod Safety
use copyfail_validation.Base.{
  ℕ, String, List, [], ◌∷◌, ◌++◌, Bool, true, false, ◌&&◌, ◌||◌, not, Option, none, some, ◌==◌, leb,
  ◌*◌, ◌^◌, is_empty, if◌then◌else◌, map,
}
use copyfail_validation.Base.Int.{ℤ, pos, negsuc}
use copyfail_validation.Text.{Text, codes, equal, has_prefix}
use copyfail_validation.Errors.{
  Error, Try, ok, err, command_denied, command_not_found, invalid_arg, sentinel, str, quoted, lit,
}

-- The sealed interface Arg and its two implementations.
pub data Arg : Type 0 where
  trusted : Text → Arg
  untrusted : Text → Arg

unfoldable pub to_string : Arg → Text
to_string (trusted s) = s
to_string (untrusted s) = s

-- The class of the regular expression UntrustedArgRE.
unfoldable pub is_safe : ℕ → Bool
is_safe c =
    leb b'A' c && leb c b'Z'
    || leb b'a' c && leb c b'z'
    || leb b'0' c && leb c b'9'
    || c == b'.'
    || c == b'_'
    || c == b'-'
    || c == b'/'
    || c == b'+'
    || c == b':'
    || c == b'='
    || c == b','
    || c == b'@'

all_safe : Text → Bool
unfolding is_safe
all_safe [] = true
all_safe (c ∷ s) = is_safe c && all_safe s

-- UntrustedArgRE.MatchString: one code point of the class or more, and nothing else.
unfoldable pub matches_untrusted : Text → Bool
unfolding all_safe
matches_untrusted s = not (is_empty s) && all_safe s

-- `none` is the nil error.
unfoldable pub validate : Arg → Option Error
unfolding matches_untrusted has_prefix
validate (trusted s) = none
validate (untrusted s) =
    if not (matches_untrusted s)
    then some (
        sentinel invalid_arg (
          lit "exec: invalid argument: "
          ++ quoted s ∷ lit " (allowed pattern: ^[A-Za-z0-9._\\-/+:=,@]+$)"))
    else if has_prefix s (codes "-")
    then some (
        sentinel invalid_arg (
          lit "exec: invalid argument: "
          ++ quoted s ∷ lit " starts with '-' (flag-injection guard)"))
    else none

unfoldable pub validate_all : List Arg → Option Error
unfolding validate
validate_all [] = none
validate_all (a ∷ args) = elim (validate a) [ some e ↦ some e | none ↦ validate_all args ]

unfoldable pub stringify_args : List Arg → List Text
stringify_args [] = []
stringify_args (a ∷ args) = to_string a ∷ stringify_args args

-- A command; a duration is a number of nanoseconds.
pub record Cmd : Type 0 where
  pub name : Text
  pub args : List Arg
  pub env : Option (List Text)
  pub timeout : ℤ

pub record Result : Type 0 where
  pub path : Text
  pub stdout : Text
  pub stderr : Text
  pub duration : ℕ
  pub exit_code : ℤ
  pub truncated : Bool

abbrev pub empty_result : Result
empty_result = record {
  path = [];
  stdout = [];
  stderr = [];
  duration = 0;
  exit_code = pos 0;
  truncated = false;
}

abbrev pub max_output : ℕ
max_output = 2 ^ 20

abbrev pub default_timeout : ℤ
default_timeout = pos (30 * 10 ^ 9)

unfoldable pub cmd_timeout : Cmd → ℤ
cmd_timeout cmd = elim cmd.timeout [
  | pos n ↦ if n == 0 then default_timeout else pos n
  | negsuc n ↦ default_timeout
]

-- allowedCommands
abbrev pub allowed_commands : List (Text × Text)
allowed_commands =
    (codes "modprobe", codes "/sbin/modprobe")
    ∷ (codes "lsmod", codes "/sbin/lsmod")
    ∷ (codes "uname", codes "/bin/uname")
    ∷ (codes "rpm", codes "/usr/bin/rpm")
    ∷ (codes "dpkg", codes "/usr/bin/dpkg")
    ∷ (codes "dpkg-query", codes "/usr/bin/dpkg-query")
    ∷ (codes "debsums", codes "/usr/bin/debsums")
    ∷ (codes "sha256sum", codes "/usr/bin/sha256sum")
    ∷ []

unfoldable pub lookup : Text → List (Text × Text) → Option Text
lookup name [] = none
lookup name ((k, v) ∷ m) = if equal k name then some v else lookup name m

-- What the resolution asks of the operating system: whether os.Stat finds a path, and what
-- os/exec.LookPath makes of a name.
pub record Paths : Type 0 where
  pub exists : Text → Bool
  pub look_path : Text → Try Text

abbrev pub denied : Text → Error
denied name = sentinel command_denied (
    lit "exec: command not on allowlist: "
    ++ quoted name ∷ lit " (add to allowedCommands with security review)")

abbrev pub not_found : Text → Text → Error → Error
not_found name preferred e = sentinel command_not_found (
    lit "exec: command not found: "
    ++ quoted name ∷ lit " (preferred="
    ++ str preferred ∷ lit ", PATH lookup failed: "
    ++ e.message
    ++ lit ")")

unfoldable pub resolve_with : Paths → Text → Option Text → Try Text
resolve_with os name none = err (denied name)
resolve_with os name (some preferred) =
    if os.exists preferred
    then ok preferred
    else elim (os.look_path name) [ ok path ↦ ok path | err e ↦ err (not_found name preferred e) ]

unfoldable pub resolve_command : Paths → Text → Try Text
unfolding resolve_with lookup
resolve_command os name = resolve_with os name (lookup name allowed_commands)
