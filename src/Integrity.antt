-- ===== src/Integrity.antt =====
-- internal/integrity: the package managers. pkgmgr.go stands here, rpm.go and dpkg.go in the children.
pub mod Rpm
pub mod Dpkg
pub mod Flags
pub mod Clean
use copyfail_validation.Base.{
  ℕ, List, [], ◌∷◌, ◌++◌, Bool, true, false, not, ◌&&◌, ◌||◌, Option, none, some, is_empty, is_some,
  if◌then◌else◌,
}
use copyfail_validation.Base.Int.{pos}
use copyfail_validation.Text.{Text, codes, contains}
use copyfail_validation.Errors.{
  Error, Message, Outcome, Try, ok, err, no_pkg_manager, package_unknown, is, wrap, sentinel, str,
  quoted, lit,
}
use copyfail_validation.Exec.{Cmd, Result, trusted, untrusted, validate}

pub record VerifyResult : Type 0 where
  pub backend : Text
  pub path : Text
  pub package_name : Text
  pub raw_output : Text
  pub unverified_reasons : List Message
  pub hash_mismatch : Bool
  pub size_changed : Bool
  pub mtime_changed : Bool
  pub perms_changed : Bool
  pub owner_changed : Bool
  pub group_changed : Bool

-- The zero value of the struct.
abbrev pub empty_result : VerifyResult
empty_result = record {
  backend = [];
  path = [];
  package_name = [];
  raw_output = [];
  unverified_reasons = [];
  hash_mismatch = false;
  size_changed = false;
  mtime_changed = false;
  perms_changed = false;
  owner_changed = false;
  group_changed = false;
}

unfoldable pub clean : VerifyResult → Bool
clean v =
    if not (is_empty v.unverified_reasons)
    then false
    else not v.hash_mismatch
      && not v.size_changed
      && not v.mtime_changed
      && not v.perms_changed
      && not v.owner_changed
      && not v.group_changed

unfoldable pub classify_owner_err : Option Error → Result → Text → Bool
unfolding contains
classify_owner_err none res marker = false
classify_owner_err (some e) res marker =
    not (is_empty marker) && (contains res.stdout marker || contains res.stderr marker)

-- A runner with a state, as a function of the state and a command.
abbrev pub Runner {ℓ} : Type ℓ → Type ℓ
Runner R = R → Cmd → Outcome Result × R

abbrev pub command : Text → Text → Text → Cmd
command name option argument = record {
  name = name;
  args = trusted option ∷ untrusted argument ∷ [];
  env = none;
  timeout = pos 0;
}

-- The error that runOwnerOf returns.
unfoldable pub owner_error : Message → Text → Outcome Result → Option Error
unfolding classify_owner_err
owner_error label marker o = elim o.err [
  | none ↦ none
  | some e ↦
      if classify_owner_err (some e) o.value marker
      then some (
          sentinel package_unknown (
            lit "integrity: "
            ++ label
            ++ lit ": integrity: file not owned by any installed package"))
      else some (wrap (lit "integrity: " ++ label ++ lit ": ") e)
]

-- What Verify returns, for the command and the parser of a backend, and the runner it leaves behind.
unfoldable pub verify_with {ℓ} :
    {R : Type ℓ}
    → Runner R
    → R
    → Text
    → Text
    → (Result → VerifyResult)
    → Text
    → Outcome VerifyResult × R
unfolding validate
verify_with run r name option parse pkg = elim (validate (untrusted pkg)) [
  | some e ↦ (
    record {
      value = empty_result;
      err = some (
          wrap
            (lit "integrity: "
              ++ str name ∷ lit " "
              ++ str option ∷ lit " "
              ++ quoted pkg ∷ lit ": ")
            e);
    },
    r,
  )
  | none ↦
      let (o, s) = run r (command name option pkg) in
      (
        record {
          value = parse o.value;
          err = elim o.err [
            | none ↦ none
            | some e ↦ some (
                wrap
                  (lit "integrity: "
                    ++ str name ∷ lit " "
                    ++ str option ∷ lit " "
                    ++ str pkg ∷ lit ": ")
                  e)
          ];
        },
        s,
      )
]

pub data Backend : Type 0 where
  rpm dpkg : Backend

-- detectWith, by whether the resolution of a name has no error.
unfoldable pub detect_with : (Text → Try Text) → Try Backend
detect_with resolve = elim (resolve (codes "rpm")) [
  | ok path ↦ ok rpm
  | err e ↦ elim (resolve (codes "dpkg")) [
    | ok path ↦ ok dpkg
    | err f ↦
        err (
          sentinel no_pkg_manager (lit "integrity: no supported package manager (rpm, dpkg) found"))
  ]
]
