-- ===== src/Integrity/Dpkg.antt =====
-- internal/integrity/dpkg.go: the output of `dpkg -S` and of `debsums -s`.
use copyfail_validation.Base.{
  List, [], ◌∷◌, ◌++◌, true, Option, none, some, ◌==◌, is_empty, if◌then◌else◌,
}
use copyfail_validation.Text.{Text, codes, equal, trim_space, trim_right, split, has_prefix}
use copyfail_validation.Errors.{
  Outcome, Try, ok, err, package_unknown, sentinel, wrap, str, quoted, lit,
}
use copyfail_validation.Exec.{untrusted, validate}
use copyfail_validation.Integrity.{
  VerifyResult, empty_result, Runner, command, owner_error, verify_with,
}
use copyfail_validation.Integrity.Rpm.{is_return, reason}

-- The text before the first occurrence of a separator, s[:strings.Index(s, separator)].
unfoldable pub before : Text → Text → Option Text
unfolding has_prefix
before [] separator = if has_prefix [] separator then some [] else none
before (c ∷ s) separator =
    let rest = before s separator in
    if has_prefix (c ∷ s) separator
    then some []
    else elim rest [ none ↦ none | some p ↦ some (c ∷ p) ]

-- The owner that one line names, where it names one.
unfoldable pub owner_of_line : Text → Option Text
unfolding before trim_space
owner_of_line raw = elim (before (trim_space raw) (codes ": ")) [
  | none ↦ none
  | some p ↦ if is_empty (trim_space p) then none else some (trim_space p)
]

unfoldable pub first_owner : List Text → Option Text
unfolding owner_of_line
first_owner [] = none
first_owner (raw ∷ rest) = elim (owner_of_line raw) [
  | none ↦ first_owner rest
  | some owner ↦ some owner
]

unfoldable pub parse_dpkg_owner : Text → Option Text
unfolding first_owner
parse_dpkg_owner stdout = first_owner (split (λ c. c == b'\n') stdout)

-- strings.TrimPrefix, for a text that has the prefix.
unfoldable pub trim_prefix : Text → Text → Text
trim_prefix s [] = s
trim_prefix [] (p ∷ prefix) = []
trim_prefix (c ∷ s) (p ∷ prefix) = trim_prefix s prefix

abbrev pub changed_prefix : Text
changed_prefix = codes "debsums: changed file "

-- What a line of the output does to the result.
unfoldable pub on_diagnostic : VerifyResult → Text → Text → VerifyResult
unfolding before has_prefix trim_prefix
on_diagnostic v queried raw =
    let trimmed = trim_space (trim_right is_return raw) in
    if is_empty trimmed
    then v
    else if has_prefix trimmed changed_prefix
    then elim (before (trim_prefix trimmed changed_prefix) (codes " (from ")) [
      | none ↦ reason v (lit "debsums malformed line: " ++ str trimmed ∷ [])
      | some path ↦
          if equal path queried
          then record v { hash_mismatch = true }
          else reason v (lit "additional file changed in package: " ++ str path ∷ [])
    ]
    else reason v (lit "debsums diagnostic: " ++ str trimmed ∷ [])

unfoldable pub fold_diagnostics : VerifyResult → Text → List Text → VerifyResult
unfolding on_diagnostic
fold_diagnostics v queried [] = v
fold_diagnostics v queried (raw ∷ rest) =
    fold_diagnostics (on_diagnostic v queried raw) queried rest

unfoldable pub parse_debsums : Text → Text → Text → VerifyResult
unfolding fold_diagnostics
parse_debsums stderr pkg queried =
    fold_diagnostics
      (record empty_result {
        backend = codes "dpkg";
        package_name = pkg;
        path = queried;
        raw_output = stderr;
      })
      queried (split (λ c. c == b'\n') stderr)

unfoldable pub dpkg_verify {ℓ} :
    {R : Type ℓ} → Runner R → R → Text → Text → Outcome VerifyResult × R
unfolding verify_with parse_debsums
dpkg_verify run r pkg path =
    verify_with run r (codes "debsums") (codes "-s") (λ res. parse_debsums res.stderr pkg path) pkg

-- dpkgVerify.OwnerOf: the package that the output names, and the error.
unfoldable pub dpkg_owner_of {ℓ} : {R : Type ℓ} → Runner R → R → Text → Try Text × R
unfolding validate owner_error parse_dpkg_owner
dpkg_owner_of run r path = elim (validate (untrusted path)) [
  | some e ↦ (err (wrap (lit "integrity: dpkg -S " ++ quoted path ∷ lit ": ") e), r)
  | none ↦
      let (o, s) = run r (command (codes "dpkg") (codes "-S") path) in
      (
        elim (owner_error (lit "dpkg -S " ++ str path ∷ []) (codes "no path found matching pattern")
            o) [
              | some e ↦ err e
              | none ↦ elim (parse_dpkg_owner o.value.stdout) [
                | none ↦ err (
                    sentinel package_unknown (
                      lit "integrity: dpkg -S "
                      ++ str path
                        ∷ lit
                            ": unable to parse owner from output: integrity: file not owned by any installed package"))
                | some owner ↦ ok owner
              ]
            ],
        s,
      )
]
