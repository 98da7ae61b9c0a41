-- ===== src/Integrity/Rpm.antt =====
-- internal/integrity/rpm.go: the output of `rpm -V`.
use copyfail_validation.Base.{
  ℕ, List, [], ◌∷◌, ◌++◌, Bool, false, ◌||◌, Option, none, some, ◌==◌, get_elem?, length, is_empty,
  if◌then◌else◌,
}
use copyfail_validation.Text.{Text, codes, equal, trim_space, trim_right, split, fields}
use copyfail_validation.Text.Order.{encode}
use copyfail_validation.Errors.{
  Message, Outcome, Try, ok, err, package_unknown, sentinel, wrap, str, quoted, lit,
}
use copyfail_validation.Exec.{untrusted, validate}
use copyfail_validation.Integrity.{
  VerifyResult, empty_result, Runner, command, owner_error, verify_with,
}

-- The three parts of a line: flags, marker and path.
pub record Line : Type 0 where
  pub flags : Text
  pub marker : Text
  pub path : Text

unfoldable pub line_of : List Text → Option Line
unfolding equal encode
line_of (candidate ∷ second ∷ []) =
    if length (encode candidate) == 9
    then some (record { flags = candidate; marker = []; path = second })
    else none
line_of (candidate ∷ second ∷ third ∷ rest) =
    if length (encode candidate) == 9
    then (if equal second (codes "c")
        then some (record { flags = candidate; marker = codes "c"; path = third })
        else some (record { flags = candidate; marker = []; path = second }))
    else none
line_of _ = none

unfoldable pub split_rpm_verify_line : Text → Option Line
unfolding line_of fields
split_rpm_verify_line line = line_of (fields line)

-- The byte at a position is the one that is looked for.
unfoldable pub has_byte : Text → ℕ → ℕ → Bool
unfolding encode
has_byte flags i c = elim (get_elem? (encode flags) i) [ none ↦ false | some b ↦ b == c ]

unfoldable pub apply_rpm_flags : VerifyResult → Text → VerifyResult
unfolding has_byte
apply_rpm_flags v flags =
    if length (encode flags) == 9
    then record v {
      size_changed = has_byte flags 0 b'S' || v.size_changed;
      perms_changed = has_byte flags 1 b'M' || v.perms_changed;
      hash_mismatch = has_byte flags 2 b'5' || v.hash_mismatch;
      owner_changed = has_byte flags 5 b'U' || v.owner_changed;
      group_changed = has_byte flags 6 b'G' || v.group_changed;
      mtime_changed = has_byte flags 7 b'T' || v.mtime_changed;
    }
    else v

abbrev pub reason : VerifyResult → Message → VerifyResult
reason v m = record v { unverified_reasons = v.unverified_reasons ++ m ∷ [] }

-- What a parsed line does to the result.
unfoldable pub on_line : VerifyResult → Text → Line → VerifyResult
unfolding apply_rpm_flags
on_line v queried l =
    if equal l.path queried
    then (if equal l.marker (codes "c")
        then reason (apply_rpm_flags v l.flags)
            (lit "config file marker on queried path: " ++ str l.path ∷ [])
        else apply_rpm_flags v l.flags)
    else if equal l.marker (codes "c")
    then reason v (
        lit "additional config file changed in package: "
        ++ str l.path ∷ lit " (flags="
        ++ str l.flags ∷ lit ")")
    else reason v (
        lit "additional file changed in package: "
        ++ str l.path ∷ lit " (flags="
        ++ str l.flags ∷ lit ")")

abbrev pub is_return : ℕ → Bool
is_return c = c == b'\r'

-- A line of the output, as far as it is looked at.
unfoldable pub looked_at : Text → Option Line
unfolding split_rpm_verify_line trim_right trim_space
looked_at raw =
    let line = trim_right is_return raw in
    if is_empty (trim_space line) then none else split_rpm_verify_line line

unfoldable pub fold_lines : VerifyResult → Text → List Text → VerifyResult
unfolding looked_at on_line
fold_lines v queried [] = v
fold_lines v queried (raw ∷ rest) = elim (looked_at raw) [
  | none ↦ fold_lines v queried rest
  | some l ↦ fold_lines (on_line v queried l) queried rest
]

abbrev pub started : Text → Text → Text → VerifyResult
started pkg queried out = record empty_result {
  backend = codes "rpm";
  package_name = pkg;
  path = queried;
  raw_output = out;
}

unfoldable pub parse_rpm_verify : Text → Text → Text → VerifyResult
unfolding fold_lines
parse_rpm_verify stdout pkg queried =
    fold_lines (started pkg queried stdout) queried (split (λ c. c == b'\n') stdout)

unfoldable pub rpm_verify {ℓ} : {R : Type ℓ} → Runner R → R → Text → Text → Outcome VerifyResult × R
unfolding verify_with parse_rpm_verify
rpm_verify run r pkg path =
    verify_with run r (codes "rpm") (codes "-V") (λ res. parse_rpm_verify res.stdout pkg path) pkg

-- rpmVerify.OwnerOf: the trimmed output, and the error.
unfoldable pub rpm_owner_of {ℓ} : {R : Type ℓ} → Runner R → R → Text → Try Text × R
unfolding validate owner_error
rpm_owner_of run r path = elim (validate (untrusted path)) [
  | some e ↦ (err (wrap (lit "integrity: rpm -qf " ++ quoted path ∷ lit ": ") e), r)
  | none ↦
      let (o, s) = run r (command (codes "rpm") (codes "-qf") path) in
      let owner = trim_space o.value.stdout in
      (
        elim (owner_error (lit "rpm -qf " ++ str path ∷ []) (codes "is not owned by any package")
            o) [
              | some e ↦ err e
              | none ↦
                  if is_empty owner
                  then err (
                      sentinel package_unknown (
                        lit "integrity: rpm -qf "
                        ++ str path
                          ∷ lit
                              ": empty owner from successful exit: integrity: file not owned by any installed package"))
                  else ok owner
            ],
        s,
      )
]
