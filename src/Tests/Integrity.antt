-- ===== src/Tests/Integrity.antt =====
-- Runs of the package managers of internal/integrity.
use copyfail_validation.Base.{not, List, [], ◌∷◌, true, false, some, ◌≡◌, refl, ◌==◌}
use copyfail_validation.Text.{Text, codes, split, trim_space, is_space, equal, fields}
use copyfail_validation.Errors.{sentinel, exit_status, lit}
use copyfail_validation.Exec.{validate, Cmd, empty_result}
use copyfail_validation.Integrity.{Runner, clean, verify_with}
use copyfail_validation.Integrity.Rpm.{parse_rpm_verify, rpm_verify}
use copyfail_validation.Integrity.Dpkg.{parse_dpkg_owner, parse_debsums}
use copyfail_validation.Integrity.Clean.{some_deviation, parse_rpm_verify-clean}

abbrev su : Text
su = codes "/usr/bin/su"

abbrev verified : Text
verified = codes "S.5....T.  c /etc/pam.d/su\r\n..5......    /usr/bin/su\nmissing /x\n"

hash_of_su : (parse_rpm_verify verified (codes "util-linux") su).hash_mismatch ≡ true
unfolding parse_rpm_verify split trim_space is_space equal fields
hash_of_su = refl

size_of_su : (parse_rpm_verify verified (codes "util-linux") su).size_changed ≡ false
unfolding parse_rpm_verify split trim_space is_space equal fields
size_of_su = refl

owner_of_su : parse_dpkg_owner (codes "\nlibc6:amd64: /lib/x\n") ≡ some (codes "libc6:amd64")
unfolding parse_dpkg_owner split is_space
owner_of_su = refl

debsums_of_su :
    (parse_debsums
      (codes "debsums: changed file /usr/bin/su (from login package)\n")
      (codes "login")
      su).hash_mismatch
    ≡ true
unfolding parse_debsums split trim_space is_space equal
debsums_of_su = refl

-- A runner that keeps its commands and answers each with the same output and a failure.
abbrev answering : Runner (List Cmd)
answering calls cmd = (
  record {
    value = record empty_result { stdout = verified };
    err = some (sentinel exit_status (lit "exit status 1"));
  },
  cmd ∷ calls,
)

parse_rpm_verify-clean_example :
    clean (parse_rpm_verify verified (codes "util-linux") su)
    ≡ not (some_deviation su (split (λ c. c == b'\n') verified))
parse_rpm_verify-clean_example = parse_rpm_verify-clean verified (codes "util-linux") su

-- What was written before the runner failed is parsed.
kept_evidence : (rpm_verify answering [] (codes "util-linux") su).0.value.hash_mismatch ≡ true
unfolding rpm_verify verify_with validate parse_rpm_verify split trim_space is_space equal fields
kept_evidence = refl
