-- ===== src/Integrity/Flags.antt =====
-- What the flags say that internal/integrity reads from the output of `rpm -V`, and when a package
-- manager is asked at all.
use copyfail_validation.Base.{
  ℕ, List, [], ◌∷◌, Bool, true, false, ◌&&◌, ◌||◌, none, some, ◌==◌, length, ◌≡◌, ◌↔◌, refl, ◌∙◌,
  arith, Option-cases, inl, inr,
}
use copyfail_validation.Text.{Text, codes, equal, split, fields, trim_right}
use copyfail_validation.Text.Order.{encode}
use copyfail_validation.Errors.{invalid_arg, is}
use copyfail_validation.Exec.{untrusted, validate}
use copyfail_validation.Exec.Safety.{IsSafeArg, Fails, validate_iff, validate_fails}
use copyfail_validation.Integrity.{VerifyResult, Runner, command, verify_with}
use copyfail_validation.Integrity.Rpm.{
  Line, line_of, split_rpm_verify_line, looked_at, has_byte, apply_rpm_flags, on_line, fold_lines,
  started, is_return, parse_rpm_verify, rpm_verify,
}

-- A flag of the result, with its letter and its place among the nine bytes of a line.
pub data Flag : Type 0 where
  size perms hash owner group mtime : Flag

abbrev pub letter : Flag → ℕ
letter size = b'S'
letter perms = b'M'
letter hash = b'5'
letter owner = b'U'
letter group = b'G'
letter mtime = b'T'

abbrev pub place : Flag → ℕ
place size = 0
place perms = 1
place hash = 2
place owner = 5
place group = 6
place mtime = 7

abbrev pub field_of : Flag → VerifyResult → Bool
field_of size v = v.size_changed
field_of perms v = v.perms_changed
field_of hash v = v.hash_mismatch
field_of owner v = v.owner_changed
field_of group v = v.group_changed
field_of mtime v = v.mtime_changed

-- A line reports the flag for the path.
abbrev pub reports : Flag → Text → Line → Bool
reports k queried l = equal l.path queried && has_byte l.flags (place k) (letter k)

-- Some line of the output does.
abbrev pub some_report : Flag → Text → List Text → Bool
some_report k queried [] = false
some_report k queried (raw ∷ rest) =
    (elim (looked_at raw) as (λ _. Bool) [ none ↦ false | some l ↦ reports k queried l ])
    || some_report k queried rest

-- The flags of a line that is parsed are nine bytes.
abbrev pub IsWide : Line → Type 0
IsWide l = (length (encode l.flags) == 9) ≡ true

line_of-IsWide : (ws : List Text) (l : Line) → line_of ws ≡ some l → IsWide l
unfolding line_of
line_of-IsWide [] l h = absurd (cc)
line_of-IsWide (a ∷ []) l h = absurd (cc)
line_of-IsWide (a ∷ b ∷ []) l h = ground (arith, h)
line_of-IsWide (a ∷ b ∷ c ∷ ws) l h = ground (arith, h)

on_line-field :
    (k : Flag) (v : VerifyResult) (queried : Text) (l : Line)
    → IsWide l
    → field_of k (on_line v queried l) ≡ (field_of k v || reports k queried l)
unfolding on_line apply_rpm_flags
on_line-field size v queried l w = ground (arith, w)
on_line-field perms v queried l w = ground (arith, w)
on_line-field hash v queried l w = ground (arith, w)
on_line-field owner v queried l w = ground (arith, w)
on_line-field group v queried l w = ground (arith, w)
on_line-field mtime v queried l w = ground (arith, w)

pub looked_at-IsWide : (raw : Text) (l : Line) → looked_at raw ≡ some l → IsWide l
unfolding looked_at split_rpm_verify_line
looked_at-IsWide raw l h = line_of-IsWide (fields (trim_right is_return raw)) l (ground (arith, h))

fold_lines-field :
    (k : Flag) (v : VerifyResult) (queried : Text) (ls : List Text)
    → field_of k (fold_lines v queried ls) ≡ (field_of k v || some_report k queried ls)
unfolding fold_lines
fold_lines-field k v queried [] = ground arith
fold_lines-field k v queried (raw ∷ ls) = elim (Option-cases (looked_at raw)) [
  | inl q ↦ rw (q, fold_lines) (fold_lines-field k v queried ls)
  | inr (l, q) ↦
      rw (q, fold_lines)
        (ground (
          arith,
          fold_lines-field k (on_line v queried l) queried ls,
          on_line-field k v queried l (looked_at-IsWide raw l q),
        ))
]

fresh-field : (k : Flag) (pkg queried out : Text) → field_of k (started pkg queried out) ≡ false
fresh-field size pkg queried out = refl
fresh-field perms pkg queried out = refl
fresh-field hash pkg queried out = refl
fresh-field owner pkg queried out = refl
fresh-field group pkg queried out = refl
fresh-field mtime pkg queried out = refl

-- Each of the six flags of the result is raised exactly if some line of the output that can be parsed
-- is for the queried path and has the flag's letter at its place: the flags of other files of the
-- package never count.
pub parse_rpm_verify-field :
    (k : Flag) (out pkg queried : Text)
    → field_of k (parse_rpm_verify out pkg queried)
      ≡ some_report k queried (split (λ c. c == b'\n') out)
unfolding parse_rpm_verify
parse_rpm_verify-field k out pkg queried =
    fold_lines-field k (started pkg queried out) queried (split (λ c. c == b'\n') out)
    ∙ rw (fresh-field k pkg queried out) refl

-- For a package name that is no safe argument, Verify of rpm does not call the runner, and its error
-- says that the argument is invalid. For any other, what the command wrote is parsed also where it
-- failed, and there is an error exactly if the runner had one.
pub rpm_verify_lem {ℓ} :
    {R : Type ℓ} (run : Runner R) (r : R) (pkg path : Text)
    → (¬ IsSafeArg (untrusted pkg)
        → ((rpm_verify run r pkg path).1 ≡ r) × Fails invalid_arg (rpm_verify run r pkg path).0.err)
      × (IsSafeArg (untrusted pkg)
          → ((rpm_verify run r pkg path).1 ≡ (run r (command (codes "rpm") (codes "-V") pkg)).1)
            × ((rpm_verify run r pkg path).0.value
                ≡ parse_rpm_verify
                    (run r (command (codes "rpm") (codes "-V") pkg)).0.value.stdout
                    pkg
                    path)
            × (((rpm_verify run r pkg path).0.err ≡ none)
                ↔ ((run r (command (codes "rpm") (codes "-V") pkg)).0.err ≡ none)))
unfolding rpm_verify verify_with is
rpm_verify_lem run r pkg path = (
  λ unsafe. elim (Option-cases (validate (untrusted pkg))) [
    | inl q ↦ absurd (unsafe ((validate_iff (untrusted pkg)).0 q))
    | inr (e, q) ↦ rw (q, verify_with) (refl, validate_fails (untrusted pkg) e q)
  ],
  λ safe. rw ((validate_iff (untrusted pkg)).1 safe, verify_with) (refl, refl, ground arith),
)
