-- ===== src/Kernelmod/DryRun.antt =====
-- internal/kernelmod/modprobe.go: the dry run of modprobe and what its output says.
use copyfail_validation.Base.{
  List, [], ◌∷◌, ◌++◌, Bool, true, false, Option, none, some, is_empty, ◌==◌, if◌then◌else◌, ◌≡◌,
  ◌↔◌, refl, ap, Bool-cases, Option-cases, inl, inr, All,
}
use copyfail_validation.Base.Int.{pos}
use copyfail_validation.Text.{Text, codes, equal, trim_space, split}
use copyfail_validation.Text.Laws.{equal_iff}
use copyfail_validation.Errors.{Error, Outcome, Sentinel, is, invalid_arg, wrap, str, quoted, lit}
use copyfail_validation.Exec.{Cmd, Result, trusted, untrusted, validate}
use copyfail_validation.Exec.Safety.{IsSafeArg, validate_iff, validate_fails, Fails}

pub record DryRun : Type 0 where
  pub resolved_to : Text
  pub raw_output : Text
  pub blocked : Bool

abbrev pub blocked_target : Text
blocked_target = codes "install /bin/false"

-- The loop of parseDryRun over the lines of the output.
unfoldable pub first_line : DryRun → List Text → DryRun
first_line dry [] = dry
first_line dry (line ∷ rest) =
    let skipped = first_line dry rest in
    let trimmed = trim_space line in
    if is_empty trimmed
    then skipped
    else record dry { resolved_to = trimmed; blocked = equal trimmed blocked_target }

unfoldable pub parse_dry_run : Text → DryRun
unfolding first_line
parse_dry_run stdout =
    first_line (record { resolved_to = []; raw_output = stdout; blocked = false })
      (split (λ c. c == b'\n') stdout)

abbrev pub dry_run_cmd : Text → Cmd
dry_run_cmd name = record {
  name = codes "modprobe";
  args = trusted (codes "-n") ∷ trusted (codes "-v") ∷ untrusted name ∷ [];
  env = none;
  timeout = pos 0;
}

abbrev run_error : Text → Option Error → Option Error
run_error name none = none
run_error name (some e) = some (wrap (lit "kernelmod: modprobe -n -v " ++ str name ∷ lit ": ") e)

-- What DryRunModule returns, and the runner it leaves behind: a runner is a function from its state
-- and a command to the outcome and the next state.
unfoldable pub dry_run_module {ℓ} :
    {R : Type ℓ} → (R → Cmd → Outcome Result × R) → R → Text → Outcome DryRun × R
unfolding parse_dry_run
dry_run_module run r name = elim (validate (untrusted name)) [
  | some e ↦ (
    record {
      value = record { resolved_to = []; raw_output = []; blocked = false };
      err = some (wrap (lit "kernelmod: modprobe -n -v " ++ quoted name ∷ lit ": ") e);
    },
    r,
  )
  | none ↦
      let (res, s) = run r (dry_run_cmd name) in
      (record { value = parse_dry_run res.value.stdout; err = run_error name res.err }, s)
]

-- What the first line with something on it says: none, or the line that stands first.
pub data Resolves (lines : List Text) (target : Text) : Type 0 where
  nothing : All (λ l. is_empty (trim_space l) ≡ true) lines → target ≡ [] → Resolves lines target
  first :
      (front : List Text) (l : Text) (back : List Text)
      → lines ≡ front ++ l ∷ back
      → All (λ k. is_empty (trim_space k) ≡ true) front
      → is_empty (trim_space l) ≡ false
      → target ≡ trim_space l
      → Resolves lines target

Resolves-skip :
    {ls : List Text} {t : Text} (l : Text)
    → is_empty (trim_space l) ≡ true
    → Resolves ls t
    → Resolves (l ∷ ls) t
Resolves-skip l b (nothing h e) = nothing (b, h) e
Resolves-skip l b (first f k g s h w e) = first (l ∷ f) k g (ap (◌∷◌ l) s) (b, h) w e

-- The loop, from a value that has resolved nothing.
first_line-Resolves :
    (dry : DryRun) (ls : List Text)
    → dry.resolved_to ≡ []
    → dry.blocked ≡ false
    → Resolves ls (first_line dry ls).resolved_to
      × ((first_line dry ls).raw_output ≡ dry.raw_output)
      × ((first_line dry ls).blocked ≡ equal (first_line dry ls).resolved_to blocked_target)
unfolding first_line equal
first_line-Resolves dry [] n b = (nothing tt n, refl, rw (n, b) refl)
first_line-Resolves dry (l ∷ ls) n b = elim (Bool-cases (is_empty (trim_space l))) [
  | inl e ↦ let (r, raw, bl) = first_line-Resolves dry ls n b in rw e (Resolves-skip l e r, raw, bl)
  | inr w ↦ rw w (first [] l ls refl tt w refl, refl, refl)
]

-- parseDryRun keeps the output as it is, resolves to its first line that is not blank, trimmed (to
-- nothing if every line is blank), and says blocked exactly if that line is `install /bin/false`.
pub parse_dry_run-Resolves :
    (out : Text)
    → Resolves (split (λ c. c == b'\n') out) (parse_dry_run out).resolved_to
      × ((parse_dry_run out).raw_output ≡ out)
      × (((parse_dry_run out).blocked ≡ true) ↔ ((parse_dry_run out).resolved_to ≡ blocked_target))
unfolding parse_dry_run
parse_dry_run-Resolves out =
    let (r, raw, b) =
      first_line-Resolves (record { resolved_to = []; raw_output = out; blocked = false })
        (split (λ c. c == b'\n') out) refl refl in
    (r, raw, rw b (equal_iff (parse_dry_run out).resolved_to blocked_target))

run_error_iff : (name : Text) (e : Option Error) → (run_error name e ≡ none) ↔ (e ≡ none)
run_error_iff name none = (λ h. h, λ h. h)
run_error_iff name (some e) = (λ h. absurd (cc), λ h. absurd (cc))

run_error_fails :
    (s : Sentinel) (name : Text) (e : Option Error) → Fails s e → Fails s (run_error name e)
unfolding is
run_error_fails s name none f = f
run_error_fails s name (some e) f = f

-- A module name that is no safe argument never reaches the runner, which is left as it was, and the
-- error says that the argument is invalid. Any other name is handed to the runner exactly once; what
-- the command wrote is parsed whether it failed or not, and there is an error exactly if the runner
-- had one, with every sentinel of its chain.
pub dry_run_module_lem {ℓ} :
    {R : Type ℓ} (run : R → Cmd → Outcome Result × R) (r : R) (name : Text)
    → (¬ IsSafeArg (untrusted name)
        → ((dry_run_module run r name).1 ≡ r) × Fails invalid_arg (dry_run_module run r name).0.err)
      × (IsSafeArg (untrusted name)
          → ((dry_run_module run r name).1 ≡ (run r (dry_run_cmd name)).1)
            × ((dry_run_module run r name).0.value
                ≡ parse_dry_run (run r (dry_run_cmd name)).0.value.stdout)
            × (((dry_run_module run r name).0.err ≡ none)
                ↔ ((run r (dry_run_cmd name)).0.err ≡ none))
            × ((s : Sentinel)
                → Fails s (run r (dry_run_cmd name)).0.err
                → Fails s (dry_run_module run r name).0.err))
unfolding dry_run_module is
dry_run_module_lem run r name = (
  λ unsafe. elim (Option-cases (validate (untrusted name))) [
    | inl q ↦ absurd (unsafe ((validate_iff (untrusted name)).0 q))
    | inr (e, q) ↦ rw (q, dry_run_module) (refl, validate_fails (untrusted name) e q)
  ],
  λ safe.
      rw ((validate_iff (untrusted name)).1 safe, dry_run_module)
        (
          refl,
          refl,
          run_error_iff name (run r (dry_run_cmd name)).0.err,
          λ s. run_error_fails s name (run r (dry_run_cmd name)).0.err,
        ),
)
