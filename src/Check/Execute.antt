-- ===== src/Check/Execute.antt =====
-- executeCheck and newCancelledResult of check/runner.go: one check, from the call of Applicable
-- to the result that is recorded for it.
use copyfail_validation.Base.{
  ◌++◌, Bool, true, false, Option, none, some, ◌≡◌, ◌⊎◌, inl, inr, refl, Bool-cases, arith,
  is_empty, ◌==◌, if◌then◌else◌,
}
use copyfail_validation.Text.{Text}
use copyfail_validation.Errors.{Message, Error, lit}
use copyfail_validation.Report.{skip, error, Severity, Time, Result, zero_result}

-- What a call of a check's method comes to: it returns, or panics with a value.
pub data Call {ℓ} (A : Type ℓ) : Type ℓ where
  returns : A → Call A
  panics : Message → Call A

-- The interface Check. Its methods may depend on anything, the context too; since a run calls each of
-- them once at most, the record holds what they answer in the run at hand.
pub record Check : Type 0 where
  pub id : Text
  pub title : Text
  pub description : Text
  pub severity : Severity
  pub applicable : Call (Bool × Message)
  pub run : Call Result

-- The empty string as a severity.
unfoldable pub is_unset : Severity → Bool
is_unset (Severity.other t) = is_empty t
is_unset _ = false

-- The fields that a result must have are filled in where the check left them out.
unfoldable pub fill_in : Check → Time → Result → Result
unfolding is_unset
fill_in c now r = record r {
  check_id = if is_empty r.check_id then c.id else r.check_id;
  title = if is_empty r.title then c.title else r.title;
  severity = if is_unset r.severity then c.severity else r.severity;
  started_at = if r.started_at == 0 then now else r.started_at;
}

-- A result with the identity of its check.
abbrev pub identified : Check → Time → Result
identified c now = record zero_result {
  check_id = c.id;
  title = c.title;
  severity = c.severity;
  started_at = now;
  state = error;
}

-- The deferred recover.
unfoldable pub panicked : Check → Time → Message → Result
panicked c now value = record (identified c now) {
  detail = lit "check panicked: " ++ value;
  err = lit "panic: " ++ value;
}

unfoldable pub run_applicable : Check → Time → Call Result → Result
unfolding fill_in panicked
run_applicable c now (returns r) = fill_in c now r
run_applicable c now (panics v) = panicked c now v

unfoldable pub after_applicable : Check → Time → Call (Bool × Message) → Result
unfolding run_applicable panicked
after_applicable c now (panics v) = panicked c now v
after_applicable c now (returns (false, reason)) = record (identified c now) {
  state = skip;
  detail = reason;
}
after_applicable c now (returns (true, reason)) = run_applicable c now c.run

unfoldable pub execute_check : Check → Time → Result
unfolding after_applicable
execute_check c now = after_applicable c now c.applicable

abbrev error_text : Option Error → Message
error_text none = lit "<nil>"
error_text (some e) = e.message

unfoldable pub new_cancelled_result : Check → Time → Option Error → Result
new_cancelled_result c now parent = record (identified c now) {
  detail = lit "runner abandoned check: " ++ error_text parent;
  err = elim parent [
    | none ↦ lit "context canceled"
    | some e ↦ lit "check: parent context canceled: " ++ e.message
  ];
}

-- A result that a reader of the report can attribute: it has an id, a title and a severity, and its
-- id is that of the check, or else the id of the result that the check's own Run returned.
pub record HasIdentity (c : Check) (r : Result) : Type 0 where
  pub id_set : is_empty r.check_id ≡ false
  pub title_set : is_empty r.title ≡ false
  pub severity_set : is_unset r.severity ≡ false
  pub id_source :
      (r.check_id ≡ c.id) ⊎ ((q : Result) × (c.run ≡ returns q) × (r.check_id ≡ q.check_id))

-- A check that keeps the promises of its interface as to its own identity.
pub record IsNamed (c : Check) : Type 0 where
  pub id : is_empty c.id ≡ false
  pub title : is_empty c.title ≡ false
  pub severity : is_unset c.severity ≡ false

fill_in-HasIdentity :
    (c : Check) (now : Time) (q : Result)
    → IsNamed c
    → c.run ≡ returns q
    → HasIdentity c (fill_in c now q)
unfolding fill_in
fill_in-HasIdentity c now q n e = record {
  id_set = ground (arith, n.id);
  title_set = ground (arith, n.title);
  severity_set = ground (arith, n.severity);
  id_source = elim (Bool-cases (is_empty q.check_id)) [
    | inl t ↦ inl (rw t refl)
    | inr f ↦ inr (q, e, rw f refl)
  ];
}

panicked-HasIdentity :
    (c : Check) (now : Time) (value : Message) → IsNamed c → HasIdentity c (panicked c now value)
unfolding panicked
panicked-HasIdentity c now value n = record {
  id_set = n.id;
  title_set = n.title;
  severity_set = n.severity;
  id_source = inl refl;
}

run_applicable-HasIdentity :
    (c : Check) (now : Time) (answer : Call Result)
    → IsNamed c
    → c.run ≡ answer
    → HasIdentity c (run_applicable c now answer)
unfolding run_applicable
run_applicable-HasIdentity c now (returns q) n e = fill_in-HasIdentity c now q n e
run_applicable-HasIdentity c now (panics v) n e = panicked-HasIdentity c now v n

after_applicable-HasIdentity :
    (c : Check) (now : Time) (answer : Call (Bool × Message))
    → IsNamed c
    → HasIdentity c (after_applicable c now answer)
unfolding after_applicable
after_applicable-HasIdentity c now (panics v) n = panicked-HasIdentity c now v n
after_applicable-HasIdentity c now (returns (true, reason)) n =
    run_applicable-HasIdentity c now c.run n refl
after_applicable-HasIdentity c now (returns (false, reason)) n = record {
  id_set = n.id;
  title_set = n.title;
  severity_set = n.severity;
  id_source = inl refl;
}

pub execute_check-HasIdentity :
    (c : Check) (now : Time) → IsNamed c → HasIdentity c (execute_check c now)
unfolding execute_check
execute_check-HasIdentity c now n = after_applicable-HasIdentity c now c.applicable n

pub new_cancelled_result-HasIdentity :
    (c : Check) (now : Time) (parent : Option Error)
    → IsNamed c
    → HasIdentity c (new_cancelled_result c now parent)
unfolding new_cancelled_result
new_cancelled_result-HasIdentity c now parent n = record {
  id_set = n.id;
  title_set = n.title;
  severity_set = n.severity;
  id_source = inl refl;
}
