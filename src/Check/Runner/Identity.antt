-- ===== src/Check/Runner/Identity.antt =====
-- Whose results the report of Run in check/runner.go holds.
use copyfail_validation.Base.{ℕ, List, [], ◌∷◌, true, ◌≡◌, inl, inr, All}
use copyfail_validation.Report.{Result}
use copyfail_validation.Check.Execute.{
  Check, HasIdentity, IsNamed, execute_check-HasIdentity, new_cancelled_result-HasIdentity,
}
use copyfail_validation.Check.Runner.{RunState, stamped, Reach}
use copyfail_validation.Check.Runner.Invariant.{Executed}
use copyfail_validation.Check.Runner.Safety.{results, Reports, Attributed, results-Reports}

Executed-HasIdentity : (c : Check) (r : Result) → IsNamed c → Executed c r → HasIdentity c r
unfolding stamped
Executed-HasIdentity c r n x =
    let h = execute_check-HasIdentity c x.at n in
    let stamp : HasIdentity c (stamped c x.at x.ms) = record {
      id_set = h.id_set;
      title_set = h.title_set;
      severity_set = h.severity_set;
      id_source = h.id_source;
    } in
    rw x.is stamp

Attributed-HasIdentity : (c : Check) (r : Result) → IsNamed c → Attributed c r → HasIdentity c r
Attributed-HasIdentity c r n (inl x) = Executed-HasIdentity c r n x
Attributed-HasIdentity c r n (inr a) = rw a.is (new_cancelled_result-HasIdentity c a.at a.parent n)

Reports-weaken :
    (P Q : Check → Result → Type 0) (cs : List Check) (rs : List Result)
    → ((c : Check) (r : Result) → IsNamed c → P c r → Q c r)
    → All IsNamed cs
    → Reports P cs rs
    → Reports Q cs rs
Reports-weaken P Q [] [] w n h = tt
Reports-weaken P Q [] (r ∷ rs) w n h = h
Reports-weaken P Q (c ∷ cs) [] w n h = h
Reports-weaken P Q (c ∷ cs) (r ∷ rs) w n h = (w c r n.0 h.0, Reports-weaken P Q cs rs w n.1 h.1)

-- When Run has returned, each result has an id, a title and a severity, also where the check panicked,
-- was abandoned or returned the zero result, provided every check has all three. Its id is that of the
-- check in its place, or else the id of the result that the Run of that check returned.
pub results-HasIdentity :
    {limit : ℕ} {checks : List Check} {s : RunState}
    → Reach limit checks s
    → s.frozen ≡ true
    → All IsNamed checks
    → Reports HasIdentity checks (results s)
results-HasIdentity {checks = cs} {s = s} r fr n =
    Reports-weaken Attributed HasIdentity cs (results s) Attributed-HasIdentity n
      (results-Reports r fr).0
