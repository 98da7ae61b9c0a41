-- ===== src/Check/Runner/Safety.antt =====
-- What the runner guarantees to its caller: the bound on parallel checks, the order of the starts,
-- and a report that is complete, in order and final.
use copyfail_validation.Base.{
  ℕ, zero, suc, ◌≤◌, List, [], ◌∷◌, ◌++◌, Bool, true, false, none, is_some, ◌≡◌, ◌⊎◌, refl, sym, ap,
  ◌∙◌, arith, map, All,
}
use copyfail_validation.Report.{Result}
use copyfail_validation.Check.Execute.{Check}
use copyfail_validation.Check.Runner.{
  Slot, RunState, record_result, Step, spawn, bail, loop_end, close, execute, write, release,
  finish, cancel, leave, Reach,
}
use copyfail_validation.Check.Runner.Slots.{total, is_idle, StartedTo}
use copyfail_validation.Check.Runner.Invariant.{Executed, Abandoned, SlotInv, Inv, holds}
use copyfail_validation.Check.Runner.Invariant.Steps.{Reach-Inv}

-- Workers that were started and have not released their token.
abbrev pub running : RunState → ℕ
running s = total holds s.slots

-- In every reachable state at most `limit` checks are running, the capacity of the semaphore.
pub running_le_limit :
    {limit : ℕ} {checks : List Check} {s : RunState} → Reach limit checks s → running s ≤ limit
running_le_limit r = let inv = Reach-Inv r in omega (arith, inv.tokens, inv.bound)

started_before :
    (k : ℕ) (f : List Slot) (x : Slot) (b : List Slot)
    → StartedTo k (f ++ x ∷ b)
    → is_idle x.worker ≡ false
    → All (λ y. is_idle y.worker ≡ false) f
started_before k [] x b h i = tt
started_before zero (y ∷ f) x b h i = absurd (still_idle f h.1)
  where
    still_idle : (g : List Slot) → StartedTo 0 (g ++ x ∷ b) → ⊥
    still_idle [] h = absurd (cc)
    still_idle (z ∷ g) h = still_idle g h.1
started_before (suc k) (y ∷ f) x b h i = (h.0, started_before k f x b h.1 i)

-- Checks start in the order of the input: once a check has started, so have all before it.
pub starts_in_order :
    {limit : ℕ} {checks : List Check} {s : RunState}
    → Reach limit checks s
    → (f : List Slot) (x : Slot) (b : List Slot) → s.slots ≡ f ++ x ∷ b
    → is_idle x.worker ≡ false
    → All (λ y. is_idle y.worker ≡ false) f
starts_in_order {s} r f x b e i = started_before s.next f x b (rw e at (Reach-Inv r).started) i

-- The Results of the report.
abbrev pub results : RunState → List Result
results s = map (λ (x : Slot). x.result) s.slots

-- One result for each check, in the order of the checks.
abbrev pub Reports : (Check → Result → Type 0) → List Check → List Result → Type 0
Reports P [] [] = Unit
Reports P [] (r ∷ rs) = ⊥
Reports P (c ∷ cs) [] = ⊥
Reports P (c ∷ cs) (r ∷ rs) = P c r × Reports P cs rs

Reports-slots :
    (P : Check → Result → Type 0) (xs : List Slot)
    → All (λ x. P x.check x.result) xs
    → Reports P (map (λ (x : Slot). x.check) xs) (map (λ (x : Slot). x.result) xs)
Reports-slots P [] h = tt
Reports-slots P (x ∷ xs) h = (h.0, Reports-slots P xs h.1)

abbrev pub Attributed : Check → Result → Type 0
Attributed c r = Executed c r ⊎ Abandoned c r

all-Attributed :
    (ca : Bool) (xs : List Slot)
    → All (SlotInv true ca) xs
    → All (λ x. Attributed x.check x.result) xs
all-Attributed ca [] h = tt
all-Attributed ca (x ∷ xs) h = (h.0.own (h.0.full refl), all-Attributed ca xs h.1)

all-Executed :
    (xs : List Slot) → All (SlotInv true false) xs → All (λ x. Executed x.check x.result) xs
all-Executed [] h = tt
all-Executed (x ∷ xs) h = (h.0.genuine refl (h.0.full refl), all-Executed xs h.1)

-- When Run has returned, its results are one for each check, in the order of the input: that of an
-- execution of that check, or one that says the check was abandoned. Without a cancellation each
-- is that of an execution.
pub results-Reports :
    {limit : ℕ} {checks : List Check} {s : RunState}
    → Reach limit checks s
    → s.frozen ≡ true
    → Reports Attributed checks (results s)
      × (s.cancelled ≡ none → Reports Executed checks (results s))
results-Reports {limit} {checks} {s} r fr = (
  rw (← inv.checks_kept) (Reports-slots Attributed s.slots (all-Attributed _ s.slots slots)),
  λ c.
      rw (← inv.checks_kept)
        (Reports-slots Executed s.slots (all-Executed s.slots (rw c at slots))),
)
  where
    inv : Inv limit checks s
    inv = Reach-Inv r

    slots : All (SlotInv true (is_some s.cancelled)) s.slots
    slots = rw fr at inv.slots

map_replace :
    (f : List Slot) (x y : Slot) (b : List Slot)
    → y.result ≡ x.result
    → map (λ (z : Slot). z.result) (f ++ y ∷ b) ≡ map (λ (z : Slot). z.result) (f ++ x ∷ b)
map_replace [] x y b e = rw e
map_replace (z ∷ f) x y b e = ap (◌∷◌ z.result) (map_replace f x y b e)

result-record_result : (r : Result) (x : Slot) → (record_result true r x).result ≡ x.result
unfolding record_result
result-record_result r x = refl

Step-results :
    {limit : ℕ} {s t : RunState}
    → Step limit s t
    → s.frozen ≡ true
    → (t.frozen ≡ true) × (results t ≡ results s)
Step-results {s} (spawn f x b p e at room q) fr =
    rw q (fr, map_replace f x _ b refl ∙ sym (ap (map (λ (z : Slot). z.result)) e))
Step-results {s} (bail er p lt c q) fr = rw q (fr, refl)
Step-results {s} (loop_end p at q) fr = rw q (fr, refl)
Step-results {s} (close p g q) fr = rw q (fr, refl)
Step-results {s} (execute f x b now ms e w q) fr =
    rw q (fr, map_replace f x _ b refl ∙ sym (ap (map (λ (z : Slot). z.result)) e))
Step-results {s} (write f x b r e w q) fr =
    rw (q, fr)
      (
        refl,
        map_replace f x _ b (result-record_result r x) ∙ sym (ap (map (λ (z : Slot). z.result)) e),
      )
Step-results {s} (release f x b e w q) fr =
    rw q (fr, map_replace f x _ b refl ∙ sym (ap (map (λ (z : Slot). z.result)) e))
Step-results {s} (finish f x b e w q) fr =
    rw q (fr, map_replace f x _ b refl ∙ sym (ap (map (λ (z : Slot). z.result)) e))
Step-results {s} (cancel er c q) fr = rw q (fr, refl)
Step-results {s} (leave now un woke q) fr = absurd (cc)

-- Any number of steps.
pub data Later (limit : ℕ) (s : RunState) : RunState → Type 0 where
  same : Later limit s s
  more : {t u : RunState} → Later limit s t → Step limit t u → Later limit s u

-- What Run has returned is final: no step after the return, of a worker that was left behind or of
-- the dispatcher, changes a result.
pub results_final :
    {limit : ℕ} {s t : RunState}
    → Later limit s t
    → s.frozen ≡ true
    → (t.frozen ≡ true) × (results t ≡ results s)
results_final same fr = (fr, refl)
results_final (more l st) fr =
    let (fr', e) = results_final l fr in let (fr'', e') = Step-results st fr' in (fr'', e' ∙ e)
