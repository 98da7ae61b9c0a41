-- ===== src/Check/Runner/Invariant/Steps.antt =====
-- Every step keeps the invariant of the runner.
use native.Mathlib.Numerals.{add-one}
use copyfail_validation.Base.{
  ℕ, ◌+◌, ◌-◌, ◌<◌, List, [], ◌∷◌, ◌++◌, Bool, true, false, some, is_some, ◌≡◌, inl, inr, refl, sym,
  ap, ◌∙◌, arith, length, All,
}
use copyfail_validation.Errors.{Error}
use copyfail_validation.Report.{Result}
use copyfail_validation.Check.Execute.{Check}
use copyfail_validation.Check.Runner.{
  Worker, idle, spawned, recorded, released, finished, Slot, Phase, looping, waiting, closed,
  RunState, record_result, Step, spawn, bail, loop_end, close, execute, write, release, finish,
  cancel, leave, Reach, here, next,
}
use copyfail_validation.Check.Runner.Slots.{is_idle, StartedTo, StartedTo-spawn}
use copyfail_validation.Check.Runner.Invariant.{
  cancelled-SlotInv, SlotInv, holds, waits, holds_of, waits_of, has_recorded, SlotInv, PhaseInv,
  Inv, Inv-start, move-SlotInv, record_result-SlotInv, cancelled-SlotInv,
}
use copyfail_validation.Check.Runner.Invariant.Change.{
  weight-le-total, here-SlotInv, tokens_at, group_at, change-Inv, worker-Inv,
}
use copyfail_validation.Check.Runner.Invariant.Return.{return-Inv}

-- The dispatcher leaves its loop, or closes the channel.
phase-Inv :
    {limit : ℕ} {checks : List Check} (s : RunState) (p : Phase)
    → Inv limit checks s
    → PhaseInv p s
    → Inv limit checks (record s { phase = p })
phase-Inv s looping inv h = record {
  checks_kept = inv.checks_kept;
  tokens = inv.tokens;
  bound = inv.bound;
  group = inv.group;
  started = inv.started;
  slots = inv.slots;
  phase = tt;
}
phase-Inv s waiting inv h = record {
  checks_kept = inv.checks_kept;
  tokens = inv.tokens;
  bound = inv.bound;
  group = inv.group;
  started = inv.started;
  slots = inv.slots;
  phase = h;
}
phase-Inv s closed inv h = record {
  checks_kept = inv.checks_kept;
  tokens = inv.tokens;
  bound = inv.bound;
  group = inv.group;
  started = inv.started;
  slots = inv.slots;
  phase = h;
}

holds_idle : (w : Worker) → is_idle w ≡ true → holds_of w ≡ 0
holds_idle idle i = refl
holds_idle _ i = absurd (cc)

waits_idle : (w : Worker) → is_idle w ≡ true → waits_of w ≡ 0
waits_idle idle i = refl
waits_idle _ i = absurd (cc)

recorded_idle : (w : Worker) → is_idle w ≡ true → has_recorded w ≡ false
recorded_idle idle i = refl
recorded_idle _ i = absurd (cc)

worker-record_result :
    (fr : Bool) (r : Result) (x : Slot) → (record_result fr r x).worker ≡ recorded
unfolding record_result
worker-record_result fr r x = ground arith

check-record_result : (fr : Bool) (r : Result) (x : Slot) → (record_result fr r x).check ≡ x.check
unfolding record_result
check-record_result fr r x = ground arith

spawn-Inv :
    {limit : ℕ} {checks : List Check} (s : RunState) (inv : Inv limit checks s) (f : List Slot)
    (x : Slot) (b : List Slot) (e : s.slots ≡ f ++ x ∷ b)
    → s.phase ≡ looping
    → length f ≡ s.next
    → s.tokens < limit
    → Inv limit checks (record s {
      slots = f ++ record x { worker = spawned } ∷ b;
      tokens = s.tokens + 1;
      group = s.group + 1;
      next = s.next + 1;
    })
spawn-Inv s inv f x b e p at room =
    let st : StartedTo (length f) (f ++ x ∷ b) = rw at (rw e at inv.started) in
    let (i, started) = StartedTo-spawn f x (record x { worker = spawned }) b refl st in
    let slot = here-SlotInv s inv f x b e in
    change-Inv s inv f x b e (record x { worker = spawned }) (s.tokens + 1) (s.group + 1)
      (s.next + 1) refl (omega (arith, holds_idle x.worker i)) (omega arith)
      (omega (arith, waits_idle x.worker i)) (rw (← at) (rw add-one started))
      (move-SlotInv _ _ x spawned (sym (recorded_idle x.worker i)) (λ r z. absurd (cc)) slot)
      (rw p tt)

All-cancelled : (fr ca : Bool) (xs : List Slot) → All (SlotInv fr ca) xs → All (SlotInv fr true) xs
All-cancelled fr ca [] h = tt
All-cancelled fr ca (x ∷ xs) h = (cancelled-SlotInv fr ca x h.0, All-cancelled fr ca xs h.1)

cancel-Inv :
    {limit : ℕ} {checks : List Check} (s : RunState) (er : Error)
    → Inv limit checks s
    → Inv limit checks (record s { cancelled = some er })
cancel-Inv s er inv = record {
  checks_kept = inv.checks_kept;
  tokens = inv.tokens;
  bound = inv.bound;
  group = inv.group;
  started = inv.started;
  slots = All-cancelled s.frozen (is_some s.cancelled) s.slots inv.slots;
  phase = later s.phase inv.phase;
}
  where
    later : (p : Phase) → PhaseInv p s → PhaseInv p (record s { cancelled = some er })
    later looping h = tt
    later waiting h = inr refl
    later closed h = (inr refl, h.1)

Step-Inv :
    {limit : ℕ} {checks : List Check} {s t : RunState}
    → Step limit s t
    → Inv limit checks s
    → Inv limit checks t
Step-Inv {s} (spawn f x b p e at room q) inv = rw q (spawn-Inv s inv f x b e p at room)
Step-Inv {s} (bail er p lt c q) inv = rw q (phase-Inv s waiting inv (inr (ap is_some c)))
Step-Inv {s} (loop_end p at q) inv = rw q (phase-Inv s waiting inv (inl at))
Step-Inv {s} (close p g q) inv = rw q (phase-Inv s closed inv (rw p at inv.phase, g))
Step-Inv {s} (execute f x b now ms e w q) inv = rw q (
    worker-Inv s inv f x b e _ s.tokens s.group refl (ap waits_of w) (sym (ap is_idle w))
      (omega (arith, ap holds_of w)) inv.bound (omega (arith, ap waits_of w))
      (move-SlotInv _ _ x _ (sym (ap has_recorded w))
        (λ r' z. record { at = now; ms = ms; is = cc }) (here-SlotInv s inv f x b e)))
Step-Inv {s} (write f x b r e w q) inv =
    let y = worker-record_result s.frozen r x in
    rw q (
      worker-Inv s inv f x b e _ s.tokens s.group (check-record_result s.frozen r x) (ap waits_of w)
        (ap is_idle y ∙ sym (ap is_idle w)) (omega (arith, ap holds_of w, ap holds_of y)) inv.bound
        (omega (arith, ap waits_of w, ap waits_of y))
        (record_result-SlotInv s.frozen _ x r w (here-SlotInv s inv f x b e)))
Step-Inv {s} (release f x b e w q) inv = rw q (
    worker-Inv s inv f x b e _ (s.tokens - 1) s.group refl (ap waits_of w) (sym (ap is_idle w))
      (omega (arith, ap holds_of w, weight-le-total holds f x b, tokens_at s inv f x b e))
      (omega (arith, inv.bound)) (omega (arith, ap waits_of w))
      (move-SlotInv _ _ x released (sym (ap has_recorded w)) (λ r z. absurd (cc))
        (here-SlotInv s inv f x b e)))
Step-Inv {s} (finish f x b e w q) inv = rw q (
    worker-Inv s inv f x b e _ s.tokens (s.group - 1) refl (ap waits_of w) (sym (ap is_idle w))
      (omega (arith, ap holds_of w)) inv.bound
      (omega (arith, ap waits_of w, weight-le-total waits f x b, group_at s inv f x b e))
      (move-SlotInv _ _ x finished (sym (ap has_recorded w)) (λ r z. absurd (cc))
        (here-SlotInv s inv f x b e)))
Step-Inv {s} (cancel er c q) inv = rw q (cancel-Inv s er inv)
Step-Inv {s} (leave now fr woke q) inv = rw q (return-Inv s now inv fr woke)

-- The invariant holds in every reachable state.
pub Reach-Inv :
    {limit : ℕ} {checks : List Check} {s : RunState} → Reach limit checks s → Inv limit checks s
Reach-Inv {limit} {checks} here = Inv-start limit checks
Reach-Inv (next r st) = Step-Inv st (Reach-Inv r)
