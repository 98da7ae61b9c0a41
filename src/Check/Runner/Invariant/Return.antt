-- ===== src/Check/Runner/Invariant/Return.antt =====
-- Run returns: the backfill keeps the invariant.
use copyfail_validation.Base.{
  ℕ, List, [], ◌∷◌, Bool, true, false, Option, is_some, ◌≡◌, ◌⊎◌, inl, inr, refl, sym, ap, ◌∙◌,
  arith, map, All,
}
use copyfail_validation.Errors.{Error}
use copyfail_validation.Report.{Time}
use copyfail_validation.Check.Execute.{Check}
use copyfail_validation.Check.Runner.{
  Worker, idle, finished, Slot, Phase, looping, waiting, closed, RunState, backfill,
}
use copyfail_validation.Check.Runner.Slots.{
  total, total-map, length-map, is_idle, StartedTo, StartedTo-map, StartedTo-all,
}
use copyfail_validation.Check.Runner.Invariant.{
  holds, waits, holds_of, waits_of, has_recorded, SlotInv, PhaseInv, PastLoop, Inv,
  backfill-SlotInv,
}

-- At the end, without a cancellation, every worker has recorded its result.
all_recorded :
    (fr ca : Bool) (xs : List Slot)
    → All (λ x. is_idle x.worker ≡ false) xs
    → total waits xs ≡ 0
    → All (SlotInv false ca) xs
    → All (λ x. x.completed ≡ true) xs
unfolding total
all_recorded fr ca [] i w h = tt
all_recorded fr ca (x ∷ xs) i w h = (
  h.0.flag refl ∙ recorded_of x.worker i.0 (omega (arith, w)),
  all_recorded fr ca xs i.1 (omega (arith, w)) h.1,
)
  where
    recorded_of : (v : Worker) → is_idle v ≡ false → waits_of v ≡ 0 → has_recorded v ≡ true
    recorded_of finished i w = refl
    recorded_of idle i w = absurd (cc)
    recorded_of _ i w = absurd (omega arith)

backfill_all :
    (ca : Bool) (now : Time) (parent : Option Error) (xs : List Slot)
    → (ca ≡ false → All (λ (x : Slot). x.completed ≡ true) xs)
    → All (SlotInv false ca) xs
    → All (SlotInv true ca) (map (backfill now parent) xs)
backfill_all ca now parent [] c h = tt
backfill_all ca now parent (x ∷ xs) c h = (
  backfill-SlotInv ca now parent x (λ z. (c z).0) h.0,
  backfill_all ca now parent xs (λ z. (c z).1) h.1,
)

worker-backfill :
    (now : Time) (parent : Option Error) (x : Slot) → (backfill now parent x).worker ≡ x.worker
unfolding backfill
worker-backfill now parent x = ground arith

check-backfill :
    (now : Time) (parent : Option Error) (x : Slot) → (backfill now parent x).check ≡ x.check
unfolding backfill
check-backfill now parent x = ground arith

checks_backfill :
    (now : Time) (parent : Option Error) (xs : List Slot)
    → map (λ (x : Slot). x.check) (map (backfill now parent) xs) ≡ map (λ (x : Slot). x.check) xs
checks_backfill now parent [] = refl
checks_backfill now parent (x ∷ xs) =
    rw (check-backfill now parent x, checks_backfill now parent xs)

done_at :
    (s : RunState)
    → is_some s.cancelled ≡ false
    → All (SlotInv false (is_some s.cancelled)) s.slots
    → StartedTo s.next s.slots
    → s.group ≡ total waits s.slots
    → PhaseInv closed s
    → All (λ (x : Slot). x.completed ≡ true) s.slots
done_at s z h st g (inr c, n) = absurd (cc)
done_at s z h st g (inl at, n) =
    all_recorded false (is_some s.cancelled) s.slots (StartedTo-all s.slots (rw at at st))
      (sym g ∙ n) h

-- Only the slots, by the backfill, and the flag change when Run returns.
pub return-Inv :
    {limit : ℕ} {checks : List Check} (s : RunState) (now : Time)
    → Inv limit checks s
    → s.frozen ≡ false
    → (s.phase ≡ closed) ⊎ (is_some s.cancelled ≡ true)
    → Inv limit checks (record s { slots = map (backfill now s.cancelled) s.slots; frozen = true })
return-Inv s now inv fr woke = record {
  checks_kept = checks_backfill now s.cancelled s.slots ∙ inv.checks_kept;
  tokens =
      inv.tokens
      ∙ sym (total-map holds _ s.slots (λ x. ap holds_of (worker-backfill now s.cancelled x)));
  bound = inv.bound;
  group =
      inv.group
      ∙ sym (total-map waits _ s.slots (λ x. ap waits_of (worker-backfill now s.cancelled x)));
  started = StartedTo-map s.next _ s.slots (worker-backfill now s.cancelled) inv.started;
  slots =
      backfill_all (is_some s.cancelled) now s.cancelled s.slots (all_done woke)
        (rw fr at inv.slots);
  phase = phase_map s.phase inv.phase;
}
  where
    all_done :
        (s.phase ≡ closed) ⊎ (is_some s.cancelled ≡ true)
        → is_some s.cancelled ≡ false
        → All (λ (x : Slot). x.completed ≡ true) s.slots
    all_done (inr c) z = absurd (cc)
    all_done (inl p) z = done_at s z (rw fr at inv.slots) inv.started inv.group (rw p at inv.phase)

    past_map :
        PastLoop s
        → PastLoop (record s { slots = map (backfill now s.cancelled) s.slots; frozen = true })
    past_map (inl q) = inl (q ∙ sym (length-map _ s.slots))
    past_map (inr c) = inr c

    phase_map :
        (p : Phase)
        → PhaseInv p s
        → PhaseInv p (record s { slots = map (backfill now s.cancelled) s.slots; frozen = true })
    phase_map looping h = tt
    phase_map waiting h = past_map h
    phase_map closed h = (past_map h.0, h.1)
