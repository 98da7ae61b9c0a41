-- ===== src/Check/Runner/Invariant/Change.antt =====
-- One slot changes: what is left to show of a worker's step.
use copyfail_validation.Base.{
  ℕ, ◌+◌, ◌≤◌, List, [], ◌∷◌, ◌++◌, is_some, ◌≡◌, inl, inr, sym, ap, ◌∙◌, arith, length, map,
}
use copyfail_validation.Check.Execute.{Check}
use copyfail_validation.Check.Runner.{Slot, Phase, looping, waiting, closed, RunState}
use copyfail_validation.Check.Runner.Slots.{
  total, total-replace, All-replace, All-here, length-replace, is_idle, StartedTo,
  StartedTo-replace,
}
use copyfail_validation.Check.Runner.Invariant.{holds, waits, SlotInv, PhaseInv, PastLoop, Inv}

checks_replace :
    (f : List Slot) (x y : Slot) (b : List Slot)
    → y.check ≡ x.check
    → map (λ (z : Slot). z.check) (f ++ y ∷ b) ≡ map (λ (z : Slot). z.check) (f ++ x ∷ b)
checks_replace [] x y b e = rw e
checks_replace (z ∷ f) x y b e = ap (◌∷◌ z.check) (checks_replace f x y b e)

pub weight-le-total :
    (w : Slot → ℕ) (f : List Slot) (x : Slot) (b : List Slot) → w x ≤ total w (f ++ x ∷ b)
unfolding total
weight-le-total w [] x b = omega arith
weight-le-total w (z ∷ f) x b = omega (arith, weight-le-total w f x b)

module _ {limit : ℕ} {checks : List Check} (s : RunState) (inv : Inv limit checks s) (f : List Slot)
    (x : Slot) (b : List Slot) (e : s.slots ≡ f ++ x ∷ b) where
  pub here-SlotInv : SlotInv s.frozen (is_some s.cancelled) x
  here-SlotInv = All-here (SlotInv s.frozen (is_some s.cancelled)) f x b (rw e at inv.slots)

  pub tokens_at : s.tokens ≡ total holds (f ++ x ∷ b)
  tokens_at = rw e at inv.tokens

  pub group_at : s.group ≡ total waits (f ++ x ∷ b)
  group_at = rw e at inv.group

  -- One slot changes, and with it the two counters and the dispatcher's index.
  pub change-Inv :
      (y : Slot) (k g n : ℕ)
      → y.check ≡ x.check
      → k + holds x ≡ s.tokens + holds y
      → k ≤ limit
      → g + waits x ≡ s.group + waits y
      → StartedTo n (f ++ y ∷ b)
      → SlotInv s.frozen (is_some s.cancelled) y
      → PhaseInv s.phase (record s { slots = f ++ y ∷ b; tokens = k; group = g; next = n })
      → Inv limit checks (record s { slots = f ++ y ∷ b; tokens = k; group = g; next = n })
  change-Inv y k g n c hk bound hg st si ph = record {
    checks_kept = checks_replace f x y b c ∙ rw e at inv.checks_kept;
    tokens = omega (arith, total-replace holds f x y b, tokens_at);
    bound = bound;
    group = omega (arith, total-replace waits f x y b, group_at);
    started = st;
    slots = All-replace (SlotInv s.frozen (is_some s.cancelled)) f x y b si (rw e at inv.slots);
    phase = ph;
  }

  past_keep :
      (y : Slot) (k g : ℕ)
      → PastLoop s
      → PastLoop (record s { slots = f ++ y ∷ b; tokens = k; group = g })
  past_keep y k g (inl q) = inl (q ∙ ap length e ∙ sym (length-replace f x y b))
  past_keep y k g (inr c) = inr c

  phase_keep :
      (p : Phase) (y : Slot) (k g : ℕ)
      → waits x ≡ 1
      → PhaseInv p s
      → PhaseInv p (record s { slots = f ++ y ∷ b; tokens = k; group = g })
  phase_keep looping y k g w h = tt
  phase_keep waiting y k g w h = past_keep y k g h
  phase_keep closed y k g w h = absurd (omega (arith, h.1, weight-le-total waits f x b, group_at))

  -- A worker that runs goes on.
  pub worker-Inv :
      (y : Slot) (k g : ℕ)
      → y.check ≡ x.check
      → waits x ≡ 1
      → is_idle y.worker ≡ is_idle x.worker
      → k + holds x ≡ s.tokens + holds y
      → k ≤ limit
      → g + waits x ≡ s.group + waits y
      → SlotInv s.frozen (is_some s.cancelled) y
      → Inv limit checks (record s { slots = f ++ y ∷ b; tokens = k; group = g })
  worker-Inv y k g c w i hk bound hg si =
      change-Inv y k g s.next c hk bound hg
        (StartedTo-replace s.next f x y b i (rw e at inv.started)) si
        (phase_keep s.phase y k g w inv.phase)
