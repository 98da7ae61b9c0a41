-- ===== src/Check/Runner/Invariant.antt =====
mod Change
mod Return
pub mod Steps
-- What holds in every state that a run reaches.
use copyfail_validation.Base.{
  ℕ, zero, suc, ◌+◌, ◌-◌, ◌≤◌, ◌<◌, List, [], ◌∷◌, ◌++◌, Bool, true, false, not, ◌&&◌, Option, none,
  some, is_some, ◌≡◌, ◌≢◌, ◌⊎◌, inl, inr, refl, sym, ap, ◌∙◌, arith, length, map, All, Bool-cases,
  if◌then◌else◌,
}
use copyfail_validation.Errors.{Error, Message}
use copyfail_validation.Report.{Time, Result}
use copyfail_validation.Check.Execute.{Check, Call, new_cancelled_result}
use copyfail_validation.Check.Runner.{
  Worker, idle, spawned, executed, recorded, released, finished, Slot, Phase, looping, waiting,
  closed, RunState, fresh, start, stamped, record_result, backfill, Step, spawn, bail, loop_end,
  close, execute, write, release, finish, cancel, leave, Reach, here, next,
}
use copyfail_validation.Check.Runner.Slots.{
  total, total-replace, total-map, All-replace, All-here, All-map, length-replace, is_idle,
  StartedTo, StartedTo-replace, StartedTo-spawn, StartedTo-map, StartedTo-all, StartedTo-le,
}

-- A worker holds a token from its start to its release, and counts in the group to its end.
abbrev pub holds_of : Worker → ℕ
holds_of spawned = 1
holds_of (executed r) = 1
holds_of recorded = 1
holds_of _ = 0

abbrev pub waits_of : Worker → ℕ
waits_of idle = 0
waits_of finished = 0
waits_of _ = 1

abbrev pub holds : Slot → ℕ
holds x = holds_of x.worker

abbrev pub waits : Slot → ℕ
waits x = waits_of x.worker

abbrev pub has_recorded : Worker → Bool
has_recorded recorded = true
has_recorded released = true
has_recorded finished = true
has_recorded _ = false

-- The result is that of an execution of the check, which its own methods answer.
pub record Executed (c : Check) (r : Result) : Type 0 where
  pub at : Time
  pub ms : ℕ
  pub is : r ≡ stamped c at ms

-- The result says that the check was abandoned.
pub record Abandoned (c : Check) (r : Result) : Type 0 where
  pub at : Time
  pub parent : Option Error
  pub is : r ≡ new_cancelled_result c at parent

pub record SlotInv (frozen cancelled : Bool) (x : Slot) : Type 0 where
  pub own : x.completed ≡ true → Executed x.check x.result ⊎ Abandoned x.check x.result
  pub flag : frozen ≡ false → x.completed ≡ has_recorded x.worker
  pub carried : (r : Result) → x.worker ≡ executed r → Executed x.check r
  pub full : frozen ≡ true → x.completed ≡ true
  pub genuine : cancelled ≡ false → x.completed ≡ true → Executed x.check x.result

abbrev pub PastLoop : RunState → Type 0
PastLoop s = (s.next ≡ length s.slots) ⊎ (is_some s.cancelled ≡ true)

abbrev pub PhaseInv : Phase → RunState → Type 0
PhaseInv looping s = Unit
PhaseInv waiting s = PastLoop s
PhaseInv closed s = PastLoop s × (s.group ≡ 0)

pub record Inv (limit : ℕ) (checks : List Check) (s : RunState) : Type 0 where
  pub checks_kept : map (λ (x : Slot). x.check) s.slots ≡ checks
  pub tokens : s.tokens ≡ total holds s.slots
  pub bound : s.tokens ≤ limit
  pub group : s.group ≡ total waits s.slots
  pub started : StartedTo s.next s.slots
  pub slots : All (SlotInv s.frozen (is_some s.cancelled)) s.slots
  pub phase : PhaseInv s.phase s

total-fresh :
    (w : Slot → ℕ) (cs : List Check) → ((c : Check) → w (fresh c) ≡ 0) → total w (map fresh cs) ≡ 0
unfolding total
total-fresh w [] h = refl
total-fresh w (c ∷ cs) h = omega (arith, h c, total-fresh w cs h)

started-fresh : (cs : List Check) → StartedTo 0 (map fresh cs)
started-fresh [] = tt
started-fresh (c ∷ cs) = (refl, started-fresh cs)

checks-fresh : (cs : List Check) → map (λ (x : Slot). x.check) (map fresh cs) ≡ cs
checks-fresh [] = refl
checks-fresh (c ∷ cs) = rw (checks-fresh cs)

fresh-SlotInv : (c : Check) → SlotInv false false (fresh c)
fresh-SlotInv c = record {
  own = λ h. absurd (cc);
  flag = λ _. refl;
  carried = λ r h. absurd (cc);
  full = λ h. absurd (cc);
  genuine = λ _ h. absurd (cc);
}

slots-fresh : (cs : List Check) → All (SlotInv false false) (map fresh cs)
slots-fresh [] = tt
slots-fresh (c ∷ cs) = (fresh-SlotInv c, slots-fresh cs)

Inv-start : (limit : ℕ) (cs : List Check) → Inv limit cs (start cs)
unfolding start
Inv-start limit cs = record {
  checks_kept = checks-fresh cs;
  tokens = sym (total-fresh holds cs (λ c. refl));
  bound = omega arith;
  group = sym (total-fresh waits cs (λ c. refl));
  started = started-fresh cs;
  slots = slots-fresh cs;
  phase = tt;
}

-- Another worker state of the same slot, before and after its result is recorded.
move-SlotInv :
    (fr ca : Bool) (x : Slot) (w : Worker)
    → has_recorded w ≡ has_recorded x.worker
    → ((r : Result) → w ≡ executed r → Executed x.check r)
    → SlotInv fr ca x
    → SlotInv fr ca (record x { worker = w })
move-SlotInv fr ca x w e c h = record {
  own = h.own;
  flag = λ z. h.flag z ∙ sym e;
  carried = c;
  full = h.full;
  genuine = h.genuine;
}

record_result-SlotInv :
    (fr ca : Bool) (x : Slot) (r : Result)
    → x.worker ≡ executed r
    → SlotInv fr ca x
    → SlotInv fr ca (record_result fr r x)
unfolding record_result
record_result-SlotInv false ca x r e h =
    let q : x.completed ≡ false = h.flag refl ∙ ap has_recorded e in
    rw q (record {
      own = λ _. inl (h.carried r e);
      flag = λ _. refl;
      carried = λ r' z. absurd (cc);
      full = λ z. absurd (cc);
      genuine = λ _ _. h.carried r e;
    })
record_result-SlotInv true ca x r e h = record {
  own = h.own;
  flag = λ z. absurd (cc);
  carried = λ r' z. absurd (cc);
  full = h.full;
  genuine = h.genuine;
}

backfill-SlotInv :
    (ca : Bool) (now : Time) (parent : Option Error) (x : Slot)
    → (ca ≡ false → x.completed ≡ true)
    → SlotInv false ca x
    → SlotInv true ca (backfill now parent x)
unfolding backfill
backfill-SlotInv ca now parent x c h = elim (Bool-cases x.completed) [
  | inl q ↦ rw q (record {
    own = λ _. h.own q;
    flag = λ z. absurd (cc);
    carried = h.carried;
    full = λ _. cc;
    genuine = λ z _. h.genuine z q;
  })
  | inr q ↦ rw q (record {
    own = λ _. inr (record { at = now; parent = parent; is = refl });
    flag = λ z. absurd (cc);
    carried = h.carried;
    full = λ _. cc;
    genuine = λ z _. absurd (cc (c z));
  })
]

-- A slot whose context is canceled keeps what holds of it otherwise.
cancelled-SlotInv : (fr ca : Bool) (x : Slot) → SlotInv fr ca x → SlotInv fr true x
cancelled-SlotInv fr ca x h = record {
  own = h.own;
  flag = h.flag;
  carried = h.carried;
  full = h.full;
  genuine = λ z. absurd (cc);
}
