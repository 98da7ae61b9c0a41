-- ===== src/Check/Runner/Progress.antt =====
-- Run and its goroutines end: no other state is stuck, and no run has more than 5 n + 4 steps.
use copyfail_validation.Base.{ℕ, ◌+◌, List, ◌∷◌, ◌++◌, Bool, true, false, is_some, ◌≡◌, ap}
use copyfail_validation.Check.Execute.{Check}
use copyfail_validation.Check.Runner.{
  Slot, Worker, idle, spawned, executed, recorded, released, finished, Phase, looping, waiting,
  closed, RunState, Step, Reach, here, next,
}
use copyfail_validation.Check.Runner.Slots.{total}
use copyfail_validation.Check.Runner.Invariant.{waits}

-- The steps that a worker has before it, and those of the dispatcher, the context and Run.
abbrev rank_of : Worker → ℕ
rank_of idle = 5
rank_of spawned = 4
rank_of (executed r) = 3
rank_of recorded = 2
rank_of released = 1
rank_of finished = 0

abbrev rank : Slot → ℕ
rank x = rank_of x.worker

abbrev phase_rank : Phase → ℕ
phase_rank looping = 2
phase_rank waiting = 1
phase_rank closed = 0

abbrev open_rank : Bool → ℕ
open_rank true = 0
open_rank false = 1

abbrev measure : RunState → ℕ
measure s =
    total rank s.slots + phase_rank s.phase + open_rank (is_some s.cancelled) + open_rank s.frozen

pub steps : {limit : ℕ} {checks : List Check} {s : RunState} → Reach limit checks s → ℕ
steps here = 0
steps (next r st) = steps r + 1

-- A place in the list of slots.
record Spot (xs : List Slot) : Type 0 where
  front : List Slot
  slot : Slot
  back : List Slot
  splits : xs ≡ front ++ slot ∷ back

abbrev behind : {xs : List Slot} → (y : Slot) → Spot xs → Spot (y ∷ xs)
behind y p = record {
  front = y ∷ p.front;
  slot = p.slot;
  back = p.back;
  splits = ap (◌∷◌ y) p.splits;
}

-- The dispatcher, a worker or Run can go on, without a cancellation of the context.
abbrev CanStep : ℕ → RunState → Type 0
CanStep limit s = (t : RunState) × Step limit s t × (t.cancelled ≡ s.cancelled)

-- Run has returned, the dispatcher has closed `done`, and no worker is under way.
pub record IsOver (s : RunState) : Type 0 where
  pub returned : s.frozen ≡ true
  pub closed_done : s.phase ≡ closed
  pub no_worker : total waits s.slots ≡ 0
