-- ===== src/Check/Runner.antt =====
-- Runner.Run and runOne of check/runner.go as a step relation: the goroutine that dispatches, the
-- workers and the caller of Run, interleaved in every way. A step is what one goroutine does
-- between two points where another can see a difference: an operation on the semaphore, on the
-- wait group or on a channel, or a critical section of the mutex.
pub mod Slots
pub mod Invariant
pub mod Safety
pub mod Identity
pub mod Progress
use copyfail_validation.Base.{
  ℕ, ◌+◌, ◌-◌, ◌≤◌, ◌<◌, List, [], ◌∷◌, ◌++◌, Bool, true, false, not, ◌&&◌, Option, none, some,
  is_some, ◌≡◌, ◌⊎◌, map, length, ltb, if◌then◌else◌,
}
use copyfail_validation.Base.Int.{ℤ, pos, negsuc}
use copyfail_validation.Errors.{Error, Message}
use copyfail_validation.Report.{Time, Result, Report, zero_result}
use copyfail_validation.Check.Execute.{Check, Call, execute_check, new_cancelled_result}

-- Where a worker stands in runOne.
pub data Worker : Type 0 where
  idle : Worker
  spawned : Worker
  executed : Result → Worker
  recorded : Worker
  released : Worker
  finished : Worker

-- One index of the slices checks, results and completed, with the worker of that index.
pub record Slot : Type 0 where
  pub check : Check
  pub worker : Worker
  pub result : Result
  pub completed : Bool

-- The dispatcher: in its loop, at wg.Wait, and after close(done).
pub data Phase : Type 0 where
  looping waiting closed : Phase

-- `group` is the counter of the wait group, `tokens` the number of elements in the semaphore,
-- `cancelled` what ctx.Err returns, `frozen` the flag that Run sets before it returns.
pub record RunState : Type 0 where
  pub slots : List Slot
  pub tokens : ℕ
  pub group : ℕ
  pub next : ℕ
  pub phase : Phase
  pub cancelled : Option Error
  pub frozen : Bool

abbrev pub fresh : Check → Slot
fresh c = record { check = c; worker = idle; result = zero_result; completed = false }

unfoldable pub start : List Check → RunState
start checks = record {
  slots = map fresh checks;
  tokens = 0;
  group = 0;
  next = 0;
  phase = looping;
  cancelled = none;
  frozen = false;
}

-- The defaults of Run, and the capacity of the semaphore.
unfoldable pub concurrency_of : ℕ → ℤ → ℕ
concurrency_of num_cpu (pos n) = if ltb 0 n then n else num_cpu
concurrency_of num_cpu (negsuc n) = num_cpu

-- The result of the check, stamped with its duration.
unfoldable pub stamped : Check → Time → ℕ → Result
stamped c now ms = record (execute_check c now) { duration_ms = ms }

-- The critical section of runOne.
unfoldable pub record_result : Bool → Result → Slot → Slot
record_result frozen r x =
    if not frozen && not x.completed
    then record x { worker = recorded; result = r; completed = true }
    else record x { worker = recorded }

-- The loop of Run over what is not completed.
unfoldable pub backfill : Time → Option Error → Slot → Slot
backfill now parent x =
    if x.completed
    then x
    else record x { result = new_cancelled_result x.check now parent; completed = true }

pub data Step (limit : ℕ) (s t : RunState) : Type 0 where
  -- sem <- struct{}{}; wg.Add(1); go r.runOne(…)
  spawn :
      (f : List Slot) (x : Slot) (b : List Slot)
      → s.phase ≡ looping
      → s.slots ≡ f ++ x ∷ b
      → length f ≡ s.next
      → s.tokens < limit
      → t ≡ record s {
        slots = f ++ record x { worker = spawned } ∷ b;
        tokens = s.tokens + 1;
        group = s.group + 1;
        next = s.next + 1;
      }
      → Step limit s t
  -- case <-ctx.Done(): goto waitWorkers
  bail :
      (e : Error)
      → s.phase ≡ looping
      → s.next < length s.slots
      → s.cancelled ≡ some e
      → t ≡ record s { phase = waiting }
      → Step limit s t
  -- the loop over checks is through
  loop_end :
      s.phase ≡ looping
      → s.next ≡ length s.slots
      → t ≡ record s { phase = waiting }
      → Step limit s t
  -- wg.Wait(); close(done)
  close : s.phase ≡ waiting → s.group ≡ 0 → t ≡ record s { phase = closed } → Step limit s t
  -- executeCheck returns
  execute :
      (f : List Slot) (x : Slot) (b : List Slot) (now : Time) (ms : ℕ)
      → s.slots ≡ f ++ x ∷ b
      → x.worker ≡ spawned
      → t ≡ record s { slots = f ++ record x { worker = executed (stamped x.check now ms) } ∷ b }
      → Step limit s t
  -- the critical section of runOne
  write :
      (f : List Slot) (x : Slot) (b : List Slot) (r : Result)
      → s.slots ≡ f ++ x ∷ b
      → x.worker ≡ executed r
      → t ≡ record s { slots = f ++ record_result s.frozen r x ∷ b }
      → Step limit s t
  -- <-sem
  release :
      (f : List Slot) (x : Slot) (b : List Slot)
      → s.slots ≡ f ++ x ∷ b
      → x.worker ≡ recorded
      → t ≡ record s { slots = f ++ record x { worker = released } ∷ b; tokens = s.tokens - 1 }
      → Step limit s t
  -- wg.Done()
  finish :
      (f : List Slot) (x : Slot) (b : List Slot)
      → s.slots ≡ f ++ x ∷ b
      → x.worker ≡ released
      → t ≡ record s { slots = f ++ record x { worker = finished } ∷ b; group = s.group - 1 }
      → Step limit s t
  -- the parent context is canceled
  cancel : (e : Error) → s.cancelled ≡ none → t ≡ record s { cancelled = some e } → Step limit s t
  -- Run wakes, freezes the slice, fills what is missing, and returns
  leave :
      (now : Time)
      → s.frozen ≡ false
      → (s.phase ≡ closed) ⊎ (is_some s.cancelled ≡ true)
      → t ≡ record s { slots = map (backfill now s.cancelled) s.slots; frozen = true }
      → Step limit s t

pub data Reach (limit : ℕ) (checks : List Check) : RunState → Type 0 where
  here : Reach limit checks (start checks)
  next : {s t : RunState} → Reach limit checks s → Step limit s t → Reach limit checks t
