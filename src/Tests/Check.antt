-- ===== src/Tests/Check.antt =====
-- Runs of the runner of check: one check that completes, and one that is abandoned.
use copyfail_validation.Base.{
  ℕ, ◌≤◌, List, [], ◌∷◌, true, false, none, some, ◌≡◌, inl, refl, arith, All,
}
use copyfail_validation.Text.{codes}
use copyfail_validation.Errors.{Error, canceled, sentinel, lit}
use copyfail_validation.Report.{required, Result}
use copyfail_validation.Check.Execute.{is_unset, Check, returns, panics, IsNamed, HasIdentity}
use copyfail_validation.Check.Runner.{
  Worker, spawned, executed, recorded, released, finished, Slot, Phase, looping, closed, RunState,
  fresh, start, stamped, record_result, backfill, spawn, loop_end, close, execute, write, release,
  finish, leave, Reach, here, next,
}
use copyfail_validation.Check.Runner.Slots.{is_idle}
use copyfail_validation.Check.Runner.Invariant.{Executed}
use copyfail_validation.Check.Runner.Safety.{
  results, Reports, Attributed, running, Later, same, more, results-Reports, running_le_limit,
  results_final, starts_in_order,
}
use copyfail_validation.Check.Runner.Identity.{results-HasIdentity}

abbrev panicking : Check
panicking = record {
  id = codes "module.not_loaded";
  title = codes "Target module is not currently loaded";
  description = [];
  severity = required;
  applicable = returns (true, []);
  run = panics (lit "index out of range");
}

abbrev checks : List Check
checks = panicking ∷ []

abbrev state_at : Slot → ℕ → ℕ → Phase → RunState
state_at x tokens group phase = record {
  slots = x ∷ [];
  tokens = tokens;
  group = group;
  next = 1;
  phase = phase;
  cancelled = none;
  frozen = false;
}

abbrev with_worker : Worker → Slot
with_worker w = record (fresh panicking) { worker = w }

abbrev result : Result
unfolding stamped
result = stamped panicking 7 3

abbrev done_with : Worker → Slot
done_with w = record (fresh panicking) { worker = w; result = result; completed = true }

started : Reach 1 checks (state_at (with_worker spawned) 1 1 looping)
unfolding start
started = next here (spawn [] (fresh panicking) [] refl refl refl (omega arith) refl)

abbrev answered : RunState
answered = state_at (with_worker (executed result)) 1 1 looping

answered-Reach : Reach 1 checks answered
unfolding result
answered-Reach = next started (execute [] (with_worker spawned) [] 7 3 refl refl refl)

completed : Reach 1 checks (state_at (done_with finished) 0 0 looping)
unfolding record_result
completed =
    next
      (next
        (next answered-Reach (write [] (with_worker (executed result)) [] result refl refl refl))
        (release [] (done_with recorded) [] refl refl refl))
      (finish [] (done_with released) [] refl refl refl)

abbrev returned : RunState
returned = record (state_at (done_with finished) 0 0 closed) { frozen = true }

returned-Reach : Reach 1 checks returned
unfolding backfill
returned-Reach =
    next (next (next completed (loop_end refl refl refl)) (close refl refl refl))
      (leave 9 refl (inl refl) refl)

abbrev interrupt : Error
interrupt = sentinel canceled (lit "context canceled")

-- Run has returned while its worker still runs.
abbrev abandoned : RunState
unfolding backfill
abandoned = record (state_at (backfill 9 (some interrupt) (with_worker spawned)) 1 1 looping) {
  cancelled = some interrupt;
  frozen = true;
}

abbrev left_behind : Slot
unfolding backfill
left_behind = backfill 9 (some interrupt) (with_worker (executed result))

abbrev answered_late : RunState
answered_late = record abandoned { slots = left_behind ∷ [] }

abbrev recorded_late : RunState
recorded_late = record abandoned { slots = record left_behind { worker = recorded } ∷ [] }

late : Later 1 abandoned recorded_late
unfolding abandoned left_behind backfill record_result result
late =
    more
      (more same
        (execute [] (backfill 9 (some interrupt) (with_worker spawned)) [] 7 3 refl refl refl))
      (write [] left_behind [] result refl refl refl)

results-Reports_example :
    Reports Attributed checks (results returned)
    × (returned.cancelled ≡ none → Reports Executed checks (results returned))
results-Reports_example = results-Reports returned-Reach refl

running_le_limit_example : running (state_at (with_worker spawned) 1 1 looping) ≤ 1
running_le_limit_example = running_le_limit started

results_final_example : (recorded_late.frozen ≡ true) × (results recorded_late ≡ results abandoned)
unfolding abandoned
results_final_example = results_final late refl

-- Two checks on two places of the semaphore, both started.
two_started : Reach 2 (panicking ∷ panicking ∷ []) (record {
  slots = with_worker spawned ∷ with_worker spawned ∷ [];
  tokens = 2;
  group = 2;
  next = 2;
  phase = looping;
  cancelled = none;
  frozen = false;
})
unfolding start
two_started =
    next
      (next here
        (spawn [] (fresh panicking) (fresh panicking ∷ []) refl refl refl (omega arith) refl))
      (spawn (with_worker spawned ∷ []) (fresh panicking) [] refl refl refl (omega arith) refl)

starts_in_order_example : All (λ (y : Slot). is_idle y.worker ≡ false) (with_worker spawned ∷ [])
starts_in_order_example =
    starts_in_order two_started (with_worker spawned ∷ []) (with_worker spawned) [] refl refl

panicking-IsNamed : IsNamed panicking
unfolding is_unset
panicking-IsNamed = ground arith

results-HasIdentity_example : Reports HasIdentity checks (results returned)
results-HasIdentity_example = results-HasIdentity returned-Reach refl (panicking-IsNamed, tt)
