-- ===== src/Scheduling/Scheduler/Work.antt =====
-- What the worker threads of `ExecutionScheduler` do to it (scheduler.py): `_take_admitted` and
-- `_finish`. A worker runs `_take_admitted`, the executor, `_finish`, and starts again.
use dr_exec.Prelude.{
  suc, ◌-◌, Bool, not, ◌||◌, Option, none, some, List, [], ◌∷◌, ◌++◌, is_empty, if◌then◌else◌,
}
use dr_exec.Prelude.Results.{Result, ok, err}
use dr_exec.Scheduling.Scheduler.State.{Admitted, Scheduler, without, is_broken_by, announce_change}
use dr_exec.Scheduling.Scheduler.Intake.{break_with}

module _ {J C O F : Type 0} where
  -- What `_take_admitted` waits for.
  unfoldable pub work_due : Scheduler J C O F → Bool
  work_due s = not (is_empty s.pending) || s.intake_closed || is_broken_by s.broken

  -- The oldest queued job goes to the worker.
  unfoldable pub take_first :
      List (Admitted J C) → Scheduler J C O F → Option (Admitted J C) × Scheduler J C O F
  take_first [] s = (none, s)
  take_first (a ∷ rest) s = (some a, record s { running = suc s.running; pending = rest })

  -- `none` ends the worker.
  unfoldable pub take_admitted : Scheduler J C O F → Option (Admitted J C) × Scheduler J C O F
  take_admitted s = if is_broken_by s.broken then (none, s) else take_first s.pending s

  -- `_finish`, with the completed execution or the failure of the executor.
  unfoldable pub finish : Admitted J C → Result F O → Scheduler J C O F → Scheduler J C O F
  finish a (ok completed) s = announce_change (record s {
    running = s.running - 1;
    ready =
        s.ready
        ++ record { ticket = a.ticket; completed_execution = completed; context = a.context } ∷ [];
  })
  finish a (err failure) s = announce_change (
      break_with failure (record s { running = s.running - 1; tokens = without a.ticket s.tokens }))
