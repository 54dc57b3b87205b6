-- ===== src/Scheduling/Scheduler/System.antt =====
-- The scheduler with its worker threads and its drivers, as one machine: any interleaving of their
-- critical sections is a list of events. A condition variable lets a thread go on only while its
-- predicate holds, so an event whose predicate does not hold changes nothing.
use dr_exec.Prelude.{
  ℕ, zero, suc, ◌+◌, Bool, true, false, ◌&&◌, Option, none, some, List, [], ◌∷◌, ◌++◌, ◌==◌, ltb,
  is_empty, length, if◌then◌else◌,
}
use dr_exec.Prelude.Results.{Result, ok, err}
use dr_exec.Scheduling.Scheduler.State.{Admitted, Completion, Scheduler}
use dr_exec.Scheduling.Scheduler.Intake.{admit, close_intake, cancel_all, expire}
use dr_exec.Scheduling.Scheduler.Delivery.{
  Taken, take_completion_nowait, take_completion, completion_due, discard_completions,
  release_owned, shutdown_begin, shutdown_end,
}
use dr_exec.Scheduling.Scheduler.Work.{work_due, take_admitted, finish}

-- `admits` has the failure that starting a worker would raise; `finishes` has the place of the job
-- among those in flight, and what the executor returns or raises for it; `releases` and `takes` have
-- the test of the driver; `shutdown_ends` has `preserve_completions`.
pub data Event (J C O F : Type 0) : Type 0 where
  admits : J → C → Option F → Event J C O F
  closes cancels expires : Event J C O F
  takes_nowait : Option (C → Bool) → Event J C O F
  takes : Event J C O F
  worker_takes : Event J C O F
  finishes : ℕ → Result F O → Event J C O F
  releases : (C → Bool) → Event J C O F
  shutdown_begins : Event J C O F
  shutdown_ends : Bool → Event J C O F
  discards : Event J C O F

-- `in_flight` holds the jobs that workers are running, `exited` counts the workers that returned.
-- `delivered`, `started` and `forgot` record the history: the completions handed to drivers and the
-- tickets taken by workers, both oldest first, and whether a driver had completions dropped.
pub record System (J C O F : Type 0) : Type 0 where
  pub sched : Scheduler J C O F
  pub in_flight : List (Admitted J C)
  pub exited : ℕ
  pub delivered : List (Completion C O)
  pub started : List ℕ
  pub forgot : Bool

module _ {ℓ} {A : Type ℓ} where
  -- The element at a place, and the list without it.
  unfoldable pub pick : ℕ → List A → Option (A × List A)
  pick n [] = none
  pick zero (x ∷ xs) = some (x, xs)
  pick (suc n) (x ∷ xs) = elim (pick n xs) [ none ↦ none | some (y, ys) ↦ some (y, x ∷ ys) ]

module _ {J C O F : Type 0} where
  abbrev pub fresh_system : Scheduler J C O F → System J C O F
  fresh_system s = record {
    sched = s;
    in_flight = [];
    exited = 0;
    delivered = [];
    started = [];
    forgot = false;
  }

  unfoldable pub deliver : Taken J C O F → System J C O F → System J C O F
  deliver (ok none, s) y = record y { sched = s }
  deliver (ok (some c), s) y = record y { sched = s; delivered = y.delivered ++ c ∷ [] }
  deliver (err e, s) y = record y { sched = s }

  unfoldable pub take_work :
      Option (Admitted J C) × Scheduler J C O F → System J C O F → System J C O F
  take_work (none, s) y = record y { sched = s; exited = suc y.exited }
  take_work (some a, s) y = record y {
    sched = s;
    in_flight = a ∷ y.in_flight;
    started = y.started ++ a.ticket ∷ [];
  }

  -- A worker that is neither running a job nor gone.
  unfoldable pub some_worker_waits : System J C O F → Bool
  some_worker_waits y = ltb (length y.in_flight + y.exited) y.sched.workers

  -- All workers have returned, so that joining them returns.
  unfoldable pub all_joined : System J C O F → Bool
  all_joined y = y.sched.intake_closed && is_empty y.in_flight && y.exited == y.sched.workers

  unfoldable pub finish_picked :
      Option (Admitted J C × List (Admitted J C)) → Result F O → System J C O F → System J C O F
  finish_picked none r y = y
  finish_picked (some (a, rest)) r y = record y { sched = finish a r y.sched; in_flight = rest }

  -- Completions are discarded outside of shutdown only once every worker is joined and cleared: the method has
  -- no such guard, its callers in src/dr_exec/scheduling/pool.py wait for the shutdown.
  unfoldable pub step : Event J C O F → System J C O F → System J C O F
  step (admits job context start) y = record y { sched = (admit job context start y.sched).1 }
  step closes y = record y { sched = close_intake y.sched }
  step cancels y = record y { sched = cancel_all y.sched }
  step expires y = record y { sched = expire y.sched }
  step (takes_nowait owned) y = deliver (take_completion_nowait owned y.sched) y
  step takes y = if completion_due y.sched then deliver (take_completion y.sched) y else y
  step worker_takes y =
      if some_worker_waits y && work_due y.sched then take_work (take_admitted y.sched) y else y
  step (finishes place r) y = finish_picked (pick place y.in_flight) r y
  step (releases owned) y = record y { sched = release_owned owned y.sched; forgot = true }
  step shutdown_begins y = record y { sched = shutdown_begin y.sched }
  step (shutdown_ends preserve) y =
      if all_joined y
      then record y {
        sched = shutdown_end preserve y.sched;
        exited = 0;
        forgot = if preserve then y.forgot else true;
      }
      else y
  step discards y =
      if all_joined y && y.sched.workers == 0
      then record y { sched = discard_completions y.sched; forgot = true }
      else y

  unfoldable pub run : List (Event J C O F) → System J C O F → System J C O F
  run [] y = y
  run (e ∷ es) y = run es (step e y)
