-- ===== src/Scheduling/Scheduler/Expiry.antt =====
-- Cancellation in every interleaving of `ExecutionScheduler` (scheduler.py).
use dr_exec.Prelude.{
  ℕ, ◌≡◌, refl, sym, subst, nil_of_length, nil_of_empty, Bool, true, false, if_cases, ◌&&◌, ◌==◌,
  none, List, [], ◌∷◌, arith, All,
}
use dr_exec.Prelude.Results.{ok}
use dr_exec.Scheduling.Scheduler.State.{Admitted, Scheduler, new_scheduler}
use dr_exec.Scheduling.Scheduler.Intake.{close_intake, cancel_all, expire}
use dr_exec.Scheduling.Scheduler.Delivery.{
  completion_due, discard, discard_completions, shutdown_begin, shutdown_end,
}
use dr_exec.Scheduling.Scheduler.Work.{work_due}
use dr_exec.Scheduling.Scheduler.System.{
  Event, System, admits, closes, cancels, expires, takes_nowait, takes, worker_takes, finishes,
  releases, shutdown_begins, shutdown_ends, discards, fresh_system, some_worker_waits, all_joined,
  step, run,
}
use dr_exec.Scheduling.Scheduler.Bounds.{IsCounted, joined_no_queue, step-IsCounted}
use dr_exec.Scheduling.Scheduler.Ledger.{IsOnce, step-IsOnce}
use dr_exec.Scheduling.Scheduler.Tokens.{Shares, IsCancelled}
use dr_exec.Scheduling.Scheduler.Cancellation.{IsMarked, once-Apart, same-IsMarked}
use dr_exec.Scheduling.Scheduler.Cases.{take_completion-nowait, finish_cases}
use dr_exec.Scheduling.Scheduler.Marked.{
  AllMarked, admits-AllMarked, deliver-AllMarked, worker_takes-AllMarked, finishes-AllMarked,
  cancels-AllMarked, releases-AllMarked,
}

idle-IsMarked :
    {J C O F : Type 0} (s : Scheduler J C O F) (flying : List (Admitted J C))
    → s.pending ≡ []
    → flying ≡ []
    → IsMarked s flying
idle-IsMarked s flying e f = record {
  queue_shares = subst (All (Shares s.tokens)) (sym e) tt;
  flight_shares = subst (All (Shares s.tokens)) (sym f) tt;
  queue_marked = λ _. subst (All (IsCancelled s.heap)) (sym e) tt;
  flight_marked = λ _. subst (All (IsCancelled s.heap)) (sym f) tt;
}

shutdown_end-pending :
    {J C O F : Type 0} (preserve : Bool) (s : Scheduler J C O F)
    → (shutdown_end preserve s).pending ≡ []
unfolding shutdown_end discard
shutdown_end-pending true s = refl
shutdown_end-pending false s = refl

module _ {J C O F : Type 0} (y : System J C O F) where
  -- Every event keeps the tokens shared and, once expired, cancelled.
  pub step-AllMarked :
      {bound : ℕ} (e : Event J C O F)
      → IsCounted bound y
      → ((t : ℕ) → IsOnce t y)
      → AllMarked y
      → AllMarked (step e y)
  unfolding step close_intake cancel_all expire shutdown_begin discard_completions discard
      all_joined
  step-AllMarked (admits job context start) c once v = admits-AllMarked y job context start once v
  step-AllMarked closes c once v = same-IsMarked y.sched _ refl refl refl refl v
  step-AllMarked cancels c once v =
      same-IsMarked _ _ refl refl refl refl (cancels-AllMarked y y.sched.expired v)
  step-AllMarked expires c once v = cancels-AllMarked y true v
  step-AllMarked (takes_nowait owned) c once v = deliver-AllMarked y owned (once-Apart y once) v
  step-AllMarked takes c once v =
      if_cases AllMarked (completion_due y.sched)
        (λ _. rw (take_completion-nowait y.sched) (deliver-AllMarked y none (once-Apart y once) v))
        (λ _. v)
  step-AllMarked worker_takes c once v =
      if_cases AllMarked (some_worker_waits y && work_due y.sched) (λ _. worker_takes-AllMarked y v)
        (λ _. v)
  step-AllMarked (finishes place r) c once v =
      finish_cases AllMarked y place r v
        (λ a rest splits. finishes-AllMarked y a rest r (once-Apart y once) splits v)
  step-AllMarked (releases owned) c once v = releases-AllMarked y owned (once-Apart y once) v
  step-AllMarked shutdown_begins c once v = same-IsMarked y.sched _ refl refl refl refl v
  step-AllMarked (shutdown_ends preserve) c once v =
      if_cases AllMarked (all_joined y)
        (λ e.
          idle-IsMarked (shutdown_end preserve y.sched) y.in_flight
            (shutdown_end-pending preserve y.sched) (nil_of_empty y.in_flight (ground arith)))
        (λ _. v)
  step-AllMarked discards c once v =
      if_cases AllMarked (all_joined y && y.sched.workers == 0)
        (λ e.
          idle-IsMarked (discard_completions y.sched) y.in_flight
            (nil_of_length y.sched.pending (joined_no_queue y (ground arith) c))
            (nil_of_empty y.in_flight (ground arith)))
        (λ _. v)

pub run-AllMarked :
    {J C O F : Type 0} {bound : ℕ} (es : List (Event J C O F)) (y : System J C O F)
    → IsCounted bound y
    → ((t : ℕ) → IsOnce t y)
    → AllMarked y
    → AllMarked (run es y)
unfolding run
run-AllMarked [] y c once v = v
run-AllMarked (e ∷ es) y c once v =
    run-AllMarked es (step e y) (step-IsCounted y e c) (λ t. step-IsOnce y e c (once t))
      (step-AllMarked y e c once v)

fresh-pending :
    {J C O F : Type 0} (capacity : ℕ) (s : Scheduler J C O F)
    → new_scheduler capacity ≡ ok s
    → s.pending ≡ []
unfolding new_scheduler
fresh-pending capacity s made = ground arith

pub fresh-AllMarked :
    {J C O F : Type 0} (capacity : ℕ) (s : Scheduler J C O F)
    → new_scheduler capacity ≡ ok s
    → AllMarked (fresh_system s)
fresh-AllMarked capacity s made = idle-IsMarked s [] (fresh-pending capacity s made) refl
