-- ===== src/Scheduling/Scheduler/Tests.antt =====
-- Runs of `ExecutionScheduler` (scheduler.py), and its guarantees at such runs.
use dr_exec.Prelude.{
  ℕ, ◌+◌, ◌≤◌, ◌≡◌, ◌⊎◌, refl, true, false, none, List, [], ◌∷◌, map, length, upto, All, ltb,
  if◌then◌else◌,
}
use dr_exec.Prelude.Results.{ok}
use dr_exec.Core.Cancel.{no_tokens}
use dr_exec.Scheduling.Scheduler.State.{Scheduler, new_scheduler, put, without}
use dr_exec.Scheduling.Scheduler.Intake.{admit, enqueue, born, ensure_worker, start_worker, expire}
use dr_exec.Scheduling.Scheduler.Delivery.{
  take_completion_nowait, take_ready, take_found, split_first, hand_over, shutdown_begin,
}
use dr_exec.Scheduling.Scheduler.Work.{work_due, take_admitted, take_first, finish}
use dr_exec.Scheduling.Scheduler.System.{
  Event, System, admits, expires, takes_nowait, worker_takes, finishes, shutdown_begins,
  fresh_system, pick, deliver, take_work, some_worker_waits, all_joined, finish_picked, step, run,
}
use dr_exec.Scheduling.Scheduler.Tokens.{IsCancelled}
use dr_exec.Scheduling.Scheduler.Ledger.{held, finished}
use dr_exec.Scheduling.Scheduler.Order.{tickets}
use dr_exec.Scheduling.Scheduler.Guarantees.{
  residents_bounded, residents_exact, queue_served, shutdown_drops_nothing, tickets_once,
  drained_delivered_all, started_in_order, queued_in_order, expired_cancels_live,
}

-- Two places; jobs, contexts, results and failures are numbers.
abbrev two_slots : Scheduler ℕ ℕ ℕ ℕ
two_slots = record {
  heap = no_tokens;
  capacity = 2;
  pending = [];
  ready = [];
  tokens = [];
  workers = 0;
  next_ticket = 0;
  residents = 0;
  running = 0;
  intake_closed = false;
  expired = false;
  broken = none;
  changes = 0;
}

two_slots_new : new_scheduler 2 ≡ ok two_slots
unfolding new_scheduler
two_slots_new = refl

-- Two jobs enter, the third finds no room; the first runs.
abbrev first_runs : List (Event ℕ ℕ ℕ ℕ)
first_runs = admits 10 1 none ∷ admits 20 2 none ∷ admits 30 3 none ∷ worker_takes ∷ []

-- The first job is delivered, the deadline passes, and a third job enters.
abbrev expiring : List (Event ℕ ℕ ℕ ℕ)
expiring =
    admits 10 1 none
    ∷ admits 20 2 none
    ∷ worker_takes
    ∷ finishes 0 (ok 100)
    ∷ takes_nowait none
    ∷ expires
    ∷ admits 30 3 none
    ∷ []

-- Both jobs are delivered, the second one first, and the workers return.
abbrev drained : List (Event ℕ ℕ ℕ ℕ)
drained =
    admits 10 1 none
    ∷ admits 20 2 none
    ∷ worker_takes
    ∷ worker_takes
    ∷ finishes 0 (ok 200)
    ∷ takes_nowait none
    ∷ finishes 0 (ok 100)
    ∷ takes_nowait none
    ∷ shutdown_begins
    ∷ worker_takes
    ∷ worker_takes
    ∷ []

first_runs_lem :
    let y = run first_runs (fresh_system two_slots) in
    (tickets y.in_flight ≡ 0 ∷ []) × (tickets y.sched.pending ≡ 1 ∷ []) × (y.sched.workers ≡ 2)
unfolding run step admit enqueue born ensure_worker start_worker take_work take_admitted take_first
    some_worker_waits work_due put
first_runs_lem = (refl, refl, refl)

drained_lem :
    let y = run drained (fresh_system two_slots) in
    (map (λ c. c.completed_execution) y.delivered ≡ 200 ∷ 100 ∷ [])
    × (y.sched.residents ≡ 0)
    × (all_joined y ≡ true)
unfolding run step admit enqueue born ensure_worker start_worker take_work take_admitted take_first
    some_worker_waits work_due put finish_picked pick finish deliver take_completion_nowait
    take_ready take_found split_first hand_over without shutdown_begin all_joined
drained_lem = (refl, refl, refl)

abbrev first_running : System ℕ ℕ ℕ ℕ
first_running = run first_runs (fresh_system two_slots)

abbrev all_drained : System ℕ ℕ ℕ ℕ
all_drained = run drained (fresh_system two_slots)

abbrev past_deadline : System ℕ ℕ ℕ ℕ
past_deadline = run expiring (fresh_system two_slots)

residents_bounded_example :
    (first_running.sched.residents ≤ 2)
    × (first_running.sched.workers ≤ 2)
    × (length first_running.in_flight + first_running.exited ≤ first_running.sched.workers)
    × (first_running.sched.running ≡ length first_running.in_flight)
    × (length first_running.sched.pending
          + length first_running.in_flight
          + length first_running.sched.ready
        ≤ first_running.sched.residents)
residents_bounded_example = residents_bounded 2 two_slots first_runs two_slots_new

residents_exact_example :
    first_running.sched.residents
    ≡ length first_running.sched.pending
      + length first_running.in_flight
      + length first_running.sched.ready
unfolding run step admit enqueue born ensure_worker start_worker take_work take_admitted take_first
    some_worker_waits work_due put
residents_exact_example = residents_exact 2 two_slots first_runs two_slots_new refl

queue_served_example :
    (((step worker_takes first_running).in_flight
        ≡ record { ticket = 1; job = 20; context = 2; cancellation = 1 } ∷ first_running.in_flight)
      × ((step worker_takes first_running).sched.pending ≡ []))
    ⊎ (length first_running.in_flight ≡ 2)
unfolding run step admit enqueue born ensure_worker start_worker take_work take_admitted take_first
    some_worker_waits work_due put
queue_served_example =
    queue_served 2 two_slots first_runs two_slots_new
      (record { ticket = 1; job = 20; context = 2; cancellation = 1 }) [] refl

tickets_once_example :
    held 1 first_running ≤ (if ltb 1 first_running.sched.next_ticket then 1 else 0)
tickets_once_example = tickets_once 2 two_slots first_runs two_slots_new 1

started_in_order_example : first_running.started ≡ upto 0 (length first_running.started)
started_in_order_example = started_in_order 2 two_slots first_runs two_slots_new

queued_in_order_example :
    (tickets first_running.sched.pending
      ≡ upto (length first_running.started) (length first_running.sched.pending))
    × (first_running.sched.next_ticket
        ≡ length first_running.started + length first_running.sched.pending)
unfolding run step admit enqueue born ensure_worker start_worker take_work take_admitted take_first
    some_worker_waits work_due put
queued_in_order_example = queued_in_order 2 two_slots first_runs two_slots_new refl

shutdown_drops_nothing_example : all_drained.sched.pending ≡ []
shutdown_drops_nothing_example =
    shutdown_drops_nothing 2 two_slots drained two_slots_new (drained_lem.2)

drained_delivered_all_example :
    finished 1 all_drained.delivered ≡ (if ltb 1 all_drained.sched.next_ticket then 1 else 0)
unfolding run step admit enqueue born ensure_worker start_worker take_work take_admitted take_first
    some_worker_waits work_due put finish_picked pick finish deliver take_completion_nowait
    take_ready take_found split_first hand_over without shutdown_begin all_joined
drained_delivered_all_example =
    drained_delivered_all 2 two_slots drained two_slots_new 1 refl refl refl

expired_cancels_live_example :
    All (IsCancelled past_deadline.sched.heap) past_deadline.sched.pending
    × All (IsCancelled past_deadline.sched.heap) past_deadline.in_flight
unfolding run step admit enqueue born ensure_worker start_worker take_work take_admitted take_first
    some_worker_waits work_due put finish_picked pick finish deliver take_completion_nowait
    take_ready take_found split_first hand_over without expire
expired_cancels_live_example = expired_cancels_live 2 two_slots expiring two_slots_new refl
