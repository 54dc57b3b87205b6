-- ===== src/Scheduling/Scheduler/Guarantees.antt =====
-- What `ExecutionScheduler` (scheduler.py) guarantees in every interleaving of its drivers, its
-- workers and its deadline, from the constructor on.
use dr_exec.Prelude.{
  nil_of_length, ℕ, ◌+◌, ◌≤◌, ◌≡◌, ◌⊎◌, ap, inl, inr, Bool-cases, true, false, ltb, List, [], ◌∷◌,
  arith, length, upto, All, if◌then◌else◌,
}
use dr_exec.Prelude.Results.{ok}
use dr_exec.Scheduling.Scheduler.State.{Admitted, Scheduler, is_broken_by, new_scheduler}
use dr_exec.Scheduling.Scheduler.Work.{work_due, take_first, take_admitted}
use dr_exec.Scheduling.Scheduler.System.{
  Event, System, worker_takes, fresh_system, take_work, some_worker_waits, all_joined, step, run,
}
use dr_exec.Scheduling.Scheduler.Bounds.{IsCounted, joined_no_queue, run-IsCounted, fresh-IsCounted}
use dr_exec.Scheduling.Scheduler.Ledger.{held, queued, finished, IsOnce, run-IsOnce, fresh-IsOnce}
use dr_exec.Scheduling.Scheduler.Order.{tickets, IsOrdered, run-IsOrdered, fresh-IsOrdered}
use dr_exec.Scheduling.Scheduler.Tokens.{IsCancelled}
use dr_exec.Scheduling.Scheduler.Marked.{AllMarked}
use dr_exec.Scheduling.Scheduler.Expiry.{run-AllMarked, fresh-AllMarked}

-- A queued job of a machine whose counts are right.
served :
    {J C O F : Type 0} (capacity : ℕ) (y : System J C O F) (a : Admitted J C)
    (rest : List (Admitted J C))
    → IsCounted capacity y
    → y.sched.pending ≡ a ∷ rest
    → (((step worker_takes y).in_flight ≡ a ∷ y.in_flight)
        × ((step worker_takes y).sched.pending ≡ rest))
      ⊎ (length y.in_flight ≡ capacity)
unfolding some_worker_waits work_due step take_admitted take_first take_work
served capacity y a rest v queue =
    let n = ap length queue in
    elim (Bool-cases (some_worker_waits y)) [
      | inl free ↦ inl (ground arith, ground arith)
      | inr busy ↦ inr (ground arith)
    ]

emptied :
    {J C O F : Type 0} (t capacity : ℕ) (y : System J C O F)
    → IsCounted capacity y
    → IsOnce t y
    → is_broken_by y.sched.broken ≡ false
    → y.forgot ≡ false
    → y.sched.residents ≡ 0
    → finished t y.delivered ≡ (if ltb t y.sched.next_ticket then 1 else 0)
emptied t capacity y v o whole kept none_left =
    let p = nil_of_length y.sched.pending (omega arith) in
    let q = nil_of_length y.in_flight (omega arith) in
    let r = nil_of_length y.sched.ready (omega arith) in
    let p' = ap (queued t) p in
    let q' = ap (queued t) q in let r' = ap (finished t) r in ground arith

module _ {J C O F : Type 0} (capacity : ℕ) (s : Scheduler J C O F) (es : List (Event J C O F))
    (made : new_scheduler capacity ≡ ok s) where
  -- What a new scheduler becomes.
  abbrev reached : System J C O F
  reached = run es (fresh_system s)

  counted : IsCounted capacity reached
  counted = run-IsCounted es (fresh_system s) (fresh-IsCounted capacity s made)

  once : (t : ℕ) → IsOnce t reached
  once t =
      run-IsOnce es (fresh_system s) (fresh-IsCounted capacity s made)
        (fresh-IsOnce t capacity s made)

  ordered : IsOrdered reached
  ordered =
      run-IsOrdered es (fresh_system s) (fresh-IsCounted capacity s made)
        (fresh-IsOrdered capacity s made)

  -- After any events on a new scheduler: the residents never exceed the capacity it was made with,
  -- nor do the worker threads; the running jobs are those in flight, each with a worker of its own;
  -- and the queued, running and buffered submissions together are at most the residents.
  pub residents_bounded :
      (reached.sched.residents ≤ capacity)
      × (reached.sched.workers ≤ capacity)
      × (length reached.in_flight + reached.exited ≤ reached.sched.workers)
      × (reached.sched.running ≡ length reached.in_flight)
      × (length reached.sched.pending + length reached.in_flight + length reached.sched.ready
          ≤ reached.sched.residents)
  residents_bounded = let v = counted in ground arith

  -- After any events on a new scheduler that leave it unbroken, the residents are exactly the queued,
  -- running and buffered submissions: no place is lost, and none is counted twice.
  pub residents_exact :
      is_broken_by reached.sched.broken ≡ false
      → reached.sched.residents
        ≡ length reached.sched.pending + length reached.in_flight + length reached.sched.ready
  residents_exact whole = let v = counted in ground arith

  -- After any events on a new scheduler, a queued job is never stranded: either a worker thread
  -- waits, and its next step puts the oldest queued job in flight and leaves the others queued, or
  -- as many jobs are in flight as the capacity allows.
  pub queue_served :
      (a : Admitted J C) (rest : List (Admitted J C))
      → reached.sched.pending ≡ a ∷ rest
      → (((step worker_takes reached).in_flight ≡ a ∷ reached.in_flight)
          × ((step worker_takes reached).sched.pending ≡ rest))
        ⊎ (length reached.in_flight ≡ capacity)
  queue_served a rest queue = served capacity reached a rest counted queue

  -- After any events on a new scheduler, once its intake is closed and every worker has returned,
  -- nothing is queued: `shutdown` finds no submission to clear.
  pub shutdown_drops_nothing : all_joined reached ≡ true → reached.sched.pending ≡ []
  shutdown_drops_nothing joined =
      nil_of_length reached.sched.pending (joined_no_queue reached joined counted)

  -- After any events on a new scheduler, every ticket stands at most once among the queued, running,
  -- buffered and delivered submissions together, and only if it was given out.
  pub tickets_once : (t : ℕ) → held t reached ≤ (if ltb t reached.sched.next_ticket then 1 else 0)
  tickets_once t = (once t).once

  -- After any events on a new scheduler that leave it unbroken, with no driver's completions released
  -- or discarded: if it has no residents, every ticket given out was delivered exactly once.
  pub drained_delivered_all :
      (t : ℕ)
      → is_broken_by reached.sched.broken ≡ false
      → reached.forgot ≡ false
      → reached.sched.residents ≡ 0
      → finished t reached.delivered ≡ (if ltb t reached.sched.next_ticket then 1 else 0)
  drained_delivered_all t = emptied t capacity reached counted (once t)

  -- After any events on a new scheduler, the jobs that workers took are the first ones admitted, in
  -- the order of admission, with none left out.
  pub started_in_order : reached.started ≡ upto 0 (length reached.started)
  started_in_order = ordered.first

  -- After any events on a new scheduler that leave it unbroken, the queue holds all tickets that were
  -- given out and not started, in the order of admission.
  pub queued_in_order :
      is_broken_by reached.sched.broken ≡ false
      → (tickets reached.sched.pending
          ≡ upto (length reached.started) (length reached.sched.pending))
        × (reached.sched.next_ticket ≡ length reached.started + length reached.sched.pending)
  queued_in_order = ordered.next

  -- After any events on a new scheduler, once it has expired, the token of every queued job and of
  -- every job in flight is cancelled, those admitted after the expiry included.
  pub expired_cancels_live :
      reached.sched.expired ≡ true
      → All (IsCancelled reached.sched.heap) reached.sched.pending
        × All (IsCancelled reached.sched.heap) reached.in_flight
  expired_cancels_live e =
      let v : AllMarked reached =
        run-AllMarked es (fresh_system s) (fresh-IsCounted capacity s made)
          (λ t. fresh-IsOnce t capacity s made) (fresh-AllMarked capacity s made) in
      (v.queue_marked e, v.flight_marked e)
