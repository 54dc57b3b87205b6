-- ===== src/Scheduling/Scheduler/Order.antt =====
-- The order in which the workers of `ExecutionScheduler` start jobs (scheduler.py).
use dr_exec.Prelude.{
  ℕ, suc, ◌+◌, ◌≡◌, ap, refl, ◌∙◌, inl, inr, Bool, true, false, Option-cases, if_cases, ◌&&◌, ◌==◌,
  Option, none, List, [], ◌∷◌, ◌++◌, map, arith, length, length-snoc, upto, upto-snoc,
  upto-zero-snoc, subst, if◌then◌else◌,
}
use dr_exec.Prelude.Results.{Result, ok, err}
use dr_exec.Scheduling.Scheduler.State.{
  Admitted, Scheduler, is_broken_by, new_scheduler, announce_change,
}
use dr_exec.Scheduling.Scheduler.Intake.{
  broken_with, enqueue, admit, close_intake, cancel_all, expire,
}
use dr_exec.Scheduling.Scheduler.Delivery.{
  raise_if_broken, hand_over, take_completion_nowait, completion_due, discard, discard_completions,
  release_owned, shutdown_begin, shutdown_end,
}
use dr_exec.Scheduling.Scheduler.Work.{work_due, take_admitted, finish}
use dr_exec.Scheduling.Scheduler.System.{
  Event, System, admits, closes, cancels, expires, takes_nowait, takes, worker_takes, finishes,
  releases, shutdown_begins, shutdown_ends, discards, fresh_system, deliver, take_work,
  some_worker_waits, all_joined, step, run,
}
use dr_exec.Scheduling.Scheduler.Bounds.{IsCounted, joined_no_queue, step-IsCounted}
use dr_exec.Scheduling.Scheduler.Cases.{
  admit_cases, ensure_worker_cases, start_worker_cases, take_admitted_cases, break_cases,
  take_cases, take_completion-nowait, finish_cases,
}

abbrev pub tickets : {J C : Type 0} → List (Admitted J C) → List ℕ
tickets = map λ a. a.ticket

-- The workers have started the first tickets, in order; and while the scheduler is not broken, the
-- queue holds all the later ones, in order.
pub record IsOrdered {J C O F : Type 0} (y : System J C O F) : Type 0 where
  pub first : y.started ≡ upto 0 (length y.started)
  pub next :
      is_broken_by y.sched.broken ≡ false
      → (tickets y.sched.pending ≡ upto (length y.started) (length y.sched.pending))
        × (y.sched.next_ticket ≡ length y.started + length y.sched.pending)

tickets-snoc :
    {J C : Type 0} (as' : List (Admitted J C)) (a : Admitted J C)
    → tickets (as' ++ a ∷ []) ≡ tickets as' ++ a.ticket ∷ []
tickets-snoc [] a = refl
tickets-snoc (b ∷ as') a = ap (◌∷◌ b.ticket) (tickets-snoc as' a)

-- One more ticket at the end of a queue of consecutive tickets.
queue_longer :
    {J C : Type 0} (as' : List (Admitted J C)) (a : Admitted J C) (from next : ℕ)
    → (tickets as' ≡ upto from (length as')) × (next ≡ from + length as')
    → a.ticket ≡ next
    → (tickets (as' ++ a ∷ []) ≡ upto from (length (as' ++ a ∷ [])))
      × (suc next ≡ from + length (as' ++ a ∷ []))
queue_longer as' a from next (p, q) e =
    rw (tickets-snoc as' a, length-snoc as' a, p, e, q) (upto-snoc from (length as'), omega arith)

-- The first of a queue of consecutive tickets.
queue_shorter :
    {J C : Type 0} (a : Admitted J C) (rest : List (Admitted J C)) (from : ℕ)
    → tickets (a ∷ rest) ≡ upto from (length (a ∷ rest))
    → (a.ticket ≡ from) × (tickets rest ≡ upto (suc from) (length rest))
queue_shorter a rest from e = (cc, cc)

-- The same equation about the queue, by another name.
queue_is :
    {J C : Type 0} (from : ℕ) {as' bs : List (Admitted J C)}
    → as' ≡ bs
    → tickets as' ≡ upto from (length as')
    → tickets bs ≡ upto from (length bs)
queue_is from e = subst (λ l. tickets l ≡ upto from (length l)) e

module _ {J C O F : Type 0} (y : System J C O F) where
  admits-IsOrdered :
      (job : J) (context : C) (start : Option F)
      → IsOrdered y
      → IsOrdered (record y { sched = (admit job context start y.sched).1 })
  unfolding enqueue broken_with
  admits-IsOrdered job context start v =
      let s : Scheduler J C O F = y.sched in
      let entered : Admitted J C = record {
        ticket = s.next_ticket;
        job = job;
        context = context;
        cancellation = s.heap.made;
      } in
      let longer = λ (u : is_broken_by s.broken ≡ false).
        queue_longer s.pending entered (length y.started) s.next_ticket (v.next u) refl in
      admit_cases (λ s'. IsOrdered (record y { sched = s' })) job context start s v
        λ open' room.
          ensure_worker_cases (λ s'. IsOrdered (record y { sched = announce_change s' })) start
            (enqueue job context s) (λ enough. record { first = v.first; next = longer })
            (λ needed few.
              start_worker_cases (λ s'. IsOrdered (record y { sched = announce_change s' })) start
                (enqueue job context s) (record { first = v.first; next = longer })
                (λ old. ground arith) (λ failure new. ground arith))

  raise_if_broken-IsOrdered : IsOrdered y → IsOrdered (deliver (raise_if_broken y.sched) y)
  unfolding raise_if_broken deliver
  raise_if_broken-IsOrdered v = elim (Option-cases y.sched.broken) [
    | inl e ↦ simp e v
    | inr (f, e) ↦ simp e v
  ]

  deliver-IsOrdered :
      (owned : Option (C → Bool))
      → IsOrdered y
      → IsOrdered (deliver (take_completion_nowait owned y.sched) y)
  unfolding deliver hand_over
  deliver-IsOrdered owned v =
      take_cases (λ r. IsOrdered (deliver r y)) owned y.sched (raise_if_broken-IsOrdered v)
        λ c rest splits. record { first = v.first; next = v.next }

  worker_takes-IsOrdered : IsOrdered y → IsOrdered (take_work (take_admitted y.sched) y)
  unfolding take_work
  worker_takes-IsOrdered v =
      take_admitted_cases (λ r. IsOrdered (take_work r y)) y.sched
        (λ e. record { first = v.first; next = v.next })
        λ a rest e f.
          let v' = v.next e in
          let (here', rest_next) =
            queue_shorter a rest (length y.started) (queue_is (length y.started) f v'.0) in
          let longer = length-snoc y.started a.ticket in
          record {
            first =
                rw (longer, here')
                  (ap (λ l. l ++ length y.started ∷ []) v.first
                    ∙ upto-zero-snoc (length y.started));
            next =
                λ u. (rw longer rest_next, let f' = ap length f in omega (arith, v'.1, f', longer));
          }

  finishes-IsOrdered :
      (a : Admitted J C) (rest : List (Admitted J C)) (r : Result F O)
      → IsOrdered y
      → IsOrdered (record y { sched = finish a r y.sched; in_flight = rest })
  unfolding finish broken_with
  finishes-IsOrdered a rest (ok completed) v = record { first = v.first; next = v.next }
  finishes-IsOrdered a rest (err failure) v =
      break_cases (λ s'. IsOrdered (record y { sched = announce_change s'; in_flight = rest }))
        failure _ (λ old. record { first = v.first; next = v.next }) (λ new. ground arith)

  shutdown_ends-IsOrdered :
      (preserve : Bool)
      → length y.sched.pending ≡ 0
      → IsOrdered y
      → IsOrdered (record y {
        sched = shutdown_end preserve y.sched;
        exited = 0;
        forgot = if preserve then y.forgot else true;
      })
  unfolding shutdown_end discard
  shutdown_ends-IsOrdered true e v = record {
    first = v.first;
    next = λ u. (refl, omega (arith, (v.next u).1));
  }
  shutdown_ends-IsOrdered false e v = record {
    first = v.first;
    next = λ u. (refl, omega (arith, (v.next u).1));
  }

  -- Every event keeps the order.
  step-IsOrdered :
      {bound : ℕ} (e : Event J C O F) → IsCounted bound y → IsOrdered y → IsOrdered (step e y)
  unfolding step close_intake cancel_all expire shutdown_begin discard discard_completions
      release_owned
  step-IsOrdered (admits job context start) c v = admits-IsOrdered job context start v
  step-IsOrdered closes c v = record { first = v.first; next = v.next }
  step-IsOrdered cancels c v = record { first = v.first; next = v.next }
  step-IsOrdered expires c v = record { first = v.first; next = v.next }
  step-IsOrdered (takes_nowait owned) c v = deliver-IsOrdered owned v
  step-IsOrdered takes c v =
      if_cases IsOrdered (completion_due y.sched)
        (λ _. rw (take_completion-nowait y.sched) (deliver-IsOrdered none v)) (λ _. v)
  step-IsOrdered worker_takes c v =
      if_cases IsOrdered (some_worker_waits y && work_due y.sched) (λ _. worker_takes-IsOrdered v)
        (λ _. v)
  step-IsOrdered (finishes place r) c v =
      finish_cases IsOrdered y place r v (λ a rest splits. finishes-IsOrdered a rest r v)
  step-IsOrdered (releases owned) c v = record { first = v.first; next = v.next }
  step-IsOrdered shutdown_begins c v = record { first = v.first; next = v.next }
  step-IsOrdered (shutdown_ends preserve) c v =
      if_cases IsOrdered (all_joined y)
        (λ e. shutdown_ends-IsOrdered preserve (joined_no_queue y e c) v) (λ _. v)
  step-IsOrdered discards c v =
      if_cases IsOrdered (all_joined y && y.sched.workers == 0)
        (λ e. record { first = v.first; next = v.next }) (λ _. v)

pub run-IsOrdered :
    {J C O F : Type 0} {bound : ℕ} (es : List (Event J C O F)) (y : System J C O F)
    → IsCounted bound y
    → IsOrdered y
    → IsOrdered (run es y)
unfolding run
run-IsOrdered [] y c v = v
run-IsOrdered (e ∷ es) y c v =
    run-IsOrdered es (step e y) (step-IsCounted y e c) (step-IsOrdered y e c v)

pub fresh-IsOrdered :
    {J C O F : Type 0} (capacity : ℕ) (s : Scheduler J C O F)
    → new_scheduler capacity ≡ ok s
    → IsOrdered (fresh_system s)
unfolding new_scheduler
fresh-IsOrdered capacity s made = ground arith
