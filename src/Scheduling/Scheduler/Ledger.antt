-- ===== src/Scheduling/Scheduler/Ledger.antt =====
-- Where each ticket of `ExecutionScheduler` is (scheduler.py), in every interleaving.
use dr_exec.Prelude.{
  ℕ, ◌+◌, ◌≤◌, ◌≡◌, ap, refl, inl, inr, Bool, false, Option-cases, if_cases, ◌&&◌, ◌==◌, ltb,
  Option, none, List, [], ◌∷◌, arith, length, count_of, count_of-append, if◌then◌else◌,
}
use dr_exec.Prelude.Results.{Result, ok, err}
use dr_exec.Scheduling.Scheduler.State.{
  Admitted, Completion, Scheduler, is_broken_by, new_scheduler, announce_change,
}
use dr_exec.Scheduling.Scheduler.Intake.{
  broken_with, enqueue, admit, close_intake, cancel_all, expire,
}
use dr_exec.Scheduling.Scheduler.Delivery.{
  raise_if_broken, hand_over, take_completion_nowait, not_owned, completion_due, discard,
  discard_completions, release_owned, shutdown_begin, shutdown_end,
}
use dr_exec.Scheduling.Scheduler.Work.{work_due, take_admitted, finish}
use dr_exec.Scheduling.Scheduler.System.{
  Event, System, admits, closes, cancels, expires, takes_nowait, takes, worker_takes, finishes,
  releases, shutdown_begins, shutdown_ends, discards, fresh_system, deliver, take_work,
  some_worker_waits, all_joined, step, run,
}
use dr_exec.Scheduling.Scheduler.Released.{Splits}
use dr_exec.Scheduling.Scheduler.Bounds.{IsCounted, joined_no_queue, step-IsCounted}
use dr_exec.Scheduling.Scheduler.Cases.{
  admit_cases, ensure_worker_cases, start_worker_cases, take_admitted_cases, break_cases,
  take_cases, take_completion-nowait, finish_cases,
}

-- How often a ticket stands among queued or running jobs, and among completions.
abbrev pub queued : {J C : Type 0} → ℕ → List (Admitted J C) → ℕ
queued t = count_of (λ a. a.ticket) t

abbrev pub finished : {C O : Type 0} → ℕ → List (Completion C O) → ℕ
finished t = count_of (λ c. c.ticket) t

-- How often the machine holds a ticket: queued, in flight, buffered or delivered.
abbrev pub held : {J C O F : Type 0} → ℕ → System J C O F → ℕ
held t y =
    queued t y.sched.pending
    + queued t y.in_flight
    + finished t y.sched.ready
    + finished t y.delivered

-- The ticket is held at most once, if it was given out; and while the scheduler is not broken and no
-- driver had completions dropped, every ticket given out is held.
pub record IsOnce {J C O F : Type 0} (t : ℕ) (y : System J C O F) : Type 0 where
  pub once : held t y ≤ (if ltb t y.sched.next_ticket then 1 else 0)
  pub kept :
      is_broken_by y.sched.broken ≡ false
      → y.forgot ≡ false
      → held t y ≡ (if ltb t y.sched.next_ticket then 1 else 0)

pub count_of-Splits {ℓ} :
    {A : Type ℓ} (f : A → ℕ) (t : ℕ) (xs : List A) (x : A) (rest : List A)
    → Splits xs x rest
    → count_of f t xs ≡ count_of f t (x ∷ rest)
count_of-Splits f t xs x rest (l, r, whole, left) =
    rw (whole, left) (omega (arith, count_of-append f t l (x ∷ r), count_of-append f t l r))

finished-not_owned :
    {C O : Type 0} (t : ℕ) (owned : C → Bool) (cs : List (Completion C O))
    → finished t (not_owned owned cs) ≤ finished t cs
unfolding not_owned
finished-not_owned t owned [] = omega arith
finished-not_owned t owned (c ∷ cs) = ground (arith, finished-not_owned t owned cs)

queued-nil : {J C : Type 0} (t : ℕ) (as' : List (Admitted J C)) → length as' ≡ 0 → queued t as' ≡ 0
queued-nil t [] h = refl
queued-nil t (a ∷ as') h = absurd (omega arith)

module _ {J C O F : Type 0} {t : ℕ} (y : System J C O F) where
  admits-IsOnce :
      (job : J) (context : C) (start : Option F)
      → IsOnce t y
      → IsOnce t (record y { sched = (admit job context start y.sched).1 })
  unfolding enqueue broken_with
  admits-IsOnce job context start v =
      let s : Scheduler J C O F = y.sched in
      let entered : Admitted J C = record {
        ticket = s.next_ticket;
        job = job;
        context = context;
        cancellation = s.heap.made;
      } in
      let longer = count_of-append (λ (a : Admitted J C). a.ticket) t s.pending (entered ∷ []) in
      admit_cases (λ s'. IsOnce t (record y { sched = s' })) job context start s v
        λ open' room.
          ensure_worker_cases (λ s'. IsOnce t (record y { sched = announce_change s' })) start
            (enqueue job context s) (λ enough. ground arith)
            (λ needed few.
              start_worker_cases (λ s'. IsOnce t (record y { sched = announce_change s' })) start
                (enqueue job context s) (ground arith) (λ old. ground arith)
                (λ failure new. ground arith))

  raise_if_broken-IsOnce : IsOnce t y → IsOnce t (deliver (raise_if_broken y.sched) y)
  unfolding raise_if_broken deliver
  raise_if_broken-IsOnce v = elim (Option-cases y.sched.broken) [
    | inl e ↦ simp e v
    | inr (f, e) ↦ simp e v
  ]

  deliver-IsOnce :
      (owned : Option (C → Bool))
      → IsOnce t y
      → IsOnce t (deliver (take_completion_nowait owned y.sched) y)
  unfolding deliver hand_over
  deliver-IsOnce owned v =
      take_cases (λ r. IsOnce t (deliver r y)) owned y.sched (raise_if_broken-IsOnce v)
        λ c rest splits.
          let before =
            count_of-Splits (λ (d : Completion C O). d.ticket) t y.sched.ready c rest splits in
          let after = count_of-append (λ (d : Completion C O). d.ticket) t y.delivered (c ∷ []) in
          ground arith

  worker_takes-IsOnce : IsOnce t y → IsOnce t (take_work (take_admitted y.sched) y)
  unfolding take_work
  worker_takes-IsOnce v =
      take_admitted_cases (λ r. IsOnce t (take_work r y)) y.sched (λ e. ground arith)
        λ a rest e f. let f' = ap (queued t) f in ground arith

  finishes-IsOnce :
      (a : Admitted J C) (rest : List (Admitted J C)) (r : Result F O)
      → Splits y.in_flight a rest
      → IsOnce t y
      → IsOnce t (record y { sched = finish a r y.sched; in_flight = rest })
  unfolding finish broken_with
  finishes-IsOnce a rest (ok completed) splits v =
      let before = count_of-Splits (λ (b : Admitted J C). b.ticket) t y.in_flight a rest splits in
      let done : Completion C O = record {
        ticket = a.ticket;
        completed_execution = completed;
        context = a.context;
      } in
      let after = count_of-append (λ (d : Completion C O). d.ticket) t y.sched.ready (done ∷ []) in
      ground arith
  finishes-IsOnce a rest (err failure) splits v =
      let before = count_of-Splits (λ (b : Admitted J C). b.ticket) t y.in_flight a rest splits in
      break_cases (λ s'. IsOnce t (record y { sched = announce_change s'; in_flight = rest }))
        failure _ (λ old. ground arith) (λ new. ground arith)

  -- Every event keeps the ledger right.
  pub step-IsOnce :
      {bound : ℕ} (e : Event J C O F) → IsCounted bound y → IsOnce t y → IsOnce t (step e y)
  unfolding step close_intake cancel_all expire shutdown_begin shutdown_end discard
      discard_completions release_owned
  step-IsOnce (admits job context start) c v = admits-IsOnce job context start v
  step-IsOnce closes c v = ground arith
  step-IsOnce cancels c v = ground arith
  step-IsOnce expires c v = ground arith
  step-IsOnce (takes_nowait owned) c v = deliver-IsOnce owned v
  step-IsOnce takes c v =
      if_cases (IsOnce t) (completion_due y.sched)
        (λ _. rw (take_completion-nowait y.sched) (deliver-IsOnce none v)) (λ _. v)
  step-IsOnce worker_takes c v =
      if_cases (IsOnce t) (some_worker_waits y && work_due y.sched) (λ _. worker_takes-IsOnce v)
        (λ _. v)
  step-IsOnce (finishes place r) c v =
      finish_cases (IsOnce t) y place r v (λ a rest splits. finishes-IsOnce a rest r splits v)
  step-IsOnce (releases owned) c v = ground (arith, finished-not_owned t owned y.sched.ready)
  step-IsOnce shutdown_begins c v = ground arith
  step-IsOnce (shutdown_ends preserve) c v =
      if_cases (IsOnce t) (all_joined y)
        (λ e. let e' = queued-nil t y.sched.pending (joined_no_queue y e c) in ground arith)
        (λ _. v)
  step-IsOnce discards c v =
      if_cases (IsOnce t) (all_joined y && y.sched.workers == 0) (λ e. ground arith) (λ _. v)

pub run-IsOnce :
    {J C O F : Type 0} {bound t : ℕ} (es : List (Event J C O F)) (y : System J C O F)
    → IsCounted bound y
    → IsOnce t y
    → IsOnce t (run es y)
unfolding run
run-IsOnce [] y c v = v
run-IsOnce (e ∷ es) y c v = run-IsOnce es (step e y) (step-IsCounted y e c) (step-IsOnce y e c v)

pub fresh-IsOnce :
    {J C O F : Type 0} (t capacity : ℕ) (s : Scheduler J C O F)
    → new_scheduler capacity ≡ ok s
    → IsOnce t (fresh_system s)
unfolding new_scheduler
fresh-IsOnce t capacity s made = ground arith
