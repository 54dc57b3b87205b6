-- ===== src/Scheduling/Scheduler/Bounds.antt =====
-- The counts that `ExecutionScheduler` keeps (scheduler.py), in every interleaving.
use dr_exec.Prelude.{
  ℕ, suc, ◌+◌, ◌≤◌, ◌<◌, ◌≡◌, ◌⊎◌, ap, inl, inr, Bool, true, false, if_cases, ◌&&◌, ◌==◌,
  Option-cases, Option, none, some, List, [], ◌∷◌, arith, length, length-snoc, length-is_empty,
}
use dr_exec.Prelude.Results.{Result, ok, err}
use dr_exec.Scheduling.Scheduler.State.{
  Admitted, Completion, Scheduler, is_broken_by, new_scheduler, announce_change,
}
use dr_exec.Scheduling.Scheduler.Intake.{
  broken_with, enqueue, admit, close_intake, cancel_all, expire,
}
use dr_exec.Scheduling.Scheduler.Delivery.{
  raise_if_broken, hand_over, take_completion_nowait, completion_due, discard, discard_completions,
  release_owned, shutdown_begin, shutdown_end,
}
use dr_exec.Scheduling.Scheduler.Work.{work_due, take_admitted, finish}
use dr_exec.Scheduling.Scheduler.System.{
  Event, System, admits, closes, cancels, expires, takes_nowait, takes, worker_takes, finishes,
  releases, shutdown_begins, shutdown_ends, discards, fresh_system, deliver, take_work,
  some_worker_waits, all_joined, step, run,
}
use dr_exec.Scheduling.Scheduler.Released.{length-not_owned, free_owned_lem, length-Splits}
use dr_exec.Scheduling.Scheduler.Cases.{
  admit_cases, ensure_worker_cases, start_worker_cases, take_admitted_cases, break_cases,
  take_cases, take_completion-nowait, finish_cases,
}

-- `flying` jobs are in flight and `exited` workers have returned.
pub record Counts {J C O F : Type 0} (bound : ℕ) (s : Scheduler J C O F) (flying exited : ℕ)
    : Type 0 where
  pub bounded : s.capacity ≡ bound
  pub positive : 0 < s.capacity
  pub counted : s.running ≡ flying
  pub manned : s.running + exited ≤ s.workers
  pub few_workers : s.workers ≤ s.capacity
  pub few_residents : s.residents ≤ s.capacity
  pub resident : length s.pending + s.running + length s.ready ≤ s.residents
  pub exact :
      is_broken_by s.broken ≡ false → s.residents ≡ length s.pending + s.running + length s.ready
  pub closed_by_exit : 0 < exited → (s.intake_closed ≡ true) × (length s.pending ≡ 0)
  pub closed_by_break :
      is_broken_by s.broken ≡ true → (s.intake_closed ≡ true) × (length s.pending ≡ 0)
  pub staffed : (length s.pending + s.running ≤ s.workers) ⊎ (s.workers ≡ s.capacity)

-- The counts after `_take_admitted`: one more job in flight, or one worker fewer.
abbrev TakenCounts :
    {J C O F : Type 0} → ℕ → ℕ → ℕ → Option (Admitted J C) × Scheduler J C O F → Type 0
TakenCounts bound flying exited (none, s) = Counts bound s flying (suc exited)
TakenCounts bound flying exited (some a, s) = Counts bound s (suc flying) exited

module _ {J C O F : Type 0} {s : Scheduler J C O F} {bound flying exited : ℕ} where
  pub admit-Counts :
      (job : J) (context : C) (start : Option F)
      → Counts bound s flying exited
      → Counts bound (admit job context start s).1 flying exited
  unfolding enqueue broken_with
  admit-Counts job context start v =
      admit_cases (λ t. Counts bound t flying exited) job context start s v
        λ open' room.
          let entered : Admitted J C = record {
            ticket = s.next_ticket;
            job = job;
            context = context;
            cancellation = s.heap.made;
          } in
          let longer = length-snoc s.pending entered in
          ensure_worker_cases (λ t. Counts bound (announce_change t) flying exited) start
            (enqueue job context s) (λ enough. ground arith)
            (λ needed few.
              start_worker_cases (λ t. Counts bound (announce_change t) flying exited) start
                (enqueue job context s) (ground arith) (λ old. ground arith)
                (λ failure new. ground arith))

  hand_over-Counts :
      (c : Completion C O) (rest : List (Completion C O))
      → length s.ready ≡ suc (length rest)
      → Counts bound s flying exited
      → Counts bound (hand_over c rest s) flying exited
  unfolding hand_over
  hand_over-Counts c rest e v = ground arith

  release_owned-Counts :
      (owned : C → Bool)
      → Counts bound s flying exited
      → Counts bound (release_owned owned s) flying exited
  unfolding release_owned
  release_owned-Counts owned v =
      ground (arith, length-not_owned owned s.ready, free_owned_lem owned s.ready s.residents)

  shutdown_end-Counts :
      (preserve : Bool)
      → flying ≡ 0
      → exited ≡ s.workers
      → s.intake_closed ≡ true
      → Counts bound s flying exited
      → Counts bound (shutdown_end preserve s) flying 0
  unfolding shutdown_end discard
  shutdown_end-Counts preserve none_flies all_exited closed v = ground arith

  discard-Counts :
      flying ≡ 0
      → s.intake_closed ≡ true
      → s.workers ≡ 0
      → Counts bound s flying exited
      → Counts bound (discard_completions s) flying exited
  unfolding discard_completions discard
  discard-Counts none_flies closed no_workers v = ground arith

  take_admitted-Counts :
      flying + exited < s.workers
      → work_due s ≡ true
      → Counts bound s flying exited
      → TakenCounts bound flying exited (take_admitted s)
  unfolding work_due
  take_admitted-Counts free due v =
      take_admitted_cases (TakenCounts bound flying exited) s
        (elim [ inl e ↦ ground arith | inr e ↦ let e' = ap length e in ground arith ])
        (λ a rest e f. let f' = ap length f in ground arith)

  finish-Counts :
      (a : Admitted J C) (r : Result F O)
      → Counts bound s (suc flying) exited
      → Counts bound (finish a r s) flying exited
  unfolding finish broken_with
  finish-Counts a (ok completed) v =
      let done : Completion C O = record {
        ticket = a.ticket;
        completed_execution = completed;
        context = a.context;
      } in
      let longer = length-snoc s.ready done in ground arith
  finish-Counts a (err failure) v =
      break_cases (λ t. Counts bound (announce_change t) flying exited) failure _
        (λ old. ground arith) (λ new. ground arith)

-- The invariant of the machine: the counts, with the jobs in flight and the workers that returned.
abbrev pub IsCounted : {J C O F : Type 0} → ℕ → System J C O F → Type 0
IsCounted bound y = Counts bound y.sched (length y.in_flight) y.exited

module _ {J C O F : Type 0} {bound : ℕ} (y : System J C O F) where
  -- Once every worker has returned, nothing is queued.
  pub joined_no_queue : all_joined y ≡ true → IsCounted bound y → length y.sched.pending ≡ 0
  unfolding all_joined
  joined_no_queue joined v = let e = length-is_empty y.in_flight (ground arith) in ground arith

  take_work-IsCounted :
      (r : Option (Admitted J C) × Scheduler J C O F)
      → TakenCounts bound (length y.in_flight) y.exited r
      → IsCounted bound (take_work r y)
  unfolding take_work
  take_work-IsCounted (none, s) h = h
  take_work-IsCounted (some a, s) h = h

  raise_if_broken-IsCounted :
      IsCounted bound y → IsCounted bound (deliver (raise_if_broken y.sched) y)
  unfolding raise_if_broken deliver
  raise_if_broken-IsCounted v = elim (Option-cases y.sched.broken) [
    | inl e ↦ simp e v
    | inr (f, e) ↦ simp e v
  ]

  deliver-IsCounted :
      (owned : Option (C → Bool))
      → IsCounted bound y
      → IsCounted bound (deliver (take_completion_nowait owned y.sched) y)
  unfolding deliver
  deliver-IsCounted owned v =
      take_cases (λ r. IsCounted bound (deliver r y)) owned y.sched (raise_if_broken-IsCounted v)
        (λ c rest splits. hand_over-Counts c rest (length-Splits _ c rest splits) v)

  -- Every event keeps the counts right.
  pub step-IsCounted : (e : Event J C O F) → IsCounted bound y → IsCounted bound (step e y)
  unfolding step close_intake cancel_all expire shutdown_begin all_joined some_worker_waits
      completion_due
  step-IsCounted (admits job context start) v = admit-Counts job context start v
  step-IsCounted closes v = ground arith
  step-IsCounted cancels v = ground arith
  step-IsCounted expires v = ground arith
  step-IsCounted (takes_nowait owned) v = deliver-IsCounted owned v
  step-IsCounted takes v =
      if_cases (IsCounted bound) (completion_due y.sched)
        (λ _. rw (take_completion-nowait y.sched) (deliver-IsCounted none v)) (λ _. v)
  step-IsCounted worker_takes v =
      if_cases (IsCounted bound) (some_worker_waits y && work_due y.sched)
        (λ e. take_work-IsCounted _ (take_admitted-Counts (ground arith) (ground arith) v)) (λ _. v)
  step-IsCounted (finishes place r) v =
      finish_cases (IsCounted bound) y place r v
        (λ a rest splits. finish-Counts a r (let e = length-Splits _ a rest splits in ground arith))
  step-IsCounted (releases owned) v = release_owned-Counts owned v
  step-IsCounted shutdown_begins v = ground arith
  step-IsCounted (shutdown_ends preserve) v =
      if_cases (IsCounted bound) (all_joined y)
        (λ e.
          shutdown_end-Counts preserve (length-is_empty y.in_flight (ground arith)) (ground arith)
            (ground arith) v)
        (λ _. v)
  step-IsCounted discards v =
      if_cases (IsCounted bound) (all_joined y && y.sched.workers == 0)
        (λ e.
          discard-Counts (length-is_empty y.in_flight (ground arith)) (ground arith) (ground arith)
            v)
        (λ _. v)

pub run-IsCounted :
    {J C O F : Type 0} {bound : ℕ} (es : List (Event J C O F)) (y : System J C O F)
    → IsCounted bound y
    → IsCounted bound (run es y)
unfolding run
run-IsCounted [] y v = v
run-IsCounted (e ∷ es) y v = run-IsCounted es (step e y) (step-IsCounted y e v)

pub fresh-IsCounted :
    {J C O F : Type 0} (capacity : ℕ) (s : Scheduler J C O F)
    → new_scheduler capacity ≡ ok s
    → IsCounted capacity (fresh_system s)
unfolding new_scheduler
fresh-IsCounted capacity s made = ground arith
