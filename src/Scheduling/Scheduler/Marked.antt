-- ===== src/Scheduling/Scheduler/Marked.antt =====
-- The single events of the scheduler (scheduler.py) and the tokens of the work that it holds.
use dr_exec.Prelude.{
  ℕ, ◌-◌, ◌+◌, ◌≤◌, refl, inl, inr, Bool, Option-cases, Option, List, [], ◌∷◌, arith,
  count_of-append,
}
use dr_exec.Prelude.Results.{Result, ok, err}
use dr_exec.Core.Cancel.{cancel_each}
use dr_exec.Scheduling.Scheduler.State.{
  Admitted, Completion, Scheduler, announce_change, values, without,
}
use dr_exec.Scheduling.Scheduler.Intake.{broken_with, enqueue, admit}
use dr_exec.Scheduling.Scheduler.Delivery.{
  raise_if_broken, hand_over, take_completion_nowait, release_owned,
}
use dr_exec.Scheduling.Scheduler.Work.{take_admitted, finish}
use dr_exec.Scheduling.Scheduler.System.{System, deliver, take_work}
use dr_exec.Scheduling.Scheduler.Released.{Splits}
use dr_exec.Scheduling.Scheduler.Ledger.{queued, IsOnce, count_of-Splits}
use dr_exec.Scheduling.Scheduler.Tokens.{pop_owned-Shares, cancel_values}
use dr_exec.Scheduling.Scheduler.Cancellation.{
  IsMarked, Apart, new_apart, enqueue-IsMarked, broken_with-IsMarked, started-IsMarked,
  removed-IsMarked, without-IsMarked, same-IsMarked,
}
use dr_exec.Scheduling.Scheduler.Cases.{
  admit_cases, ensure_worker_cases, start_worker_cases, take_admitted_cases, break_cases,
  take_cases,
}

abbrev pub AllMarked : {J C O F : Type 0} → System J C O F → Type 0
AllMarked y = IsMarked y.sched y.in_flight

module _ {J C O F : Type 0} (y : System J C O F) where
  pub enqueued_apart :
      (job : J) (context : C)
      → ((t : ℕ) → IsOnce t y)
      → (t : ℕ) → queued t (enqueue job context y.sched).pending + queued t y.in_flight ≤ 1
  unfolding enqueue
  enqueued_apart job context once t =
      let s : Scheduler J C O F = y.sched in
      let entered : Admitted J C = record {
        ticket = s.next_ticket;
        job = job;
        context = context;
        cancellation = s.heap.made;
      } in
      let longer = count_of-append (λ (a : Admitted J C). a.ticket) t s.pending (entered ∷ []) in
      let o = once t in ground arith

  pub admits-AllMarked :
      (job : J) (context : C) (start : Option F)
      → ((t : ℕ) → IsOnce t y)
      → AllMarked y
      → IsMarked (admit job context start y.sched).1 y.in_flight
  admits-AllMarked job context start once v =
      let s : Scheduler J C O F = y.sched in
      let u : Scheduler J C O F = enqueue job context s in
      let apart = new_apart y (once s.next_ticket) in
      let entered : IsMarked u y.in_flight = enqueue-IsMarked job context s apart.0 apart.1 v in
      admit_cases (λ s'. IsMarked s' y.in_flight) job context start s v
        λ open' room.
          ensure_worker_cases (λ s'. IsMarked (announce_change s') y.in_flight) start u
            (λ enough. same-IsMarked u _ refl refl refl refl entered)
            (λ needed few.
              start_worker_cases (λ s'. IsMarked (announce_change s') y.in_flight) start u
                (same-IsMarked u _ refl refl refl refl entered)
                (λ old. same-IsMarked u _ refl refl refl refl entered)
                (λ failure new.
                  same-IsMarked (broken_with failure u) _ refl refl refl refl
                    (broken_with-IsMarked failure u (enqueued_apart job context once) entered)))

  pub raise_if_broken-AllMarked : AllMarked y → AllMarked (deliver (raise_if_broken y.sched) y)
  unfolding raise_if_broken deliver
  raise_if_broken-AllMarked v = elim (Option-cases y.sched.broken) [
    | inl e ↦ simp e v
    | inr (f, e) ↦ simp e v
  ]

  pub deliver-AllMarked :
      (owned : Option (C → Bool))
      → Apart y
      → AllMarked y
      → AllMarked (deliver (take_completion_nowait owned y.sched) y)
  unfolding deliver hand_over
  deliver-AllMarked owned apart v =
      take_cases (λ r. AllMarked (deliver r y)) owned y.sched (raise_if_broken-AllMarked v)
        λ c rest splits.
          let before =
            count_of-Splits (λ (d : Completion C O). d.ticket) c.ticket y.sched.ready c rest
              splits in
          let o = apart c.ticket in
          same-IsMarked (record y.sched { tokens = without c.ticket y.sched.tokens }) _ refl refl
            refl refl (without-IsMarked c.ticket y.sched (ground arith) (ground arith) v)

  pub worker_takes-AllMarked : AllMarked y → AllMarked (take_work (take_admitted y.sched) y)
  unfolding take_work
  worker_takes-AllMarked v =
      take_admitted_cases (λ r. AllMarked (take_work r y)) y.sched (λ e. v)
        (λ a rest e f. started-IsMarked a rest y.sched f v)

  pub finishes-AllMarked :
      (a : Admitted J C) (rest : List (Admitted J C)) (r : Result F O)
      → Apart y
      → Splits y.in_flight a rest
      → AllMarked y
      → IsMarked (finish a r y.sched) rest
  unfolding finish
  finishes-AllMarked a rest (ok completed) apart splits v =
      same-IsMarked y.sched _ refl refl refl refl (removed-IsMarked a rest y.sched splits v)
  finishes-AllMarked a rest (err failure) apart splits v =
      let at =
        λ (t : ℕ). count_of-Splits (λ (b : Admitted J C). b.ticket) t y.in_flight a rest splits in
      let at_a = at a.ticket in
      let o = apart a.ticket in
      let left : IsMarked (record y.sched { tokens = without a.ticket y.sched.tokens }) rest =
        without-IsMarked a.ticket y.sched (ground arith) (ground arith)
          (removed-IsMarked a rest y.sched splits v) in
      let ended : Scheduler J C O F = record y.sched {
        running = y.sched.running - 1;
        tokens = without a.ticket y.sched.tokens;
      } in
      break_cases (λ s'. IsMarked (announce_change s') rest) failure ended
        (λ old. same-IsMarked _ _ refl refl refl refl left)
        (λ new. same-IsMarked (broken_with failure ended) _ refl refl refl refl (
          broken_with-IsMarked failure ended
            (λ t. let here' = at t in let o' = apart t in ground arith)
            (same-IsMarked _ ended refl refl refl refl left)))

  pub cancels-AllMarked :
      (e : Bool)
      → AllMarked y
      → IsMarked
          (announce_change (record y.sched {
            expired = e;
            heap = cancel_each (values y.sched.tokens) y.sched.heap;
          }))
          y.in_flight
  cancels-AllMarked e v = record {
    queue_shares = v.queue_shares;
    flight_shares = v.flight_shares;
    queue_marked = λ _. cancel_values y.sched.tokens y.sched.heap y.sched.pending v.queue_shares;
    flight_marked = λ _. cancel_values y.sched.tokens y.sched.heap y.in_flight v.flight_shares;
  }

  pub releases-AllMarked :
      (owned : C → Bool)
      → Apart y
      → AllMarked y
      → IsMarked (release_owned owned y.sched) y.in_flight
  unfolding release_owned
  releases-AllMarked owned apart v = record {
    queue_shares =
        pop_owned-Shares owned y.sched.ready y.sched.tokens y.sched.pending
          (λ t. let o = apart t in ground arith) v.queue_shares;
    flight_shares =
        pop_owned-Shares owned y.sched.ready y.sched.tokens y.in_flight
          (λ t. let o = apart t in ground arith) v.flight_shares;
    queue_marked = v.queue_marked;
    flight_marked = v.flight_marked;
  }
