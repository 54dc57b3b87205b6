-- ===== src/Scheduling/Scheduler/Intake.antt =====
-- The operations of `ExecutionScheduler` that let work in or stop it (scheduler.py): `admit`,
-- `close_intake`, `cancel_all`, `expire`, `_ensure_worker` and `_break`.
use dr_exec.Prelude.{
  ℕ, suc, ◌-◌, true, ◌||◌, Option, none, some, List, [], ◌∷◌, ◌++◌, map, leb, length, if◌then◌else◌,
}
use dr_exec.Core.Cancel.{Tokens, new_token, cancel, cancel_each}
use dr_exec.Scheduling.Scheduler.State.{
  AdmissionResult, admitted, intake_closed, no_room, Admitted, Scheduler, put, without, values,
  is_broken_by, announce_change,
}

module _ {J C : Type 0} where
  -- The part of `_break`'s loop over the queue that forgets the tokens.
  unfoldable pub pop_queued : List (Admitted J C) → List (ℕ × ℕ) → List (ℕ × ℕ)
  pop_queued [] m = m
  pop_queued (q ∷ qs) m = pop_queued qs (without q.ticket m)

  abbrev pub cancellations : List (Admitted J C) → List ℕ
  cancellations = map λ q. q.cancellation

module _ {J C O F : Type 0} where
  -- `_break` on a scheduler that is not broken yet.
  unfoldable pub broken_with : F → Scheduler J C O F → Scheduler J C O F
  broken_with failure s = record s {
    broken = some failure;
    intake_closed = true;
    heap = cancel_each (cancellations s.pending) s.heap;
    tokens = pop_queued s.pending s.tokens;
    pending = [];
  }

  -- `_break`: only the first failure counts.
  unfoldable pub break_with : F → Scheduler J C O F → Scheduler J C O F
  break_with failure s = if is_broken_by s.broken then s else broken_with failure s

  -- `worker.start()` starts the thread, or raises the failure that is given.
  unfoldable pub start_worker : Option F → Scheduler J C O F → Scheduler J C O F
  start_worker none s = record s { workers = suc s.workers }
  start_worker (some failure) s = announce_change (break_with failure s)

  -- Never more workers run than there are, so the difference is that of Python.
  unfoldable pub ensure_worker : Option F → Scheduler J C O F → Scheduler J C O F
  ensure_worker start s =
      let idle : ℕ = s.workers - s.running in
      if leb (length s.pending) idle || leb s.capacity s.workers then s else start_worker start s

  -- The token of a submission is born cancelled once the scheduler has expired.
  unfoldable pub born : Scheduler J C O F → Tokens
  born s = let (token, heap) = new_token s.heap in if s.expired then cancel token heap else heap

  -- The submission enters the queue with a new ticket and a new token.
  unfoldable pub enqueue : J → C → Scheduler J C O F → Scheduler J C O F
  enqueue job context s =
      let ticket : ℕ = s.next_ticket in
      let token : ℕ = s.heap.made in
      record s {
        next_ticket = suc s.next_ticket;
        heap = born s;
        tokens = put ticket token s.tokens;
        pending =
            s.pending
            ++ record { ticket = ticket; job = job; context = context; cancellation = token } ∷ [];
        residents = suc s.residents;
      }

  unfoldable pub admit : J → C → Option F → Scheduler J C O F → AdmissionResult × Scheduler J C O F
  admit job context start s =
      if s.intake_closed
      then (intake_closed, s)
      else if leb s.capacity s.residents
      then (no_room, s)
      else let s' : Scheduler J C O F =
          announce_change (ensure_worker start (enqueue job context s)) in
        if is_broken_by s'.broken then (intake_closed, s') else (admitted, s')

  unfoldable pub close_intake : Scheduler J C O F → Scheduler J C O F
  close_intake s = announce_change (record s { intake_closed = true })

  unfoldable pub cancel_all : Scheduler J C O F → Scheduler J C O F
  cancel_all s = announce_change (record s { heap = cancel_each (values s.tokens) s.heap })

  unfoldable pub expire : Scheduler J C O F → Scheduler J C O F
  expire s =
      announce_change (record s { expired = true; heap = cancel_each (values s.tokens) s.heap })
