-- ===== src/Scheduling/Scheduler/Delivery.antt =====
-- The operations of `ExecutionScheduler` that hand completions over or drop them (scheduler.py):
-- `take_completion_nowait`, `take_completion`, `release_owned`, `discard_completions`, `shutdown`.
use dr_exec.Prelude.{
  ℕ, ◌-◌, Bool, true, not, ◌&&◌, ◌||◌, Option, none, some, List, [], ◌∷◌, ◌==◌, is_empty,
  if◌then◌else◌,
}
use dr_exec.Prelude.Results.{Result, ok, err}
use dr_exec.Scheduling.Scheduler.State.{
  Completion, SchedulerError, scheduler_broken, Scheduler, without, is_broken_by, announce_change,
}

module _ {C O : Type 0} where
  -- `popleft()` of a buffer that may be empty.
  unfoldable pub split_first :
      List (Completion C O) → Option (Completion C O × List (Completion C O))
  split_first [] = none
  split_first (c ∷ cs) = some (c, cs)

  -- The oldest completion that the driver owns, and the others in order.
  unfoldable pub split_owned :
      (C → Bool) → List (Completion C O) → Option (Completion C O × List (Completion C O))
  split_owned owned [] = none
  split_owned owned (c ∷ cs) =
      let rest = split_owned owned cs in
      if owned c.context
      then some (c, cs)
      else elim rest [ none ↦ none | some (d, ds) ↦ some (d, c ∷ ds) ]

  -- `release_owned`: the completions that stay.
  unfoldable pub not_owned : (C → Bool) → List (Completion C O) → List (Completion C O)
  not_owned owned [] = []
  not_owned owned (c ∷ cs) =
      let rest = not_owned owned cs in if owned c.context then rest else c ∷ rest

  -- The loop of `release_owned` over the buffer: the tickets that it pops, and the residents that it
  -- leaves. Each completion has a place, so the difference is that of Python.
  unfoldable pub pop_owned : (C → Bool) → List (Completion C O) → List (ℕ × ℕ) → List (ℕ × ℕ)
  pop_owned owned [] tokens = tokens
  pop_owned owned (c ∷ cs) tokens =
      pop_owned owned cs (if owned c.context then without c.ticket tokens else tokens)

  unfoldable pub free_owned : (C → Bool) → List (Completion C O) → ℕ → ℕ
  free_owned owned [] residents = residents
  free_owned owned (c ∷ cs) residents =
      free_owned owned cs (if owned c.context then residents - 1 else residents)

-- What a call that takes returns or raises, and the scheduler after it.
abbrev pub Taken : Type 0 → Type 0 → Type 0 → Type 0 → Type 0
Taken J C O F = Result (SchedulerError F) (Option (Completion C O)) × Scheduler J C O F

module _ {J C O F : Type 0} where
  -- `_raise_if_broken` followed by `return None`.
  unfoldable pub raise_if_broken : Scheduler J C O F → Taken J C O F
  raise_if_broken s = (elim s.broken [ none ↦ ok none | some f ↦ err (scheduler_broken f) ], s)

  -- A completion leaves the buffer, its ticket and its place with it. There are at least as many
  -- residents as completions, so the difference is that of Python.
  unfoldable pub hand_over :
      Completion C O → List (Completion C O) → Scheduler J C O F → Scheduler J C O F
  hand_over c rest s =
      announce_change
        (record s { ready = rest; tokens = without c.ticket s.tokens; residents = s.residents - 1 })

  -- The completion that was found, if one was.
  unfoldable pub take_found :
      Option (Completion C O × List (Completion C O)) → Scheduler J C O F → Taken J C O F
  take_found none s = raise_if_broken s
  take_found (some (c, rest)) s = (ok (some c), hand_over c rest s)

  -- `_take_ready`, and what its callers do on an empty buffer.
  unfoldable pub take_ready : Scheduler J C O F → Taken J C O F
  take_ready s = take_found (split_first s.ready) s

  -- `_take_ready_owned`, and what its caller does when it finds nothing.
  unfoldable pub take_ready_owned : (C → Bool) → Scheduler J C O F → Taken J C O F
  take_ready_owned owned s = take_found (split_owned owned s.ready) s

  -- `take_completion_nowait(owned_by=...)`.
  unfoldable pub take_completion_nowait : Option (C → Bool) → Scheduler J C O F → Taken J C O F
  take_completion_nowait none s = take_ready s
  take_completion_nowait (some owned) s = take_ready_owned owned s

  -- What `take_completion` waits for, and what it does then.
  unfoldable pub completion_due : Scheduler J C O F → Bool
  completion_due s =
      not (is_empty s.ready) || is_broken_by s.broken || (s.running == 0 && is_empty s.pending)

  unfoldable pub take_completion : Scheduler J C O F → Taken J C O F
  take_completion s = take_ready s

  -- What `wait_for_quiescence` waits for.
  unfoldable pub quiescent : Scheduler J C O F → Bool
  quiescent s = s.running == 0 && is_empty s.pending

  -- `_discard_completions`.
  unfoldable pub discard : Scheduler J C O F → Scheduler J C O F
  discard s = record s { ready = []; tokens = []; residents = 0 }

  unfoldable pub discard_completions : Scheduler J C O F → Scheduler J C O F
  discard_completions s = announce_change (discard s)

  unfoldable pub release_owned : (C → Bool) → Scheduler J C O F → Scheduler J C O F
  release_owned owned s = announce_change (record s {
    ready = not_owned owned s.ready;
    tokens = pop_owned owned s.ready s.tokens;
    residents = free_owned owned s.ready s.residents;
  })

  -- `shutdown`: what it does before it joins the workers, and after.
  unfoldable pub shutdown_begin : Scheduler J C O F → Scheduler J C O F
  shutdown_begin s = announce_change (record s { intake_closed = true })

  unfoldable pub shutdown_end : Bool → Scheduler J C O F → Scheduler J C O F
  shutdown_end preserve_completions s =
      let s' : Scheduler J C O F = record s { workers = 0; pending = [] } in
      announce_change (if preserve_completions then s' else discard s')
