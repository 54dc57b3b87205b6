-- ===== src/Scheduling/Scheduler/State.antt =====
-- The state of `ExecutionScheduler` (src/dr_exec/scheduling/scheduler.py, lines 23 to 103). Jobs,
-- contexts, completed executions and failures are opaque to it: they are the types J, C, O and F.
use dr_exec.Prelude.{
  ℕ, suc, Bool, true, false, not, ◌&&◌, Option, none, some, List, [], ◌∷◌, ◌==◌, ltb, if◌then◌else◌,
}
use dr_exec.Prelude.Results.{Result, ok, err}
use dr_exec.Core.Cancel.{Tokens, no_tokens}

pub data AdmissionResult : Type 0 where
  admitted intake_closed no_room : AdmissionResult

-- `cancellation` is the address of the token.
pub record Admitted (J C : Type 0) : Type 0 where
  pub ticket : ℕ
  pub job : J
  pub context : C
  pub cancellation : ℕ

pub record Completion (C O : Type 0) : Type 0 where
  pub ticket : ℕ
  pub completed_execution : O
  pub context : C

-- The exceptions of this module: the constructor's, and `SchedulerBroken` with its cause.
pub data SchedulerError (F : Type 0) : Type 0 where
  capacity_must_be_positive : SchedulerError F
  scheduler_broken : F → SchedulerError F

-- `heap` is the memory that holds the tokens. `workers` is `len(self._workers)`. `changes` counts
-- the calls of `_announce_change`: each of them notifies every waiter and calls `notify_change`.
pub record Scheduler (J C O F : Type 0) : Type 0 where
  pub heap : Tokens
  pub capacity : ℕ
  pub pending : List (Admitted J C)
  pub ready : List (Completion C O)
  pub tokens : List (ℕ × ℕ)
  pub workers : ℕ
  pub next_ticket : ℕ
  pub residents : ℕ
  pub running : ℕ
  pub intake_closed : Bool
  pub expired : Bool
  pub broken : Option F
  pub changes : ℕ

-- The dictionary `_tokens`, from tickets to tokens: `d[k] = v`, `d.pop(k, None)`, `d.get(k)`.
unfoldable pub put : ℕ → ℕ → List (ℕ × ℕ) → List (ℕ × ℕ)
put k v [] = (k, v) ∷ []
put k v ((j, w) ∷ m) = if j == k then (k, v) ∷ m else (j, w) ∷ put k v m

unfoldable pub without : ℕ → List (ℕ × ℕ) → List (ℕ × ℕ)
without k [] = []
without k ((j, w) ∷ m) = let rest = without k m in if j == k then rest else (j, w) ∷ rest

unfoldable pub lookup : ℕ → List (ℕ × ℕ) → Option ℕ
lookup k [] = none
lookup k ((j, w) ∷ m) = if j == k then some w else lookup k m

-- `d.values()`.
unfoldable pub values : List (ℕ × ℕ) → List ℕ
values [] = []
values ((j, w) ∷ m) = w ∷ values m

abbrev pub is_broken_by {ℓ} : {F : Type ℓ} → Option F → Bool
is_broken_by none = false
is_broken_by (some f) = true

module _ {J C O F : Type 0} where
  -- `ExecutionScheduler(executor, capacity)`.
  unfoldable pub new_scheduler : ℕ → Result (SchedulerError F) (Scheduler J C O F)
  new_scheduler capacity =
      if ltb capacity 1
      then err capacity_must_be_positive
      else ok (record {
        heap = no_tokens;
        capacity = capacity;
        pending = [];
        ready = [];
        tokens = [];
        workers = 0;
        next_ticket = 0;
        residents = 0;
        running = 0;
        intake_closed = false;
        expired = false;
        broken = none;
        changes = 0;
      })

  abbrev pub announce_change : Scheduler J C O F → Scheduler J C O F
  announce_change s = record s { changes = suc s.changes }

  unfoldable pub can_admit : Scheduler J C O F → Bool
  can_admit s = ltb s.residents s.capacity && not s.intake_closed

  unfoldable pub has_residents : Scheduler J C O F → Bool
  has_residents s = ltb 0 s.residents

  unfoldable pub is_broken : Scheduler J C O F → Bool
  is_broken s = is_broken_by s.broken
