-- ===== src/Execution/Workers/Slots.antt =====
-- The state of `_WorkerSet` in src/dr_exec/execution/worker_pool.py, and where each thread stands that is
-- in one of its methods. Worker processes are numbers.
use dr_exec.Prelude.{
  ℕ, zero, suc, if◌then◌else◌, ◌+◌, Bool, false, ◌||◌, Option, none, List, [], ◌∷◌, ◌==◌, length,
}

abbrev pub has : ℕ → List ℕ → Bool
has w [] = false
has w (x ∷ xs) = (w == x) || has w xs

-- `set.discard`.
unfoldable pub discard : ℕ → List ℕ → List ℕ
discard w [] = []
discard w (x ∷ xs) = let rest = discard w xs in if w == x then rest else x ∷ rest

pub data Activity : Type 0 where
  -- `lease` has taken a slot
  got : Option ℕ → Activity
  -- `lease` has spawned a worker for its slot, that is not registered
  spawned : ℕ → Activity
  -- a job has the worker
  leased : ℕ → Activity
  -- `release` has seen the set open
  releasing : ℕ → Activity
  -- `retire_and_free`, before `_retire` takes the lock, before it kills, and after it
  freeing : ℕ → Activity
  killing : ℕ → Activity
  emptied : Activity
  -- `close`, with the workers to terminate
  terminating : List ℕ → Activity
  -- `_drain_idle_workers`, in its first loop and in its second
  draining : List (Option ℕ) → Activity
  refilling : List (Option ℕ) → Activity

-- `closed` is the event, `snapshotted` whether `close` has taken the live workers; `alive` is the processes
-- that were started and not terminated.
pub record Workers : Type 0 where
  pub closed : Bool
  pub snapshotted : Bool
  pub slots : List (Option ℕ)
  pub live : List ℕ
  pub alive : List ℕ
  pub activities : List Activity

abbrev pub empty_slots : ℕ → List (Option ℕ)
empty_slots zero = []
empty_slots (suc n) = none ∷ empty_slots n

unfoldable pub new_workers : ℕ → Workers
new_workers width = record {
  closed = false;
  snapshotted = false;
  slots = empty_slots width;
  live = [];
  alive = [];
  activities = [];
}

-- The slots that an activity holds.
abbrev pub owns : Activity → ℕ
owns (got slot) = 1
owns (spawned w) = 1
owns (leased w) = 1
owns (releasing w) = 1
owns (freeing w) = 1
owns (killing w) = 1
owns emptied = 1
owns (terminating ws) = 0
owns (draining pending) = length pending
owns (refilling pending) = length pending

abbrev pub owned : List Activity → ℕ
owned [] = 0
owned (a ∷ as') = owns a + owned as'

-- Whether an activity will register or terminate a worker.
abbrev pub in_charge : ℕ → Activity → Bool
in_charge w (spawned x) = w == x
in_charge w (killing x) = w == x
in_charge w (terminating xs) = has w xs
in_charge w (got slot) = false
in_charge w (leased x) = false
in_charge w (releasing x) = false
in_charge w (freeing x) = false
in_charge w emptied = false
in_charge w (draining pending) = false
in_charge w (refilling pending) = false

abbrev pub any_in_charge : ℕ → List Activity → Bool
any_in_charge w [] = false
any_in_charge w (a ∷ as') = in_charge w a || any_in_charge w as'
