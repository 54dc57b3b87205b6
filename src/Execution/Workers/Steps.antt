-- ===== src/Execution/Workers/Steps.antt =====
-- The steps of the threads in `_WorkerSet` of src/dr_exec/execution/worker_pool.py: each is one access to what
-- the threads share. A thread that is between two of them stands among the activities.
use dr_exec.Prelude.{ℕ, true, false, Option, none, some, List, [], ◌∷◌, ◌++◌, ◌≡◌}
use dr_exec.Execution.Workers.Slots.{
  has, discard, Activity, got, spawned, leased, releasing, freeing, killing, emptied, terminating,
  draining, refilling, Workers,
}

-- The state with other activities.
abbrev pub at : Workers → List Activity → Workers
at s activities = record s { activities = activities }

unfoldable pub terminate : ℕ → Workers → Workers
terminate w s = record s { alive = discard w s.alive }

unfoldable pub terminate_slot : Option ℕ → Workers → Workers
terminate_slot none s = s
terminate_slot (some w) s = terminate w s

unfoldable pub put : Option ℕ → Workers → Workers
put slot s = record s { slots = s.slots ++ slot ∷ [] }

module _ (xs ys : List Activity) where
  -- What the thread `a` between `xs` and `ys` may do next.
  pub data Moves (s : Workers) : Activity → Workers → Type 0 where
    -- `lease`, with a worker in the slot
    lease_open : (w : ℕ) → s.closed ≡ false → Moves s (got (some w)) (at s (xs ++ leased w ∷ ys))
    lease_closed : (w : ℕ) → s.closed ≡ true → Moves s (got (some w)) (at s (xs ++ freeing w ∷ ys))
    -- `lease`, with an empty slot: a process that was never started before, or none
    spawns :
        (w : ℕ)
        → has w s.alive ≡ false
        → Moves s (got none) (at (record s { alive = w ∷ s.alive }) (xs ++ spawned w ∷ ys))
    spawn_fails : Moves s (got none) (at (put none s) (xs ++ ys))
    registers :
        (w : ℕ)
        → s.closed ≡ false
        → Moves s (spawned w) (at (record s { live = w ∷ s.live }) (xs ++ leased w ∷ ys))
    registers_closed :
        (w : ℕ) → s.closed ≡ true → Moves s (spawned w) (at (put none (terminate w s)) (xs ++ ys))
    -- the exit of a lease
    releases : (w : ℕ) → s.closed ≡ false → Moves s (leased w) (at s (xs ++ releasing w ∷ ys))
    releases_closed : (w : ℕ) → s.closed ≡ true → Moves s (leased w) (at s (xs ++ freeing w ∷ ys))
    discards : (w : ℕ) → Moves s (leased w) (at s (xs ++ freeing w ∷ ys))
    puts_back : (w : ℕ) → Moves s (releasing w) (at (put (some w) s) (xs ++ ys))
    -- `_retire`
    retires :
        (w : ℕ)
        → has w s.live ≡ true
        → Moves s (freeing w) (at (record s { live = discard w s.live }) (xs ++ killing w ∷ ys))
    retired_before :
        (w : ℕ) → has w s.live ≡ false → Moves s (freeing w) (at s (xs ++ emptied ∷ ys))
    kills : (w : ℕ) → Moves s (killing w) (at (terminate w s) (xs ++ emptied ∷ ys))
    frees : Moves s emptied (at (put none s) (xs ++ ys))
    -- `close`, after the snapshot
    terminates :
        (w : ℕ) (ws : List ℕ)
        → Moves s (terminating (w ∷ ws)) (at (terminate w s) (xs ++ terminating ws ∷ ys))
    drains : Moves s (terminating []) (at s (xs ++ draining [] ∷ ys))
    takes :
        (slot : Option ℕ) (slots : List (Option ℕ)) (pending : List (Option ℕ))
        → s.slots ≡ slot ∷ slots
        → Moves s
            (draining pending)
            (at (record s { slots = slots }) (xs ++ draining (pending ++ slot ∷ []) ∷ ys))
    took_all :
        (pending : List (Option ℕ))
        → s.slots ≡ []
        → Moves s (draining pending) (at s (xs ++ refilling pending ∷ ys))
    refills :
        (slot : Option ℕ) (pending : List (Option ℕ))
        → Moves s
            (refilling (slot ∷ pending))
            (at (put none (terminate_slot slot s)) (xs ++ refilling pending ∷ ys))
    refilled : Moves s (refilling []) (at s (xs ++ ys))

-- One step of any thread.
pub data Step (s : Workers) : Workers → Type 0 where
  -- `lease`, which has seen the set open, takes the first slot
  takes_slot :
      (slot : Option ℕ) (slots : List (Option ℕ))
      → s.slots ≡ slot ∷ slots
      → Step s (record s { slots = slots; activities = got slot ∷ s.activities })
  -- `close` sets the event, and takes the live workers under the lock
  closes : Step s (record s { closed = true })
  snapshots :
      s.closed ≡ true
      → Step s (record s {
        snapshotted = true;
        live = [];
        activities = terminating s.live ∷ s.activities;
      })
  moves :
      (xs ys : List Activity) (a : Activity) (t : Workers)
      → s.activities ≡ xs ++ a ∷ ys
      → Moves xs ys s a t
      → Step s t

-- Any interleaving of the threads.
pub data Reached (s : Workers) : Workers → Type 0 where
  start : Reached s s
  next : {t u : Workers} → Reached s t → Step t u → Reached s u
