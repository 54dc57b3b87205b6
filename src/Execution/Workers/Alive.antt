-- ===== src/Execution/Workers/Alive.antt =====
-- No worker of `_WorkerSet` in src/dr_exec/execution/worker_pool.py outlives its closing.
use dr_exec.Prelude.{
  ℕ, true, false, not, ◌&&◌, ◌||◌, ◌==◌, none, some, List, [], ◌∷◌, ◌++◌, is_empty, ◌≡◌, refl, ◌∙◌,
  ap, arith,
}
use dr_exec.Execution.Workers.Slots.{
  has, discard, Activity, spawned, leased, releasing, freeing, killing, emptied, terminating,
  draining, refilling, Workers, new_workers, in_charge, any_in_charge,
}
use dr_exec.Execution.Workers.Steps.{
  terminate, terminate_slot, put, Moves, lease_open, lease_closed, spawns, spawn_fails, registers,
  registers_closed, releases, releases_closed, discards, puts_back, retires, retired_before, kills,
  frees, terminates, drains, takes, took_all, refills, refilled, Step, takes_slot, closes,
  snapshots, moves, Reached, start, next,
}

empty-has : (w : ℕ) (xs : List ℕ) → is_empty xs ≡ true → has w xs ≡ false
empty-has w [] h = refl
empty-has w (x ∷ xs) h = absurd cc

has-discard : (w x : ℕ) (xs : List ℕ) → has w (discard x xs) ≡ (not (w == x) && has w xs)
unfolding discard
has-discard w x [] = ground arith
has-discard w x (y ∷ ys) = let rest = has-discard w x ys in ground arith

any-append :
    (w : ℕ) (xs ys : List Activity)
    → any_in_charge w (xs ++ ys) ≡ (any_in_charge w xs || any_in_charge w ys)
any-append w [] ys = refl
any-append w (a ∷ as') ys = let rest = any-append w as' ys in ground arith

-- A process that runs is registered, or a thread will register or terminate it; and once the live workers were
-- taken to be terminated, none is registered any more.
abbrev pub Accounted : ℕ → Workers → Type 0
Accounted w s =
    ((not (has w s.alive) || (has w s.live || any_in_charge w s.activities)) ≡ true)
    × ((not s.snapshotted || (s.closed && is_empty s.live)) ≡ true)

Moves-Accounted :
    (w : ℕ) (xs ys : List Activity) (s : Workers) (a : Activity) (t : Workers)
    → s.activities ≡ xs ++ a ∷ ys
    → Moves xs ys s a t
    → Accounted w s
    → Accounted w t
unfolding put terminate terminate_slot
Moves-Accounted w xs ys s a t e m h =
    by_move m (ap (any_in_charge w) e ∙ any-append w xs (a ∷ ys)) h
  where
    with_one :
        (b : Activity)
        → any_in_charge w (xs ++ b ∷ ys)
          ≡ (any_in_charge w xs || (in_charge w b || any_in_charge w ys))
    with_one b = any-append w xs (b ∷ ys)

    without : any_in_charge w (xs ++ ys) ≡ (any_in_charge w xs || any_in_charge w ys)
    without = any-append w xs ys

    by_move :
        {a : Activity} {t : Workers}
        → Moves xs ys s a t
        → any_in_charge w s.activities
          ≡ (any_in_charge w xs || (in_charge w a || any_in_charge w ys))
        → Accounted w s
        → Accounted w t
    by_move (lease_open x c) b h = let n = with_one (leased x) in ground arith
    by_move (lease_closed x c) b h = let n = with_one (freeing x) in ground arith
    by_move (spawns x c) b h = let n = with_one (spawned x) in ground arith
    by_move spawn_fails b h = let n = without in ground arith
    by_move (registers x c) b h = let n = with_one (leased x) in ground arith
    by_move (registers_closed x c) b h =
        let n = without in let d = has-discard w x s.alive in ground arith
    by_move (releases x c) b h = let n = with_one (releasing x) in ground arith
    by_move (releases_closed x c) b h = let n = with_one (freeing x) in ground arith
    by_move (discards x) b h = let n = with_one (freeing x) in ground arith
    by_move (puts_back x) b h = let n = without in ground arith
    by_move (retires x c) b h =
        let n = with_one (killing x) in let d = has-discard w x s.live in ground arith
    by_move (retired_before x c) b h = let n = with_one emptied in ground arith
    by_move (kills x) b h =
        let n = with_one emptied in let d = has-discard w x s.alive in ground arith
    by_move frees b h = let n = without in ground arith
    by_move (terminates x ws) b h =
        let n = with_one (terminating ws) in let d = has-discard w x s.alive in ground arith
    by_move drains b h = let n = with_one (draining []) in ground arith
    by_move (takes slot slots pending c) b h =
        let n = with_one (draining (pending ++ slot ∷ [])) in ground arith
    by_move (took_all pending c) b h = let n = with_one (refilling pending) in ground arith
    by_move (refills none pending) b h = let n = with_one (refilling pending) in ground arith
    by_move (refills (some x) pending) b h =
        let n = with_one (refilling pending) in let d = has-discard w x s.alive in ground arith
    by_move refilled b h = let n = without in ground arith

step-Accounted : (w : ℕ) {s t : Workers} → Step s t → Accounted w s → Accounted w t
step-Accounted w {s = s} (takes_slot slot slots e) h = ground arith
step-Accounted w closes h = ground arith
step-Accounted w (snapshots e) h = ground arith
step-Accounted w (moves xs ys a t e m) h = Moves-Accounted w xs ys _ a t e m h

Reached-Accounted : (width w : ℕ) {t : Workers} → Reached (new_workers width) t → Accounted w t
unfolding new_workers
Reached-Accounted width w start = (refl, refl)
Reached-Accounted width w (next earlier step) =
    step-Accounted w step (Reached-Accounted width w earlier)

-- In every interleaving, once closing has taken the live workers and no thread is about to register or terminate
-- the worker `w`, its process does not run, also if a job still holds its slot.
pub closed_kills :
    (width w : ℕ) {t : Workers}
    → Reached (new_workers width) t
    → t.snapshotted ≡ true
    → any_in_charge w t.activities ≡ false
    → has w t.alive ≡ false
closed_kills width w {t = t} reached taken idle =
    let h = Reached-Accounted width w reached in
    let cleared : is_empty t.live ≡ true = ground arith in
    let gone = empty-has w t.live cleared in ground arith
