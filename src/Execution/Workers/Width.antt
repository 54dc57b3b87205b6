-- ===== src/Execution/Workers/Width.antt =====
-- The slots of `_WorkerSet` in src/dr_exec/execution/worker_pool.py are neither lost nor made.
use dr_exec.Prelude.{
  ℕ, zero, suc, ◌+◌, Option, none, some, List, [], ◌∷◌, ◌++◌, length, length-append, ◌≡◌, refl, ◌∙◌,
  ap, arith,
}
use dr_exec.Execution.Workers.Slots.{
  Activity, spawned, leased, releasing, freeing, killing, emptied, terminating, draining, refilling,
  Workers, empty_slots, new_workers, owns, owned,
}
use dr_exec.Execution.Workers.Steps.{
  terminate, terminate_slot, put, Moves, lease_open, lease_closed, spawns, spawn_fails, registers,
  registers_closed, releases, releases_closed, discards, puts_back, retires, retired_before, kills,
  frees, terminates, drains, takes, took_all, refills, refilled, Step, takes_slot, closes,
  snapshots, moves, Reached, start, next,
}

owned-append : (xs ys : List Activity) → owned (xs ++ ys) ≡ owned xs + owned ys
owned-append [] ys = omega arith
owned-append (a ∷ as') ys = omega (arith, owned-append as' ys)

-- The slots in the queue and those that threads hold.
abbrev pub all_slots : Workers → ℕ
all_slots s = length s.slots + owned s.activities

put-slots : (slot : Option ℕ) (s : Workers) → length (put slot s).slots ≡ length s.slots + 1
unfolding put
put-slots slot s = length-append s.slots (slot ∷ [])

terminated-slots : (slot : Option ℕ) (s : Workers) → (terminate_slot slot s).slots ≡ s.slots
unfolding terminate_slot terminate
terminated-slots none s = refl
terminated-slots (some w) s = refl

Moves-slots :
    (xs ys : List Activity) (s : Workers) (a : Activity) (t : Workers)
    → s.activities ≡ xs ++ a ∷ ys
    → Moves xs ys s a t
    → all_slots t ≡ all_slots s
unfolding put terminate
Moves-slots xs ys s a t e m = by_move m (ap owned e ∙ owned-append xs (a ∷ ys))
  where
    with_one : (b : Activity) → owned (xs ++ b ∷ ys) ≡ owned xs + (owns b + owned ys)
    with_one b = owned-append xs (b ∷ ys)

    by_move :
        {a : Activity} {t : Workers}
        → Moves xs ys s a t
        → owned s.activities ≡ owned xs + (owns a + owned ys)
        → all_slots t ≡ all_slots s
    by_move (lease_open w h) b = omega (arith, b, with_one (leased w))
    by_move (lease_closed w h) b = omega (arith, b, with_one (freeing w))
    by_move (spawns w h) b = omega (arith, b, with_one (spawned w))
    by_move spawn_fails b = omega (arith, b, owned-append xs ys, put-slots none s)
    by_move (registers w h) b = omega (arith, b, with_one (leased w))
    by_move (registers_closed w h) b = omega (arith, b, owned-append xs ys, put-slots none s)
    by_move (releases w h) b = omega (arith, b, with_one (releasing w))
    by_move (releases_closed w h) b = omega (arith, b, with_one (freeing w))
    by_move (discards w) b = omega (arith, b, with_one (freeing w))
    by_move (puts_back w) b = omega (arith, b, owned-append xs ys, put-slots (some w) s)
    by_move (retires w h) b = omega (arith, b, with_one (killing w))
    by_move (retired_before w h) b = omega (arith, b, with_one emptied)
    by_move (kills w) b = omega (arith, b, with_one emptied)
    by_move frees b = omega (arith, b, owned-append xs ys, put-slots none s)
    by_move (terminates w ws) b = omega (arith, b, with_one (terminating ws))
    by_move drains b = omega (arith, b, with_one (draining []))
    by_move (took_all pending h) b = omega (arith, b, with_one (refilling pending))
    by_move refilled b = omega (arith, b, owned-append xs ys)
    by_move (takes slot slots pending h) b =
        let took : length s.slots ≡ suc (length slots) = ap length h in
        omega (
          arith,
          b,
          took,
          with_one (draining (pending ++ slot ∷ [])),
          length-append pending (slot ∷ []),
        )
    by_move (refills slot pending) b =
        let kept : length (terminate_slot slot s).slots ≡ length s.slots =
          ap length (terminated-slots slot s) in
        omega (arith, b, kept, with_one (refilling pending), put-slots none (terminate_slot slot s))

step-slots : {s t : Workers} → Step s t → all_slots t ≡ all_slots s
step-slots {s = s} (takes_slot slot slots h) =
    let took : length s.slots ≡ suc (length slots) = ap length h in omega (arith, took)
step-slots closes = refl
step-slots (snapshots h) = omega arith
step-slots (moves xs ys a t e m) = Moves-slots xs ys _ a t e m

-- In every interleaving of leases, releases, retirements and closing, the slots in the queue and those that a
-- thread holds are together as many as the width.
pub slots_kept : (width : ℕ) {t : Workers} → Reached (new_workers width) t → all_slots t ≡ width
unfolding new_workers
slots_kept width start = omega (arith, empty width)
  where
    empty : (n : ℕ) → length (empty_slots n) ≡ n
    empty zero = refl
    empty (suc n) = ap suc (empty n)
slots_kept width (next earlier step) = step-slots step ∙ slots_kept width earlier
