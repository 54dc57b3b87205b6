-- ===== src/Scheduling/Scheduler/Cases.antt =====
-- The branches of the operations of `ExecutionScheduler`, for proofs about any predicate.
use dr_exec.Prelude.{
  ℕ, Bool, zero, suc, ◌-◌, ◌≤◌, ◌||◌, ◌⊎◌, if_cases, ◌<◌, ◌≡◌, refl, inl, inr, Option-cases, true,
  false, Option, none, some, List, [], ◌∷◌, arith, leb, length,
}
use dr_exec.Prelude.Results.{Result, ok}
use dr_exec.Scheduling.Scheduler.State.{
  Admitted, AdmissionResult, Completion, Scheduler, is_broken_by, announce_change,
}
use dr_exec.Scheduling.Scheduler.Intake.{
  break_with, broken_with, ensure_worker, start_worker, enqueue, admit,
}
use dr_exec.Scheduling.Scheduler.Delivery.{
  Taken, take_completion, raise_if_broken, hand_over, take_ready, take_ready_owned, take_found,
  split_first, take_completion_nowait, split_owned,
}
use dr_exec.Scheduling.Scheduler.Work.{take_first, take_admitted, finish}
use dr_exec.Scheduling.Scheduler.System.{System, pick, finish_picked}
use dr_exec.Scheduling.Scheduler.Released.{Splits, split_first-Splits, split_owned-Splits}

module _ {ℓ} {J C O F : Type 0} (P : Scheduler J C O F → Type ℓ) where
  pub admit_cases :
      (job : J) (context : C) (start : Option F) (s : Scheduler J C O F)
      → P s
      → (s.intake_closed ≡ false
          → s.residents < s.capacity
          → P (announce_change (ensure_worker start (enqueue job context s))))
      → P (admit job context start s).1
  unfolding admit
  admit_cases job context start s refused entered =
      if_cases Q s.intake_closed (λ _. refused)
        λ closed.
          if_cases Q (leb s.capacity s.residents) (λ _. refused)
            λ room.
              let p : P _ = entered closed (ground arith) in
              if_cases Q
                (is_broken_by
                  (announce_change (ensure_worker start (enqueue job context s))).broken)
                (λ _. p) (λ _. p)
    where
      Q : AdmissionResult × Scheduler J C O F → Type ℓ
      Q r = P r.1

  pub ensure_worker_cases :
      (start : Option F) (s : Scheduler J C O F)
      → ((length s.pending ≤ s.workers - s.running) ⊎ (s.capacity ≤ s.workers) → P s)
      → (s.workers - s.running < length s.pending
          → s.workers < s.capacity
          → P (start_worker start s))
      → P (ensure_worker start s)
  unfolding ensure_worker
  ensure_worker_cases start s enough needed =
      if_cases P (leb (length s.pending) (s.workers - s.running) || leb s.capacity s.workers)
        (λ e. enough (ground arith)) (λ e. needed (ground arith) (ground arith))

  pub break_cases :
      (failure : F) (s : Scheduler J C O F)
      → (is_broken_by s.broken ≡ true → P s)
      → (is_broken_by s.broken ≡ false → P (broken_with failure s))
      → P (break_with failure s)
  unfolding break_with broken_with
  break_cases failure s old new = if_cases P (is_broken_by s.broken) old new

  pub start_worker_cases :
      (start : Option F) (s : Scheduler J C O F)
      → P (record s { workers = suc s.workers })
      → (is_broken_by s.broken ≡ true → P (announce_change s))
      → ((failure : F)
          → is_broken_by s.broken ≡ false
          → P (announce_change (broken_with failure s)))
      → P (start_worker start s)
  unfolding start_worker break_with
  start_worker_cases none s started old new = started
  start_worker_cases (some failure) s started old new =
      if_cases (λ t. P (announce_change t)) (is_broken_by s.broken) old (new failure)

module _ {ℓ} {J C O F : Type 0} (R : Option (Admitted J C) × Scheduler J C O F → Type ℓ) where
  first_cases :
      (as' : List (Admitted J C)) (s : Scheduler J C O F)
      → (as' ≡ [] → R (none, s))
      → ((a : Admitted J C) (rest : List (Admitted J C))
          → as' ≡ a ∷ rest
          → R (some a, record s { running = suc s.running; pending = rest }))
      → R (take_first as' s)
  unfolding take_first
  first_cases [] s empty some' = empty refl
  first_cases (a ∷ rest) s empty some' = some' a rest refl

  -- A worker gets the oldest queued job, or returns because there is none or the scheduler is broken.
  pub take_admitted_cases :
      (s : Scheduler J C O F)
      → ((is_broken_by s.broken ≡ true) ⊎ (s.pending ≡ []) → R (none, s))
      → ((a : Admitted J C) (rest : List (Admitted J C))
          → is_broken_by s.broken ≡ false
          → s.pending ≡ a ∷ rest
          → R (some a, record s { running = suc s.running; pending = rest }))
      → R (take_admitted s)
  unfolding take_admitted
  take_admitted_cases s ends takes =
      if_cases R (is_broken_by s.broken) (λ e. ends (inl e))
        λ e. first_cases s.pending s (λ f. ends (inr f)) (λ a rest f. takes a rest e f)

module _ {ℓ} {J C O F : Type 0} (Q : Taken J C O F → Type ℓ) where
  found_cases :
      (found : Option (Completion C O × List (Completion C O))) (s : Scheduler J C O F)
      → ((c : Completion C O) (rest : List (Completion C O))
          → found ≡ some (c, rest)
          → Splits s.ready c rest)
      → Q (raise_if_broken s)
      → ((c : Completion C O) (rest : List (Completion C O))
          → Splits s.ready c rest
          → Q (ok (some c), hand_over c rest s))
      → Q (take_found found s)
  unfolding take_found
  found_cases none s splits nothing one = nothing
  found_cases (some (c, rest)) s splits nothing one = one c rest (splits c rest refl)

  -- A call that takes finds nothing, or hands over one of the completions in the buffer.
  pub take_cases :
      (owned : Option (C → Bool)) (s : Scheduler J C O F)
      → Q (raise_if_broken s)
      → ((c : Completion C O) (rest : List (Completion C O))
          → Splits s.ready c rest
          → Q (ok (some c), hand_over c rest s))
      → Q (take_completion_nowait owned s)
  unfolding take_completion_nowait take_ready take_ready_owned
  take_cases none s = found_cases (split_first s.ready) s (λ c rest e. split_first-Splits s.ready e)
  take_cases (some owned) s =
      found_cases (split_owned owned s.ready) s (λ c rest e. split_owned-Splits owned s.ready e)

-- Once its wait is over, `take_completion` does what `take_completion_nowait` does unowned.
pub take_completion-nowait :
    {J C O F : Type 0} (s : Scheduler J C O F) → take_completion s ≡ take_completion_nowait none s
unfolding take_completion take_completion_nowait
take_completion-nowait s = refl

pick-Splits {ℓ} :
    {A : Type ℓ} (place : ℕ) (xs : List A) {x : A} {rest : List A}
    → pick place xs ≡ some (x, rest)
    → Splits xs x rest
unfolding pick
pick-Splits place [] h = cc
pick-Splits zero (y ∷ ys) h = ([], ys, ground arith, ground arith)
pick-Splits (suc place) (y ∷ ys) h = elim (Option-cases (pick place ys)) [
  | inl e ↦ absurd (ground arith)
  | inr ((z, zs), e) ↦
      let (l, r, whole, left) = pick-Splits place ys e in (y ∷ l, r, ground arith, ground arith)
]

module _ {ℓ} {J C O F : Type 0} (P : System J C O F → Type ℓ) (y : System J C O F) where
  picked_cases :
      (found : Option (Admitted J C × List (Admitted J C))) (r : Result F O)
      → ((a : Admitted J C) (rest : List (Admitted J C))
          → found ≡ some (a, rest)
          → Splits y.in_flight a rest)
      → P y
      → ((a : Admitted J C) (rest : List (Admitted J C))
          → Splits y.in_flight a rest
          → P (record y { sched = finish a r y.sched; in_flight = rest }))
      → P (finish_picked found r y)
  unfolding finish_picked
  picked_cases none r splits nobody one = nobody
  picked_cases (some (a, rest)) r splits nobody one = one a rest (splits a rest refl)

  -- A worker that finishes was running one of the jobs in flight.
  pub finish_cases :
      (place : ℕ) (r : Result F O)
      → P y
      → ((a : Admitted J C) (rest : List (Admitted J C))
          → Splits y.in_flight a rest
          → P (record y { sched = finish a r y.sched; in_flight = rest }))
      → P (finish_picked (pick place y.in_flight) r y)
  finish_cases place r =
      picked_cases (pick place y.in_flight) r (λ a rest e. pick-Splits place y.in_flight e)
