-- ===== src/Scheduling/Scheduler/Tokens.antt =====
-- The dictionary `_tokens` of `ExecutionScheduler` and the jobs that share its tokens (scheduler.py).
use dr_exec.Prelude.{
  ℕ, ◌+◌, ◌≤◌, ◌≡◌, refl, Bool, true, ◌==◌, none, some, List, [], ◌∷◌, arith, All, if_cases,
  if◌then◌else◌,
}
use dr_exec.Core.Cancel.{Tokens, contains, cancel, cancelled, cancel_each}
use dr_exec.Core.Cancel.Marks.{cancelled-cancel_each, cancel_each-cancels}
use dr_exec.Scheduling.Scheduler.State.{Admitted, Completion, put, without, lookup, values}
use dr_exec.Scheduling.Scheduler.Intake.{pop_queued, cancellations}
use dr_exec.Scheduling.Scheduler.Delivery.{pop_owned}
use dr_exec.Scheduling.Scheduler.Ledger.{queued, finished}

pub lookup-put :
    (k j v : ℕ) (m : List (ℕ × ℕ)) → lookup j (put k v m) ≡ (if k == j then some v else lookup j m)
unfolding lookup put
lookup-put k j v [] = refl
lookup-put k j v ((i, w) ∷ m) = ground (arith, lookup-put k j v m)

pub lookup-without :
    (k j : ℕ) (m : List (ℕ × ℕ)) → lookup j (without k m) ≡ (if k == j then none else lookup j m)
unfolding lookup without
lookup-without k j [] = ground arith
lookup-without k j ((i, w) ∷ m) = ground (arith, lookup-without k j m)

lookup-values : (k v : ℕ) (m : List (ℕ × ℕ)) → lookup k m ≡ some v → contains v (values m) ≡ true
unfolding lookup values contains
lookup-values k v [] h = cc
lookup-values k v ((j, w) ∷ m) h = ground (arith, lookup-values k v m)

-- The job's token is the one that the dictionary has under its ticket.
abbrev pub Shares : {J C : Type 0} → List (ℕ × ℕ) → Admitted J C → Type 0
Shares m a = lookup a.ticket m ≡ some a.cancellation

abbrev pub IsCancelled : {J C : Type 0} → Tokens → Admitted J C → Type 0
IsCancelled h a = cancelled a.cancellation h ≡ true

module _ {J C : Type 0} where
  pub put-Shares :
      (k v : ℕ) (m : List (ℕ × ℕ)) (as' : List (Admitted J C))
      → queued k as' ≡ 0
      → All (Shares m) as'
      → All (Shares (put k v m)) as'
  put-Shares k v m [] e h = tt
  put-Shares k v m (a ∷ as') e h =
      (ground (arith, lookup-put k a.ticket v m), put-Shares k v m as' (ground arith) h.1)

  pub without-Shares :
      (k : ℕ) (m : List (ℕ × ℕ)) (as' : List (Admitted J C))
      → queued k as' ≡ 0
      → All (Shares m) as'
      → All (Shares (without k m)) as'
  without-Shares k m [] e h = tt
  without-Shares k m (a ∷ as') e h =
      (ground (arith, lookup-without k a.ticket m), without-Shares k m as' (ground arith) h.1)

  pub pop_queued-Shares :
      (qs : List (Admitted J C)) (m : List (ℕ × ℕ)) (as' : List (Admitted J C))
      → ((t : ℕ) → queued t qs + queued t as' ≤ 1)
      → All (Shares m) as'
      → All (Shares (pop_queued qs m)) as'
  unfolding pop_queued
  pop_queued-Shares [] m as' once h = h
  pop_queued-Shares (q ∷ qs) m as' once h =
      pop_queued-Shares qs (without q.ticket m) as' (λ t. let o = once t in ground arith)
        (without-Shares q.ticket m as' (let o = once q.ticket in ground arith) h)

  pub pop_owned-Shares :
      {O : Type 0} (owned : C → Bool) (cs : List (Completion C O)) (m : List (ℕ × ℕ))
      (as' : List (Admitted J C))
      → ((t : ℕ) → finished t cs + queued t as' ≤ 1)
      → All (Shares m) as'
      → All (Shares (pop_owned owned cs m)) as'
  unfolding pop_owned
  pop_owned-Shares owned [] m as' once h = h
  pop_owned-Shares owned (c ∷ cs) m as' once h =
      pop_owned-Shares owned cs (if owned c.context then without c.ticket m else m) as'
        (λ t. let o = once t in ground arith)
        (if_cases (λ m'. All (Shares m') as') (owned c.context)
          (λ _. without-Shares c.ticket m as' (let o = once c.ticket in ground arith) h) (λ _. h))

  -- Cancelling every token of the dictionary cancels the token of every job that shares one.
  pub cancel_values :
      (m : List (ℕ × ℕ)) (h : Tokens) (as' : List (Admitted J C))
      → All (Shares m) as'
      → All (IsCancelled (cancel_each (values m) h)) as'
  cancel_values m h [] s = tt
  cancel_values m h (a ∷ as') s = (
    cancel_each-cancels a.cancellation (values m) h (lookup-values a.ticket a.cancellation m s.0),
    cancel_values m h as' s.1,
  )

  pub cancel_each-IsCancelled :
      (cs : List ℕ) (h : Tokens) (as' : List (Admitted J C))
      → All (IsCancelled h) as'
      → All (IsCancelled (cancel_each cs h)) as'
  cancel_each-IsCancelled cs h [] s = tt
  cancel_each-IsCancelled cs h (a ∷ as') s =
      (cancelled-cancel_each a.cancellation cs h s.0, cancel_each-IsCancelled cs h as' s.1)

  -- Cancelling the tokens of some jobs cancels them.
  pub cancel_cancellations :
      (h : Tokens) (as' : List (Admitted J C))
      → All (IsCancelled (cancel_each (cancellations as') h)) as'
  unfolding cancel_each cancelled
  cancel_cancellations h [] = tt
  cancel_cancellations h (a ∷ as') = (
    cancelled-cancel_each a.cancellation (cancellations as') (cancel a.cancellation h)
        (ground arith),
    cancel_cancellations (cancel a.cancellation h) as',
  )
