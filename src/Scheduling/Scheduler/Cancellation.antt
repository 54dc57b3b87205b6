-- ===== src/Scheduling/Scheduler/Cancellation.antt =====
-- Which jobs of `ExecutionScheduler` are cancelled (scheduler.py): `expire` and `cancel_all` reach
-- queued and running jobs through the tokens that the jobs share with the dictionary.
use dr_exec.Prelude.{
  ℕ, suc, ◌+◌, ◌≤◌, ◌≡◌, subst, ◌∙◌, true, List, [], ◌∷◌, arith, All, All-append, All-remove,
}
use dr_exec.Core.Cancel.{contains, cancelled}
use dr_exec.Scheduling.Scheduler.State.{Admitted, Scheduler, put, without}
use dr_exec.Scheduling.Scheduler.Intake.{broken_with, enqueue, born, cancellations}
use dr_exec.Scheduling.Scheduler.System.{System}
use dr_exec.Scheduling.Scheduler.Released.{Splits}
use dr_exec.Scheduling.Scheduler.Ledger.{queued, held, IsOnce}
use dr_exec.Scheduling.Scheduler.Tokens.{
  Shares, IsCancelled, put-Shares, without-Shares, pop_queued-Shares, cancel_each-IsCancelled,
  lookup-put,
}

-- Every queued job and every job in flight shares its token with the dictionary, and is cancelled
-- once the scheduler has expired.
pub record IsMarked {J C O F : Type 0} (s : Scheduler J C O F) (flying : List (Admitted J C))
    : Type 0 where
  pub queue_shares : All (Shares s.tokens) s.pending
  pub flight_shares : All (Shares s.tokens) flying
  pub queue_marked : s.expired ≡ true → All (IsCancelled s.heap) s.pending
  pub flight_marked : s.expired ≡ true → All (IsCancelled s.heap) flying

born-IsCancelled :
    {J C O F : Type 0} (s : Scheduler J C O F) (as' : List (Admitted J C))
    → s.expired ≡ true
    → All (IsCancelled s.heap) as'
    → All (IsCancelled (born s)) as'
unfolding born cancelled contains
born-IsCancelled s [] e h = tt
born-IsCancelled s (a ∷ as') e h = (ground arith, born-IsCancelled s as' e h.1)

-- A ticket that a job of `as'` and a job of `bs` have, or that a completion has too, is held twice.
abbrev pub Apart : {J C O F : Type 0} → System J C O F → Type 0
Apart y = (t : ℕ) → held t y ≤ 1

pub once-Apart : {J C O F : Type 0} (y : System J C O F) → ((t : ℕ) → IsOnce t y) → Apart y
once-Apart y once t = let o = once t in ground arith

pub new_apart :
    {J C O F : Type 0} (y : System J C O F)
    → IsOnce y.sched.next_ticket y
    → (queued y.sched.next_ticket y.sched.pending ≡ 0)
      × (queued y.sched.next_ticket y.in_flight ≡ 0)
new_apart y o = ground arith

module _ {J C O F : Type 0} {flying : List (Admitted J C)} where
  pub enqueue-IsMarked :
      (job : J) (context : C) (s : Scheduler J C O F)
      → queued s.next_ticket s.pending ≡ 0
      → queued s.next_ticket flying ≡ 0
      → IsMarked s flying
      → IsMarked (enqueue job context s) flying
  unfolding enqueue born cancelled
  enqueue-IsMarked job context s new_queue new_flight v =
      let k : ℕ = s.next_ticket in
      let t : ℕ = s.heap.made in
      let entered : Admitted J C = record {
        ticket = k;
        job = job;
        context = context;
        cancellation = t;
      } in
      record {
        queue_shares =
            All-append (Shares (put k t s.tokens)) s.pending (entered ∷ [])
              (put-Shares k t s.tokens s.pending new_queue v.queue_shares)
              (ground (arith, lookup-put k k t s.tokens), tt);
        flight_shares = put-Shares k t s.tokens flying new_flight v.flight_shares;
        queue_marked = λ e.
            All-append (IsCancelled (born s)) s.pending (entered ∷ [])
              (born-IsCancelled s s.pending e (v.queue_marked e)) (ground arith, tt);
        flight_marked = λ e. born-IsCancelled s flying e (v.flight_marked e);
      }

  pub broken_with-IsMarked :
      (failure : F) (s : Scheduler J C O F)
      → ((t : ℕ) → queued t s.pending + queued t flying ≤ 1)
      → IsMarked s flying
      → IsMarked (broken_with failure s) flying
  unfolding broken_with
  broken_with-IsMarked failure s once v = record {
    queue_shares = tt;
    flight_shares = pop_queued-Shares s.pending s.tokens flying once v.flight_shares;
    queue_marked = λ e. tt;
    flight_marked =
        λ e. cancel_each-IsCancelled (cancellations s.pending) s.heap flying (v.flight_marked e);
  }

  pub started-IsMarked :
      (a : Admitted J C) (rest : List (Admitted J C)) (s : Scheduler J C O F)
      → s.pending ≡ a ∷ rest
      → IsMarked s flying
      → IsMarked (record s { running = suc s.running; pending = rest }) (a ∷ flying)
  started-IsMarked a rest s e v =
      let shares : All (Shares s.tokens) (a ∷ rest) =
        subst (All (Shares s.tokens)) e v.queue_shares in
      let marked : s.expired ≡ true → All (IsCancelled s.heap) (a ∷ rest) =
        λ x. subst (All (IsCancelled s.heap)) e (v.queue_marked x) in
      record {
        queue_shares = shares.1;
        flight_shares = (shares.0, v.flight_shares);
        queue_marked = λ x. (marked x).1;
        flight_marked = λ x. ((marked x).0, v.flight_marked x);
      }

  pub removed-IsMarked :
      (a : Admitted J C) (rest : List (Admitted J C)) (s : Scheduler J C O F)
      → Splits flying a rest
      → IsMarked s flying
      → IsMarked s rest
  removed-IsMarked a rest s (l, r, whole, left) v = record {
    queue_shares = v.queue_shares;
    flight_shares =
        rw left (
          All-remove (Shares s.tokens) l a r (subst (All (Shares s.tokens)) whole v.flight_shares));
    queue_marked = v.queue_marked;
    flight_marked = λ x. rw left (
        All-remove (IsCancelled s.heap) l a r
          (subst (All (IsCancelled s.heap)) whole (v.flight_marked x)));
  }

  -- A ticket that no live job has may leave the dictionary.
  pub without-IsMarked :
      (k : ℕ) (s : Scheduler J C O F)
      → queued k s.pending ≡ 0
      → queued k flying ≡ 0
      → IsMarked s flying
      → IsMarked (record s { tokens = without k s.tokens }) flying
  without-IsMarked k s no_queue no_flight v = record {
    queue_shares = without-Shares k s.tokens s.pending no_queue v.queue_shares;
    flight_shares = without-Shares k s.tokens flying no_flight v.flight_shares;
    queue_marked = v.queue_marked;
    flight_marked = v.flight_marked;
  }

  -- The invariant speaks of four fields only.
  pub same-IsMarked :
      (s u : Scheduler J C O F)
      → s.pending ≡ u.pending
      → s.tokens ≡ u.tokens
      → s.heap ≡ u.heap
      → s.expired ≡ u.expired
      → IsMarked s flying
      → IsMarked u flying
  same-IsMarked s u p t h x v = record {
    queue_shares =
        subst (λ q. All (Shares u.tokens) q) p
          (subst (λ m. All (Shares m) s.pending) t v.queue_shares);
    flight_shares = subst (λ m. All (Shares m) flying) t v.flight_shares;
    queue_marked = λ e.
        subst (λ q. All (IsCancelled u.heap) q) p
          (subst (λ g. All (IsCancelled g) s.pending) h (v.queue_marked (x ∙ e)));
    flight_marked = λ e. subst (λ g. All (IsCancelled g) flying) h (v.flight_marked (x ∙ e));
  }
