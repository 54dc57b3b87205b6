-- ===== src/Execution/Engine/Receipts.antt =====
-- What the receipts and the completions of src/dr_exec/execution/engine.py say.
use dr_exec.Prelude.{
  Bool, true, false, ◌&&◌, Option, none, some, List, [], ◌∷◌, ◌++◌, is_empty, ◌≡◌, refl, sym, ap,
  subst,
}
use dr_exec.Core.Kinds.{RecordState, ExecutorFailureCode}
use dr_exec.Recording.Results.{
  ExecutionResult, RecordReceipt, complete, degraded, not_applicable, in_process, worker_pool,
  receipt_id,
}
use dr_exec.Recording.Runs.{RecordedRun, RecordingFailure}
use dr_exec.Recording.Store.Errors.{Exception, class_of}
use dr_exec.Recording.Store.Backend.{Ran, returned, raised, after, Action}
use dr_exec.Recording.Store.Calls.{Ends}
use dr_exec.Execution.Engine.Records.{
  RunStore, coded_failure, failure_code_of, on_failure, trying, degraded_from_failure,
  after_failures, finalized_receipt,
}

abbrev pub failures_in : RecordReceipt RecordingFailure → List RecordingFailure
failures_in (degraded id reference latest_state failures) = failures
failures_in (complete id reference) = []
failures_in (not_applicable id) = []
failures_in (in_process id) = []
failures_in (worker_pool id) = []

abbrev pub is_complete : RecordReceipt RecordingFailure → Bool
is_complete (complete id reference) = true
is_complete (degraded id reference latest_state failures) = false
is_complete (not_applicable id) = false
is_complete (in_process id) = false
is_complete (worker_pool id) = false

-- A receipt of a run store, for the run it was asked for.
abbrev pub IsOwn : {D R : Type 0} → RecordedRun D R → RecordReceipt RecordingFailure → Type 0
IsOwn run (complete id reference) = id ≡ run.execution_id
IsOwn run (degraded id reference latest_state failures) = id ≡ run.execution_id
IsOwn run _ = ⊥

-- The store finalized the run without a failure.
abbrev pub finalizes : {S : Type 0} → Ran S (RecordReceipt RecordingFailure) → Bool
finalizes (returned receipt t) = is_complete receipt
finalizes (raised e t) = false

-- Every run store gives receipts for the run it is asked to finalize.
pub record RunStoreLaws {D R S : Type 0} (store : RunStore D R S) : Type 0 where
  pub finalize_own :
      (run : RecordedRun D R) (result : ExecutionResult D) (s : S)
      (receipt : RecordReceipt RecordingFailure) (t : S)
      → store.finalize run result s ≡ returned receipt t
      → IsOwn run receipt

-- The state of the record that a receipt names.
abbrev pub state_in : RecordState → RecordReceipt RecordingFailure → RecordState
state_in otherwise (complete id reference) = RecordState.finalized
state_in otherwise (degraded id reference latest_state failures) = latest_state
state_in otherwise (not_applicable id) = otherwise
state_in otherwise (in_process id) = otherwise
state_in otherwise (worker_pool id) = otherwise

abbrev pub coded : Option ExecutorFailureCode → List RecordingFailure
coded (some code) = coded_failure "finalize" code ∷ []
coded none = []

-- The failures of finalizing: the store's, or the ExecutorFailure that it raised.
abbrev pub failures_from :
    {S : Type 0} → Ran S (RecordReceipt RecordingFailure) → List RecordingFailure
failures_from (returned receipt t) = failures_in receipt
failures_from (raised e t) = coded (failure_code_of (class_of e))

-- The state that the store reports, or the run's own if it raised.
abbrev pub state_from :
    {D R S : Type 0} → RecordedRun D R → Ran S (RecordReceipt RecordingFailure) → RecordState
state_from run (returned receipt t) = state_in run.durable_state receipt
state_from run (raised e t) = run.durable_state

-- What a receipt after earlier failures says: the run, whether nothing failed, every failure in its order and
-- the state of the record.
abbrev pub Tells :
    {D R S : Type 0}
    → RecordedRun D R
    → List RecordingFailure
    → Ran S (RecordReceipt RecordingFailure)
    → RecordReceipt RecordingFailure
    → Type 0
Tells run prior done receipt =
    (receipt_id receipt ≡ run.execution_id)
    × (is_complete receipt ≡ is_empty prior && finalizes done)
    × (failures_in receipt ≡ prior ++ failures_from done)
    × (state_in run.durable_state receipt ≡ state_from run done)

-- A call let an exception escape that is no ExecutorFailure.
abbrev pub Escapes : {S A : Type 0} → Ran S A → Exception → S → Type 0
Escapes done e t = (done ≡ raised e t) × (failure_code_of (class_of e) ≡ none)

after_failures-Tells :
    {D R S : Type 0} (run : RecordedRun D R) (prior : List RecordingFailure)
    (receipt : RecordReceipt RecordingFailure) (t : S)
    → IsOwn run receipt
    → Tells run prior (returned receipt t) (after_failures prior receipt)
unfolding after_failures receipt_id
after_failures-Tells run [] (complete id reference) t own = (own, refl, refl, refl)
after_failures-Tells run [] (degraded id reference latest failures) t own = (own, refl, refl, refl)
after_failures-Tells run (f ∷ fs) (complete id reference) t own = (own, refl, refl, refl)
after_failures-Tells run (f ∷ fs) (degraded id reference latest failures) t own =
    (own, refl, refl, refl)
after_failures-Tells run prior (not_applicable id) t own = absurd own
after_failures-Tells run prior (in_process id) t own = absurd own
after_failures-Tells run prior (worker_pool id) t own = absurd own

trying-Ends :
    {S A B : Type 0} (Q : B → S → Type 0) (E : Exception → S → Type 0) (r : Ran S A)
    (k : A → Action S B) (handle : ExecutorFailureCode → Action S B)
    → ((a : A) (t : S) → r ≡ returned a t → Ends (k a t) Q E)
    → ((e : Exception) (t : S) (code : ExecutorFailureCode)
        → r ≡ raised e t
        → failure_code_of (class_of e) ≡ some code
        → Ends (handle code t) Q E)
    → ((e : Exception) (t : S) → r ≡ raised e t → failure_code_of (class_of e) ≡ none → E e t)
    → Ends (trying r k handle) Q E
unfolding trying on_failure
trying-Ends Q E (returned a t) k handle next coded plain = next a t refl
trying-Ends Q E (raised e t) k handle next coded plain = by_code (failure_code_of (class_of e)) refl
  where
    by_code :
        (code : Option ExecutorFailureCode)
        → failure_code_of (class_of e) ≡ code
        → Ends (on_failure code e t handle) Q E
    by_code (some code) h = coded e t code refl h
    by_code none h = plain e t refl h

module _ {D R S : Type 0} (store : RunStore D R S) (laws : RunStoreLaws store) where
  -- The receipt of an attempt names its execution, lists the earlier failures, then those of finalizing, and
  -- the state of the record, and it is complete exactly when there was none and the store finalized the run. An
  -- exception that escapes is one of the store's finalize that is no ExecutorFailure.
  pub finalized_receipt-Tells :
      (run : RecordedRun D R) (result : ExecutionResult D) (prior : List RecordingFailure) (s : S)
      → Ends
          (finalized_receipt store run result prior s)
          (λ receipt t.
            (t ≡ after (store.finalize run result s))
            × Tells run prior (store.finalize run result s) receipt)
          (λ e t. Escapes (store.finalize run result s) e t)
  unfolding finalized_receipt degraded_from_failure receipt_id
  finalized_receipt-Tells run result prior s =
      trying-Ends _ _ (store.finalize run result s) _ _
        (λ receipt t done.
          subst (λ x. (t ≡ after x) × Tells run prior x (after_failures prior receipt)) (sym done)
            (
              refl,
              after_failures-Tells run prior receipt t
                  (laws.finalize_own run result s receipt t done),
            ))
        (λ e t code done h.
          subst
            (λ x.
              (t ≡ after x) × Tells run prior x (degraded_from_failure run "finalize" prior code))
            (sym done) (refl, (refl, failed prior, ap (λ c. prior ++ coded c) (sym h), refl)))
        (λ e t done h. (done, h))
    where
      failed : (prior : List RecordingFailure) → false ≡ is_empty prior && false
      failed [] = refl
      failed (f ∷ fs) = refl
