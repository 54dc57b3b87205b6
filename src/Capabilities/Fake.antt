-- ===== src/Capabilities/Fake.antt =====
-- `FakeExecutor` of src/dr_exec/capabilities/fake.py. Its lock makes a call's entry in `calls` and the
-- response it takes one step. The coroutine `run` offloads `run_blocking` to a thread.
use dr_exec.Prelude.{
  ℕ, Option, none, some, List, [], ◌∷◌, ◌++◌, ◌&&◌, not, is_empty, Bool, true, false, if◌then◌else◌,
}
use dr_exec.Prelude.Results.{Result, ok, err, ◌>>=◌}
use dr_exec.Declarations.Targets.{ExecutionJob}
use dr_exec.Declarations.Validation.{DeclarationError, validate_declaration}
use dr_exec.Recording.Results.{CompletedExecution, RecordReceipt, not_applicable}

-- What a call raises: a declaration is invalid, no response is left, a receipt is not a fake's, or what
-- the responder raised, of type E.
pub data FakeFailure (E : Type 0) : Type 0 where
  declaration_invalid : DeclarationError → FakeFailure E
  fake_no_response fake_receipt_mismatch : FakeFailure E
  responder_raised : E → FakeFailure E

pub data FakeUsageError : Type 0 where
  responses_and_responder : FakeUsageError

-- A responder gets the job and the address of a cancellation token.
abbrev pub Responder : Type 0 → Type 0 → Type 0 → Type 0
Responder D F E = ExecutionJob D → Option ℕ → Result E (CompletedExecution D F)

pub record FakeExecutor (D F E : Type 0) : Type 0 where
  pub responses : List (CompletedExecution D F)
  pub responder : Option (Responder D F E)
  pub calls : List (ExecutionJob D)

unfoldable pub is_fake_receipt : {F : Type 0} → RecordReceipt F → Bool
is_fake_receipt (not_applicable id) = true
is_fake_receipt _ = false

module _ {D F E : Type 0} where
  is_given : Option (Responder D F E) → Bool
  is_given none = false
  is_given (some responder) = true

  unfoldable pub fake_executor :
      List (CompletedExecution D F)
      → Option (Responder D F E)
      → Result FakeUsageError (FakeExecutor D F E)
  unfolding is_given
  fake_executor responses responder =
      if not (is_empty responses) && is_given responder
      then err responses_and_responder
      else ok (record { responses = responses; responder = responder; calls = [] })

  unfoldable pub fake_receipted :
      CompletedExecution D F → Result (FakeFailure E) (CompletedExecution D F)
  fake_receipted completed =
      if not (is_fake_receipt completed.record_receipt)
      then err fake_receipt_mismatch
      else ok completed

  unfoldable pub record_call : ExecutionJob D → FakeExecutor D F E → FakeExecutor D F E
  record_call job x = record x { calls = x.calls ++ job ∷ [] }

  -- `_next_response`, on the responses that are left.
  unfoldable pub next_response :
      List (CompletedExecution D F)
      → FakeExecutor D F E
      → Result (FakeFailure E) (CompletedExecution D F) × FakeExecutor D F E
  next_response [] x = (err fake_no_response, x)
  next_response (c ∷ cs) x = (ok c, record x { responses = cs })

  unfoldable pub record_call_taking_response :
      ExecutionJob D
      → FakeExecutor D F E
      → Result (FakeFailure E) (CompletedExecution D F) × FakeExecutor D F E
  record_call_taking_response job x = next_response x.responses (record_call job x)

  raised : Result E (CompletedExecution D F) → Result (FakeFailure E) (CompletedExecution D F)
  raised (ok completed) = ok completed
  raised (err e) = err (responder_raised e)

  -- `run_blocking` on a job that was validated.
  unfoldable pub respond :
      Option (Responder D F E)
      → ExecutionJob D
      → Option ℕ
      → FakeExecutor D F E
      → Result (FakeFailure E) (CompletedExecution D F) × FakeExecutor D F E
  unfolding raised
  respond (some responder) job cancellation x =
      (raised (responder job cancellation) >>= fake_receipted, record_call job x)
  respond none job cancellation x =
      let (response, x') = record_call_taking_response job x in (response >>= fake_receipted, x')

  unfoldable pub run_blocking :
      (D → List ℕ)
      → ExecutionJob D
      → Option ℕ
      → FakeExecutor D F E
      → Result (FakeFailure E) (CompletedExecution D F) × FakeExecutor D F E
  run_blocking request_transport_bytes job cancellation x =
      elim (validate_declaration request_transport_bytes job) [
        | err e ↦ (err (declaration_invalid e), x)
        | ok u ↦ respond x.responder job cancellation x
      ]
