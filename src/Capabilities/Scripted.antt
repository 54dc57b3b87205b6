-- ===== src/Capabilities/Scripted.antt =====
-- A scripted `FakeExecutor` of src/dr_exec/capabilities/fake.py over many calls.
use dr_exec.Prelude.{
  ℕ, ◌≤◌, ◌≡◌, refl, none, List, [], ◌∷◌, ◌++◌, map, arith, All, append_assoc, append-nil, take,
  drop, length, true,
}
use dr_exec.Prelude.Results.{Result, ok}
use dr_exec.Declarations.Targets.{ExecutionJob}
use dr_exec.Declarations.Validation.{validate_declaration}
use dr_exec.Recording.Results.{CompletedExecution}
use dr_exec.Capabilities.Fake.{
  FakeExecutor, FakeFailure, is_fake_receipt, fake_receipted, record_call, next_response,
  record_call_taking_response, respond, run_blocking,
}

abbrev pub IsValid : {D : Type 0} → (D → List ℕ) → ExecutionJob D → Type 0
IsValid request_transport_bytes job = validate_declaration request_transport_bytes job ≡ ok tt

abbrev pub IsFake : {D F : Type 0} → CompletedExecution D F → Type 0
IsFake c = is_fake_receipt c.record_receipt ≡ true

module _ {D F E : Type 0} (request_transport_bytes : D → List ℕ) where
  -- The calls one after the other, in the order in which they take the lock.
  unfoldable pub run_each :
      List (ExecutionJob D)
      → FakeExecutor D F E
      → List (Result (FakeFailure E) (CompletedExecution D F)) × FakeExecutor D F E
  run_each [] x = ([], x)
  run_each (job ∷ jobs) x =
      let (result, x') = run_blocking request_transport_bytes job none x in
      let (results, x'') = run_each jobs x' in (result ∷ results, x'')

  run_blocking_lem :
      (job : ExecutionJob D) (c : CompletedExecution D F) (cs : List (CompletedExecution D F))
      (calls : List (ExecutionJob D))
      → IsValid request_transport_bytes job
      → IsFake c
      → run_blocking {E = E} request_transport_bytes job none
          (record { responses = c ∷ cs; responder = none; calls = calls })
        ≡ (ok c, record { responses = cs; responder = none; calls = calls ++ job ∷ [] })
  unfolding run_blocking respond record_call_taking_response next_response record_call
      fake_receipted
  run_blocking_lem job c cs calls v f = rw (run_blocking, v, f) refl

  -- A fake that has scripted responses with fake receipts, at least as many as there are calls with
  -- valid jobs, answers the calls with the first ones in order, keeps the others, and has recorded the
  -- jobs in order.
  pub run_each-take :
      (jobs : List (ExecutionJob D)) (responses : List (CompletedExecution D F))
      (calls : List (ExecutionJob D))
      → All (IsValid request_transport_bytes) jobs
      → All IsFake responses
      → length jobs ≤ length responses
      → run_each jobs (record { responses = responses; responder = none; calls = calls }) ≡ (
        map ok (take (length jobs) responses),
        record {
          responses = drop (length jobs) responses;
          responder = none;
          calls = calls ++ jobs;
        },
      )
  unfolding run_each
  run_each-take [] responses calls v f enough = rw (append-nil calls)
  run_each-take (job ∷ jobs) [] calls v f enough = absurd (omega arith)
  run_each-take (job ∷ jobs) (c ∷ cs) calls v f enough =
      let ih = run_each-take jobs cs (calls ++ job ∷ []) v.1 f.1 (omega arith) in
      rw (run_blocking_lem job c cs calls v.0 f.0, ih, append_assoc calls (job ∷ []) jobs)
