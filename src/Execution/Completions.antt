-- ===== src/Execution/Completions.antt =====
-- What the completions of src/dr_exec/execution/outcomes.py promise.
use Prim.Native.String.{String}
use dr_exec.Prelude.{ℕ, zero, suc, ◌≤◌, ◌≡◌, ◌↔◌, true, Option, List, arith, length}
use dr_exec.Prelude.Integers.{pos, negsuc}
use dr_exec.Prelude.Results.{Returns}
use dr_exec.Core.Kinds.{FailureOwner, wall_time, oversized_frame}
use dr_exec.Recording.Outcomes.{
  ExecutionOutcome, exited, signaled, spawn_absent, spawn_failed, budget_exceeded, protocol_failed,
  cancelled, ProtocolFailedOutcome, ExecutionAttribution,
}
use dr_exec.Recording.Results.{
  ExecutionId, RecordReceipt, same_id, receipt_id, finished_must_not_precede_started,
  protocol_output_count_must_match_outcome, execution_ids_must_match,
}
use dr_exec.Execution.Outcomes.{
  attribute_outcome, attribute_exceeded, protocol_owner, measured, completed_execution,
}

-- The outcomes that nobody is to blame for.
abbrev pub IsBenign : ExecutionOutcome → Type 0
IsBenign (exited exit_code) = exit_code ≡ pos 0
IsBenign (cancelled started) = Unit
IsBenign _ = ⊥

-- The outcomes that are blamed on the executor.
abbrev pub IsExecutorFault : ExecutionOutcome → Type 0
IsExecutorFault (spawn_absent executable) = Unit
IsExecutorFault (budget_exceeded axis) = axis ≡ wall_time
IsExecutorFault (protocol_failed failure) = failure.failure_code ≡ oversized_frame
IsExecutorFault _ = ⊥

-- Nobody owns an outcome exactly if it exited with 0 or was cancelled; the executor owns it exactly if the
-- executable was absent, the wall time ran out or a frame was oversized.
pub owner_iff :
    (o : ExecutionOutcome)
    → (((attribute_outcome o).owner ≡ FailureOwner.none) ↔ IsBenign o)
      × (((attribute_outcome o).owner ≡ FailureOwner.executor) ↔ IsExecutorFault o)
unfolding attribute_outcome attribute_exceeded protocol_owner
owner_iff (exited (pos zero)) = ground arith
owner_iff (exited (pos (suc n))) = ground arith
owner_iff (exited (negsuc n)) = ground arith
owner_iff (signaled number) = ground arith
owner_iff (spawn_absent executable) = ground arith
owner_iff (spawn_failed errno message) = ground arith
owner_iff (budget_exceeded axis) = ground arith
owner_iff (protocol_failed failure) = ground arith
owner_iff (cancelled started) = ground arith

-- A protocol failure reports as many accepted outputs as there are.
abbrev pub Counted : {D : Type 0} → ExecutionOutcome → List D → Type 0
Counted (protocol_failed failure) outputs = failure.accepted_output_count ≡ length outputs
Counted _ outputs = Unit

-- A completion without a record is built exactly when neither clock went back, a protocol failure counts
-- the outputs that are passed on, and the receipt names the execution.
pub completed_execution_iff :
    {D F : Type 0} (now now_ns started_at started_ns input : ℕ) (id : ExecutionId)
    (receipt : RecordReceipt F) (outcome : ExecutionOutcome) (outputs : List D)
    (detail : Option String) (override : Option (ProtocolFailedOutcome → ExecutionAttribution))
    → Returns (
        completed_execution now now_ns id receipt outcome outputs started_at started_ns input detail
          override)
      ↔ (((started_ns ≤ now_ns) × (started_at ≤ now))
          × (Counted outcome outputs × (same_id id (receipt_id receipt) ≡ true)))
unfolding completed_execution measured finished_must_not_precede_started
    protocol_output_count_must_match_outcome execution_ids_must_match
completed_execution_iff now now_ns started_at started_ns input id receipt outcome outputs detail
      override =
    ground arith
