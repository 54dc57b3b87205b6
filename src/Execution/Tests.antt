-- ===== src/Execution/Tests.antt =====
-- The completions of src/dr_exec/execution/outcomes.py at small facts.
use dr_exec.Prelude.{ℕ, ◌≤◌, ◌≡◌, ◌↔◌, true, none, some, List, [], ◌∷◌}
use dr_exec.Prelude.Results.{Returns}
use dr_exec.Core.Kinds.{FailureOwner, oversized_frame}
use dr_exec.Recording.Outcomes.{ExecutionOutcome, protocol_failed}
use dr_exec.Recording.Results.{ExecutionId, RecordReceipt, in_process, same_id, receipt_id}
use dr_exec.Execution.Outcomes.{
  attribute_outcome, completed_execution, executor_protocol_failure_attribution,
}
use dr_exec.Execution.Completions.{
  IsBenign, IsExecutorFault, Counted, owner_iff, completed_execution_iff,
}

abbrev first_attempt : ExecutionId
first_attempt = record { job_id = "job"; attempt_id = "one" }

abbrev receipt : RecordReceipt ℕ
receipt = in_process first_attempt

abbrev one_output : List ℕ
one_output = 4 ∷ []

abbrev too_large : ExecutionOutcome
too_large = protocol_failed (record {
  failure_code = oversized_frame;
  failure_detail = "too large";
  accepted_output_count = 1;
})

owner_iff_example :
    (((attribute_outcome too_large).owner ≡ FailureOwner.none) ↔ IsBenign too_large)
    × (((attribute_outcome too_large).owner ≡ FailureOwner.executor) ↔ IsExecutorFault too_large)
owner_iff_example = owner_iff too_large

completed_execution_iff_example :
    Returns (
      completed_execution 9 8 first_attempt receipt too_large one_output 7 6 0 none
        (some executor_protocol_failure_attribution))
    ↔ (((6 ≤ 8) × (7 ≤ 9))
        × (Counted too_large one_output × (same_id first_attempt (receipt_id receipt) ≡ true)))
completed_execution_iff_example =
    completed_execution_iff 9 8 7 6 0 first_attempt receipt too_large one_output none
      (some executor_protocol_failure_attribution)
