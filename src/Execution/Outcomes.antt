-- ===== src/Execution/Outcomes.antt =====
-- src/dr_exec/execution/outcomes.py: who owns an outcome, and the completion built from it.
use Prim.Native.String.{String, ◌++◌}
use dr_exec.Prelude.{ℕ, ◌-◌, Option, none, some, List, [], ltb, if◌then◌else◌}
use dr_exec.Prelude.Integers.{is_zero}
use dr_exec.Prelude.Results.{Result, err, ◌>>=◌}
use dr_exec.Core.Kinds.{
  BudgetAxis, wall_time, input_bytes, payload_output, memory_bytes, cpu_time, process_count,
  file_size_bytes, open_file_count, disk_bytes, ProtocolFailureCode, oversized_frame,
  malformed_frame, FailureOwner,
}
use dr_exec.Recording.Streams.{RetainedPayloadStream, PayloadOutputs}
use dr_exec.Recording.Outcomes.{
  ExecutionOutcome, exited, signaled, spawn_absent, spawn_failed, budget_exceeded, protocol_failed,
  cancelled, ProtocolFailedOutcome, ExecutionAttribution,
}
use dr_exec.Recording.Results.{
  ExecutionId, ExecutionMeasurements, RecordReceipt, CompletedExecution, RecordError,
  negative_duration, finished_must_not_precede_started, protocol_output_count_must_match_outcome,
  execution_ids_must_match,
}

-- The text of an axis.
unfoldable pub axis_text : BudgetAxis → String
axis_text wall_time = "wall_time"
axis_text input_bytes = "input_bytes"
axis_text payload_output = "payload_output"
axis_text memory_bytes = "memory_bytes"
axis_text cpu_time = "cpu_time"
axis_text process_count = "process_count"
axis_text file_size_bytes = "file_size_bytes"
axis_text open_file_count = "open_file_count"
axis_text disk_bytes = "disk_bytes"

abbrev pub owned : FailureOwner → String → ExecutionAttribution
owned owner detail = record { owner = owner; detail = some detail }

unfoldable pub attribute_exceeded : BudgetAxis → ExecutionAttribution
attribute_exceeded wall_time = owned FailureOwner.executor "the wall-time budget was exceeded"
attribute_exceeded axis =
    owned FailureOwner.payload ("the payload exceeded its " ++ axis_text axis ++ " budget")

unfoldable pub protocol_owner : ProtocolFailureCode → FailureOwner
protocol_owner oversized_frame = FailureOwner.executor
protocol_owner _ = FailureOwner.payload

unfoldable pub attribute_outcome : ExecutionOutcome → ExecutionAttribution
attribute_outcome (exited exit_code) =
    if is_zero exit_code
    then record { owner = FailureOwner.none; detail = none }
    else owned FailureOwner.payload "the payload exited nonzero"
attribute_outcome (signaled number) = owned FailureOwner.payload "the payload died on a signal"
attribute_outcome (spawn_absent executable) =
    owned FailureOwner.executor "the declared executable was not found"
attribute_outcome (spawn_failed errno message) =
    owned FailureOwner.machine "the child could not be started"
attribute_outcome (budget_exceeded axis) = attribute_exceeded axis
attribute_outcome (protocol_failed failure) =
    owned (protocol_owner failure.failure_code) failure.failure_detail
attribute_outcome (cancelled started) = owned FailureOwner.none "the call was cancelled"

unfoldable pub executor_protocol_failure_attribution : ProtocolFailedOutcome → ExecutionAttribution
executor_protocol_failure_attribution failure = owned FailureOwner.executor failure.failure_detail

unfoldable pub malformed_frame_outcome : String → ProtocolFailedOutcome
malformed_frame_outcome detail = record {
  failure_code = malformed_frame;
  failure_detail = detail;
  accepted_output_count = 0;
}

unfoldable pub empty_payload_outputs : PayloadOutputs
empty_payload_outputs =
    let empty : RetainedPayloadStream = record {
      head = [];
      tail = [];
      produced_bytes = 0;
      dropped_bytes = 0;
    } in
    record { stdout = empty; stderr = empty }

-- The attribution before its detail is replaced.
unfoldable pub chosen_attribution :
    Option (ProtocolFailedOutcome → ExecutionAttribution) → ExecutionOutcome → ExecutionAttribution
chosen_attribution (some override) (protocol_failed failure) = override failure
chosen_attribution override outcome = attribute_outcome outcome

unfoldable pub with_detail : Option String → ExecutionAttribution → ExecutionAttribution
with_detail none attribution = attribution
with_detail (some detail) attribution = record attribution { detail = some detail }

-- `now` and `now_ns` are what the two clocks return. A duration below 0 is no `NonNegativeInt`.
unfoldable pub measured : ℕ → ℕ → ℕ → ℕ → ℕ → Result RecordError ExecutionMeasurements
measured now now_ns started_at started_ns input =
    if ltb now_ns started_ns
    then err negative_duration
    else finished_must_not_precede_started (record {
      started_at = started_at;
      finished_at = now;
      duration_ns = now_ns - started_ns;
      teardown_duration_ns = 0;
      input_bytes = input;
      protocol_bytes_received = 0;
    })

module _ {D F : Type 0} (now now_ns : ℕ) where
  unfoldable pub completed_execution :
      ExecutionId
      → RecordReceipt F
      → ExecutionOutcome
      → List D
      → ℕ
      → ℕ
      → ℕ
      → Option String
      → Option (ProtocolFailedOutcome → ExecutionAttribution)
      → Result RecordError (CompletedExecution D F)
  completed_execution id receipt outcome outputs started_at started_ns input detail override = do
    measurements ← measured now now_ns started_at started_ns input
    result ← protocol_output_count_must_match_outcome (record {
      execution_id = id;
      outcome = outcome;
      attribution = with_detail detail (chosen_attribution override outcome);
      protocol_outputs = outputs;
      payload_outputs = empty_payload_outputs;
      measurements = measurements;
    })
    execution_ids_must_match (record { result = result; record_receipt = receipt })
