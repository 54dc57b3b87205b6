-- ===== src/Recording/Tests.antt =====
-- The record of a small result (src/dr_exec/recording/store.py).
use dr_exec.Prelude.{ℕ, ◌↔◌, none, [], ◌∷◌, false}
use dr_exec.Prelude.Results.{Returns}
use dr_exec.Core.Kinds.{FailureOwner}
use dr_exec.Recording.Streams.{RetainedPayloadStream, validate_stream}
use dr_exec.Recording.Outcomes.{cancelled}
use dr_exec.Recording.Results.{ExecutionResult, protocol_output_count_must_match_outcome}
use dr_exec.Recording.Stored.{SidecarSummary, execution_result_record}
use dr_exec.Recording.Recorded.{Counts, execution_result_record-Counts}

-- Three bytes of five are kept.
abbrev three_of_five : RetainedPayloadStream
three_of_five = record { head = 1 ∷ 2 ∷ []; tail = 5 ∷ []; produced_bytes = 5; dropped_bytes = 2 }

abbrev small_result : ExecutionResult ℕ
small_result = record {
  execution_id = record { job_id = "job"; attempt_id = "one" };
  outcome = cancelled false;
  attribution = record { owner = FailureOwner.none; detail = none };
  protocol_outputs = 4 ∷ [];
  payload_outputs = record { stdout = three_of_five; stderr = three_of_five };
  measurements = record {
    started_at = 1;
    finished_at = 2;
    duration_ns = 1;
    teardown_duration_ns = 0;
    input_bytes = 0;
    protocol_bytes_received = 0;
  };
}

abbrev summary : SidecarSummary
summary = record { head_length = 2; tail_length = 1; sidecar_hash = "c1d2" }

execution_result_record-Counts_example :
    Returns (execution_result_record small_result summary summary)
    ↔ (Counts three_of_five summary × Counts three_of_five summary)
unfolding validate_stream protocol_output_count_must_match_outcome
execution_result_record-Counts_example =
    execution_result_record-Counts small_result summary summary tt tt tt
