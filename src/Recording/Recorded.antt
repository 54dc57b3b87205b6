-- ===== src/Recording/Recorded.antt =====
-- When the record of a result in src/dr_exec/recording/store.py can be built.
use dr_exec.Prelude.{◌+◌, ◌≡◌, ◌↔◌, arith, length}
use dr_exec.Prelude.Results.{Returns}
use dr_exec.Recording.Streams.{RetainedPayloadStream, validate_stream}
use dr_exec.Recording.Results.{ExecutionResult, protocol_output_count_must_match_outcome}
use dr_exec.Recording.Stored.{
  SidecarSummary, validate_stream_record, validate_result_record, retained_stream_record,
  execution_result_record,
}

-- The summary counts the bytes that the stream kept.
abbrev pub Counts : RetainedPayloadStream → SidecarSummary → Type 0
Counts stream summary =
    summary.head_length + summary.tail_length ≡ length stream.head + length stream.tail

retained_stream_record-Counts :
    (stream : RetainedPayloadStream) (summary : SidecarSummary)
    → Returns (validate_stream stream)
    → Returns (retained_stream_record stream summary) ↔ Counts stream summary
unfolding validate_stream retained_stream_record validate_stream_record
retained_stream_record-Counts stream summary v = ground arith

-- The record of a result that passed its validators is built exactly when both summaries count the bytes
-- that their streams kept.
pub execution_result_record-Counts :
    {D : Type 0} (r : ExecutionResult D) (stdout_summary stderr_summary : SidecarSummary)
    → Returns (validate_stream r.payload_outputs.stdout)
    → Returns (validate_stream r.payload_outputs.stderr)
    → Returns (protocol_output_count_must_match_outcome r)
    → Returns (execution_result_record r stdout_summary stderr_summary) ↔ (
        Counts r.payload_outputs.stdout stdout_summary
        × Counts r.payload_outputs.stderr stderr_summary)
unfolding execution_result_record validate_result_record protocol_output_count_must_match_outcome
execution_result_record-Counts r stdout_summary stderr_summary v w counted =
    let first = retained_stream_record-Counts r.payload_outputs.stdout stdout_summary v in
    let second = retained_stream_record-Counts r.payload_outputs.stderr stderr_summary w in
    ground arith
