-- ===== src/Recording/Stored.antt =====
-- The record of a result: the data in src/dr_exec/recording/models.py (lines 242 to 266 and 328 to 347), and
-- `_retained_stream_record` and `_execution_result_record` of src/dr_exec/recording/store.py.
use Prim.Native.String.{String}
use dr_exec.Prelude.{ℕ, ◌+◌, not, List, ◌==◌, length, if◌then◌else◌}
use dr_exec.Prelude.Results.{Result, ok, err, ◌>>=◌}
use dr_exec.Recording.Streams.{RetainedPayloadStream}
use dr_exec.Recording.Outcomes.{ExecutionOutcome, protocol_failed, ExecutionAttribution}
use dr_exec.Recording.Results.{ExecutionId, ExecutionMeasurements, ExecutionResult}

pub data StoredError : Type 0 where
  stored_bytes_must_equal_produced stored_count_mismatch : StoredError

-- What the sidecar's writer, of dr_store, reports.
pub record SidecarSummary : Type 0 where
  pub head_length : ℕ
  pub tail_length : ℕ
  pub sidecar_hash : String

pub record RetainedPayloadStreamRecord : Type 0 where
  pub head_bytes : ℕ
  pub tail_bytes : ℕ
  pub produced_bytes : ℕ
  pub dropped_bytes : ℕ

pub record PayloadOutputRecords : Type 0 where
  pub stdout : RetainedPayloadStreamRecord
  pub stderr : RetainedPayloadStreamRecord

pub record ExecutionResultRecord (D : Type 0) : Type 0 where
  pub execution_id : ExecutionId
  pub outcome : ExecutionOutcome
  pub attribution : ExecutionAttribution
  pub protocol_outputs : List D
  pub payload_outputs : PayloadOutputRecords
  pub measurements : ExecutionMeasurements

-- The validator of `RetainedPayloadStreamRecord`.
unfoldable pub validate_stream_record :
    RetainedPayloadStreamRecord → Result StoredError RetainedPayloadStreamRecord
validate_stream_record s =
    if s.head_bytes + s.tail_bytes + s.dropped_bytes == s.produced_bytes
    then ok s
    else err stored_bytes_must_equal_produced

-- The validator of `ExecutionResultRecord`.
unfoldable pub validate_result_record :
    {D : Type 0} → ExecutionResultRecord D → Result StoredError (ExecutionResultRecord D)
validate_result_record r = elim r.outcome [
  | protocol_failed failure ↦
      if not (failure.accepted_output_count == length r.protocol_outputs)
      then err stored_count_mismatch
      else ok r
  | _ ↦ ok r
]

unfoldable pub retained_stream_record :
    RetainedPayloadStream → SidecarSummary → Result StoredError RetainedPayloadStreamRecord
retained_stream_record stream summary = validate_stream_record (record {
  head_bytes = summary.head_length;
  tail_bytes = summary.tail_length;
  produced_bytes = stream.produced_bytes;
  dropped_bytes = stream.dropped_bytes;
})

unfoldable pub execution_result_record :
    {D : Type 0}
    → ExecutionResult D
    → SidecarSummary
    → SidecarSummary
    → Result StoredError (ExecutionResultRecord D)
execution_result_record r stdout_summary stderr_summary = do
  stdout ← retained_stream_record r.payload_outputs.stdout stdout_summary
  stderr ← retained_stream_record r.payload_outputs.stderr stderr_summary
  validate_result_record (record {
    execution_id = r.execution_id;
    outcome = r.outcome;
    attribution = r.attribution;
    protocol_outputs = r.protocol_outputs;
    payload_outputs = record { stdout = stdout; stderr = stderr };
    measurements = r.measurements;
  })
