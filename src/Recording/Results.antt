-- ===== src/Recording/Results.antt =====
-- The results, the receipts and their validators in src/dr_exec/recording/models.py, and
-- `ExecutionId` of src/dr_exec/core/names.py. Instants of `UtcDatetime` are counts of nanoseconds.
use Prim.Native.String.{String}
use text.Mathlib.Text.{◌==◌ as str_eq}
use dr_exec.Prelude.{ℕ, Bool, not, ◌&&◌, List, ◌==◌, ltb, length, if◌then◌else◌}
use dr_exec.Prelude.Results.{Result, ok, err}
use dr_exec.Core.Kinds.{RecordState}
use dr_exec.Recording.Streams.{PayloadOutputs}
use dr_exec.Recording.Outcomes.{ExecutionOutcome, protocol_failed, ExecutionAttribution}

pub record ExecutionId : Type 0 where
  pub job_id : String
  pub attempt_id : String

unfoldable pub same_id : ExecutionId → ExecutionId → Bool
same_id a b = str_eq a.job_id b.job_id && str_eq a.attempt_id b.attempt_id

-- The errors of the validators.
pub data RecordError : Type 0 where
  finished_precedes_started output_count_mismatch execution_ids_differ : RecordError
  negative_duration : RecordError

pub record ExecutionMeasurements : Type 0 where
  pub started_at : ℕ
  pub finished_at : ℕ
  pub duration_ns : ℕ
  pub teardown_duration_ns : ℕ
  pub input_bytes : ℕ
  pub protocol_bytes_received : ℕ

unfoldable pub finished_must_not_precede_started :
    ExecutionMeasurements → Result RecordError ExecutionMeasurements
finished_must_not_precede_started m =
    if ltb m.finished_at m.started_at then err finished_precedes_started else ok m

-- Identity documents, of dr_serialize, are a type D.
pub record ExecutionResult (D : Type 0) : Type 0 where
  pub execution_id : ExecutionId
  pub outcome : ExecutionOutcome
  pub attribution : ExecutionAttribution
  pub protocol_outputs : List D
  pub payload_outputs : PayloadOutputs
  pub measurements : ExecutionMeasurements

unfoldable pub protocol_output_count_must_match_outcome :
    {D : Type 0} → ExecutionResult D → Result RecordError (ExecutionResult D)
protocol_output_count_must_match_outcome r = elim r.outcome [
  | protocol_failed failure ↦
      if not (failure.accepted_output_count == length r.protocol_outputs)
      then err output_count_mismatch
      else ok r
  | _ ↦ ok r
]

-- An opaque locator, by its record's identity.
pub record RunRecordReference : Type 0 where
  pub record_id : String

pub data RecordReceipt (F : Type 0) : Type 0 where
  complete : ExecutionId → RunRecordReference → RecordReceipt F
  degraded : ExecutionId → RunRecordReference → RecordState → List F → RecordReceipt F
  not_applicable : ExecutionId → RecordReceipt F
  in_process : ExecutionId → RecordReceipt F
  worker_pool : ExecutionId → RecordReceipt F

unfoldable pub receipt_id : {F : Type 0} → RecordReceipt F → ExecutionId
receipt_id (complete id reference) = id
receipt_id (degraded id reference latest_state failures) = id
receipt_id (not_applicable id) = id
receipt_id (in_process id) = id
receipt_id (worker_pool id) = id

pub record CompletedExecution (D F : Type 0) : Type 0 where
  pub result : ExecutionResult D
  pub record_receipt : RecordReceipt F

unfoldable pub execution_ids_must_match :
    {D F : Type 0} → CompletedExecution D F → Result RecordError (CompletedExecution D F)
execution_ids_must_match c =
    if not (same_id c.result.execution_id (receipt_id c.record_receipt))
    then err execution_ids_differ
    else ok c
