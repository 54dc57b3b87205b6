-- ===== src/Recording/Runs.antt =====
-- The records of a run in src/dr_exec/recording/models.py (lines 55 to 222 and 349 to 397). Identity
-- documents are a type D, the records of a runtime a type R; digests are strings.
use Prim.Native.String.{String}
use dr_exec.Prelude.{ℕ, Option, none, some, Bool, not, if◌then◌else◌}
use dr_exec.Prelude.Integers.{ℤ}
use dr_exec.Prelude.Results.{Result, ok, err}
use dr_exec.Core.Kinds.{RecordState, ExecutorFailureCode, ContainmentProfile}
use dr_exec.Declarations.Budgets.{Budgets}
use dr_exec.Recording.Results.{ExecutionId, same_id, RunRecordReference}
use dr_exec.Recording.Stored.{ExecutionResultRecord}
use dr_exec.Recording.GrantRecords.{EnvGrantRecord, WorkingDirectoryGrantRecord}

pub data RunError : Type 0 where
  declaration_and_result_ids_differ : RunError
  detail_and_failure_code detail_not_identifier : RunError

pub record RunRecordHeader (D : Type 0) : Type 0 where
  pub executor_identity : D
  pub executor_config_identity : D
  pub prepared_at : ℕ

pub data ExecutionTargetRecord (R : Type 0) : Type 0 where
  -- canonical_declaration_sha256
  trusted_command : String → ExecutionTargetRecord R
  untrusted_command : String → ContainmentProfile → ExecutionTargetRecord R
  -- canonical_declaration_sha256, request_id_sha256
  trusted_python : String → String → R → ExecutionTargetRecord R
  untrusted_python : String → String → ContainmentProfile → R → ExecutionTargetRecord R

pub record RunDeclaration (R : Type 0) : Type 0 where
  pub execution_id : ExecutionId
  pub target : ExecutionTargetRecord R
  pub env : EnvGrantRecord
  pub budgets : Budgets
  pub workspace : WorkingDirectoryGrantRecord

pub record ProcessRecord : Type 0 where
  pub pid : ℕ
  pub started_at : ℕ

pub record OutputArtifactRecord : Type 0 where
  pub relative_path : String
  pub size_bytes : ℕ
  pub sha256 : String

pub record OutputArtifactRecords : Type 0 where
  pub stdout : OutputArtifactRecord
  pub stderr : OutputArtifactRecord

pub record PreparedRecord (D R : Type 0) : Type 0 where
  pub header : RunRecordHeader D
  pub declaration : RunDeclaration R

pub record RunningRecord (D R : Type 0) : Type 0 where
  pub header : RunRecordHeader D
  pub declaration : RunDeclaration R
  pub process : ProcessRecord

pub record FinalizedRecord (D R : Type 0) : Type 0 where
  pub header : RunRecordHeader D
  pub declaration : RunDeclaration R
  pub result : ExecutionResultRecord D
  pub outputs : OutputArtifactRecords

pub data RunRecord (D R : Type 0) : Type 0 where
  prepared : PreparedRecord D R → RunRecord D R
  running : RunningRecord D R → RunRecord D R
  finalized : FinalizedRecord D R → RunRecord D R

-- `FinalizedRecord.execution_ids_must_match`.
unfoldable pub validate_finalized :
    {D R : Type 0} → FinalizedRecord D R → Result RunError (FinalizedRecord D R)
validate_finalized r =
    if not (same_id r.declaration.execution_id r.result.execution_id)
    then err declaration_and_result_ids_differ
    else ok r

module _ {D R : Type 0} where
  unfoldable pub record_state : RunRecord D R → RecordState
  record_state (prepared r) = RecordState.prepared
  record_state (running r) = RecordState.running
  record_state (finalized r) = RecordState.finalized

  unfoldable pub record_header : RunRecord D R → RunRecordHeader D
  record_header (prepared r) = r.header
  record_header (running r) = r.header
  record_header (finalized r) = r.header

  unfoldable pub record_declaration : RunRecord D R → RunDeclaration R
  record_declaration (prepared r) = r.declaration
  record_declaration (running r) = r.declaration
  record_declaration (finalized r) = r.declaration

pub record RecordingFailure : Type 0 where
  pub operation : String
  pub errno : Option ℤ
  pub detail : Option String
  pub failure_code : Option ExecutorFailureCode

unfoldable pub failure_error :
    (String → Bool) → Option String → Option ExecutorFailureCode → Option RunError
failure_error is_identifier none none = some detail_and_failure_code
failure_error is_identifier none (some code) = none
failure_error is_identifier (some detail) none =
    if not (is_identifier detail) then some detail_not_identifier else none
failure_error is_identifier (some detail) (some code) = some detail_and_failure_code

-- `RecordingFailure.failure_discriminator_is_exclusive`; `isidentifier` is Python's.
unfoldable pub validate_failure :
    (String → Bool) → RecordingFailure → Result RunError RecordingFailure
validate_failure is_identifier f = elim (failure_error is_identifier f.detail f.failure_code) [
  | none ↦ ok f
  | some e ↦ err e
]

-- A run whose declaration is recorded, or whose child is: `PreparedRun` and `RunningRun` of
-- src/dr_exec/recording/store.py, one record with its `durable_state`.
pub record RecordedRun (D R : Type 0) : Type 0 where
  pub durable_state : RecordState
  pub execution_id : ExecutionId
  pub reference : RunRecordReference
  pub header : RunRecordHeader D
  pub declaration : RunDeclaration R
