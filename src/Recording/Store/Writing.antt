-- ===== src/Recording/Store/Writing.antt =====
-- How src/dr_exec/recording/store.py writes the records of a run.
use Prim.Native.String.{String}
use dr_exec.Prelude.{◌+◌, Bool, true, false, Option, none, some, [], ◌∷◌, length}
use dr_exec.Prelude.Integers.{ℤ}
use dr_exec.Prelude.Results.{Result, ok, err}
use dr_exec.Core.Kinds.{RecordState, recording_operation_failed}
use dr_exec.Recording.Streams.{RetainedPayloadStream}
use dr_exec.Recording.Results.{ExecutionResult, RecordReceipt, complete, degraded}
use dr_exec.Recording.Stored.{SidecarSummary, ExecutionResultRecord, execution_result_record}
use dr_exec.Recording.Runs.{
  RunRecord, prepared, running, finalized, PreparedRecord, FinalizedRecord, ProcessRecord,
  OutputArtifactRecord, RecordingFailure, RecordedRun, record_header, record_declaration,
  validate_finalized,
}
use dr_exec.Recording.References.{record_reference_for_job}
use dr_exec.Recording.Store.Errors.{
  Exception, root, because, document_directory, executor_failure, validation_error,
  already_finalized, is_document_directory, is_record_load, is_recording_error, is_file_exists,
  is_os_error, recording_failure,
}
use dr_exec.Recording.Store.Backend.{
  Action, ◌>>=◌, ◌>>◌, give, raise, attempt, looking, Backend, Codec,
}
use dr_exec.Recording.Store.Reading.{
  stdout_sidecar_name, stderr_sidecar_name, load_error, load_record,
  unsupported_lifecycle_schema_version, record_dir, resolve, durable_state,
}

-- `_executor_failure`: what a recording step may raise becomes an ExecutorFailure.
unfoldable pub recording_step : {S A : Type 0} → Action S A → Action S A
recording_step m =
    attempt m is_recording_error
      (λ e. raise (because (executor_failure recording_operation_failed) none e))

abbrev pub allocation_error : Exception → Exception
allocation_error e = because (document_directory "AllocationError") none e

unfoldable pub artifact_record : String → SidecarSummary → OutputArtifactRecord
artifact_record name summary = record {
  relative_path = name;
  size_bytes = summary.head_length + summary.tail_length;
  sha256 = summary.sidecar_hash;
}

-- A validator that raises.
unfoldable pub constructing : {S E A : Type 0} → Result E A → Action S A
constructing (ok a) = give a
constructing (err e) = raise (root validation_error none)

unfoldable pub not_yet_finalized : {S D R : Type 0} → RunRecord D R → Action S (Unit {0})
not_yet_finalized (finalized r) = raise (load_error already_finalized)
not_yet_finalized (prepared r) = give tt
not_yet_finalized (running r) = give tt

module _ {N W S : Type 0} (backend : Backend N W S) where
  -- `_write_sidecar`.
  unfoldable pub write_sidecar : String → String → RetainedPayloadStream → Action S SidecarSummary
  write_sidecar record_dir name stream = do
    writer ← backend.open_sidecar record_dir name (length stream.head) (length stream.tail)
    backend.write writer stream.head
    backend.write writer stream.tail
    backend.finalize_sidecar writer

module _ {N D R W S : Type 0} (backend : Backend N W S) (codec : Codec N D R) where
  unfoldable pub publish : String → RunRecord D R → Action S (Unit {0})
  publish record_dir r =
      looking (λ s. backend.open_directory record_dir) >> backend.publish record_dir (codec.dump r)

  -- What `_reclaim_unprepared_allocation` does once the record did not load.
  unfoldable pub reclaim_unloadable : String → Option ℤ → Action S (Unit {0})
  reclaim_unloadable record_dir (some version) = give tt
  reclaim_unloadable record_dir none = backend.rmtree record_dir

  -- `_reclaim_unprepared_allocation`.
  unfoldable pub reclaim_unprepared_allocation : String → Action S (Unit {0})
  reclaim_unprepared_allocation record_dir =
      attempt (looking (load_record backend codec record_dir) >>= λ r. give tt) is_record_load (λ e.
        looking (unsupported_lifecycle_schema_version backend codec record_dir) >>= λ version.
        reclaim_unloadable record_dir version)

  -- The second attempt of `_allocate`, whose failure is an AllocationError like the first's.
  unfoldable pub make_directory : String → Action S (Unit {0})
  make_directory record_dir =
      attempt (backend.mkdir record_dir) is_os_error (λ e. raise (allocation_error e))

  -- The handlers of `_allocate`: for a FileExistsError, and for another OSError.
  unfoldable pub mkdir_failed : Bool → String → Exception → Action S (Unit {0})
  mkdir_failed true record_dir e =
      reclaim_unprepared_allocation record_dir >> make_directory record_dir
  mkdir_failed false record_dir e = raise (allocation_error e)

  -- `_allocate`, for the directory of the reference.
  unfoldable pub allocate : String → Action S (Unit {0})
  allocate record_dir =
      attempt (backend.mkdir record_dir) is_os_error
        (λ e. mkdir_failed (is_file_exists e) record_dir e)

  abbrev pub finalized_record :
      RunRecord D R
      → ExecutionResultRecord D
      → SidecarSummary
      → SidecarSummary
      → FinalizedRecord D R
  finalized_record r result stdout_summary stderr_summary = record {
    header = record_header r;
    declaration = record_declaration r;
    result = result;
    outputs = record {
      stdout = artifact_record stdout_sidecar_name stdout_summary;
      stderr = artifact_record stderr_sidecar_name stderr_summary;
    };
  }

  -- `_publish_finalized`, once the directory is resolved.
  unfoldable pub publish_finalized_in : ExecutionResult D → String → Action S (Unit {0})
  publish_finalized_in result record_dir = do
    r ← looking (load_record backend codec record_dir)
    not_yet_finalized r
    looking (λ s. backend.open_directory record_dir)
    stdout_summary ←
        write_sidecar backend record_dir stdout_sidecar_name result.payload_outputs.stdout
    stderr_summary ←
        write_sidecar backend record_dir stderr_sidecar_name result.payload_outputs.stderr
    result_record ← constructing (execution_result_record result stdout_summary stderr_summary)
    final ←
        constructing
          (validate_finalized (finalized_record r result_record stdout_summary stderr_summary))
    backend.publish record_dir (codec.dump (finalized final))

  -- The block of `prepare` whose errors are the executor's.
  unfoldable pub publish_prepared : PreparedRecord D R → String → Action S (Unit {0})
  publish_prepared r directory = do
    allocate directory
    looking (λ s. backend.open_directory directory)
    attempt (backend.publish directory (codec.dump (prepared r))) is_document_directory
        (λ e. reclaim_unprepared_allocation directory >> raise e)

  module _ (root_dir : String) where
    -- `prepare`. `uuid5` is Python's.
    unfoldable pub prepare :
        (String → String → String) → PreparedRecord D R → Action S (RecordedRun D R)
    prepare uuid5 r =
        let reference = record_reference_for_job uuid5 r.declaration.execution_id.job_id in
        recording_step (publish_prepared r (record_dir backend codec root_dir reference))
        >> give (record {
          durable_state = RecordState.prepared;
          execution_id = r.declaration.execution_id;
          reference = reference;
          header = r.header;
          declaration = r.declaration;
        })

    -- `mark_running`.
    unfoldable pub mark_running : RecordedRun D R → ProcessRecord → Action S (RecordedRun D R)
    mark_running run process =
        recording_step (
          looking (resolve backend codec root_dir run.reference) >>= λ record_dir.
          publish record_dir (
            running
              (record { header = run.header; declaration = run.declaration; process = process })))
        >> give (record run { durable_state = RecordState.running })

    -- `_publish_finalized`.
    unfoldable pub publish_finalized : RecordedRun D R → ExecutionResult D → Action S (Unit {0})
    publish_finalized run result =
        looking (resolve backend codec root_dir run.reference) >>= publish_finalized_in result

    -- `finalize`.
    unfoldable pub finalize :
        RecordedRun D R → ExecutionResult D → Action S (RecordReceipt RecordingFailure)
    finalize run result =
        attempt (publish_finalized run result >> give (complete run.execution_id run.reference))
          is_recording_error
          (λ e. looking (durable_state backend codec root_dir run) >>= λ latest_state. give (
            degraded run.execution_id run.reference latest_state
              (recording_failure "finalize" e ∷ [])))
