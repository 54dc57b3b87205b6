-- ===== src/Recording/Store/Tests.antt =====
-- A run that is prepared, finalized and loaded on a small disk (src/dr_exec/recording/store.py).
use dr_exec.Prelude.{ℕ, none, ◌≡◌, refl}
use dr_exec.Prelude.Results.{ok}
use dr_exec.Core.Kinds.{recording_operation_failed}
use dr_exec.Recording.Results.{complete, same_id}
use dr_exec.Recording.Runs.{
  RunRecord, prepared, FinalizedRecord, finalized, validate_finalized, record_header,
  record_declaration,
}
use dr_exec.Recording.References.{record_reference_for_job}
use dr_exec.Recording.Stored.{
  SidecarSummary, RetainedPayloadStreamRecord, execution_result_record, retained_stream_record,
  validate_stream_record, validate_result_record,
}
use dr_exec.Recording.Store.Reads.{stage}
use dr_exec.Recording.Store.Lifecycle.{Advances, start, next, finalizing, perform}
use dr_exec.Recording.Store.Advancing.{perform-Advances}
use dr_exec.Recording.Store.Errors.{Exception, because, executor_failure}
use dr_exec.Recording.Store.Backend.{returned, raised, after}
use dr_exec.Recording.Store.Reading.{
  load, load_record, record_dir, reraise, read_directory, record_of, unsupported_version,
  header_schema_version, object_version, integer_of, is_current, validated, resolve, verify_loaded,
  verify_sidecars, verify_artifact,
}
use dr_exec.Recording.Store.Writing.{
  allocate, publish_prepared, recording_step, prepare, finalize, finalized_record,
  publish_finalized, publish_finalized_in, write_sidecar, not_yet_finalized, constructing,
  artifact_record,
}
use dr_exec.Recording.Store.Preparing.{prepared_dir}
use dr_exec.Recording.Store.Loading.{IsLater}
use dr_exec.Recording.Store.Guarantees.{
  load-prepare, load-finalize, prepare-loadable, loads_for_good, finalized_for_good,
}
use dr_exec.Recording.Store.Disk.{
  disk_backend, disk_codec, disk-BackendLaws, disk-SidecarLaws, disk-CodecLaws,
}
use dr_exec.Recording.Store.Samples.{
  job_uuid, first_record, empty_disk, prepared_disk, first_run, first_result, finalized_disk,
}

prepared_loads :
    load_record disk_backend disk_codec
      (prepared_dir disk_backend disk_codec "store" job_uuid first_record)
      prepared_disk
    ≡ ok (prepared first_record)
unfolding prepare publish_prepared allocate recording_step load_record reraise read_directory
    record_dir record_reference_for_job record_of unsupported_version header_schema_version
    object_version integer_of is_current validated
prepared_loads = refl

abbrev first_summary : SidecarSummary
first_summary = record { head_length = 2; tail_length = 1; sidecar_hash = "00" }

abbrev first_stream : RetainedPayloadStreamRecord
first_stream = record { head_bytes = 2; tail_bytes = 1; produced_bytes = 5; dropped_bytes = 2 }

-- The record that is published for the result.
abbrev first_final : FinalizedRecord ℕ ℕ
first_final =
    finalized_record disk_backend disk_codec (prepared first_record)
      (record {
        execution_id = first_result.execution_id;
        outcome = first_result.outcome;
        attribution = first_result.attribution;
        protocol_outputs = first_result.protocol_outputs;
        payload_outputs = record { stdout = first_stream; stderr = first_stream };
        measurements = first_result.measurements;
      })
      first_summary first_summary

prepared_run_loads :
    load disk_backend disk_codec "store" first_run.reference prepared_disk
    ≡ ok (prepared first_record)
unfolding prepare publish_prepared allocate recording_step load_record reraise read_directory
    record_dir record_reference_for_job record_of unsupported_version header_schema_version
    object_version integer_of is_current validated resolve load verify_loaded
prepared_run_loads = refl

finalized_run_loads :
    load disk_backend disk_codec "store" first_run.reference finalized_disk
    ≡ ok (finalized first_final)
unfolding prepare publish_prepared allocate recording_step load_record reraise read_directory
    record_dir record_reference_for_job record_of unsupported_version header_schema_version
    object_version integer_of is_current validated finalize publish_finalized publish_finalized_in
    resolve write_sidecar not_yet_finalized constructing execution_result_record
    retained_stream_record validate_stream_record validate_result_record validate_finalized same_id
    artifact_record record_header record_declaration load verify_loaded verify_sidecars
    verify_artifact
finalized_run_loads = refl

finalized_returns :
    finalize disk_backend disk_codec "store" first_run first_result prepared_disk
    ≡ returned (complete first_run.execution_id first_run.reference) finalized_disk
unfolding prepare publish_prepared allocate recording_step load_record reraise read_directory
    record_dir record_reference_for_job record_of unsupported_version header_schema_version
    object_version integer_of is_current validated finalize publish_finalized publish_finalized_in
    resolve write_sidecar not_yet_finalized constructing execution_result_record
    retained_stream_record validate_stream_record validate_result_record validate_finalized same_id
    artifact_record record_header record_declaration
finalized_returns = refl

load-prepare_example :
    (load disk_backend disk_codec "store" first_run.reference prepared_disk
      ≡ ok (prepared first_record))
    × (first_run ≡ first_run)
unfolding prepare publish_prepared allocate recording_step record_dir record_reference_for_job
load-prepare_example =
    load-prepare disk_backend disk_codec disk-BackendLaws disk-SidecarLaws disk-CodecLaws "store"
      job_uuid first_record empty_disk first_run prepared_disk refl

prepare-loadable_example :
    (e : Exception) × (prepare disk_backend disk_codec "store" job_uuid first_record prepared_disk
      ≡ raised (because (executor_failure recording_operation_failed) none e) prepared_disk)
prepare-loadable_example =
    prepare-loadable disk_backend disk_codec disk-BackendLaws disk-SidecarLaws disk-CodecLaws
      "store" job_uuid first_record prepared_disk (prepared first_record) prepared_loads

load-finalize_example :
    (old : RunRecord ℕ ℕ) × (r : FinalizedRecord ℕ ℕ) × (load_record disk_backend disk_codec
        (record_dir disk_backend disk_codec "store" first_run.reference)
        prepared_disk
      ≡ ok old)
    × (load disk_backend disk_codec "store" first_run.reference finalized_disk ≡ ok (finalized r))
    × (r.header ≡ record_header old)
    × (r.declaration ≡ record_declaration old)
    × (r.result.execution_id ≡ first_result.execution_id)
    × (r.result.outcome ≡ first_result.outcome)
    × (r.result.attribution ≡ first_result.attribution)
    × (r.result.protocol_outputs ≡ first_result.protocol_outputs)
    × (r.result.measurements ≡ first_result.measurements)
load-finalize_example =
    load-finalize disk_backend disk_codec disk-BackendLaws disk-SidecarLaws disk-CodecLaws "store"
      job_uuid first_run first_result prepared_disk first_run.execution_id first_run.reference
      finalized_disk finalized_returns

-- A run that was prepared is finalized.
loads_for_good_example :
    (new : RunRecord ℕ ℕ) × (load disk_backend disk_codec "store" first_run.reference finalized_disk
      ≡ ok new)
    × IsLater (prepared first_record) new
loads_for_good_example =
    loads_for_good disk_backend disk_codec disk-BackendLaws disk-SidecarLaws disk-CodecLaws "store"
      job_uuid (next (start prepared_disk) (finalizing first_run first_result) tt)
      first_run.reference (prepared first_record) prepared_run_loads

-- Finalizing once more changes nothing.
finalized_for_good_example :
    load disk_backend disk_codec "store" first_run.reference
      (after (finalize disk_backend disk_codec "store" first_run first_result finalized_disk))
    ≡ ok (finalized first_final)
finalized_for_good_example =
    finalized_for_good disk_backend disk_codec disk-BackendLaws disk-SidecarLaws disk-CodecLaws
      "store" job_uuid (next (start finalized_disk) (finalizing first_run first_result) tt)
      first_run.reference first_final finalized_run_loads

perform-Advances_example :
    Advances
      (stage disk_backend disk_codec
        (prepared_dir disk_backend disk_codec "store" job_uuid first_record)
        prepared_disk)
      (stage disk_backend disk_codec
        (prepared_dir disk_backend disk_codec "store" job_uuid first_record)
        (perform disk_backend disk_codec "store" job_uuid
          (finalizing first_run first_result)
          prepared_disk))
perform-Advances_example =
    perform-Advances disk_backend disk_codec disk-BackendLaws disk-CodecLaws "store" job_uuid
      (finalizing first_run first_result) prepared_disk tt
      (prepared_dir disk_backend disk_codec "store" job_uuid first_record)
