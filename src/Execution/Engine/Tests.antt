-- ===== src/Execution/Engine/Tests.antt =====
-- An attempt whose child exits, on a small disk (src/dr_exec/execution/engine.py).
use dr_exec.Prelude.{ℕ, ◌≤◌, true, false, Option, none, some, List, [], ◌∷◌, ◌≡◌, ◌↔◌, refl, arith}
use dr_exec.Prelude.Integers.{pos}
use dr_exec.Prelude.Json.{Json}
use dr_exec.Prelude.Results.{ok}
use dr_exec.Core.Kinds.{payload_output, wall_time, recording_operation_failed}
use dr_exec.Declarations.Budgets.{OutputBudget}
use dr_exec.Recording.Outcomes.{exited, budget_exceeded, cancelled}
use dr_exec.Recording.Results.{
  CompletedExecution, complete, same_id, finished_must_not_precede_started,
  protocol_output_count_must_match_outcome, execution_ids_must_match, receipt_id,
}
use dr_exec.Recording.Runs.{RecordingFailure, validate_finalized, record_header, record_declaration}
use dr_exec.Recording.References.{record_reference_for_job}
use dr_exec.Recording.Stored.{
  execution_result_record, retained_stream_record, validate_stream_record, validate_result_record,
}
use dr_exec.Recording.Store.Reading.{
  reraise, read_directory, record_dir, load_record, record_of, unsupported_version,
  header_schema_version, object_version, integer_of, is_current, validated, resolve,
}
use dr_exec.Recording.Store.Writing.{
  prepare, publish_prepared, allocate, recording_step, finalize, publish_finalized,
  publish_finalized_in, write_sidecar, not_yet_finalized, constructing, artifact_record,
}
use dr_exec.Recording.Store.Backend.{Ran, returned, after}
use dr_exec.Recording.Store.Calls.{Ends}
use dr_exec.Recording.Store.Samples.{job_uuid, prepared_disk, first_run, first_result}
use dr_exec.Recording.Store.Disk.{
  Disk, disk_backend, disk_codec, disk-BackendLaws, disk-SidecarLaws, disk-CodecLaws,
}
use dr_exec.Execution.Outcomes.{empty_payload_outputs, attribute_outcome}
use dr_exec.Execution.Retention.{PayloadRetention, for_budget, overflowed}
use dr_exec.Execution.Engine.Outcome.{
  StopReason, Protocol, stopped_by_wall_time, stopped_by_cancel, outcome_of,
}
use dr_exec.Execution.Engine.Waiting.{Glance, await_child, ReturnedIn, await_child-deadline}
use dr_exec.Execution.Engine.Processes.{Processes, alive}
use dr_exec.Execution.Engine.Records.{
  RunStore, Report, coded_failure, complete_run, finalized_receipt, completed, measurements_of,
  result_with, trying, after_failures,
}
use dr_exec.Execution.Engine.Attempt.{World, AttemptResult, reached_payload}
use dr_exec.Execution.Engine.Receipts.{Tells, Escapes, finalized_receipt-Tells}
use dr_exec.Execution.Engine.Completing.{built}
use dr_exec.Execution.Engine.Attempted.{outcome_of_lem}
use dr_exec.Execution.Engine.Directory.{
  directory_store, directory_store-RunStoreLaws, Loads, load-complete_run,
}

abbrev disk_store : RunStore ℕ ℕ Disk
disk_store = directory_store disk_backend disk_codec "store" job_uuid

-- The clock advances by one in a round, and nothing else happens.
abbrev quiet : ℕ → Glance
quiet n = record {
  exited = false;
  transport_failed = false;
  overflow = false;
  cancelled = false;
  now_ns = n;
}

await_child-deadline_example :
    (result : Option StopReason) × (last : ℕ) × (await_child (some 3) true quiet 4 0 ≡ some result)
    × ReturnedIn (some 3) true quiet result 0 last
    × last ≤ 3
await_child-deadline_example = await_child-deadline 3 true quiet 3 (omega arith)

-- A child that ends by itself in a group with a process that does not.
abbrev stubborn : Processes
stubborn = record { child = alive true; others = alive false ∷ [] }

abbrev unlimited : PayloadRetention
unlimited = for_budget OutputBudget.unbudgeted

abbrev wall_stop : Option StopReason
wall_stop = some (record { axis = some wall_time; cancelled = false })

abbrev no_protocol : Option (Protocol ℕ)
no_protocol = none

outcome_of_lem_example :
    ((outcome_of (pos 0) unlimited wall_stop no_protocol ≡ budget_exceeded payload_output)
      ↔ (overflowed unlimited ≡ true))
    × ((outcome_of (pos 0) unlimited wall_stop no_protocol ≡ budget_exceeded wall_time)
        ↔ ((overflowed unlimited ≡ false) × (stopped_by_wall_time wall_stop ≡ true)))
    × ((outcome_of (pos 0) unlimited wall_stop no_protocol ≡ cancelled true) ↔ (
        (overflowed unlimited ≡ false)
        × (stopped_by_wall_time wall_stop ≡ false)
        × (stopped_by_cancel wall_stop ≡ true)))
outcome_of_lem_example = outcome_of_lem (pos 0) unlimited wall_stop no_protocol

abbrev quiet_world : World ℕ
quiet_world = record {
  opened = ok tt;
  launched = ok tt;
  status_line = ok [];
  transports_started = ok tt;
  pid = 7;
  stop = ok none;
  reaped = true;
  survives = false;
  teardown_ns = 1;
  joined = ok tt;
  returncode = pos 0;
  retention = unlimited;
  protocol = none;
  started_at = 1;
  started_ns = 10;
  now = 2;
  now_ns = 15;
}

abbrev no_json : List ℕ → Option (Json ℕ)
no_json line = none

abbrev reached : AttemptResult ℕ ℕ
reached = reached_payload none none (coded_failure "mark_running" recording_operation_failed ∷ [])

abbrev first_report : Report ℕ
first_report = record {
  outcome = exited (pos 0);
  protocol_outputs = 4 ∷ [];
  payload_outputs = empty_payload_outputs;
  started_at = 1;
  started_ns = 10;
  teardown_duration_ns = 1;
  input_bytes = 0;
  protocol_bytes_received = 0;
  now = 2;
  now_ns = 15;
}

finalized_receipt-Tells_example :
    Ends
      (finalized_receipt disk_store first_run first_result [] prepared_disk)
      (λ receipt t.
        (t ≡ after (disk_store.finalize first_run first_result prepared_disk))
        × Tells first_run [] (disk_store.finalize first_run first_result prepared_disk) receipt)
      (λ e t. Escapes (disk_store.finalize first_run first_result prepared_disk) e t)
finalized_receipt-Tells_example =
    finalized_receipt-Tells disk_store
      (directory_store-RunStoreLaws disk_backend disk_codec disk-BackendLaws disk-SidecarLaws
        disk-CodecLaws "store" job_uuid)
      first_run first_result [] prepared_disk

-- The end of the attempt.
abbrev finished : Ran Disk (CompletedExecution ℕ RecordingFailure)
finished = complete_run disk_store first_run first_report [] prepared_disk

abbrev first_completion : CompletedExecution ℕ RecordingFailure
first_completion = record {
  result = built first_run.execution_id first_report;
  record_receipt = complete first_run.execution_id first_run.reference;
}

finished_first : finished ≡ returned first_completion (after finished)
unfolding complete_run completed measurements_of result_with finalized_receipt trying after_failures
    finished_must_not_precede_started protocol_output_count_must_match_outcome
    execution_ids_must_match receipt_id empty_payload_outputs attribute_outcome prepare
    publish_prepared allocate recording_step load_record reraise read_directory record_dir
    record_reference_for_job record_of unsupported_version header_schema_version object_version
    integer_of is_current validated finalize publish_finalized publish_finalized_in resolve
    write_sidecar not_yet_finalized constructing execution_result_record retained_stream_record
    validate_stream_record validate_result_record validate_finalized same_id artifact_record
    record_header record_declaration
finished_first = refl

load-complete_run_example :
    Loads disk_backend disk_codec disk-BackendLaws disk-SidecarLaws disk-CodecLaws "store" job_uuid
      first_run first_completion
      (after finished)
load-complete_run_example =
    load-complete_run disk_backend disk_codec disk-BackendLaws disk-SidecarLaws disk-CodecLaws
      "store" job_uuid first_run first_report [] prepared_disk first_completion (after finished)
      (omega arith) (omega arith) tt finished_first refl
