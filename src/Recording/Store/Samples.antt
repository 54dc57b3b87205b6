-- ===== src/Recording/Store/Samples.antt =====
-- A run, its result and a disk for the tests (src/dr_exec/recording/store.py).
use Prim.Native.String.{String}
use dr_exec.Prelude.{ℕ, false, none, [], ◌∷◌}
use dr_exec.Core.Kinds.{FailureOwner, EnvGrantKind, WorkingDirectoryGrantKind}
use dr_exec.Declarations.Budgets.{Limit, OutputBudget}
use dr_exec.Recording.Streams.{RetainedPayloadStream}
use dr_exec.Recording.Outcomes.{cancelled}
use dr_exec.Recording.Results.{ExecutionResult}
use dr_exec.Recording.Runs.{trusted_command, PreparedRecord, RecordedRun}
use dr_exec.Recording.Store.Backend.{after}
use dr_exec.Recording.Store.Writing.{prepare, finalize}
use dr_exec.Recording.Store.Preparing.{prepared_run}
use dr_exec.Recording.Store.Disk.{Disk, disk_backend, disk_codec}

abbrev pub job_uuid : String → String → String
job_uuid namespace name = "0189"

abbrev pub first_record : PreparedRecord ℕ ℕ
first_record = record {
  header = record { executor_identity = 1; executor_config_identity = 2; prepared_at = 5 };
  declaration = record {
    execution_id = record { job_id = "job"; attempt_id = "one" };
    target = trusted_command "ab12";
    env = record {
      kind = EnvGrantKind.none;
      var_names = [];
      excluded_var_names = [];
      canonical_values_sha256 = "cd34";
    };
    budgets = record {
      wall_time = Limit.unbudgeted;
      input_bytes = Limit.unbudgeted;
      payload_output = OutputBudget.unbudgeted;
      memory_bytes = Limit.unbudgeted;
      cpu_time = Limit.unbudgeted;
      process_count = Limit.unbudgeted;
      file_size_bytes = Limit.unbudgeted;
      open_file_count = Limit.unbudgeted;
      disk_bytes = Limit.unbudgeted;
    };
    workspace = record { kind = WorkingDirectoryGrantKind.scratch; path = none };
  };
}

abbrev pub empty_disk : Disk
empty_disk = record { folders = []; sidecars = [] }

-- The disk once the record is prepared.
abbrev pub prepared_disk : Disk
prepared_disk = after (prepare disk_backend disk_codec "store" job_uuid first_record empty_disk)

abbrev pub first_run : RecordedRun ℕ ℕ
first_run = prepared_run disk_backend disk_codec "store" job_uuid first_record

abbrev pub three_of_five : RetainedPayloadStream
three_of_five = record { head = 1 ∷ 2 ∷ []; tail = 5 ∷ []; produced_bytes = 5; dropped_bytes = 2 }

abbrev pub first_result : ExecutionResult ℕ
first_result = record {
  execution_id = record { job_id = "job"; attempt_id = "one" };
  outcome = cancelled false;
  attribution = record { owner = FailureOwner.none; detail = none };
  protocol_outputs = 4 ∷ [];
  payload_outputs = record { stdout = three_of_five; stderr = three_of_five };
  measurements = record {
    started_at = 1;
    finished_at = 2;
    duration_ns = 1;
    teardown_duration_ns = 0;
    input_bytes = 0;
    protocol_bytes_received = 0;
  };
}

abbrev pub finalized_disk : Disk
finalized_disk =
    after (finalize disk_backend disk_codec "store" first_run first_result prepared_disk)
