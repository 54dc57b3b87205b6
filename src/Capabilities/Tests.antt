-- ===== src/Capabilities/Tests.antt =====
-- The fake executor of src/dr_exec/capabilities/fake.py on a small script.
use dr_exec.Prelude.{ℕ, ◌≡◌, arith, refl, false, none, List, [], ◌∷◌}
use dr_exec.Prelude.Results.{ok, err}
use dr_exec.Core.Kinds.{EnvGrantKind, WorkingDirectoryGrantKind, FailureOwner}
use dr_exec.Declarations.Budgets.{Budgets, Limit, OutputBudget, limit}
use dr_exec.Declarations.Targets.{ExecutionJob, trusted_python}
use dr_exec.Declarations.Validation.{
  declared_input_bytes, over_input_budget, validate_input_budget, validate_working_directory_grant,
  validate_target, validate_declaration,
}
use dr_exec.Recording.Outcomes.{cancelled}
use dr_exec.Recording.Results.{CompletedExecution, not_applicable}
use dr_exec.Execution.Outcomes.{empty_payload_outputs}
use dr_exec.Capabilities.Fake.{
  is_fake_receipt, FakeExecutor, fake_no_response, fake_receipted, record_call, next_response,
  record_call_taking_response, respond, run_blocking,
}
use dr_exec.Capabilities.Scripted.{IsValid, run_each, run_each-take}

abbrev unlimited : Budgets
unlimited = record {
  wall_time = Limit.unbudgeted;
  input_bytes = Limit.unbudgeted;
  payload_output = OutputBudget.unbudgeted;
  memory_bytes = Limit.unbudgeted;
  cpu_time = Limit.unbudgeted;
  process_count = Limit.unbudgeted;
  file_size_bytes = Limit.unbudgeted;
  open_file_count = Limit.unbudgeted;
  disk_bytes = Limit.unbudgeted;
}

abbrev driver_job : ExecutionJob ℕ
driver_job = record {
  job_id = b'j' ∷ [];
  target = trusted_python [] 5;
  env = record { kind = EnvGrantKind.none; variables = []; excluded_var_names = [] };
  budgets = unlimited;
  workspace = record { kind = WorkingDirectoryGrantKind.scratch; path = none };
}

abbrev encoded : ℕ → List ℕ
encoded n = n ∷ []

abbrev answer : ℕ → CompletedExecution ℕ ℕ
answer n = record {
  result = record {
    execution_id = record { job_id = "job"; attempt_id = "one" };
    outcome = cancelled false;
    attribution = record { owner = FailureOwner.none; detail = none };
    protocol_outputs = n ∷ [];
    payload_outputs = empty_payload_outputs;
    measurements = record {
      started_at = 0;
      finished_at = 0;
      duration_ns = 0;
      teardown_duration_ns = 0;
      input_bytes = 0;
      protocol_bytes_received = 0;
    };
  };
  record_receipt = not_applicable (record { job_id = "job"; attempt_id = "one" });
}

abbrev script : List (CompletedExecution ℕ ℕ) → FakeExecutor ℕ ℕ ℕ
script responses = record { responses = responses; responder = none; calls = [] }

driver_job-IsValid : IsValid encoded driver_job
unfolding validate_declaration validate_input_budget limit declared_input_bytes over_input_budget
    validate_working_directory_grant validate_target
driver_job-IsValid = refl

run_each-take_example :
    run_each encoded (driver_job ∷ driver_job ∷ []) (script (answer 1 ∷ answer 2 ∷ answer 3 ∷ []))
    ≡ (
      ok (answer 1) ∷ ok (answer 2) ∷ [],
      record { responses = answer 3 ∷ []; responder = none; calls = driver_job ∷ driver_job ∷ [] },
    )
unfolding is_fake_receipt
run_each-take_example =
    run_each-take encoded (driver_job ∷ driver_job ∷ []) (answer 1 ∷ answer 2 ∷ answer 3 ∷ []) []
      (driver_job-IsValid, (driver_job-IsValid, tt)) (refl, (refl, (refl, tt))) (omega arith)

-- A script that is used up.
script_used_up : (run_each encoded (driver_job ∷ []) (script [])).0 ≡ err fake_no_response ∷ []
unfolding run_each run_blocking respond record_call_taking_response next_response record_call
    fake_receipted validate_declaration validate_input_budget limit declared_input_bytes
    over_input_budget validate_working_directory_grant validate_target
script_used_up = refl
