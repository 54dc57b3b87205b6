-- ===== src/Declarations/Admission.antt =====
-- Which jobs `validate_declaration` of src/dr_exec/declarations/validation.py lets through.
use dr_exec.Prelude.{
  ℕ, ◌≤◌, ◌≡◌, ◌↔◌, ◌⊎◌, refl, true, false, Option, none, some, List, [], ◌∷◌, arith, All, length,
}
use dr_exec.Prelude.Results.{Returns, then-Returns, ◌>>◌}
use dr_exec.Prelude.Texts.{Text, has_char, split_on, is_absolute}
use dr_exec.Core.Kinds.{EnvGrantKind, WorkingDirectoryGrantKind}
use dr_exec.Declarations.Budgets.{OutputBudget, limit}
use dr_exec.Declarations.Grants.{EnvVar, WorkingDirectoryGrant, is_none_kind}
use dr_exec.Declarations.Targets.{
  ExecutionTarget, ExecutionJob, trusted_command, untrusted_command, trusted_python,
  untrusted_python, in_process_importable_json,
}
use dr_exec.Declarations.Validation.{
  declared_input_bytes, granted, over_input_budget, validate_input_budget, all_absolute, path_name,
  resolve_in, validate_command_resolvability, absolute_caller_workspace_declaration_error,
  validate_caller_path, validate_working_directory_grant, is_scratch, is_finite_output,
  validate_in_process, validate_target, validate_declaration,
}

abbrev pub IsWithin : Option ℕ → ℕ → Type 0
IsWithin none n = Unit
IsWithin (some max_bytes) n = n ≤ max_bytes

abbrev pub IsAbsolute : Text → Type 0
IsAbsolute t = is_absolute t ≡ true

-- A PATH that was granted, all of whose entries are absolute.
abbrev pub IsSafePath : Option Text → Type 0
IsSafePath none = ⊥
IsSafePath (some path) = All IsAbsolute (split_on b':' path)

-- An absolute executable, or one without a separator that is looked up in such a PATH.
abbrev pub IsResolvable : List Text → List EnvVar → Type 0
IsResolvable [] environment = ⊥
IsResolvable (name ∷ arguments) environment =
    IsAbsolute name ⊎ ((has_char b'/' name ≡ false) × IsSafePath (granted path_name environment))

abbrev pub IsPlaced : WorkingDirectoryGrantKind → Option Text → Type 0
IsPlaced WorkingDirectoryGrantKind.scratch path = Unit
IsPlaced WorkingDirectoryGrantKind.caller none = ⊥
IsPlaced WorkingDirectoryGrantKind.caller (some path) = IsAbsolute path

abbrev pub IsRunnable : {D : Type 0} → ExecutionTarget D → ExecutionJob D → Type 0
IsRunnable (trusted_command argv stdin) job = IsResolvable argv job.env.variables
IsRunnable (untrusted_command argv stdin profile) job = IsResolvable argv job.env.variables
IsRunnable (trusted_python source request) job = Unit
IsRunnable (untrusted_python source request profile) job = Unit
IsRunnable (in_process_importable_json entry_point request) job =
    (job.workspace.kind ≡ WorkingDirectoryGrantKind.scratch)
    × ((job.env.kind ≡ EnvGrantKind.none) × (job.budgets.payload_output ≡ OutputBudget.unbudgeted))

validate_input_budget-IsWithin :
    {D : Type 0} (job : ExecutionJob D) (bytes : List ℕ)
    → Returns (validate_input_budget job bytes)
      ↔ IsWithin (limit job.budgets.input_bytes) (length bytes)
unfolding validate_input_budget over_input_budget
validate_input_budget-IsWithin job bytes = ground arith

all_absolute-Returns :
    (entries : List Text) → Returns (all_absolute entries) ↔ All IsAbsolute entries
unfolding all_absolute
all_absolute-Returns [] = ground arith
all_absolute-Returns (entry ∷ entries) = let ih = all_absolute-Returns entries in ground arith

resolve_in-IsSafePath : (path : Option Text) → Returns (resolve_in path) ↔ IsSafePath path
unfolding resolve_in
resolve_in-IsSafePath none = ground arith
resolve_in-IsSafePath (some path) = all_absolute-Returns (split_on b':' path)

validate_command_resolvability-IsResolvable :
    (argv : List Text) (environment : List EnvVar)
    → Returns (validate_command_resolvability argv environment) ↔ IsResolvable argv environment
unfolding validate_command_resolvability
validate_command_resolvability-IsResolvable [] environment = ground arith
validate_command_resolvability-IsResolvable (name ∷ arguments) environment =
    let path_ok = resolve_in-IsSafePath (granted path_name environment) in ground arith

validate_working_directory_grant-IsPlaced :
    (grant : WorkingDirectoryGrant)
    → Returns (validate_working_directory_grant grant) ↔ IsPlaced grant.kind grant.path
unfolding validate_working_directory_grant validate_caller_path
    absolute_caller_workspace_declaration_error
validate_working_directory_grant-IsPlaced grant = ground arith

in_process_iff :
    {D : Type 0} (job : ExecutionJob D)
    → Returns (validate_in_process job) ↔ (
        (job.workspace.kind ≡ WorkingDirectoryGrantKind.scratch)
        × ((job.env.kind ≡ EnvGrantKind.none)
            × (job.budgets.payload_output ≡ OutputBudget.unbudgeted)))
unfolding validate_in_process is_scratch is_finite_output is_none_kind
in_process_iff job = ground arith

validate_target-IsRunnable :
    {D : Type 0} (target : ExecutionTarget D) (job : ExecutionJob D)
    → job.target ≡ target
    → Returns (validate_target job) ↔ IsRunnable target job
unfolding validate_target validate_in_process
validate_target-IsRunnable (trusted_command argv stdin) job e =
    rw e (validate_command_resolvability-IsResolvable argv job.env.variables)
validate_target-IsRunnable (untrusted_command argv stdin profile) job e =
    rw e (validate_command_resolvability-IsResolvable argv job.env.variables)
validate_target-IsRunnable (trusted_python source request) job e = rw e (ground arith)
validate_target-IsRunnable (untrusted_python source request profile) job e = rw e (ground arith)
validate_target-IsRunnable (in_process_importable_json entry_point request) job e =
    rw e (in_process_iff job)

-- The validation of a job succeeds exactly when its input fits the input budget, a caller's workspace
-- has an absolute path, and the target can run: a command by an absolute executable, or by a name without
-- a separator under a granted PATH whose entries are all absolute; an in-process job in a scratch
-- workspace, with no environment and no finite output budget; a Python driver always.
pub validate_declaration-Returns :
    {D : Type 0} (request_transport_bytes : D → List ℕ) (job : ExecutionJob D)
    → Returns (validate_declaration request_transport_bytes job) ↔ (
        IsWithin
          (limit job.budgets.input_bytes)
          (length (declared_input_bytes request_transport_bytes job.target))
        × (IsPlaced job.workspace.kind job.workspace.path × IsRunnable job.target job))
unfolding validate_declaration
validate_declaration-Returns request_transport_bytes job =
    let bytes = declared_input_bytes request_transport_bytes job.target in
    let fits = validate_input_budget-IsWithin job bytes in
    let placed = validate_working_directory_grant-IsPlaced job.workspace in
    let runs = validate_target-IsRunnable job.target job refl in
    let first =
      then-Returns (validate_input_budget job bytes)
        (validate_working_directory_grant job.workspace >> validate_target job) in
    let second =
      then-Returns (validate_working_directory_grant job.workspace) (validate_target job) in
    ground arith
