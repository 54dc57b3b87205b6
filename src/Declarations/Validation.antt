-- ===== src/Declarations/Validation.antt =====
-- src/dr_exec/declarations/validation.py, on a system with POSIX paths. The texts of its errors are left
-- out.
use dr_exec.Prelude.{
  ℕ, Bool, true, false, not, Option, none, some, List, [], ◌∷◌, ltb, is_empty, length,
  if◌then◌else◌,
}
use dr_exec.Prelude.Results.{Result, ok, err, ◌>>◌, raise_if}
use dr_exec.Prelude.Texts.{Text, same_text, has_char, split_on, is_absolute}
use dr_exec.Core.Kinds.{WorkingDirectoryGrantKind}
use dr_exec.Declarations.Budgets.{OutputBudget, limit}
use dr_exec.Declarations.Grants.{EnvVar, WorkingDirectoryGrant, is_none_kind}
use dr_exec.Declarations.Targets.{
  ExecutionTarget, ExecutionJob, trusted_command, untrusted_command, trusted_python,
  untrusted_python, in_process_importable_json,
}

-- A `DeclarationError`, by its cause, and the `IndexError` of `argv[0]`.
pub data DeclarationError : Type 0 where
  input_over_budget path_with_separator no_path_granted relative_path_entry : DeclarationError
  workspace_without_path workspace_not_absolute workspace_no_directory : DeclarationError
  workspace_not_scratch environment_granted finite_payload_output no_executable : DeclarationError

-- `request_transport_bytes` calls dr_serialize.
module _ {D : Type 0} (request_transport_bytes : D → List ℕ) where
  unfoldable pub declared_input_bytes : ExecutionTarget D → List ℕ
  declared_input_bytes (trusted_command argv stdin) = stdin
  declared_input_bytes (untrusted_command argv stdin profile) = stdin
  declared_input_bytes (trusted_python source request) = request_transport_bytes request
  declared_input_bytes (untrusted_python source request profile) = request_transport_bytes request
  declared_input_bytes (in_process_importable_json entry_point request) =
      request_transport_bytes request

-- `granted_environment(...).get(name)`: of a name that comes twice the last value counts.
unfoldable pub granted : Text → List EnvVar → Option Text
granted name [] = none
granted name (v ∷ vs) =
    let later = granted name vs in
    elim later [
      | some value ↦ some value
      | none ↦ if same_text name v.name then some v.value else none
    ]

unfoldable pub over_input_budget : Option ℕ → ℕ → Bool
over_input_budget none n = false
over_input_budget (some max_bytes) n = ltb max_bytes n

unfoldable pub validate_input_budget :
    {D : Type 0} → ExecutionJob D → List ℕ → Result DeclarationError (Unit {0})
unfolding over_input_budget
validate_input_budget job stdin_bytes =
    raise_if (over_input_budget (limit job.budgets.input_bytes) (length stdin_bytes))
      input_over_budget

unfoldable pub all_absolute : List Text → Result DeclarationError (Unit {0})
all_absolute [] = ok tt
all_absolute (entry ∷ entries) = do
  raise_if (not (is_absolute entry)) relative_path_entry
  all_absolute entries

abbrev pub path_name : Text
path_name = b'P' ∷ b'A' ∷ b'T' ∷ b'H' ∷ []

unfoldable pub resolve_in : Option Text → Result DeclarationError (Unit {0})
resolve_in none = err no_path_granted
resolve_in (some granted_path) = all_absolute (split_on b':' granted_path)

unfoldable pub validate_command_resolvability :
    List Text → List EnvVar → Result DeclarationError (Unit {0})
unfolding resolve_in
validate_command_resolvability [] environment = err no_executable
validate_command_resolvability (name ∷ arguments) environment =
    if is_absolute name
    then ok tt
    else if has_char b'/' name
    then err path_with_separator
    else resolve_in (granted path_name environment)

unfoldable pub absolute_caller_workspace_declaration_error : Text → Option DeclarationError
absolute_caller_workspace_declaration_error path =
    if is_empty path
    then some workspace_not_absolute
    else if not (is_absolute path)
    then some workspace_not_absolute
    else none

raise_any : Option DeclarationError → Result DeclarationError (Unit {0})
raise_any none = ok tt
raise_any (some e) = err e

unfoldable pub validate_caller_path : Option Text → Result DeclarationError (Unit {0})
unfolding raise_any
validate_caller_path none = err workspace_without_path
validate_caller_path (some path) = raise_any (absolute_caller_workspace_declaration_error path)

unfoldable pub validate_working_directory_grant :
    WorkingDirectoryGrant → Result DeclarationError (Unit {0})
validate_working_directory_grant grant = elim grant.kind [
  | WorkingDirectoryGrantKind.scratch ↦ ok tt
  | WorkingDirectoryGrantKind.caller ↦ validate_caller_path grant.path
]

-- `resolve` and `is_dir` ask the file system.
module _ (resolve : Text → Text) (is_dir : Text → Bool) where
  unfoldable pub resolve_caller_path : Option Text → Result DeclarationError WorkingDirectoryGrant
  resolve_caller_path none = err workspace_without_path
  resolve_caller_path (some path) =
      if not (is_dir (resolve path))
      then err workspace_no_directory
      else ok (record { kind = WorkingDirectoryGrantKind.caller; path = some (resolve path) })

  unfoldable pub resolve_working_directory_grant :
      WorkingDirectoryGrant → Result DeclarationError WorkingDirectoryGrant
  resolve_working_directory_grant grant = do
    validate_working_directory_grant grant
    elim grant.kind [
      | WorkingDirectoryGrantKind.scratch ↦ ok grant
      | WorkingDirectoryGrantKind.caller ↦ resolve_caller_path grant.path
    ]

unfoldable pub is_scratch : WorkingDirectoryGrantKind → Bool
is_scratch WorkingDirectoryGrantKind.scratch = true
is_scratch WorkingDirectoryGrantKind.caller = false

unfoldable pub is_finite_output : OutputBudget → Bool
is_finite_output OutputBudget.unbudgeted = false
is_finite_output (OutputBudget.finite output) = true

unfoldable pub validate_in_process :
    {D : Type 0} → ExecutionJob D → Result DeclarationError (Unit {0})
unfolding is_scratch is_finite_output
validate_in_process job = do
  raise_if (not (is_scratch job.workspace.kind)) workspace_not_scratch
  raise_if (not (is_none_kind job.env.kind)) environment_granted
  raise_if (is_finite_output job.budgets.payload_output) finite_payload_output

unfoldable pub validate_target : {D : Type 0} → ExecutionJob D → Result DeclarationError (Unit {0})
validate_target job = elim job.target [
  | in_process_importable_json entry_point request ↦ validate_in_process job
  | trusted_command argv stdin ↦ validate_command_resolvability argv job.env.variables
  | untrusted_command argv stdin profile ↦ validate_command_resolvability argv job.env.variables
  | trusted_python source request ↦ ok tt
  | untrusted_python source request profile ↦ ok tt
]

unfoldable pub validate_declaration :
    {D : Type 0} → (D → List ℕ) → ExecutionJob D → Result DeclarationError (Unit {0})
validate_declaration request_transport_bytes job = do
  validate_input_budget job (declared_input_bytes request_transport_bytes job.target)
  validate_working_directory_grant job.workspace
  validate_target job
