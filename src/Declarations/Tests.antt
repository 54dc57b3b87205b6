-- ===== src/Declarations/Tests.antt =====
-- The validation of src/dr_exec/declarations/validation.py on small jobs.
use dr_exec.Prelude.{ℕ, ◌≡◌, ◌≢◌, ◌⊎◌, All, ◌↔◌, refl, none, some, List, [], ◌∷◌}
use dr_exec.Prelude.Results.{ok, err, Returns}
use dr_exec.Prelude.Texts.{split_on}
use dr_exec.Core.Kinds.{EnvGrantKind, WorkingDirectoryGrantKind}
use dr_exec.Declarations.Budgets.{
  unsupported_axes_must_be_unbudgeted, Budgets, Limit, OutputBudget, limit,
}
use dr_exec.Declarations.Targets.{ExecutionJob, trusted_command}
use dr_exec.Declarations.Validation.{
  declared_input_bytes, granted, validate_input_budget, all_absolute,
  validate_command_resolvability, validate_working_directory_grant, validate_target,
  validate_declaration, relative_path_entry,
}
use dr_exec.Declarations.Grants.{EnvGrant, var_names, validate_env_grant}
use dr_exec.Declarations.Checked.{
  IsNew, AreDistinct, IsName, validate_env_grant-Returns, unsupported_axes-Returns,
}
use dr_exec.Declarations.Admission.{IsWithin, IsPlaced, IsRunnable, validate_declaration-Returns}

abbrev four_bytes_in : Budgets
four_bytes_in = record {
  wall_time = Limit.unbudgeted;
  input_bytes = Limit.finite 4;
  payload_output = OutputBudget.unbudgeted;
  memory_bytes = Limit.unbudgeted;
  cpu_time = Limit.unbudgeted;
  process_count = Limit.unbudgeted;
  file_size_bytes = Limit.unbudgeted;
  open_file_count = Limit.unbudgeted;
  disk_bytes = Limit.unbudgeted;
}

-- `cat` with three bytes of input, under a PATH.
abbrev cat_under : List ℕ → ExecutionJob ℕ
cat_under path = record {
  job_id = b'j' ∷ [];
  target = trusted_command ((b'c' ∷ b'a' ∷ b't' ∷ []) ∷ []) (1 ∷ 2 ∷ 3 ∷ []);
  env = record {
    kind = EnvGrantKind.fixed;
    variables = record { name = b'P' ∷ b'A' ∷ b'T' ∷ b'H' ∷ []; value = path } ∷ [];
    excluded_var_names = [];
  };
  budgets = four_bytes_in;
  workspace = record { kind = WorkingDirectoryGrantKind.scratch; path = none };
}

abbrev no_requests : ℕ → List ℕ
no_requests n = []

-- `/b:/c` is a PATH of absolute entries, `/b:c` is not.
absolute_path_admitted :
    validate_declaration no_requests (cat_under (b'/' ∷ b'b' ∷ b':' ∷ b'/' ∷ b'c' ∷ [])) ≡ ok tt
unfolding validate_declaration validate_input_budget limit declared_input_bytes
    validate_working_directory_grant validate_target validate_command_resolvability granted
    all_absolute split_on
absolute_path_admitted = refl

relative_path_refused :
    validate_declaration no_requests (cat_under (b'/' ∷ b'b' ∷ b':' ∷ b'c' ∷ []))
    ≡ err relative_path_entry
unfolding validate_declaration validate_input_budget limit declared_input_bytes
    validate_working_directory_grant validate_target validate_command_resolvability granted
    all_absolute split_on
relative_path_refused = refl

validate_declaration-Returns_example :
    Returns (validate_declaration no_requests (cat_under (b'/' ∷ b'b' ∷ []))) ↔ (
      IsWithin (some 4) 3
      × (IsPlaced WorkingDirectoryGrantKind.scratch none
          × IsRunnable (cat_under (b'/' ∷ b'b' ∷ [])).target (cat_under (b'/' ∷ b'b' ∷ []))))
unfolding limit declared_input_bytes
validate_declaration-Returns_example =
    validate_declaration-Returns no_requests (cat_under (b'/' ∷ b'b' ∷ []))

-- The variable A is granted, the name B is excluded.
abbrev small_overlay : EnvGrant
small_overlay = record {
  kind = EnvGrantKind.overlay;
  variables = record { name = b'A' ∷ []; value = [] } ∷ [];
  excluded_var_names = (b'B' ∷ []) ∷ [];
}

validate_env_grant-Returns_example : Returns (validate_env_grant small_overlay) ↔ (
    ((small_overlay.kind ≢ EnvGrantKind.none) ⊎ (var_names small_overlay ≡ []))
    × (((small_overlay.kind ≡ EnvGrantKind.overlay) ⊎ (small_overlay.excluded_var_names ≡ []))
        × ((AreDistinct (var_names small_overlay) × AreDistinct small_overlay.excluded_var_names)
            × (All IsName small_overlay.excluded_var_names
                × All (λ t. IsNew t small_overlay.excluded_var_names) (var_names small_overlay)))))
validate_env_grant-Returns_example = validate_env_grant-Returns small_overlay

unsupported_axes-Returns_example : Returns (unsupported_axes_must_be_unbudgeted four_bytes_in) ↔ (
    ((four_bytes_in.memory_bytes ≡ Limit.unbudgeted)
      × ((four_bytes_in.cpu_time ≡ Limit.unbudgeted)
          × (four_bytes_in.process_count ≡ Limit.unbudgeted)))
    × ((four_bytes_in.file_size_bytes ≡ Limit.unbudgeted)
        × ((four_bytes_in.open_file_count ≡ Limit.unbudgeted)
            × (four_bytes_in.disk_bytes ≡ Limit.unbudgeted))))
unsupported_axes-Returns_example = unsupported_axes-Returns four_bytes_in
