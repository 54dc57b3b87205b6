-- ===== src/Declarations/Targets.antt =====
-- The targets and the jobs of src/dr_exec/declarations/models.py (lines 376 to 487). Identity documents,
-- of dr_serialize, are a type D. The rule that a module name is made of identifiers is left out.
use dr_exec.Prelude.{ℕ, Bool, false, ◌||◌, List, [], ◌∷◌, is_empty, if◌then◌else◌}
use dr_exec.Prelude.Results.{Result, ok, err}
use dr_exec.Prelude.Texts.{Text, has_char}
use dr_exec.Core.Kinds.{ContainmentProfile}
use dr_exec.Declarations.Budgets.{Budgets}
use dr_exec.Declarations.Grants.{EnvGrant, WorkingDirectoryGrant}

pub data TargetError : Type 0 where
  argv_empty bad_argument driver_source_with_nul : TargetError

pub record ImportableEntryPoint : Type 0 where
  pub module_name : Text
  pub attribute_name : Text

pub data ExecutionTarget (D : Type 0) : Type 0 where
  -- argv and stdin
  trusted_command : List Text → List ℕ → ExecutionTarget D
  untrusted_command : List Text → List ℕ → ContainmentProfile → ExecutionTarget D
  -- driver_source and request
  trusted_python : Text → D → ExecutionTarget D
  untrusted_python : Text → D → ContainmentProfile → ExecutionTarget D
  in_process_importable_json : ImportableEntryPoint → D → ExecutionTarget D

any_bad_argument : List Text → Bool
any_bad_argument [] = false
any_bad_argument (a ∷ as') = (is_empty a || has_char 0 a) || any_bad_argument as'

unfoldable pub validate_argv : List Text → Result TargetError (List Text)
unfolding any_bad_argument
validate_argv argv =
    if is_empty argv
    then err argv_empty
    else if any_bad_argument argv
    then err bad_argument
    else ok argv

unfoldable pub validate_driver_source : Text → Result TargetError Text
validate_driver_source source = if has_char 0 source then err driver_source_with_nul else ok source

pub record ExecutionJob (D : Type 0) : Type 0 where
  pub job_id : Text
  pub target : ExecutionTarget D
  pub env : EnvGrant
  pub budgets : Budgets
  pub workspace : WorkingDirectoryGrant
