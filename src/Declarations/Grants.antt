-- ===== src/Declarations/Grants.antt =====
-- The grants of src/dr_exec/declarations/models.py (lines 216 to 335). The texts of its errors are left out.
use dr_exec.Prelude.{
  Bool, true, false, not, ◌&&◌, ◌||◌, Option, none, some, List, [], ◌∷◌, map, is_empty,
}
use dr_exec.Prelude.Results.{Result, ok, err, ◌>>◌, raise_if}
use dr_exec.Prelude.Texts.{Text, has_char, all_different, any_common}
use dr_exec.Core.Kinds.{EnvGrantKind, WorkingDirectoryGrantKind}

pub data GrantError : Type 0 where
  bad_name bad_value none_with_variables only_overlay_excludes : GrantError
  names_not_unique excluded_not_unique granted_and_excluded : GrantError
  scratch_with_path caller_without_path : GrantError

pub record EnvVar : Type 0 where
  pub name : Text
  pub value : Text

unfoldable pub validate_env_var_name : Text → Result GrantError (Unit {0})
validate_env_var_name name =
    raise_if (is_empty name || (has_char b'=' name || has_char 0 name)) bad_name

unfoldable pub validate_env_var_value : Text → Result GrantError (Unit {0})
validate_env_var_value value = raise_if (has_char 0 value) bad_value

-- `EnvVar.__post_init__`.
unfoldable pub env_var : Text → Text → Result GrantError EnvVar
env_var name value = do
  validate_env_var_name name
  validate_env_var_value value
  ok (record { name = name; value = value })

pub record EnvGrant : Type 0 where
  pub kind : EnvGrantKind
  pub variables : List EnvVar
  pub excluded_var_names : List Text

unfoldable pub is_none_kind : EnvGrantKind → Bool
is_none_kind EnvGrantKind.none = true
is_none_kind _ = false

unfoldable pub is_overlay : EnvGrantKind → Bool
is_overlay EnvGrantKind.overlay = true
is_overlay _ = false

unfoldable pub validate_names : List Text → Result GrantError (Unit {0})
validate_names [] = ok tt
validate_names (name ∷ names) = do validate_env_var_name name; validate_names names

abbrev pub var_names : EnvGrant → List Text
var_names g = map (λ v. v.name) g.variables

-- `EnvGrant.__post_init__`.
unfoldable pub validate_env_grant : EnvGrant → Result GrantError EnvGrant
validate_env_grant g = do
  raise_if (is_none_kind g.kind && not (is_empty (var_names g))) none_with_variables
  raise_if (not (is_overlay g.kind) && not (is_empty g.excluded_var_names)) only_overlay_excludes
  raise_if (not (all_different (var_names g))) names_not_unique
  validate_names g.excluded_var_names
  raise_if (not (all_different g.excluded_var_names)) excluded_not_unique
  raise_if (any_common (var_names g) g.excluded_var_names) granted_and_excluded
  ok g

pub record WorkingDirectoryGrant : Type 0 where
  pub kind : WorkingDirectoryGrantKind
  pub path : Option Text

-- `WorkingDirectoryGrant.__post_init__`.
unfoldable pub working_directory_grant :
    WorkingDirectoryGrantKind → Option Text → Result GrantError WorkingDirectoryGrant
working_directory_grant WorkingDirectoryGrantKind.scratch none =
    ok (record { kind = WorkingDirectoryGrantKind.scratch; path = none })
working_directory_grant WorkingDirectoryGrantKind.scratch (some path) = err scratch_with_path
working_directory_grant WorkingDirectoryGrantKind.caller none = err caller_without_path
working_directory_grant WorkingDirectoryGrantKind.caller (some path) =
    ok (record { kind = WorkingDirectoryGrantKind.caller; path = some path })
