-- ===== src/Recording/GrantRecords.antt =====
-- The grants as a run record keeps them: `EnvGrantRecord` of src/dr_exec/declarations/models.py (lines 324 to
-- 353), `WorkingDirectoryGrantRecord` of src/dr_exec/recording/models.py, their builders in
-- src/dr_exec/recording/identity.py, and the shape of a persisted path in
-- src/dr_exec/declarations/validation.py. Digests are strings.
use Prim.Native.String.{String}
use dr_exec.Prelude.{
  Bool, true, false, not, ◌&&◌, ◌||◌, Option, none, some, List, [], ◌∷◌, ◌++◌, is_empty,
  if◌then◌else◌,
}
use dr_exec.Prelude.Results.{Result, ok, err, ◌>>◌, raise_if}
use dr_exec.Prelude.Texts.{Text, same_text, has_text, any_common, is_absolute}
use dr_exec.Core.Kinds.{EnvGrantKind, WorkingDirectoryGrantKind}
use dr_exec.Declarations.Grants.{
  GrantError, EnvVar, EnvGrant, is_none_kind, is_overlay, validate_names, var_names,
  WorkingDirectoryGrant,
}

pub record EnvGrantRecord : Type 0 where
  pub kind : EnvGrantKind
  pub var_names : List Text
  pub excluded_var_names : List Text
  pub canonical_values_sha256 : String

pub data GrantRecordError : Type 0 where
  none_with_variables only_overlay_excludes : GrantRecordError
  bad_name : GrantError → GrantRecordError
  var_names_not_sorted excluded_not_sorted granted_and_excluded : GrantRecordError

-- `set(texts)`, in the order of the last occurrences.
unfoldable pub distinct : List Text → List Text
distinct [] = []
distinct (t ∷ ts) = let rest = distinct ts in if has_text t ts then rest else t ∷ rest

unfoldable pub same_texts : List Text → List Text → Bool
same_texts [] [] = true
same_texts [] (y ∷ ys) = false
same_texts (x ∷ xs) [] = false
same_texts (x ∷ xs) (y ∷ ys) = same_text x y && same_texts xs ys

unfoldable pub checked_names : Result GrantError (Unit {0}) → Result GrantRecordError (Unit {0})
checked_names (ok u) = ok u
checked_names (err e) = err (bad_name e)

-- `canonical_sorted_values` is dr_serialize's.
module _ (canonical_sorted_values : List Text → List Text) where
  unfoldable pub is_canonical : List Text → Bool
  is_canonical names = same_texts names (canonical_sorted_values (distinct names))

  -- `EnvGrantRecord.names_must_be_canonical_and_disjoint`.
  unfoldable pub validate_env_grant_record : EnvGrantRecord → Result GrantRecordError EnvGrantRecord
  validate_env_grant_record r = do
    raise_if (is_none_kind r.kind && not (is_empty r.var_names)) none_with_variables
    raise_if (not (is_overlay r.kind) && not (is_empty r.excluded_var_names)) only_overlay_excludes
    checked_names (validate_names (r.var_names ++ r.excluded_var_names))
    raise_if (not (is_canonical r.var_names)) var_names_not_sorted
    raise_if (not (is_canonical r.excluded_var_names)) excluded_not_sorted
    raise_if (any_common r.var_names r.excluded_var_names) granted_and_excluded
    ok r

  -- `values_digest` is `_canonical_env_values_digest`, a hash by dr_serialize.
  unfoldable pub build_env_grant_record :
      (List EnvVar → String) → EnvGrant → Result GrantRecordError EnvGrantRecord
  build_env_grant_record values_digest g = validate_env_grant_record (record {
    kind = g.kind;
    var_names = canonical_sorted_values (var_names g);
    excluded_var_names = canonical_sorted_values g.excluded_var_names;
    canonical_values_sha256 = values_digest g.variables;
  })

pub record WorkingDirectoryGrantRecord : Type 0 where
  pub kind : WorkingDirectoryGrantKind
  pub path : Option Text

-- What the code uses of Python's paths: the spelling and the parts of a `PurePosixPath`, and `resolve`.
pub record PosixPaths : Type 0 where
  pub as_posix : Text → Text
  pub parts : Text → List Text
  pub resolve : Text → Text

pub data PathError : Type 0 where
  must_be_absolute must_be_canonical scratch_with_path caller_without_path : PathError

abbrev dot : Text
dot = b'.' ∷ []

abbrev dot_dot : Text
dot_dot = b'.' ∷ b'.' ∷ []

module _ (paths : PosixPaths) where
  -- `persisted_caller_workspace_path_shape_error`.
  unfoldable pub path_shape_error : Text → Option PathError
  path_shape_error path =
      if is_empty path
      then some must_be_absolute
      else if not (is_absolute path)
      then some must_be_absolute
      else if not (same_text path (paths.as_posix path))
      then some must_be_canonical
      else if has_text dot (paths.parts path) || has_text dot_dot (paths.parts path)
      then some must_be_canonical
      else none

  -- What the path of a record must be, by its kind.
  unfoldable pub kind_path_error : WorkingDirectoryGrantKind → Option Text → Option PathError
  kind_path_error WorkingDirectoryGrantKind.scratch none = none
  kind_path_error WorkingDirectoryGrantKind.scratch (some path) = some scratch_with_path
  kind_path_error WorkingDirectoryGrantKind.caller none = some caller_without_path
  kind_path_error WorkingDirectoryGrantKind.caller (some path) = path_shape_error path

  -- `WorkingDirectoryGrantRecord.path_must_match_kind`.
  unfoldable pub path_must_match_kind :
      WorkingDirectoryGrantRecord → Result PathError WorkingDirectoryGrantRecord
  path_must_match_kind r = elim (kind_path_error r.kind r.path) [ none ↦ ok r | some e ↦ err e ]

  -- A caller's grant has a path; without one the code's assertion fails.
  unfoldable pub build_working_directory_grant_record :
      WorkingDirectoryGrant → Result PathError WorkingDirectoryGrantRecord
  build_working_directory_grant_record g = elim g.kind [
    | WorkingDirectoryGrantKind.scratch ↦
        path_must_match_kind (record { kind = g.kind; path = none })
    | WorkingDirectoryGrantKind.caller ↦ elim g.path [
      | none ↦ err caller_without_path
      | some path ↦
          path_must_match_kind
            (record { kind = g.kind; path = some (paths.as_posix (paths.resolve path)) })
    ]
  ]
