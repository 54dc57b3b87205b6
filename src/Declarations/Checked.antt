-- ===== src/Declarations/Checked.antt =====
-- Which environment grants and budgets the validators of src/dr_exec/declarations/models.py let through.
use dr_exec.Prelude.{◌≡◌, ◌≢◌, ◌↔◌, ◌⊎◌, true, false, List, [], ◌∷◌, arith, All, is_empty}
use dr_exec.Prelude.Results.{Returns}
use dr_exec.Prelude.Texts.{Text, same_text, has_char, has_text, all_different, any_common}
use dr_exec.Core.Kinds.{EnvGrantKind}
use dr_exec.Declarations.Budgets.{
  Limit, Budgets, kind, is_finite, keep_finite, declared_finite,
  unsupported_axes_must_be_unbudgeted,
}
use dr_exec.Declarations.Grants.{
  EnvGrant, var_names, is_none_kind, is_overlay, validate_env_var_name, validate_names,
  validate_env_grant,
}

-- The text is none of the others.
abbrev pub IsNew : Text → List Text → Type 0
IsNew t ts = All (λ u. same_text t u ≡ false) ts

abbrev pub AreDistinct : List Text → Type 0
AreDistinct [] = Unit
AreDistinct (t ∷ ts) = IsNew t ts × AreDistinct ts

-- A name that the system takes: not empty, with neither `=` nor NUL.
abbrev pub IsName : Text → Type 0
IsName t = (is_empty t ≡ false) × ((has_char b'=' t ≡ false) × (has_char 0 t ≡ false))

has_text-IsNew : (t : Text) (ts : List Text) → (has_text t ts ≡ false) ↔ IsNew t ts
has_text-IsNew t [] = ground arith
has_text-IsNew t (u ∷ ts) = let ih = has_text-IsNew t ts in ground arith

all_different-AreDistinct : (ts : List Text) → (all_different ts ≡ true) ↔ AreDistinct ts
all_different-AreDistinct [] = ground arith
all_different-AreDistinct (t ∷ ts) =
    let ih = all_different-AreDistinct ts in let new = has_text-IsNew t ts in ground arith

any_common-IsNew : (a b : List Text) → (any_common a b ≡ false) ↔ All (λ t. IsNew t b) a
any_common-IsNew [] b = ground arith
any_common-IsNew (t ∷ a) b =
    let ih = any_common-IsNew a b in let new = has_text-IsNew t b in ground arith

validate_names-IsName : (ts : List Text) → Returns (validate_names ts) ↔ All IsName ts
unfolding validate_names validate_env_var_name
validate_names-IsName [] = ground arith
validate_names-IsName (t ∷ ts) = let ih = validate_names-IsName ts in ground arith

-- An environment grant is let through exactly when a grant of no environment has no variables, only an
-- overlay excludes names, the names granted are distinct, those excluded are distinct and well formed,
-- and no name is both granted and excluded.
pub validate_env_grant-Returns :
    (g : EnvGrant)
    → Returns (validate_env_grant g) ↔ (
        ((g.kind ≢ EnvGrantKind.none) ⊎ (var_names g ≡ []))
        × (((g.kind ≡ EnvGrantKind.overlay) ⊎ (g.excluded_var_names ≡ []))
            × ((AreDistinct (var_names g) × AreDistinct g.excluded_var_names)
                × (All IsName g.excluded_var_names
                    × All (λ t. IsNew t g.excluded_var_names) (var_names g)))))
unfolding validate_env_grant is_none_kind is_overlay
validate_env_grant-Returns g =
    let names = all_different-AreDistinct (var_names g) in
    let excluded = all_different-AreDistinct g.excluded_var_names in
    let formed = validate_names-IsName g.excluded_var_names in
    let apart = any_common-IsNew (var_names g) g.excluded_var_names in ground arith

-- Budgets are let through exactly when the six axes that version 1 cannot enforce are unbudgeted.
pub unsupported_axes-Returns :
    (b : Budgets)
    → Returns (unsupported_axes_must_be_unbudgeted b) ↔ (
        ((b.memory_bytes ≡ Limit.unbudgeted)
          × ((b.cpu_time ≡ Limit.unbudgeted) × (b.process_count ≡ Limit.unbudgeted)))
        × ((b.file_size_bytes ≡ Limit.unbudgeted)
            × ((b.open_file_count ≡ Limit.unbudgeted) × (b.disk_bytes ≡ Limit.unbudgeted))))
unfolding unsupported_axes_must_be_unbudgeted declared_finite keep_finite is_finite kind
unsupported_axes-Returns b = ground arith
