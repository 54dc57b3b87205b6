-- ===== src/Declarations/Budgets.antt =====
-- The limits and budgets of src/dr_exec/declarations/models.py (lines 41 to 213).
use dr_exec.Prelude.{
  ℕ, ◌+◌, Bool, true, false, Option, none, some, List, [], ◌∷◌, ◌==◌, is_empty, if◌then◌else◌,
}
use dr_exec.Prelude.Results.{Result, ok, err}
use dr_exec.Core.Kinds.{
  LimitKind, OutputOverflowPolicy, BudgetAxis, memory_bytes, cpu_time, process_count,
  file_size_bytes, open_file_count, disk_bytes,
}

-- The errors that the validators of this module raise.
pub data BudgetError : Type 0 where
  retention_must_sum_to_max_bytes finite_limits_unsupported : BudgetError

-- A `ByteBudget`, a `DurationBudget` or a `CountBudget`: all three are `UnbudgetedLimit` or one
-- finite positive number.
pub data Limit : Type 0 where
  unbudgeted : Limit
  finite : ℕ → Limit

-- The property `limit` of each of them.
unfoldable pub limit : Limit → Option ℕ
limit unbudgeted = none
limit (finite n) = some n

unfoldable pub kind : Limit → LimitKind
kind unbudgeted = LimitKind.unbudgeted
kind (finite n) = LimitKind.finite

pub record StreamRetentionBudget : Type 0 where
  pub head_bytes : ℕ
  pub tail_bytes : ℕ

pub record PayloadRetentionBudget : Type 0 where
  pub stdout : StreamRetentionBudget
  pub stderr : StreamRetentionBudget

pub record FiniteOutput : Type 0 where
  pub max_bytes : ℕ
  pub overflow_policy : OutputOverflowPolicy
  pub retention : PayloadRetentionBudget

pub data OutputBudget : Type 0 where
  unbudgeted : OutputBudget
  finite : FiniteOutput → OutputBudget

unfoldable pub retained_bytes : PayloadRetentionBudget → ℕ
retained_bytes r =
    r.stdout.head_bytes + r.stdout.tail_bytes + r.stderr.head_bytes + r.stderr.tail_bytes

unfoldable pub retention_must_match_max_bytes : FiniteOutput → Result BudgetError FiniteOutput
unfolding retained_bytes
retention_must_match_max_bytes o =
    if retained_bytes o.retention == o.max_bytes then ok o else err retention_must_sum_to_max_bytes

pub record Budgets : Type 0 where
  pub wall_time : Limit
  pub input_bytes : Limit
  pub payload_output : OutputBudget
  pub memory_bytes : Limit
  pub cpu_time : Limit
  pub process_count : Limit
  pub file_size_bytes : Limit
  pub open_file_count : Limit
  pub disk_bytes : Limit

unfoldable pub is_finite : Limit → Bool
unfolding kind
is_finite l = elim (kind l) [ LimitKind.finite ↦ true | LimitKind.unbudgeted ↦ false ]

unfoldable pub keep_finite : List (BudgetAxis × Limit) → List BudgetAxis
keep_finite [] = []
keep_finite ((axis, l) ∷ ls) = if is_finite l then axis ∷ keep_finite ls else keep_finite ls

-- The finite ones of the axes that version 1 cannot enforce.
unfoldable pub declared_finite : Budgets → List BudgetAxis
declared_finite b = keep_finite (
    (memory_bytes, b.memory_bytes)
    ∷ (cpu_time, b.cpu_time)
    ∷ (process_count, b.process_count)
    ∷ (file_size_bytes, b.file_size_bytes)
    ∷ (open_file_count, b.open_file_count)
    ∷ (disk_bytes, b.disk_bytes)
    ∷ [])

unfoldable pub unsupported_axes_must_be_unbudgeted : Budgets → Result BudgetError Budgets
unsupported_axes_must_be_unbudgeted b =
    if is_empty (declared_finite b) then ok b else err finite_limits_unsupported

pub record ExecutorSelfBudgets : Type 0 where
  pub protocol_frame_bytes : Limit
  pub protocol_total_bytes : Limit
  pub protocol_output_count : Limit
  pub json_depth : Limit
  pub startup_time : Limit
  pub termination_time : Limit
  pub join_time : Limit
