-- ===== src/Recording/Outcomes.antt =====
-- The outcomes of src/dr_exec/recording/models.py (lines 269 to 323).
use Prim.Native.String.{String}
use dr_exec.Prelude.{ℕ, Bool, Option}
use dr_exec.Prelude.Integers.{ℤ}
use dr_exec.Core.Kinds.{BudgetAxis, ProtocolFailureCode, FailureOwner, OutcomeKind}

pub record ProtocolFailedOutcome : Type 0 where
  pub failure_code : ProtocolFailureCode
  pub failure_detail : String
  pub accepted_output_count : ℕ

pub data ExecutionOutcome : Type 0 where
  -- with its exit code
  exited : ℤ → ExecutionOutcome
  -- with the number of the signal
  signaled : ℕ → ExecutionOutcome
  -- with the name of the executable
  spawn_absent : String → ExecutionOutcome
  -- with the errno and its message
  spawn_failed : ℤ → String → ExecutionOutcome
  budget_exceeded : BudgetAxis → ExecutionOutcome
  protocol_failed : ProtocolFailedOutcome → ExecutionOutcome
  -- whether the job had started
  cancelled : Bool → ExecutionOutcome

-- The literal `kind` of each class.
unfoldable pub outcome_kind : ExecutionOutcome → OutcomeKind
outcome_kind (exited code) = OutcomeKind.exited
outcome_kind (signaled number) = OutcomeKind.signaled
outcome_kind (spawn_absent executable) = OutcomeKind.spawn_absent
outcome_kind (spawn_failed errno message) = OutcomeKind.spawn_failed
outcome_kind (budget_exceeded axis) = OutcomeKind.budget_exceeded
outcome_kind (protocol_failed failure) = OutcomeKind.protocol_failed
outcome_kind (cancelled started) = OutcomeKind.cancelled

pub record ExecutionAttribution : Type 0 where
  pub owner : FailureOwner
  pub detail : Option String
