-- ===== src/Execution/Engine/Outcome.antt =====
-- How src/dr_exec/execution/engine.py classifies an attempt, and `parse_setup_status` of
-- src/dr_exec/execution/spawn.py. `json_loads` is Python's, of bytes; floats are a type N.
use Prim.Native.String.{String}
use text.Mathlib.Text.{◌==◌ as str_eq}
use dr_exec.Prelude.{
  ℕ, suc, Bool, true, false, ◌&&◌, Option, none, some, List, ◌==◌, length, is_empty, if◌then◌else◌,
}
use dr_exec.Prelude.Integers.{ℤ, pos, negsuc}
use dr_exec.Prelude.Json.{Json, str, boolean, integer, object, get}
use dr_exec.Core.Kinds.{BudgetAxis, payload_output, wall_time, ProtocolFailureCode}
use dr_exec.Recording.Outcomes.{
  ExecutionOutcome, exited, signaled, spawn_absent, spawn_failed, budget_exceeded, protocol_failed,
  cancelled,
}
use dr_exec.Execution.Retention.{PayloadRetention, overflowed}
use dr_exec.Runtime.Protocol.Stream.{ProtocolStreamResult}

pub record SetupFailure : Type 0 where
  pub stage : String
  pub errno : Option ℤ

abbrev pub setup_stage_session : String
setup_stage_session = "session"

abbrev pub setup_stage_exec : String
setup_stage_exec = "exec"

-- `stage if isinstance(stage, str) else SETUP_STAGE_EXEC`.
unfoldable pub stage_of : {N : Type 0} → Option (Json N) → String
stage_of (some (str stage)) = stage
stage_of _ = setup_stage_exec

-- `reported if isinstance(reported, int) else None`; a bool is an int.
unfoldable pub errno_of : {N : Type 0} → Option (Json N) → Option ℤ
errno_of (some (integer n)) = some n
errno_of (some (boolean true)) = some (pos 1)
errno_of (some (boolean false)) = some (pos 0)
errno_of _ = none

unfoldable pub failure_of : {N : Type 0} → Option (Json N) → SetupFailure
failure_of (some (object payload)) = record {
  stage = stage_of (get "stage" payload);
  errno = errno_of (get "errno" payload);
}
failure_of _ = record { stage = setup_stage_exec; errno = none }

unfoldable pub parse_setup_status :
    {N : Type 0} → (List ℕ → Option (Json N)) → List ℕ → Option SetupFailure
parse_setup_status json_loads line =
    if is_empty line then none else some (failure_of (json_loads line))

unfoldable pub is_enoent : Option ℤ → Bool
is_enoent (some (pos n)) = n == 2
is_enoent _ = false

unfoldable pub errno_or_zero : Option ℤ → ℤ
errno_or_zero (some n) = n
errno_or_zero none = pos 0

unfoldable pub spawn_outcome : SetupFailure → String → ExecutionOutcome
spawn_outcome failure executable =
    if str_eq failure.stage setup_stage_exec && is_enoent failure.errno
    then spawn_absent executable
    else spawn_failed (errno_or_zero failure.errno) failure.stage

unfoldable pub exit_outcome : ℤ → ExecutionOutcome
exit_outcome (pos code) = exited (pos code)
exit_outcome (negsuc n) = signaled (suc n)

pub record StopReason : Type 0 where
  pub axis : Option BudgetAxis
  pub cancelled : Bool

unfoldable pub is_wall_time : Option BudgetAxis → Bool
is_wall_time (some wall_time) = true
is_wall_time _ = false

-- `stop is not None and stop.axis is BudgetAxis.WALL_TIME`.
unfoldable pub stopped_by_wall_time : Option StopReason → Bool
stopped_by_wall_time none = false
stopped_by_wall_time (some stop) = is_wall_time stop.axis

unfoldable pub stopped_by_cancel : Option StopReason → Bool
stopped_by_cancel none = false
stopped_by_cancel (some stop) = stop.cancelled

-- What the protocol's reader found, with the text of its failure.
pub record Protocol (D : Type 0) : Type 0 where
  pub stream : ProtocolStreamResult D
  pub detail : String

unfoldable pub protocol_failure : {D : Type 0} → Option (Protocol D) → Option ProtocolFailureCode
protocol_failure none = none
protocol_failure (some p) = p.stream.failure

unfoldable pub protocol_detail : {D : Type 0} → Option (Protocol D) → String
protocol_detail none = ""
protocol_detail (some p) = p.detail

unfoldable pub protocol_outputs : {D : Type 0} → Option (Protocol D) → List D
protocol_outputs none = List.[]
protocol_outputs (some p) = p.stream.outputs

unfoldable pub protocol_bytes : {D : Type 0} → Option (Protocol D) → ℕ
protocol_bytes none = 0
protocol_bytes (some p) = p.stream.bytes_received

-- `_outcome_of`.
unfoldable pub outcome_of :
    {D : Type 0} → ℤ → PayloadRetention → Option StopReason → Option (Protocol D) → ExecutionOutcome
outcome_of returncode retention stop protocol =
    if overflowed retention
    then budget_exceeded payload_output
    else if stopped_by_wall_time stop
    then budget_exceeded wall_time
    else if stopped_by_cancel stop
    then cancelled true
    else elim (protocol_failure protocol) [
      | some code ↦ protocol_failed (record {
        failure_code = code;
        failure_detail = protocol_detail protocol;
        accepted_output_count = length (protocol_outputs protocol);
      })
      | none ↦ exit_outcome returncode
    ]
