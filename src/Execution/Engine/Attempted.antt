-- ===== src/Execution/Engine/Attempted.antt =====
-- What an attempt of src/dr_exec/execution/engine.py reports, whatever it observed.
use Prim.Native.String.{String}
use dr_exec.Prelude.{true, false, Option, ◌≡◌, ◌↔◌, arith}
use dr_exec.Prelude.Integers.{ℤ}
use dr_exec.Prelude.Json.{Json}
use dr_exec.Core.Kinds.{payload_output, wall_time}
use dr_exec.Recording.Outcomes.{budget_exceeded, cancelled}
use dr_exec.Execution.Retention.{PayloadRetention, overflowed}
use dr_exec.Execution.Engine.Outcome.{
  StopReason, Protocol, stopped_by_wall_time, stopped_by_cancel, outcome_of, exit_outcome,
}

-- An overflow comes before the wall time, that before a cancellation, and that before how the child ended.
pub outcome_of_lem :
    {D : Type 0} (returncode : ℤ) (retention : PayloadRetention) (stop : Option StopReason)
    (protocol : Option (Protocol D))
    → ((outcome_of returncode retention stop protocol ≡ budget_exceeded payload_output)
        ↔ (overflowed retention ≡ true))
      × ((outcome_of returncode retention stop protocol ≡ budget_exceeded wall_time)
          ↔ ((overflowed retention ≡ false) × (stopped_by_wall_time stop ≡ true)))
      × ((outcome_of returncode retention stop protocol ≡ cancelled true) ↔ (
          (overflowed retention ≡ false)
          × (stopped_by_wall_time stop ≡ false)
          × (stopped_by_cancel stop ≡ true)))
unfolding outcome_of exit_outcome
outcome_of_lem returncode retention stop protocol = ground arith
