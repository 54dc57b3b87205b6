-- ===== src/Execution/Engine/Teardown.antt =====
-- `_tear_down` of src/dr_exec/execution/engine.py: the signals and the waits, in their order.
use dr_exec.Prelude.{Bool, true, false, List, [], ◌∷◌, ◌++◌}

pub data Signal : Type 0 where
  group_termination group_escalation group_probe : Signal
  child_termination child_escalation : Signal
  -- a wait for the termination budget, and one for as long as it takes
  bounded_wait reap : Signal

-- `reaped` is what `_reaped_within` returns, `survives` what `_group_survives` does.
unfoldable pub escalation : Bool → Bool → List Signal
escalation leads_group true = []
escalation true false = group_escalation ∷ child_escalation ∷ []
escalation false false = child_escalation ∷ []

unfoldable pub after_reaping : Bool → List Signal
after_reaping true = group_escalation ∷ []
after_reaping false = []

unfoldable pub tear_down : Bool → Bool → Bool → List Signal
tear_down false reaped survives =
    child_termination ∷ bounded_wait ∷ escalation false reaped ++ reap ∷ []
tear_down true reaped survives =
    group_termination ∷ child_termination ∷ bounded_wait ∷ escalation true reaped
    ++ reap ∷ group_probe ∷ after_reaping survives
