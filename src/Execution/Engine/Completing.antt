-- ===== src/Execution/Engine/Completing.antt =====
-- When `_complete` of src/dr_exec/execution/engine.py builds a completion.
use text.Mathlib.TextPositions.{eq_refl}
use dr_exec.Prelude.{◌-◌, ◌≤◌, List, length, ◌≡◌, refl, sym, subst, arith}
use dr_exec.Prelude.Results.{ok}
use dr_exec.Recording.Outcomes.{protocol_failed}
use dr_exec.Recording.Results.{
  ExecutionId, same_id, ExecutionResult, RecordReceipt, receipt_id,
  finished_must_not_precede_started, protocol_output_count_must_match_outcome,
  execution_ids_must_match,
}
use dr_exec.Recording.Runs.{RecordedRun, RecordingFailure}
use dr_exec.Recording.Store.Backend.{after}
use dr_exec.Recording.Store.Writing.{constructing}
use dr_exec.Recording.Store.Calls.{Ends, Ends-then}
use dr_exec.Execution.Outcomes.{attribute_outcome}
use dr_exec.Execution.Engine.Records.{
  RunStore, Report, finalized_receipt, completed, measurements_of, result_with, complete_run,
}
use dr_exec.Execution.Engine.Receipts.{RunStoreLaws, Tells, Escapes, finalized_receipt-Tells}

-- A protocol failure's outcome counts the outputs.
abbrev pub Counted : {D : Type 0} → Report D → Type 0
Counted r = elim r.outcome [
  | protocol_failed failure ↦ failure.accepted_output_count ≡ length r.protocol_outputs
  | _ ↦ Unit
]

-- The result of a report.
abbrev pub built : {D : Type 0} → ExecutionId → Report D → ExecutionResult D
built id r = record {
  execution_id = id;
  outcome = r.outcome;
  attribution = attribute_outcome r.outcome;
  protocol_outputs = r.protocol_outputs;
  payload_outputs = r.payload_outputs;
  measurements = record {
    started_at = r.started_at;
    finished_at = r.now;
    duration_ns = r.now_ns - r.started_ns;
    teardown_duration_ns = r.teardown_duration_ns;
    input_bytes = r.input_bytes;
    protocol_bytes_received = r.protocol_bytes_received;
  };
}

result_with-built :
    {D : Type 0} (id : ExecutionId) (r : Report D)
    → r.started_ns ≤ r.now_ns
    → r.started_at ≤ r.now
    → Counted r
    → result_with id r (measurements_of r) ≡ ok (built id r)
unfolding result_with measurements_of finished_must_not_precede_started
    protocol_output_count_must_match_outcome
result_with-built id r ns at counted = ground arith

ids-match :
    {D : Type 0} (result : ExecutionResult D) (receipt : RecordReceipt RecordingFailure)
    → receipt_id receipt ≡ result.execution_id
    → execution_ids_must_match (record { result = result; record_receipt = receipt })
      ≡ ok (record { result = result; record_receipt = receipt })
unfolding execution_ids_must_match same_id
ids-match result receipt e =
    let job = eq_refl result.execution_id.job_id in
    let attempt = eq_refl result.execution_id.attempt_id in
    rw (execution_ids_must_match, e, same_id, job, attempt)

module _ {D R S : Type 0} (store : RunStore D R S) (laws : RunStoreLaws store) where
  -- Once the clocks have not gone back and the outcome counts the outputs, a completion is built for the run,
  -- with the report's outcome and duration and a receipt that tells every failure; or the store's call to
  -- finalize raised what escapes, and that is no ExecutorFailure.
  pub complete_run-Tells :
      (run : RecordedRun D R) (r : Report D) (prior : List RecordingFailure) (s : S)
      → r.started_ns ≤ r.now_ns
      → r.started_at ≤ r.now
      → Counted r
      → Ends
          (complete_run store run r prior s)
          (λ c t.
            (t ≡ after (store.finalize run (built run.execution_id r) s))
            × (c.result ≡ built run.execution_id r)
            × Tells run prior (store.finalize run (built run.execution_id r) s) c.record_receipt)
          (λ e t. Escapes (store.finalize run (built run.execution_id r) s) e t)
  unfolding complete_run completed constructing
  complete_run-Tells run r prior s ns at counted =
      let result = built run.execution_id r in
      subst
        (λ m.
          Ends (completed store run prior m s)
            (λ c t.
              (t ≡ after (store.finalize run result s))
              × (c.result ≡ result)
              × Tells run prior (store.finalize run result s) c.record_receipt)
            (λ e t. Escapes (store.finalize run result s) e t))
        (sym (result_with-built run.execution_id r ns at counted))
        (Ends-then _ _ (finalized_receipt store run result prior s) _
          (finalized_receipt-Tells store laws run result prior s)
          (λ receipt t done tells.
            subst
              (λ m.
                Ends (constructing m t)
                  (λ c t.
                    (t ≡ after (store.finalize run result s))
                    × (c.result ≡ result)
                    × Tells run prior (store.finalize run result s) c.record_receipt)
                  (λ e t. Escapes (store.finalize run result s) e t))
              (sym (ids-match result receipt tells.1.0)) (tells.0, refl, tells.1))
          (λ e t x h. h))
