-- ===== src/Execution/Engine/Records.antt =====
-- How src/dr_exec/execution/engine.py records an attempt, over the RunStore of
-- src/dr_exec/capabilities/protocols.py.
use Prim.Native.String.{String}
use dr_exec.Prelude.{ℕ, ◌-◌, ltb, Option, none, some, List, [], ◌∷◌, ◌++◌, if◌then◌else◌}
use dr_exec.Prelude.Results.{Result, ok, err}
use dr_exec.Core.Kinds.{RecordState, ExecutorFailureCode}
use dr_exec.Recording.Streams.{PayloadOutputs}
use dr_exec.Recording.Outcomes.{ExecutionOutcome}
use dr_exec.Recording.Results.{
  ExecutionId, ExecutionMeasurements, ExecutionResult, RecordReceipt, complete, degraded,
  CompletedExecution, RecordError, negative_duration, finished_must_not_precede_started,
  protocol_output_count_must_match_outcome, execution_ids_must_match,
}
use dr_exec.Recording.Runs.{PreparedRecord, ProcessRecord, RecordedRun, RecordingFailure}
use dr_exec.Recording.Store.Errors.{Exception, ErrorClass, executor_failure, class_of}
use dr_exec.Recording.Store.Backend.{Ran, returned, raised, Action, ◌>>=◌, give}
use dr_exec.Recording.Store.Writing.{constructing}
use dr_exec.Execution.Outcomes.{attribute_outcome, empty_payload_outputs}

-- What the engine calls of a run store, over the store's state.
pub record RunStore (D R S : Type 0) : Type 0 where
  pub prepare : PreparedRecord D R → Action S (RecordedRun D R)
  pub mark_running : RecordedRun D R → ProcessRecord → Action S (RecordedRun D R)
  pub finalize : RecordedRun D R → ExecutionResult D → Action S (RecordReceipt RecordingFailure)

-- The code of an ExecutorFailure.
unfoldable pub failure_code_of : ErrorClass → Option ExecutorFailureCode
failure_code_of (executor_failure code) = some code
failure_code_of _ = none

-- `except ExecutorFailure as error`, by the code that the exception has.
unfoldable pub on_failure :
    {S A : Type 0}
    → Option ExecutorFailureCode
    → Exception
    → S
    → (ExecutorFailureCode → Action S A)
    → Ran S A
on_failure (some code) e s handle = handle code s
on_failure none e s handle = raised e s

-- `try: a = m  except ExecutorFailure as error: return handle error.code`, and `k a` after it.
unfoldable pub trying :
    {S A B : Type 0} → Ran S A → (A → Action S B) → (ExecutorFailureCode → Action S B) → Ran S B
trying (returned a s) k handle = k a s
trying (raised e s) k handle = on_failure (failure_code_of (class_of e)) e s handle

abbrev pub coded_failure : String → ExecutorFailureCode → RecordingFailure
coded_failure operation code = record {
  operation = operation;
  errno = none;
  detail = none;
  failure_code = some code;
}

-- `_degraded_from_failure`.
unfoldable pub degraded_from_failure :
    {D R : Type 0}
    → RecordedRun D R
    → String
    → List RecordingFailure
    → ExecutorFailureCode
    → RecordReceipt RecordingFailure
degraded_from_failure run operation prior_failures code =
    degraded run.execution_id run.reference run.durable_state
      (prior_failures ++ coded_failure operation code ∷ [])

-- The receipt of the store after failures of the engine's; a run store makes no receipt of another kind.
unfoldable pub after_failures :
    List RecordingFailure → RecordReceipt RecordingFailure → RecordReceipt RecordingFailure
after_failures [] receipt = receipt
after_failures (f ∷ fs) (complete id reference) =
    degraded id reference RecordState.finalized ((f ∷ fs) ++ [])
after_failures (f ∷ fs) (degraded id reference latest_state failures) =
    degraded id reference latest_state ((f ∷ fs) ++ failures)
after_failures (f ∷ fs) receipt = receipt

module _ {D R S : Type 0} (store : RunStore D R S) where
  -- `_finalized_receipt`.
  unfoldable pub finalized_receipt :
      RecordedRun D R
      → ExecutionResult D
      → List RecordingFailure
      → Action S (RecordReceipt RecordingFailure)
  finalized_receipt run result prior_failures s =
      trying (store.finalize run result s) (λ receipt. give (after_failures prior_failures receipt))
        (λ code. give (degraded_from_failure run "finalize" prior_failures code))

  -- `_mark_running`: the running run, or the failure to record it.
  unfoldable pub mark_running :
      RecordedRun D R → ProcessRecord → Action S (Option (RecordedRun D R) × List RecordingFailure)
  mark_running run process s =
      trying (store.mark_running run process s) (λ running. give (some running, []))
        (λ code. give (none, coded_failure "mark_running" code ∷ []))

  -- The results that pydantic lets be built.
  unfoldable pub completed :
      RecordedRun D R
      → List RecordingFailure
      → Result RecordError (ExecutionResult D)
      → Action S (CompletedExecution D RecordingFailure)
  completed run prior_failures made = do
    result ← constructing made
    receipt ← finalized_receipt run result prior_failures
    constructing (execution_ids_must_match (record { result = result; record_receipt = receipt }))

  -- `_finalize_pre_spawn`; `moment` is what the clock says.
  unfoldable pub finalize_pre_spawn :
      ℕ → RecordedRun D R → ExecutionOutcome → Action S (CompletedExecution D RecordingFailure)
  finalize_pre_spawn moment run outcome = completed run [] (
      protocol_output_count_must_match_outcome (record {
        execution_id = run.execution_id;
        outcome = outcome;
        attribution = attribute_outcome outcome;
        protocol_outputs = [];
        payload_outputs = empty_payload_outputs;
        measurements = record {
          started_at = moment;
          finished_at = moment;
          duration_ns = 0;
          teardown_duration_ns = 0;
          input_bytes = 0;
          protocol_bytes_received = 0;
        };
      }))

-- What `_complete` is given to report, and what the two clocks say when it does.
pub record Report (D : Type 0) : Type 0 where
  pub outcome : ExecutionOutcome
  pub protocol_outputs : List D
  pub payload_outputs : PayloadOutputs
  pub started_at : ℕ
  pub started_ns : ℕ
  pub teardown_duration_ns : ℕ
  pub input_bytes : ℕ
  pub protocol_bytes_received : ℕ
  pub now : ℕ
  pub now_ns : ℕ

-- The measurements of a report. A duration below 0 is no `NonNegativeInt`.
unfoldable pub measurements_of : {D : Type 0} → Report D → Result RecordError ExecutionMeasurements
measurements_of r =
    if ltb r.now_ns r.started_ns
    then err negative_duration
    else finished_must_not_precede_started (record {
      started_at = r.started_at;
      finished_at = r.now;
      duration_ns = r.now_ns - r.started_ns;
      teardown_duration_ns = r.teardown_duration_ns;
      input_bytes = r.input_bytes;
      protocol_bytes_received = r.protocol_bytes_received;
    })

unfoldable pub result_with :
    {D : Type 0}
    → ExecutionId
    → Report D
    → Result RecordError ExecutionMeasurements
    → Result RecordError (ExecutionResult D)
result_with id r (err e) = err e
result_with id r (ok measurements) = protocol_output_count_must_match_outcome (record {
  execution_id = id;
  outcome = r.outcome;
  attribution = attribute_outcome r.outcome;
  protocol_outputs = r.protocol_outputs;
  payload_outputs = r.payload_outputs;
  measurements = measurements;
})

-- `_complete`.
unfoldable pub complete_run :
    {D R S : Type 0}
    → RunStore D R S
    → RecordedRun D R
    → Report D
    → List RecordingFailure
    → Action S (CompletedExecution D RecordingFailure)
complete_run store run r recording_failures =
    completed store run recording_failures (result_with run.execution_id r (measurements_of r))
