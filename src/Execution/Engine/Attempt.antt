-- ===== src/Execution/Engine/Attempt.antt =====
-- `_run_spawned`, `_carry_attempt` and `_observe_attempt` of src/dr_exec/execution/engine.py. What the operating
-- system shows of an attempt is a parameter; what the engine does to the child is a trace.
use Prim.Native.String.{String}
use text.Mathlib.Text.{◌==◌ as str_eq}
use dr_exec.Prelude.{ℕ, Bool, true, false, not, Option, none, some, List, [], ◌∷◌, length}
use dr_exec.Prelude.Integers.{ℤ}
use dr_exec.Prelude.Results.{Result, ok, err}
use dr_exec.Prelude.Json.{Json}
use dr_exec.Core.Kinds.{bootstrap_start_failed}
use dr_exec.Recording.Outcomes.{cancelled}
use dr_exec.Recording.Results.{CompletedExecution}
use dr_exec.Recording.Runs.{PreparedRecord, RecordedRun, RecordingFailure}
use dr_exec.Recording.Store.Errors.{Exception, because, executor_failure, is_os_error}
use dr_exec.Recording.Store.Backend.{
  Ran, returned, raised, Action, bound, ◌>>=◌, ◌>>◌, give, raise, looking,
}
use dr_exec.Execution.Retention.{PayloadRetention, snapshot_payload}
use dr_exec.Execution.Outcomes.{empty_payload_outputs}
use dr_exec.Execution.Engine.Outcome.{
  SetupFailure, setup_stage_session, parse_setup_status, spawn_outcome, StopReason, Protocol,
  protocol_outputs, protocol_bytes, outcome_of,
}
use dr_exec.Execution.Engine.Teardown.{Signal, tear_down}
use dr_exec.Execution.Engine.Records.{
  RunStore, mark_running, finalize_pre_spawn, Report, complete_run,
}

-- What the operating system shows: calls that return or raise, and what is read of the child at the end.
pub record World (D : Type 0) : Type 0 where
  -- the working directory and the pipes of the attempt, which are made before its child is launched
  pub opened : Result Exception (Unit {0})
  pub launched : Result Exception (Unit {0})
  pub status_line : Result Exception (List ℕ)
  pub transports_started : Result Exception (Unit {0})
  pub pid : ℕ
  pub stop : Result Exception (Option StopReason)
  pub reaped : Bool
  pub survives : Bool
  pub teardown_ns : ℕ
  pub joined : Result Exception (Unit {0})
  pub returncode : ℤ
  pub retention : PayloadRetention
  pub protocol : Option (Protocol D)
  pub started_at : ℕ
  pub started_ns : ℕ
  pub now : ℕ
  pub now_ns : ℕ

pub data Step : Type 0 where
  launch join close : Step
  teardown : List Signal → Step

-- The run store's state, and the steps so far, the last one first.
pub record Engine (S : Type 0) : Type 0 where
  pub store : S
  pub trace : List Step

unfoldable pub stored : {S A : Type 0} → Ran S A → List Step → Ran (Engine S) A
stored (returned a t) trace = returned a (record { store = t; trace = trace })
stored (raised e t) trace = raised e (record { store = t; trace = trace })

unfoldable pub on_store : {S A : Type 0} → Action S A → Action (Engine S) A
on_store m e = stored (m e.store) e.trace

unfoldable pub take_step : {S : Type 0} → Step → Action (Engine S) (Unit {0})
take_step x e = returned tt (record e { trace = x ∷ e.trace })

-- `try: m  finally: f`.
unfoldable pub finally_do : {S A : Type 0} → Ran S A → Action S (Unit {0}) → Ran S A
finally_do (returned a t) f = bound (f t) (λ u. give a)
finally_do (raised e t) f = bound (f t) (λ u. raise e)

pub data AttemptResult (D R : Type 0) : Type 0 where
  -- with whether the child leads its group
  setup_failed : SetupFailure → Bool → AttemptResult D R
  reached_payload :
      Option StopReason → Option (RecordedRun D R) → List RecordingFailure → AttemptResult D R

unfoldable pub leads_group : {D R : Type 0} → AttemptResult D R → Bool
leads_group (setup_failed failure leads) = leads
leads_group (reached_payload stop running failures) = true

unfoldable pub or_else : {A : Type 0} → Option A → A → A
or_else (some a) b = a
or_else none b = b

module _ {N D R S : Type 0} (json_loads : List ℕ → Option (Json N)) (store : RunStore D R S)
    (world : World D) (executable : String) (stdin_bytes : List ℕ) where
  -- What `_observe_attempt` does with the status of the setup.
  unfoldable pub observe_setup :
      RecordedRun D R → Option SetupFailure → Action (Engine S) (AttemptResult D R)
  observe_setup prepared (some failure) =
      give (setup_failed failure (not (str_eq failure.stage setup_stage_session)))
  observe_setup prepared none = do
    looking (λ e. world.transports_started)
    marked ←
        on_store
          (mark_running store prepared (record { pid = world.pid; started_at = world.started_at }))
    stop ← looking (λ e. world.stop)
    give (reached_payload stop marked.0 marked.1)

  -- `_observe_attempt`.
  unfoldable pub observe_attempt : RecordedRun D R → Action (Engine S) (AttemptResult D R)
  observe_attempt prepared = do
    line ← looking (λ e. world.status_line)
    observe_setup prepared (parse_setup_status json_loads line)

  -- The report of an attempt.
  unfoldable pub report_of : AttemptResult D R → Report D
  report_of (setup_failed failure leads) = record {
    outcome = spawn_outcome failure executable;
    protocol_outputs = [];
    payload_outputs = empty_payload_outputs;
    started_at = world.started_at;
    started_ns = world.started_ns;
    teardown_duration_ns = world.teardown_ns;
    input_bytes = 0;
    protocol_bytes_received = 0;
    now = world.now;
    now_ns = world.now_ns;
  }
  report_of (reached_payload stop running failures) = record {
    outcome = outcome_of world.returncode world.retention stop world.protocol;
    protocol_outputs = protocol_outputs world.protocol;
    payload_outputs = snapshot_payload world.retention;
    started_at = world.started_at;
    started_ns = world.started_ns;
    teardown_duration_ns = world.teardown_ns;
    input_bytes = length stdin_bytes;
    protocol_bytes_received = protocol_bytes world.protocol;
    now = world.now;
    now_ns = world.now_ns;
  }

  unfoldable pub failures_of : AttemptResult D R → List RecordingFailure
  failures_of (setup_failed failure leads) = []
  failures_of (reached_payload stop running failures) = failures

  unfoldable pub run_of : RecordedRun D R → AttemptResult D R → RecordedRun D R
  run_of prepared (setup_failed failure leads) = prepared
  run_of prepared (reached_payload stop running failures) = or_else running prepared

  -- The child is torn down whichever way the observation ended.
  unfoldable pub torn_down :
      RecordedRun D R
      → Ran (Engine S) (AttemptResult D R)
      → Ran (Engine S) (CompletedExecution D RecordingFailure)
  torn_down prepared (returned observed t) =
      (take_step (teardown (tear_down (leads_group observed) world.reaped world.survives))
          >> take_step join
          >> looking (λ e. world.joined)
          >> on_store (
              complete_run store (run_of prepared observed) (report_of observed)
                (failures_of observed)))
        t
  torn_down prepared (raised e t) =
      (take_step (teardown (tear_down true world.reaped world.survives)) >> raise e) t

  -- `_carry_attempt`.
  unfoldable pub carry_attempt :
      RecordedRun D R → Action (Engine S) (CompletedExecution D RecordingFailure)
  carry_attempt prepared e = torn_down prepared (observe_attempt prepared e)

  -- What a launch that raised does; an OSError becomes an ExecutorFailure.
  unfoldable pub launch_refused :
      Bool → Exception → Action (Engine S) (CompletedExecution D RecordingFailure)
  launch_refused true x =
      take_step close >> raise (because (executor_failure bootstrap_start_failed) none x)
  launch_refused false x = raise x

  unfoldable pub after_launch :
      RecordedRun D R
      → Result Exception (Unit {0})
      → Action (Engine S) (CompletedExecution D RecordingFailure)
  after_launch prepared (ok u) e =
      finally_do ((take_step launch >> carry_attempt prepared) e) (take_step close)
  after_launch prepared (err x) e = launch_refused (is_os_error x) x e

  -- `_run_spawned`.
  unfoldable pub run_spawned :
      RecordedRun D R → Action (Engine S) (CompletedExecution D RecordingFailure)
  run_spawned prepared = after_launch prepared world.launched

  -- The end of `run`, once the record is prepared.
  unfoldable pub run_begun :
      Bool → RecordedRun D R → Action (Engine S) (CompletedExecution D RecordingFailure)
  run_begun true prepared = on_store (finalize_pre_spawn store world.now prepared (cancelled false))
  run_begun false prepared = looking (λ e. world.opened) >> run_spawned prepared

  -- The end of `run`, from the record on; `cancel` is whether the token is cancelled by then.
  unfoldable pub run_prepared :
      Bool → PreparedRecord D R → Action (Engine S) (CompletedExecution D RecordingFailure)
  run_prepared cancel r = do prepared ← on_store (store.prepare r); run_begun cancel prepared
