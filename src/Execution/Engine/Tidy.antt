-- ===== src/Execution/Engine/Tidy.antt =====
-- src/dr_exec/execution/engine.py leaves no child and no descriptor behind.
use Prim.Native.String.{String}
use dr_exec.Prelude.{ℕ, Bool, true, false, Option, List, [], ◌∷◌, ◌≡◌}
use dr_exec.Prelude.Results.{ok, err}
use dr_exec.Prelude.Json.{Json}
use dr_exec.Recording.Runs.{PreparedRecord, RecordedRun}
use dr_exec.Recording.Store.Errors.{Exception, is_os_error}
use dr_exec.Recording.Store.Backend.{Ran, returned, raised}
use dr_exec.Execution.Engine.Teardown.{tear_down}
use dr_exec.Execution.Engine.Records.{RunStore}
use dr_exec.Execution.Engine.Attempt.{
  World, Step, launch, join, close, teardown, Engine, AttemptResult, leads_group, observe_attempt,
}

module _ {N D R S : Type 0} (json_loads : List ℕ → Option (Json N)) (store : RunStore D R S)
    (world : World D) (executable : String) (stdin_bytes : List ℕ) where
  abbrev observes : RecordedRun D R → Engine S → Ran (Engine S) (AttemptResult D R)
  observes prepared e = observe_attempt json_loads store world executable stdin_bytes prepared e

  -- The engine once the child of a prepared run is launched.
  abbrev pub launched_with : S → Engine S
  launched_with t = record { store = t; trace = launch ∷ [] }

  -- The steps of an attempt, the last one first, for every way in which it goes.
  pub data IsTidy (cancel : Bool) (r : PreparedRecord D R) (s : S) : List Step → Type 0 where
    -- without a record, with a token that is cancelled by then, or without its pipes, no child is started
    unprepared : (x : Exception) (t : S) → store.prepare r s ≡ raised x t → IsTidy cancel r s []
    cancelled_first :
        (prepared : RecordedRun D R) (t : S)
        → store.prepare r s ≡ returned prepared t
        → cancel ≡ true
        → IsTidy cancel r s []
    unopened :
        (prepared : RecordedRun D R) (t : S) (x : Exception)
        → store.prepare r s ≡ returned prepared t
        → cancel ≡ false
        → world.opened ≡ err x
        → IsTidy cancel r s []
    -- a launch that raised an OSError closes the transports, another exception escapes
    refused :
        (prepared : RecordedRun D R) (t : S) (x : Exception)
        → store.prepare r s ≡ returned prepared t
        → cancel ≡ false
        → world.launched ≡ err x
        → is_os_error x ≡ false
        → IsTidy cancel r s []
    not_launched :
        (prepared : RecordedRun D R) (t : S) (x : Exception)
        → store.prepare r s ≡ returned prepared t
        → cancel ≡ false
        → world.launched ≡ err x
        → is_os_error x ≡ true
        → IsTidy cancel r s (close ∷ [])
    -- a child that was launched is torn down, as the leader of its group when the observation raised and as
    -- the observation tells otherwise, with the join after that; and the transports are closed at the end
    torn :
        (prepared : RecordedRun D R) (t : S) (x : Exception) (e : Engine S)
        → store.prepare r s ≡ returned prepared t
        → cancel ≡ false
        → world.launched ≡ ok tt
        → observes prepared (launched_with t) ≡ raised x e
        → IsTidy cancel r s
            (close ∷ teardown (tear_down true world.reaped world.survives) ∷ launch ∷ [])
    joined :
        (prepared : RecordedRun D R) (t : S) (observed : AttemptResult D R) (e : Engine S)
        → store.prepare r s ≡ returned prepared t
        → cancel ≡ false
        → world.launched ≡ ok tt
        → observes prepared (launched_with t) ≡ returned observed e
        → IsTidy cancel r s (
            close
            ∷ join
            ∷ teardown (tear_down (leads_group observed) world.reaped world.survives)
            ∷ launch
            ∷ [])
