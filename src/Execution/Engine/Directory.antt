-- ===== src/Execution/Engine/Directory.antt =====
-- src/dr_exec/execution/engine.py with the DirectoryRunStore of src/dr_exec/recording/store.py.
use Prim.Native.String.{String}
use dr_exec.Prelude.{Bool, true, false, ◌&&◌, List, is_empty, ◌≤◌, ◌≡◌, refl, sym, ◌∙◌, subst}
use dr_exec.Prelude.Results.{ok}
use dr_exec.Recording.Results.{
  ExecutionId, RunRecordReference, ExecutionResult, RecordReceipt, complete, degraded,
  not_applicable, in_process, worker_pool, CompletedExecution,
}
use dr_exec.Recording.Runs.{finalized, FinalizedRecord, RecordedRun, RecordingFailure}
use dr_exec.Recording.Store.Backend.{Ran, returned, raised, after, Backend, Codec}
use dr_exec.Recording.Store.Reading.{load, record_dir}
use dr_exec.Recording.Store.Writing.{prepare, mark_running, finalize}
use dr_exec.Recording.Store.Calls.{Ends}
use dr_exec.Recording.Store.Laws.{BackendLaws, SidecarLaws, CodecLaws}
use dr_exec.Recording.Store.Published.{Written}
use dr_exec.Recording.Store.Finalizing.{Reported, finalize-Ends}
use dr_exec.Recording.Store.Guarantees.{ended, load-finalize}
use dr_exec.Execution.Engine.Records.{RunStore, Report, complete_run}
use dr_exec.Execution.Engine.Receipts.{RunStoreLaws, IsOwn, is_complete, finalizes, Tells, Escapes}
use dr_exec.Execution.Engine.Completing.{Counted, built, complete_run-Tells}

module _ {N D R W S : Type 0} (backend : Backend N W S) (codec : Codec N D R) (root_dir : String)
    (uuid5 : String → String → String) where
  -- The directory store as a run store.
  abbrev pub directory_store : RunStore D R S
  directory_store = record {
    prepare = prepare backend codec root_dir uuid5;
    mark_running = mark_running backend codec root_dir;
    finalize = finalize backend codec root_dir;
  }

module _ {N D R W S : Type 0} (backend : Backend N W S) (codec : Codec N D R)
    (laws : BackendLaws backend) (sidecars : SidecarLaws backend) (codec_laws : CodecLaws codec)
    (root_dir : String) (uuid5 : String → String → String) where
  own :
      (run : RecordedRun D R) (result : ExecutionResult D) (s : S)
      (receipt : RecordReceipt RecordingFailure) (t : S)
      → Reported backend codec laws root_dir run result s receipt t
      → IsOwn run receipt
  own run result s (complete id reference) t h = h.0
  own run result s (degraded id reference latest failures) t h = h.0
  own run result s (not_applicable id) t h = absurd h
  own run result s (in_process id) t h = absurd h
  own run result s (worker_pool id) t h = absurd h

  -- The directory store gives receipts for the run that it is asked to finalize.
  pub directory_store-RunStoreLaws : RunStoreLaws (directory_store backend codec root_dir uuid5)
  directory_store-RunStoreLaws = record {
    finalize_own = λ run result s receipt t done. own run result s receipt t (
        subst
          (λ r.
            Ends r (λ receipt t. Reported backend codec laws root_dir run result s receipt t)
              (λ e t.
                Written backend codec (record_dir backend codec root_dir run.reference) result s t))
          done (finalize-Ends backend codec laws root_dir run result s));
  }

  -- A record of the completion's result, that loads with its sidecars verified.
  abbrev pub Loads : RecordedRun D R → CompletedExecution D RecordingFailure → S → Type 0
  Loads run c t =
      (f : FinalizedRecord D R) × (load backend codec root_dir run.reference t ≡ ok (finalized f))
      × (f.result.execution_id ≡ c.result.execution_id)
      × (f.result.outcome ≡ c.result.outcome)
      × (f.result.protocol_outputs ≡ c.result.protocol_outputs)
      × (f.result.measurements ≡ c.result.measurements)

  -- When an attempt completes on the directory store with a complete receipt, the record of its run loads, with
  -- the result that the completion carries.
  pub load-complete_run :
      (run : RecordedRun D R) (r : Report D) (prior : List RecordingFailure) (s : S)
      (c : CompletedExecution D RecordingFailure) (t : S)
      → r.started_ns ≤ r.now_ns
      → r.started_at ≤ r.now
      → Counted r
      → complete_run (directory_store backend codec root_dir uuid5) run r prior s ≡ returned c t
      → is_complete c.record_receipt ≡ true
      → Loads run c t
  load-complete_run run r prior s c t ns at counted done receipt =
      let result = built run.execution_id r in
      let store = directory_store backend codec root_dir uuid5 in
      let (last, same, tells) =
        ended
          (λ c t.
            (t ≡ after (finalize backend codec root_dir run result s))
            × (c.result ≡ result)
            × Tells run prior (finalize backend codec root_dir run result s) c.record_receipt)
          (λ e t. Escapes (finalize backend codec root_dir run result s) e t)
          (complete_run store run r prior s) c t
          (complete_run-Tells store directory_store-RunStoreLaws run r prior s ns at counted)
          done in
      let loaded : Loads run (record { result = result; record_receipt = c.record_receipt }) t =
        by_end (finalize backend codec root_dir run result s) refl last
          (both (is_empty prior) _ (sym tells.1 ∙ receipt)) in
      subst (λ x. Loads run (record { result = x; record_receipt = c.record_receipt }) t) (sym same)
        loaded
    where
      both : (a b : Bool) → a && b ≡ true → b ≡ true
      both true b h = h
      both false b h = absurd cc

      loads :
          (id : ExecutionId) (reference : RunRecordReference) (u : S)
          → finalize backend codec root_dir run (built run.execution_id r) s
            ≡ returned (complete id reference) u
          → t ≡ u
          → Loads run
              (record { result = built run.execution_id r; record_receipt = c.record_receipt })
              t
      loads id reference u e last =
          let (
            old, f, was, now, header, declaration, same_id, outcome, attribution, outputs, measured,
          ) =
            load-finalize backend codec laws sidecars codec_laws root_dir uuid5 run
              (built run.execution_id r) s id reference u e in
          (
            f,
            subst (λ x. load backend codec root_dir run.reference x ≡ ok (finalized f)) (sym last)
                now,
            same_id,
            outcome,
            outputs,
            measured,
          )

      by_end :
          (r' : Ran S (RecordReceipt RecordingFailure))
          → finalize backend codec root_dir run (built run.execution_id r) s ≡ r'
          → t ≡ after r'
          → finalizes r' ≡ true
          → Loads run
              (record { result = built run.execution_id r; record_receipt = c.record_receipt })
              t
      by_end (returned (complete id reference) u) e last h = loads id reference u e last
      by_end (returned (degraded id reference latest failures) u) e last h = absurd cc
      by_end (returned (not_applicable id) u) e last h = absurd cc
      by_end (returned (in_process id) u) e last h = absurd cc
      by_end (returned (worker_pool id) u) e last h = absurd cc
      by_end (raised x u) e last h = absurd cc
