-- ===== src/Recording/Store/Guarantees.antt =====
-- What the run store of src/dr_exec/recording/store.py guarantees to the executor.
use Prim.Native.String.{String}
use dr_exec.Prelude.{none, ◌≡◌, refl, sym, ◌∙◌, ap, subst}
use dr_exec.Prelude.Results.{ok}
use dr_exec.Core.Kinds.{recording_operation_failed}
use dr_exec.Recording.Results.{ExecutionId, RunRecordReference, ExecutionResult, complete}
use dr_exec.Recording.Runs.{
  RunRecord, prepared, finalized, PreparedRecord, FinalizedRecord, RecordedRun, record_header,
  record_declaration,
}
use dr_exec.Recording.Store.Errors.{Exception, because, executor_failure}
use dr_exec.Recording.Store.Backend.{Ran, returned, raised, Backend, Codec}
use dr_exec.Recording.Store.Reading.{record_dir, load_record, load, verify_loaded}
use dr_exec.Recording.Store.Writing.{finalized_record, prepare, finalize}
use dr_exec.Recording.Store.Calls.{Ends}
use dr_exec.Recording.Store.Laws.{BackendLaws, SidecarLaws, CodecLaws}
use dr_exec.Recording.Store.Reads.{load_record-read, record_of-dump, resolve-found}
use dr_exec.Recording.Store.Published.{is_finalized}
use dr_exec.Recording.Store.Preparing.{prepared_run, prepared_dir, prepare-Ends, prepare-over}
use dr_exec.Recording.Store.Finalizing.{
  finalize-Ends, load-published, execution_result_record-fields,
}
use dr_exec.Recording.Store.Lifecycle.{History, start, next}
use dr_exec.Recording.Store.Loading.{
  IsLater, same-IsLater, IsLater-then, IsLoaded-load, load-loaded,
}
use dr_exec.Recording.Store.Keeping.{perform-Goes}

-- A call that returned ended in this way.
pub ended :
    {S A : Type 0} (Q : A → S → Type 0) (E : Exception → S → Type 0) (r : Ran S A) (a : A) (t : S)
    → Ends r Q E
    → r ≡ returned a t
    → Q a t
ended Q E r a t h e = subst (λ r. Ends r Q E) e h

module _ {N D R W S : Type 0} (backend : Backend N W S) (codec : Codec N D R)
    (laws : BackendLaws backend) (sidecars : SidecarLaws backend) (codec_laws : CodecLaws codec)
    (root_dir : String) (uuid5 : String → String → String) where
  -- A run that was prepared loads as the record it was prepared with, and names its execution.
  pub load-prepare :
      (r : PreparedRecord D R) (s : S) (run : RecordedRun D R) (t : S)
      → prepare backend codec root_dir uuid5 r s ≡ returned run t
      → (load backend codec root_dir run.reference t ≡ ok (prepared r))
        × (run ≡ prepared_run backend codec root_dir uuid5 r)
  unfolding load verify_loaded
  load-prepare r s run t done =
      let h = ended _ _ _ run t (prepare-Ends backend codec laws root_dir uuid5 r s) done in
      let dir = prepared_dir backend codec root_dir uuid5 r in
      let loaded : load_record backend codec dir t ≡ ok (prepared r) =
        load_record-read backend codec dir t _ h.1 h.3
        ∙ record_of-dump backend codec codec_laws (prepared r) tt in
      (
        subst (λ x. load backend codec root_dir x.reference t ≡ ok (prepared r)) (sym h.0)
            (rw (load, resolve-found backend codec root_dir _ t h.2, loaded)),
        h.0,
      )

  -- A complete receipt means that the result loads, in the run's record, with its sidecars verified.
  pub load-finalize :
      (run : RecordedRun D R) (result : ExecutionResult D) (s : S) (id : ExecutionId)
      (reference : RunRecordReference) (t : S)
      → finalize backend codec root_dir run result s ≡ returned (complete id reference) t
      → (old : RunRecord D R) × (r : FinalizedRecord D R) × (load_record backend codec
            (record_dir backend codec root_dir run.reference)
            s
          ≡ ok old)
        × (load backend codec root_dir run.reference t ≡ ok (finalized r))
        × (r.header ≡ record_header old)
        × (r.declaration ≡ record_declaration old)
        × (r.result.execution_id ≡ result.execution_id)
        × (r.result.outcome ≡ result.outcome)
        × (r.result.attribution ≡ result.attribution)
        × (r.result.protocol_outputs ≡ result.protocol_outputs)
        × (r.result.measurements ≡ result.measurements)
  load-finalize run result s id reference t done =
      let h = ended _ _ _ _ t (finalize-Ends backend codec laws root_dir run result s) done in
      let p = h.2 in
      let fields =
        execution_result_record-fields result p.stdout_summary p.stderr_summary p.result_record
          p.recorded in
      (
        p.old,
        finalized_record backend codec p.old p.result_record p.stdout_summary p.stderr_summary,
        p.loaded,
        load-published backend codec sidecars codec_laws root_dir run.reference result s t p,
        refl,
        refl,
        fields.0,
        fields.1,
        fields.2,
        fields.3,
        fields.4,
      )

  -- A record that loads is never prepared again: the call fails and leaves the disk as it is.
  pub prepare-loadable :
      (r : PreparedRecord D R) (s : S) (old : RunRecord D R)
      → load_record backend codec (prepared_dir backend codec root_dir uuid5 r) s ≡ ok old
      → (e : Exception) × (prepare backend codec root_dir uuid5 r s
          ≡ raised (because (executor_failure recording_operation_failed) none e) s)
  prepare-loadable r s old loaded = prepare-over backend codec laws root_dir uuid5 r s old loaded

  -- In any history of calls in order, whether they return or raise, a run that loads goes on to load, with its
  -- sidecars verified once it is finalized: as a record with the same header and declaration, as far on or
  -- further.
  pub loads_for_good :
      {s t : S}
      → History backend codec root_dir uuid5 s t
      → (reference : RunRecordReference) (old : RunRecord D R)
      → load backend codec root_dir reference s ≡ ok old
      → (new : RunRecord D R) × (load backend codec root_dir reference t ≡ ok new) × IsLater old new
  loads_for_good (start s) reference old h = (old, h, same-IsLater old)
  loads_for_good (next earlier c ready) reference old h =
      let (mid, loads, later) = loads_for_good earlier reference old h in
      let (new, loaded, further) =
        perform-Goes backend codec laws sidecars codec_laws root_dir uuid5 c _ ready reference mid
          (IsLoaded-load backend codec root_dir reference _ mid loads) in
      (
        new,
        load-loaded backend codec root_dir reference _ new loaded,
        IsLater-then old mid new later further,
      )

  -- In any history of calls in order, whether they return or raise, a finalized run goes on to load as it is,
  -- with its sidecars verified.
  pub finalized_for_good :
      {s t : S}
      → History backend codec root_dir uuid5 s t
      → (reference : RunRecordReference) (f : FinalizedRecord D R)
      → load backend codec root_dir reference s ≡ ok (finalized f)
      → load backend codec root_dir reference t ≡ ok (finalized f)
  unfolding is_finalized
  finalized_for_good history reference f h =
      let (new, loads, later) = loads_for_good history reference (finalized f) h in
      loads ∙ ap ok (later.final refl)
