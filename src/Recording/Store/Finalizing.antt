-- ===== src/Recording/Store/Finalizing.antt =====
-- What `finalize` of src/dr_exec/recording/store.py reports, and what can be loaded after it.
use Prim.Native.String.{String}
use text.Mathlib.Text.{◌==◌ as str_eq}
use text.Mathlib.TextEquality.{eq_iff}
use dr_exec.Prelude.{true, ◌≡◌, ◌≢◌, refl, ◌∙◌, subst, inr, arith}
use dr_exec.Prelude.Results.{ok}
use dr_exec.Recording.Results.{
  RunRecordReference, ExecutionResult, RecordReceipt, complete, degraded, not_applicable,
  in_process, worker_pool,
}
use dr_exec.Recording.Stored.{
  SidecarSummary, ExecutionResultRecord, RetainedPayloadStreamRecord, execution_result_record,
  retained_stream_record, validate_stream_record, validate_result_record,
}
use dr_exec.Recording.Runs.{
  finalized, RecordedRun, RecordingFailure, record_header, record_declaration,
}
use dr_exec.Recording.Store.Errors.{Exception, is_recording_error}
use dr_exec.Recording.Store.Backend.{after, Backend, Codec}
use dr_exec.Recording.Store.Reading.{
  stdout_sidecar_name, stderr_sidecar_name, reraise, load_record, record_dir, durable_state, load,
  verify_loaded, verify_sidecars, verify_artifact,
}
use dr_exec.Recording.Store.Writing.{artifact_record, finalized_record, publish_finalized, finalize}
use dr_exec.Recording.Store.Calls.{Ends, Ends-weaken, Ends-after, Ends-then, Ends-look, Ends-caught}
use dr_exec.Recording.Store.Laws.{SameSidecars, BackendLaws, SidecarLaws, CodecLaws}
use dr_exec.Recording.Store.Reads.{load_record-read, record_of-dump, resolve-found}
use dr_exec.Recording.Store.Published.{IsPublished, Written}
use dr_exec.Recording.Store.Publishing.{publish_finalized-Ends}

-- A stream's record counts what its summary counted.
abbrev pub Measures : RetainedPayloadStreamRecord → SidecarSummary → Type 0
Measures stream summary =
    (stream.head_bytes ≡ summary.head_length) × (stream.tail_bytes ≡ summary.tail_length)

-- The record of a result has its fields and its summaries' counts.
pub execution_result_record-fields :
    {D : Type 0} (result : ExecutionResult D) (a b : SidecarSummary) (r : ExecutionResultRecord D)
    → execution_result_record result a b ≡ ok r
    → (r.execution_id ≡ result.execution_id)
      × (r.outcome ≡ result.outcome)
      × (r.attribution ≡ result.attribution)
      × (r.protocol_outputs ≡ result.protocol_outputs)
      × (r.measurements ≡ result.measurements)
      × Measures r.payload_outputs.stdout a
      × Measures r.payload_outputs.stderr b
unfolding execution_result_record retained_stream_record validate_stream_record
    validate_result_record
execution_result_record-fields result a b r h = ground arith

module _ {N D R W S : Type 0} (backend : Backend N W S) (codec : Codec N D R)
    (laws : BackendLaws backend) (root_dir : String) where
  -- What a receipt promises about the disk it was made on.
  abbrev pub Reported :
      RecordedRun D R → ExecutionResult D → S → RecordReceipt RecordingFailure → S → Type 0
  Reported run result s (complete id reference) t =
      (id ≡ run.execution_id)
      × (reference ≡ run.reference)
      × IsPublished backend codec (record_dir backend codec root_dir run.reference) result s t
  Reported run result s (degraded id reference latest failures) t =
      (id ≡ run.execution_id)
      × (reference ≡ run.reference)
      × Written backend codec (record_dir backend codec root_dir run.reference) result s t
      × (durable_state backend codec root_dir run t ≡ ok latest)
  Reported run result s _ t = ⊥

  pub finalize-Ends :
      (run : RecordedRun D R) (result : ExecutionResult D) (s : S)
      → Ends
          (finalize backend codec root_dir run result s)
          (λ receipt t. Reported run result s receipt t)
          (λ e t.
            Written backend codec (record_dir backend codec root_dir run.reference) result s t)
  unfolding finalize
  finalize-Ends run result s =
      let Q : RecordReceipt RecordingFailure → S → Type 0 =
        λ receipt t. Reported run result s receipt t in
      let E : Exception → S → Type 0 =
        λ e t. Written backend codec (record_dir backend codec root_dir run.reference) result s t in
      Ends-caught Q E _ is_recording_error _ (
        Ends-then _ _ (publish_finalized backend codec root_dir run result s) _
          (publish_finalized-Ends backend codec laws root_dir run result s)
          (λ u t e published. (refl, refl, published))
          (λ e t x same. (
            (λ c.
                Ends-look _ _ (durable_state backend codec root_dir run t) t _
                  (λ latest h. (refl, refl, same, h)) (λ e x. same)),
            λ c. same,
          )))

  -- However it ends, `finalize` leaves the record it found or that of the result.
  pub finalize-Written :
      (run : RecordedRun D R) (result : ExecutionResult D) (s : S)
      → Written backend codec
          (record_dir backend codec root_dir run.reference)
          result
          s
          (after (finalize backend codec root_dir run result s))
  finalize-Written run result s =
      let dir = record_dir backend codec root_dir run.reference in
      Ends-after (Written backend codec dir result s) (finalize backend codec root_dir run result s)
        (Ends-weaken (finalize backend codec root_dir run result s) (finalize-Ends run result s)
          (λ receipt t h. reported receipt t h) (λ e t h. h))
    where
      reported :
          (receipt : RecordReceipt RecordingFailure) (t : S)
          → Reported run result s receipt t
          → Written backend codec (record_dir backend codec root_dir run.reference) result s t
      reported (complete id reference) t h = inr h.2
      reported (degraded id reference latest failures) t h = h.2
      reported (not_applicable id) t h = absurd h
      reported (in_process id) t h = absurd h
      reported (worker_pool id) t h = absurd h

names-differ : stdout_sidecar_name ≢ stderr_sidecar_name
names-differ h =
    let e : str_eq stdout_sidecar_name stderr_sidecar_name ≡ true =
      (eq_iff stdout_sidecar_name stderr_sidecar_name).1 h in
    absurd cc

module _ {N D R W S : Type 0} (backend : Backend N W S) (codec : Codec N D R)
    (sidecars : SidecarLaws backend) (codec_laws : CodecLaws codec) (root_dir : String) where
  -- What was published loads, with both sidecars verified.
  pub load-published :
      (reference : RunRecordReference) (result : ExecutionResult D) (s t : S)
      (p : IsPublished backend codec (record_dir backend codec root_dir reference) result s t)
      → load backend codec root_dir reference t
        ≡ ok (
            finalized (
              finalized_record backend codec p.old p.result_record p.stdout_summary
                p.stderr_summary))
  unfolding load verify_loaded verify_sidecars verify_artifact reraise artifact_record record_header
      record_declaration
  load-published reference result s t p =
      let dir = record_dir backend codec root_dir reference in
      let whole =
        finalized_record backend codec p.old p.result_record p.stdout_summary p.stderr_summary in
      let loaded : load_record backend codec dir t ≡ ok (finalized whole) =
        load_record-read backend codec dir t _ p.opens p.manifest
        ∙ record_of-dump backend codec codec_laws (finalized whole) p.valid in
      let fields =
        execution_result_record-fields result p.stdout_summary p.stderr_summary p.result_record
          p.recorded in
      let kept =
        subst (λ u. SameSidecars backend dir p.later u) p.published
          (sidecars.published_verifies dir _ p.later) in
      let out =
        kept _ _ _ _
        ∙ sidecars.other_verifies dir _ stderr_sidecar_name _ _ _ _ p.middle p.stderr_summary
            p.later names-differ
            (sidecars.written_verifies dir _ _ s p.stdout_summary p.middle p.stdout_written)
            p.stderr_written in
      let error =
        kept _ _ _ _
        ∙ sidecars.written_verifies dir _ _ p.middle p.stderr_summary p.later p.stderr_written in
      rw (
        load,
        resolve-found backend codec root_dir reference t p.is_there,
        loaded,
        p.opens,
        fields.5.0,
        fields.5.1,
        out,
        fields.6.0,
        fields.6.1,
        error,
      )
