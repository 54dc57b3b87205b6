-- ===== src/Recording/Store/Publishing.antt =====
-- What `_publish_finalized` of src/dr_exec/recording/store.py leaves behind.
use Prim.Native.String.{String}
use dr_exec.Prelude.{false, ◌≡◌, refl, sym, ap, subst, inl, inr}
use dr_exec.Prelude.Results.{Result, ok, err, Returns}
use dr_exec.Recording.Results.{ExecutionResult}
use dr_exec.Recording.Stored.{SidecarSummary, ExecutionResultRecord, execution_result_record}
use dr_exec.Recording.Runs.{
  RunRecord, prepared, running, finalized, FinalizedRecord, RecordedRun, validate_finalized,
}
use dr_exec.Recording.Store.Errors.{Exception}
use dr_exec.Recording.Store.Backend.{returned, after, Action, Backend, Codec, bound}
use dr_exec.Recording.Store.Reading.{
  stdout_sidecar_name, stderr_sidecar_name, load_record, record_dir, resolve,
}
use dr_exec.Recording.Store.Writing.{
  write_sidecar, constructing, not_yet_finalized, finalized_record, publish_finalized_in,
  publish_finalized,
}
use dr_exec.Recording.Store.Calls.{Ends, Ends-of, Ends-then, Ends-look}
use dr_exec.Recording.Store.Laws.{Same, HasManifest, BackendLaws}
use dr_exec.Recording.Store.Reads.{resolve-own}
use dr_exec.Recording.Store.Published.{
  is_finalized, validate_finalized-same, Same-then, write_sidecar-Same, IsPublished, Written,
}

module _ {N D R W S : Type 0} (backend : Backend N W S) (codec : Codec N D R)
    (laws : BackendLaws backend) (root_dir : String) where
  pub not_yet_finalized-then :
      {A : Type 0} (Q : A → S → Type 0) (E : Exception → S → Type 0) (r : RunRecord D R) (s : S)
      (k : Action S A)
      → (is_finalized r ≡ false → Ends (k s) Q E)
      → ((e : Exception) → E e s)
      → Ends (bound (not_yet_finalized r s) (λ u. k)) Q E
  unfolding not_yet_finalized is_finalized
  not_yet_finalized-then Q E (prepared r) s k q x = q refl
  not_yet_finalized-then Q E (running r) s k q x = q refl
  not_yet_finalized-then Q E (finalized r) s k q x = x _

  pub constructing-then :
      {F A B : Type 0} (Q : B → S → Type 0) (E : Exception → S → Type 0) (made : Result F A) (s : S)
      (k : A → Action S B)
      → ((a : A) → made ≡ ok a → Ends (k a s) Q E)
      → ((e : Exception) → E e s)
      → Ends (bound (constructing made s) k) Q E
  unfolding constructing
  constructing-then Q E (ok a) s k q x = q a refl
  constructing-then Q E (err e) s k q x = x _

  -- The last step, once everything is written.
  publish-IsPublished :
      (dir : String) (result : ExecutionResult D) (s : S) (old : RunRecord D R)
      → load_record backend codec dir s ≡ ok old
      → is_finalized old ≡ false
      → backend.open_directory dir ≡ ok tt
      → (stdout_summary stderr_summary : SidecarSummary) (middle later : S)
      → write_sidecar backend dir stdout_sidecar_name result.payload_outputs.stdout s
        ≡ returned stdout_summary middle
      → write_sidecar backend dir stderr_sidecar_name result.payload_outputs.stderr middle
        ≡ returned stderr_summary later
      → Same backend dir s later
      → (result_record : ExecutionResultRecord D)
      → execution_result_record result stdout_summary stderr_summary ≡ ok result_record
      → (final : FinalizedRecord D R)
      → validate_finalized
          (finalized_record backend codec old result_record stdout_summary stderr_summary)
        ≡ ok final
      → Ends
          (backend.publish dir (codec.dump (finalized final)) later)
          (λ u t. IsPublished backend codec dir result s t)
          (λ e t. Written backend codec dir result s t)
  publish-IsPublished dir result s old loaded unfinished opens stdout_summary stderr_summary middle
        later out error same result_record recorded final made =
      let whole = finalized_record backend codec old result_record stdout_summary stderr_summary in
      subst
        (λ f.
          Ends (backend.publish dir (codec.dump (finalized f)) later)
            (λ u t. IsPublished backend codec dir result s t)
            (λ e t. Written backend codec dir result s t))
        (sym (validate_finalized-same whole final made))
        (Ends-of (backend.publish dir (codec.dump (finalized whole)) later)
          (λ u t done. written t (laws.publish_returned dir _ later t done) (ap after done))
          (λ e t failed. elim (laws.publish_raised dir _ later e t failed) [
            | inl kept ↦ inl (Same-then backend laws dir s later t same kept)
            | inr replaced ↦ inr (written t replaced (ap after failed))
          ]))
    where
      written :
          (t : S)
          → HasManifest backend dir
              (codec.dump (
                finalized
                  (finalized_record backend codec old result_record stdout_summary stderr_summary)))
              t
          → after (
              backend.publish dir
                (codec.dump (
                  finalized (
                    finalized_record backend codec old result_record stdout_summary
                      stderr_summary)))
                later)
            ≡ t
          → IsPublished backend codec dir result s t
      written t (there, manifest) published = record {
        old = old;
        stdout_summary = stdout_summary;
        stderr_summary = stderr_summary;
        result_record = result_record;
        loaded = loaded;
        unfinished = unfinished;
        recorded = recorded;
        valid = subst Returns (sym made) tt;
        opens = opens;
        is_there = there;
        manifest = manifest;
        middle = middle;
        later = later;
        stdout_written = out;
        stderr_written = error;
        published = published;
      }

  publish_finalized_in-Ends :
      (d : String) (result : ExecutionResult D) (s : S)
      → Ends
          (publish_finalized_in backend codec result d s)
          (λ u t. IsPublished backend codec d result s t)
          (λ e t. Written backend codec d result s t)
  unfolding publish_finalized_in
  publish_finalized_in-Ends d result s =
      let unchanged : Same backend d s s = (refl, refl) in
      Ends-look _ _ (load_record backend codec d s) s _
        (λ old loaded.
          not_yet_finalized-then _ _ old s _
            (λ unfinished.
              Ends-look _ _ (backend.open_directory d) s _
                (λ u opens.
                  Ends-then _ _
                    (write_sidecar backend d stdout_sidecar_name result.payload_outputs.stdout s) _
                    (write_sidecar-Same backend laws d d stdout_sidecar_name
                      result.payload_outputs.stdout s s unchanged)
                    (λ a middle out same.
                      Ends-then _ _
                        (write_sidecar backend d stderr_sidecar_name result.payload_outputs.stderr
                          middle)
                        _
                        (write_sidecar-Same backend laws d d stderr_sidecar_name
                          result.payload_outputs.stderr s middle same)
                        (λ b later error same.
                          constructing-then _ _ (execution_result_record result a b) later _
                            (λ r recorded.
                              constructing-then _ _
                                (validate_finalized (finalized_record backend codec old r a b))
                                later _
                                (λ final made.
                                  publish-IsPublished d result s old loaded unfinished opens a b
                                    middle later out error same r recorded final made)
                                (λ e. inl same))
                            (λ e. inl same))
                        (λ e t x same. inl same))
                    (λ e t x same. inl same))
                (λ e x. inl unchanged))
            (λ e. inl unchanged))
        (λ e x. inl unchanged)

  -- The record was published; after an exception it was that, or the directory has the manifest it had.
  pub publish_finalized-Ends :
      (run : RecordedRun D R) (result : ExecutionResult D) (s : S)
      → Ends
          (publish_finalized backend codec root_dir run result s)
          (λ u t.
            IsPublished backend codec (record_dir backend codec root_dir run.reference) result s t)
          (λ e t.
            Written backend codec (record_dir backend codec root_dir run.reference) result s t)
  unfolding publish_finalized
  publish_finalized-Ends run result s =
      Ends-look _ _ (resolve backend codec root_dir run.reference s) s _
        (λ d resolved.
          subst
            (λ x.
              Ends (publish_finalized_in backend codec result d s)
                (λ u t. IsPublished backend codec x result s t)
                (λ e t. Written backend codec x result s t))
            (resolve-own backend codec root_dir run.reference s d resolved)
            (publish_finalized_in-Ends d result s))
        (λ e x. inl (refl, refl))
