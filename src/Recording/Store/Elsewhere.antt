-- ===== src/Recording/Store/Elsewhere.antt =====
-- The operations of src/dr_exec/recording/store.py touch no other record's directory.
use Prim.Native.String.{String}
use dr_exec.Prelude.{Bool, true, false, Option, none, some, ◌≢◌, refl, ◌∙◌}
use dr_exec.Prelude.Integers.{ℤ}
use dr_exec.Prelude.Results.{Result, ok, err}
use dr_exec.Recording.Streams.{RetainedPayloadStream}
use dr_exec.Recording.Results.{ExecutionResult}
use dr_exec.Recording.Stored.{execution_result_record}
use dr_exec.Recording.Runs.{
  RunRecord, prepared, running, finalized, PreparedRecord, ProcessRecord, RecordedRun,
  validate_finalized,
}
use dr_exec.Recording.Store.Errors.{
  is_file_exists, is_os_error, is_record_load, is_recording_error, is_document_directory,
}
use dr_exec.Recording.Store.Backend.{returned, after, Backend, Codec, looked, bound, caught}
use dr_exec.Recording.Store.Reading.{
  stdout_sidecar_name, stderr_sidecar_name, load_record, record_dir, resolve, durable_state,
  unsupported_lifecycle_schema_version,
}
use dr_exec.Recording.Store.Writing.{
  write_sidecar, reclaim_unloadable, reclaim_unprepared_allocation, make_directory, mkdir_failed,
  allocate, publish, publish_prepared, recording_step, prepare, mark_running, finalize,
  publish_finalized, publish_finalized_in, not_yet_finalized, constructing, finalized_record,
}
use dr_exec.Recording.Store.Calls.{Ends-after, stays-bound, stays-caught, stays-looked, stays-look}
use dr_exec.Recording.Store.Laws.{Same, Untouched, BackendLaws}
use dr_exec.Recording.Store.Reads.{resolve-own}
use dr_exec.Recording.Store.Published.{write_sidecar-Same}
use dr_exec.Recording.Store.Preparing.{prepared_dir}

module _ {N D R W S : Type 0} (backend : Backend N W S) (codec : Codec N D R)
    (laws : BackendLaws backend) (other : String) (s : S) where
  -- The other directory is as it was.
  abbrev Kept : S → Type 0
  Kept t = Untouched backend other s t

  nothing_yet : Kept s
  nothing_yet = (refl, refl, (λ name hash head tail. refl))

  onto : (t u : S) → Kept t → Untouched backend other t u → Kept u
  onto t u a b = (
    b.0 ∙ a.0,
    b.1 ∙ a.1,
    (λ name hash head tail. b.2 name hash head tail ∙ a.2 name hash head tail),
  )

  sidecar-Kept :
      (dir name : String) (stream : RetainedPayloadStream)
      → other ≢ dir
      → (t : S) → Kept t
      → Kept (after (write_sidecar backend dir name stream t))
  sidecar-Kept dir name stream apart t k =
      let (there, manifest) =
        Ends-after (Same backend other s) _
          (write_sidecar-Same backend laws other dir name stream s t (k.0, k.1)) in
      (
        there,
        manifest,
        (λ wanted hash head tail.
            laws.sidecar_elsewhere dir other name stream t apart wanted hash head tail
            ∙ k.2 wanted hash head tail),
      )

  unfinished : (r : RunRecord D R) (t : S) → Kept t → Kept (after (not_yet_finalized r t))
  unfolding not_yet_finalized
  unfinished (prepared r) t k = k
  unfinished (running r) t k = k
  unfinished (finalized r) t k = k

  made : {E A : Type 0} (m : Result E A) (t : S) → Kept t → Kept (after (constructing m t))
  unfolding constructing
  made (ok a) t k = k
  made (err e) t k = k

  module _ (dir : String) (apart : other ≢ dir) where
    reclaim-Kept :
        (t : S) → Kept t → Kept (after (reclaim_unprepared_allocation backend codec dir t))
    unfolding reclaim_unprepared_allocation reclaim_unloadable
    reclaim-Kept t h =
        let first = looked (load_record backend codec dir t) t in
        stays-caught Kept (bound first (λ r u. returned tt u)) is_record_load _
          (stays-bound Kept first (λ r u. returned tt u)
            (stays-looked Kept (load_record backend codec dir t) t h) (λ r u k. k))
          (λ e u k.
            stays-bound Kept (looked (unsupported_lifecycle_schema_version backend codec dir u) u) _
              (stays-looked Kept (unsupported_lifecycle_schema_version backend codec dir u) u k)
              (λ version v k. by_version version v k))
      where
        by_version :
            (version : Option ℤ) (v : S)
            → Kept v
            → Kept (after (reclaim_unloadable backend codec dir version v))
        by_version none v k = onto v _ k (laws.rmtree_elsewhere dir other v apart)
        by_version (some version) v k = k

    make-Kept : (t : S) → Kept t → Kept (after (make_directory backend codec dir t))
    unfolding make_directory
    make-Kept t h =
        stays-caught Kept (backend.mkdir dir t) is_os_error _
          (onto t _ h (laws.mkdir_elsewhere dir other t apart)) (λ e u k. k)

    allocate-Kept : (t : S) → Kept t → Kept (after (allocate backend codec dir t))
    unfolding allocate mkdir_failed
    allocate-Kept t h =
        stays-caught Kept (backend.mkdir dir t) is_os_error _
          (onto t _ h (laws.mkdir_elsewhere dir other t apart))
          (λ e u k. by_test (is_file_exists e) e u k)
      where
        by_test :
            (b : Bool) (e : _) (u : S)
            → Kept u
            → Kept (after (mkdir_failed backend codec b dir e u))
        by_test true e u k =
            stays-bound Kept (reclaim_unprepared_allocation backend codec dir u) _
              (reclaim-Kept u k) (λ a v k. make-Kept v k)
        by_test false e u k = k

    publish_prepared-Kept :
        (r : PreparedRecord D R) (t : S)
        → Kept t
        → Kept (after (publish_prepared backend codec r dir t))
    unfolding publish_prepared
    publish_prepared-Kept r t h =
        stays-bound Kept (allocate backend codec dir t) _ (allocate-Kept t h) (λ a u k.
          stays-bound Kept (looked (backend.open_directory dir) u) _
            (stays-looked Kept (backend.open_directory dir) u k)
            (λ a v k.
              stays-caught Kept (backend.publish dir (codec.dump (prepared r)) v)
                is_document_directory _ (onto v _ k (laws.publish_elsewhere dir other _ v apart))
                (λ e w k.
                  stays-bound Kept (reclaim_unprepared_allocation backend codec dir w) _
                    (reclaim-Kept w k) (λ a x k. k))))

    publish-Kept :
        (r : RunRecord D R) (t : S) → Kept t → Kept (after (publish backend codec dir r t))
    unfolding publish
    publish-Kept r t h =
        stays-bound Kept (looked (backend.open_directory dir) t) _
          (stays-looked Kept (backend.open_directory dir) t h)
          (λ a v k. onto v _ k (laws.publish_elsewhere dir other _ v apart))

    finalized_in-Kept :
        (result : ExecutionResult D) (t : S)
        → Kept t
        → Kept (after (publish_finalized_in backend codec result dir t))
    unfolding publish_finalized_in
    finalized_in-Kept result t h =
        stays-bound Kept (looked (load_record backend codec dir t) t) _
          (stays-looked Kept (load_record backend codec dir t) t h)
          (λ r u k. stays-bound Kept (not_yet_finalized r u) _ (unfinished r u k) (λ a u k.
            stays-bound Kept (looked (backend.open_directory dir) u) _
              (stays-looked Kept (backend.open_directory dir) u k)
              (λ a u k.
                stays-bound Kept
                  (write_sidecar backend dir stdout_sidecar_name result.payload_outputs.stdout u) _
                  (sidecar-Kept dir _ _ apart u k)
                  (λ a u k.
                    stays-bound Kept
                      (write_sidecar backend dir stderr_sidecar_name result.payload_outputs.stderr
                        u)
                      _ (sidecar-Kept dir _ _ apart u k)
                      (λ b u k.
                        stays-bound Kept (constructing (execution_result_record result a b) u) _
                          (made (execution_result_record result a b) u k)
                          (λ x u k.
                            stays-bound Kept
                              (constructing
                                (validate_finalized (finalized_record backend codec r x a b)) u)
                              _
                              (made (validate_finalized (finalized_record backend codec r x a b)) u
                                k)
                              (λ f u k.
                                onto u _ k (laws.publish_elsewhere dir other _ u apart))))))))

  module _ (root_dir : String) where
    -- Nothing that is prepared in another directory is seen here.
    pub prepare-Kept :
        (uuid5 : String → String → String) (r : PreparedRecord D R)
        → other ≢ prepared_dir backend codec root_dir uuid5 r
        → Kept (after (prepare backend codec root_dir uuid5 r s))
    unfolding prepare recording_step
    prepare-Kept uuid5 r apart =
        let dir = prepared_dir backend codec root_dir uuid5 r in
        let done = publish_prepared backend codec r dir s in
        stays-bound Kept (caught done is_recording_error _) _
          (stays-caught Kept done is_recording_error _
            (publish_prepared-Kept dir apart r s nothing_yet) (λ e t k. k))
          (λ a t k. k)

    pub mark_running-Kept :
        (run : RecordedRun D R) (process : ProcessRecord)
        → other ≢ record_dir backend codec root_dir run.reference
        → Kept (after (mark_running backend codec root_dir run process s))
    unfolding mark_running recording_step
    mark_running-Kept run process apart =
        let found = resolve backend codec root_dir run.reference s in
        let marking = bound (looked found s) (λ dir. publish backend codec dir _) in
        stays-bound Kept (caught marking is_recording_error _) _
          (stays-caught Kept marking is_recording_error _
            (stays-look Kept found s _ nothing_yet (λ dir resolved.
              publish-Kept dir
                (λ e. apart (e ∙ resolve-own backend codec root_dir run.reference s dir resolved)) _
                s nothing_yet))
            (λ e t k. k))
          (λ a t k. k)

    pub finalize-Kept :
        (run : RecordedRun D R) (result : ExecutionResult D)
        → other ≢ record_dir backend codec root_dir run.reference
        → Kept (after (finalize backend codec root_dir run result s))
    unfolding finalize publish_finalized
    finalize-Kept run result apart =
        let found = resolve backend codec root_dir run.reference s in
        let publishing = publish_finalized backend codec root_dir run result s in
        stays-caught Kept (bound publishing _) is_recording_error _
          (stays-bound Kept publishing _
            (stays-look Kept found s _ nothing_yet (λ dir resolved.
              finalized_in-Kept dir
                (λ e. apart (e ∙ resolve-own backend codec root_dir run.reference s dir resolved))
                result s nothing_yet))
            (λ a t k. k))
          (λ e t k.
            stays-bound Kept (looked (durable_state backend codec root_dir run t) t) _
              (stays-looked Kept (durable_state backend codec root_dir run t) t k) (λ a u k. k))
