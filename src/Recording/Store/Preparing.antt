-- ===== src/Recording/Store/Preparing.antt =====
-- What `prepare` of src/dr_exec/recording/store.py leaves behind.
use Prim.Native.String.{String}
use dr_exec.Prelude.{Bool, true, false, Option, none, some, ◌≡◌, refl, sym, ◌∙◌, inl, inr, arith}
use dr_exec.Prelude.Integers.{ℤ}
use dr_exec.Prelude.Results.{ok}
use dr_exec.Core.Kinds.{RecordState, recording_operation_failed}
use dr_exec.Recording.Runs.{RunRecord, prepared, PreparedRecord, RecordedRun}
use dr_exec.Recording.References.{record_reference_for_job}
use dr_exec.Recording.Store.Errors.{
  Exception, because, executor_failure, is_file_exists, is_os_error, is_record_load,
  is_recording_error, is_document_directory, class_of,
}
use dr_exec.Recording.Store.Backend.{returned, raised, after, Backend, Codec, looked, bound, caught}
use dr_exec.Recording.Store.Reading.{load_record, record_dir, unsupported_lifecycle_schema_version}
use dr_exec.Recording.Store.Writing.{
  allocation_error, reclaim_unloadable, reclaim_unprepared_allocation, make_directory, mkdir_failed,
  allocate, publish_prepared, recording_step, prepare,
}
use dr_exec.Recording.Store.Calls.{
  Ends, Ends-weaken, Ends-then, Ends-look, Ends-of, Ends-caught, after-Ends, stays-bound,
  stays-caught, stays-looked,
}
use dr_exec.Recording.Store.Laws.{MadeNone, MadeOnly, BackendLaws}
use dr_exec.Recording.Store.Reads.{manifest-load_record}

module _ {N D R W S : Type 0} (backend : Backend N W S) (codec : Codec N D R) (root_dir : String)
    (uuid5 : String → String → String) where
  -- What `prepare` returns for a record.
  abbrev pub prepared_run : PreparedRecord D R → RecordedRun D R
  prepared_run r = record {
    durable_state = RecordState.prepared;
    execution_id = r.declaration.execution_id;
    reference = record_reference_for_job uuid5 r.declaration.execution_id.job_id;
    header = r.header;
    declaration = r.declaration;
  }

  -- The directory of its record.
  abbrev pub prepared_dir : PreparedRecord D R → String
  prepared_dir r =
      record_dir backend codec root_dir
        (record_reference_for_job uuid5 r.declaration.execution_id.job_id)

module _ {N D R W S : Type 0} (backend : Backend N W S) (codec : Codec N D R)
    (laws : BackendLaws backend) where
  MadeNone-then :
      (dir : String) (s t u : S)
      → MadeNone backend dir s t
      → MadeNone backend dir t u
      → MadeNone backend dir s u
  MadeNone-then dir s t u a b j h = a j (b j h)

  pub reclaim-MadeNone :
      (dir : String) (s t : S)
      → MadeNone backend dir s t
      → MadeNone backend dir s (after (reclaim_unprepared_allocation backend codec dir t))
  unfolding reclaim_unprepared_allocation reclaim_unloadable
  reclaim-MadeNone dir s t h =
      let P : S → Type 0 = MadeNone backend dir s in
      let first = looked (load_record backend codec dir t) t in
      stays-caught P (bound first (λ r u. returned tt u)) is_record_load _
        (stays-bound P first (λ r u. returned tt u)
          (stays-looked P (load_record backend codec dir t) t h) (λ r u k. k))
        (λ e u k.
          stays-bound P (looked (unsupported_lifecycle_schema_version backend codec dir u) u) _
            (stays-looked P (unsupported_lifecycle_schema_version backend codec dir u) u k)
            (λ version v k. by_version version v k))
    where
      by_version :
          (version : Option ℤ) (v : S)
          → MadeNone backend dir s v
          → MadeNone backend dir s (after (reclaim_unloadable backend codec dir version v))
      by_version none v k = MadeNone-then dir s v _ k (laws.rmtree_new dir v)
      by_version (some version) v k = k

  -- Allocating makes no manifest.
  pub allocate-MadeNone :
      (dir : String) (s : S) → MadeNone backend dir s (after (allocate backend codec dir s))
  unfolding allocate make_directory mkdir_failed
  allocate-MadeNone dir s =
      let P : S → Type 0 = MadeNone backend dir s in
      stays-caught P (backend.mkdir dir s) is_os_error _ (laws.mkdir_new dir s)
        (λ e t h. by_test e t h (is_file_exists e))
    where
      again :
          (t : S)
          → MadeNone backend dir s t
          → MadeNone backend dir s (after (make_directory backend codec dir t))
      again t h =
          stays-caught (MadeNone backend dir s) (backend.mkdir dir t) is_os_error _
            (MadeNone-then dir s t _ h (laws.mkdir_new dir t)) (λ e u k. k)

      by_test :
          (e : Exception) (t : S)
          → MadeNone backend dir s t
          → (b : Bool) → MadeNone backend dir s (after (mkdir_failed backend codec b dir e t))
      by_test e t h true =
          stays-bound (MadeNone backend dir s) (reclaim_unprepared_allocation backend codec dir t) _
            (reclaim-MadeNone dir s t h) (λ a u k. again u k)
      by_test e t h false = h

  file_exists-os_error : (e : Exception) → is_file_exists e ≡ true → is_os_error e ≡ true
  unfolding is_file_exists is_os_error
  file_exists-os_error e h = ground arith

  -- A directory whose record loads is left alone.
  pub allocate-over :
      (dir : String) (s : S) (r : RunRecord D R)
      → load_record backend codec dir s ≡ ok r
      → (e : Exception) × (allocate backend codec dir s ≡ raised (allocation_error e) s)
  unfolding allocate make_directory mkdir_failed reclaim_unprepared_allocation
  allocate-over dir s r loaded =
      let (j, found) = manifest-load_record backend codec dir s r loaded in
      let (e, made, exists) = laws.mkdir_over dir j s found in
      let os = file_exists-os_error e exists in (e, rw (made, os, exists, loaded, made, os))

  -- Publishing that raised made the manifest of the record at most.
  failed-MadeOnly :
      (r : PreparedRecord D R) (dir : String) (s t v : S) (e : Exception)
      → MadeNone backend dir s t
      → backend.publish dir (codec.dump (prepared r)) t ≡ raised e v
      → MadeOnly backend dir (codec.dump (prepared r)) s v
  failed-MadeOnly r dir s t v e new failed j h = elim (laws.publish_raised dir _ t e v failed) [
    | inl same ↦ inl (new j (sym same.1 ∙ h))
    | inr (there, manifest) ↦
        let both : ok j ≡ ok (codec.dump (prepared r)) = sym h ∙ manifest in inr cc
  ]

  publish_prepared-Ends :
      (r : PreparedRecord D R) (dir : String) (s : S)
      → Ends
          (publish_prepared backend codec r dir s)
          (λ u t.
            (backend.open_directory dir ≡ ok tt)
            × (backend.is_directory dir t ≡ ok true)
            × (backend.read_manifest dir t ≡ ok (codec.dump (prepared r))))
          (λ e t. MadeOnly backend dir (codec.dump (prepared r)) s t)
  unfolding publish_prepared
  publish_prepared-Ends r dir s =
      let made =
        after-Ends (λ t. MadeNone backend dir s t) (allocate backend codec dir s)
          (allocate-MadeNone dir s) in
      Ends-then _ _ (allocate backend codec dir s) _ made
        (λ u t e new.
          Ends-look _ _ (backend.open_directory dir) t _
            (λ u opens.
              Ends-caught _ _ (backend.publish dir (codec.dump (prepared r)) t)
                is_document_directory _
                (Ends-of (backend.publish dir (codec.dump (prepared r)) t)
                  (λ u v published.
                    let (there, manifest) = laws.publish_returned dir _ t v published in
                    (opens, there, manifest))
                  (λ e v failed.
                    let only = failed-MadeOnly r dir s t v e new failed in
                    (
                      (λ caught.
                          Ends-then _ _ (reclaim_unprepared_allocation backend codec dir v) _
                            (after-Ends (λ w. MadeOnly backend dir (codec.dump (prepared r)) s w)
                              (reclaim_unprepared_allocation backend codec dir v)
                              (λ j h. only j (reclaim-MadeNone dir v v (λ k g. g) j h)))
                            (λ a w x k. k) (λ e w x k. k)),
                      λ passed. only,
                    ))))
            (λ e x j h. inl (new j h)))
        (λ e t x k j h. inl (k j h))

  module _ (root_dir : String) (uuid5 : String → String → String) where
    -- The run was prepared and its record is the directory's, or no other manifest was made.
    pub prepare-Ends :
        (r : PreparedRecord D R) (s : S)
        → Ends
            (prepare backend codec root_dir uuid5 r s)
            (λ run t.
              (run ≡ prepared_run backend codec root_dir uuid5 r)
              × (backend.open_directory (prepared_dir backend codec root_dir uuid5 r) ≡ ok tt)
              × (backend.is_directory (prepared_dir backend codec root_dir uuid5 r) t ≡ ok true)
              × (backend.read_manifest (prepared_dir backend codec root_dir uuid5 r) t
                  ≡ ok (codec.dump (prepared r))))
            (λ e t.
              MadeOnly backend
                (prepared_dir backend codec root_dir uuid5 r)
                (codec.dump (prepared r))
                s
                t)
    unfolding prepare recording_step
    prepare-Ends r s =
        Ends-then _ _
          (caught (publish_prepared backend codec r (prepared_dir backend codec root_dir uuid5 r) s)
            is_recording_error _)
          _
          (Ends-caught _ _
            (publish_prepared backend codec r (prepared_dir backend codec root_dir uuid5 r) s)
            is_recording_error _
            (Ends-weaken
              (publish_prepared backend codec r (prepared_dir backend codec root_dir uuid5 r) s)
              (publish_prepared-Ends r (prepared_dir backend codec root_dir uuid5 r) s) (λ u t h. h)
              (λ e t h. ((λ c. h), (λ c. h)))))
          (λ u t e h. (refl, h.0, h.1, h.2)) (λ e t x h. h)

    -- Over a record that loads nothing is prepared, and nothing changes.
    pub prepare-over :
        (r : PreparedRecord D R) (s : S) (old : RunRecord D R)
        → load_record backend codec (prepared_dir backend codec root_dir uuid5 r) s ≡ ok old
        → (e : Exception) × (prepare backend codec root_dir uuid5 r s
            ≡ raised (because (executor_failure recording_operation_failed) none e) s)
    unfolding prepare publish_prepared recording_step is_recording_error is_document_directory
        is_record_load class_of
    prepare-over r s old loaded =
        let (e, failed) =
          allocate-over (prepared_dir backend codec root_dir uuid5 r) s old loaded in
        (allocation_error e, rw failed)
