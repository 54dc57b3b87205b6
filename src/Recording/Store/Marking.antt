-- ===== src/Recording/Store/Marking.antt =====
-- What `mark_running` of src/dr_exec/recording/store.py leaves behind.
use Prim.Native.String.{String}
use dr_exec.Prelude.{true, ◌≡◌, refl, subst, ◌⊎◌, inl, inr}
use dr_exec.Prelude.Results.{ok}
use dr_exec.Core.Kinds.{RecordState}
use dr_exec.Recording.Runs.{RunRecord, running, RunningRecord, ProcessRecord, RecordedRun}
use dr_exec.Recording.Store.Errors.{is_recording_error}
use dr_exec.Recording.Store.Backend.{Backend, Codec, looked, bound, caught}
use dr_exec.Recording.Store.Reading.{record_dir, resolve}
use dr_exec.Recording.Store.Writing.{publish, recording_step, mark_running}
use dr_exec.Recording.Store.Calls.{Ends, Ends-of, Ends-then, Ends-look, Ends-weaken, Ends-caught}
use dr_exec.Recording.Store.Laws.{Same, BackendLaws}
use dr_exec.Recording.Store.Reads.{resolve-own}

-- The record that a prepared run becomes.
abbrev pub running_record : {D R : Type 0} → RecordedRun D R → ProcessRecord → RunningRecord D R
running_record run process = record {
  header = run.header;
  declaration = run.declaration;
  process = process;
}

module _ {N D R W S : Type 0} (backend : Backend N W S) (codec : Codec N D R)
    (laws : BackendLaws backend) (root_dir : String) where
  -- The record stands in its directory.
  abbrev pub Stands : String → RunRecord D R → S → Type 0
  Stands dir r t =
      (backend.open_directory dir ≡ ok tt)
      × (backend.is_directory dir t ≡ ok true)
      × (backend.read_manifest dir t ≡ ok (codec.dump r))

  publish-Stands :
      (dir : String) (r : RunRecord D R) (s : S)
      → Ends
          (publish backend codec dir r s)
          (λ u t. Stands dir r t)
          (λ e t. Same backend dir s t ⊎ Stands dir r t)
  unfolding publish
  publish-Stands dir r s =
      Ends-look _ _ (backend.open_directory dir) s _
        (λ u opens.
          Ends-of (backend.publish dir (codec.dump r) s)
            (λ u t published.
              let (there, manifest) = laws.publish_returned dir _ s t published in
              (opens, there, manifest))
            (λ e t failed. elim (laws.publish_raised dir _ s e t failed) [
              | inl same ↦ inl same
              | inr replaced ↦ inr (opens, replaced.0, replaced.1)
            ]))
        (λ e x. inl (refl, refl))

  -- The record is running, or the directory has the manifest it had; after an exception it is either.
  pub mark_running-Ends :
      (run : RecordedRun D R) (process : ProcessRecord) (s : S)
      → Ends
          (mark_running backend codec root_dir run process s)
          (λ marked t.
            (marked ≡ record run { durable_state = RecordState.running })
            × Stands
                (record_dir backend codec root_dir run.reference)
                (running (running_record run process))
                t)
          (λ e t.
            Same backend (record_dir backend codec root_dir run.reference) s t
            ⊎ Stands
                (record_dir backend codec root_dir run.reference)
                (running (running_record run process))
                t)
  unfolding mark_running recording_step
  mark_running-Ends run process s =
      let found = resolve backend codec root_dir run.reference s in
      let r = running (running_record run process) in
      let dir = record_dir backend codec root_dir run.reference in
      let marking = bound (looked found s) (λ d. publish backend codec d r) in
      let marked : Ends marking (λ u t. Stands dir r t)
          (λ e t. Same backend dir s t ⊎ Stands dir r t) =
        Ends-look (λ u t. Stands dir r t) (λ e t. Same backend dir s t ⊎ Stands dir r t) found s
          (λ d. publish backend codec d r)
          (λ d resolved.
            subst
              (λ x.
                Ends (publish backend codec d r s) (λ u t. Stands x r t)
                  (λ e t. Same backend x s t ⊎ Stands x r t))
              (resolve-own backend codec root_dir run.reference s d resolved)
              (publish-Stands d r s))
          (λ e x. inl (refl, refl)) in
      Ends-then _ _ (caught marking is_recording_error _) _
        (Ends-caught _ _ marking is_recording_error _
          (Ends-weaken marking marked (λ u t h. h) (λ e t h. ((λ c. h), (λ c. h)))))
        (λ u t e h. (refl, h)) (λ e t x h. h)
