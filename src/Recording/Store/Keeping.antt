-- ===== src/Recording/Store/Keeping.antt =====
-- Every call of src/dr_exec/recording/store.py lets every record that loads load on, the same or a later one.
use Prim.Native.String.{String}
use dr_exec.Prelude.{◌≡◌, sym, ◌∙◌, subst, inl, inr}
use dr_exec.Prelude.Results.{ok}
use dr_exec.Recording.Results.{RunRecordReference}
use dr_exec.Recording.Runs.{RunRecord}
use dr_exec.Recording.Store.Backend.{after, Backend, Codec}
use dr_exec.Recording.Store.Reading.{record_dir, load_record}
use dr_exec.Recording.Store.Laws.{BackendLaws, SidecarLaws, CodecLaws}
use dr_exec.Recording.Store.Reads.{stage-loaded}
use dr_exec.Recording.Store.Preparing.{prepared_dir, prepare-over}
use dr_exec.Recording.Store.Elsewhere.{prepare-Kept, mark_running-Kept, finalize-Kept}
use dr_exec.Recording.Store.Lifecycle.{Call, preparing, marking, finalizing, perform, InOrder}
use dr_exec.Recording.Store.Advancing.{same_or_apart}
use dr_exec.Recording.Store.Loading.{same-IsLater, IsLoaded}
use dr_exec.Recording.Store.Going.{Goes, stays_loaded, marked-Goes, finalize-Goes}

module _ {N D R W S : Type 0} (backend : Backend N W S) (codec : Codec N D R)
    (laws : BackendLaws backend) (sidecars : SidecarLaws backend) (codec_laws : CodecLaws codec)
    (root_dir : String) where
  -- Every call that is in order lets every record that loads load on.
  pub perform-Goes :
      (uuid5 : String → String → String) (c : Call D R) (s : S)
      → InOrder backend codec root_dir uuid5 c s
      → (reference : RunRecordReference) (old : RunRecord D R)
      → IsLoaded backend codec root_dir reference s old
      → Goes backend codec laws sidecars codec_laws root_dir reference old
          (perform backend codec root_dir uuid5 c s)
  perform-Goes uuid5 (preparing r) s ready reference old l =
      elim (same_or_apart (record_dir backend codec root_dir reference)
        (prepared_dir backend codec root_dir uuid5 r)) [
          | inl own ↦
              let (x, over) =
                prepare-over backend codec laws root_dir uuid5 r s old
                  (subst (λ d. load_record backend codec d s ≡ ok old) own l.loaded) in
              subst
                (λ done.
                  Goes backend codec laws sidecars codec_laws root_dir reference old (after done))
                (sym over) (old, l, same-IsLater old)
          | inr apart ↦
              stays_loaded backend codec laws sidecars codec_laws root_dir reference s _ old l
                (prepare-Kept backend codec laws _ s root_dir uuid5 r apart)
        ]
  perform-Goes uuid5 (marking run process) s ready reference old l =
      elim (same_or_apart (record_dir backend codec root_dir reference)
        (record_dir backend codec root_dir run.reference)) [
          | inl own ↦
              marked-Goes backend codec laws sidecars codec_laws root_dir reference run process s
                old l own
                (sym (
                    stage-loaded backend codec _ s old
                      (subst (λ d. load_record backend codec d s ≡ ok old) own l.loaded))
                  ∙ ready)
          | inr apart ↦
              stays_loaded backend codec laws sidecars codec_laws root_dir reference s _ old l
                (mark_running-Kept backend codec laws _ s root_dir run process apart)
        ]
  perform-Goes uuid5 (finalizing run result) s ready reference old l =
      elim (same_or_apart (record_dir backend codec root_dir reference)
        (record_dir backend codec root_dir run.reference)) [
          | inl own ↦
              finalize-Goes backend codec laws sidecars codec_laws root_dir reference run result s
                old l own
          | inr apart ↦
              stays_loaded backend codec laws sidecars codec_laws root_dir reference s _ old l
                (finalize-Kept backend codec laws _ s root_dir run result apart)
        ]
