-- ===== src/Recording/Store/Advancing.antt =====
-- Each call of src/dr_exec/recording/store.py is a step of the abstract lifecycle.
use Prim.Native.String.{String}
use text.Mathlib.Text.{◌==◌ as str_eq}
use text.Mathlib.TextEquality.{eq_iff}
use dr_exec.Prelude.{
  Bool, true, false, Option, none, some, ◌≡◌, ◌≢◌, refl, sym, ◌∙◌, subst, ◌⊎◌, inl, inr,
}
use dr_exec.Prelude.Results.{Result, ok, err}
use dr_exec.Recording.Results.{ExecutionResult}
use dr_exec.Recording.Runs.{
  RunRecord, prepared, finalized, PreparedRecord, ProcessRecord, RecordedRun,
}
use dr_exec.Recording.Store.Errors.{Exception}
use dr_exec.Recording.Store.Backend.{after, Backend, Codec}
use dr_exec.Recording.Store.Reading.{record_dir, load_record}
use dr_exec.Recording.Store.Writing.{finalized_record, prepare, mark_running, finalize}
use dr_exec.Recording.Store.Calls.{Ends-weaken, Ends-after}
use dr_exec.Recording.Store.Laws.{Same, Untouched, IsValidRecord, BackendLaws, CodecLaws}
use dr_exec.Recording.Store.Reads.{
  stage, stage-loaded, stage-failed, stage-Same, stage-MadeOnly, load_record-read, record_of-dump,
}
use dr_exec.Recording.Store.Published.{Written}
use dr_exec.Recording.Store.Preparing.{prepared_dir, prepare-Ends, prepare-over}
use dr_exec.Recording.Store.Finalizing.{finalize-Written}
use dr_exec.Recording.Store.Marking.{Stands, mark_running-Ends}
use dr_exec.Recording.Store.Elsewhere.{prepare-Kept, mark_running-Kept, finalize-Kept}
use dr_exec.Recording.Store.Lifecycle.{
  Advances, stays, begins, starts, ends, Call, preparing, marking, finalizing, perform, InOrder,
}

unchanged : {D R : Type 0} (o p : Option (RunRecord D R)) → p ≡ o → Advances o p
unchanged o p e = subst (λ q. Advances o q) (sym e) (stays o)

changed :
    {D R : Type 0} (o p : Option (RunRecord D R)) {q r : Option (RunRecord D R)}
    → o ≡ q
    → p ≡ r
    → Advances q r
    → Advances o p
changed o p {q = q} e f a = subst (λ x. Advances x p) (sym e) (subst (λ x. Advances q x) (sym f) a)

pub same_or_apart : (a b : String) → (a ≡ b) ⊎ (a ≢ b)
same_or_apart a b = by_test (str_eq a b) refl
  where
    by_test : (t : Bool) → str_eq a b ≡ t → (a ≡ b) ⊎ (a ≢ b)
    by_test true e = inl ((eq_iff a b).0 e)
    by_test false e = inr (λ h. let f : str_eq a b ≡ true = (eq_iff a b).1 h in absurd cc)

module _ {N D R W S : Type 0} (backend : Backend N W S) (codec : Codec N D R)
    (laws : BackendLaws backend) (codec_laws : CodecLaws codec) (root_dir : String)
    (uuid5 : String → String → String) where
  stage-Stands :
      (dir : String) (r : RunRecord D R) (t : S)
      → IsValidRecord r
      → Stands backend codec laws root_dir dir r t
      → stage backend codec dir t ≡ some r
  stage-Stands dir r t valid h =
      let e : load_record backend codec dir t ≡ ok r =
        load_record-read backend codec dir t _ h.0 h.2
        ∙ record_of-dump backend codec codec_laws r valid in
      stage-loaded backend codec dir t r e

  -- What a call has done to the record of one directory.
  abbrev Advanced : String → S → S → Type 0
  Advanced dir s t = Advances (stage backend codec dir s) (stage backend codec dir t)

  kept : (dir : String) (s t : S) → Same backend dir s t → Advanced dir s t
  kept dir s t same = unchanged _ _ (stage-Same backend codec dir s t same)

  manifest_kept : (dir : String) (s t : S) → Untouched backend dir s t → Same backend dir s t
  manifest_kept dir s t u = (u.0, u.1)

  prepare-own :
      (r : PreparedRecord D R) (s : S)
      → Advanced
          (prepared_dir backend codec root_dir uuid5 r)
          s
          (after (prepare backend codec root_dir uuid5 r s))
  prepare-own r s = by_load (load_record backend codec dir s) refl
    where
      dir : String
      dir = prepared_dir backend codec root_dir uuid5 r

      by_load :
          (found : Result Exception (RunRecord D R))
          → load_record backend codec dir s ≡ found
          → Advanced dir s (after (prepare backend codec root_dir uuid5 r s))
      by_load (ok old) e =
          let (x, over) = prepare-over backend codec laws root_dir uuid5 r s old e in
          subst (λ done. Advanced dir s (after done)) (sym over) (stays _)
      by_load (err x) e =
          let absent : stage backend codec dir s ≡ none = stage-failed backend codec dir s x e in
          Ends-after (Advanced dir s) (prepare backend codec root_dir uuid5 r s) (
            Ends-weaken (prepare backend codec root_dir uuid5 r s)
              (prepare-Ends backend codec laws root_dir uuid5 r s)
              (λ run t h.
                changed _ _ absent (stage-Stands dir (prepared r) t tt (h.1, h.2, h.3)) (begins r))
              (λ y t h.
                elim (stage-MadeOnly backend codec dir _ (prepared r) s t
                  (record_of-dump backend codec codec_laws (prepared r) tt) h) [
                    | inl gone ↦ unchanged _ _ (gone ∙ sym absent)
                    | inr (inl same) ↦ unchanged _ _ same
                    | inr (inr new) ↦ changed _ _ absent new (begins r)
                  ]))

  marking-own :
      (run : RecordedRun D R) (process : ProcessRecord) (s : S)
      → InOrder backend codec root_dir uuid5 (marking run process) s
      → Advanced
          (record_dir backend codec root_dir run.reference)
          s
          (after (mark_running backend codec root_dir run process s))
  marking-own run process s ready =
      let dir = record_dir backend codec root_dir run.reference in
      Ends-after (Advanced dir s) (mark_running backend codec root_dir run process s) (
        Ends-weaken (mark_running backend codec root_dir run process s)
          (mark_running-Ends backend codec laws root_dir run process s)
          (λ marked t h. changed _ _ ready (stage-Stands dir _ t tt h.1) (starts _ process))
          (λ e t h. elim h [
            | inl same ↦ kept dir s t same
            | inr stands ↦ changed _ _ ready (stage-Stands dir _ t tt stands) (starts _ process)
          ]))

  written-own :
      (dir : String) (result : ExecutionResult D) (s t : S)
      → Written backend codec dir result s t
      → Advanced dir s t
  written-own dir result s t (inl same) = kept dir s t same
  written-own dir result s t (inr p) =
      let whole =
        finalized_record backend codec p.old p.result_record p.stdout_summary p.stderr_summary in
      changed _ _ (stage-loaded backend codec dir s p.old p.loaded)
        (stage-Stands dir (finalized whole) t p.valid (p.opens, p.is_there, p.manifest))
        (ends p.old whole p.unfinished refl refl)

  finalize-own :
      (run : RecordedRun D R) (result : ExecutionResult D) (s : S)
      → Advanced
          (record_dir backend codec root_dir run.reference)
          s
          (after (finalize backend codec root_dir run result s))
  finalize-own run result s =
      written-own (record_dir backend codec root_dir run.reference) result s _
        (finalize-Written backend codec laws root_dir run result s)

  -- Every call that is in order takes every record a step of its lifecycle, or leaves it.
  pub perform-Advances :
      (c : Call D R) (s : S)
      → InOrder backend codec root_dir uuid5 c s
      → (dir : String) → Advanced dir s (perform backend codec root_dir uuid5 c s)
  perform-Advances (preparing r) s ready dir =
      elim (same_or_apart dir (prepared_dir backend codec root_dir uuid5 r)) [
        | inl own ↦
            subst (λ d. Advanced d s (after (prepare backend codec root_dir uuid5 r s))) (sym own)
              (prepare-own r s)
        | inr apart ↦
            kept dir s _
              (manifest_kept dir s _ (prepare-Kept backend codec laws dir s root_dir uuid5 r apart))
      ]
  perform-Advances (marking run process) s ready dir =
      elim (same_or_apart dir (record_dir backend codec root_dir run.reference)) [
        | inl own ↦
            subst (λ d. Advanced d s (after (mark_running backend codec root_dir run process s)))
              (sym own) (marking-own run process s ready)
        | inr apart ↦ kept dir s _ (
            manifest_kept dir s _
              (mark_running-Kept backend codec laws dir s root_dir run process apart))
      ]
  perform-Advances (finalizing run result) s ready dir =
      elim (same_or_apart dir (record_dir backend codec root_dir run.reference)) [
        | inl own ↦
            subst (λ d. Advanced d s (after (finalize backend codec root_dir run result s)))
              (sym own) (finalize-own run result s)
        | inr apart ↦ kept dir s _ (
            manifest_kept dir s _
              (finalize-Kept backend codec laws dir s root_dir run result apart))
      ]
