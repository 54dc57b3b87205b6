-- ===== src/Recording/Store/Going.antt =====
-- How the record of a run that loads goes on in the calls of src/dr_exec/recording/store.py for that run.
use Prim.Native.String.{String}
use dr_exec.Prelude.{false, some, ◌≡◌, refl, sym, ◌∙◌, ap, subst, inl, inr, arith}
use dr_exec.Prelude.Results.{ok}
use dr_exec.Recording.Results.{RunRecordReference, ExecutionResult}
use dr_exec.Recording.Runs.{
  RunRecord, prepared, running, finalized, FinalizedRecord, ProcessRecord, RecordedRun,
  record_header, record_declaration,
}
use dr_exec.Recording.Store.Errors.{is_recording_error}
use dr_exec.Recording.Store.Backend.{after, Backend, Codec, bound, looked}
use dr_exec.Recording.Store.Reading.{record_dir, resolve, load_record, durable_state, verify_loaded}
use dr_exec.Recording.Store.Writing.{
  finalized_record, mark_running, finalize, publish_finalized, publish_finalized_in,
  not_yet_finalized,
}
use dr_exec.Recording.Store.Calls.{
  Ends-weaken, Ends-after, stays-bound, stays-caught, stays-looked, stays-look,
}
use dr_exec.Recording.Store.Laws.{Same, Untouched, BackendLaws, SidecarLaws, CodecLaws}
use dr_exec.Recording.Store.Reads.{load_record-read, record_of-dump, resolve-found, resolve-own}
use dr_exec.Recording.Store.Published.{is_finalized, Written}
use dr_exec.Recording.Store.Finalizing.{finalize-Written, load-published}
use dr_exec.Recording.Store.Marking.{Stands, mark_running-Ends, running_record}
use dr_exec.Recording.Store.Loading.{
  IsLater, same-IsLater, IsLoaded, IsLoaded-load, Untouched-IsLoaded, Same-IsLoaded,
}

finalized-IsLater :
    {D R : Type 0} (old : RunRecord D R) (f : FinalizedRecord D R)
    → is_finalized old ≡ false
    → f.header ≡ record_header old
    → f.declaration ≡ record_declaration old
    → IsLater old (finalized f)
unfolding is_finalized record_header record_declaration
finalized-IsLater (prepared r) f h e d = record {
  header = e;
  declaration = d;
  further = omega arith;
  final = λ h. absurd cc;
}
finalized-IsLater (running r) f h e d = record {
  header = e;
  declaration = d;
  further = omega arith;
  final = λ h. absurd cc;
}
finalized-IsLater (finalized r) f h e d = absurd cc

starts_unfinished :
    {D R : Type 0} (old : RunRecord D R) (run : RecordedRun D R)
    → some old ≡ some (prepared (record { header = run.header; declaration = run.declaration }))
    → is_finalized old ≡ false
unfolding is_finalized
starts_unfinished (prepared r) run h = refl
starts_unfinished (running r) run h = refl
starts_unfinished (finalized r) run h = absurd cc

starts-IsLater :
    {D R : Type 0} (old : RunRecord D R) (run : RecordedRun D R) (process : ProcessRecord)
    → some old ≡ some (prepared (record { header = run.header; declaration = run.declaration }))
    → IsLater old (running (running_record run process))
unfolding is_finalized record_header record_declaration
starts-IsLater (prepared r) run process h = record {
  header = ground arith;
  declaration = ground arith;
  further = omega arith;
  final = λ g. absurd cc;
}
starts-IsLater (running r) run process h = absurd cc
starts-IsLater (finalized r) run process h = absurd cc

module _ {N D R W S : Type 0} (backend : Backend N W S) (codec : Codec N D R)
    (laws : BackendLaws backend) (sidecars : SidecarLaws backend) (codec_laws : CodecLaws codec)
    (root_dir : String) where
  -- The record of the reference loads, the old one or a later one.
  abbrev pub Goes : RunRecordReference → RunRecord D R → S → Type 0
  Goes reference old t =
      (new : RunRecord D R) × IsLoaded backend codec root_dir reference t new × IsLater old new

  pub stays_loaded :
      (reference : RunRecordReference) (s t : S) (old : RunRecord D R)
      → IsLoaded backend codec root_dir reference s old
      → Untouched backend (record_dir backend codec root_dir reference) s t
      → Goes reference old t
  stays_loaded reference s t old l u =
      (old, Untouched-IsLoaded backend codec root_dir reference s t old u l, same-IsLater old)

  -- Finalizing over a finalized record changes nothing.
  finalize-over :
      (run : RecordedRun D R) (result : ExecutionResult D) (s : S) (f : FinalizedRecord D R)
      → load_record backend codec (record_dir backend codec root_dir run.reference) s
        ≡ ok (finalized f)
      → after (finalize backend codec root_dir run result s) ≡ s
  unfolding finalize publish_finalized publish_finalized_in not_yet_finalized
  finalize-over run result s f loaded =
      let P : S → Type 0 = λ t. t ≡ s in
      let found = resolve backend codec root_dir run.reference s in
      let publishing = publish_finalized backend codec root_dir run result s in
      stays-caught P (bound publishing _) is_recording_error _
        (stays-bound P publishing _
          (stays-look P found s _ refl (λ d resolved.
            in_place d (resolve-own backend codec root_dir run.reference s d resolved)))
          (λ a t k. k))
        (λ e t k.
          stays-bound P (looked (durable_state backend codec root_dir run t) t) _
            (stays-looked P (durable_state backend codec root_dir run t) t k) (λ a u k. k))
    where
      in_place :
          (d : String)
          → d ≡ record_dir backend codec root_dir run.reference
          → after (publish_finalized_in backend codec result d s) ≡ s
      in_place d e = rw (publish_finalized_in, e, loaded)

  Stands-Goes :
      (reference : RunRecordReference) (run : RecordedRun D R) (process : ProcessRecord)
      (old : RunRecord D R) (t : S)
      → IsLater old (running (running_record run process))
      → Stands backend codec laws root_dir
          (record_dir backend codec root_dir reference)
          (running (running_record run process))
          t
      → Goes reference old t
  unfolding verify_loaded
  Stands-Goes reference run process old t later (opens, there, manifest) = (
    running (running_record run process),
    record {
      is_there = resolve-found backend codec root_dir reference t there;
      loaded =
          load_record-read backend codec _ t _ opens manifest
          ∙ record_of-dump backend codec codec_laws (running (running_record run process)) tt;
      verified = refl;
    },
    later,
  )

  pub marked-Goes :
      (reference : RunRecordReference) (run : RecordedRun D R) (process : ProcessRecord) (s : S)
      (old : RunRecord D R)
      → IsLoaded backend codec root_dir reference s old
      → record_dir backend codec root_dir reference
        ≡ record_dir backend codec root_dir run.reference
      → some old ≡ some (prepared (record { header = run.header; declaration = run.declaration }))
      → Goes reference old (after (mark_running backend codec root_dir run process s))
  marked-Goes reference run process s old l own was =
      let P : S → Type 0 = λ t. Goes reference old t in
      let later = starts-IsLater old run process was in
      let unfinished = starts_unfinished old run was in
      let stands : (t : S)
          → Stands backend codec laws root_dir (record_dir backend codec root_dir run.reference)
              (running (running_record run process)) t
          → P t =
        λ t h. Stands-Goes reference run process old t later (
          subst (λ d. Stands backend codec laws root_dir d (running (running_record run process)) t)
            (sym own) h) in
      Ends-after P (mark_running backend codec root_dir run process s) (
        Ends-weaken (mark_running backend codec root_dir run process s)
          (mark_running-Ends backend codec laws root_dir run process s) (λ marked t h. stands t h.1)
          (λ e t h. elim h [
            | inl same ↦ (
              old,
              Same-IsLoaded backend codec root_dir reference s t old unfinished
                  (subst (λ d. Same backend d s t) (sym own) same) l,
              same-IsLater old,
            )
            | inr there ↦ stands t there
          ]))

  written-Goes :
      (reference : RunRecordReference) (result : ExecutionResult D) (s t : S) (old : RunRecord D R)
      → IsLoaded backend codec root_dir reference s old
      → is_finalized old ≡ false
      → Written backend codec (record_dir backend codec root_dir reference) result s t
      → Goes reference old t
  written-Goes reference result s t old l unfinished (inl same) = (
    old,
    Same-IsLoaded backend codec root_dir reference s t old unfinished same l,
    same-IsLater old,
  )
  written-Goes reference result s t old l unfinished (inr p) =
      let loads =
        load-published backend codec sidecars codec_laws root_dir reference result s t p in
      let both : ok p.old ≡ ok old = sym p.loaded ∙ l.loaded in
      let old_is : p.old ≡ old = ground arith in
      (
        finalized (
            finalized_record backend codec p.old p.result_record p.stdout_summary p.stderr_summary),
        IsLoaded-load backend codec root_dir reference t _ loads,
        finalized-IsLater old _ unfinished (ap record_header old_is) (ap record_declaration old_is),
      )

  finalize-Written_at :
      (run : RecordedRun D R) (result : ExecutionResult D) (s : S) (dir : String)
      → dir ≡ record_dir backend codec root_dir run.reference
      → Written backend codec dir result s (after (finalize backend codec root_dir run result s))
  finalize-Written_at run result s dir own =
      subst
        (λ d.
          Written backend codec d result s (after (finalize backend codec root_dir run result s)))
        (sym own) (finalize-Written backend codec laws root_dir run result s)

  pub finalize-Goes :
      (reference : RunRecordReference) (run : RecordedRun D R) (result : ExecutionResult D) (s : S)
      (old : RunRecord D R)
      → IsLoaded backend codec root_dir reference s old
      → record_dir backend codec root_dir reference
        ≡ record_dir backend codec root_dir run.reference
      → Goes reference old (after (finalize backend codec root_dir run result s))
  unfolding is_finalized
  finalize-Goes reference run result s (finalized f) l own =
      let loaded = subst (λ d. load_record backend codec d s ≡ ok (finalized f)) own l.loaded in
      subst (λ t. Goes reference (finalized f) t) (sym (finalize-over run result s f loaded))
        (finalized f, l, same-IsLater (finalized f))
  finalize-Goes reference run result s (prepared r) l own =
      written-Goes reference result s _ (prepared r) l refl (finalize-Written_at run result s _ own)
  finalize-Goes reference run result s (running r) l own =
      written-Goes reference result s _ (running r) l refl (finalize-Written_at run result s _ own)
