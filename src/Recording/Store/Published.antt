-- ===== src/Recording/Store/Published.antt =====
-- What it means that `_publish_finalized` of src/dr_exec/recording/store.py published the record of a result.
use Prim.Native.String.{String}
use dr_exec.Prelude.{Bool, true, false, ◌≡◌, ◌∙◌, length, ◌⊎◌, arith}
use dr_exec.Prelude.Results.{ok, Returns}
use dr_exec.Recording.Streams.{RetainedPayloadStream}
use dr_exec.Recording.Results.{ExecutionResult}
use dr_exec.Recording.Stored.{SidecarSummary, ExecutionResultRecord, execution_result_record}
use dr_exec.Recording.Runs.{
  RunRecord, prepared, running, finalized, FinalizedRecord, validate_finalized,
}
use dr_exec.Recording.Store.Backend.{Ran, returned, after, Backend, Codec}
use dr_exec.Recording.Store.Reading.{stdout_sidecar_name, stderr_sidecar_name, load_record}
use dr_exec.Recording.Store.Writing.{write_sidecar, finalized_record}
use dr_exec.Recording.Store.Calls.{Ends, Ends-then, after-Ends}
use dr_exec.Recording.Store.Laws.{Same, BackendLaws}

-- Whether the lifecycle of a record is over.
unfoldable pub is_finalized : {D R : Type 0} → RunRecord D R → Bool
is_finalized (finalized r) = true
is_finalized (prepared r) = false
is_finalized (running r) = false

pub validate_finalized-same :
    {D R : Type 0} (r f : FinalizedRecord D R) → validate_finalized r ≡ ok f → f ≡ r
unfolding validate_finalized
validate_finalized-same r f h = ground arith

module _ {N W S : Type 0} (backend : Backend N W S) (laws : BackendLaws backend) where
  pub Same-then :
      (dir : String) (s t u : S)
      → Same backend dir s t
      → Same backend dir t u
      → Same backend dir s u
  Same-then dir s t u a b = (b.0 ∙ a.0, b.1 ∙ a.1)

  -- A call that keeps the directory, after calls that kept it.
  keeps :
      {A : Type 0} (dir : String) (s t : S) (r : Ran S A)
      → Same backend dir s t
      → Same backend dir t (after r)
      → Ends r (λ a u. Same backend dir s u) (λ e u. Same backend dir s u)
  keeps dir s t r a b = after-Ends (λ u. Same backend dir s u) r (Same-then dir s t (after r) a b)

  -- Writing a sidecar keeps every manifest.
  pub write_sidecar-Same :
      (other dir name : String) (stream : RetainedPayloadStream) (s t : S)
      → Same backend other s t
      → Ends
          (write_sidecar backend dir name stream t)
          (λ summary u. Same backend other s u)
          (λ e u. Same backend other s u)
  unfolding write_sidecar
  write_sidecar-Same other dir name stream s t same =
      let opened = backend.open_sidecar dir name (length stream.head) (length stream.tail) t in
      Ends-then _ _ opened _
        (keeps other s t opened same (laws.open_sidecar_same dir other name _ _ t))
        (λ w u e k.
          Ends-then _ _ (backend.write w stream.head u) _
            (keeps other s u (backend.write w stream.head u) k (laws.write_same other w _ u))
            (λ a v e k.
              Ends-then _ _ (backend.write w stream.tail v) _
                (keeps other s v (backend.write w stream.tail v) k (laws.write_same other w _ v))
                (λ a v e k.
                  keeps other s v (backend.finalize_sidecar w v) k
                    (laws.finalize_sidecar_same other w v))
                (λ e v x k. k))
            (λ e v x k. k))
        (λ e u x k. k)

-- The disk `t` after the record of a result was published over the record of the disk `s`, whether or not
-- publishing raised after that.
pub record IsPublished {N D R W S : Type 0} (backend : Backend N W S) (codec : Codec N D R)
    (dir : String) (result : ExecutionResult D) (s t : S) : Type 0 where
  pub old : RunRecord D R
  pub stdout_summary : SidecarSummary
  pub stderr_summary : SidecarSummary
  pub result_record : ExecutionResultRecord D
  pub loaded : load_record backend codec dir s ≡ ok old
  pub unfinished : is_finalized old ≡ false
  pub recorded : execution_result_record result stdout_summary stderr_summary ≡ ok result_record
  pub valid : Returns (
      validate_finalized
        (finalized_record backend codec old result_record stdout_summary stderr_summary))
  pub opens : backend.open_directory dir ≡ ok tt
  pub is_there : backend.is_directory dir t ≡ ok true
  pub manifest :
      backend.read_manifest dir t
      ≡ ok (
          codec.dump (
            finalized
              (finalized_record backend codec old result_record stdout_summary stderr_summary)))
  pub middle : S
  pub later : S
  pub stdout_written :
      write_sidecar backend dir stdout_sidecar_name result.payload_outputs.stdout s
      ≡ returned stdout_summary middle
  pub stderr_written :
      write_sidecar backend dir stderr_sidecar_name result.payload_outputs.stderr middle
      ≡ returned stderr_summary later
  pub published :
      after (
        backend.publish dir
          (codec.dump (
            finalized
              (finalized_record backend codec old result_record stdout_summary stderr_summary)))
          later)
      ≡ t

-- The directory still has the manifest it had, or the record of the result was published.
abbrev pub Written :
    {N D R W S : Type 0} (backend : Backend N W S) (codec : Codec N D R)
    → String
    → ExecutionResult D
    → S
    → S
    → Type 0
Written backend codec dir result s t =
    Same backend dir s t ⊎ IsPublished backend codec dir result s t
