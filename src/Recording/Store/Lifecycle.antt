-- ===== src/Recording/Store/Lifecycle.antt =====
-- The lifecycle of a run record that src/dr_exec/recording/store.py implements, over any calls.
use Prim.Native.String.{String}
use dr_exec.Prelude.{false, Option, none, some, ◌≡◌}
use dr_exec.Recording.Results.{ExecutionResult}
use dr_exec.Recording.Runs.{
  RunRecord, prepared, running, finalized, PreparedRecord, FinalizedRecord, ProcessRecord,
  RecordedRun, record_header, record_declaration,
}
use dr_exec.Recording.Store.Backend.{after, Backend, Codec}
use dr_exec.Recording.Store.Reading.{record_dir}
use dr_exec.Recording.Store.Writing.{prepare, mark_running, finalize}
use dr_exec.Recording.Store.Reads.{stage}
use dr_exec.Recording.Store.Published.{is_finalized}

-- The abstract lifecycle of one record: what a call may make of it.
pub data Advances {D R : Type 0} : Option (RunRecord D R) → Option (RunRecord D R) → Type 0 where
  stays : (o : Option (RunRecord D R)) → Advances o o
  begins : (r : PreparedRecord D R) → Advances none (some (prepared r))
  starts :
      (r : PreparedRecord D R) (process : ProcessRecord)
      → Advances (some (prepared r)) (
          some (
            running (record { header = r.header; declaration = r.declaration; process = process })))
  ends :
      (old : RunRecord D R) (r : FinalizedRecord D R)
      → is_finalized old ≡ false
      → r.header ≡ record_header old
      → r.declaration ≡ record_declaration old
      → Advances (some old) (some (finalized r))

-- The store's calls that write.
pub data Call (D R : Type 0) : Type 0 where
  preparing : PreparedRecord D R → Call D R
  marking : RecordedRun D R → ProcessRecord → Call D R
  finalizing : RecordedRun D R → ExecutionResult D → Call D R

module _ {N D R W S : Type 0} (backend : Backend N W S) (codec : Codec N D R) (root_dir : String)
    (uuid5 : String → String → String) where
  -- The disk after a call.
  abbrev pub perform : Call D R → S → S
  perform (preparing r) s = after (prepare backend codec root_dir uuid5 r s)
  perform (marking run process) s = after (mark_running backend codec root_dir run process s)
  perform (finalizing run result) s = after (finalize backend codec root_dir run result s)

  -- The executor marks a run as running that is prepared, as its record says.
  abbrev pub InOrder : Call D R → S → Type 0
  InOrder (marking run process) s =
      stage backend codec (record_dir backend codec root_dir run.reference) s
      ≡ some (prepared (record { header = run.header; declaration = run.declaration }))
  InOrder _ s = Unit

  -- Any calls, one after the other, for any runs.
  pub data History : S → S → Type 0 where
    start : (s : S) → History s s
    next : {s t : S} → History s t → (c : Call D R) → InOrder c t → History s (perform c t)
