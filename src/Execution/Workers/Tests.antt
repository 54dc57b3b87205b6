-- ===== src/Execution/Workers/Tests.antt =====
-- A pool of one worker that is closed while a job has it (src/dr_exec/execution/worker_pool.py).
use Prim.Native.String.{String}
use dr_exec.Prelude.{ℕ, ◌≤◌, ◌*◌, some, arith, true, false, none, [], ◌∷◌, ◌≡◌, ◌↔◌, refl}
use dr_exec.Prelude.Results.{Result, ok, err}
use dr_exec.Prelude.Json.{Json, str}
use dr_exec.Execution.Workers.Frames.{Document, FrameCodec, envelope_schema, handle, interpret}
use dr_exec.Prelude.Integers.{pos}
use dr_exec.Execution.Workers.Watch.{
  StopWatch, Poll, Received, worker_died, exchange, exchanged, ReceivedIn, exchange-deadline,
}
use dr_exec.Execution.Workers.Served.{FrameLaws, fate, reported, interpret-handle}
use dr_exec.Execution.Workers.Slots.{
  has, discard, got, spawned, leased, terminating, Workers, new_workers,
}
use dr_exec.Execution.Workers.Steps.{
  terminate, spawns, registers, terminates, takes_slot, closes, snapshots, moves, Reached, start,
  next,
}
use dr_exec.Execution.Workers.Width.{all_slots, slots_kept}
use dr_exec.Execution.Workers.Alive.{closed_kills}

abbrev leased_one : Workers
leased_one = record {
  closed = false;
  snapshotted = false;
  slots = [];
  live = 5 ∷ [];
  alive = 5 ∷ [];
  activities = leased 5 ∷ [];
}

abbrev closed_one : Workers
closed_one = record {
  closed = true;
  snapshotted = true;
  slots = [];
  live = [];
  alive = [];
  activities = terminating [] ∷ leased 5 ∷ [];
}

leased_one-Reached : Reached (new_workers 1) leased_one
unfolding new_workers
leased_one-Reached =
    next
      (next (next start (takes_slot none [] refl)) (moves [] [] (got none) _ refl (spawns 5 refl)))
      (moves [] [] (spawned 5) _ refl (registers 5 refl))

closed_one-Reached : Reached (new_workers 1) closed_one
unfolding terminate discard
closed_one-Reached =
    next (next (next leased_one-Reached closes) (snapshots refl))
      (moves [] (leased 5 ∷ []) (terminating (5 ∷ [])) _ refl (terminates 5 []))

slots_kept_example : all_slots leased_one ≡ 1
slots_kept_example = slots_kept 1 leased_one-Reached

closed_kills_example : has 5 closed_one.alive ≡ false
closed_kills_example = closed_kills 1 5 closed_one-Reached refl refl

-- A codec whose frames are the documents themselves, and an entry point that takes texts only.
abbrev toy_codec : FrameCodec ℕ (Json ℕ) (Document ℕ)
toy_codec = record {
  encode = λ d. d;
  decode = ok;
  strict_request = ok;
  strict_result = ok;
  show = λ _. "None";
}

abbrev toy_laws : FrameLaws toy_codec
toy_laws = record { decode_encode = λ d. refl }

abbrev echo : Json ℕ → Result String (Json ℕ)
echo (str text) = ok (str text)
echo _ = err "not a text"

abbrev toy_request : Document ℕ
toy_request = record { schema = envelope_schema; schema_version = 1; payload = str "hello" }

interpret-handle_example :
    interpret toy_codec (handle toy_codec echo toy_request)
    ≡ reported (fate toy_codec echo toy_request)
interpret-handle_example = interpret-handle toy_codec toy_laws echo toy_request

-- A worker that never answers, on a clock that advances by 10 each round.
abbrev silent : ℕ → Poll (Document ℕ)
silent n = record { item = none; token = false; now_ns = n * 10 }

abbrev thirty : StopWatch
thirty = record { deadline_ns = some 30; watches = false; started = true }

exchange-deadline_example :
    (r : Received (Document ℕ)) × (last : ℕ) × (exchange toy_codec
        (some (pos 3))
        true
        thirty
        silent
        4
      ≡ exchanged toy_codec (some (pos 3)) r)
    × ReceivedIn thirty silent r 0 last
    × last ≤ 3
    × ((exchanged toy_codec (some (pos 3)) r ≡ none) ↔ ((r ≡ worker_died) × (some (pos 3) ≡ none)))
exchange-deadline_example =
    exchange-deadline toy_codec (some (pos 3)) thirty silent 30 3 refl (omega arith)
