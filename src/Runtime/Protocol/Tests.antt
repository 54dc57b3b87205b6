-- ===== src/Runtime/Protocol/Tests.antt =====
-- The reader of src/dr_exec/runtime/protocol.py on small streams of bytes.
use dr_exec.Prelude.{
  ℕ, zero, suc, ◌+◌, ◌≤◌, ◌<◌, ◌≡◌, ◌↔◌, refl, sym, Bool, true, false, Option, none, some, List, [],
  ◌∷◌, ◌++◌, ◌==◌, ◌&&◌, arith, take, drop, length, take-append-drop, length-take, if◌then◌else◌,
}
use dr_exec.Declarations.Budgets.{ExecutorSelfBudgets, unbudgeted, finite, limit}
use dr_exec.Runtime.Protocol.Wire.{ProtocolFrame, prelude, output, complete}
use dr_exec.Runtime.Protocol.Decode.{
  Codec, decoded, decode_frame, require_canonical_json_bytes, effective_depth,
}
use dr_exec.Runtime.Protocol.Accept.{
  exceeds, new_state, accept, accept_prelude, append_output, close_stream, require_open,
  finish_stream,
}
use dr_exec.Runtime.Protocol.Acquire.{
  ByteReader, next_frame, fill, filled, read_size, take_line, at_end, split_line,
}
use dr_exec.Runtime.Protocol.Stream.{
  read_protocol_stream, read_frames, read_round, result_of, accept_bytes,
}
use Prim.Native.String.{String}
use text.Mathlib.Text.{◌==◌ as str_eq}
use dr_exec.Runtime.Protocol.Feed.{feed}
use dr_exec.Runtime.Protocol.Transcript.{numbered, feed_iff}
use dr_exec.Runtime.Protocol.Verdict.{Gives, judge_bytes, read_protocol_stream-judge}

-- A pipe that gives at most two bytes at a time.
two_at_once : ℕ → List ℕ → List ℕ × List ℕ
two_at_once zero r = ([], r)
two_at_once (suc zero) r = (take 1 r, drop 1 r)
two_at_once (suc (suc n)) r = (take 2 r, drop 2 r)

two_at_once-reads : (n : ℕ) (r : List ℕ) → r ≡ (two_at_once n r).0 ++ (two_at_once n r).1
unfolding two_at_once
two_at_once-reads zero r = refl
two_at_once-reads (suc zero) r = sym (take-append-drop 1 r)
two_at_once-reads (suc (suc n)) r = sym (take-append-drop 2 r)

two_at_once-few : (n : ℕ) (r : List ℕ) → length (two_at_once n r).0 ≤ n
unfolding two_at_once
two_at_once-few zero r = omega arith
two_at_once-few (suc zero) r = omega (arith, length-take 1 r)
two_at_once-few (suc (suc n)) r = omega (arith, length-take 2 r)

two_at_once-end : (n : ℕ) (r : List ℕ) → 0 < n → (two_at_once n r).0 ≡ [] → r ≡ []
unfolding two_at_once
two_at_once-end zero r h e = absurd (omega arith)
two_at_once-end (suc zero) [] h e = refl
two_at_once-end (suc zero) (b ∷ r) h e = cc
two_at_once-end (suc (suc n)) [] h e = refl
two_at_once-end (suc (suc n)) (b ∷ r) h e = cc

abbrev pipe : ByteReader
pipe = record {
  Source = List ℕ;
  read = two_at_once;
  content = λ r. r;
  reads = two_at_once-reads;
  reads_at_most = two_at_once-few;
  reads_nothing_at_end = two_at_once-end;
}

same_list : List ℕ → List ℕ → Bool
same_list [] [] = true
same_list [] (y ∷ ys) = false
same_list (x ∷ xs) [] = false
same_list (x ∷ xs) (y ∷ ys) = (x == y) && same_list xs ys

-- Frames of two bytes: `p`, `o` or `c`, and a number.
two_bytes : List ℕ → Option (ProtocolFrame ℕ × Bool)
two_bytes (kind ∷ n ∷ []) =
    if kind == 112
    then some (prelude "job", true)
    else if kind == 111
    then some (output n (n + 50), true)
    else if kind == 99
    then some (complete n, true)
    else none
two_bytes _ = none

abbrev small_codec : Codec ℕ
small_codec = record {
  Value = List ℕ;
  decode_strict = λ bytes max_bytes max_depth. decoded bytes;
  canonical = λ v. v;
  same_bytes = same_list;
  validate_frame = two_bytes;
  depth_ceiling = 64;
}

abbrev small_budgets : ExecutorSelfBudgets
small_budgets = record {
  protocol_frame_bytes = finite 8;
  protocol_total_bytes = finite 20;
  protocol_output_count = unbudgeted;
  json_depth = unbudgeted;
  startup_time = unbudgeted;
  termination_time = unbudgeted;
  join_time = unbudgeted;
}

-- A prelude, two outputs and the completion.
abbrev good_bytes : List ℕ
good_bytes = 112 ∷ 0 ∷ 10 ∷ 111 ∷ 0 ∷ 10 ∷ 111 ∷ 1 ∷ 10 ∷ 99 ∷ 2 ∷ 10 ∷ []

good_stream :
    read_protocol_stream small_codec pipe 40 40 good_bytes "job" small_budgets
    ≡ some (record { outputs = 50 ∷ 51 ∷ []; bytes_received = 12; failure = none })
unfolding read_protocol_stream read_frames read_round result_of accept_bytes next_frame fill filled
    read_size take_line at_end split_line decode_frame require_canonical_json_bytes effective_depth
    accept accept_prelude append_output close_stream require_open finish_stream limit two_at_once
    two_bytes same_list
good_stream = refl

read_protocol_stream-judge_example :
    Gives small_codec pipe
      (judge_bytes small_codec pipe
        (limit small_budgets.protocol_frame_bytes)
        (effective_depth small_codec (limit small_budgets.json_depth))
        good_bytes
        (new_state "job" (limit small_budgets.protocol_output_count)))
      (read_protocol_stream small_codec pipe 40 40 good_bytes "job" small_budgets)
unfolding limit
read_protocol_stream-judge_example =
    read_protocol_stream-judge small_codec pipe 40 40 good_bytes "job" small_budgets refl
      (omega arith) (omega arith)

abbrev two_outputs : List (ProtocolFrame ℕ)
two_outputs = prelude "job" ∷ output 0 7 ∷ output 1 8 ∷ complete 2 ∷ []

feed_iff_example : ((feed two_outputs (new_state "job" (some 2))).0 ≡ none) ↔ (
    (docs : List ℕ) × ((name : String) × ((two_outputs ≡ prelude name ∷ numbered 0 docs)
        × ((str_eq name "job" ≡ true)
            × ((exceeds (some 2) (length docs) ≡ false)
                × ((feed two_outputs (new_state "job" (some 2))).1.outputs ≡ docs))))))
feed_iff_example = feed_iff two_outputs "job" (some 2)
