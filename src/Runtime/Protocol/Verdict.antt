-- ===== src/Runtime/Protocol/Verdict.antt =====
-- What `read_protocol_stream` of src/dr_exec/runtime/protocol.py returns: the verdict on the lines of
-- the stream.
use Prim.Native.String.{String}
use dr_exec.Prelude.{
  ℕ, zero, suc, ◌+◌, ◌<◌, ◌≡◌, refl, sym, inl, inr, Option-cases, false, Option, none, some, List,
  arith, length,
}
use dr_exec.Declarations.Budgets.{ExecutorSelfBudgets, limit}
use dr_exec.Runtime.Protocol.Decode.{Codec, effective_depth}
use dr_exec.Runtime.Protocol.Accept.{StreamState, Accepted, new_state, exceeds}
use dr_exec.Runtime.Protocol.Acquire.{ByteReader, Acquisition, Next, next_frame, split_line}
use dr_exec.Runtime.Protocol.Stream.{
  ProtocolStreamResult, result_of, accept_bytes, read_round, read_frames, read_protocol_stream,
}
use dr_exec.Runtime.Protocol.Lines.{
  lines, judge, judge_rest, lines-split_line, lines-no_line, split_line-shorter,
}
use dr_exec.Runtime.Protocol.Refill.{unused, Sane, rounds_few, within}
use dr_exec.Runtime.Protocol.Chunks.{
  Fair, fair_line, long_line, long_rest, no_rest, some_rest, next_frame-Fair,
}

module _ {D : Type 0} (codec : Codec D) (io : ByteReader) where
  -- The result is the verdict.
  abbrev pub Gives : Accepted D → Option (ProtocolStreamResult D) → Type 0
  Gives verdict none = ⊥
  Gives verdict (some r) = (r.failure ≡ verdict.0) × (r.outputs ≡ verdict.1.outputs)

  abbrev pub judge_bytes : Option ℕ → ℕ → List ℕ → StreamState D → Accepted D
  judge_bytes bound max_depth bytes s =
      judge codec bound max_depth (lines bytes).whole (lines bytes).rest s

  read_round-Gives :
      (rest : StreamState D → Acquisition io → Option (ProtocolStreamResult D)) (bound : Option ℕ)
      (max_depth : ℕ) (bytes : List ℕ) (s : StreamState D) (n : Next io)
      → Fair io s.completed bound bytes n
      → ((s' : StreamState D) (line : List ℕ) (q : Acquisition io)
          → split_line bytes ≡ some (line, unused io q)
          → q.max_frame_bytes ≡ bound
          → Sane io q
          → Gives (judge_bytes bound max_depth (unused io q) s') (rest s' q))
      → Gives (judge_bytes bound max_depth bytes s) (read_round codec io rest max_depth s n)
  unfolding read_round result_of judge judge_rest lines
  read_round-Gives rest bound max_depth bytes s n (fair_line line q e x same sane) go =
      let verdict = accept_bytes codec max_depth line s in
      elim (Option-cases verdict.0) [
        | inl f ↦
            rw (lines-split_line bytes e, judge, read_round, x, f) (go verdict.1 line q e same sane)
        | inr (code, f) ↦ rw (lines-split_line bytes e, judge, read_round, x, f) (refl, refl)
      ]
  read_round-Gives rest bound max_depth bytes s n (long_line line after q e x) go =
      rw (lines-split_line bytes e, judge, read_round, x) (refl, refl)
  read_round-Gives rest bound max_depth bytes s n (long_rest q e x) go =
      rw (lines-no_line bytes e, x) (refl, refl)
  read_round-Gives rest bound max_depth bytes s n (no_rest q e x) go =
      rw (e, judge, judge_rest, x) (refl, refl)
  read_round-Gives rest bound max_depth bytes s n (some_rest q e x full) go =
      rw (lines-no_line bytes e, x, full) (refl, refl)

  read_frames-Gives :
      (fuel line_fuel max_depth : ℕ) (s : StreamState D) (q : Acquisition io)
      → Sane io q
      → length (unused io q) < fuel
      → length (unused io q) + 1 < line_fuel
      → Gives
          (judge_bytes q.max_frame_bytes max_depth (unused io q) s)
          (read_frames codec io fuel line_fuel max_depth s q)
  unfolding read_frames
  read_frames-Gives zero line_fuel max_depth s q v enough line_enough = absurd (omega arith)
  read_frames-Gives (suc fuel) line_fuel max_depth s q v enough line_enough =
      read_round-Gives (read_frames codec io fuel line_fuel max_depth) q.max_frame_bytes max_depth
        (unused io q) s (next_frame io line_fuel s.completed q)
        (next_frame-Fair io line_fuel s.completed q v (omega (arith, rounds_few io q)))
        λ s' line q' e same sane.
          let shorter = split_line-shorter (unused io q) e in
          rw (sym same)
            (read_frames-Gives fuel line_fuel max_depth s' q' sane (omega arith) (omega arith))

-- For a reader that behaves as documented, a content that fits the total budget and enough fuel, the
-- stream is read to a result whose failure and outputs are the verdict on the lines of the content: how
-- the content was cut into chunks makes no difference.
pub read_protocol_stream-judge :
    {D : Type 0} (codec : Codec D) (io : ByteReader) (fuel line_fuel : ℕ) (reader : io.Source)
    (id : String) (budgets : ExecutorSelfBudgets)
    → exceeds (limit budgets.protocol_total_bytes) (length (io.content reader)) ≡ false
    → length (io.content reader) < fuel
    → length (io.content reader) + 1 < line_fuel
    → Gives codec io
        (judge_bytes codec io
          (limit budgets.protocol_frame_bytes)
          (effective_depth codec (limit budgets.json_depth))
          (io.content reader)
          (new_state id (limit budgets.protocol_output_count)))
        (read_protocol_stream codec io fuel line_fuel reader id budgets)
unfolding read_protocol_stream
read_protocol_stream-judge codec io fuel line_fuel reader id budgets fits enough line_enough =
    read_frames-Gives codec io fuel line_fuel (effective_depth codec (limit budgets.json_depth))
      (new_state id (limit budgets.protocol_output_count)) _
      (record {
        finished = λ e. cc;
        fits =
            within (limit budgets.protocol_total_bytes) (0 + length (io.content reader))
              (length (io.content reader)) (omega arith) fits;
      })
      enough line_enough
