-- ===== src/Runtime/Protocol/Stream.antt =====
-- `read_protocol_stream` of src/dr_exec/runtime/protocol.py.
use Prim.Native.String.{String}
use dr_exec.Prelude.{ℕ, zero, suc, false, Option, none, some, List, [], if◌then◌else◌}
use dr_exec.Prelude.Results.{ok, err}
use dr_exec.Core.Kinds.{ProtocolFailureCode, unexpected_frame}
use dr_exec.Declarations.Budgets.{ExecutorSelfBudgets, limit}
use dr_exec.Runtime.Protocol.Decode.{Codec, decode_frame, effective_depth}
use dr_exec.Runtime.Protocol.Accept.{StreamState, Accepted, new_state, accept, finish_stream}
use dr_exec.Runtime.Protocol.Acquire.{
  ByteReader, Acquisition, Next, starved, violation, frame, ended, next_frame,
}

-- The text of the failure's detail is left out.
pub record ProtocolStreamResult (D : Type 0) : Type 0 where
  pub outputs : List D
  pub bytes_received : ℕ
  pub failure : Option ProtocolFailureCode

module _ {D : Type 0} (codec : Codec D) where
  -- What one round of the loop does with the bytes of a frame.
  unfoldable pub accept_bytes : ℕ → List ℕ → StreamState D → Accepted D
  accept_bytes max_depth bytes state =
      if state.completed
      then (some unexpected_frame, state)
      else elim (decode_frame codec bytes max_depth) [
        | ok fr ↦ accept fr state
        | err code ↦ (some code, state)
      ]

module _ {D : Type 0} (codec : Codec D) (io : ByteReader) where
  unfoldable pub result_of : Accepted D → Acquisition io → ProtocolStreamResult D
  result_of (failure, state) q = record {
    outputs = state.outputs;
    bytes_received = q.bytes_received;
    failure = failure;
  }

  -- One round of the loop on what `next_frame` returned, before the `rest` of the loop. `none` means
  -- that the fuel ran out.
  unfoldable pub read_round :
      (StreamState D → Acquisition io → Option (ProtocolStreamResult D))
      → ℕ
      → StreamState D
      → Next io
      → Option (ProtocolStreamResult D)
  read_round rest max_depth state starved = none
  read_round rest max_depth state (violation code q) = some (result_of (some code, state) q)
  read_round rest max_depth state (ended q) = some (result_of (finish_stream state, state) q)
  read_round rest max_depth state (frame bytes q) =
      let (failure, state') = accept_bytes codec max_depth bytes state in
      elim failure [ some code ↦ some (result_of (some code, state') q) | none ↦ rest state' q ]

  -- The loop; `line_fuel` is for each call of `next_frame`.
  unfoldable pub read_frames :
      ℕ → ℕ → ℕ → StreamState D → Acquisition io → Option (ProtocolStreamResult D)
  read_frames zero line_fuel max_depth state q = none
  read_frames (suc fuel) line_fuel max_depth state q =
      read_round (read_frames fuel line_fuel max_depth) max_depth state
        (next_frame io line_fuel state.completed q)

  unfoldable pub read_protocol_stream :
      ℕ → ℕ → io.Source → String → ExecutorSelfBudgets → Option (ProtocolStreamResult D)
  read_protocol_stream fuel line_fuel reader id budgets =
      read_frames fuel line_fuel (effective_depth codec (limit budgets.json_depth))
        (new_state id (limit budgets.protocol_output_count))
        (record {
          reader = reader;
          max_frame_bytes = limit budgets.protocol_frame_bytes;
          max_total_bytes = limit budgets.protocol_total_bytes;
          buffer = [];
          at_eof = false;
          bytes_received = 0;
        })
