-- ===== src/Runtime/Protocol/Accept.antt =====
-- `_StreamState` of src/dr_exec/runtime/protocol.py: the order of frames that a stream may have.
use Prim.Native.String.{String}
use text.Mathlib.Text.{◌==◌ as str_eq}
use dr_exec.Prelude.{
  ℕ, suc, Bool, true, false, not, Option, none, some, List, [], ◌∷◌, ◌++◌, ltb, ◌==◌, length,
  if◌then◌else◌,
}
use dr_exec.Core.Kinds.{
  ProtocolFailureCode, oversized_frame, unexpected_frame, id_mismatch, duplicate_output,
  incomplete_stream,
}
use dr_exec.Runtime.Protocol.Wire.{ProtocolFrame, prelude, output, complete}

pub record StreamState (D : Type 0) : Type 0 where
  pub request_id_sha256 : String
  pub max_output_count : Option ℕ
  pub outputs : List D
  pub prelude_seen : Bool
  pub completed : Bool

-- The code of the violation that a method raises, and the state that it leaves behind.
abbrev pub Accepted : Type 0 → Type 0
Accepted D = Option ProtocolFailureCode × StreamState D

-- A count is over its bound, if there is one.
abbrev pub exceeds : Option ℕ → ℕ → Bool
exceeds none n = false
exceeds (some bound) n = ltb bound n

module _ {D : Type 0} where
  abbrev pub new_state : String → Option ℕ → StreamState D
  new_state id max_count = record {
    request_id_sha256 = id;
    max_output_count = max_count;
    outputs = [];
    prelude_seen = false;
    completed = false;
  }

  -- `_require_open`.
  unfoldable pub require_open : StreamState D → Option ProtocolFailureCode
  require_open s =
      if not s.prelude_seen
      then some unexpected_frame
      else if s.completed
      then some unexpected_frame
      else none

  -- The mark that the prelude was seen is set before the identity is compared.
  unfoldable pub accept_prelude : String → StreamState D → Accepted D
  accept_prelude id s = if s.prelude_seen then (some unexpected_frame, s) else (
    if str_eq id s.request_id_sha256 then none else some id_mismatch,
    record s { prelude_seen = true },
  )

  -- `_accept_output` on an open stream.
  unfoldable pub append_output : ℕ → D → StreamState D → Accepted D
  append_output sequence document s =
      if ltb sequence (length s.outputs)
      then (some duplicate_output, s)
      else if not (sequence == length s.outputs)
      then (some unexpected_frame, s)
      else if exceeds s.max_output_count (suc (length s.outputs))
      then (some oversized_frame, s)
      else (none, record s { outputs = s.outputs ++ document ∷ [] })

  -- `_accept_complete` on an open stream.
  unfoldable pub close_stream : ℕ → StreamState D → Accepted D
  close_stream output_count s =
      if not (output_count == length s.outputs)
      then (some incomplete_stream, s)
      else (none, record s { completed = true })

  abbrev pub if_open : Option ProtocolFailureCode → Accepted D → StreamState D → Accepted D
  if_open none next s = next
  if_open (some code) next s = (some code, s)

  unfoldable pub accept : ProtocolFrame D → StreamState D → Accepted D
  accept (prelude id) s = accept_prelude id s
  accept (output sequence document) s =
      if_open (require_open s) (append_output sequence document s) s
  accept (complete output_count) s = if_open (require_open s) (close_stream output_count s) s

  -- `finish`.
  unfoldable pub finish_stream : StreamState D → Option ProtocolFailureCode
  finish_stream s = if not s.completed then some incomplete_stream else none
