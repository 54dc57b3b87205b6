-- ===== src/Runtime/Protocol/Wire.antt =====
-- The frames of src/dr_exec/runtime/wire.py. Identity documents, of dr_serialize, are a type D.
use Prim.Native.String.{String}
use dr_exec.Prelude.{ℕ}
use dr_exec.Core.Kinds.{ProtocolFailureCode}

-- The byte of `PROTOCOL_FRAME_TERMINATOR`.
abbrev pub terminator : ℕ
terminator = b'\n'

pub data ProtocolFrame (D : Type 0) : Type 0 where
  prelude : String → ProtocolFrame D
  output : ℕ → D → ProtocolFrame D
  complete : ℕ → ProtocolFrame D

-- A `ProtocolViolation` or a `ProtocolFailure`, without the text of its detail.
pub record ProtocolFailure : Type 0 where
  pub code : ProtocolFailureCode
