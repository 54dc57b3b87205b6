-- ===== src/Runtime/Protocol/Decode.antt =====
-- `decode_frame` and `_effective_depth` of src/dr_exec/runtime/protocol.py, and
-- `require_canonical_json_bytes` of src/dr_exec/core/model.py.
use dr_exec.Prelude.{ℕ, min, Bool, true, false, Option, none, some, List, length, if◌then◌else◌}
use dr_exec.Prelude.Results.{Result, ok, err, ◌>>◌}
use dr_exec.Core.Kinds.{ProtocolFailureCode, malformed_frame, oversized_frame}
use dr_exec.Runtime.Protocol.Wire.{ProtocolFrame}

-- What `decode_strict_json_bytes` of dr_serialize returns or raises.
pub data Strict (V : Type 0) : Type 0 where
  decoded : V → Strict V
  depth_limit : Strict V
  strict_error : Strict V

-- The errors of `require_canonical_json_bytes`.
pub data CanonicalError : Type 0 where
  depth_exceeded not_strict not_canonical : CanonicalError

-- What the code takes from dr_serialize and pydantic: the strict decoder, under its bounds of bytes
-- and of depth; the canonical encoder; the equality of byte strings; and the validation of a frame,
-- with the answer whether its version was spelled out.
pub record Codec (D : Type 0) : Type 1 where
  pub Value : Type 0
  pub decode_strict : List ℕ → ℕ → ℕ → Strict Value
  pub canonical : Value → List ℕ
  pub same_bytes : List ℕ → List ℕ → Bool
  pub validate_frame : List ℕ → Option (ProtocolFrame D × Bool)
  -- CANONICAL_JSON_MAX_CONTAINER_DEPTH
  pub depth_ceiling : ℕ

module _ {D : Type 0} (codec : Codec D) where
  open codec use {Value, decode_strict, canonical, same_bytes, validate_frame, depth_ceiling}

  require_decoded : List ℕ → Strict Value → Result CanonicalError (Unit {0})
  require_decoded bytes (decoded v) =
      if same_bytes (canonical v) bytes then ok tt else err not_canonical
  require_decoded bytes depth_limit = err depth_exceeded
  require_decoded bytes strict_error = err not_strict

  unfoldable pub require_canonical_json_bytes : List ℕ → ℕ → ℕ → Result CanonicalError (Unit {0})
  unfolding require_decoded
  require_canonical_json_bytes bytes max_bytes max_depth =
      require_decoded bytes (decode_strict bytes max_bytes max_depth)

  -- The `except` clauses of `decode_frame`.
  violation_code : CanonicalError → ProtocolFailureCode
  violation_code depth_exceeded = oversized_frame
  violation_code not_strict = malformed_frame
  violation_code not_canonical = malformed_frame

  recode : Result CanonicalError (Unit {0}) → Result ProtocolFailureCode (Unit {0})
  unfolding violation_code
  recode (ok u) = ok u
  recode (err e) = err (violation_code e)

  explicit_version : Option (ProtocolFrame D × Bool) → Result ProtocolFailureCode (ProtocolFrame D)
  explicit_version none = err malformed_frame
  explicit_version (some (frame, true)) = ok frame
  explicit_version (some (frame, false)) = err malformed_frame

  unfoldable pub decode_frame : List ℕ → ℕ → Result ProtocolFailureCode (ProtocolFrame D)
  unfolding recode explicit_version
  decode_frame bytes max_depth = do
    recode (require_canonical_json_bytes bytes (length bytes) max_depth)
    explicit_version (validate_frame bytes)

  unfoldable pub effective_depth : Option ℕ → ℕ
  effective_depth none = depth_ceiling
  effective_depth (some max_depth) = min max_depth depth_ceiling
