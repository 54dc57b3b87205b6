-- ===== src/Recording/Streams.antt =====
-- The retained payload streams of src/dr_exec/recording/models.py (lines 224 to 266).
use dr_exec.Prelude.{ℕ, ◌+◌, List, ◌==◌, length, if◌then◌else◌}
use dr_exec.Prelude.Results.{Result, ok, err}

pub data StreamError : Type 0 where
  retained_and_dropped_must_equal_produced : StreamError

pub record RetainedPayloadStream : Type 0 where
  pub head : List ℕ
  pub tail : List ℕ
  pub produced_bytes : ℕ
  pub dropped_bytes : ℕ

pub record PayloadOutputs : Type 0 where
  pub stdout : RetainedPayloadStream
  pub stderr : RetainedPayloadStream

-- The validator that pydantic runs on every constructed stream.
unfoldable pub validate_stream : RetainedPayloadStream → Result StreamError RetainedPayloadStream
validate_stream s =
    if length s.head + length s.tail + s.dropped_bytes == s.produced_bytes
    then ok s
    else err retained_and_dropped_must_equal_produced
