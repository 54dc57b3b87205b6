-- ===== src/Runtime/Protocol/Acquire.antt =====
-- `_FrameAcquisition` of src/dr_exec/runtime/protocol.py: frames out of a stream of bytes.
use dr_exec.Prelude.{
  ℕ, zero, suc, ◌+◌, ◌-◌, ◌≤◌, ◌<◌, ◌≡◌, min, max, Bool, true, false, Option, none, some, List, [],
  ◌∷◌, ◌++◌, ◌==◌, is_empty, length, if◌then◌else◌,
}
use dr_exec.Core.Kinds.{ProtocolFailureCode, oversized_frame, unexpected_frame, incomplete_stream}
use dr_exec.Runtime.Protocol.Wire.{terminator}
use dr_exec.Runtime.Protocol.Accept.{exceeds}

-- A binary stream, as `IO[bytes]` documents it: `read` returns at least one byte and at most as many
-- as asked for, and nothing only at the end. `content` is what has not been read yet.
pub record ByteReader : Type 1 where
  pub Source : Type 0
  pub read : ℕ → Source → List ℕ × Source
  pub content : Source → List ℕ
  pub reads : (n : ℕ) (r : Source) → content r ≡ (read n r).0 ++ content (read n r).1
  pub reads_at_most : (n : ℕ) (r : Source) → length (read n r).0 ≤ n
  pub reads_nothing_at_end : (n : ℕ) (r : Source) → 0 < n → (read n r).0 ≡ [] → content r ≡ []

abbrev pub chunk_bytes : ℕ
chunk_bytes = 65536

-- The bytes before the first terminator and those after it: `find` and the two slices.
unfoldable pub split_line : List ℕ → Option (List ℕ × List ℕ)
split_line [] = none
split_line (b ∷ bs) =
    let rest = split_line bs in
    if b == terminator
    then some ([], bs)
    else elim rest [ none ↦ none | some (line, after) ↦ some (b ∷ line, after) ]

module _ (io : ByteReader) where
  open io use {Source, read}

  pub record Acquisition : Type 0 where
    pub reader : Source
    pub max_frame_bytes : Option ℕ
    pub max_total_bytes : Option ℕ
    pub buffer : List ℕ
    pub at_eof : Bool
    pub bytes_received : ℕ

  -- The size that a bound leaves room for, one more byte to notice that it is exceeded.
  abbrev room : Option ℕ → ℕ → ℕ → ℕ
  room none used size = size
  room (some bound) used size = min size (bound + 1 - used)

  -- `_read_size`. A difference that is negative in Python is 0 here, and both become 1.
  unfoldable pub read_size : Acquisition → ℕ
  read_size q = max 1 (
      room q.max_total_bytes q.bytes_received
        (room q.max_frame_bytes (length q.buffer) chunk_bytes))

  -- `_fill`, after the chunk was read: the code of the violation, and the state left behind.
  unfoldable pub filled : List ℕ × Source → Acquisition → Option ProtocolFailureCode × Acquisition
  filled (chunk, reader') q =
      if is_empty chunk
      then (none, record q { reader = reader'; at_eof = true })
      else if exceeds q.max_total_bytes (q.bytes_received + length chunk)
      then (
        some oversized_frame,
        record q { reader = reader'; bytes_received = q.bytes_received + length chunk },
      )
      else (
        none,
        record q {
          reader = reader';
          bytes_received = q.bytes_received + length chunk;
          buffer = q.buffer ++ chunk;
        },
      )

  unfoldable pub fill : Acquisition → Option ProtocolFailureCode × Acquisition
  fill q = filled (read (read_size q) q.reader) q

  -- What `next_frame` returns or raises. `starved` means that the fuel ran out.
  pub data Next : Type 0 where
    starved : Next
    violation : ProtocolFailureCode → Acquisition → Next
    frame : List ℕ → Acquisition → Next
    ended : Acquisition → Next

  -- `next_frame` when the buffer holds a terminator.
  unfoldable pub take_line : List ℕ → List ℕ → Acquisition → Next
  take_line line after q =
      if exceeds q.max_frame_bytes (length line)
      then violation oversized_frame (record q { buffer = after })
      else frame line (record q { buffer = after })

  -- `next_frame` at the end of the stream, without a terminator.
  unfoldable pub at_end : Bool → Acquisition → Next
  at_end after_completion q =
      if is_empty q.buffer
      then ended q
      else violation (if after_completion then unexpected_frame else incomplete_stream) q

  unfoldable pub next_frame : ℕ → Bool → Acquisition → Next
  next_frame zero after_completion q = starved
  next_frame (suc fuel) after_completion q = elim (split_line q.buffer) [
    | some (line, after) ↦ take_line line after q
    | none ↦ elim (exceeds q.max_frame_bytes (length q.buffer)) [
      | true ↦ violation oversized_frame q
      | false ↦ elim q.at_eof [
        | true ↦ at_end after_completion q
        | false ↦
            let (failure, q') = fill q in
            elim failure [
              | none ↦ next_frame fuel after_completion q'
              | some code ↦ violation code q'
            ]
      ]
    ]
  ]
