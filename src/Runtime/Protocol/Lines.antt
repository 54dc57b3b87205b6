-- ===== src/Runtime/Protocol/Lines.antt =====
-- The lines of a whole stream, and what the reader of src/dr_exec/runtime/protocol.py should make of
-- them, whatever the chunks that it read.
use dr_exec.Prelude.{
  ℕ, ◌≤◌, ◌<◌, ◌≡◌, refl, inl, inr, Option-cases, Bool-cases, true, false, Option, none, some, List,
  [], ◌∷◌, ◌++◌, ◌==◌, arith, is_empty, length, if◌then◌else◌,
}
use dr_exec.Core.Kinds.{ProtocolFailureCode, oversized_frame, unexpected_frame, incomplete_stream}
use dr_exec.Runtime.Protocol.Wire.{terminator}
use dr_exec.Runtime.Protocol.Decode.{Codec}
use dr_exec.Runtime.Protocol.Accept.{StreamState, Accepted, exceeds, finish_stream}
use dr_exec.Runtime.Protocol.Acquire.{split_line}
use dr_exec.Runtime.Protocol.Stream.{accept_bytes}

-- The terminated lines of a stream, and the bytes after the last terminator.
pub record Lines : Type 0 where
  pub whole : List (List ℕ)
  pub rest : List ℕ

add_byte : ℕ → Lines → Lines
add_byte b ls = elim ls.whole [
  | [] ↦ record ls { rest = b ∷ ls.rest }
  | l ∷ more ↦ record ls { whole = (b ∷ l) ∷ more }
]

unfoldable pub lines : List ℕ → Lines
unfolding add_byte
lines [] = record { whole = []; rest = [] }
lines (b ∷ bs) =
    let ls = lines bs in
    if b == terminator then record ls { whole = [] ∷ ls.whole } else add_byte b ls

module _ {D : Type 0} (codec : Codec D) (max_frame : Option ℕ) (max_depth : ℕ) where
  -- The verdict on what follows the last terminator.
  unfoldable pub judge_rest : List ℕ → StreamState D → Option ProtocolFailureCode
  judge_rest rest s =
      if exceeds max_frame (length rest)
      then some oversized_frame
      else if is_empty rest
      then finish_stream s
      else some (if s.completed then unexpected_frame else incomplete_stream)

  -- Each line is bounded, decoded and accepted in turn; the first violation ends the stream.
  unfoldable pub judge : List (List ℕ) → List ℕ → StreamState D → Accepted D
  judge [] rest s = (judge_rest rest s, s)
  judge (l ∷ ls) rest s = elim (exceeds max_frame (length l)) [
    | true ↦ (some oversized_frame, s)
    | false ↦
        let (failure, s') = accept_bytes codec max_depth l s in
        elim failure [ some code ↦ (some code, s') | none ↦ judge ls rest s' ]
  ]

pub lines-split_line :
    (bytes : List ℕ) {line after : List ℕ}
    → split_line bytes ≡ some (line, after)
    → lines bytes ≡ record { whole = line ∷ (lines after).whole; rest = (lines after).rest }
unfolding lines add_byte split_line
lines-split_line [] h = cc
lines-split_line (b ∷ bs) {line} {after} h = elim (Bool-cases (b == terminator)) [
  | inl e ↦ ground arith
  | inr e ↦ elim (Option-cases (split_line bs)) [
    | inl k ↦ ground arith
    | inr ((l, a), k) ↦ let ih = lines-split_line bs k in ground arith
  ]
]

pub lines-no_line :
    (bytes : List ℕ) → split_line bytes ≡ none → lines bytes ≡ record { whole = []; rest = bytes }
unfolding lines add_byte split_line
lines-no_line [] h = refl
lines-no_line (b ∷ bs) h = elim (Bool-cases (b == terminator)) [
  | inl e ↦ ground arith
  | inr e ↦ elim (Option-cases (split_line bs)) [
    | inl k ↦ let ih = lines-no_line bs k in ground arith
    | inr ((l, a), k) ↦ ground arith
  ]
]

-- A line that is found stays the first one, whatever follows.
pub split_line-append :
    (bytes more : List ℕ) {line after : List ℕ}
    → split_line bytes ≡ some (line, after)
    → split_line (bytes ++ more) ≡ some (line, after ++ more)
unfolding split_line
split_line-append [] more h = cc
split_line-append (b ∷ bs) more {line} {after} h = elim (Bool-cases (b == terminator)) [
  | inl e ↦ ground arith
  | inr e ↦ elim (Option-cases (split_line bs)) [
    | inl k ↦ ground arith
    | inr ((l, a), k) ↦ let ih = split_line-append bs more k in ground arith
  ]
]

-- Bytes with no terminator are the start of the first line, if there is one.
pub split_line-longer :
    (bytes more : List ℕ) {line after : List ℕ}
    → split_line bytes ≡ none
    → split_line (bytes ++ more) ≡ some (line, after)
    → length bytes ≤ length line
unfolding split_line
split_line-longer [] more h k = omega arith
split_line-longer (b ∷ bs) more {line} {after} h k = elim (Bool-cases (b == terminator)) [
  | inl e ↦ ground arith
  | inr e ↦ elim (Option-cases (split_line bs)) [
    | inr ((l, a), f) ↦ ground arith
    | inl f ↦ elim (Option-cases (split_line (bs ++ more))) [
      | inl g ↦ ground arith
      | inr ((l, a), g) ↦ let ih = split_line-longer bs more f g in ground arith
    ]
  ]
]

pub split_line-shorter :
    (bytes : List ℕ) {line after : List ℕ}
    → split_line bytes ≡ some (line, after)
    → length after < length bytes
unfolding split_line
split_line-shorter [] h = cc
split_line-shorter (b ∷ bs) {line} {after} h = elim (Bool-cases (b == terminator)) [
  | inl e ↦ ground arith
  | inr e ↦ elim (Option-cases (split_line bs)) [
    | inl k ↦ ground arith
    | inr ((l, a), k) ↦ let ih = split_line-shorter bs k in ground arith
  ]
]
