-- ===== src/Execution/Retention.antt =====
-- src/dr_exec/execution/retention.py: the bytes of one payload stream that are kept, a head and a
-- tail, and the two streams of a payload under one output budget. Bytes are numbers.
pub mod Window
pub mod Kept
mod Tests
use dr_exec.Prelude.{
  ℕ, zero, suc, ◌+◌, ◌-◌, Bool, false, Option, none, some, List, [], ◌∷◌, ◌++◌, ltb, is_empty,
  length, take, drop, if◌then◌else◌,
}
use dr_exec.Declarations.Budgets.{StreamRetentionBudget, OutputBudget, unbudgeted, finite}
use dr_exec.Recording.Streams.{RetainedPayloadStream, PayloadOutputs}

pub record StreamRetention : Type 0 where
  pub head_bytes : Option ℕ
  pub tail_bytes : Option ℕ
  pub head : List ℕ
  pub tail : List ℕ
  pub produced_bytes : ℕ
  pub dropped_bytes : ℕ

unfoldable pub stream_retention : Option StreamRetentionBudget → StreamRetention
stream_retention none = record {
  head_bytes = none;
  tail_bytes = none;
  head = [];
  tail = [];
  produced_bytes = 0;
  dropped_bytes = 0;
}
stream_retention (some b) = record {
  head_bytes = some b.head_bytes;
  tail_bytes = some b.tail_bytes;
  head = [];
  tail = [];
  produced_bytes = 0;
  dropped_bytes = 0;
}

-- `self.tail_bytes is None or self.tail_bytes == 0`, and the bound otherwise.
tail_bound : Option ℕ → Option ℕ
tail_bound none = none
tail_bound (some zero) = none
tail_bound (some (suc t)) = some (suc t)

-- The last lines of `offer`: the tail grows, and sheds what is over its bound.
shed : ℕ → StreamRetention → StreamRetention
shed bound s =
    let overflow : ℕ = length s.tail - bound in
    if ltb 0 overflow
    then record s { tail = drop overflow s.tail; dropped_bytes = s.dropped_bytes + overflow }
    else s

-- `offer` once the head has taken its part: `chunk` is what is left.
offer_tail : List ℕ → StreamRetention → StreamRetention
unfolding tail_bound
offer_tail chunk s = if is_empty chunk then s else elim (tail_bound s.tail_bytes) [
  | none ↦ record s { dropped_bytes = s.dropped_bytes + length chunk }
  | some bound ↦ shed bound (record s { tail = s.tail ++ chunk })
]

-- `offer` under a finite head. The difference is that of Python where it is positive, and the code
-- reads it only there.
offer_head : ℕ → List ℕ → StreamRetention → StreamRetention
offer_head head_bytes chunk s =
    let remaining_head : ℕ = head_bytes - length s.head in
    if ltb 0 remaining_head
    then offer_tail (drop remaining_head chunk)
        (record s { head = s.head ++ take remaining_head chunk })
    else offer_tail chunk s

pub offer : List ℕ → StreamRetention → StreamRetention
offer chunk s =
    let counted : StreamRetention = record s { produced_bytes = s.produced_bytes + length chunk } in
    elim s.head_bytes [
      | none ↦ record counted { head = s.head ++ chunk }
      | some head_bytes ↦ offer_head head_bytes chunk counted
    ]

unfoldable pub snapshot : StreamRetention → RetainedPayloadStream
snapshot s = record {
  head = s.head;
  tail = s.tail;
  produced_bytes = s.produced_bytes;
  dropped_bytes = s.dropped_bytes;
}

-- A reader thread offers the chunks of its pipe in order.
pub offer_all : List (List ℕ) → StreamRetention → StreamRetention
offer_all [] s = s
offer_all (c ∷ cs) s = offer_all cs (offer c s)

pub record PayloadRetention : Type 0 where
  pub stdout : StreamRetention
  pub stderr : StreamRetention
  pub max_total_bytes : Option ℕ

unfoldable pub for_budget : OutputBudget → PayloadRetention
for_budget (finite b) = record {
  stdout = stream_retention (some b.retention.stdout);
  stderr = stream_retention (some b.retention.stderr);
  max_total_bytes = some b.max_bytes;
}
for_budget unbudgeted = record {
  stdout = stream_retention none;
  stderr = stream_retention none;
  max_total_bytes = none;
}

unfoldable pub produced_bytes : PayloadRetention → ℕ
produced_bytes p = p.stdout.produced_bytes + p.stderr.produced_bytes

unfoldable pub overflowed : PayloadRetention → Bool
unfolding produced_bytes
overflowed p = elim p.max_total_bytes [
  | none ↦ false
  | some max_total ↦ ltb max_total (produced_bytes p)
]

unfoldable pub snapshot_payload : PayloadRetention → PayloadOutputs
unfolding snapshot
snapshot_payload p = record { stdout = snapshot p.stdout; stderr = snapshot p.stderr }
