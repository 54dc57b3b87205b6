-- ===== src/Execution/Retention/Kept.antt =====
-- What a consumer reads from the retention of src/dr_exec/execution/retention.py.
use dr_exec.Prelude.{
  ℕ, ◌+◌, ◌-◌, ◌≤◌, ◌<◌, ◌≡◌, ◌↔◌, true, Option, none, some, List, [], arith, length, length-take,
  length-drop, take, drop,
}
use dr_exec.Prelude.Results.{ok}
use dr_exec.Declarations.Budgets.{
  StreamRetentionBudget, FiniteOutput, finite, retention_must_match_max_bytes,
}
use dr_exec.Recording.Streams.{RetainedPayloadStream, validate_stream}
use dr_exec.Execution.Retention.{
  PayloadRetention, stream_retention, offer_all, snapshot, for_budget, overflowed, produced_bytes,
  snapshot_payload,
}
use dr_exec.Execution.Retention.Window.{joined, last, length-last, window, offer_all-window_lem}

-- The retained stream that a budget asks for: everything, or the first bytes, the last bytes of
-- what follows them, and the number of bytes between the two.
abbrev pub kept : Option StreamRetentionBudget → List ℕ → RetainedPayloadStream
kept none bytes = record {
  head = bytes;
  tail = [];
  produced_bytes = length bytes;
  dropped_bytes = 0;
}
kept (some b) bytes = record {
  head = take b.head_bytes bytes;
  tail = last b.tail_bytes (drop b.head_bytes bytes);
  produced_bytes = length bytes;
  dropped_bytes = length (drop b.head_bytes bytes) - b.tail_bytes;
}

snapshot-window :
    (budget : Option StreamRetentionBudget) (bytes : List ℕ)
    → snapshot (window budget bytes) ≡ kept budget bytes
unfolding snapshot window
snapshot-window none bytes = ground arith
snapshot-window (some b) bytes = ground arith

-- A stream keeps exactly its first `head_bytes` bytes and the last `tail_bytes` of the rest, and
-- counts what lies between, however the output was cut into chunks; without a budget it keeps all.
pub snapshot-offer_all :
    (budget : Option StreamRetentionBudget) (chunks : List (List ℕ))
    → snapshot (offer_all chunks (stream_retention budget)) ≡ kept budget (joined chunks)
snapshot-offer_all budget chunks =
    rw (offer_all-window_lem budget chunks) (snapshot-window budget (joined chunks))

kept_adds_up :
    (budget : Option StreamRetentionBudget) (bytes : List ℕ)
    → validate_stream (kept budget bytes) ≡ ok (kept budget bytes)
unfolding validate_stream
kept_adds_up none bytes = ground arith
kept_adds_up (some b) bytes = ground (
  arith,
  length-take b.head_bytes bytes,
  length-drop b.head_bytes bytes,
  length-last b.tail_bytes (drop b.head_bytes bytes),
)

-- A snapshot always passes the validator of `RetainedPayloadStream`, so building it never raises.
pub snapshot-validates :
    (budget : Option StreamRetentionBudget) (chunks : List (List ℕ))
    → let s = snapshot (offer_all chunks (stream_retention budget)) in validate_stream s ≡ ok s
snapshot-validates budget chunks =
    rw (snapshot-offer_all budget chunks) (kept_adds_up budget (joined chunks))

-- The retention of a payload that wrote `out` and `errors`.
abbrev pub after_output : FiniteOutput → List (List ℕ) → List (List ℕ) → PayloadRetention
after_output o out errors = record (for_budget (finite o)) {
  stdout = offer_all out (for_budget (finite o)).stdout;
  stderr = offer_all errors (for_budget (finite o)).stderr;
}

-- For a finite output budget that passes its validator: the payload overflows exactly when the two
-- streams together produced more than `max_bytes`; what is kept never exceeds `max_bytes`; and an
-- overflow is marked, since the two counts of dropped bytes make up at least the excess.
pub overflowed-after_output :
    (o : FiniteOutput) (out errors : List (List ℕ))
    → retention_must_match_max_bytes o ≡ ok o
    → let p = after_output o out errors in
      let s = snapshot_payload p in
      ((overflowed p ≡ true) ↔ (o.max_bytes < length (joined out) + length (joined errors)))
      × (length s.stdout.head + length s.stdout.tail + length s.stderr.head + length s.stderr.tail
          ≤ o.max_bytes)
      × (length (joined out) + length (joined errors)
          ≤ o.max_bytes + (s.stdout.dropped_bytes + s.stderr.dropped_bytes))
unfolding for_budget overflowed produced_bytes snapshot_payload retention_must_match_max_bytes
    window snapshot
overflowed-after_output o out errors valid =
    let a : StreamRetentionBudget = o.retention.stdout in
    let b : StreamRetentionBudget = o.retention.stderr in
    rw (offer_all-window_lem (some a) out, offer_all-window_lem (some b) errors)
      (ground (
        arith,
        length-take a.head_bytes (joined out),
        length-drop a.head_bytes (joined out),
        length-last a.tail_bytes (drop a.head_bytes (joined out)),
        length-take b.head_bytes (joined errors),
        length-drop b.head_bytes (joined errors),
        length-last b.tail_bytes (drop b.head_bytes (joined errors)),
      ))
