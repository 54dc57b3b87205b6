-- ===== src/Execution/Retention/Tests.antt =====
-- The retention of src/dr_exec/execution/retention.py at small budgets.
use dr_exec.Prelude.{ℕ, ◌+◌, ◌≤◌, ◌<◌, ◌≡◌, ◌↔◌, refl, true, some, List, [], ◌∷◌, length}
use dr_exec.Prelude.Results.{ok}
use dr_exec.Core.Kinds.{fail}
use dr_exec.Declarations.Budgets.{
  StreamRetentionBudget, FiniteOutput, retention_must_match_max_bytes,
}
use dr_exec.Recording.Streams.{validate_stream}
use dr_exec.Execution.Retention.{
  stream_retention, tail_bound, shed, offer_tail, offer_head, offer, offer_all, snapshot,
  overflowed, snapshot_payload,
}
use dr_exec.Execution.Retention.Window.{joined}
use dr_exec.Execution.Retention.Kept.{
  kept, snapshot-offer_all, snapshot-validates, after_output, overflowed-after_output,
}

abbrev two_and_one : StreamRetentionBudget
two_and_one = record { head_bytes = 2; tail_bytes = 1 }

abbrev chunks : List (List ℕ)
chunks = (1 ∷ []) ∷ (2 ∷ 3 ∷ 4 ∷ []) ∷ [] ∷ (5 ∷ []) ∷ []

abbrev five_bytes : FiniteOutput
five_bytes = record {
  max_bytes = 5;
  overflow_policy = fail;
  retention = record { stdout = two_and_one; stderr = record { head_bytes = 2; tail_bytes = 0 } };
}

retention_runs :
    snapshot (offer_all chunks (stream_retention (some two_and_one)))
    ≡ record { head = 1 ∷ 2 ∷ []; tail = 5 ∷ []; produced_bytes = 5; dropped_bytes = 2 }
unfolding offer_all offer offer_head offer_tail shed tail_bound stream_retention snapshot
retention_runs = refl

snapshot-offer_all_example :
    snapshot (offer_all chunks (stream_retention (some two_and_one)))
    ≡ kept (some two_and_one) (joined chunks)
snapshot-offer_all_example = snapshot-offer_all (some two_and_one) chunks

snapshot-validates_example :
    let s = snapshot (offer_all chunks (stream_retention (some two_and_one))) in
    validate_stream s ≡ ok s
snapshot-validates_example = snapshot-validates (some two_and_one) chunks

overflowed-after_output_example :
    let p = after_output five_bytes chunks [] in
    let s = snapshot_payload p in
    ((overflowed p ≡ true) ↔ (5 < length (joined chunks) + 0))
    × (length s.stdout.head + length s.stdout.tail + length s.stderr.head + length s.stderr.tail
        ≤ 5)
    × (length (joined chunks) + 0 ≤ 5 + (s.stdout.dropped_bytes + s.stderr.dropped_bytes))
unfolding retention_must_match_max_bytes joined
overflowed-after_output_example = overflowed-after_output five_bytes chunks [] refl
