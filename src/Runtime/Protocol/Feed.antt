-- ===== src/Runtime/Protocol/Feed.antt =====
-- A sequence of frames through `_StreamState` of src/dr_exec/runtime/protocol.py.
use dr_exec.Prelude.{
  ℕ, suc, ◌≡◌, ◌≢◌, ◌⊎◌, refl, ap, true, false, none, some, List, [], ◌∷◌, ◌++◌, arith, ltb, ==_iff,
  length, length-snoc,
}
use dr_exec.Runtime.Protocol.Wire.{ProtocolFrame, prelude, output, complete}
use dr_exec.Runtime.Protocol.Accept.{
  StreamState, Accepted, exceeds, require_open, accept_prelude, append_output, close_stream, accept,
  finish_stream,
}

module _ {D : Type 0} where
  -- Frames are accepted one after the other, up to the first violation or the end of the stream.
  unfoldable pub feed : List (ProtocolFrame D) → StreamState D → Accepted D
  feed [] s = (finish_stream s, s)
  feed (f ∷ fs) s =
      let (failure, s') = accept f s in
      let rest = feed fs s' in elim failure [ some code ↦ (some code, s') | none ↦ rest ]

  -- A stream after its prelude and before its completion.
  pub record IsOpen (s : StreamState D) : Type 0 where
    pub seen : s.prelude_seen ≡ true
    pub not_done : s.completed ≡ false
    pub few : exceeds s.max_output_count (length s.outputs) ≡ false

  closed-feed :
      (f : ProtocolFrame D) (fs : List (ProtocolFrame D)) (s : StreamState D)
      → s.prelude_seen ≡ true
      → s.completed ≡ true
      → (feed (f ∷ fs) s).0 ≢ none
  unfolding feed accept accept_prelude require_open
  closed-feed (prelude id) fs s seen done h = ground arith
  closed-feed (output n d) fs s seen done h = ground arith
  closed-feed (complete n) fs s seen done h = ground arith

  abbrev pub grown : StreamState D → D → StreamState D
  grown s d = record s { outputs = s.outputs ++ d ∷ [] }

  abbrev pub finished : StreamState D → StreamState D
  finished s = record s { completed = true }

  pub accept-output :
      (d : D) (s : StreamState D)
      → IsOpen s
      → exceeds s.max_output_count (suc (length s.outputs)) ≡ false
      → accept (output (length s.outputs) d) s ≡ (none, grown s d)
  unfolding accept require_open append_output
  accept-output d s v few =
      let same = (==_iff (length s.outputs) (length s.outputs)).1 refl in
      let not_less : ltb (length s.outputs) (length s.outputs) ≡ false = ground arith in
      rw (v.seen, v.not_done, not_less, same, few) refl

  pub accept-complete :
      (s : StreamState D) → IsOpen s → accept (complete (length s.outputs)) s ≡ (none, finished s)
  unfolding accept require_open close_stream
  accept-complete s v =
      let same = (==_iff (length s.outputs) (length s.outputs)).1 refl in
      rw (v.seen, v.not_done, same) refl

  pub output_cases :
      (n : ℕ) (d : D) (s : StreamState D)
      → IsOpen s
      → ((n ≡ length s.outputs) × (exceeds s.max_output_count (suc (length s.outputs)) ≡ false))
        ⊎ ((accept (output n d) s).0 ≢ none)
  unfolding accept require_open append_output
  output_cases n d s v = ground arith

  pub complete_cases :
      (n : ℕ) (s : StreamState D)
      → IsOpen s
      → (n ≡ length s.outputs) ⊎ ((accept (complete n) s).0 ≢ none)
  unfolding accept require_open close_stream
  complete_cases n s v = ground arith

  pub refused-feed :
      (f : ProtocolFrame D) (fs : List (ProtocolFrame D)) (s : StreamState D)
      → (accept f s).0 ≢ none
      → (feed (f ∷ fs) s).0 ≢ none
  unfolding feed
  refused-feed f fs s refused h = ground arith

  pub feed-next :
      (f : ProtocolFrame D) (fs : List (ProtocolFrame D)) (s s' : StreamState D)
      → accept f s ≡ (none, s')
      → feed (f ∷ fs) s ≡ feed fs s'
  unfolding feed
  feed-next f fs s s' e = ap (λ p. elim p.0 [ some code ↦ (some code, p.1) | none ↦ feed fs p.1 ]) e

  pub grown-IsOpen :
      (d : D) (s : StreamState D)
      → IsOpen s
      → exceeds s.max_output_count (suc (length s.outputs)) ≡ false
      → IsOpen (grown s d)
  grown-IsOpen d s v few = record {
    seen = v.seen;
    not_done = v.not_done;
    few = rw (length-snoc s.outputs d) few;
  }

  pub finished-feed :
      (fs : List (ProtocolFrame D)) (s : StreamState D)
      → IsOpen s
      → (feed fs (finished s)).0 ≡ none
      → fs ≡ []
  finished-feed [] s v h = refl
  finished-feed (f ∷ fs) s v h = absurd (closed-feed f fs (finished s) v.seen refl h)
