-- ===== src/Runtime/Protocol/Transcript.antt =====
-- Which sequences of frames `_StreamState` of src/dr_exec/runtime/protocol.py accepts as complete.
use Prim.Native.String.{String}
use text.Mathlib.Text.{◌==◌ as str_eq}
use dr_exec.Prelude.{
  ℕ, suc, ◌≡◌, ◌↔◌, refl, sym, ap, ◌∙◌, inl, inr, Bool-cases, true, false, Option, none, some, List,
  [], ◌∷◌, ◌++◌, arith, length, length-append, length-snoc, subst, drop, append_assoc, append-nil,
}
use dr_exec.Runtime.Protocol.Wire.{ProtocolFrame, prelude, output, complete}
use dr_exec.Runtime.Protocol.Accept.{
  StreamState, exceeds, new_state, require_open, accept_prelude, accept, finish_stream,
}
use dr_exec.Runtime.Protocol.Refill.{within, true_not_false}
use dr_exec.Runtime.Protocol.Feed.{
  feed, IsOpen, grown, finished, accept-output, accept-complete, output_cases, complete_cases,
  refused-feed, feed-next, grown-IsOpen, finished-feed,
}

module _ {D : Type 0} where
  -- The outputs from a number on, and the completion.
  abbrev pub numbered : ℕ → List D → List (ProtocolFrame D)
  numbered n [] = complete n ∷ []
  numbered n (d ∷ ds) = output n d ∷ numbered (suc n) ds

  -- The frames are the rest of a transcript with the documents `docs`.
  abbrev Continues : StreamState D → List (ProtocolFrame D) → List D → Type 0
  Continues s fs docs =
      (fs ≡ numbered (length s.outputs) docs)
      × ((exceeds s.max_output_count (length (s.outputs ++ docs)) ≡ false)
          × ((feed fs s).1.outputs ≡ s.outputs ++ docs))

  more_frames :
      (d : D) (docs : List D) {n k m : ℕ} {fs : List (ProtocolFrame D)}
      → n ≡ k
      → fs ≡ numbered m docs
      → m ≡ suc k
      → output n d ∷ fs ≡ numbered k (d ∷ docs)
  more_frames d docs e f g = rw (e, f, g) refl

  last_frame :
      {n k : ℕ} {fs : List (ProtocolFrame D)} → n ≡ k → fs ≡ [] → complete n ∷ fs ≡ numbered k []
  last_frame e f = rw (e, f) refl

  feed-Continues :
      (fs : List (ProtocolFrame D)) (s : StreamState D)
      → IsOpen s
      → (feed fs s).0 ≡ none
      → (docs : List D) × Continues s fs docs
  unfolding finish_stream feed accept accept_prelude
  feed-Continues [] s v h = ground arith
  feed-Continues (prelude id ∷ fs) s v h = ground arith
  feed-Continues (output n d ∷ fs) s v h = elim (output_cases n d s v) [
    | inr refused ↦ absurd (refused-feed (output n d) fs s refused h)
    | inl (e, few) ↦
        let step : feed (output n d ∷ fs) s ≡ feed fs (grown s d) =
          rw e
            (feed-next (output (length s.outputs) d) fs s (grown s d) (accept-output d s v few)) in
        let (docs, (frames, (bound, outs))) =
          feed-Continues fs (grown s d) (grown-IsOpen d s v few) (ap (λ a. a.0) (sym step) ∙ h) in
        (
          d ∷ docs,
          (
            more_frames d docs e frames (length-snoc s.outputs d),
            (
              rw (sym (append_assoc s.outputs (d ∷ []) docs)) bound,
              ap (λ a. a.1.outputs) step ∙ (outs ∙ append_assoc s.outputs (d ∷ []) docs),
            ),
          ),
        )
  ]
  feed-Continues (complete n ∷ fs) s v h = elim (complete_cases n s v) [
    | inr refused ↦ absurd (refused-feed (complete n) fs s refused h)
    | inl e ↦
        let step : feed (complete n ∷ fs) s ≡ feed fs (finished s) =
          rw e (feed-next (complete (length s.outputs)) fs s (finished s) (accept-complete s v)) in
        let nothing = finished-feed fs s v (ap (λ a. a.0) (sym step) ∙ h) in
        (
          [],
          (
            last_frame e nothing,
            (
              rw (append-nil s.outputs) v.few,
              ap (λ a. a.1.outputs) step
                  ∙ (ap (λ l. (feed l (finished s)).1.outputs) nothing
                      ∙ sym (append-nil s.outputs)),
            ),
          ),
        )
  ]

  feed-numbered :
      (docs : List D) (s : StreamState D)
      → IsOpen s
      → exceeds s.max_output_count (length (s.outputs ++ docs)) ≡ false
      → (feed (numbered (length s.outputs) docs) s).0 ≡ none
  unfolding finish_stream feed
  feed-numbered [] s v bound =
      ap (λ a. a.0)
        (feed-next (complete (length s.outputs)) [] s (finished s) (accept-complete s v))
  feed-numbered (d ∷ ds) s v bound =
      let few =
        within s.max_output_count (suc (length s.outputs)) (length (s.outputs ++ d ∷ ds))
          (omega (arith, length-append s.outputs (d ∷ ds))) bound in
      let rest =
        feed-numbered ds (grown s d) (grown-IsOpen d s v few)
          (rw (append_assoc s.outputs (d ∷ []) ds) bound) in
      ap (λ a. a.0)
        (feed-next (output (length s.outputs) d) (numbered (suc (length s.outputs)) ds) s
          (grown s d) (accept-output d s v few))
      ∙ subst (λ n. (feed (numbered n ds) (grown s d)).0 ≡ none) (length-snoc s.outputs d) rest

  greeted : String → Option ℕ → StreamState D
  greeted id bound = record (new_state id bound) { prelude_seen = true }

  greeted-IsOpen : (id : String) (bound : Option ℕ) → IsOpen (greeted id bound)
  unfolding greeted
  greeted-IsOpen id none = record { seen = refl; not_done = refl; few = refl }
  greeted-IsOpen id (some n) = record { seen = refl; not_done = refl; few = ground arith }

  first_name : List (ProtocolFrame D) → String
  first_name (prelude name ∷ fs) = name
  first_name _ = ""

  same_prelude :
      {a b : String} {xs ys : List (ProtocolFrame D)}
      → prelude a ∷ xs ≡ prelude b ∷ ys
      → (a ≡ b) × (xs ≡ ys)
  unfolding first_name
  same_prelude e = (ap first_name e, ap (drop 1) e)

  -- A stream of frames is accepted to its end exactly if it is a prelude that names the request, the
  -- outputs numbered from 0 without a gap and a completion with their number, which is within the
  -- bound; and the documents are then the outputs.
  pub feed_iff :
      (frames : List (ProtocolFrame D)) (id : String) (bound : Option ℕ)
      → ((feed frames (new_state id bound)).0 ≡ none) ↔ (
          (docs : List D) × ((name : String) × ((frames ≡ prelude name ∷ numbered 0 docs)
              × ((str_eq name id ≡ true)
                  × ((exceeds bound (length docs) ≡ false)
                      × ((feed frames (new_state id bound)).1.outputs ≡ docs))))))
  unfolding finish_stream feed accept accept_prelude require_open greeted
  feed_iff [] id bound =
      ((λ h. absurd (ground arith)), λ x. let frames = x.1.1.0 in absurd (ground arith))
  feed_iff (output n d ∷ fs) id bound =
      ((λ h. absurd (ground arith)), λ x. let frames = x.1.1.0 in absurd (ground arith))
  feed_iff (complete n ∷ fs) id bound =
      ((λ h. absurd (ground arith)), λ x. let frames = x.1.1.0 in absurd (ground arith))
  feed_iff (prelude name ∷ fs) id bound = elim (Bool-cases (str_eq name id)) [
    | inr e ↦ (
      (λ h. absurd (refused-feed (prelude name) fs (new_state id bound) (λ k. ground arith) h)),
      λ x. absurd (
          true_not_false
            (sym x.1.1.1.0 ∙ (ap (λ a. str_eq a id) (sym (same_prelude x.1.1.0).0) ∙ e))),
    )
    | inl e ↦
        let step : feed (prelude name ∷ fs) (new_state id bound) ≡ feed fs (greeted id bound) =
          feed-next (prelude name) fs (new_state id bound) (greeted id bound) (rw e refl) in
        let v = greeted-IsOpen id bound in
        (
          (λ h.
              let (docs, (frames, (few, outs))) =
                feed-Continues fs (greeted id bound) v (ap (λ a. a.0) (sym step) ∙ h) in
              (
                docs,
                (
                  name,
                  (
                    ap (λ l. prelude name ∷ l) frames,
                    (e, (few, ap (λ a. a.1.outputs) step ∙ outs)),
                  ),
                ),
              )),
          λ x.
              ap (λ a. a.0) step
              ∙ (ap (λ l. (feed l (greeted id bound)).0) (same_prelude x.1.1.0).1
                  ∙ feed-numbered x.0 (greeted id bound) v x.1.1.1.1.0),
        )
  ]
