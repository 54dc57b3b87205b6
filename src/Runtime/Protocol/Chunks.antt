-- ===== src/Runtime/Protocol/Chunks.antt =====
-- What `next_frame` of src/dr_exec/runtime/protocol.py returns, whatever the chunks that it read.
use dr_exec.Prelude.{
  ℕ, zero, suc, ◌≤◌, ◌<◌, ◌≡◌, refl, ap, ◌∙◌, subst, inl, inr, Option-cases, Bool-cases, Bool, true,
  false, Option, none, some, List, [], ◌++◌, arith, is_empty, nil_of_empty, length, length-append,
  append-nil, if_cases, if◌then◌else◌,
}
use dr_exec.Core.Kinds.{oversized_frame, unexpected_frame, incomplete_stream}
use dr_exec.Runtime.Protocol.Accept.{exceeds}
use dr_exec.Runtime.Protocol.Acquire.{
  ByteReader, Acquisition, Next, violation, frame, ended, next_frame, split_line, take_line, at_end,
  fill,
}
use dr_exec.Runtime.Protocol.Lines.{split_line-append, split_line-longer}
use dr_exec.Runtime.Protocol.Refill.{within, unused, Sane, rounds, fill-Refilled}

exceeds_mono :
    (bound : Option ℕ) (m n : ℕ) → m ≤ n → exceeds bound m ≡ true → exceeds bound n ≡ true
exceeds_mono none m n h e = e
exceeds_mono (some bound) m n h e = ground arith

module _ (io : ByteReader) where
  -- What the outcome has to be when `bytes` are unused and `bound` is the budget of a frame.
  pub data Fair (after_completion : Bool) (bound : Option ℕ) (bytes : List ℕ)
      : Next io → Type 0 where
    fair_line :
        (line : List ℕ) (q : Acquisition io)
        → split_line bytes ≡ some (line, unused io q)
        → exceeds bound (length line) ≡ false
        → q.max_frame_bytes ≡ bound
        → Sane io q
        → Fair after_completion bound bytes (frame line q)
    long_line :
        (line after : List ℕ) (q : Acquisition io)
        → split_line bytes ≡ some (line, after)
        → exceeds bound (length line) ≡ true
        → Fair after_completion bound bytes (violation oversized_frame q)
    long_rest :
        (q : Acquisition io)
        → split_line bytes ≡ none
        → exceeds bound (length bytes) ≡ true
        → Fair after_completion bound bytes (violation oversized_frame q)
    no_rest :
        (q : Acquisition io)
        → bytes ≡ []
        → exceeds bound 0 ≡ false
        → Fair after_completion bound bytes (ended q)
    some_rest :
        (q : Acquisition io)
        → split_line bytes ≡ none
        → exceeds bound (length bytes) ≡ false
        → is_empty bytes ≡ false
        → Fair after_completion bound bytes
            (violation (if after_completion then unexpected_frame else incomplete_stream) q)

  take_line-Fair :
      (ac : Bool) (q : Acquisition io) (line after : List ℕ)
      → Sane io q
      → split_line q.buffer ≡ some (line, after)
      → Fair ac q.max_frame_bytes (unused io q) (take_line io line after q)
  unfolding take_line
  take_line-Fair ac q line after v e =
      let whole = split_line-append q.buffer (io.content q.reader) e in
      if_cases (Fair ac q.max_frame_bytes (unused io q)) (exceeds q.max_frame_bytes (length line))
        (λ x. long_line line (after ++ io.content q.reader) (record q { buffer = after }) whole x)
        (λ x.
          fair_line line (record q { buffer = after }) whole x refl
            (record { finished = v.finished; fits = v.fits }))

  long_buffer-Fair :
      (ac : Bool) (q : Acquisition io)
      → split_line q.buffer ≡ none
      → exceeds q.max_frame_bytes (length q.buffer) ≡ true
      → Fair ac q.max_frame_bytes (unused io q) (violation oversized_frame q)
  long_buffer-Fair ac q e x = elim (Option-cases (split_line (unused io q))) [
    | inl none_at_all ↦ long_rest q none_at_all (
        exceeds_mono q.max_frame_bytes (length q.buffer) (length (unused io q))
          (omega (arith, length-append q.buffer (io.content q.reader))) x)
    | inr ((line, after), found) ↦ long_line line after q found (
        exceeds_mono q.max_frame_bytes (length q.buffer) (length line)
          (split_line-longer q.buffer (io.content q.reader) e found) x)
  ]

  at_end-Fair :
      (ac : Bool) (q : Acquisition io)
      → split_line q.buffer ≡ none
      → exceeds q.max_frame_bytes (length q.buffer) ≡ false
      → io.content q.reader ≡ []
      → Fair ac q.max_frame_bytes (unused io q) (at_end io ac q)
  unfolding at_end
  at_end-Fair ac q e x nothing =
      let all_buffered : unused io q ≡ q.buffer =
        ap (λ c. q.buffer ++ c) nothing ∙ append-nil q.buffer in
      rw all_buffered (
        if_cases (Fair ac q.max_frame_bytes q.buffer) (is_empty q.buffer)
          (λ empty.
            no_rest q (nil_of_empty q.buffer empty)
              (within q.max_frame_bytes 0 (length q.buffer) (omega arith) x))
          (λ full. some_rest q e x full))

  pub next_frame-Fair :
      (fuel : ℕ) (ac : Bool) (q : Acquisition io)
      → Sane io q
      → rounds io q < fuel
      → Fair ac q.max_frame_bytes (unused io q) (next_frame io fuel ac q)
  unfolding next_frame
  next_frame-Fair zero ac q v enough = absurd (omega arith)
  next_frame-Fair (suc fuel) ac q v enough = elim (Option-cases (split_line q.buffer)) [
    | inr ((line, after), e) ↦ rw (next_frame, e) (take_line-Fair ac q line after v e)
    | inl e ↦ elim (Bool-cases (exceeds q.max_frame_bytes (length q.buffer))) [
      | inl x ↦ rw (next_frame, e, x) (long_buffer-Fair ac q e x)
      | inr x ↦ elim (Bool-cases q.at_eof) [
        | inl at ↦ rw (next_frame, e, x, at) (at_end-Fair ac q e x (v.finished at))
        | inr at ↦
            let (filled_it, r) = fill-Refilled io q v at in
            let q' = (fill io q).1 in
            let n = next_frame io fuel ac q' in
            let closer = r.closer in
            rw (next_frame, e, x, at, filled_it)
              (subst (λ b. Fair ac b (unused io q) n) r.same_bound
                (subst (λ w. Fair ac q'.max_frame_bytes w n) r.same_bytes
                  (next_frame-Fair fuel ac q' r.sane (omega arith))))
      ]
    ]
  ]
