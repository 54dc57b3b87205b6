-- ===== src/Runtime/Protocol/Refill.antt =====
-- What `_fill` of src/dr_exec/runtime/protocol.py leaves behind: the same bytes, one round closer to the end.
use dr_exec.Prelude.{
  ℕ, ◌+◌, ◌≤◌, ◌<◌, ◌≡◌, refl, sym, ap, ◌∙◌, subst, inl, inr, Bool-cases, true, false, Option, none,
  some, List, [], ◌∷◌, ◌++◌, arith, is_empty, nil_of_empty, length, length-append, if_cases,
  append_assoc, if◌then◌else◌,
}
use dr_exec.Core.Kinds.{ProtocolFailureCode}
use dr_exec.Runtime.Protocol.Accept.{exceeds}
use dr_exec.Runtime.Protocol.Acquire.{ByteReader, Acquisition, fill, filled, read_size}

pub within :
    (bound : Option ℕ) (m n : ℕ) → m ≤ n → exceeds bound n ≡ false → exceeds bound m ≡ false
within none m n h e = refl
within (some bound) m n h e = ground arith

pub true_not_false : true ≡ false → ⊥
true_not_false h = cc

is_empty-length : (xs : List ℕ) → is_empty xs ≡ false → 0 < length xs
is_empty-length [] h = absurd (true_not_false h)
is_empty-length (x ∷ xs) h = omega arith

module _ (io : ByteReader) where
  -- The bytes of the stream that no frame has used yet.
  abbrev pub unused : Acquisition io → List ℕ
  unused q = q.buffer ++ io.content q.reader

  -- The end was reported only at the end, and what is left fits the total budget.
  pub record Sane (q : Acquisition io) : Type 0 where
    pub finished : q.at_eof ≡ true → io.content q.reader ≡ []
    pub fits : exceeds q.max_total_bytes (q.bytes_received + length (io.content q.reader)) ≡ false

  -- The rounds of the loop that are still possible.
  abbrev pub rounds : Acquisition io → ℕ
  rounds q = length (io.content q.reader) + (if q.at_eof then 0 else 1)

  pub rounds_few : (q : Acquisition io) → rounds q ≤ length (unused q) + 1
  rounds_few q =
      let sum = length-append q.buffer (io.content q.reader) in
      elim (Bool-cases q.at_eof) [
        | inl at ↦ rw at (omega (arith, sum))
        | inr at ↦ rw at (omega (arith, sum))
      ]

  -- What `_fill` may leave behind.
  pub record Refilled (q q' : Acquisition io) : Type 0 where
    pub same_bytes : unused q' ≡ unused q
    pub same_bound : q'.max_frame_bytes ≡ q.max_frame_bytes
    pub sane : Sane q'
    pub closer : rounds q' < rounds q

  abbrev pub Refills : Acquisition io → Option ProtocolFailureCode × Acquisition io → Type 0
  Refills q p = (p.0 ≡ none) × Refilled q p.1

  nothing_left :
      (q : Acquisition io) (chunk : List ℕ) (r : io.Source)
      → Sane q
      → q.at_eof ≡ false
      → io.content q.reader ≡ chunk ++ io.content r
      → is_empty chunk ≡ true
      → (is_empty chunk ≡ true → io.content q.reader ≡ [])
      → Refilled q (record q { reader = r; at_eof = true })
  nothing_left q chunk r v open' split empty at =
      let left : io.content r ≡ [] =
        sym (subst (λ c. io.content q.reader ≡ c ++ io.content r) (nil_of_empty chunk empty) split)
        ∙ at empty in
      record {
        same_bytes = ap (λ c. q.buffer ++ c) (left ∙ sym (at empty));
        same_bound = refl;
        sane = record {
          finished = λ _. left;
          fits =
              subst (λ c. exceeds q.max_total_bytes (q.bytes_received + length c) ≡ false)
                (at empty ∙ sym left) v.fits;
        };
        closer = rw (left, at empty, open') (omega arith);
      }

  some_more :
      (q : Acquisition io) (chunk : List ℕ) (r : io.Source)
      → Sane q
      → q.at_eof ≡ false
      → io.content q.reader ≡ chunk ++ io.content r
      → is_empty chunk ≡ false
      → Refilled q (record q {
        reader = r;
        bytes_received = q.bytes_received + length chunk;
        buffer = q.buffer ++ chunk;
      })
  some_more q chunk r v open' split full =
      let sum : length (io.content q.reader) ≡ length chunk + length (io.content r) =
        ap length split ∙ length-append chunk (io.content r) in
      let some_bytes = is_empty-length chunk full in
      record {
        same_bytes =
            append_assoc q.buffer chunk (io.content r) ∙ ap (λ c. q.buffer ++ c) (sym split);
        same_bound = refl;
        sane = record {
          finished = λ at. absurd (true_not_false (sym at ∙ open'));
          fits =
              within q.max_total_bytes (q.bytes_received + length chunk + length (io.content r))
                (q.bytes_received + length (io.content q.reader)) (omega arith) v.fits;
        };
        closer = rw open' (omega arith);
      }

  chunk_fits :
      (q : Acquisition io) (chunk : List ℕ) (r : io.Source)
      → Sane q
      → io.content q.reader ≡ chunk ++ io.content r
      → exceeds q.max_total_bytes (q.bytes_received + length chunk) ≡ false
  chunk_fits q chunk r v split =
      let sum : length (io.content q.reader) ≡ length chunk + length (io.content r) =
        ap length split ∙ length-append chunk (io.content r) in
      within q.max_total_bytes (q.bytes_received + length chunk)
        (q.bytes_received + length (io.content q.reader)) (omega arith) v.fits

  read_size_positive : (q : Acquisition io) → 0 < read_size io q
  unfolding read_size
  read_size_positive q = omega arith

  pub fill-Refilled : (q : Acquisition io) → Sane q → q.at_eof ≡ false → Refills q (fill io q)
  unfolding fill filled
  fill-Refilled q v open' =
      let size = read_size io q in
      let (chunk, r) = io.read size q.reader in
      let split = io.reads size q.reader in
      if_cases (Refills q) (is_empty chunk)
        (λ empty. (
          refl,
          nothing_left q chunk r v open' split empty (λ none_read.
              io.reads_nothing_at_end size q.reader (read_size_positive q)
                (nil_of_empty chunk none_read)),
        ))
        (λ full.
          if_cases (Refills q) (exceeds q.max_total_bytes (q.bytes_received + length chunk))
            (λ x. absurd (true_not_false (sym x ∙ chunk_fits q chunk r v split)))
            (λ x. (refl, some_more q chunk r v open' split full)))
