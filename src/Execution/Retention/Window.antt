-- ===== src/Execution/Retention/Window.antt =====
-- What a stream keeps of the bytes offered to it, described without the chunks.
use dr_exec.Prelude.{
  ℕ, zero, suc, ◌+◌, ◌-◌, ◌≤◌, ◌≡◌, inl, inr, refl, Option, none, some, List, [], ◌∷◌, ◌++◌,
  append-nil, append_assoc, arith, Bool-cases, ltb, length, take, drop, length-append, length-take,
  length-drop, take-append, drop-append, drop-drop, drop-all, take-nil, drop-nil,
}
use dr_exec.Declarations.Budgets.{StreamRetentionBudget}
use dr_exec.Execution.Retention.{
  StreamRetention, stream_retention, offer, offer_tail, offer_head, shed, offer_all,
}

-- All the bytes of a list of chunks, in order.
unfoldable pub joined : List (List ℕ) → List ℕ
joined [] = []
joined (c ∷ cs) = c ++ joined cs

-- The last `n` bytes.
unfoldable pub last : ℕ → List ℕ → List ℕ
last n xs = drop (length xs - n) xs

-- The state of a stream to which `bytes` were offered.
unfoldable pub window : Option StreamRetentionBudget → List ℕ → StreamRetention
unfolding last
window none bytes = record {
  head_bytes = none;
  tail_bytes = none;
  head = bytes;
  tail = [];
  produced_bytes = length bytes;
  dropped_bytes = 0;
}
window (some b) bytes = record {
  head_bytes = some b.head_bytes;
  tail_bytes = some b.tail_bytes;
  head = take b.head_bytes bytes;
  tail = last b.tail_bytes (drop b.head_bytes bytes);
  produced_bytes = length bytes;
  dropped_bytes = length (drop b.head_bytes bytes) - b.tail_bytes;
}

nil_of_length : (xs : List ℕ) → length xs ≤ 0 → xs ≡ []
nil_of_length [] h = refl
nil_of_length (x ∷ xs) h = absurd (omega arith)

last_all : (n : ℕ) (xs : List ℕ) → length xs ≤ n → last n xs ≡ xs
unfolding last
last_all n xs h = let e : length xs - n ≡ 0 = omega arith in rw e

last-zero : (xs : List ℕ) → last 0 xs ≡ []
unfolding last
last-zero xs = drop-all (length xs - 0) xs (omega arith)

pub length-last : (n : ℕ) (xs : List ℕ) → length (last n xs) ≡ length xs - (length xs - n)
unfolding last
length-last n xs = length-drop (length xs - n) xs

last-last-append : (n : ℕ) (xs ys : List ℕ) → last n (last n xs ++ ys) ≡ last n (xs ++ ys)
unfolding last
last-last-append n xs ys =
    let k : ℕ = length xs - n in
    let inside : k - length xs ≡ 0 = omega arith in
    let joins : drop k xs ++ ys ≡ drop k (xs ++ ys) = rw (drop-append k xs ys, inside) in
    let total : k + (length (drop k (xs ++ ys)) - n) ≡ length (xs ++ ys) - n =
      omega (arith, length-drop k (xs ++ ys), length-append xs ys) in
    rw (joins, drop-drop, total)

shed_lem :
    (bound : ℕ) (s : StreamRetention)
    → shed bound s ≡ record s {
      tail = last bound s.tail;
      dropped_bytes = s.dropped_bytes + (length s.tail - bound);
    }
unfolding shed last
shed_lem bound s = elim (Bool-cases (ltb 0 (length s.tail - bound))) [
  | inl over ↦ rw over
  | inr fits ↦ rw fits (let e : length s.tail - bound ≡ 0 = ground arith in rw e (ground arith))
]

offer_tail_lem :
    (bound : ℕ) (chunk : List ℕ) (s : StreamRetention)
    → length s.tail ≤ bound
    → offer_tail chunk (record s { tail_bytes = some bound }) ≡ record s {
      tail_bytes = some bound;
      tail = last bound (s.tail ++ chunk);
      dropped_bytes = s.dropped_bytes + (length (s.tail ++ chunk) - bound);
    }
unfolding offer_tail
offer_tail_lem bound [] s h =
    let fits : length s.tail - bound ≡ 0 = omega arith in
    rw (append-nil s.tail, last_all bound s.tail h, fits) (ground arith)
offer_tail_lem zero (c ∷ chunk) s h =
    rw (nil_of_length s.tail h, last-zero (c ∷ chunk)) (ground arith)
offer_tail_lem (suc bound) (c ∷ chunk) s h =
    shed_lem (suc bound) (record s { tail_bytes = some (suc bound); tail = s.tail ++ c ∷ chunk })

offer_head_lem :
    (head_bytes : ℕ) (chunk : List ℕ) (s : StreamRetention)
    → offer_head head_bytes chunk s
      ≡ offer_tail
          (drop (head_bytes - length s.head) chunk)
          (record s { head = s.head ++ take (head_bytes - length s.head) chunk })
unfolding offer_head
offer_head_lem head_bytes chunk s = elim (Bool-cases (ltb 0 (head_bytes - length s.head))) [
  | inl room ↦ rw room
  | inr full ↦
      rw full (let e : head_bytes - length s.head ≡ 0 = ground arith in rw (e, append-nil s.head))
]

-- One chunk more is what a longer stream would have left.
offer-window :
    (budget : Option StreamRetentionBudget) (chunk bytes : List ℕ)
    → offer chunk (window budget bytes) ≡ window budget (bytes ++ chunk)
unfolding offer window
offer-window none chunk bytes = rw (length-append bytes chunk)
offer-window (some b) chunk bytes =
    let h : ℕ = b.head_bytes in
    let t : ℕ = b.tail_bytes in
    let room : h - length (take h bytes) ≡ h - length bytes = omega (arith, length-take h bytes) in
    let sheds : length (drop h bytes)
          - t
          + (length (last t (drop h bytes) ++ drop (h - length bytes) chunk) - t)
        ≡ length (drop h bytes ++ drop (h - length bytes) chunk) - t =
      omega (
        arith,
        length-last t (drop h bytes),
        length-append (last t (drop h bytes)) (drop (h - length bytes) chunk),
        length-append (drop h bytes) (drop (h - length bytes) chunk),
      ) in
    let taken : StreamRetention = record (window (some b) bytes) {
      head = take h bytes ++ take (h - length bytes) chunk;
      produced_bytes = length bytes + length chunk;
    } in
    rw (
      offer_head_lem h chunk _,
      room,
      offer_tail_lem t (drop (h - length bytes) chunk) taken
          (omega (arith, length-last t (drop h bytes))),
      take-append h bytes chunk,
      drop-append h bytes chunk,
      length-append bytes chunk,
      last-last-append t (drop h bytes) (drop (h - length bytes) chunk),
      sheds,
    )

offer_all-window :
    (budget : Option StreamRetentionBudget) (chunks : List (List ℕ)) (bytes : List ℕ)
    → offer_all chunks (window budget bytes) ≡ window budget (bytes ++ joined chunks)
unfolding offer_all joined
offer_all-window budget [] bytes = rw (append-nil bytes)
offer_all-window budget (c ∷ cs) bytes = rw (
  offer-window budget c bytes,
  offer_all-window budget cs (bytes ++ c),
  append_assoc bytes c (joined cs),
)

window-nil : (budget : Option StreamRetentionBudget) → window budget [] ≡ stream_retention budget
unfolding window stream_retention last
window-nil none = refl
window-nil (some b) =
    rw (take-nil b.head_bytes, drop-nil b.head_bytes)
      (ground (arith, drop-nil {A = ℕ} (0 - b.tail_bytes)))

-- Whatever its chunks, the stream that was offered them is the window over all their bytes.
pub offer_all-window_lem :
    (budget : Option StreamRetentionBudget) (chunks : List (List ℕ))
    → offer_all chunks (stream_retention budget) ≡ window budget (joined chunks)
offer_all-window_lem budget chunks = rw (← window-nil budget) (offer_all-window budget chunks [])
