-- ===== src/Execution/Workers/Watch.antt =====
-- The exchange of a job with its worker in src/dr_exec/execution/worker_pool.py: `_StopWatch`, `_get_watched` and
-- `_exchange`, over what each poll of the worker's queue sees.
use dr_exec.Prelude.{
  ℕ, zero, suc, ◌+◌, ◌≤◌, Bool, true, false, ◌&&◌, Option, none, some, [], ltb, if◌then◌else◌, ◌≡◌,
  ◌↔◌, refl, sym, subst, arith,
}
use Prim.Native.String.{String}
use dr_exec.Prelude.Integers.{ℤ, pos, negsuc}
use dr_exec.Core.Kinds.{wall_time}
use dr_exec.Recording.Outcomes.{ExecutionOutcome, exited, signaled, cancelled, budget_exceeded}
use dr_exec.Execution.Workers.Frames.{FrameCodec, Answer, interpret}

-- `_StopWatch`; `watches` tells whether the caller gave a token.
pub record StopWatch : Type 0 where
  pub deadline_ns : Option ℕ
  pub watches : Bool
  pub started : Bool

-- What a poll sees: the frame or the end of the worker's output, the token and the monotonic clock.
pub record Poll (B : Type 0) : Type 0 where
  pub item : Option (Option B)
  pub token : Bool
  pub now_ns : ℕ

unfoldable pub no_deadline : Option ℕ → Bool
no_deadline none = true
no_deadline (some deadline_ns) = false

unfoldable pub unwatched : StopWatch → Bool
unwatched stop = no_deadline stop.deadline_ns && (if stop.watches then false else true)

unfoldable pub expired : Option ℕ → ℕ → Bool
expired none now_ns = false
expired (some deadline_ns) now_ns = if ltb now_ns deadline_ns then false else true

-- `_StopWatch.outcome`.
unfoldable pub stop_outcome : {B : Type 0} → StopWatch → Poll B → Option ExecutionOutcome
stop_outcome stop p =
    if stop.watches && p.token
    then some (cancelled stop.started)
    else if expired stop.deadline_ns p.now_ns
    then some (budget_exceeded wall_time)
    else none

-- `_get_watched` and `_Worker.receive`: a frame, `_WorkerDied` or `_StopRequested`.
pub data Received (B : Type 0) : Type 0 where
  got_frame : B → Received B
  worker_died : Received B
  stop_requested : ExecutionOutcome → Received B

unfoldable pub taken : {B : Type 0} → Option B → Received B
taken (some frame) = got_frame frame
taken none = worker_died

unfoldable pub requested : {B : Type 0} → Option ExecutionOutcome → Option (Received B)
requested (some outcome) = some (stop_requested outcome)
requested none = none

-- One round of the wait; an unwatched one only waits for the item.
unfoldable pub poll : {B : Type 0} → StopWatch → Poll B → Option (Received B)
poll stop p = elim p.item [
  | some item ↦ some (taken item)
  | none ↦ if unwatched stop then none else requested (stop_outcome stop p)
]

-- The wait from round `n` on, for as many rounds as the fuel allows.
unfoldable pub get_watched : {B : Type 0} → StopWatch → (ℕ → Poll B) → ℕ → ℕ → Option (Received B)
get_watched stop seen zero n = none
get_watched stop seen (suc fuel) n =
    let rest = get_watched stop seen fuel (suc n) in
    elim (poll stop (seen n)) [ some received ↦ some received | none ↦ rest ]

-- The completion, and whether the lease discarded the worker.
pub record Exchanged (N : Type 0) : Type 0 where
  pub answer : Answer N
  pub discarded : Bool

-- `_Worker.death`, which waits for the process without a bound; it has no exit code if it never exits.
unfoldable pub death : Option ℤ → Option ExecutionOutcome
death none = none
death (some (pos code)) = some (exited (pos code))
death (some (negsuc n)) = some (signaled (suc n))

-- A completion without outputs, whose worker was discarded.
unfoldable pub discarding : {N : Type 0} → Option String → ExecutionOutcome → Exchanged N
discarding detail outcome = record {
  answer = record {
    outcome = outcome;
    protocol_outputs = [];
    attribution_detail = detail;
    attribution_override = none;
  };
  discarded = true;
}

unfoldable pub died : {N : Type 0} → Option ExecutionOutcome → Option (Exchanged N)
died none = none
died (some outcome) = some (discarding (some "the worker died while running the payload") outcome)

module _ {N P B : Type 0} (codec : FrameCodec N P B) (returncode : Option ℤ) where
  unfoldable pub exchanged : Received B → Option (Exchanged N)
  exchanged (got_frame frame) = some (record { answer = interpret codec frame; discarded = false })
  exchanged worker_died = died (death returncode)
  exchanged (stop_requested stopped) = some (discarding none stopped)

  unfoldable pub exchanged_with : Option (Received B) → Option (Exchanged N)
  exchanged_with (some received) = exchanged received
  exchanged_with none = none

  -- `_exchange`; `sent` is false when writing the request raised `_WorkerDied`.
  unfoldable pub exchange : Bool → StopWatch → (ℕ → Poll B) → ℕ → Option (Exchanged N)
  exchange sent stop seen fuel =
      if sent then exchanged_with (get_watched stop seen fuel 0) else exchanged worker_died

  -- Only a worker that died and whose process does not exit keeps the exchange from its end.
  exchanged-none :
      (r : Received B) → (exchanged r ≡ none) ↔ ((r ≡ worker_died) × (returncode ≡ none))
  unfolding exchanged died death
  exchanged-none (got_frame frame) = ((λ h. absurd cc), (λ h. absurd cc))
  exchanged-none (stop_requested stopped) = ((λ h. absurd cc), (λ h. absurd cc))
  exchanged-none worker_died = by_code returncode refl
    where
      by_code :
          (code : Option ℤ)
          → returncode ≡ code
          → (died {N = N} (death returncode) ≡ none)
            ↔ (◌≡◌ {A = Received B} worker_died worker_died × (returncode ≡ none))
      by_code none e = ((λ h. (refl, e)), (λ h. rw e))
      by_code (some (pos code)) e = ((λ h. absurd ground arith), (λ h. absurd ground arith))
      by_code (some (negsuc n)) e = ((λ h. absurd ground arith), (λ h. absurd ground arith))

module _ {B : Type 0} (stop : StopWatch) (seen : ℕ → Poll B) where
  -- The first round from `n` on that received anything is `m`, and it received `r`.
  pub data ReceivedIn (r : Received B) : ℕ → ℕ → Type 0 where
    now : {n : ℕ} → poll stop (seen n) ≡ some r → ReceivedIn r n n
    later : {n m : ℕ} → poll stop (seen n) ≡ none → ReceivedIn r (suc n) m → ReceivedIn r n m

  -- The wait receives something within `k` more rounds from round `n` on.
  abbrev ReceivesBy : ℕ → ℕ → Type 0
  ReceivesBy k n =
      (r : Received B) × (last : ℕ) × (get_watched stop seen (suc k) n ≡ some r)
      × ReceivedIn r n last
      × last ≤ n + k

module _ {B : Type 0} (stop : StopWatch) (seen : ℕ → Poll B) (d : ℕ)
    (deadline : stop.deadline_ns ≡ some d) where
  reached-stop_outcome : (p : Poll B) → d ≤ p.now_ns → ¬ (stop_outcome stop p ≡ none)
  unfolding stop_outcome expired
  reached-stop_outcome p h e = ground arith

  reached-poll :
      (p : Poll B)
      → d ≤ p.now_ns
      → (found : Option (Received B)) → poll stop p ≡ found
      → (r : Received B) × (poll stop p ≡ some r)
  unfolding poll unwatched no_deadline requested
  reached-poll p h (some r) e = (r, e)
  reached-poll p h none e = let stops = reached-stop_outcome p h in absurd ground arith

  received_now : (k n : ℕ) (r : Received B) → poll stop (seen n) ≡ some r → ReceivesBy stop seen k n
  unfolding get_watched
  received_now k n r e = (r, n, rw (get_watched, e), now e, omega arith)

  received_by : (k n : ℕ) → d ≤ (seen (n + k)).now_ns → ReceivesBy stop seen k n
  unfolding get_watched
  received_by zero n h =
      let here : n + 0 ≡ n = omega arith in
      let (r, receives) = reached-poll (seen n) (subst (λ m. d ≤ (seen m).now_ns) here h) _ refl in
      received_now zero n r receives
  received_by (suc k) n h =
      let shift : n + suc k ≡ suc n + k = omega arith in
      by_round (poll stop (seen n)) refl
        (received_by k (suc n) (subst (λ m. d ≤ (seen m).now_ns) shift h))
    where
      by_round :
          (found : Option (Received B))
          → poll stop (seen n) ≡ found
          → ReceivesBy stop seen k (suc n)
          → ReceivesBy stop seen (suc k) n
      by_round (some r) e rest = received_now (suc k) n r e
      by_round none e (r, last, receives, first, bound) =
          (r, last, rw (get_watched, e) receives, later e first, omega arith)

-- When the clock reaches the deadline of a job in round `m`, the wait is over by then, and the exchange is what
-- the first round that received a frame, the worker's death or a stop makes of it. That is a completion unless
-- the worker died and its process never exits, since the exchange waits for its exit code without a bound.
pub exchange-deadline :
    {N P B : Type 0} (codec : FrameCodec N P B) (returncode : Option ℤ) (stop : StopWatch)
    (seen : ℕ → Poll B) (d m : ℕ)
    → stop.deadline_ns ≡ some d
    → d ≤ (seen m).now_ns
    → (r : Received B) × (last : ℕ) × (exchange codec returncode true stop seen (suc m)
        ≡ exchanged codec returncode r)
      × ReceivedIn stop seen r 0 last
      × last ≤ m
      × ((exchanged codec returncode r ≡ none) ↔ ((r ≡ worker_died) × (returncode ≡ none)))
unfolding exchange exchanged_with
exchange-deadline codec returncode stop seen d m deadline h =
    let e : 0 + m ≡ m = omega arith in
    let (r, last, receives, first, bound) =
      received_by stop seen d deadline m 0 (subst (λ k. d ≤ (seen k).now_ns) (sym e) h) in
    (r, last, rw (exchange, receives), first, omega arith, exchanged-none codec returncode r)
