-- ===== src/Execution/Engine/Waiting.antt =====
-- `_await_child` of src/dr_exec/execution/engine.py, over what each round of its loop sees.
use dr_exec.Prelude.{
  ℕ, zero, suc, ◌+◌, ◌≤◌, Bool, true, false, ◌&&◌, Option, none, some, ltb, if◌then◌else◌, ◌≡◌,
  refl, sym, subst, arith,
}
use dr_exec.Core.Kinds.{payload_output, wall_time}
use dr_exec.Execution.Engine.Outcome.{StopReason}

-- The child, the transports, the overflow mark, the token and the monotonic clock.
pub record Glance : Type 0 where
  pub exited : Bool
  pub transport_failed : Bool
  pub overflow : Bool
  pub cancelled : Bool
  pub now_ns : ℕ

unfoldable pub past : Option ℕ → ℕ → Bool
past none now_ns = false
past (some deadline_ns) now_ns = if ltb now_ns deadline_ns then false else true

-- One round: what the loop returns, if it does.
unfoldable pub round : Option ℕ → Bool → Glance → Option (Option StopReason)
round deadline_ns fail_on_overflow g =
    if g.exited
    then some none
    else if g.transport_failed
    then some none
    else if fail_on_overflow && g.overflow
    then some (some (record { axis = some payload_output; cancelled = false }))
    else if g.cancelled
    then some (some (record { axis = none; cancelled = true }))
    else if past deadline_ns g.now_ns
    then some (some (record { axis = some wall_time; cancelled = false }))
    else none

-- The loop from round `n` on, for as many rounds as the fuel allows.
unfoldable pub await_child : Option ℕ → Bool → (ℕ → Glance) → ℕ → ℕ → Option (Option StopReason)
await_child deadline_ns fail_on_overflow glance zero n = none
await_child deadline_ns fail_on_overflow glance (suc fuel) n =
    let rest = await_child deadline_ns fail_on_overflow glance fuel (suc n) in
    elim (round deadline_ns fail_on_overflow (glance n)) [ some result ↦ some result | none ↦ rest ]

module _ (deadline_ns : Option ℕ) (fail_on_overflow : Bool) (glance : ℕ → Glance) where
  -- Some round from `n` on returned `result`, and none before it returned.
  pub data ReturnedIn (result : Option StopReason) : ℕ → ℕ → Type 0 where
    now :
        {n : ℕ}
        → round deadline_ns fail_on_overflow (glance n) ≡ some result
        → ReturnedIn result n n
    later :
        {n m : ℕ}
        → round deadline_ns fail_on_overflow (glance n) ≡ none
        → ReturnedIn result (suc n) m
        → ReturnedIn result n m

reached-round :
    (d : ℕ) (fail_on_overflow : Bool) (g : Glance)
    → d ≤ g.now_ns
    → (result : Option StopReason) × (round (some d) fail_on_overflow g ≡ some result)
unfolding round past
reached-round d fail_on_overflow g h = by_result (round (some d) fail_on_overflow g) refl
  where
    by_result :
        (found : Option (Option StopReason))
        → round (some d) fail_on_overflow g ≡ found
        → (result : Option StopReason) × (round (some d) fail_on_overflow g ≡ some result)
    by_result (some result) e = (result, e)
    by_result none e = absurd ground arith

-- The loop returns within `k` more rounds from round `n` on, by the rounds' own verdicts.
abbrev pub EndsBy : ℕ → Bool → (ℕ → Glance) → ℕ → ℕ → Type 0
EndsBy d fail_on_overflow glance k n =
    (result : Option StopReason) × (last : ℕ) × (await_child (some d) fail_on_overflow glance
        (suc k) n
      ≡ some result)
    × ReturnedIn (some d) fail_on_overflow glance result n last
    × last ≤ n + k

ends_now :
    (d : ℕ) (fail_on_overflow : Bool) (glance : ℕ → Glance) (k n : ℕ) (result : Option StopReason)
    → round (some d) fail_on_overflow (glance n) ≡ some result
    → EndsBy d fail_on_overflow glance k n
unfolding await_child
ends_now d fail_on_overflow glance k n result e =
    (result, n, rw (await_child, e), now e, omega arith)

ends_by :
    (d : ℕ) (fail_on_overflow : Bool) (glance : ℕ → Glance) (k n : ℕ)
    → d ≤ (glance (n + k)).now_ns
    → EndsBy d fail_on_overflow glance k n
unfolding await_child
ends_by d fail_on_overflow glance zero n h =
    let here : n + 0 ≡ n = omega arith in
    let (result, stops) =
      reached-round d fail_on_overflow (glance n) (subst (λ m. d ≤ (glance m).now_ns) here h) in
    ends_now d fail_on_overflow glance zero n result stops
ends_by d fail_on_overflow glance (suc k) n h =
    let shift : n + suc k ≡ suc n + k = omega arith in
    by_round (round (some d) fail_on_overflow (glance n)) refl
      (ends_by d fail_on_overflow glance k (suc n) (subst (λ m. d ≤ (glance m).now_ns) shift h))
  where
    by_round :
        (found : Option (Option StopReason))
        → round (some d) fail_on_overflow (glance n) ≡ found
        → EndsBy d fail_on_overflow glance k (suc n)
        → EndsBy d fail_on_overflow glance (suc k) n
    by_round (some result) e rest = ends_now d fail_on_overflow glance (suc k) n result e
    by_round none e (result, last, returns, stops, bound) =
        (result, last, rw (await_child, e) returns, later e stops, omega arith)

-- When the clock reaches the deadline in round `m`, the loop has returned by then, with what the first round
-- that returned made of what it saw.
pub await_child-deadline :
    (d : ℕ) (fail_on_overflow : Bool) (glance : ℕ → Glance) (m : ℕ)
    → d ≤ (glance m).now_ns
    → (result : Option StopReason) × (last : ℕ) × (await_child
          (some d)
          fail_on_overflow
          glance
          (suc m)
          0
        ≡ some result)
      × ReturnedIn (some d) fail_on_overflow glance result 0 last
      × last ≤ m
await_child-deadline d fail_on_overflow glance m h =
    let e : 0 + m ≡ m = omega arith in
    let (result, last, returns, stops, bound) =
      ends_by d fail_on_overflow glance m 0 (subst (λ k. d ≤ (glance k).now_ns) (sym e) h) in
    (result, last, returns, stops, omega arith)
