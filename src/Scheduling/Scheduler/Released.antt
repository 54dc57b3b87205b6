-- ===== src/Scheduling/Scheduler/Released.antt =====
-- What `release_owned` and `take_completion_nowait` do to the counts (scheduler.py).
use dr_exec.Prelude.{
  ℕ, suc, ◌+◌, ◌-◌, ◌≤◌, ◌≡◌, refl, Bool, Option-cases, Bool-cases, ◌++◌, length-append, inl, inr,
  some, List, [], ◌∷◌, arith, length,
}
use dr_exec.Scheduling.Scheduler.State.{Completion}
use dr_exec.Scheduling.Scheduler.Delivery.{split_first, split_owned, not_owned, free_owned}

-- `x` stands in `xs`, and `rest` is `xs` without it.
abbrev pub Splits {ℓ} : {A : Type ℓ} → List A → A → List A → Type ℓ
Splits {A} xs x rest = (l : List A) × (r : List A) × (xs ≡ l ++ x ∷ r) × (rest ≡ l ++ r)

pub length-Splits {ℓ} :
    {A : Type ℓ} (xs : List A) (x : A) (rest : List A)
    → Splits xs x rest
    → length xs ≡ suc (length rest)
length-Splits xs x rest (l, r, whole, left) =
    rw (whole, left) (omega (arith, length-append l (x ∷ r), length-append l r))

module _ {C O : Type 0} where
  pub length-not_owned :
      (owned : C → Bool) (cs : List (Completion C O)) → length (not_owned owned cs) ≤ length cs
  unfolding not_owned
  length-not_owned owned [] = omega arith
  length-not_owned owned (c ∷ cs) = ground (arith, length-not_owned owned cs)

  pub split_first-Splits :
      (cs : List (Completion C O)) {c : Completion C O} {rest : List (Completion C O)}
      → split_first cs ≡ some (c, rest)
      → Splits cs c rest
  unfolding split_first
  split_first-Splits [] h = cc
  split_first-Splits (d ∷ ds) h = ([], ds, ground arith, ground arith)

  pub split_owned-Splits :
      (owned : C → Bool) (cs : List (Completion C O)) {c : Completion C O}
      {rest : List (Completion C O)}
      → split_owned owned cs ≡ some (c, rest)
      → Splits cs c rest
  unfolding split_owned
  split_owned-Splits owned [] h = cc
  split_owned-Splits owned (d ∷ ds) h = elim (Bool-cases (owned d.context)) [
    | inl e ↦ ([], ds, ground arith, ground arith)
    | inr e ↦ elim (Option-cases (split_owned owned ds)) [
      | inl f ↦ absurd (ground arith)
      | inr ((x, xs), f) ↦
          let (l, r, whole, left) = split_owned-Splits owned ds f in
          (d ∷ l, r, ground arith, ground arith)
    ]
  ]

  pub free_owned_lem :
      (owned : C → Bool) (cs : List (Completion C O)) (residents : ℕ)
      → length cs ≤ residents
      → free_owned owned cs residents + length cs ≡ residents + length (not_owned owned cs)
  unfolding free_owned not_owned
  free_owned_lem owned [] residents h = refl
  free_owned_lem owned (c ∷ cs) residents h =
      ground (arith, free_owned_lem owned cs (residents - 1), free_owned_lem owned cs residents)
