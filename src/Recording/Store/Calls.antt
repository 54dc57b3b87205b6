-- ===== src/Recording/Store/Calls.antt =====
-- What holds when a call of src/dr_exec/recording/store.py ends, in either way, composed as calls are.
use dr_exec.Prelude.{Bool, true, false, ◌≡◌, refl, if◌then◌else◌}
use dr_exec.Prelude.Results.{Result, ok, err}
use dr_exec.Recording.Store.Errors.{Exception}
use dr_exec.Recording.Store.Backend.{Ran, returned, raised, Action, bound, caught, looked, after}

-- `Q` holds if the call returned, `E` if it raised.
abbrev pub Ends : {S A : Type 0} → Ran S A → (A → S → Type 0) → (Exception → S → Type 0) → Type 0
Ends (returned a t) Q E = Q a t
Ends (raised e t) Q E = E e t

module _ {S A : Type 0} where
  pub Ends-of :
      {Q : A → S → Type 0} {E : Exception → S → Type 0} (r : Ran S A)
      → ((a : A) (t : S) → r ≡ returned a t → Q a t)
      → ((e : Exception) (t : S) → r ≡ raised e t → E e t)
      → Ends r Q E
  Ends-of (returned a t) q x = q a t refl
  Ends-of (raised e t) q x = x e t refl

  pub Ends-weaken :
      {Q P : A → S → Type 0} {E F : Exception → S → Type 0} (r : Ran S A)
      → Ends r Q E
      → ((a : A) (t : S) → Q a t → P a t)
      → ((e : Exception) (t : S) → E e t → F e t)
      → Ends r P F
  Ends-weaken (returned a t) h q x = q a t h
  Ends-weaken (raised e t) h q x = x e t h

  pub Ends-bound :
      {B : Type 0} (Q : B → S → Type 0) (E : Exception → S → Type 0) (r : Ran S A)
      (k : A → Action S B)
      → Ends r (λ a t. Ends (k a t) Q E) E
      → Ends (bound r k) Q E
  Ends-bound Q E (returned a t) k h = h
  Ends-bound Q E (raised e t) k h = h

  Ends-if :
      (Q : A → S → Type 0) (E : Exception → S → Type 0) (b : Bool) (e : Exception) (t : S)
      (r : Ran S A)
      → (b ≡ true → Ends r Q E)
      → (b ≡ false → E e t)
      → Ends (if b then r else raised e t) Q E
  Ends-if Q E true e t r there not_there = there refl
  Ends-if Q E false e t r there not_there = not_there refl

  pub Ends-caught :
      (Q : A → S → Type 0) (E : Exception → S → Type 0) (r : Ran S A) (catches : Exception → Bool)
      (handle : Exception → Action S A)
      → Ends r Q (λ e t. (catches e ≡ true → Ends (handle e t) Q E) × (catches e ≡ false → E e t))
      → Ends (caught r catches handle) Q E
  Ends-caught Q E (returned a t) catches handle h = h
  Ends-caught Q E (raised e t) catches handle h = Ends-if Q E (catches e) e t (handle e t) h.0 h.1

  pub Ends-looked :
      (Q : A → S → Type 0) (E : Exception → S → Type 0) (found : Result Exception A) (s : S)
      → ((a : A) → found ≡ ok a → Q a s)
      → ((e : Exception) → found ≡ err e → E e s)
      → Ends (looked found s) Q E
  Ends-looked Q E (ok a) s q x = q a refl
  Ends-looked Q E (err e) s q x = x e refl

  pub Ends-after : (P : S → Type 0) (r : Ran S A) → Ends r (λ a t. P t) (λ e t. P t) → P (after r)
  Ends-after P (returned a t) h = h
  Ends-after P (raised e t) h = h

  pub after-Ends : (P : S → Type 0) (r : Ran S A) → P (after r) → Ends r (λ a t. P t) (λ e t. P t)
  after-Ends P (returned a t) h = h
  after-Ends P (raised e t) h = h

module _ {S A B : Type 0} where
  -- A call and what follows it.
  pub Ends-then :
      {P : A → S → Type 0} {F : Exception → S → Type 0} (Q : B → S → Type 0)
      (E : Exception → S → Type 0) (r : Ran S A) (k : A → Action S B)
      → Ends r P F
      → ((a : A) (t : S) → r ≡ returned a t → P a t → Ends (k a t) Q E)
      → ((e : Exception) (t : S) → r ≡ raised e t → F e t → E e t)
      → Ends (bound r k) Q E
  Ends-then Q E (returned a t) k h next failed = next a t refl h
  Ends-then Q E (raised e t) k h next failed = failed e t refl h

  -- Looking, and what follows it.
  pub Ends-look :
      (Q : B → S → Type 0) (E : Exception → S → Type 0) (found : Result Exception A) (s : S)
      (k : A → Action S B)
      → ((a : A) → found ≡ ok a → Ends (k a s) Q E)
      → ((e : Exception) → found ≡ err e → E e s)
      → Ends (bound (looked found s) k) Q E
  Ends-look Q E (ok a) s k next failed = next a refl
  Ends-look Q E (err e) s k next failed = failed e refl

-- What every call keeps, whichever way it ends.
module _ {S A : Type 0} (P : S → Type 0) where
  pub stays-bound :
      {B : Type 0} (r : Ran S B) (k : B → Action S A)
      → P (after r)
      → ((b : B) (t : S) → P t → P (after (k b t)))
      → P (after (bound r k))
  stays-bound (returned b t) k h next = next b t h
  stays-bound (raised e t) k h next = h

  pub stays-caught :
      (r : Ran S A) (catches : Exception → Bool) (handle : Exception → Action S A)
      → P (after r)
      → ((e : Exception) (t : S) → P t → P (after (handle e t)))
      → P (after (caught r catches handle))
  stays-caught (returned b t) catches handle h next = h
  stays-caught (raised e t) catches handle h next = by_test (catches e)
    where
      by_test : (b : Bool) → P (after {A = A} (if b then handle e t else raised e t))
      by_test true = next e t h
      by_test false = h

  pub stays-looked : (found : Result Exception A) (s : S) → P s → P (after (looked found s))
  stays-looked (ok a) s h = h
  stays-looked (err e) s h = h

  pub stays-look :
      {B : Type 0} (found : Result Exception B) (s : S) (k : B → Action S A)
      → P s
      → ((b : B) → found ≡ ok b → P (after (k b s)))
      → P (after (bound (looked found s) k))
  stays-look (ok b) s k h next = next b refl
  stays-look (err e) s k h next = h
