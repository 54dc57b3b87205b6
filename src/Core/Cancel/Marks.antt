-- ===== src/Core/Cancel/Marks.antt =====
-- A token that is cancelled stays so (src/dr_exec/core/cancel.py).
use dr_exec.Prelude.{ℕ, ◌≡◌, true, Bool-cases, inl, inr, List, [], ◌∷◌, arith, ◌==◌}
use dr_exec.Core.Cancel.{Tokens, contains, cancel, cancelled, cancel_each}

pub cancelled-cancel_each :
    (a : ℕ) (as' : List ℕ) (h : Tokens)
    → cancelled a h ≡ true
    → cancelled a (cancel_each as' h) ≡ true
unfolding cancelled cancel_each
cancelled-cancel_each a [] h c = c
cancelled-cancel_each a (b ∷ as') h c = cancelled-cancel_each a as' (cancel b h) (ground arith)

-- Cancelling several tokens cancels each of them.
pub cancel_each-cancels :
    (a : ℕ) (as' : List ℕ) (h : Tokens)
    → contains a as' ≡ true
    → cancelled a (cancel_each as' h) ≡ true
unfolding cancelled cancel_each contains
cancel_each-cancels a [] h c = cc
cancel_each-cancels a (b ∷ as') h c = elim (Bool-cases (a == b)) [
  | inl e ↦ cancelled-cancel_each a as' (cancel b h) (ground arith)
  | inr e ↦ cancel_each-cancels a as' (cancel b h) (ground arith)
]
