-- ===== src/Core/Cancel.antt =====
-- `CancelToken` of src/dr_exec/core/cancel.py. A token is a shared object, so it is an address in a
-- heap: the addresses below `made` are the tokens made, and `set` lists those whose event is set.
pub mod Marks
use dr_exec.Prelude.{ℕ, suc, Bool, true, false, List, [], ◌∷◌, ◌||◌, ◌==◌}

pub record Tokens : Type 0 where
  pub made : ℕ
  pub set : List ℕ

abbrev pub no_tokens : Tokens
no_tokens = record { made = 0; set = [] }

unfoldable pub contains : ℕ → List ℕ → Bool
contains a [] = false
contains a (b ∷ bs) = a == b || contains a bs

-- `CancelToken()`: the address of the new token, and the heap with it.
abbrev pub new_token : Tokens → ℕ × Tokens
new_token h = (h.made, record h { made = suc h.made })

-- `token.cancel()`.
abbrev pub cancel : ℕ → Tokens → Tokens
cancel a h = record h { set = a ∷ h.set }

-- `token.cancelled`.
unfoldable pub cancelled : ℕ → Tokens → Bool
unfolding contains
cancelled a h = contains a h.set

-- `for token in ...: token.cancel()`.
unfoldable pub cancel_each : List ℕ → Tokens → Tokens
cancel_each [] h = h
cancel_each (a ∷ as') h = cancel_each as' (cancel a h)
