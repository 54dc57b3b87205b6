-- ===== src/Recording/Store/Backend.antt =====
-- What src/dr_exec/recording/store.py calls: the file system, dr_store's document directories with their
-- sidecars, and the validation of records by pydantic. The state of the disk is a type S, a sidecar
-- that is being written a type W, a float of JSON a type N.
use Prim.Native.String.{String}
use dr_exec.Prelude.{ℕ, Bool, Option, List, if◌then◌else◌}
use dr_exec.Prelude.Results.{Result, ok, err}
use dr_exec.Prelude.Json.{Json}
use dr_exec.Recording.Runs.{RunRecord}
use dr_exec.Recording.Stored.{SidecarSummary}
use dr_exec.Recording.Store.Errors.{Exception}

-- A call that returned a value, or raised, and the disk it left.
pub data Ran (S A : Type 0) : Type 0 where
  returned : A → S → Ran S A
  raised : Exception → S → Ran S A

abbrev pub Action : Type 0 → Type 0 → Type 0
Action S A = S → Ran S A

infixl 5 ◌>>=◌ ◌>>◌
abbrev pub bound : {S A B : Type 0} → Ran S A → (A → Action S B) → Ran S B
bound (returned a t) k = k a t
bound (raised e t) k = raised e t

abbrev pub ◌>>=◌ : {S A B : Type 0} → Action S A → (A → Action S B) → Action S B
(m >>= k) s = bound (m s) k

abbrev pub ◌>>◌ : {S B : Type 0} → Action S (Unit {0}) → Action S B → Action S B
(m >> k) s = bound (m s) (λ u. k)

abbrev pub give : {S A : Type 0} → A → Action S A
give a s = returned a s

abbrev pub raise : {S A : Type 0} → Exception → Action S A
raise e s = raised e s

abbrev pub caught :
    {S A : Type 0} → Ran S A → (Exception → Bool) → (Exception → Action S A) → Ran S A
caught (returned a t) catches h = returned a t
caught (raised e t) catches h = if catches e then h e t else raised e t

-- `try: m  except C as e: h e`, where `catches` tests for the class.
abbrev pub attempt :
    {S A : Type 0} → Action S A → (Exception → Bool) → (Exception → Action S A) → Action S A
attempt m catches h s = caught (m s) catches h

abbrev pub looked : {S A : Type 0} → Result Exception A → Action S A
looked (ok a) s = returned a s
looked (err e) s = raised e s

-- A call that reads the disk.
abbrev pub looking : {S A : Type 0} → (S → Result Exception A) → Action S A
looking look s = looked (look s) s

-- The disk after a call.
abbrev pub after : {S A : Type 0} → Ran S A → S
after (returned a s) = s
after (raised e s) = s

pub record Backend (N W S : Type 0) : Type 0 where
  -- `path / name`
  pub join : String → String → String
  pub mkdir : String → Action S (Unit {0})
  pub is_directory : String → S → Result Exception Bool
  pub rmtree : String → Action S (Unit {0})
  -- the constructor of a `DocumentDirectory` looks at its arguments only
  pub open_directory : String → Result Exception (Unit {0})
  pub publish : String → Json N → Action S (Unit {0})
  pub read_manifest : String → S → Result Exception (Json N)
  -- the name, `head_cap` and `tail_cap`
  pub open_sidecar : String → String → ℕ → ℕ → Action S W
  pub write : W → List ℕ → Action S (Unit {0})
  pub finalize_sidecar : W → Action S SidecarSummary
  -- the name, `expected_sidecar_hash` and the two lengths
  pub verify_sidecar : String → String → String → ℕ → ℕ → S → Result Exception (Unit {0})
  -- the name, `max_bytes`, `expected_byte_length` and `expected_sha256`
  pub read_verified_child : String → String → ℕ → ℕ → String → S → Result Exception (List ℕ)

-- `model_dump(mode="json")`, and `validate_json` of the canonical bytes.
pub record Codec (N D R : Type 0) : Type 0 where
  pub dump : RunRecord D R → Json N
  pub validate_json : Json N → Option (RunRecord D R)
