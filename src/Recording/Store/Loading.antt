-- ===== src/Recording/Store/Loading.antt =====
-- What `load` of src/dr_exec/recording/store.py returns from one call of the store to the next.
use Prim.Native.String.{String}
use dr_exec.Prelude.{ℕ, ◌≤◌, true, false, ◌≡◌, refl, sym, ◌∙◌, ap, subst, arith}
use dr_exec.Prelude.Results.{Result, ok, err, ◌>>=◌, ◌>>◌}
use dr_exec.Recording.Results.{RunRecordReference}
use dr_exec.Recording.Runs.{
  RunRecord, prepared, running, finalized, record_header, record_declaration,
}
use dr_exec.Recording.Store.Errors.{Exception}
use dr_exec.Recording.Store.Backend.{Backend, Codec}
use dr_exec.Recording.Store.Reading.{
  stdout_sidecar_name, stderr_sidecar_name, record_dir, resolve, load_record, load, verify_loaded,
  verify_sidecars, verify_artifact,
}
use dr_exec.Recording.Store.Laws.{Same, Untouched}
use dr_exec.Recording.Store.Reads.{load_record-Same, resolve-own}
use dr_exec.Recording.Store.Published.{is_finalized}

-- How far a record has come.
abbrev pub phase : {D R : Type 0} → RunRecord D R → ℕ
phase (prepared r) = 0
phase (running r) = 1
phase (finalized r) = 2

-- A later record of the same run.
pub record IsLater {D R : Type 0} (old new : RunRecord D R) : Type 0 where
  pub header : record_header new ≡ record_header old
  pub declaration : record_declaration new ≡ record_declaration old
  pub further : phase old ≤ phase new
  -- a finalized record stays as it is
  pub final : is_finalized old ≡ true → new ≡ old

pub same-IsLater : {D R : Type 0} (r : RunRecord D R) → IsLater r r
same-IsLater r = record {
  header = refl;
  declaration = refl;
  further = omega arith;
  final = λ h. refl;
}

pub IsLater-then : {D R : Type 0} (a b c : RunRecord D R) → IsLater a b → IsLater b c → IsLater a c
IsLater-then a b c p q = record {
  header = q.header ∙ p.header;
  declaration = q.declaration ∙ p.declaration;
  further = let x = p.further in let y = q.further in omega arith;
  final = λ h. let e = p.final h in q.final (subst (λ r. is_finalized r ≡ true) (sym e) h) ∙ e;
}

module _ {N D R W S : Type 0} (backend : Backend N W S) (codec : Codec N D R)
    (root_dir : String) where
  -- The record of a reference loads, step by step.
  pub record IsLoaded (reference : RunRecordReference) (s : S) (r : RunRecord D R) : Type 0 where
    pub is_there :
        resolve backend codec root_dir reference s
        ≡ ok (record_dir backend codec root_dir reference)
    pub loaded : load_record backend codec (record_dir backend codec root_dir reference) s ≡ ok r
    pub verified :
        verify_loaded backend codec root_dir (record_dir backend codec root_dir reference) s r
        ≡ ok r

  pub load-loaded :
      (reference : RunRecordReference) (s : S) (r : RunRecord D R)
      → IsLoaded reference s r
      → load backend codec root_dir reference s ≡ ok r
  unfolding load
  load-loaded reference s r l = rw (load, l.is_there, l.loaded, l.verified)

  verify_loaded-same :
      (dir : String) (s : S) (q r : RunRecord D R)
      → verify_loaded backend codec root_dir dir s q ≡ ok r
      → q ≡ r
  unfolding verify_loaded
  verify_loaded-same dir s (prepared q) r h = ground arith
  verify_loaded-same dir s (running q) r h = ground arith
  verify_loaded-same dir s (finalized q) r h =
      by_sidecars (verify_sidecars backend codec root_dir dir s q) h
    where
      by_sidecars :
          (v : Result Exception (Unit {0})) → (v >> ok (finalized q)) ≡ ok r → finalized q ≡ r
      by_sidecars (ok u) h = ground arith
      by_sidecars (err x) h = absurd ground arith

  pub IsLoaded-load :
      (reference : RunRecordReference) (s : S) (r : RunRecord D R)
      → load backend codec root_dir reference s ≡ ok r
      → IsLoaded reference s r
  unfolding load
  IsLoaded-load reference s r h = by_resolve (resolve backend codec root_dir reference s) refl h
    where
      by_load :
          (found : Result Exception (RunRecord D R))
          → resolve backend codec root_dir reference s
            ≡ ok (record_dir backend codec root_dir reference)
          → load_record backend codec (record_dir backend codec root_dir reference) s ≡ found
          → (found >>= λ q.
              verify_loaded backend codec root_dir
                (record_dir backend codec root_dir reference)
                s
                q)
            ≡ ok r
          → IsLoaded reference s r
      by_load (err x) e f h = absurd ground arith
      by_load (ok q) e f h =
          let same = verify_loaded-same (record_dir backend codec root_dir reference) s q r h in
          record {
            is_there = e;
            loaded = f ∙ ap ok same;
            verified =
                subst
                  (λ x.
                    verify_loaded backend codec root_dir
                      (record_dir backend codec root_dir reference) s x
                    ≡ ok r)
                  same h;
          }

      by_resolve :
          (found : Result Exception String)
          → resolve backend codec root_dir reference s ≡ found
          → (found >>= λ d.
              load_record backend codec d s >>= λ q. verify_loaded backend codec root_dir d s q)
            ≡ ok r
          → IsLoaded reference s r
      by_resolve (err x) e h = absurd ground arith
      by_resolve (ok d) e h =
          let own = resolve-own backend codec root_dir reference s d e in
          by_load (load_record backend codec (record_dir backend codec root_dir reference) s)
            (e ∙ ap ok own) refl
            (subst
              (λ x.
                (load_record backend codec x s >>= λ q. verify_loaded backend codec root_dir x s q)
                ≡ ok r)
              own h)

  resolve-Same :
      (reference : RunRecordReference) (s t : S)
      → Same backend (record_dir backend codec root_dir reference) s t
      → resolve backend codec root_dir reference t ≡ resolve backend codec root_dir reference s
  unfolding resolve
  resolve-Same reference s t same = rw (resolve, same.0)

  verify_loaded-Untouched :
      (dir : String) (s t : S) (r : RunRecord D R)
      → Untouched backend dir s t
      → verify_loaded backend codec root_dir dir t r ≡ verify_loaded backend codec root_dir dir s r
  unfolding verify_loaded verify_sidecars verify_artifact
  verify_loaded-Untouched dir s t (prepared r) u = refl
  verify_loaded-Untouched dir s t (running r) u = refl
  verify_loaded-Untouched dir s t (finalized r) u = rw (
    verify_loaded,
    verify_sidecars,
    verify_artifact,
    u.2 stdout_sidecar_name _ _ _,
    u.2 stderr_sidecar_name _ _ _,
  )

  pub Untouched-IsLoaded :
      (reference : RunRecordReference) (s t : S) (r : RunRecord D R)
      → Untouched backend (record_dir backend codec root_dir reference) s t
      → IsLoaded reference s r
      → IsLoaded reference t r
  Untouched-IsLoaded reference s t r u l = record {
    is_there = resolve-Same reference s t (u.0, u.1) ∙ l.is_there;
    loaded = load_record-Same backend codec _ s t (u.0, u.1) ∙ l.loaded;
    verified = verify_loaded-Untouched _ s t r u ∙ l.verified;
  }

  -- A record that is not finalized has no sidecars to verify.
  unverified :
      (dir : String) (t : S) (q : RunRecord D R)
      → is_finalized q ≡ false
      → verify_loaded backend codec root_dir dir t q ≡ ok q
  unfolding verify_loaded is_finalized
  unverified dir t (prepared q) h = refl
  unverified dir t (running q) h = refl
  unverified dir t (finalized q) h = absurd cc

  pub Same-IsLoaded :
      (reference : RunRecordReference) (s t : S) (r : RunRecord D R)
      → is_finalized r ≡ false
      → Same backend (record_dir backend codec root_dir reference) s t
      → IsLoaded reference s r
      → IsLoaded reference t r
  Same-IsLoaded reference s t r unfinished same l = record {
    is_there = resolve-Same reference s t same ∙ l.is_there;
    loaded = load_record-Same backend codec _ s t same ∙ l.loaded;
    verified = unverified _ t r unfinished;
  }
