-- ===== src/Recording/Store/Reads.antt =====
-- What loading a record of src/dr_exec/recording/store.py looks at.
use Prim.Native.String.{String}
use dr_exec.Prelude.{
  Option, none, some, Bool, true, false, if◌then◌else◌, ◌≡◌, refl, sym, ◌∙◌, ap, subst, ◌⊎◌, inl,
  inr, arith,
}
use dr_exec.Prelude.Results.{Result, ok, err, ◌>>=◌, ◌>>◌}
use dr_exec.Prelude.Json.{Json}
use dr_exec.Recording.Results.{RunRecordReference}
use dr_exec.Recording.Runs.{RunRecord}
use dr_exec.Recording.Store.Errors.{
  Exception, is_os_error, could_not_resolve, is_document_directory, manifest_read_message,
}
use dr_exec.Recording.Store.Backend.{Backend, Codec}
use dr_exec.Recording.Store.Reading.{
  load_error, load_error_from, reraise, read_directory, validated, record_of, load_record,
  record_dir, resolve, load_resolved, unsupported_version, is_current,
}
use dr_exec.Recording.Store.Laws.{Same, MadeOnly, IsValidRecord, CodecLaws}

module _ {N D R W S : Type 0} (backend : Backend N W S) (codec : Codec N D R) where
  -- What a directory keeps for later: its record, if it loads.
  unfoldable pub stage : String → S → Option (RunRecord D R)
  stage dir s = elim (load_record backend codec dir s) [ ok r ↦ some r | err e ↦ none ]

  pub stage-loaded :
      (dir : String) (s : S) (r : RunRecord D R)
      → load_record backend codec dir s ≡ ok r
      → stage dir s ≡ some r
  unfolding stage
  stage-loaded dir s r e = rw (stage, e)

  pub stage-failed :
      (dir : String) (s : S) (x : Exception)
      → load_record backend codec dir s ≡ err x
      → stage dir s ≡ none
  unfolding stage
  stage-failed dir s x e = rw (stage, e)

  load_record-manifest :
      (dir : String) (s t : S)
      → backend.read_manifest dir t ≡ backend.read_manifest dir s
      → load_record backend codec dir t ≡ load_record backend codec dir s
  unfolding load_record read_directory
  load_record-manifest dir s t same = rw same

  pub load_record-Same :
      (dir : String) (s t : S)
      → Same backend dir s t
      → load_record backend codec dir t ≡ load_record backend codec dir s
  load_record-Same dir s t same = load_record-manifest dir s t same.1

  pub stage-Same : (dir : String) (s t : S) → Same backend dir s t → stage dir t ≡ stage dir s
  unfolding stage
  stage-Same dir s t same = rw (stage, load_record-Same dir s t same)

  -- What is found in the directory of a reference depends on that directory only.
  resolved_then :
      {A : Type 0} (dir : String) (d : Result Exception Bool) (f : Exception → Exception)
      (e : Exception) (k m : String → Result Exception A)
      → k dir ≡ m dir
      → (reraise is_os_error f d >>= λ found. if found then ok dir else err e) >>= k
        ≡ (reraise is_os_error f d >>= λ found. if found then ok dir else err e) >>= m
  unfolding reraise
  resolved_then dir (ok true) f e k m h = h
  resolved_then dir (ok false) f e k m h = refl
  resolved_then dir (err x) f e k m h = ground arith

  pub load_resolved-Same :
      (root_dir : String) (reference : RunRecordReference) (s t : S)
      → Same backend (record_dir backend codec root_dir reference) s t
      → load_resolved backend codec root_dir reference t
        ≡ load_resolved backend codec root_dir reference s
  unfolding load_resolved resolve load_record read_directory
  load_resolved-Same root_dir reference s t same =
      rw (load_resolved, resolve, same.0)
        (resolved_then (record_dir backend codec root_dir reference)
          (backend.is_directory (record_dir backend codec root_dir reference) s)
          (λ e. load_error_from could_not_resolve e) (load_error could_not_resolve)
          (λ dir. load_record backend codec dir t) (λ dir. load_record backend codec dir s)
          (load_record-Same (record_dir backend codec root_dir reference) s t same))

  pub load_record-read :
      (dir : String) (s : S) (j : Json N)
      → backend.open_directory dir ≡ ok tt
      → backend.read_manifest dir s ≡ ok j
      → load_record backend codec dir s ≡ record_of backend codec j
  unfolding load_record read_directory reraise
  load_record-read dir s j opened found = rw (opened, found)

  -- A record that loads has a manifest.
  pub manifest-load_record :
      (dir : String) (s : S) (r : RunRecord D R)
      → load_record backend codec dir s ≡ ok r
      → (j : Json N) × (backend.read_manifest dir s ≡ ok j)
  unfolding load_record read_directory reraise
  manifest-load_record dir s r loaded =
      read_ok (backend.open_directory dir) (backend.read_manifest dir s) loaded
    where
      read_ok :
          (o : Result Exception (Unit {0})) (m : Result Exception (Json N))
          → (reraise is_document_directory
                (λ e. load_error_from (manifest_read_message e) e)
                (o >> m)
              >>= λ manifest. record_of backend codec manifest)
            ≡ ok r
          → (j : Json N) × (m ≡ ok j)
      read_ok o (ok j) h = (j, refl)
      read_ok (ok u) (err e) h = absurd ground arith
      read_ok (err x) (err e) h = absurd ground arith

  -- The record that loads is the one of the manifest.
  pub manifest-record_of :
      (dir : String) (s : S) (j : Json N) (r : RunRecord D R)
      → backend.read_manifest dir s ≡ ok j
      → load_record backend codec dir s ≡ ok r
      → record_of backend codec j ≡ ok r
  unfolding load_record read_directory reraise
  manifest-record_of dir s j r found loaded =
      by_open (backend.open_directory dir) (backend.read_manifest dir s) found loaded
    where
      by_open :
          (o : Result Exception (Unit {0})) (m : Result Exception (Json N))
          → m ≡ ok j
          → (reraise is_document_directory
                (λ e. load_error_from (manifest_read_message e) e)
                (o >> m)
              >>= λ manifest. record_of backend codec manifest)
            ≡ ok r
          → record_of backend codec j ≡ ok r
      by_open (ok u) m e h =
          subst
            (λ m.
              (reraise is_document_directory (λ e. load_error_from (manifest_read_message e) e) m
                >>= λ manifest. record_of backend codec manifest)
              ≡ ok r)
            e h
      by_open (err x) m e h = absurd ground arith

  -- A directory that gained one manifest at most gained its record at most.
  pub stage-MadeOnly :
      (dir : String) (j : Json N) (q : RunRecord D R) (s t : S)
      → record_of backend codec j ≡ ok q
      → MadeOnly backend dir j s t
      → (stage dir t ≡ none) ⊎ (stage dir t ≡ stage dir s) ⊎ (stage dir t ≡ some q)
  unfolding stage
  stage-MadeOnly dir j q s t made h = by_load (load_record backend codec dir t) refl
    where
      by_load :
          (r : Result Exception (RunRecord D R))
          → load_record backend codec dir t ≡ r
          → (stage dir t ≡ none) ⊎ (stage dir t ≡ stage dir s) ⊎ (stage dir t ≡ some q)
      by_load (err x) e = inl (rw (stage, e))
      by_load (ok r) e =
          let (k, found) = manifest-load_record dir t r e in
          elim (h k found) [
            | inl was ↦ inr (inl (rw (stage, load_record-manifest dir s t (found ∙ sym was))))
            | inr is ↦
                let of_k : record_of backend codec k ≡ ok r =
                  manifest-record_of dir t k r found e in
                let same : record_of backend codec k ≡ ok q =
                  subst (λ x. record_of backend codec x ≡ ok q) (sym is) made in
                inr (
                  inr (
                    rw (stage, e)
                      (ap (λ m. elim m [ ok x ↦ some x | err x ↦ none ]) (sym of_k ∙ same))))
          ]

  pub record_of-dump :
      CodecLaws codec
      → (r : RunRecord D R) → IsValidRecord r
      → record_of backend codec (codec.dump r) ≡ ok r
  unfolding record_of validated unsupported_version is_current
  record_of-dump laws r valid =
      rw (record_of, laws.version_dump r, validated, laws.validate_dump r valid)

  pub resolve-found :
      (root_dir : String) (reference : RunRecordReference) (s : S)
      → backend.is_directory (record_dir backend codec root_dir reference) s ≡ ok true
      → resolve backend codec root_dir reference s
        ≡ ok (record_dir backend codec root_dir reference)
  unfolding resolve reraise
  resolve-found root_dir reference s found = rw found

  -- A reference resolves to its own directory only.
  pub resolve-own :
      (root_dir : String) (reference : RunRecordReference) (s : S) (dir : String)
      → resolve backend codec root_dir reference s ≡ ok dir
      → dir ≡ record_dir backend codec root_dir reference
  unfolding resolve reraise
  resolve-own root_dir reference s dir h =
      own (backend.is_directory (record_dir backend codec root_dir reference) s) h
    where
      own :
          (d : Result Exception Bool)
          → (reraise is_os_error (λ e. load_error_from could_not_resolve e) d >>= λ found.
              if found
              then ok (record_dir backend codec root_dir reference)
              else err (load_error could_not_resolve))
            ≡ ok dir
          → dir ≡ record_dir backend codec root_dir reference
      own (ok true) h = ground arith
      own (ok false) h = absurd ground arith
      own (err e) h = absurd ground arith
