-- ===== src/Recording/Store/Reading.antt =====
-- How src/dr_exec/recording/store.py finds and reads a record.
use Prim.Native.String.{String, ◌++◌}
use text.Mathlib.Text.{◌==◌ as str_eq}
use dr_exec.Prelude.{
  ℕ, Bool, true, false, not, ◌&&◌, ◌||◌, Option, none, some, List, ◌==◌, ltb, if◌then◌else◌,
}
use dr_exec.Prelude.Integers.{ℤ, pos, negsuc}
use dr_exec.Prelude.Results.{Result, ok, err, ◌>>=◌, ◌>>◌, raise_if}
use dr_exec.Prelude.Json.{Json, integer, object, get}
use dr_exec.Core.Kinds.{RecordState}
use dr_exec.Recording.Results.{RunRecordReference}
use dr_exec.Recording.Stored.{RetainedPayloadStreamRecord}
use dr_exec.Recording.Runs.{
  RunRecord, prepared, running, finalized, FinalizedRecord, OutputArtifactRecord, record_state,
  RecordedRun,
}
use dr_exec.Recording.Store.Errors.{
  Exception, root, because, artifact, sidecar, RecordLoadError, unsupported_schema_version,
  not_a_lifecycle_record, could_not_resolve, not_finalized, artifact_not_owned,
  artifact_exceeds_limit, unexpected_artifact_path, could_not_verify, could_not_verify_sidecars,
  validation_error, document_directory, sidecar_verification, verified_read, record_load, class_of,
  is_document_directory, is_record_load, is_os_error, manifest_read_message,
  regular_child_load_error_message,
}
use dr_exec.Recording.Store.Backend.{Backend, Codec}

abbrev pub stdout_sidecar_name : String
stdout_sidecar_name = "stdout.bin"

abbrev pub stderr_sidecar_name : String
stderr_sidecar_name = "stderr.bin"

abbrev pub load_error : RecordLoadError → Exception
load_error message = root (record_load message) none

abbrev pub load_error_from : RecordLoadError → Exception → Exception
load_error_from message cause = because (record_load message) none cause

-- `isinstance(version, int)` of a value that is no bool.
unfoldable pub integer_of : {N : Type 0} → Option (Json N) → Option ℤ
integer_of (some (integer version)) = some version
integer_of _ = none

unfoldable pub object_version : {N : Type 0} → Option (Json N) → Option ℤ
object_version (some (object header)) = integer_of (get "schema_version" header)
object_version _ = none

-- `_header_schema_version`.
unfoldable pub header_schema_version : {N : Type 0} → Json N → Option ℤ
header_schema_version (object manifest) = object_version (get "header" manifest)
header_schema_version _ = none

-- `version == _CURRENT_RUN_RECORD_SCHEMA_VERSION`.
unfoldable pub is_current : ℤ → Bool
is_current (pos n) = n == 2
is_current (negsuc n) = false

-- The version, if it is one that this program does not read.
unfoldable pub unsupported_version : Option ℤ → Option ℤ
unsupported_version none = none
unsupported_version (some version) = if is_current version then none else some version

-- `try: m  except C as e: raise f e`.
unfoldable pub reraise :
    {A : Type 0}
    → (Exception → Bool)
    → (Exception → Exception)
    → Result Exception A
    → Result Exception A
reraise catches f (ok a) = ok a
reraise catches f (err e) = if catches e then err (f e) else err e

module _ {N D R W S : Type 0} (backend : Backend N W S) (codec : Codec N D R) where
  -- `_directory(record_dir).read_manifest()`.
  unfoldable pub read_directory : String → S → Result Exception (Json N)
  read_directory record_dir s = do
    backend.open_directory record_dir
    backend.read_manifest record_dir s

  unfoldable pub validated : Json N → Result Exception (RunRecord D R)
  validated manifest = elim (codec.validate_json manifest) [
    | some r ↦ ok r
    | none ↦ err (load_error_from not_a_lifecycle_record (root validation_error none))
  ]

  -- What `_load_record` makes of a manifest that was read.
  unfoldable pub record_of : Json N → Result Exception (RunRecord D R)
  record_of manifest = elim (unsupported_version (header_schema_version manifest)) [
    | some version ↦ err (load_error (unsupported_schema_version version))
    | none ↦ validated manifest
  ]

  -- `_load_record`.
  unfoldable pub load_record : String → S → Result Exception (RunRecord D R)
  load_record record_dir s = do
    manifest ←
        reraise is_document_directory (λ e. load_error_from (manifest_read_message e) e)
          (read_directory record_dir s)
    record_of manifest

  -- `_unsupported_lifecycle_schema_version`.
  unfoldable pub unsupported_lifecycle_schema_version : String → S → Result Exception (Option ℤ)
  unsupported_lifecycle_schema_version record_dir s = elim (read_directory record_dir s) [
    | ok manifest ↦ ok (unsupported_version (header_schema_version manifest))
    | err e ↦ if is_document_directory e then ok none else err e
  ]

  module _ (root_dir : String) where
    unfoldable pub record_dir : RunRecordReference → String
    record_dir reference = backend.join root_dir ("run-" ++ reference.record_id)

    -- `_resolve`; a reference is of the directory backend, with an identity, by its type.
    unfoldable pub resolve : RunRecordReference → S → Result Exception String
    resolve reference s = do
      found ←
          reraise is_os_error (λ e. load_error_from could_not_resolve e)
            (backend.is_directory (record_dir reference) s)
      if found then ok (record_dir reference) else err (load_error could_not_resolve)

    unfoldable pub load_resolved : RunRecordReference → S → Result Exception (RunRecord D R)
    load_resolved reference s = do record_dir ← resolve reference s; load_record record_dir s

    -- `_durable_state`.
    unfoldable pub durable_state : RecordedRun D R → S → Result Exception RecordState
    durable_state run s = elim (load_resolved run.reference s) [
      | ok r ↦ ok (record_state r)
      | err e ↦ if is_record_load e then ok run.durable_state else err e
    ]

    -- What one sidecar's verification raises, as an error of loading.
    unfoldable pub sidecar_error : String → Exception → Exception
    sidecar_error name e = elim (class_of e) [
      | sidecar_verification reason ↦
          load_error_from (regular_child_load_error_message (sidecar name) reason) e
      | document_directory class ↦ load_error_from (could_not_verify name) e
      | _ ↦ e
    ]

    -- The body of the loop in `_verify_sidecars`.
    unfoldable pub verify_artifact :
        String
        → S
        → String
        → OutputArtifactRecord
        → RetainedPayloadStreamRecord
        → Result Exception (Unit {0})
    verify_artifact record_dir s expected_name owned stream =
        if not (str_eq owned.relative_path expected_name)
        then err (load_error (unexpected_artifact_path expected_name))
        else reraise (λ e. true) (sidecar_error expected_name)
            (backend.verify_sidecar record_dir expected_name owned.sha256 stream.head_bytes
              stream.tail_bytes s)

    -- `_verify_sidecars`.
    unfoldable pub verify_sidecars : String → S → FinalizedRecord D R → Result Exception (Unit {0})
    verify_sidecars record_dir s r = do
      reraise is_document_directory (λ e. load_error_from could_not_verify_sidecars e)
          (backend.open_directory record_dir)
      verify_artifact record_dir s stdout_sidecar_name r.outputs.stdout
          r.result.payload_outputs.stdout
      verify_artifact record_dir s stderr_sidecar_name r.outputs.stderr
          r.result.payload_outputs.stderr

    unfoldable pub verify_loaded : String → S → RunRecord D R → Result Exception (RunRecord D R)
    verify_loaded record_dir s (finalized r) = do verify_sidecars record_dir s r; ok (finalized r)
    verify_loaded record_dir s (prepared r) = ok (prepared r)
    verify_loaded record_dir s (running r) = ok (running r)

    unfoldable pub load : RunRecordReference → S → Result Exception (RunRecord D R)
    load reference s = do
      record_dir ← resolve reference s
      r ← load_record record_dir s
      verify_loaded record_dir s r

    unfoldable pub same_artifact : OutputArtifactRecord → OutputArtifactRecord → Bool
    same_artifact a b =
        str_eq a.relative_path b.relative_path
        && (a.size_bytes == b.size_bytes && str_eq a.sha256 b.sha256)

    unfoldable pub finalized_only : RunRecord D R → Result Exception (FinalizedRecord D R)
    finalized_only (finalized r) = ok r
    finalized_only _ = err (load_error not_finalized)

    unfoldable pub read_error : String → Exception → Exception
    read_error name e = elim (class_of e) [
      | verified_read reason ↦
          load_error_from (regular_child_load_error_message (artifact name) reason) e
      | _ ↦ e
    ]

    -- `read_artifact`, whose `max_bytes` is no negative number by its type.
    unfoldable pub read_artifact :
        RunRecordReference → OutputArtifactRecord → ℕ → S → Result Exception (List ℕ)
    read_artifact reference owned max_bytes s = do
      record_dir ← resolve reference s
      loaded ← load_record record_dir s
      r ← finalized_only loaded
      raise_if (not (same_artifact owned r.outputs.stdout || same_artifact owned r.outputs.stderr))
          (load_error artifact_not_owned)
      raise_if (ltb max_bytes owned.size_bytes) (load_error artifact_exceeds_limit)
      reraise (λ e. true) (read_error owned.relative_path)
          (backend.read_verified_child record_dir owned.relative_path max_bytes owned.size_bytes
            owned.sha256 s)
