-- ===== src/Recording/Store/Errors.antt =====
-- The exceptions of src/dr_exec/recording/store.py and what it reads off them. The text of a
-- `RecordLoadError` is one constructor for each message.
use Prim.Native.String.{String}
use dr_exec.Prelude.{Bool, true, false, ◌||◌, Option, none, some}
use dr_exec.Prelude.Integers.{ℤ}
use dr_exec.Core.Kinds.{ExecutorFailureCode}
use dr_exec.Recording.Runs.{RecordingFailure}

-- `RegularChildFailureReason`, of dr_store.
pub data RegularChildFailureReason : Type 0 where
  missing not_regular bounds_exceeded unsupported_platform mismatch : RegularChildFailureReason

-- Which child of a record's directory a message is about.
pub data Child : Type 0 where
  artifact sidecar : String → Child

pub data RecordLoadError : Type 0 where
  manifest_exceeds_ceiling manifest_not_canonical manifest_unreadable : RecordLoadError
  unsupported_schema_version : ℤ → RecordLoadError
  not_a_lifecycle_record could_not_resolve already_finalized : RecordLoadError
  not_finalized artifact_not_owned artifact_exceeds_limit : RecordLoadError
  unexpected_artifact_path : String → RecordLoadError
  child_missing child_not_regular child_exceeds_bounds : Child → RecordLoadError
  child_unsupported_platform child_does_not_match : Child → RecordLoadError
  could_not_verify : String → RecordLoadError
  could_not_verify_sidecars : RecordLoadError

pub data ErrorClass : Type 0 where
  -- a DocumentDirectoryError, by the name of its class
  document_directory : String → ErrorClass
  sidecar_verification verified_read : RegularChildFailureReason → ErrorClass
  record_load : RecordLoadError → ErrorClass
  executor_failure : ExecutorFailureCode → ErrorClass
  json_byte_limit serialization value_error validation_error : ErrorClass
  file_exists other_os_error : ErrorClass
  other : String → ErrorClass

-- An exception with the `errno` it has and the exception it names as its cause.
pub data Exception : Type 0 where
  root : ErrorClass → Option ℤ → Exception
  because : ErrorClass → Option ℤ → Exception → Exception

unfoldable pub class_of : Exception → ErrorClass
class_of (root c errno) = c
class_of (because c errno cause) = c

-- `type(error).__name__`.
unfoldable pub class_name : ErrorClass → String
class_name (document_directory name) = name
class_name (sidecar_verification reason) = "SidecarVerificationError"
class_name (verified_read reason) = "VerifiedRegularChildReadError"
class_name (record_load message) = "RecordLoadError"
class_name (executor_failure code) = "ExecutorFailure"
class_name json_byte_limit = "JsonByteLimitError"
class_name serialization = "SerializationError"
class_name value_error = "ValueError"
class_name validation_error = "ValidationError"
class_name file_exists = "FileExistsError"
class_name other_os_error = "OSError"
class_name (other name) = name

unfoldable pub is_document_directory : Exception → Bool
is_document_directory e = elim (class_of e) [
  | document_directory name ↦ true
  | sidecar_verification reason ↦ true
  | _ ↦ false
]

unfoldable pub is_record_load : Exception → Bool
is_record_load e = elim (class_of e) [ record_load message ↦ true | _ ↦ false ]

-- What `finalize` and `_executor_failure` catch.
unfoldable pub is_recording_error : Exception → Bool
is_recording_error e = is_document_directory e || is_record_load e

unfoldable pub is_file_exists : Exception → Bool
is_file_exists e = elim (class_of e) [ file_exists ↦ true | _ ↦ false ]

unfoldable pub is_os_error : Exception → Bool
is_os_error e = elim (class_of e) [ file_exists ↦ true | other_os_error ↦ true | _ ↦ false ]

-- `_explicit_cause_chain_errno`: the first number on the way along the causes.
unfoldable pub cause_chain_errno : Exception → Option ℤ
cause_chain_errno (root c errno) = errno
cause_chain_errno (because c (some number) cause) = some number
cause_chain_errno (because c none cause) = cause_chain_errno cause

unfoldable pub recording_failure : String → Exception → RecordingFailure
recording_failure operation e = record {
  operation = operation;
  errno = cause_chain_errno e;
  detail = some (class_name (class_of e));
  failure_code = none;
}

-- What one exception of the chain says about an unreadable manifest.
unfoldable pub manifest_class_message : ErrorClass → Option RecordLoadError
manifest_class_message json_byte_limit = some manifest_exceeds_ceiling
manifest_class_message serialization = some manifest_not_canonical
manifest_class_message value_error = some manifest_not_canonical
manifest_class_message validation_error = some manifest_not_canonical
manifest_class_message (record_load message) = some manifest_not_canonical
manifest_class_message _ = none

-- `_manifest_read_message`.
unfoldable pub manifest_read_message : Exception → RecordLoadError
manifest_read_message (root c errno) = elim (manifest_class_message c) [
  | some message ↦ message
  | none ↦ manifest_unreadable
]
manifest_read_message (because c errno cause) =
    let rest = manifest_read_message cause in
    elim (manifest_class_message c) [ some message ↦ message | none ↦ rest ]

-- `_regular_child_load_error_message`.
unfoldable pub regular_child_load_error_message :
    Child → RegularChildFailureReason → RecordLoadError
regular_child_load_error_message child missing = child_missing child
regular_child_load_error_message child not_regular = child_not_regular child
regular_child_load_error_message child bounds_exceeded = child_exceeds_bounds child
regular_child_load_error_message child unsupported_platform = child_unsupported_platform child
regular_child_load_error_message child mismatch = child_does_not_match child
