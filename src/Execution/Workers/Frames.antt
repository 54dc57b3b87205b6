-- ===== src/Execution/Workers/Frames.antt =====
-- A job on a worker: `_handle` of src/dr_exec/execution/worker_pool_worker.py answers a request, and
-- `_Execution.interpret` of src/dr_exec/execution/worker_pool.py reads the answer. dr_serialize, the entry
-- point and the rendering of its exceptions are parameters; a frame is a type B,
-- and what the entry point returns a type P.
use Prim.Native.String.{String}
use text.Mathlib.Text.{◌==◌ as str_eq}
use dr_exec.Prelude.{ℕ, Bool, ◌&&◌, ◌==◌, Option, none, some, List, [], ◌∷◌, if◌then◌else◌}
use dr_exec.Prelude.Integers.{pos}
use dr_exec.Prelude.Results.{Result, ok, err, ◌>>=◌}
use dr_exec.Prelude.Json.{Json, null, str, object, Fields, field, end_object, get}
use dr_exec.Recording.Outcomes.{
  ExecutionOutcome, exited, protocol_failed, ProtocolFailedOutcome, ExecutionAttribution,
}
use dr_exec.Execution.Outcomes.{malformed_frame_outcome, executor_protocol_failure_attribution}

pub data WorkerFrameStatus : Type 0 where
  status_ok payload_raised payload_result_invalid executor_rejected : WorkerFrameStatus

unfoldable pub status_text : WorkerFrameStatus → String
status_text status_ok = "ok"
status_text payload_raised = "payload_raised"
status_text payload_result_invalid = "payload_result_invalid"
status_text executor_rejected = "executor_rejected"

-- `WorkerFrameStatus(text)`.
unfoldable pub status_of : String → Option WorkerFrameStatus
status_of text =
    if str_eq text "ok"
    then some status_ok
    else if str_eq text "payload_raised"
    then some payload_raised
    else if str_eq text "payload_result_invalid"
    then some payload_result_invalid
    else if str_eq text "executor_rejected"
    then some executor_rejected
    else none

-- An identity document of dr_serialize.
pub record Document (N : Type 0) : Type 0 where
  pub schema : String
  pub schema_version : ℕ
  pub payload : Json N

-- The canonical bytes of a document with the terminator, the document of a frame, or the text of the exception
-- that decoding raised, the strict validation of a request and of a result, and `str` of a value that is no text.
pub record FrameCodec (N P B : Type 0) : Type 0 where
  pub encode : Document N → B
  pub decode : B → Result String (Document N)
  pub strict_request : Json N → Result String (Json N)
  pub strict_result : P → Result String (Json N)
  pub show : Option (Json N) → String

abbrev pub envelope_schema : String
envelope_schema = "dr_exec.importable_json"

abbrev pub envelope_schema_version : ℕ
envelope_schema_version = 1

abbrev pub envelope : {N : Type 0} → Fields N → Document N
envelope payload = record {
  schema = envelope_schema;
  schema_version = envelope_schema_version;
  payload = object payload;
}

unfoldable pub is_importable_json_envelope : {N : Type 0} → Document N → Bool
is_importable_json_envelope d =
    str_eq d.schema envelope_schema && d.schema_version == envelope_schema_version

-- What the parent reports of a job.
pub record Answer (N : Type 0) : Type 0 where
  pub outcome : ExecutionOutcome
  pub protocol_outputs : List (Document N)
  pub attribution_detail : Option String
  pub attribution_override : Option (ProtocolFailedOutcome → ExecutionAttribution)

unfoldable pub protocol_failed_answer : {N : Type 0} → String → Answer N
protocol_failed_answer detail = record {
  outcome = protocol_failed (malformed_frame_outcome detail);
  protocol_outputs = [];
  attribution_detail = none;
  attribution_override = some executor_protocol_failure_attribution;
}

module _ {N P B : Type 0} (codec : FrameCodec N P B) where
  unfoldable pub status_frame : WorkerFrameStatus → String → B
  status_frame status detail = codec.encode (
      envelope (field "status" (str (status_text status)) (field "detail" (str detail) end_object)))

  unfoldable pub result_frame : Json N → B
  result_frame result =
      codec.encode
        (envelope (field "status" (str (status_text status_ok)) (field "result" result end_object)))

  -- `_decode_request`, with the text of what it raises.
  unfoldable pub decode_request : B → Result String (Document N)
  decode_request frame = do
    document ← codec.decode frame
    if is_importable_json_envelope document
        then ok document
        else err "request does not use the importable JSON envelope"

  -- `_handle`, from its last check to its first. The entry point raises the text that
  -- `format_payload_error_detail` renders.
  unfoldable pub handle_result : Result String (Json N) → B
  handle_result (err detail) = status_frame payload_result_invalid detail
  handle_result (ok result) = result_frame result

  unfoldable pub handle_value : Result String P → B
  handle_value (err detail) = status_frame payload_raised detail
  handle_value (ok value) = handle_result (codec.strict_result value)

  unfoldable pub handle_payload : (Json N → Result String P) → Result String (Json N) → B
  handle_payload entry_point (err detail) = status_frame executor_rejected detail
  handle_payload entry_point (ok payload) = handle_value (entry_point payload)

  unfoldable pub handle_request : (Json N → Result String P) → Result String (Document N) → B
  handle_request entry_point (err detail) = status_frame executor_rejected detail
  handle_request entry_point (ok request) =
      handle_payload entry_point (codec.strict_request request.payload)

  unfoldable pub handle : (Json N → Result String P) → B → B
  handle entry_point frame = handle_request entry_point (decode_request frame)

  unfoldable pub payload_fields : Json N → Result String (Fields N)
  payload_fields (object fields) = ok fields
  payload_fields _ = err "the worker result payload is not an object"

  unfoldable pub decoded : Result String (Document N) → Result String (Document N)
  decoded (ok document) = ok document
  decoded (err detail) = err "the worker returned a malformed frame"

  -- `_worker_frame_payload`, with the text of what it raises.
  unfoldable pub worker_frame_payload : B → Result String (Fields N)
  worker_frame_payload frame = do
    document ← decoded (codec.decode frame)
    if is_importable_json_envelope document
        then payload_fields document.payload
        else err "the worker result does not use the envelope"

  -- `_frame_status`.
  unfoldable pub frame_status : Option (Json N) → Option WorkerFrameStatus
  frame_status (some (str text)) = status_of text
  frame_status _ = none

  -- `str(detail)`.
  unfoldable pub detail_text : Option (Json N) → String
  detail_text (some (str text)) = text
  detail_text value = codec.show value

  -- `payload.get(RESULT_KEY)`, which is None without one.
  unfoldable pub or_null : Option (Json N) → Json N
  or_null (some result) = result
  or_null none = null

  unfoldable pub answer_for : Option WorkerFrameStatus → Fields N → Answer N
  answer_for (some status_ok) payload = record {
    outcome = exited (pos 0);
    protocol_outputs =
        record {
          schema = envelope_schema;
          schema_version = envelope_schema_version;
          payload = or_null (get "result" payload);
        }
        ∷ [];
    attribution_detail = none;
    attribution_override = none;
  }
  answer_for (some payload_raised) payload = record {
    outcome = exited (pos 1);
    protocol_outputs = [];
    attribution_detail = some (detail_text (get "detail" payload));
    attribution_override = none;
  }
  answer_for (some payload_result_invalid) payload = record {
    outcome = protocol_failed (malformed_frame_outcome (detail_text (get "detail" payload)));
    protocol_outputs = [];
    attribution_detail = none;
    attribution_override = none;
  }
  answer_for (some executor_rejected) payload =
      protocol_failed_answer (detail_text (get "detail" payload))
  answer_for none payload = protocol_failed_answer "the worker returned an unknown result status"

  -- `_Execution.interpret`.
  unfoldable pub interpret : B → Answer N
  interpret frame = elim (worker_frame_payload frame) [
    | err detail ↦ protocol_failed_answer detail
    | ok payload ↦ answer_for (frame_status (get "status" payload)) payload
  ]
