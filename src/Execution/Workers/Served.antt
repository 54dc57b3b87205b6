-- ===== src/Execution/Workers/Served.antt =====
-- What the parent in src/dr_exec/execution/worker_pool.py reads is what the worker in
-- src/dr_exec/execution/worker_pool_worker.py did.
use Prim.Native.String.{String}
use dr_exec.Prelude.{none, some, [], ◌∷◌, ◌≡◌}
use dr_exec.Prelude.Integers.{pos}
use dr_exec.Prelude.Results.{Result, ok, err}
use dr_exec.Prelude.Json.{Json, str, field, end_object}
use dr_exec.Recording.Outcomes.{exited, protocol_failed}
use dr_exec.Execution.Outcomes.{malformed_frame_outcome}
use dr_exec.Execution.Workers.Frames.{
  WorkerFrameStatus, status_ok, payload_raised, payload_result_invalid, executor_rejected,
  status_text, status_of, Document, FrameCodec, envelope_schema, envelope_schema_version,
  is_importable_json_envelope, Answer, protocol_failed_answer, status_frame, result_frame,
  decode_request, handle_result, handle_value, handle_payload, handle_request, handle,
  payload_fields, decoded, worker_frame_payload, frame_status, detail_text, or_null, answer_for,
  interpret,
}

-- How a request fares, without frames.
pub data Fate (N : Type 0) : Type 0 where
  rejects raises returns_invalid : String → Fate N
  returns : Json N → Fate N

module _ {N P B : Type 0} (codec : FrameCodec N P B) where
  abbrev fate_of_result : Result String (Json N) → Fate N
  fate_of_result (err detail) = returns_invalid detail
  fate_of_result (ok result) = returns result

  abbrev fate_of_value : Result String P → Fate N
  fate_of_value (err detail) = raises detail
  fate_of_value (ok value) = fate_of_result (codec.strict_result value)

  abbrev fate_of_payload : (Json N → Result String P) → Result String (Json N) → Fate N
  fate_of_payload entry_point (err detail) = rejects detail
  fate_of_payload entry_point (ok payload) = fate_of_value (entry_point payload)

  abbrev fate_of_request : (Json N → Result String P) → Result String (Document N) → Fate N
  fate_of_request entry_point (err detail) = rejects detail
  fate_of_request entry_point (ok request) =
      fate_of_payload entry_point (codec.strict_request request.payload)

  -- The fate of a request's frame.
  abbrev pub fate : (Json N → Result String P) → B → Fate N
  fate entry_point frame = fate_of_request entry_point (decode_request codec frame)

-- What is to be reported of a fate: an executor's failure only for a rejected request.
abbrev pub reported : {N : Type 0} → Fate N → Answer N
reported (rejects detail) = protocol_failed_answer detail
reported (raises detail) = record {
  outcome = exited (pos 1);
  protocol_outputs = [];
  attribution_detail = some detail;
  attribution_override = none;
}
reported (returns_invalid detail) = record {
  outcome = protocol_failed (malformed_frame_outcome detail);
  protocol_outputs = [];
  attribution_detail = none;
  attribution_override = none;
}
reported (returns result) = record {
  outcome = exited (pos 0);
  protocol_outputs =
      record {
        schema = envelope_schema;
        schema_version = envelope_schema_version;
        payload = result;
      }
      ∷ [];
  attribution_detail = none;
  attribution_override = none;
}

-- A document survives being encoded.
pub record FrameLaws {N P B : Type 0} (codec : FrameCodec N P B) : Type 0 where
  pub decode_encode : (d : Document N) → codec.decode (codec.encode d) ≡ ok d

module _ {N P B : Type 0} (codec : FrameCodec N P B) (laws : FrameLaws codec) where
  interpret-status_frame :
      (status : WorkerFrameStatus) (detail : String)
      → interpret codec (status_frame codec status detail)
        ≡ answer_for codec
            (some status)
            (field "status" (str (status_text status)) (field "detail" (str detail) end_object))
  unfolding worker_frame_payload is_importable_json_envelope decoded payload_fields status_text
      status_of frame_status interpret answer_for status_frame or_null
  interpret-status_frame status_ok detail =
      rw (interpret, status_frame, worker_frame_payload, laws.decode_encode)
  interpret-status_frame payload_raised detail =
      rw (interpret, status_frame, worker_frame_payload, laws.decode_encode)
  interpret-status_frame payload_result_invalid detail =
      rw (interpret, status_frame, worker_frame_payload, laws.decode_encode)
  interpret-status_frame executor_rejected detail =
      rw (interpret, status_frame, worker_frame_payload, laws.decode_encode)

  interpret-result_frame :
      (result : Json N) → interpret codec (result_frame codec result) ≡ reported (returns result)
  unfolding worker_frame_payload is_importable_json_envelope decoded payload_fields status_text
      status_of frame_status answer_for or_null interpret result_frame
  interpret-result_frame result =
      rw (interpret, result_frame, worker_frame_payload, laws.decode_encode)

  interpret-handle_result :
      (r : Result String (Json N))
      → interpret codec (handle_result codec r) ≡ reported (fate_of_result codec r)
  unfolding handle_result answer_for detail_text
  interpret-handle_result (err detail) = interpret-status_frame payload_result_invalid detail
  interpret-handle_result (ok result) = interpret-result_frame result

  interpret-handle_value :
      (r : Result String P)
      → interpret codec (handle_value codec r) ≡ reported (fate_of_value codec r)
  unfolding handle_value answer_for detail_text
  interpret-handle_value (err detail) = interpret-status_frame payload_raised detail
  interpret-handle_value (ok value) = interpret-handle_result (codec.strict_result value)

  interpret-handle_payload :
      (entry_point : Json N → Result String P) (r : Result String (Json N))
      → interpret codec (handle_payload codec entry_point r)
        ≡ reported (fate_of_payload codec entry_point r)
  unfolding handle_payload answer_for detail_text
  interpret-handle_payload entry_point (err detail) =
      interpret-status_frame executor_rejected detail
  interpret-handle_payload entry_point (ok payload) = interpret-handle_value (entry_point payload)

  interpret-handle_request :
      (entry_point : Json N → Result String P) (r : Result String (Document N))
      → interpret codec (handle_request codec entry_point r)
        ≡ reported (fate_of_request codec entry_point r)
  unfolding handle_request answer_for detail_text
  interpret-handle_request entry_point (err detail) =
      interpret-status_frame executor_rejected detail
  interpret-handle_request entry_point (ok request) =
      interpret-handle_payload entry_point (codec.strict_request request.payload)

  -- What the parent makes of the frame with which the worker answers a request is what is to be reported of
  -- the request: the result it returned, or why there is none. Decoding undoes encoding.
  pub interpret-handle :
      (entry_point : Json N → Result String P) (frame : B)
      → interpret codec (handle codec entry_point frame) ≡ reported (fate codec entry_point frame)
  unfolding handle
  interpret-handle entry_point frame =
      interpret-handle_request entry_point (decode_request codec frame)
