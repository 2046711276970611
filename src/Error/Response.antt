-- ===== src/Error/Response.antt =====
-- src/error.rs: `into_response`. `message` is the text of a reason, `chain` that of a fault.
use zun_rust_server.Prelude.{ℕ, Bool, true, Option, none, some}
use zun_rust_server.Prelude.Text.{Text, text}
use zun_rust_server.Error.{
  AppError, unauthorized, not_found, not_ready, bad_request, payload_too_large, need_upload,
  internal, Reason, Fault, status_and_code,
}
use zun_rust_server.Error.Redact.{redact_internal}

-- The body; the last two fields are there for a missing upload only.
pub record ErrorBody : Type 0 where
  pub error : Text
  pub code : Text
  pub need_upload : Option Bool
  pub input_id : Option (Option ℕ)

pub record ErrorResponse : Type 0 where
  pub status : ℕ
  pub body : ErrorBody

-- `to_string`; the text of an upload that is too large is the reader's.
unfoldable pub to_text : (Reason → Text) → Text → AppError → Text
to_text message too_large unauthorized = text "unauthorized"
to_text message too_large not_found = text "not found"
to_text message too_large (bad_request r) = message r
to_text message too_large payload_too_large = too_large
to_text message too_large not_ready = text "job not ready yet"
to_text message too_large (need_upload i) = text "input cache miss; re-upload required"
to_text message too_large (internal f) = text "internal error"

abbrev plain_body : Text → Text → ErrorBody
plain_body error code = record { error = error; code = code; need_upload = none; input_id = none }

abbrev redacted_body : Text → Option Text → Option ErrorBody
redacted_body code none = none
redacted_body code (some error) = some (plain_body error code)

-- `none` is the panic of the redaction.
unfoldable pub body_of :
    (Reason → Text) → Text → (Fault → Text) → AppError → Text → Option ErrorBody
unfolding to_text redact_internal
body_of message too_large chain (need_upload i) code = some (record {
  error = to_text message too_large (need_upload i);
  code = code;
  need_upload = some true;
  input_id = some i;
})
body_of message too_large chain (internal f) code = redacted_body code (redact_internal (chain f))
body_of message too_large chain unauthorized code =
    some (plain_body (to_text message too_large unauthorized) code)
body_of message too_large chain not_found code =
    some (plain_body (to_text message too_large not_found) code)
body_of message too_large chain not_ready code =
    some (plain_body (to_text message too_large not_ready) code)
body_of message too_large chain payload_too_large code =
    some (plain_body (to_text message too_large payload_too_large) code)
body_of message too_large chain (bad_request r) code =
    some (plain_body (to_text message too_large (bad_request r)) code)

abbrev with_status : ℕ → Option ErrorBody → Option ErrorResponse
with_status status none = none
with_status status (some body) = some (record { status = status; body = body })

unfoldable pub into_response :
    (Reason → Text) → Text → (Fault → Text) → AppError → Option ErrorResponse
unfolding body_of status_and_code
into_response message too_large chain e =
    let (status, code) = status_and_code e in
    with_status status (body_of message too_large chain e code)
