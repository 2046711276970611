-- ===== src/Error.antt =====
-- src/error.rs: the errors of a request. A message is the value of `Reason` that its text is
-- formatted from, and an internal error the one of `Fault`.
pub mod Redact
pub mod Response
use zun_rust_server.Prelude.{
  ℕ, ◌≤◌, ◌≡◌, refl, ◌⊎◌, inl, inr, Bool, true, false, Option, none, some, if◌then◌else◌, leb, ltb,
  ◌&&◌,
}
use zun_rust_server.Prelude.Int.{ℤ}
use zun_rust_server.Prelude.Text.{Text, text}

pub data Field : Type 0 where
  label description prompt_body : Field

pub data Reason : Type 0 where
  bad_sha256 : Reason
  input_name_too_long : Reason
  both_prompts no_prompt : Reason
  unknown_prompt_id : ℤ → Reason
  workflow_required prompt_text_blank prompt_text_too_long : Reason
  unknown_workflow unsupported_workflow : Text → Reason
  hash_mismatch : Text → Text → Reason
  unsupported_content_type unsupported_image_type invalid_json : Reason
  invalid_multipart prompt_id_not_integer sha256_required : Reason
  unknown_status : Text → Reason
  invalid_cursor : Reason
  label_blank text_blank : Reason
  too_long : Field → ℕ → Reason
  timeout_out_of_range : Reason

pub data Fault : Type 0 where
  database : Fault
  io : Fault
  path_unexpected : Fault
  invalid_filename : Text → Fault
  missing_output_path : Fault
  render_failed : Fault

pub data AppError : Type 0 where
  unauthorized not_found not_ready : AppError
  bad_request : Reason → AppError
  payload_too_large : AppError
  need_upload : Option ℕ → AppError
  internal : Fault → AppError

-- The HTTP status and the `code` of the body.
unfoldable pub status_and_code : AppError → ℕ × Text
status_and_code unauthorized = (401, text "unauthorized")
status_and_code not_found = (404, text "not_found")
status_and_code (bad_request r) = (400, text "bad_request")
status_and_code payload_too_large = (413, text "payload_too_large")
status_and_code not_ready = (409, text "not_ready")
status_and_code (need_upload i) = (409, text "need_upload")
status_and_code (internal f) = (500, text "internal")

-- What a handler answers; the error's type is always `AppError`.
pub data Result {ℓ} (T : Type ℓ) : Type ℓ where
  err : AppError → Result T
  ok : T → Result T

-- The operator `?`: an error returns at once.
abbrev pub ◌>>=◌ {ℓ κ} :
    {T : Type ℓ} {U : Type κ} → (answer : Result T) → (rest : T → Result U) → Result U
err refusal >>= rest = err refusal
ok value >>= rest = rest value

abbrev pub ◌>>◌ {κ} : {U : Type κ} → (check : Result (Unit {0})) → (rest : Result U) → Result U
check >> rest = check >>= λ passed. rest

infixl 5 ◌>>=◌ ◌>>◌
-- `if test { return Err(e) }`
abbrev pub fail_if : Bool → AppError → Result (Unit {0})
fail_if true e = err e
fail_if false e = ok tt

-- `ok_or`
abbrev pub ok_or {ℓ} : {A : Type ℓ} → Option A → AppError → Result A
ok_or none e = err e
ok_or (some a) e = ok a

-- Inversion of a sequence of checks that passes.
pub >>-eq-ok {ℓ} :
    {B : Type ℓ} (m : Result (Unit {0})) (k : Result B) {b : B}
    → (m >> k) ≡ ok b
    → (m ≡ ok tt) × (k ≡ ok b)
>>-eq-ok (ok tt) k h = (refl, h)
>>-eq-ok (err e) k h = cc

pub fail_if_passes : (b : Bool) (e : AppError) → fail_if b e ≡ ok tt → b ≡ false
fail_if_passes true e h = cc
fail_if_passes false e h = refl

pub Result-cases : (r : Result (Unit {0})) → (r ≡ ok tt) ⊎ ((e : AppError) × (r ≡ err e))
Result-cases (ok tt) = inl refl
Result-cases (err e) = inr (e, refl)
