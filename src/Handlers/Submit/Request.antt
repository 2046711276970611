-- ===== src/Handlers/Submit/Request.antt =====
-- src/handlers.rs: the request of `submit_job` and its parsing. What axum, the clock, the random
-- numbers, the image decoder and the file system give is the request and the `SubmitEnv`.
use zun_rust_server.Prelude.{
  ℕ, ◌/◌, ◌%◌, ◌^◌, Bool, List, [], ◌∷◌, Option, none, some, if◌then◌else◌,
}
use zun_rust_server.Prelude.Int.{ℤ}
use zun_rust_server.Prelude.Text.{Text, text, text_eq, starts_with}
use zun_rust_server.Error.{
  AppError, Result, ok, err, bad_request, payload_too_large, unsupported_content_type,
  unsupported_image_type, invalid_json, invalid_multipart, prompt_id_not_integer, sha256_required,
  ◌>>=◌, ok_or,
}
use zun_rust_server.Server.{Bytes}
use zun_rust_server.Hash.{Digest}
use zun_rust_server.Paths.{Io}
use zun_rust_server.Workflow.Registry.{WorkflowRegistry}

pub record SubmitEnv : Type 0 where
  pub data_dir : Text
  pub workflows : WorkflowRegistry
  pub digest : Digest
  pub parse_i64 : Text → Option ℤ
  pub dimensions : Bytes → Option (ℕ × ℕ)
  -- The clock in `resolve_input` and in `submit_job`.
  pub now_input : ℤ
  pub now_job : ℤ
  pub uuid : Text
  pub random : ℕ
  pub suffix : Bytes
  pub create_dir_error : Bool
  pub io : Io

-- `rand::random::<u64>() >> 1`
unfoldable pub random_seed : ℕ → ℕ
random_seed r = r % 2 ^ 64 / 2

pub record SubmitJson : Type 0 where
  pub input_sha256 : Text
  pub input_name : Option Text
  pub prompt_id : Option ℤ
  pub prompt_text : Option Text
  pub workflow : Option Text

pub record Upload : Type 0 where
  pub bytes : Bytes
  pub ext : Text
  pub content_type : Text

pub record SubmitFields : Type 0 where
  pub input_sha256 : Text
  pub input_name : Option Text
  pub prompt_id : Option ℤ
  pub prompt_text : Option Text
  pub workflow_override : Option Text
  pub upload : Option Upload

-- An error of the multipart reader: of the size limit or another.
pub data MultipartError : Type 0 where
  over_limit malformed : MultipartError

abbrev pub of_multipart : MultipartError → AppError
of_multipart over_limit = payload_too_large
of_multipart malformed = bad_request invalid_multipart

pub data Read (A : Type 0) : Type 0 where
  got : A → Read A
  broke : MultipartError → Read A

abbrev pub read : {A : Type 0} → Read A → Result A
read (got a) = ok a
read (broke e) = err (of_multipart e)

-- A field of the form: its name and content type, and what reading its body as bytes and as text
-- gives.
pub record Part : Type 0 where
  pub name : Option Text
  pub content_type : Option Text
  pub bytes : Read Bytes
  pub text : Read Text

-- `json` and `form` are what the extractors read; `none` is their rejection.
pub record Request : Type 0 where
  pub content_type : Option Text
  pub json : Option SubmitJson
  pub form : Option (List (Read Part))

-- The variables of `parse_multipart`.
pub record Collected : Type 0 where
  pub input_sha256 : Option Text
  pub input_name : Option Text
  pub prompt_id : Option ℤ
  pub prompt_text : Option Text
  pub workflow : Option Text
  pub upload : Option Upload

abbrev pub nothing_collected : Collected
nothing_collected = record {
  input_sha256 = none;
  input_name = none;
  prompt_id = none;
  prompt_text = none;
  workflow = none;
  upload = none;
}

-- The extension and content type for the content type that the client declares.
unfoldable pub image_type : Text → Option (Text × Text)
image_type ct =
    if text_eq ct (text "image/jpeg")
    then some (text "jpg", text "image/jpeg")
    else if text_eq ct (text "image/png")
    then some (text "png", text "image/png")
    else none

abbrev pub or_empty : Option Text → Text
or_empty none = []
or_empty (some t) = t

abbrev pub collect_image : Part → Collected → Result Collected
collect_image part c = do
  kind ← ok_or (image_type (or_empty part.content_type)) (bad_request unsupported_image_type)
  bytes ← read part.bytes
  ok (record c { upload = some (record { bytes = bytes; ext = kind.0; content_type = kind.1 }) })

abbrev pub collect_text : Part → (Text → Collected) → Result Collected
collect_text part store = do t ← read part.text; ok (store t)

abbrev pub collect_prompt_id : SubmitEnv → Part → Collected → Result Collected
collect_prompt_id env part c = do
  t ← read part.text
  id ← ok_or (env.parse_i64 t) (bad_request prompt_id_not_integer)
  ok (record c { prompt_id = some id })

-- The body of the loop over the fields, for a field of the name.
unfoldable pub collect_named : SubmitEnv → Text → Part → Collected → Result Collected
unfolding image_type
collect_named env name part c =
    if text_eq name (text "image")
    then collect_image part c
    else if text_eq name (text "input_sha256")
    then collect_text part (λ t. record c { input_sha256 = some t })
    else if text_eq name (text "input_name")
    then collect_text part (λ t. record c { input_name = some t })
    else if text_eq name (text "prompt_id")
    then collect_prompt_id env part c
    else if text_eq name (text "prompt_text")
    then collect_text part (λ t. record c { prompt_text = some t })
    else if text_eq name (text "workflow")
    then collect_text part (λ t. record c { workflow = some t })
    else ok c

abbrev pub collect_one : SubmitEnv → Part → Collected → Result Collected
collect_one env part c = elim part.name [ none ↦ ok c | some name ↦ collect_named env name part c ]

unfoldable pub collect : SubmitEnv → List (Read Part) → Collected → Result Collected
unfolding collect_named
collect env [] c = ok c
collect env (next ∷ parts) c = do
  part ← read next
  c' ← collect_one env part c
  collect env parts c'

unfoldable pub parse_multipart : SubmitEnv → Option (List (Read Part)) → Result SubmitFields
unfolding collect
parse_multipart env form = do
  parts ← ok_or form (bad_request invalid_multipart)
  c ← collect env parts nothing_collected
  sha ← ok_or c.input_sha256 (bad_request sha256_required)
  ok (record {
    input_sha256 = sha;
    input_name = c.input_name;
    prompt_id = c.prompt_id;
    prompt_text = c.prompt_text;
    workflow_override = c.workflow;
    upload = c.upload;
  })

abbrev pub of_json : SubmitJson → SubmitFields
of_json body = record {
  input_sha256 = body.input_sha256;
  input_name = body.input_name;
  prompt_id = body.prompt_id;
  prompt_text = body.prompt_text;
  workflow_override = body.workflow;
  upload = none;
}

abbrev pub parse_json : Option SubmitJson → Result SubmitFields
parse_json json = do body ← ok_or json (bad_request invalid_json); ok (of_json body)

unfoldable pub parse_submit : SubmitEnv → Request → Result SubmitFields
unfolding parse_multipart
parse_submit env req =
    let ct = or_empty req.content_type in
    if starts_with ct (text "multipart/form-data")
    then parse_multipart env req.form
    else if starts_with ct (text "application/json")
    then parse_json req.json
    else err (bad_request unsupported_content_type)
