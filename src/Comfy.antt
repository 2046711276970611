-- ===== src/Comfy.antt =====
-- src/comfy.rs: the client of ComfyUI. The answers of ComfyUI and of the network are arguments; what
-- serde_json and reqwest read out of them is the data of this module.
pub mod Retry
pub mod Stream
pub mod Client
pub mod Once
use zun_rust_server.Prelude.{
  ℕ, zero, suc, ◌+◌, ◌*◌, Bool, true, false, not, ◌&&◌, ◌||◌, List, [], ◌∷◌, ◌++◌, Option, none,
  some, if◌then◌else◌, any, leb, ltb, ◌==◌, length, ◌≡◌, refl, ◌⊎◌, inl, inr,
}
use zun_rust_server.Prelude.Text.{Text, text, text_eq, starts_with, strip_prefix}
use zun_rust_server.Sql.{fetch_optional}
use zun_rust_server.Server.{Bytes}

-- An error of the chain that the client asks about: the marker `Unreachable`, or a `reqwest::Error`
-- that `is_connect`, that `is_timeout`, or that has the status of the answer.
pub data Cause : Type 0 where
  unreachable connect timeout : Cause
  status : ℕ → Cause
  other : Cause

-- An `anyhow::Error`: its text by `{:#}`, and its chain, outermost first.
pub record Failure : Type 0 where
  pub message : Text
  pub chain : List Cause

pub data Outcome {ℓ} (A : Type ℓ) : Type ℓ where
  done : A → Outcome A
  failed : Failure → Outcome A

abbrev pub means_unreachable : Cause → Bool
means_unreachable unreachable = true
means_unreachable connect = true
means_unreachable _ = false

unfoldable pub is_unreachable : Failure → Bool
is_unreachable e = any means_unreachable e.chain

pub data Idempotency : Type 0 where
  safe connect_only : Idempotency

abbrev pub is_transient_status : ℕ → Bool
is_transient_status code = (code == 408) || (code == 429) || (leb 500 code && ltb code 600)

abbrev pub retries_cause : Idempotency → Cause → Bool
retries_cause connect_only connect = true
retries_cause safe connect = true
retries_cause safe timeout = true
retries_cause safe (status code) = is_transient_status code
retries_cause _ _ = false

-- `downcast_ref` looks at the outermost error.
unfoldable pub should_retry : Failure → Idempotency → Bool
should_retry e mode = elim e.chain [ [] ↦ false | c ∷ cs ↦ retries_cause mode c ]

abbrev pub max_attempts : ℕ
max_attempts = 3

-- `op n` is the answer of the n-th call. The result comes with the number of calls.
module _ {A : Type 0} (mode : Idempotency) (op : ℕ → Outcome A) where
  unfoldable pub retry_from : ℕ → ℕ → Outcome A × ℕ
  retry_from zero attempt = (op attempt, attempt)
  retry_from (suc fuel) attempt =
      let next = retry_from fuel (attempt + 1) in
      elim (op attempt) [
        | done v ↦ (done v, attempt)
        | failed e ↦
            if leb max_attempts attempt || not (should_retry e mode)
            then (failed e, attempt)
            else next
      ]

  unfoldable pub with_retry : Outcome A × ℕ
  unfolding retry_from
  with_retry = retry_from max_attempts 1

abbrev pub max_json_bytes : ℕ
max_json_bytes = 8 * 1024 * 1024

abbrev pub max_image_bytes : ℕ
max_image_bytes = 128 * 1024 * 1024

abbrev pub cap_failure : Text → Failure
cap_failure what = record { message = what; chain = other ∷ [] }

unfoldable pub read_chunks : ℕ → Text → Bytes → List (Outcome Bytes) → Outcome Bytes
read_chunks cap what buf [] = done buf
read_chunks cap what buf (failed e ∷ chunks) = failed e
read_chunks cap what buf (done chunk ∷ chunks) =
    let rest = read_chunks cap what (buf ++ chunk) chunks in
    if ltb cap (length buf + length chunk) then failed (cap_failure what) else rest

-- `declared` is the content length of the answer, `chunks` what its body yields.
unfoldable pub read_capped : ℕ → Text → Option ℕ → List (Outcome Bytes) → Outcome Bytes
unfolding read_chunks
read_capped cap what none chunks = read_chunks cap what [] chunks
read_capped cap what (some len) chunks =
    if ltb cap len then failed (cap_failure what) else read_chunks cap what [] chunks

unfoldable pub derive_ws_base : Text → Text
derive_ws_base base = elim (strip_prefix base (text "https://")) [
  | some rest ↦ text "wss://" ++ rest
  | none ↦ elim (strip_prefix base (text "http://")) [
    | some rest ↦ text "ws://" ++ rest
    | none ↦ base
  ]
]

-- A text frame that is JSON, by its `type`: `executing` with whether the node is null, `progress`
-- with the fraction as f32 bits when both numbers are there and the maximum is positive.
pub data Kind : Type 0 where
  executing : Bool → Kind
  progress : Option ℕ → Kind
  execution_error : Text → Kind
  unknown : Kind

pub record Event : Type 0 where
  pub prompt_id : Option Text
  pub kind : Kind

-- A frame of the stream; `skipped` is a frame that is neither text nor a close, or is not JSON.
pub data Frame : Type 0 where
  broken : Failure → Frame
  closed : Frame
  skipped : Frame
  event : Event → Frame

abbrev pub is_for : Text → Event → Bool
is_for prompt_id e = elim e.prompt_id [ none ↦ false | some id ↦ text_eq id prompt_id ]

abbrev pub ended : Text → Failure
ended message = record { message = message; chain = other ∷ [] }

abbrev pub to_send : Option ℕ → List ℕ
to_send none = []
to_send (some p) = p ∷ []

-- An event of the prompt, before the frames whose answer is `rest`.
abbrev pub on_kind : Kind → Outcome (Unit {0}) × List ℕ → Outcome (Unit {0}) × List ℕ
on_kind (executing true) rest = (done tt, [])
on_kind (executing false) rest = rest
on_kind (progress p) rest = (rest.0, to_send p ++ rest.1)
on_kind (execution_error details) rest =
    (failed (ended (text "comfyui execution_error: " ++ details)), [])
on_kind unknown rest = rest

-- The result, with the fractions that were sent on the way.
unfoldable pub await_completion : Text → List Frame → Outcome (Unit {0}) × List ℕ
await_completion prompt_id [] =
    (failed (ended (text "comfy ws stream ended before completion")), [])
await_completion prompt_id (broken e ∷ frames) =
    (failed (ended (text "comfy ws error: " ++ e.message)), [])
await_completion prompt_id (closed ∷ frames) =
    (failed (ended (text "comfy ws closed before completion")), [])
await_completion prompt_id (skipped ∷ frames) = await_completion prompt_id frames
await_completion prompt_id (event e ∷ frames) =
    let rest = await_completion prompt_id frames in
    if is_for prompt_id e then on_kind e.kind rest else rest

pub record HistoryImage : Type 0 where
  pub filename : Text
  pub subfolder : Text
  pub output_type : Text

-- `images` are those of all outputs, in the order of the map's iteration.
pub record HistoryEntry : Type 0 where
  pub status_str : Option Text
  pub images : List HistoryImage

unfoldable pub succeeded : HistoryEntry → Bool
succeeded e = elim e.status_str [ none ↦ false | some s ↦ text_eq s (text "success") ]

unfoldable pub primary_output : Text → HistoryEntry → Option HistoryImage
primary_output prefix e = fetch_optional (λ i. starts_with i.filename prefix) e.images

pub Outcome-cases {ℓ} :
    {A : Type ℓ} → (r : Outcome A) → ((v : A) × (r ≡ done v)) ⊎ ((e : Failure) × (r ≡ failed e))
Outcome-cases (done v) = inl (v, refl)
Outcome-cases (failed e) = inr (e, refl)
