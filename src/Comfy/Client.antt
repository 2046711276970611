-- ===== src/Comfy/Client.antt =====
-- The methods of `ComfyClient` in src/comfy.rs. The network is a function of the number of the call
-- and the request; `parse` is serde_json's reader of a body, `read_entry` that of a history entry.
use zun_rust_server.Prelude.{
  ℕ, Bool, false, ◌&&◌, List, [], ◌∷◌, ◌++◌, Option, none, some, if◌then◌else◌, leb, ltb,
}
use zun_rust_server.Prelude.Text.{Text, text, text_eq}
use zun_rust_server.Server.{Bytes}
use zun_rust_server.Workflow.{Value, Fields, field, end, object, string}
use zun_rust_server.Comfy.{
  unreachable, status, other, Failure, Outcome, done, failed, safe, connect_only, with_retry,
  max_json_bytes, max_image_bytes, read_capped, HistoryEntry, derive_ws_base,
}

pub record ComfyClient : Type 0 where
  pub base : Text
  pub ws_base : Text

unfoldable pub new_client : Text → ComfyClient
unfolding derive_ws_base
new_client base = record { base = base; ws_base = derive_ws_base base }

pub record ImagePart : Type 0 where
  pub bytes : Bytes
  pub filename : Text

pub data HttpRequest : Type 0 where
  get : Text → List (Text × Text) → HttpRequest
  post : Text → HttpRequest
  post_json : Text → Value → HttpRequest
  post_form : Text → ImagePart → List (Text × Text) → HttpRequest

-- An answer: its status, its content length, and what its body yields.
pub record HttpResponse : Type 0 where
  pub code : ℕ
  pub declared : Option ℕ
  pub chunks : List (Outcome Bytes)

pub record Net : Type 0 where
  pub send : ℕ → HttpRequest → Outcome HttpResponse
  pub parse : Bytes → Option Value
  pub read_entry : Value → Option HistoryEntry

-- The operator `?`
abbrev pub and_then : {A B : Type 0} → Outcome A → (A → Outcome B) → Outcome B
and_then (done a) f = f a
and_then (failed e) f = failed e

abbrev pub plain_failure : Text → Failure
plain_failure message = record { message = message; chain = other ∷ [] }

abbrev pub status_failure : ℕ → Failure
status_failure code = record { message = text "HTTP status"; chain = status code ∷ [] }

-- `error_for_status`: a client or server error.
unfoldable pub error_for_status : HttpResponse → Outcome HttpResponse
error_for_status r =
    if leb 400 r.code && ltb r.code 600 then failed (status_failure r.code) else done r

abbrev pub or_fail : {A : Type 0} → Option A → Text → Outcome A
or_fail none message = failed (plain_failure message)
or_fail (some a) message = done a

unfoldable pub json_capped : Net → HttpResponse → Text → Outcome Value
unfolding read_capped
json_capped net r what =
    and_then (read_capped max_json_bytes what r.declared r.chunks)
      (λ bytes. or_fail (net.parse bytes) (what ++ text ": invalid json"))

-- `resp[key]` and `resp.get(key)`; serde_json keeps one value for a key.
unfoldable pub field_of : Text → Fields → Option Value
field_of key end = none
field_of key (field name v fs) =
    let rest = field_of key fs in if text_eq name key then some v else rest

abbrev pub get_field : Text → Value → Option Value
get_field key (object fs) = field_of key fs
get_field key _ = none

abbrev pub as_str : Option Value → Option Text
as_str (some (string s)) = some s
as_str _ = none

unfoldable pub send_checked : Net → ℕ → HttpRequest → Outcome HttpResponse
unfolding error_for_status
send_checked net n req = and_then (net.send n req) error_for_status

unfoldable pub upload_image_once : Net → ComfyClient → Bytes → Text → ℕ → Outcome Text
unfolding send_checked json_capped field_of
upload_image_once net client bytes filename n =
    and_then
      (send_checked net n (
        post_form (client.base ++ text "/upload/image")
          (record { bytes = bytes; filename = filename })
          ((text "type", text "input") ∷ (text "overwrite", text "true") ∷ [])))
      (λ r. and_then (json_capped net r (text "upload_image")) (λ v.
        or_fail (as_str (get_field (text "name") v)) (text "upload_image response missing `name`")))

unfoldable pub upload_image : Net → ComfyClient → Bytes → Text → Outcome Text × ℕ
unfolding upload_image_once
upload_image net client bytes filename =
    with_retry safe (upload_image_once net client bytes filename)

abbrev pub submit_request : ComfyClient → Value → Text → HttpRequest
submit_request client workflow client_id =
    post_json (client.base ++ text "/prompt")
      (object (field (text "prompt") workflow (field (text "client_id") (string client_id) end)))

unfoldable pub submit_prompt_once : Net → ComfyClient → Value → Text → ℕ → Outcome Text
unfolding send_checked json_capped field_of
submit_prompt_once net client workflow client_id n =
    and_then (send_checked net n (submit_request client workflow client_id)) (λ r.
      and_then (json_capped net r (text "submit_prompt")) (λ v.
        or_fail (as_str (get_field (text "prompt_id") v))
          (text "submit_prompt response missing `prompt_id`")))

unfoldable pub submit_prompt : Net → ComfyClient → Value → Text → Outcome Text × ℕ
unfolding submit_prompt_once
submit_prompt net client workflow client_id =
    with_retry connect_only (submit_prompt_once net client workflow client_id)

abbrev pub entry_of : Net → Option Value → Outcome (Option HistoryEntry)
entry_of net none = done none
entry_of net (some v) =
    and_then (or_fail (net.read_entry v) (text "history entry")) (λ e. done (some e))

unfoldable pub get_history_once : Net → ComfyClient → Text → ℕ → Outcome (Option HistoryEntry)
unfolding send_checked json_capped field_of
get_history_once net client prompt_id n =
    and_then (send_checked net n (get (client.base ++ text "/history/" ++ prompt_id) [])) (λ r.
      and_then (json_capped net r (text "get_history")) (λ v. entry_of net (get_field prompt_id v)))

unfoldable pub get_history : Net → ComfyClient → Text → Outcome (Option HistoryEntry) × ℕ
unfolding get_history_once
get_history net client prompt_id = with_retry safe (get_history_once net client prompt_id)

unfoldable pub interrupt_call : Net → ComfyClient → ℕ → Outcome (Unit {0})
unfolding send_checked
interrupt_call net client n =
    and_then (send_checked net n (post (client.base ++ text "/interrupt"))) (λ r. done tt)

-- The answer to the probe, unless its time runs out.
unfoldable pub reachable : Option (Outcome HttpResponse) → Bool
reachable none = false
reachable (some (failed e)) = false
reachable (some (done r)) = leb 200 r.code && ltb r.code 300

unfoldable pub view_once : Net → ComfyClient → Text → Text → Text → ℕ → Outcome Bytes
unfolding send_checked read_capped
view_once net client filename subfolder kind n =
    and_then
      (send_checked net n (
        get (client.base ++ text "/view")
          ((text "filename", filename) ∷ (text "subfolder", subfolder) ∷ (text "type", kind) ∷ [])))
      (λ r. read_capped max_image_bytes (text "view") r.declared r.chunks)

unfoldable pub view : Net → ComfyClient → Text → Text → Text → Outcome Bytes × ℕ
unfolding view_once
view net client filename subfolder kind =
    with_retry safe (view_once net client filename subfolder kind)

-- How the handshake of the WebSocket ends.
pub data Handshake : Type 0 where
  upgraded timed_out : Handshake
  refused : Text → Handshake

abbrev pub unreachable_failure : Text → Failure
unreachable_failure message = record { message = message; chain = unreachable ∷ [] }

unfoldable pub connect_ws : ComfyClient → Text → Handshake → Outcome (Unit {0})
connect_ws client client_id upgraded = done tt
connect_ws client client_id timed_out = failed (
    unreachable_failure (
      text "connect comfy ws "
      ++ client.ws_base
      ++ text "/ws?clientId="
      ++ client_id
      ++ text ": timed out after 10s"))
connect_ws client client_id (refused e) = failed (
    unreachable_failure (
      text "connect comfy ws "
      ++ client.ws_base
      ++ text "/ws?clientId="
      ++ client_id
      ++ text ": "
      ++ e))
