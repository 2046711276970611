-- ===== src/Handlers/Listing.antt =====
-- `list_jobs` of src/handlers.rs with its cursor. JSON and base64 are an interface.
pub mod Pages
use zun_rust_server.Prelude.{
  ℕ, ◌≡◌, Bool, true, false, ◌&&◌, ◌||◌, List, [], ◌∷◌, map, Option, none, some, is_none,
  if◌then◌else◌, ◌==◌, length, take, is_some,
}
use zun_rust_server.Prelude.Int.{ℤ, pos, ltb_ℤ, eqb_ℤ, ◌-ℤ◌}
use zun_rust_server.Prelude.Text.{Text, text, text_eq, text_lt}
use zun_rust_server.Error.{
  Result, ok, err, bad_request, unknown_status, invalid_cursor, ◌>>=◌, ◌>>◌, ok_or,
}
use zun_rust_server.Limits.{clamp, as_u64}
use zun_rust_server.Sql.{select_where, order_by}
use zun_rust_server.Server.{Bytes}
use zun_rust_server.Jobs.{
  Status, queued, running, done, failed, cancelled, is_status, Job, is_live, key_lt,
}
use mathlib.Core.Option

pub record Cursor : Type 0 where
  pub created_at : ℤ
  pub id : Text

-- `serde_json` at the type `Cursor`, and URL-safe base64 without padding: each reads back what it
-- wrote.
pub record CursorFormat : Type 0 where
  pub to_json : Cursor → Bytes
  pub from_json : Bytes → Option Cursor
  pub from_json-to_json : (c : Cursor) → from_json (to_json c) ≡ some c
  pub encode : Bytes → Text
  pub decode : Text → Option Bytes
  pub decode-encode : (b : Bytes) → decode (encode b) ≡ some b

abbrev pub encode_cursor : CursorFormat → Cursor → Text
encode_cursor fmt c = fmt.encode (fmt.to_json c)

abbrev pub decode_cursor : CursorFormat → Text → Result Cursor
decode_cursor fmt s = do
  raw ← ok_or (fmt.decode s) (bad_request invalid_cursor)
  ok_or (fmt.from_json raw) (bad_request invalid_cursor)

pub record ListQuery : Type 0 where
  pub status : Option Text
  pub input_id : Option ℕ
  pub cursor : Option Text
  pub limit : Option ℤ

-- One entry of `items`.
pub record ListItem : Type 0 where
  pub id : Text
  pub input_id : ℕ
  pub source_prompt_id : Option ℕ
  pub prompt_text : Text
  pub workflow : Text
  pub seed : ℕ
  pub status : Status
  pub progress : ℕ
  pub created_at : ℤ
  pub completed_at : Option ℤ
  pub duration_seconds : Option ℤ

pub record Page : Type 0 where
  pub items : List ListItem
  pub next_cursor : Option Text

unfoldable pub list_item : Job → ListItem
list_item j = record {
  id = j.id;
  input_id = j.input_id;
  source_prompt_id = j.source_prompt_id;
  prompt_text = j.prompt_text;
  workflow = j.workflow;
  seed = j.seed;
  status = j.status;
  progress = j.progress;
  created_at = j.created_at;
  completed_at = j.completed_at;
  duration_seconds = Option.map (λ c. c -ℤ j.created_at) j.completed_at;
}

-- The texts that `matches!` accepts.
unfoldable pub parse_status : Text → Option Status
parse_status s =
    if text_eq s (text "queued")
    then some queued
    else if text_eq s (text "running")
    then some running
    else if text_eq s (text "done")
    then some done
    else if text_eq s (text "failed")
    then some failed
    else if text_eq s (text "cancelled")
    then some cancelled
    else none

-- The filter of the query's text, or 400 for a text that is no status.
abbrev pub status_filter : Option Text → Result (Option Status)
status_filter none = ok none
status_filter (some s) = do
  st ← ok_or (parse_status s) (bad_request (unknown_status s))
  ok (some st)

abbrev pub cursor_filter : CursorFormat → Option Text → Result (Option Cursor)
cursor_filter fmt none = ok none
cursor_filter fmt (some s) = do c ← decode_cursor fmt s; ok (some c)

abbrev pub has_status : Option Status → Job → Bool
has_status none j = true
has_status (some st) j = is_status j.status st

abbrev pub has_input : Option ℕ → Job → Bool
has_input none j = true
has_input (some i) j = j.input_id == i

-- (created_at, id) < (?, ?)
abbrev pub is_past : Option Cursor → Job → Bool
is_past none j = true
is_past (some c) j =
    ltb_ℤ j.created_at c.created_at || eqb_ℤ j.created_at c.created_at && text_lt j.id c.id

abbrev pub is_listed : Option Status → Option ℕ → Job → Bool
is_listed st input j = is_live j && (has_status st j && has_input input j)

-- ORDER BY created_at DESC, id DESC
abbrev pub newest_first : Job → Job → Bool
newest_first a b = key_lt b a

unfoldable pub list_rows : Option Status → Option ℕ → Option Cursor → List Job → List Job
list_rows st input c jobs =
    order_by newest_first (select_where (λ j. is_listed st input j && is_past c j) jobs)

abbrev pub page_limit : Option ℤ → ℕ
page_limit none = 50
page_limit (some n) = as_u64 (clamp n (pos 1) (pos 200))

-- `rows.last()`
abbrev pub last {ℓ} : {A : Type ℓ} → List A → Option A
last [] = none
last (x ∷ []) = some x
last (x ∷ y ∷ r) = last (y ∷ r)

abbrev pub cursor_of : Job → Cursor
cursor_of j = record { created_at = j.created_at; id = j.id }

abbrev pub page_of : CursorFormat → ℕ → List Job → Page
page_of fmt limit rows = record {
  items = map list_item rows;
  next_cursor =
      if length rows == limit
      then Option.map (λ j. encode_cursor fmt (cursor_of j)) (last rows)
      else none;
}

unfoldable pub list_jobs : CursorFormat → ListQuery → List Job → Result Page
list_jobs fmt q jobs = do
  st ← status_filter q.status
  c ← cursor_filter fmt q.cursor
  ok (page_of fmt (page_limit q.limit) (take (page_limit q.limit) (list_rows st q.input_id c jobs)))
