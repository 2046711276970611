-- ===== src/Handlers/Poll.antt =====
-- src/handlers.rs: `get_job`, GET /api/v1/jobs/{id}, with its long-poll. The clock counts
-- milliseconds. What happens while a request is held is a list of turns of the wait loop.
pub mod Window
pub mod Answer
use zun_rust_server.Prelude.{
  ℕ, ◌+◌, ◌*◌, Bool, true, false, not, ◌&&◌, ◌||◌, List, [], ◌∷◌, Option, none, some, if◌then◌else◌,
  leb, ltb, ◌==◌,
}
use zun_rust_server.Prelude.Int.{ℤ}
use zun_rust_server.Prelude.Text.{Text}
use zun_rust_server.Error.{AppError, Result, ok, err, not_found}
use zun_rust_server.Sql.{fetch_optional}
use zun_rust_server.Jobs.{Job, Status, queued, running, is_status, has_id, is_live, queue_position}

abbrev pub is_live_job : Text → Job → Bool
is_live_job id j = has_id id j && is_live j

unfoldable pub fetch_job_row : Text → List Job → Option Job
fetch_job_row id jobs = fetch_optional (is_live_job id) jobs

abbrev pub max_wait_seconds : ℕ
max_wait_seconds = 30

abbrev pub wait_fallback_tick : ℕ
wait_fallback_tick = 1000

abbrev pub min : ℕ → ℕ → ℕ
min m n = if leb m n then m else n

-- `q.wait.unwrap_or(0).min(MAX_WAIT_SECONDS)`
unfoldable pub wait_seconds : Option ℕ → ℕ
wait_seconds none = min 0 max_wait_seconds
wait_seconds (some w) = min w max_wait_seconds

-- A turn of the loop: after how long `job_events` changes, if it does, what the row is read from
-- then, and how long the read takes.
pub record Turn : Type 0 where
  pub event : Option ℕ
  pub jobs : List Job
  pub query : ℕ

-- When `timeout_at(wake_by, events.changed())` returns.
abbrev pub woken_at : ℕ → ℕ → Option ℕ → ℕ
woken_at now wake_by none = wake_by
woken_at now wake_by (some after) = min (now + after) wake_by

abbrev pub next_now : ℕ → ℕ → Turn → ℕ
next_now deadline now t = woken_at now (min (now + wait_fallback_tick) deadline) t.event + t.query

-- `(status, progress.to_bits())` differ.
abbrev pub differs : Job → Job → Bool
differs current initial =
    not (is_status current.status initial.status && (current.progress == initial.progress))

-- How the loop ends: at the deadline, with a row that has changed, without the row, or not within
-- the turns that are given.
pub data Polled : Type 0 where
  window_over gone pending : Polled
  changed : Job → Polled

-- After the re-read: `rest` is the rest of the loop.
abbrev pub after_read : Option Job → Job → ℕ → Polled × ℕ → Polled × ℕ
after_read none initial now rest = (gone, now)
after_read (some current) initial now rest =
    if differs current initial then (changed current, now) else rest

-- The loop, and the time when it ends.
unfoldable pub wait_loop : Text → ℕ → Job → ℕ → List Turn → Polled × ℕ
wait_loop id deadline initial now [] =
    if leb deadline now then (window_over, now) else (pending, now)
wait_loop id deadline initial now (t ∷ ts) =
    let now' = next_now deadline now t in
    let rest = wait_loop id deadline initial now' ts in
    if leb deadline now
    then (window_over, now)
    else after_read (fetch_job_row id t.jobs) initial now' rest

-- The request: the parameter `wait`, the table at first, the clock, the turns, and the table when
-- the position in the queue is counted.
pub record Poll : Type 0 where
  pub wait : Option ℕ
  pub before : List Job
  pub now : ℕ
  pub turns : List Turn
  pub after : List Job

abbrev pub can_change : Job → Bool
can_change j = is_status j.status queued || is_status j.status running

unfoldable pub hold : Text → Poll → Job → Polled × ℕ
unfolding wait_loop
hold id p row =
    let secs = wait_seconds p.wait in
    if ltb 0 secs && can_change row
    then wait_loop id (p.now + 1000 * secs) row p.now p.turns
    else (window_over, p.now)

-- The fields of the body.
pub record JobBody : Type 0 where
  pub id : Text
  pub input_id : ℕ
  pub source_prompt_id : Option ℕ
  pub prompt_text : Text
  pub workflow : Text
  pub seed : ℕ
  pub status : Status
  pub progress : ℕ
  pub queue_position : Option ℕ
  pub error : Option Text
  pub created_at : ℤ
  pub started_at : Option ℤ
  pub completed_at : Option ℤ
  pub width : Option ℕ
  pub height : Option ℕ

abbrev pub job_body : Job → Option ℕ → JobBody
job_body row position = record {
  id = row.id;
  input_id = row.input_id;
  source_prompt_id = row.source_prompt_id;
  prompt_text = row.prompt_text;
  workflow = row.workflow;
  seed = row.seed;
  status = row.status;
  progress = row.progress;
  queue_position = position;
  error = row.error_message;
  created_at = row.created_at;
  started_at = row.started_at;
  completed_at = row.completed_at;
  width = row.width;
  height = row.height;
}

-- The row that is answered; `none` while the request is held.
abbrev pub answer_of : Polled → Job → List Job → Option (Result JobBody)
answer_of window_over row after = some (ok (job_body row (queue_position row after)))
answer_of (changed current) row after = some (ok (job_body current (queue_position current after)))
answer_of gone row after = some (err not_found)
answer_of pending row after = none

abbrev pub answer_row : Text → Poll → Option Job → Option (Result JobBody)
answer_row id p none = some (err not_found)
answer_row id p (some row) = answer_of (hold id p row).0 row p.after

unfoldable pub get_job : Text → Poll → Option (Result JobBody)
unfolding hold
get_job id p = answer_row id p (fetch_job_row id p.before)
