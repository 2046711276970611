-- ===== src/Jobs.antt =====
-- The `jobs` table (migrations/0003_single_user_schema.sql, 0004_add_progress.sql) and the SQL
-- statements of src/worker.rs and src/handlers.rs that read and write it. The table is the list of
-- its rows in the order of insertion; `progress` is the bit pattern of the REAL that is stored.
pub mod Lifecycle
pub mod Consistent
pub mod Queue
pub mod Final
pub mod Key
use zun_rust_server.Prelude.{
  ℕ, ◌+◌, Bool, true, false, not, ◌&&◌, ◌||◌, List, [], ◌∷◌, ◌++◌, Option, none, some, is_some,
  is_none, if◌then◌else◌, ◌==◌,
}
use zun_rust_server.Prelude.Int.{ℤ, ltb_ℤ, eqb_ℤ}
use zun_rust_server.Prelude.Text.{Text, text_eq, text_lt}
use zun_rust_server.Sql.{
  select_where, fetch_optional, update_where, delete_where, count_where, order_by, first_row,
}

-- The five texts that the `status` column holds.
pub data Status : Type 0 where
  queued running done failed cancelled : Status

abbrev pub is_status : Status → Status → Bool
is_status queued queued = true
is_status running running = true
is_status done done = true
is_status failed failed = true
is_status cancelled cancelled = true
is_status _ _ = false

pub record Job : Type 0 where
  pub id : Text
  pub input_id : ℕ
  pub source_prompt_id : Option ℕ
  pub prompt_text : Text
  pub workflow : Text
  pub timeout_seconds : Option ℤ
  pub seed : ℕ
  pub status : Status
  pub comfy_prompt_id : Option Text
  pub output_path : Option Text
  pub thumb_path : Option Text
  pub preview_path : Option Text
  pub error_message : Option Text
  pub width : Option ℕ
  pub height : Option ℕ
  pub created_at : ℤ
  pub started_at : Option ℤ
  pub completed_at : Option ℤ
  pub deleted_at : Option ℤ
  pub progress : ℕ

-- The f64 values 0.0 and 1.0.
abbrev pub zero_bits : ℕ
zero_bits = 0

abbrev pub one_bits : ℕ
one_bits = 0x3ff0000000000000

abbrev pub is_live : Job → Bool
is_live j = is_none j.deleted_at

abbrev pub has_id : Text → Job → Bool
has_id id j = text_eq j.id id

-- The columns that a submit binds.
pub record NewJob : Type 0 where
  pub job_id : Text
  pub input_id : ℕ
  pub source_prompt_id : Option ℕ
  pub prompt_text : Text
  pub workflow : Text
  pub timeout_seconds : ℤ
  pub seed : ℕ
  pub now : ℤ

abbrev pub queued_row : NewJob → Job
queued_row n = record {
  id = n.job_id;
  input_id = n.input_id;
  source_prompt_id = n.source_prompt_id;
  prompt_text = n.prompt_text;
  workflow = n.workflow;
  timeout_seconds = some n.timeout_seconds;
  seed = n.seed;
  status = queued;
  comfy_prompt_id = none;
  output_path = none;
  thumb_path = none;
  preview_path = none;
  error_message = none;
  width = none;
  height = none;
  created_at = n.now;
  started_at = none;
  completed_at = none;
  deleted_at = none;
  progress = zero_bits;
}

-- INSERT INTO jobs: `none` is the failure of the PRIMARY KEY constraint on `id`.
unfoldable pub insert_job : NewJob → List Job → Option (List Job)
insert_job n jobs = elim (fetch_optional (has_id n.job_id) jobs) [
  | some j ↦ none
  | none ↦ some (jobs ++ queued_row n ∷ [])
]

-- `execute`: the table after an UPDATE, and whether it affected exactly one row.
abbrev pub execute_one : (Job → Bool) → (Job → Job) → List Job → List Job × Bool
execute_one w f jobs = (update_where w f jobs, count_where w jobs == 1)

-- (created_at, id) of `a` is below that of `b`.
abbrev pub key_lt : Job → Job → Bool
key_lt a b = ltb_ℤ a.created_at b.created_at || eqb_ℤ a.created_at b.created_at && text_lt a.id b.id

abbrev pub is_queued_live : Job → Bool
is_queued_live j = is_status j.status queued && is_live j

unfoldable pub fetch_oldest_queued : List Job → Option Job
fetch_oldest_queued jobs = first_row (order_by key_lt (select_where is_queued_live jobs))

abbrev pub reset_row : Job → Job
reset_row j = record j {
  status = queued;
  started_at = none;
  comfy_prompt_id = none;
  error_message = none;
  progress = zero_bits;
}

unfoldable pub reset_running_jobs : List Job → List Job
reset_running_jobs jobs = update_where (λ j. is_status j.status running) reset_row jobs

abbrev pub is_claimable : Text → Job → Bool
is_claimable id j = has_id id j && is_queued_live j

abbrev pub running_row : ℤ → Job → Job
running_row now j = record j { status = running; started_at = some now; progress = zero_bits }

unfoldable pub mark_running : ℤ → Text → List Job → List Job × Bool
mark_running now id jobs = execute_one (is_claimable id) (running_row now) jobs

unfoldable pub update_comfy_prompt_id : Text → Text → List Job → List Job
update_comfy_prompt_id id comfy_id jobs =
    update_where (has_id id) (λ j. record j { comfy_prompt_id = some comfy_id }) jobs

-- `WHERE id = ? AND status = 'running'`
abbrev pub is_running_job : Text → Job → Bool
is_running_job id j = has_id id j && is_status j.status running

abbrev pub done_row : ℤ → Text → Option ℕ → Option ℕ → Job → Job
done_row now output_path width height j = record j {
  status = done;
  output_path = some output_path;
  completed_at = some now;
  width = width;
  height = height;
  progress = one_bits;
}

unfoldable pub mark_done : ℤ → Text → Text → Option ℕ → Option ℕ → List Job → List Job × Bool
mark_done now id output_path width height jobs =
    execute_one (is_running_job id) (done_row now output_path width height) jobs

abbrev pub requeued_row : Job → Job
requeued_row j = record j {
  status = queued;
  started_at = none;
  comfy_prompt_id = none;
  progress = zero_bits;
}

unfoldable pub requeue : Text → List Job → List Job
requeue id jobs = update_where (is_running_job id) requeued_row jobs

abbrev pub failed_row : ℤ → Text → Job → Job
failed_row now message j = record j {
  status = failed;
  error_message = some message;
  completed_at = some now;
}

unfoldable pub mark_failed : ℤ → Text → Text → List Job → List Job
mark_failed now id message jobs = update_where (is_running_job id) (failed_row now message) jobs

-- The UPDATE of the progress writer task.
unfoldable pub write_progress : Text → ℕ → List Job → List Job
write_progress id p jobs = update_where (is_running_job id) (λ j. record j { progress = p }) jobs

-- The UPDATE of `delete_job`, with `rows_affected`.
unfoldable pub soft_delete : ℤ → Text → List Job → List Job × ℕ
soft_delete now id jobs =
    let w = λ (j : Job). has_id id j && is_live j in
    (update_where w (λ j. record j { deleted_at = some now }) jobs, count_where w jobs)

-- The UPDATE of `restore_job`, with `rows_affected`.
unfoldable pub restore : Text → List Job → List Job × ℕ
restore id jobs =
    let w = λ (j : Job). has_id id j && is_some j.deleted_at in
    (update_where w (λ j. record j { deleted_at = none }) jobs, count_where w jobs)

abbrev pub cancelled_row : ℤ → Job → Job
cancelled_row now j = record j { status = cancelled; completed_at = some now }

-- The UPDATEs of `cancel_job`, for the status that they ask for, with `rows_affected`.
unfoldable pub cancel_where : Status → ℤ → Text → List Job → List Job × ℕ
cancel_where s now id jobs =
    let w = λ (j : Job). has_id id j && is_status j.status s in
    (update_where w (cancelled_row now) jobs, count_where w jobs)

-- The column that `derived_images::render_and_persist` writes.
pub data Column : Type 0 where
  thumb_path preview_path : Column

abbrev pub set_column : Column → Text → Job → Job
set_column thumb_path rel j = record j { thumb_path = some rel }
set_column preview_path rel j = record j { preview_path = some rel }

unfoldable pub record_derived : Column → Text → Text → List Job → List Job
record_derived c id rel jobs = update_where (has_id id) (set_column c rel) jobs

-- DELETE FROM jobs WHERE id = ?
unfoldable pub hard_delete : Text → List Job → List Job
hard_delete id jobs = delete_where (has_id id) jobs

-- `get_job`: how many queued jobs the worker picks before this one.
unfoldable pub queue_position : Job → List Job → Option ℕ
queue_position j jobs =
    if is_status j.status queued
    then some (count_where (λ k. is_queued_live k && key_lt k j) jobs)
    else none
