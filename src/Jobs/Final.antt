-- ===== src/Jobs/Final.antt =====
-- A job that is done, failed or cancelled keeps its outcome, whatever is written later.
use zun_rust_server.Prelude.{
  ℕ, ◌≡◌, refl, ◌∙◌, Bool, true, false, List, [], ◌∷◌, Option, some, arith, All,
}
use zun_rust_server.Prelude.Int.{ℤ}
use zun_rust_server.Prelude.Text.{Text, text_eq}
use zun_rust_server.Sql.{fetch_optional}
use zun_rust_server.Jobs.{
  Status, queued, running, done, failed, cancelled, Job, Column, has_id, set_column,
  reset_running_jobs, mark_running, update_comfy_prompt_id, mark_done, requeue, mark_failed,
  write_progress, soft_delete, restore, cancel_where, record_derived,
}
use zun_rust_server.Jobs.Lifecycle.{
  Write, submits, derives, purges, apply, apply_all, update_where-Becomes, insert_job-kept,
  hard_delete_other, has_id-set_column,
}

abbrev pub is_terminal : Status → Bool
is_terminal queued = false
is_terminal running = false
is_terminal done = true
is_terminal failed = true
is_terminal cancelled = true

-- What `GET /jobs/{id}` tells of the end of a job.
pub record Outcome : Type 0 where
  pub status : Status
  pub output_path : Option Text
  pub error_message : Option Text
  pub completed_at : Option ℤ
  pub width : Option ℕ
  pub height : Option ℕ
  pub progress : ℕ

abbrev pub outcome : Job → Outcome
outcome j = record {
  status = j.status;
  output_path = j.output_path;
  error_message = j.error_message;
  completed_at = j.completed_at;
  width = j.width;
  height = j.height;
  progress = j.progress;
}

abbrev pub KeepsOutcome : Job → Job → Type 0
KeepsOutcome j j' = is_terminal j.status ≡ true → outcome j' ≡ outcome j

abbrev pub purges_id : Text → Write → Bool
purges_id id (purges k) = text_eq k id
purges_id id _ = false

set_column-outcome : (c : Column) (rel : Text) (j : Job) → outcome (set_column c rel j) ≡ outcome j
set_column-outcome Column.thumb_path rel j = refl
set_column-outcome Column.preview_path rel j = refl

apply-KeepsOutcome :
    (w : Write) (id : Text) (jobs : List Job) (j : Job)
    → purges_id id w ≡ false
    → fetch_optional (has_id id) jobs ≡ some j
    → (j' : Job) × (fetch_optional (has_id id) (apply w jobs) ≡ some j') × KeepsOutcome j j'
unfolding apply reset_running_jobs mark_running update_comfy_prompt_id mark_done requeue mark_failed
    write_progress soft_delete restore cancel_where record_derived
apply-KeepsOutcome (submits n) id jobs j p e =
    insert_job-kept KeepsOutcome id n jobs j (λ t. refl) e
apply-KeepsOutcome (derives c k rel) id jobs j p e =
    update_where-Becomes KeepsOutcome id _ _ jobs j (has_id-set_column c rel id) (λ t. refl)
      (λ h t. set_column-outcome c rel j) e
apply-KeepsOutcome (purges k) id jobs j p e = (j, hard_delete_other id k jobs p ∙ e, λ t. refl)
apply-KeepsOutcome w id jobs j p e =
    update_where-Becomes KeepsOutcome id _ _ jobs j (λ r. refl) (λ t. refl) (λ h t. ground arith) e

-- Once a job is done, failed or cancelled, its row keeps that status and all that is reported of
-- its end, through any writes that do not purge it.
pub outcome_final :
    (ws : List Write) (id : Text) (jobs : List Job) (j : Job)
    → All (λ w. purges_id id w ≡ false) ws
    → fetch_optional (has_id id) jobs ≡ some j
    → is_terminal j.status ≡ true
    → (j' : Job) × (fetch_optional (has_id id) (apply_all ws jobs) ≡ some j')
      × (outcome j' ≡ outcome j)
unfolding apply_all
outcome_final [] id jobs j p e t = (j, e, refl)
outcome_final (w ∷ ws) id jobs j p e t =
    let (k, found, keeps) = apply-KeepsOutcome w id jobs j p.0 e in
    let same : outcome k ≡ outcome j = keeps t in
    let (j', found', same') = outcome_final ws id (apply w jobs) k p.1 found (ground arith) in
    (j', found', same' ∙ same)
