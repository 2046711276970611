-- ===== src/Jobs/Lifecycle.antt =====
-- The writes of src/worker.rs, src/handlers.rs, src/derived_images.rs and src/purge.rs to the table
-- of jobs as one type, and the state machine that they follow.
use zun_rust_server.Prelude.{
  ℕ, ◌≡◌, refl, sym, ◌∙◌, ◌⊎◌, inl, inr, Bool, true, false, List, [], ◌∷◌, ◌++◌, Option, none, some,
  arith, Bool-cases, Option-cases, &&_left, &&_right,
}
use zun_rust_server.Prelude.Int.{ℤ}
use zun_rust_server.Prelude.Text.{Text, text_eq, text_eq→eq, text_eq_iff}
use zun_rust_server.Sql.{fetch_optional, update_where}
use zun_rust_server.Sql.Update.{
  fetch_optional-update_where, fetch_optional-append_one, fetch_optional-delete_where_self,
  fetch_optional-delete_where_other,
}
use zun_rust_server.Jobs.{
  Status, queued, running, done, failed, cancelled, is_status, Job, NewJob, Column, has_id,
  queued_row, insert_job, reset_running_jobs, mark_running, update_comfy_prompt_id, mark_done,
  requeue, mark_failed, write_progress, soft_delete, restore, cancel_where, record_derived,
  hard_delete, set_column,
}

pub data Write : Type 0 where
  submits : NewJob → Write
  resets : Write
  claims : ℤ → Text → Write
  names_prompt : Text → Text → Write
  completes : ℤ → Text → Text → Option ℕ → Option ℕ → Write
  requeues : Text → Write
  fails : ℤ → Text → Text → Write
  progresses : Text → ℕ → Write
  deletes : ℤ → Text → Write
  restores : Text → Write
  cancels_running cancels_queued : ℤ → Text → Write
  derives : Column → Text → Text → Write
  purges : Text → Write

-- An INSERT that breaks the PRIMARY KEY leaves the table as it was.
abbrev pub or_unchanged : List Job → Option (List Job) → List Job
or_unchanged jobs none = jobs
or_unchanged jobs (some jobs') = jobs'

unfoldable pub apply : Write → List Job → List Job
apply (submits n) jobs = or_unchanged jobs (insert_job n jobs)
apply resets jobs = reset_running_jobs jobs
apply (claims now id) jobs = (mark_running now id jobs).0
apply (names_prompt id comfy_id) jobs = update_comfy_prompt_id id comfy_id jobs
apply (completes now id path width height) jobs = (mark_done now id path width height jobs).0
apply (requeues id) jobs = requeue id jobs
apply (fails now id message) jobs = mark_failed now id message jobs
apply (progresses id p) jobs = write_progress id p jobs
apply (deletes now id) jobs = (soft_delete now id jobs).0
apply (restores id) jobs = (restore id jobs).0
apply (cancels_running now id) jobs = (cancel_where running now id jobs).0
apply (cancels_queued now id) jobs = (cancel_where queued now id jobs).0
apply (derives c id rel) jobs = record_derived c id rel jobs
apply (purges id) jobs = hard_delete id jobs

unfoldable pub apply_all : List Write → List Job → List Job
apply_all [] jobs = jobs
apply_all (w ∷ ws) jobs = apply_all ws (apply w jobs)

-- The arrows of the job's state machine.
pub data Moves (s t : Status) : Type 0 where
  stays : t ≡ s → Moves s t
  is_claimed : s ≡ queued → t ≡ running → Moves s t
  is_requeued : s ≡ running → t ≡ queued → Moves s t
  is_done : s ≡ running → t ≡ done → Moves s t
  is_failed : s ≡ running → t ≡ failed → Moves s t
  is_cancelled_running : s ≡ running → t ≡ cancelled → Moves s t
  is_cancelled_queued : s ≡ queued → t ≡ cancelled → Moves s t

-- What became of the row `j`: it is gone, or related to a row.
abbrev pub Becomes : (Job → Job → Type 0) → Job → Option Job → Type 0
Becomes R j r = (r ≡ none) ⊎ ((j' : Job) × (r ≡ some j') × R j j')

abbrev pub MovesJob : Job → Job → Type 0
MovesJob j j' = Moves j.status j'.status

pub update_where-Becomes :
    (R : Job → Job → Type 0) (id : Text) (w : Job → Bool) (f : Job → Job) (jobs : List Job)
    (j : Job)
    → ((r : Job) → has_id id (f r) ≡ has_id id r)
    → R j j
    → (w j ≡ true → R j (f j))
    → fetch_optional (has_id id) jobs ≡ some j
    → (j' : Job) × (fetch_optional (has_id id) (update_where w f jobs) ≡ some j') × R j j'
update_where-Becomes R id w f jobs j keep same step found = elim (Bool-cases (w j)) [
  | inl hit ↦
      (f j, rw (fetch_optional-update_where (has_id id) w f jobs keep, found) (rw hit), step hit)
  | inr miss ↦
      (j, rw (fetch_optional-update_where (has_id id) w f jobs keep, found) (rw miss), same)
]

pub is_status→eq : (s t : Status) → is_status s t ≡ true → s ≡ t
is_status→eq queued t h = ground arith
is_status→eq s t h = ground arith

pub has_id-set_column :
    (c : Column) (rel id : Text) (j : Job) → has_id id (set_column c rel j) ≡ has_id id j
has_id-set_column Column.thumb_path rel id j = refl
has_id-set_column Column.preview_path rel id j = refl

set_column-Moves : (c : Column) (rel : Text) (j : Job) → Moves j.status (set_column c rel j).status
set_column-Moves Column.thumb_path rel j = stays refl
set_column-Moves Column.preview_path rel j = stays refl

-- Two texts that the same id equals are one.
same_id : (s id id' : Text) → text_eq s id ≡ true → text_eq s id' ≡ true → id ≡ id'
same_id s id id' h k = sym (text_eq→eq s id h) ∙ text_eq→eq s id' k

pub hard_delete_other :
    (id id' : Text) (jobs : List Job)
    → text_eq id' id ≡ false
    → fetch_optional (has_id id) (hard_delete id' jobs) ≡ fetch_optional (has_id id) jobs
unfolding hard_delete
hard_delete_other id id' jobs e =
    fetch_optional-delete_where_other (has_id id) (has_id id') jobs (λ r hit.
      elim (Bool-cases (has_id id' r)) [
        | inl both ↦
            let q = (text_eq_iff id' id).1 (sym (same_id r.id id id' hit both)) in cc (e, q)
        | inr miss ↦ miss
      ])

pub hard_delete_self :
    (id id' : Text) (jobs : List Job)
    → id' ≡ id
    → fetch_optional (has_id id) (hard_delete id' jobs) ≡ none
unfolding hard_delete
hard_delete_self id id' jobs e = rw e (fetch_optional-delete_where_self (has_id id) jobs)

hard_delete-Becomes :
    (R : Job → Job → Type 0) (id id' : Text) (jobs : List Job) (j : Job)
    → R j j
    → fetch_optional (has_id id) jobs ≡ some j
    → Becomes R j (fetch_optional (has_id id) (hard_delete id' jobs))
hard_delete-Becomes R id id' jobs j same found = elim (Bool-cases (text_eq id' id)) [
  | inl e ↦ inl (hard_delete_self id id' jobs (text_eq→eq id' id e))
  | inr e ↦ inr (j, hard_delete_other id id' jobs e ∙ found, same)
]

pub insert_job_free :
    (n : NewJob) (jobs : List Job)
    → fetch_optional (has_id n.job_id) jobs ≡ none
    → insert_job n jobs ≡ some (jobs ++ queued_row n ∷ [])
unfolding insert_job
insert_job_free n jobs free = rw (free, insert_job)

pub insert_job_taken :
    (n : NewJob) (jobs : List Job) (k : Job)
    → fetch_optional (has_id n.job_id) jobs ≡ some k
    → insert_job n jobs ≡ none
unfolding insert_job
insert_job_taken n jobs k taken = rw (taken, insert_job)

pub insert_job-kept :
    (R : Job → Job → Type 0) (id : Text) (n : NewJob) (jobs : List Job) (j : Job)
    → R j j
    → fetch_optional (has_id id) jobs ≡ some j
    → (j' : Job) × (fetch_optional (has_id id) (apply (submits n) jobs) ≡ some j') × R j j'
unfolding apply
insert_job-kept R id n jobs j same found =
    elim (Option-cases (fetch_optional (has_id n.job_id) jobs)) [
      | inl free ↦ (
        j,
        rw (insert_job_free n jobs free)
            (rw (fetch_optional-append_one (has_id id) jobs (queued_row n), found)),
        same,
      )
      | inr (k, taken) ↦ (j, rw (insert_job_taken n jobs k taken) found, same)
    ]

-- Whatever is written to the table, a row stays, moves along an arrow of the state machine, or is
-- gone.
pub apply-Moves :
    (w : Write) (id : Text) (jobs : List Job) (j : Job)
    → fetch_optional (has_id id) jobs ≡ some j
    → Becomes MovesJob j (fetch_optional (has_id id) (apply w jobs))
unfolding apply reset_running_jobs mark_running update_comfy_prompt_id mark_done requeue mark_failed
    write_progress soft_delete restore cancel_where record_derived
apply-Moves (submits n) id jobs j e = inr (insert_job-kept MovesJob id n jobs j (stays refl) e)
apply-Moves resets id jobs j e = inr (
    update_where-Becomes MovesJob id _ _ jobs j (λ r. refl) (stays refl)
      (λ h. is_requeued (is_status→eq _ _ h) refl) e)
apply-Moves (claims now k) id jobs j e = inr (
    update_where-Becomes MovesJob id _ _ jobs j (λ r. refl) (stays refl)
      (λ h. is_claimed (is_status→eq _ _ (&&_left _ _ (&&_right _ _ h))) refl) e)
apply-Moves (names_prompt k comfy_id) id jobs j e =
    inr (update_where-Becomes MovesJob id _ _ jobs j (λ r. refl) (stays refl) (λ h. stays refl) e)
apply-Moves (completes now k path width height) id jobs j e = inr (
    update_where-Becomes MovesJob id _ _ jobs j (λ r. refl) (stays refl)
      (λ h. is_done (is_status→eq _ _ (&&_right _ _ h)) refl) e)
apply-Moves (requeues k) id jobs j e = inr (
    update_where-Becomes MovesJob id _ _ jobs j (λ r. refl) (stays refl)
      (λ h. is_requeued (is_status→eq _ _ (&&_right _ _ h)) refl) e)
apply-Moves (fails now k message) id jobs j e = inr (
    update_where-Becomes MovesJob id _ _ jobs j (λ r. refl) (stays refl)
      (λ h. is_failed (is_status→eq _ _ (&&_right _ _ h)) refl) e)
apply-Moves (progresses k p) id jobs j e =
    inr (update_where-Becomes MovesJob id _ _ jobs j (λ r. refl) (stays refl) (λ h. stays refl) e)
apply-Moves (deletes now k) id jobs j e =
    inr (update_where-Becomes MovesJob id _ _ jobs j (λ r. refl) (stays refl) (λ h. stays refl) e)
apply-Moves (restores k) id jobs j e =
    inr (update_where-Becomes MovesJob id _ _ jobs j (λ r. refl) (stays refl) (λ h. stays refl) e)
apply-Moves (cancels_running now k) id jobs j e = inr (
    update_where-Becomes MovesJob id _ _ jobs j (λ r. refl) (stays refl)
      (λ h. is_cancelled_running (is_status→eq _ _ (&&_right _ _ h)) refl) e)
apply-Moves (cancels_queued now k) id jobs j e = inr (
    update_where-Becomes MovesJob id _ _ jobs j (λ r. refl) (stays refl)
      (λ h. is_cancelled_queued (is_status→eq _ _ (&&_right _ _ h)) refl) e)
apply-Moves (derives c k rel) id jobs j e = inr (
    update_where-Becomes MovesJob id _ _ jobs j (has_id-set_column c rel id) (stays refl)
      (λ h. set_column-Moves c rel j) e)
apply-Moves (purges k) id jobs j e = hard_delete-Becomes MovesJob id k jobs j (stays refl) e
