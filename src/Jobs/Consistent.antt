-- ===== src/Jobs/Consistent.antt =====
-- The well-formedness of the table: ids are unique, and the columns of a row agree with its status.
use zun_rust_server.Prelude.{
  ◌≡◌, refl, sym, Bool, true, false, List, [], ◌∷◌, ◌++◌, none, is_some, arith, All, Bool-cases,
  inl, inr, Option-cases,
}
use zun_rust_server.Prelude.Text.{Text, text_eq, text_eq_iff}
use zun_rust_server.Sql.{fetch_optional, update_where, delete_where}
use zun_rust_server.Sql.Update.{All-update_where, All-delete_where, All-append_one}
use zun_rust_server.Sql.Order.{All-mono}
use zun_rust_server.Jobs.{
  Status, queued, running, done, failed, cancelled, Job, NewJob, Column, has_id, set_column,
  zero_bits, one_bits, queued_row, reset_running_jobs, mark_running, update_comfy_prompt_id,
  mark_done, requeue, mark_failed, write_progress, soft_delete, restore, cancel_where,
  record_derived, hard_delete,
}
use zun_rust_server.Jobs.Lifecycle.{
  Write, submits, derives, purges, apply, apply_all, insert_job_free, insert_job_taken,
}

pub record IsConsistent (j : Job) : Type 0 where
  pub queued_blank :
      j.status ≡ queued
      → (j.started_at ≡ none)
        × (j.completed_at ≡ none)
        × (j.output_path ≡ none)
        × (j.error_message ≡ none)
        × (j.progress ≡ zero_bits)
  pub running_started :
      j.status ≡ running
      → (is_some j.started_at ≡ true)
        × (j.completed_at ≡ none)
        × (j.output_path ≡ none)
        × (j.error_message ≡ none)
  pub done_complete :
      j.status ≡ done
      → (is_some j.output_path ≡ true)
        × (is_some j.completed_at ≡ true)
        × (j.error_message ≡ none)
        × (j.progress ≡ one_bits)
  pub failed_explained :
      j.status ≡ failed
      → (is_some j.error_message ≡ true) × (is_some j.completed_at ≡ true) × (j.output_path ≡ none)
  pub cancelled_dated :
      j.status ≡ cancelled
      → (is_some j.completed_at ≡ true) × (j.output_path ≡ none) × (j.error_message ≡ none)

set_column-IsConsistent :
    (c : Column) (rel : Text) (j : Job) → IsConsistent j → IsConsistent (set_column c rel j)
set_column-IsConsistent Column.thumb_path rel j h = ground arith
set_column-IsConsistent Column.preview_path rel j h = ground arith

queued_row-IsConsistent : (n : NewJob) → IsConsistent (queued_row n)
queued_row-IsConsistent n = ground arith

-- Every write keeps the columns of every row in agreement with its status.
pub apply-IsConsistent :
    (w : Write) (jobs : List Job) → All IsConsistent jobs → All IsConsistent (apply w jobs)
unfolding apply reset_running_jobs mark_running update_comfy_prompt_id mark_done requeue mark_failed
    write_progress soft_delete restore cancel_where record_derived hard_delete
apply-IsConsistent (submits n) jobs h =
    elim (Option-cases (fetch_optional (has_id n.job_id) jobs)) [
      | inl free ↦
          rw (insert_job_free n jobs free)
            (All-append_one IsConsistent jobs (queued_row n) h (queued_row-IsConsistent n))
      | inr (k, taken) ↦ rw (insert_job_taken n jobs k taken) h
    ]
apply-IsConsistent (derives c k rel) jobs h =
    All-update_where IsConsistent _ _ jobs (λ r q hit. set_column-IsConsistent c rel r q) h
apply-IsConsistent (purges k) jobs h = All-delete_where IsConsistent (has_id k) jobs h
apply-IsConsistent w jobs h = All-update_where IsConsistent _ _ jobs (λ r q hit. ground arith) h

abbrev pub Differs : Text → Job → Type 0
Differs id j = text_eq j.id id ≡ false

abbrev pub UniqueIds : List Job → Type 0
UniqueIds [] = Unit
UniqueIds (j ∷ js) = All (Differs j.id) js × UniqueIds js

pub UniqueIds-update_where :
    (w : Job → Bool) (f : Job → Job) (jobs : List Job)
    → ((r : Job) → (f r).id ≡ r.id)
    → UniqueIds jobs
    → UniqueIds (update_where w f jobs)
unfolding update_where
UniqueIds-update_where w f [] keep u = tt
UniqueIds-update_where w f (j ∷ js) keep u = elim (Bool-cases (w j)) [
  | inl hit ↦ rw (hit, keep j) (rest, UniqueIds-update_where w f js keep u.1)
  | inr miss ↦ rw miss (rest, UniqueIds-update_where w f js keep u.1)
]
  where
    rest : All (Differs j.id) (update_where w f js)
    rest = All-update_where (Differs j.id) w f js (λ r q hit. rw (keep r) q) u.0

UniqueIds-delete_where :
    (w : Job → Bool) (jobs : List Job) → UniqueIds jobs → UniqueIds (delete_where w jobs)
unfolding delete_where
UniqueIds-delete_where w [] u = tt
UniqueIds-delete_where w (j ∷ js) u = elim (Bool-cases (w j)) [
  | inl hit ↦ rw hit (UniqueIds-delete_where w js u.1)
  | inr miss ↦ rw miss (All-delete_where (Differs j.id) w js u.0, UniqueIds-delete_where w js u.1)
]

-- No row has an id that `fetch_optional` does not find.
pub Differs-of_none :
    (id : Text) (jobs : List Job) → fetch_optional (has_id id) jobs ≡ none → All (Differs id) jobs
unfolding fetch_optional
Differs-of_none id [] e = tt
Differs-of_none id (j ∷ js) e = elim (Bool-cases (has_id id j)) [
  | inl hit ↦ cc (rw hit at e)
  | inr miss ↦ (miss, Differs-of_none id js (rw miss at e))
]

Differs-sym : (id : Text) (j : Job) → Differs id j → text_eq id j.id ≡ false
Differs-sym id j d = elim (Bool-cases (text_eq id j.id)) [
  | inl same ↦
      let q = (text_eq_iff id j.id).0 same in let r = (text_eq_iff j.id id).1 (sym q) in cc (d, r)
  | inr other ↦ other
]

UniqueIds-append_one :
    (jobs : List Job) (n : Job)
    → All (Differs n.id) jobs
    → UniqueIds jobs
    → UniqueIds (jobs ++ n ∷ [])
UniqueIds-append_one [] n d u = (tt, tt)
UniqueIds-append_one (j ∷ js) n d u = (
  All-append_one (Differs j.id) js n u.0 (Differs-sym n.id j d.0),
  UniqueIds-append_one js n d.1 u.1,
)

-- Every write keeps the ids unique.
pub apply-UniqueIds : (w : Write) (jobs : List Job) → UniqueIds jobs → UniqueIds (apply w jobs)
unfolding apply reset_running_jobs mark_running update_comfy_prompt_id mark_done requeue mark_failed
    write_progress soft_delete restore cancel_where record_derived hard_delete
apply-UniqueIds (submits n) jobs u = elim (Option-cases (fetch_optional (has_id n.job_id) jobs)) [
  | inl free ↦
      rw (insert_job_free n jobs free)
        (UniqueIds-append_one jobs (queued_row n) (Differs-of_none n.job_id jobs free) u)
  | inr (k, taken) ↦ rw (insert_job_taken n jobs k taken) u
]
apply-UniqueIds (derives Column.thumb_path k rel) jobs u =
    UniqueIds-update_where _ _ jobs (λ r. refl) u
apply-UniqueIds (derives Column.preview_path k rel) jobs u =
    UniqueIds-update_where _ _ jobs (λ r. refl) u
apply-UniqueIds (purges k) jobs u = UniqueIds-delete_where (has_id k) jobs u
apply-UniqueIds w jobs u = UniqueIds-update_where _ _ jobs (λ r. refl) u

apply_all_keeps :
    (ws : List Write) (jobs : List Job)
    → UniqueIds jobs
    → All IsConsistent jobs
    → UniqueIds (apply_all ws jobs) × All IsConsistent (apply_all ws jobs)
unfolding apply_all
apply_all_keeps [] jobs u h = (u, h)
apply_all_keeps (w ∷ ws) jobs u h =
    apply_all_keeps ws (apply w jobs) (apply-UniqueIds w jobs u) (apply-IsConsistent w jobs h)

-- What the columns of a row with a status say.
abbrev pub Agrees : Status → Job → Type 0
Agrees queued j =
    (j.started_at ≡ none)
    × (j.completed_at ≡ none)
    × (j.output_path ≡ none)
    × (j.error_message ≡ none)
    × (j.progress ≡ zero_bits)
Agrees running j =
    (is_some j.started_at ≡ true)
    × (j.completed_at ≡ none)
    × (j.output_path ≡ none)
    × (j.error_message ≡ none)
Agrees done j =
    (is_some j.output_path ≡ true)
    × (is_some j.completed_at ≡ true)
    × (j.error_message ≡ none)
    × (j.progress ≡ one_bits)
Agrees failed j =
    (is_some j.error_message ≡ true) × (is_some j.completed_at ≡ true) × (j.output_path ≡ none)
Agrees cancelled j =
    (is_some j.completed_at ≡ true) × (j.output_path ≡ none) × (j.error_message ≡ none)

agrees : (j : Job) (s : Status) → IsConsistent j → j.status ≡ s → Agrees s j
agrees j queued h e = h.queued_blank e
agrees j running h e = h.running_started e
agrees j done h e = h.done_complete e
agrees j failed h e = h.failed_explained e
agrees j cancelled h e = h.cancelled_dated e

-- Every table that a history of writes leads to, from the empty one, has unique ids and rows whose
-- columns agree with their status: a queued row has no start, end, output or error and progress 0,
-- a running row a start and no end, output or error, a done row an output, an end, no error and
-- progress 1, a failed row an error, an end and no output, a cancelled row an end and no output or
-- error.
pub apply_all-Agrees :
    (ws : List Write) → UniqueIds (apply_all ws []) × All (λ j. Agrees j.status j) (apply_all ws [])
apply_all-Agrees ws =
    let (unique, rows) = apply_all_keeps ws [] tt tt in
    (unique, All-mono (apply_all ws []) (λ j h. agrees j j.status h refl) rows)
