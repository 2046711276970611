-- ===== src/Worker/Interfered.antt =====
-- src/worker.rs against the other tasks: what an attempt leaves of the row of its job when submits,
-- cancels, deletes, restores, purges and renditions come between any two of its writes.
use zun_rust_server.Prelude.{
  ℕ, ◌≡◌, refl, subst, ◌∙◌, inl, inr, Bool, true, false, not, ◌&&◌, ◌||◌, List, [], ◌∷◌, Option,
  none, some, All, if◌then◌else◌, Bool-cases, Option-cases, arith,
}
use zun_rust_server.Prelude.Int.{ℤ}
use zun_rust_server.Prelude.Text.{Text, text_eq}
use zun_rust_server.Sql.{fetch_optional, update_where, count_where}
use zun_rust_server.Sql.Update.{
  All-update_where, All-delete_where, All-append_one, All-fetch_optional, fetch_optional_test,
}
use zun_rust_server.Sql.Order.{All-mono}
use zun_rust_server.Jobs.{
  Status, queued, running, failed, cancelled, is_status, Job, Column, set_column, has_id,
  queued_row, is_queued_live, is_claimable, mark_running, update_comfy_prompt_id, mark_done,
  requeue, mark_failed, write_progress, soft_delete, restore, cancel_where, record_derived,
  hard_delete, fetch_oldest_queued,
}
use zun_rust_server.Jobs.Lifecycle.{
  Write, submits, deletes, restores, cancels_running, cancels_queued, derives, purges, apply,
  apply_all, insert_job_free, insert_job_taken,
}
use zun_rust_server.Jobs.Consistent.{UniqueIds, Differs, Differs-of_none, apply-UniqueIds}
use zun_rust_server.Jobs.Key.{count_where-one_if, All-of_id}
use zun_rust_server.Jobs.Queue.{fetch_oldest_queued-Picks, Picks}
use zun_rust_server.Server.{Server, notify_job_change}
use zun_rust_server.Comfy.{Outcome, is_unreachable}
use zun_rust_server.Comfy as Comfy
use zun_rust_server.Error.Redact.{redact_internal}
use zun_rust_server.Worker.{Attempt, Config, work_if, process_job, settle, handle_job, ◌>>=◌}
use zun_rust_server.Worker.Triple.{Post, Stable, work-Triple}
use zun_rust_server.Worker.Settles.{Member-found}

-- A write of another task than the worker's.
abbrev pub IsForeign : Text → Write → Type 0
IsForeign id (submits n) = text_eq n.job_id id ≡ false
IsForeign id (deletes now k) = Unit
IsForeign id (restores k) = Unit
IsForeign id (cancels_running now k) = Unit
IsForeign id (cancels_queued now k) = Unit
IsForeign id (derives c k rel) = Unit
IsForeign id (purges k) = Unit
IsForeign id _ = ⊥

-- The status of each row of the id is one of these.
abbrev pub RowIn : Text → (Status → Bool) → Job → Type 0
RowIn id among j = has_id id j ≡ true → among j.status ≡ true

abbrev pub Holds : Text → (Status → Bool) → List Job → Type 0
Holds id among jobs = All (RowIn id among) jobs

set_column-RowIn :
    (id : Text) (among : Status → Bool) (c : Column) (rel : Text) (j : Job)
    → RowIn id among j
    → RowIn id among (set_column c rel j)
set_column-RowIn id among Column.thumb_path rel j h = h
set_column-RowIn id among Column.preview_path rel j h = h

module _ (id : Text) (among : Status → Bool) (cancels : among cancelled ≡ true) where
  apply-Holds :
      (w : Write) (jobs : List Job)
      → IsForeign id w
      → Holds id among jobs
      → Holds id among (apply w jobs)
  unfolding apply soft_delete restore cancel_where record_derived hard_delete
  apply-Holds (submits n) jobs d h = elim (Option-cases (fetch_optional (has_id n.job_id) jobs)) [
    | inl free ↦
        rw (insert_job_free n jobs free)
          (All-append_one (RowIn id among) jobs (queued_row n) h (λ hit. absurd (cc (d, hit))))
    | inr (k, taken) ↦ rw (insert_job_taken n jobs k taken) h
  ]
  apply-Holds (deletes now k) jobs d h = All-update_where (RowIn id among) _ _ jobs (λ r q hit. q) h
  apply-Holds (restores k) jobs d h = All-update_where (RowIn id among) _ _ jobs (λ r q hit. q) h
  apply-Holds (cancels_running now k) jobs d h =
      All-update_where (RowIn id among) _ _ jobs (λ r q hit mine. cancels) h
  apply-Holds (cancels_queued now k) jobs d h =
      All-update_where (RowIn id among) _ _ jobs (λ r q hit mine. cancels) h
  apply-Holds (derives c k rel) jobs d h =
      All-update_where (RowIn id among) _ _ jobs (λ r q hit. set_column-RowIn id among c rel r q) h
  apply-Holds (purges k) jobs d h = All-delete_where (RowIn id among) (has_id k) jobs h
  apply-Holds w jobs d h = absurd d

  apply_all-Holds :
      (ws : List Write) (jobs : List Job)
      → All (IsForeign id) ws
      → Holds id among jobs
      → Holds id among (apply_all ws jobs)
  unfolding apply_all
  apply_all-Holds [] jobs d h = h
  apply_all-Holds (w ∷ ws) jobs d h =
      apply_all-Holds ws (apply w jobs) d.1 (apply-Holds w jobs d.0 h)

apply_all-UniqueIds :
    (ws : List Write) (jobs : List Job) → UniqueIds jobs → UniqueIds (apply_all ws jobs)
unfolding apply_all
apply_all-UniqueIds [] jobs u = u
apply_all-UniqueIds (w ∷ ws) jobs u =
    apply_all-UniqueIds ws (apply w jobs) (apply-UniqueIds w jobs u)

-- An UPDATE takes each row from one property to another.
All-update_where_to :
    (P Q : Job → Type 0) (w : Job → Bool) (f : Job → Job) (rows : List Job)
    → ((r : Job) → P r → Q (if w r then f r else r))
    → All P rows
    → All Q (update_where w f rows)
unfolding update_where
All-update_where_to P Q w f [] step h = tt
All-update_where_to P Q w f (r ∷ rs) step h = (step r h.0, All-update_where_to P Q w f rs step h.1)

abbrev waiting : Status → Bool
waiting st = is_status st queued || is_status st cancelled

abbrev held : Status → Bool
held st = is_status st running || is_status st cancelled

-- A status that an attempt that has ended well leaves.
abbrev ended : Status → Bool
ended st = not (is_status st running) && not (is_status st failed)

ended_of_waiting : (st : Status) → waiting st ≡ true → ended st ≡ true
ended_of_waiting st h = ground (arith, h)

-- The claim has taken the row, or there is none that waits.
claim-Holds :
    (now : ℤ) (id : Text) (jobs : List Job)
    → UniqueIds jobs
    → Holds id waiting jobs
    → let (jobs', claimed) = mark_running now id jobs in
      Holds id (if claimed then held else ended) jobs'
unfolding mark_running
claim-Holds now id jobs u h =
    let count = count_where-one_if id is_queued_live jobs u in
    elim (Option-cases (fetch_optional (has_id id) jobs)) [
      | inl gone ↦
          let zero : count_where (is_claimable id) jobs ≡ 0 = count ∙ rw gone refl in
          rw zero (
            All-update_where_to (Differs id) (RowIn id ended) _ _ jobs (λ r d. ground (arith, d))
              (Differs-of_none id jobs gone))
      | inr (j, found) ↦ elim (Bool-cases (is_queued_live j)) [
        | inl ready ↦
            let one : count_where (is_claimable id) jobs ≡ 1 = count ∙ rw found (rw ready refl) in
            rw one (
              All-update_where_to (λ r. has_id id r ≡ true → is_queued_live r ≡ true)
                (RowIn id held) _ _ jobs (λ r q. ground (arith, q))
                (All-of_id (λ r. is_queued_live r ≡ true) id jobs j u found ready))
        | inr busy ↦
            let zero : count_where (is_claimable id) jobs ≡ 0 = count ∙ rw found (rw busy refl) in
            let mine =
              All-fetch_optional (RowIn id waiting) (has_id id) jobs j h found
                (fetch_optional_test (has_id id) jobs j found) in
            rw zero (
              All-update_where_to
                (λ r. has_id id r ≡ true → (is_queued_live r ≡ false) × (waiting r.status ≡ true))
                (RowIn id ended) _ _ jobs (λ r q. ground (arith, q))
                (All-of_id (λ r. (is_queued_live r ≡ false) × (waiting r.status ≡ true)) id jobs j u
                  found (busy, mine)))
      ]
    ]

-- The row that is fetched waits.
fetch_oldest_queued-Holds :
    (jobs : List Job) (job : Job)
    → UniqueIds jobs
    → fetch_oldest_queued jobs ≡ some job
    → Holds job.id waiting jobs
fetch_oldest_queued-Holds jobs job u e =
    let picked : Picks jobs (some job) = subst (Picks jobs) e (fetch_oldest_queued-Picks jobs u) in
    let ready : is_queued_live job ≡ true = picked.1 in
    All-of_id (λ r. waiting r.status ≡ true) job.id jobs job u (Member-found jobs job u picked.0)
      (ground (arith, ready))

module _ (a : Attempt) (job : Job) (foreign : (n : ℕ) → All (IsForeign job.id) (a.others n)) where
  Stable-Holds : Stable a job.id (Holds job.id held) (Holds job.id ended)
  unfolding update_comfy_prompt_id write_progress mark_done
  Stable-Holds = record {
    interfered = λ n jobs h. apply_all-Holds job.id held refl (a.others n) jobs (foreign n) h;
    named = λ comfy_id jobs h. All-update_where (RowIn job.id held) _ _ jobs (λ r q hit. q) h;
    progressed = λ p jobs h. All-update_where (RowIn job.id held) _ _ jobs (λ r q hit. q) h;
    completed = λ path width height jobs h.
        All-update_where_to (RowIn job.id held) (RowIn job.id ended) _ _ jobs
          (λ r q. ground (arith, q)) h;
  }

  work_if-Holds :
      (config : Config) (claimed : Bool) (s : Server)
      → Holds job.id (if claimed then held else ended) s.jobs
      → Post (Holds job.id held) (λ _. Holds job.id ended) (work_if config a job claimed s)
  unfolding work_if
  work_if-Holds config true s h =
      work-Triple a job (Holds job.id held) (Holds job.id ended) Stable-Holds config s h
  work_if-Holds config false s h = h

  process_job-Holds :
      (config : Config) (s : Server)
      → UniqueIds s.jobs
      → fetch_oldest_queued s.jobs ≡ some job
      → Post (Holds job.id held) (λ _. Holds job.id ended) (process_job config a job s)
  unfolding process_job ◌>>=◌
  process_job-Holds config s u e =
      let jobs = apply_all (a.others 0) s.jobs in
      let before =
        apply_all-Holds job.id waiting refl (a.others 0) s.jobs (foreign 0)
          (fetch_oldest_queued-Holds s.jobs job u e) in
      work_if-Holds config _ _
        (claim-Holds a.claimed_at job.id jobs (apply_all-UniqueIds (a.others 0) s.jobs u) before)

-- The status that an attempt leaves: after a failure the row is cancelled, or it is queued if ComfyUI
-- was not reached, running if the worker's task dies, and failed otherwise.
abbrev pub failed_to : Bool → Option Text → Status
failed_to true stored = queued
failed_to false none = running
failed_to false (some message) = failed

abbrev pub left_with : Outcome (Unit {0}) → Status → Bool
left_with (Comfy.done u) st = ended st
left_with (Comfy.failed e) st =
    is_status st cancelled
    || is_status st (failed_to (is_unreachable e) (redact_internal e.message))

settle-Holds :
    (a : Attempt) (job : Job) (r : Outcome (Unit {0})) (s : Server)
    → ((n : ℕ) → All (IsForeign job.id) (a.others n))
    → Post (Holds job.id held) (λ _. Holds job.id ended) (r, s)
    → Holds job.id (left_with r) (settle a job r s).1.jobs
unfolding settle requeue mark_failed notify_job_change
settle-Holds a job (Comfy.done u) s foreign h = h
settle-Holds a job (Comfy.failed e) s foreign h =
    let after = apply_all-Holds job.id held refl (a.others 3) s.jobs (foreign 3) h in
    elim (Bool-cases (is_unreachable e)) [
      | inl away ↦ rw away (
          All-update_where_to (RowIn job.id held) _ _ _ (apply_all (a.others 3) s.jobs)
            (λ r q. ground (arith, q)) after)
      | inr fault ↦ elim (Option-cases (redact_internal e.message)) [
        | inl panics ↦ rw (fault, panics) (All-mono s.jobs (λ r q mine. ground (arith, q mine)) h)
        | inr (stored, redacted) ↦
            rw (fault, redacted)
              (All-update_where_to (RowIn job.id held) _ _ _ (apply_all (a.others 3) s.jobs)
                (λ r q. ground (arith, q)) after)
      ]
    ]

-- Whatever other tasks write before each write of an attempt to the table of jobs (submits of other
-- ids, cancels, deletes, restores, purges, renditions), the row of the job that the worker fetched,
-- if it is still there, is neither running nor failed after an attempt that ends well; after one that
-- fails it is cancelled, or else queued when ComfyUI was not reached, running when the redaction of
-- the error panics, and failed in all other cases.
pub handle_job-left_with :
    (config : Config) (a : Attempt) (job : Job) (s : Server)
    → ((n : ℕ) → All (IsForeign job.id) (a.others n))
    → UniqueIds s.jobs
    → fetch_oldest_queued s.jobs ≡ some job
    → All
        (λ j. has_id job.id j ≡ true → left_with (process_job config a job s).0 j.status ≡ true)
        (handle_job config a job s).1.jobs
unfolding handle_job
handle_job-left_with config a job s foreign u e =
    let (r, s') = process_job config a job s in
    settle-Holds a job r s' foreign (process_job-Holds a job foreign config s u e)
