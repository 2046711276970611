-- ===== src/Handlers/Control/Outcomes.antt =====
-- What `delete_job`, `cancel_job` and `restore_job` answer and do, on every branch.
use zun_rust_server.Prelude.{
  ◌+◌, ◌%◌, ◌^◌, ◌≡◌, refl, ap, ap₂, ◌∙◌, true, false, List, [], ◌∷◌, some, is_some, arith,
  if◌then◌else◌, All,
}
use zun_rust_server.Prelude.Int.{ℤ}
use zun_rust_server.Prelude.Text.{Text}
use zun_rust_server.Sql.{fetch_optional, update_where}
use zun_rust_server.Error.{ok, err, not_found}
use zun_rust_server.Jobs.{
  Job, queued, running, is_status, is_live, has_id, is_queued_live, cancelled_row, running_row,
  requeued_row, soft_delete, restore, cancel_where, mark_running, requeue,
}
use zun_rust_server.Jobs.Consistent.{UniqueIds, apply-UniqueIds, UniqueIds-update_where}
use zun_rust_server.Jobs.Final.{is_terminal}
use zun_rust_server.Jobs.Lifecycle.{claims, requeues, apply, apply_all}
use zun_rust_server.Jobs.Key.{
  cancel_where-CancelsRow, count_where-one_if, fetch_optional-update_id, All-of_id,
}
use zun_rust_server.Server.{Server, notify_job_change, interrupt}
use zun_rust_server.Handlers.Control.{delete_job, cancel_job, restore_job, no_content}

-- Over a table with unique ids and with no other task at work, `cancel_job` answers 204 for a queued
-- or running job, leaves its row cancelled, wakes the long-polls, and tells ComfyUI to interrupt
-- exactly if the job was running.
pub cancel_job_alone :
    (now : ℤ) (id : Text) (s : Server) (j : Job)
    → UniqueIds s.jobs
    → fetch_optional (has_id id) s.jobs ≡ some j
    → is_terminal j.status ≡ false
    → let (answer, s') = cancel_job [] [] now id s in
      (answer ≡ ok no_content)
      × (fetch_optional (has_id id) s'.jobs ≡ some (cancelled_row now j))
      × (s'.interrupts ≡ (if is_status j.status running then s.interrupts + 1 else s.interrupts))
      × (s'.job_events ≡ (s.job_events + 1) % 2 ^ 64)
unfolding cancel_job apply_all notify_job_change interrupt
cancel_job_alone now id s j u found t =
    let first = cancel_where-CancelsRow running now id s.jobs j u found in
    let jobs1 = (cancel_where running now id s.jobs).0 in
    let j1 = if is_status j.status running then cancelled_row now j else j in
    let second = cancel_where-CancelsRow queued now id jobs1 j1 first.unique first.row in
    (ground arith, ground arith, ground arith, ground arith)

-- Over such a table `cancel_job` answers 404 for a job that has finished, and changes nothing.
pub cancel_job_finished :
    (now : ℤ) (id : Text) (s : Server) (j : Job)
    → UniqueIds s.jobs
    → fetch_optional (has_id id) s.jobs ≡ some j
    → is_terminal j.status ≡ true
    → cancel_job [] [] now id s ≡ (err not_found, s)
unfolding cancel_job apply_all notify_job_change interrupt
cancel_job_finished now id s j u found t =
    let first = cancel_where-CancelsRow running now id s.jobs j u found in
    let jobs1 = (cancel_where running now id s.jobs).0 in
    let j1 = if is_status j.status running then cancelled_row now j else j in
    let second = cancel_where-CancelsRow queued now id jobs1 j1 first.unique first.row in
    let jobs2 = (cancel_where queued now id jobs1).0 in
    let j2 = if is_status j1.status queued then cancelled_row now j1 else j1 in
    let third = cancel_where-CancelsRow running now id jobs2 j2 second.unique second.row in
    ground arith

claimed_row :
    (t : ℤ) (id : Text) (jobs : List Job) (j : Job)
    → fetch_optional (has_id id) jobs ≡ some j
    → is_queued_live j ≡ true
    → fetch_optional (has_id id) (apply (claims t id) jobs) ≡ some (running_row t j)
unfolding apply mark_running
claimed_row t id jobs j found ready =
    fetch_optional-update_id id is_queued_live (running_row t) jobs j (λ r. refl) found ∙ rw ready

-- A job that the worker claims between the first and the second UPDATE is cancelled all the same:
-- the answer is 204, the row is cancelled, and ComfyUI is told to interrupt.
pub cancel_job_claimed :
    (t now : ℤ) (id : Text) (s : Server) (j : Job)
    → UniqueIds s.jobs
    → fetch_optional (has_id id) s.jobs ≡ some j
    → is_queued_live j ≡ true
    → let (answer, s') = cancel_job (claims t id ∷ []) [] now id s in
      (answer ≡ ok no_content)
      × (fetch_optional (has_id id) s'.jobs ≡ some (cancelled_row now (running_row t j)))
      × (s'.interrupts ≡ s.interrupts + 1)
unfolding cancel_job apply_all notify_job_change interrupt
cancel_job_claimed t now id s j u found ready =
    let first = cancel_where-CancelsRow running now id s.jobs j u found in
    let jobs1 = (cancel_where running now id s.jobs).0 in
    let j1 = if is_status j.status running then cancelled_row now j else j in
    let at_first : j1 ≡ j = ground arith in
    let row1 : fetch_optional (has_id id) jobs1 ≡ some j = first.row ∙ ap some at_first in
    let claim = claimed_row t id jobs1 j row1 ready in
    let jobs1' = apply (claims t id) jobs1 in
    let unique1 = apply-UniqueIds (claims t id) jobs1 first.unique in
    let second = cancel_where-CancelsRow queued now id jobs1' (running_row t j) unique1 claim in
    let jobs2 = (cancel_where queued now id jobs1').0 in
    let third =
      cancel_where-CancelsRow running now id jobs2 (running_row t j) second.unique second.row in
    (ground arith, ground arith, ground arith)

requeued_row_lem :
    (id : Text) (jobs : List Job) (j : Job)
    → fetch_optional (has_id id) jobs ≡ some j
    → is_status j.status running ≡ true
    → fetch_optional (has_id id) (apply (requeues id) jobs) ≡ some (requeued_row j)
unfolding apply requeue
requeued_row_lem id jobs j found ready =
    fetch_optional-update_id id (λ r. is_status r.status running) requeued_row jobs j (λ r. refl)
      found
    ∙ rw ready

-- A job that is claimed between the first two UPDATEs and put back on the queue before the third is
-- answered 404, although its row is there and queued.
pub cancel_job_requeued :
    (t now : ℤ) (id : Text) (s : Server) (j : Job)
    → UniqueIds s.jobs
    → fetch_optional (has_id id) s.jobs ≡ some j
    → is_queued_live j ≡ true
    → let (answer, s') = cancel_job (claims t id ∷ []) (requeues id ∷ []) now id s in
      (answer ≡ err not_found)
      × (fetch_optional (has_id id) s'.jobs ≡ some (requeued_row (running_row t j)))
unfolding cancel_job apply_all notify_job_change interrupt
cancel_job_requeued t now id s j u found ready =
    let first = cancel_where-CancelsRow running now id s.jobs j u found in
    let jobs1 = (cancel_where running now id s.jobs).0 in
    let j1 = if is_status j.status running then cancelled_row now j else j in
    let at_first : j1 ≡ j = ground arith in
    let row1 : fetch_optional (has_id id) jobs1 ≡ some j = first.row ∙ ap some at_first in
    let jobs1' = apply (claims t id) jobs1 in
    let unique1 = apply-UniqueIds (claims t id) jobs1 first.unique in
    let second =
      cancel_where-CancelsRow queued now id jobs1' (running_row t j) unique1
        (claimed_row t id jobs1 j row1 ready) in
    let jobs2 = (cancel_where queued now id jobs1').0 in
    let unique2 = apply-UniqueIds (requeues id) jobs2 second.unique in
    let third =
      cancel_where-CancelsRow running now id (apply (requeues id) jobs2)
        (requeued_row (running_row t j)) unique2
        (requeued_row_lem id jobs2 (running_row t j) second.row refl) in
    (ground arith, ground arith)

restore_after_delete :
    (now : ℤ) (id : Text) (jobs : List Job)
    → All (λ r. has_id id r ≡ true → is_live r ≡ true) jobs
    → (restore id (soft_delete now id jobs).0).0 ≡ jobs
unfolding restore soft_delete update_where
restore_after_delete now id [] live = refl
restore_after_delete now id (j ∷ js) live =
    ap₂ (λ r rs. r ∷ rs) (ground arith) (restore_after_delete now id js live.1)

deleted_one :
    (now : ℤ) (id : Text) (jobs : List Job) (j : Job)
    → UniqueIds jobs
    → fetch_optional (has_id id) jobs ≡ some j
    → is_live j ≡ true
    → (soft_delete now id jobs).1 ≡ 1
unfolding soft_delete
deleted_one now id jobs j u found live = count_where-one_if id is_live jobs u ∙ rw (found, live)

restored_one :
    (now : ℤ) (id : Text) (jobs : List Job) (j : Job)
    → UniqueIds jobs
    → fetch_optional (has_id id) jobs ≡ some j
    → is_live j ≡ true
    → (restore id (soft_delete now id jobs).0).1 ≡ 1
unfolding restore soft_delete
restored_one now id jobs j u found live =
    count_where-one_if id (λ r. is_some r.deleted_at) _
      (UniqueIds-update_where _ _ jobs (λ r. refl) u)
    ∙ rw (
      fetch_optional-update_id id is_live (λ r. record r { deleted_at = some now }) jobs j
          (λ r. refl) found,
      live,
    )

-- Deleting a job and restoring it brings the table back as it was, and both answer 204, for a job
-- that is not deleted, in a table with unique ids.
pub restore_job-delete_job :
    (now : ℤ) (id : Text) (s : Server) (j : Job)
    → UniqueIds s.jobs
    → fetch_optional (has_id id) s.jobs ≡ some j
    → is_live j ≡ true
    → ((delete_job now id s).0 ≡ ok no_content)
      × ((restore_job id (delete_job now id s).1).0 ≡ ok no_content)
      × ((restore_job id (delete_job now id s).1).1.jobs ≡ s.jobs)
unfolding delete_job restore_job notify_job_change
restore_job-delete_job now id s j u found live =
    let deleted : (soft_delete now id s.jobs).1 ≡ 1 = deleted_one now id s.jobs j u found live in
    let restored : (restore id (soft_delete now id s.jobs).0).1 ≡ 1 =
      restored_one now id s.jobs j u found live in
    let back =
      restore_after_delete now id s.jobs
        (All-of_id (λ r. is_live r ≡ true) id s.jobs j u found live) in
    (ground arith, ground arith, ground arith)
