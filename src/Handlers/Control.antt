-- ===== src/Handlers/Control.antt =====
-- `delete_job`, `cancel_job` and `restore_job` of src/handlers.rs. Each UPDATE is atomic; what other
-- tasks write between the UPDATEs of `cancel_job` is an argument.
pub mod Outcomes
use zun_rust_server.Prelude.{ℕ, ◌≡◌, Bool, true, false, List, [], if◌then◌else◌, ◌==◌}
use zun_rust_server.Prelude.Int.{ℤ}
use zun_rust_server.Prelude.Text.{Text}
use zun_rust_server.Error.{Result, ok, err, not_found}
use zun_rust_server.Jobs.{Job, queued, running, soft_delete, restore, cancel_where}
use zun_rust_server.Jobs.Lifecycle.{Write, apply_all}
use zun_rust_server.Server.{Server, notify_job_change, interrupt}

abbrev pub no_content : ℕ
no_content = 204

unfoldable pub delete_job : ℤ → Text → Server → Result ℕ × Server
unfolding notify_job_change
delete_job now job_id s =
    let (jobs, affected) = soft_delete now job_id s.jobs in
    let s' = record s { jobs = jobs } in
    if affected == 0 then (err not_found, s') else (ok no_content, notify_job_change s')

-- The end of `cancel_job`, once the row is cancelled.
unfoldable pub finish_cancel : Bool → Server → Result ℕ × Server
unfolding notify_job_change interrupt
finish_cancel was_running s =
    (ok no_content, notify_job_change (if was_running then interrupt s else s))

-- `others1` is what other tasks write between the first and the second UPDATE, `others2` what they
-- write between the second and the third.
unfoldable pub cancel_job : List Write → List Write → ℤ → Text → Server → Result ℕ × Server
unfolding finish_cancel
cancel_job others1 others2 now job_id s =
    let (jobs1, was_running) = cancel_where running now job_id s.jobs in
    let (jobs2, was_queued) = cancel_where queued now job_id (apply_all others1 jobs1) in
    let (jobs3, claimed) = cancel_where running now job_id (apply_all others2 jobs2) in
    if was_running == 1
    then finish_cancel true (record s { jobs = jobs1 })
    else if was_queued == 0
    then if claimed == 0
      then (err not_found, record s { jobs = jobs3 })
      else finish_cancel true (record s { jobs = jobs3 })
    else finish_cancel false (record s { jobs = jobs2 })

unfoldable pub restore_job : Text → Server → Result ℕ × Server
unfolding notify_job_change
restore_job job_id s =
    let (jobs, affected) = restore job_id s.jobs in
    let s' = record s { jobs = jobs } in
    if affected == 0 then (err not_found, s') else (ok no_content, notify_job_change s')
