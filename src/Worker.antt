-- ===== src/Worker.antt =====
-- src/worker.rs: the worker that drains the queue. An attempt at a job is a state-passing function
-- with failures; what ComfyUI, the clock, the file system and the other tasks do during the attempt
-- is its `Attempt`.
pub mod Triple
pub mod Warmup
pub mod Settles
pub mod Invariant
pub mod Drain
pub mod Interfered
use zun_rust_server.Prelude.{
  ℕ, zero, suc, ◌+◌, ◌-◌, ◌*◌, ◌/◌, ◌%◌, ◌^◌, leb, Bool, true, false, not, List, [], ◌∷◌, ◌++◌,
  Option, none, some, if◌then◌else◌, ◌==◌,
}
use zun_rust_server.Prelude.Int.{ℤ}
use zun_rust_server.Prelude.Text.{Text, text}
use zun_rust_server.Prelude.Fields.{decimal}
use zun_rust_server.Limits.{clamp_timeout_seconds}
use zun_rust_server.Sql.{fetch_optional}
use zun_rust_server.Jobs.{
  Job, mark_running, update_comfy_prompt_id, mark_done, requeue, mark_failed, write_progress,
  fetch_oldest_queued, reset_running_jobs,
}
use zun_rust_server.Jobs.Lifecycle.{Write, apply_all}
use zun_rust_server.Server.{Server, Input, Bytes, Disk, notify_job_change, interrupt}
use zun_rust_server.Paths.{Io, join, data_path, outputs, relative_for_db, atomic_write}
use zun_rust_server.Comfy.{
  Outcome, done, failed, Failure, other, is_unreachable, Frame, await_completion, HistoryEntry,
  HistoryImage, succeeded, primary_output,
}
use zun_rust_server.Workflow.{Value, build_edit_workflow, output_prefix}
use zun_rust_server.Workflow.Registry.{WorkflowRegistry, supported_template}
use zun_rust_server.Workflow.Registry as Registry
use zun_rust_server.Error.Redact.{redact_internal}

abbrev pub Task {ℓ} : Type ℓ → Type ℓ
Task A = Server → Outcome A × Server

abbrev pub pure {ℓ} : {A : Type ℓ} → A → Task A
pure a s = (done a, s)

infixl 5 ◌>>=◌ ◌>>◌
unfoldable pub ◌>>=◌ {ℓ κ} : {A : Type ℓ} {B : Type κ} → Task A → (A → Task B) → Task B
(m >>= f) s = elim (m s).0 [ done a ↦ f a (m s).1 | failed e ↦ (failed e, (m s).1) ]

abbrev pub ◌>>◌ {ℓ} : {B : Type ℓ} → Task (Unit {0}) → Task B → Task B
m >> k = m >>= λ _. k

abbrev pub lift {ℓ} : {A : Type ℓ} → Outcome A → Task A
lift r s = (r, s)

abbrev pub modify : (Server → Server) → Task (Unit {0})
modify f s = (done tt, f s)

abbrev pub gets {ℓ} : {A : Type ℓ} → (Server → A) → Task A
gets f s = (done (f s), s)

abbrev pub failure : Text → Failure
failure message = record { message = message; chain = other ∷ [] }

abbrev pub or_fail {ℓ} : {A : Type ℓ} → Text → Option A → Outcome A
or_fail message none = failed (failure message)
or_fail message (some a) = done a

pub record Attempt : Type 0 where
  pub claimed_at : ℤ
  pub done_at : ℤ
  pub failed_at : ℤ
  -- What other tasks write before each statement on the table of jobs: the claim (0), the id of the
  -- prompt (1), the completion (2), the end of a failed attempt (3), the n-th progress (4 + n).
  pub others : ℕ → List Write
  pub extension : Text → Text
  pub upload_image : Bytes → Text → Outcome Text
  pub connect_ws : Outcome (Unit {0})
  pub submit_prompt : Value → Outcome Text
  pub frames : List Frame
  -- The timeout of the job expires after the frames.
  pub timed_out : Bool
  -- `p < last || p - last >= 0.02` on f32 bits, the new value first.
  pub worth_writing : ℕ → ℕ → Bool
  pub get_history : Outcome (Option HistoryEntry)
  pub view : HistoryImage → Outcome Bytes
  pub create_dir_all : Outcome (Unit {0})
  pub tmp_sibling : Text → Text
  pub io : Io
  pub dimensions : Bytes → Option (ℕ × ℕ)
  -- The texts of the operating system's errors, and a text by `{:?}`.
  pub read_error : Text
  pub write_error : Text
  pub debug : Text → Text

pub record Config : Type 0 where
  pub data_dir : Text
  pub workflows : WorkflowRegistry

abbrev pub set_jobs : (List Job → List Job) → Server → Server
set_jobs f s = record s { jobs = f s.jobs }

abbrev pub interfere : Attempt → ℕ → Task (Unit {0})
interfere a n = modify (set_jobs (apply_all (a.others n)))

abbrev pub claim : Attempt → Job → Task Bool
claim a job s =
    let (jobs, claimed) = mark_running a.claimed_at job.id s.jobs in
    (done claimed, record s { jobs = jobs })

-- A subnormal f32 of the significand `m`, whose exponent is `e` when `m` has its leading bit; each
-- step doubles `m`, so that 23 steps reach it.
unfoldable pub normalised : ℕ → ℕ → ℕ → ℕ
normalised zero e m = 0
normalised (suc fuel) e m =
    let rest = normalised fuel (e - 1) (m * 2) in
    if leb (2 ^ 23) m then e * 2 ^ 52 + (m - 2 ^ 23) * 2 ^ 29 else rest

-- The bits of an f64 without its sign, from the exponent and the significand of an f32.
unfoldable pub widened : ℕ → ℕ → ℕ
unfolding normalised
widened e m =
    if e == 255
    then 2047 * 2 ^ 52 + m * 2 ^ 29
    else if e == 0
    then normalised 24 897 m
    else (e + 896) * 2 ^ 52 + m * 2 ^ 29

-- The f64 that SQLite stores for an f32: the bits of the one from the bits of the other.
unfoldable pub as_f64 : ℕ → ℕ
unfolding widened
as_f64 bits = bits / 2 ^ 31 * 2 ^ 63 + widened (bits / 2 ^ 23 % 256) (bits % 2 ^ 23)

-- The task that writes the progress, from the number of its writes and the value it wrote last.
unfoldable pub write_frames : Attempt → Text → ℕ → ℕ → List ℕ → Server → Server
unfolding notify_job_change as_f64
write_frames a id n last [] s = s
write_frames a id n last (p ∷ ps) s =
    let skip = write_frames a id n last ps s in
    let before = set_jobs (apply_all (a.others (4 + n))) s in
    let write =
      write_frames a id (n + 1) p ps
        (notify_job_change (set_jobs (write_progress id (as_f64 p)) before)) in
    if a.worth_writing p last then write else skip

abbrev pub write_output : Attempt → Text → Bytes → Task (Unit {0})
write_output a path bytes s =
    let w = atomic_write a.io (a.tmp_sibling path) path bytes s.disk in
    (if w.succeeded then done tt else failed (failure a.write_error), record s { disk = w.disk })

abbrev pub width_of : Option (ℕ × ℕ) → Option ℕ
width_of none = none
width_of (some (w, h)) = some w

abbrev pub height_of : Option (ℕ × ℕ) → Option ℕ
height_of none = none
height_of (some (w, h)) = some h

-- The renditions that it starts at the end are written by another task.
unfoldable pub finalize_output : Attempt → Job → Text → Bytes → Task (Unit {0})
finalize_output a job rel bytes = do
  interfere a 2
  modify (
      set_jobs (λ jobs.
        (mark_done a.done_at job.id rel (width_of (a.dimensions bytes))
          (height_of (a.dimensions bytes)) jobs).0))

abbrev pub execution_failed : Option Text → Text
execution_failed none = text "comfyui execution failed (status=unknown)"
execution_failed (some status) = text "comfyui execution failed (status=" ++ status ++ text ")"

abbrev pub no_output : Text → Text
no_output prefix = text "no output image matched prefix `" ++ prefix ++ text "` in comfy history"

-- From the end of the prompt: `process_job` after the wait.
unfoldable pub collect_output : Config → Attempt → Job → Text → Task (Unit {0})
unfolding finalize_output
collect_output config a job comfy_prompt_id = do
  found ← lift a.get_history
  entry ←
      lift (or_fail (text "comfy /history empty after completion for " ++ comfy_prompt_id) found)
  lift (if succeeded entry then done tt else failed (failure (execution_failed entry.status_str)))
  img ←
      lift
        (or_fail (no_output (output_prefix job.id)) (primary_output (output_prefix job.id) entry))
  bytes ← lift (a.view img)
  abs_output ← lift (
      or_fail (text "invalid filename for data path: " ++ a.debug img.filename)
        (data_path config.data_dir outputs img.filename))
  lift a.create_dir_all
  write_output a abs_output bytes
  finalize_output a job (relative_for_db abs_output config.data_dir) bytes

-- `WorkflowSupportError` by `{}`.
abbrev pub error_text : Registry.WorkflowSupportError → Text
error_text (Registry.WorkflowSupportError.unknown name) = text "unknown workflow: " ++ name
error_text (Registry.WorkflowSupportError.unsupported name reason) =
    text "workflow '" ++ name ++ text "' is not supported by this server: " ++ reason

abbrev pub checked : Registry.Checked Value → Outcome Value
checked (Registry.Checked.ok t) = done t
checked (Registry.Checked.err e) = failed (failure (error_text e))

abbrev pub timeout_text : Option ℤ → Text
timeout_text timeout_seconds =
    text "comfyui timeout after " ++ decimal (clamp_timeout_seconds timeout_seconds) ++ text "s"

abbrev pub await : Attempt → Job → Text → Task (Unit {0})
await a job comfy_prompt_id =
    let (completion, sent) = await_completion comfy_prompt_id a.frames in
    modify (write_frames a job.id 0 0 sent)
    >> (if a.timed_out
        then modify interrupt >> lift (failed (failure (timeout_text job.timeout_seconds)))
        else lift completion)

-- `process_job` of a job that is claimed.
unfoldable pub work : Config → Attempt → Job → Task (Unit {0})
unfolding collect_output write_frames
work config a job = do
  modify notify_job_change
  row ← gets (λ s. fetch_optional (λ (i : Input). i.id == job.input_id) s.inputs)
  input ← lift (or_fail (text "input row " ++ decimal job.input_id ++ text " disappeared") row)
  input_rel ←
      lift (or_fail (text "input file purged for input_id " ++ decimal job.input_id) input.path)
  template ← lift (checked (supported_template config.workflows job.workflow))
  file ← gets (λ s. s.disk (join config.data_dir input_rel))
  input_bytes ← lift (
      or_fail (text "read input " ++ join config.data_dir input_rel ++ text ": " ++ a.read_error)
        file)
  stored_name ← lift (
      a.upload_image input_bytes (text "zun_" ++ input.sha256 ++ text "." ++ a.extension input_rel))
  lift a.connect_ws
  comfy_prompt_id ←
      lift
        (a.submit_prompt (build_edit_workflow template job.prompt_text stored_name job.id job.seed))
  interfere a 1
  modify (set_jobs (update_comfy_prompt_id job.id comfy_prompt_id))
  await a job comfy_prompt_id
  collect_output config a job comfy_prompt_id

unfoldable pub work_if : Config → Attempt → Job → Bool → Task (Unit {0})
unfolding work
work_if config a job claimed = if claimed then work config a job else pure tt

unfoldable pub process_job : Config → Attempt → Job → Task (Unit {0})
unfolding work_if
process_job config a job = do interfere a 0; claimed ← claim a job; work_if config a job claimed

-- What the loop does next; a panic ends the task.
pub data Next : Type 0 where
  continues backs_off panicked : Next

-- The loop's answer to the result of an attempt.
unfoldable pub settle : Attempt → Job → Outcome (Unit {0}) → Server → Next × Server
settle a job (done u) s = (continues, notify_job_change s)
settle a job (failed e) s =
    let s' = set_jobs (apply_all (a.others 3)) s in
    if is_unreachable e
    then (backs_off, notify_job_change (set_jobs (requeue job.id) s'))
    else elim (redact_internal e.message) [
      | none ↦ (panicked, s)
      | some stored ↦
          (continues, notify_job_change (set_jobs (mark_failed a.failed_at job.id stored) s'))
    ]

unfoldable pub handle_job : Config → Attempt → Job → Server → Next × Server
unfolding process_job settle
handle_job config a job s = let (r, s') = process_job config a job s in settle a job r s'

-- One turn of the inner loop: whether a shutdown is asked for, what other tasks write before the
-- fetch, and the attempt at the job that is fetched.
pub record Turn : Type 0 where
  pub shutdown : Bool
  pub before_fetch : List Write
  pub attempt : Job → Attempt

pub data Drained : Type 0 where
  idle stopped backed_off died out_of_turns : Drained

abbrev pub after : Next → Drained × Server → Server → Drained × Server
after continues rest s = rest
after backs_off rest s = (backed_off, s)
after panicked rest s = (died, s)

-- The inner loop of `run`, for as many turns as the list has.
unfoldable pub drain : Config → List Turn → Server → Drained × Server
unfolding handle_job
drain config [] s = (out_of_turns, s)
drain config (t ∷ ts) s =
    let s' = set_jobs (apply_all t.before_fetch) s in
    if t.shutdown then (stopped, s) else elim (fetch_oldest_queued s'.jobs) [
      | none ↦ (idle, s')
      | some job ↦
          let (next, s'') = handle_job config (t.attempt job) job s' in
          after next (drain config ts s'') s''
    ]

-- The start of `run` and its first drain, after what other tasks write before the reset.
unfoldable pub start : Config → List Write → List Turn → Server → Drained × Server
unfolding drain
start config before ts s =
    drain config ts (set_jobs reset_running_jobs (set_jobs (apply_all before) s))
