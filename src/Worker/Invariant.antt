-- ===== src/Worker/Invariant.antt =====
-- The table of jobs stays well-formed through the worker's loop, whatever the other tasks write.
use zun_rust_server.Prelude.{
  Bool, true, false, List, [], ◌∷◌, All, Bool-cases, Option-cases, inl, inr,
}
use zun_rust_server.Jobs.{Job, reset_running_jobs, fetch_oldest_queued}
use zun_rust_server.Jobs.Lifecycle.{
  Write, apply, apply_all, claims, completes, names_prompt, progresses, requeues, fails, resets,
}
use zun_rust_server.Jobs.Consistent.{UniqueIds, IsConsistent, apply-UniqueIds, apply-IsConsistent}
use zun_rust_server.Server.{Server, notify_job_change}
use zun_rust_server.Comfy.{Outcome, is_unreachable}
use zun_rust_server.Comfy as Comfy
use zun_rust_server.Error.Redact.{redact_internal}
use zun_rust_server.Worker.{
  Attempt, Config, Next, continues, backs_off, panicked, Turn, Drained, after, work, work_if,
  process_job, settle, handle_job, drain, start, set_jobs, ◌>>=◌,
}
use zun_rust_server.Worker.Triple.{Post, Stable, work-Triple}

abbrev pub WellFormed : List Job → Type 0
WellFormed jobs = UniqueIds jobs × All IsConsistent jobs

apply-WellFormed : (w : Write) (jobs : List Job) → WellFormed jobs → WellFormed (apply w jobs)
apply-WellFormed w jobs h = (apply-UniqueIds w jobs h.0, apply-IsConsistent w jobs h.1)

apply_all-WellFormed :
    (ws : List Write) (jobs : List Job) → WellFormed jobs → WellFormed (apply_all ws jobs)
unfolding apply_all
apply_all-WellFormed [] jobs h = h
apply_all-WellFormed (w ∷ ws) jobs h =
    apply_all-WellFormed ws (apply w jobs) (apply-WellFormed w jobs h)

Stable-WellFormed : (a : Attempt) (job : Job) → Stable a job.id WellFormed WellFormed
unfolding apply
Stable-WellFormed a job = record {
  interfered = λ n jobs h. apply_all-WellFormed (a.others n) jobs h;
  named = λ comfy_id jobs h. apply-WellFormed (names_prompt job.id comfy_id) jobs h;
  progressed = λ p jobs h. apply-WellFormed (progresses job.id p) jobs h;
  completed = λ path width height jobs h.
      apply-WellFormed (completes a.done_at job.id path width height) jobs h;
}

work_if-WellFormed :
    (config : Config) (a : Attempt) (job : Job) (claimed : Bool) (s : Server)
    → WellFormed s.jobs
    → WellFormed (work_if config a job claimed s).1.jobs
unfolding work_if
work_if-WellFormed config a job false s h = h
work_if-WellFormed config a job true s h =
    either_way (work config a job s)
      (work-Triple a job WellFormed WellFormed (Stable-WellFormed a job) config s h)
  where
    either_way :
        (r : Outcome (Unit {0}) × Server)
        → Post WellFormed (λ _. WellFormed) r
        → WellFormed r.1.jobs
    either_way (Comfy.done u, t) k = k
    either_way (Comfy.failed e, t) k = k

process_job-WellFormed :
    (config : Config) (a : Attempt) (job : Job) (s : Server)
    → WellFormed s.jobs
    → WellFormed (process_job config a job s).1.jobs
unfolding process_job ◌>>=◌ apply
process_job-WellFormed config a job s h =
    let before = apply_all-WellFormed (a.others 0) s.jobs h in
    let claimed =
      apply-WellFormed (claims a.claimed_at job.id) (apply_all (a.others 0) s.jobs) before in
    work_if-WellFormed config a job _ _ claimed

settle-WellFormed :
    (a : Attempt) (job : Job) (r : Outcome (Unit {0})) (s : Server)
    → WellFormed s.jobs
    → WellFormed (settle a job r s).1.jobs
unfolding settle apply notify_job_change
settle-WellFormed a job (Comfy.done u) s h = h
settle-WellFormed a job (Comfy.failed e) s h =
    let before = apply_all-WellFormed (a.others 3) s.jobs h in
    elim (Bool-cases (is_unreachable e)) [
      | inl away ↦
          rw away (apply-WellFormed (requeues job.id) (apply_all (a.others 3) s.jobs) before)
      | inr fault ↦ elim (Option-cases (redact_internal e.message)) [
        | inl panics ↦ rw (fault, panics) h
        | inr (stored, redacted) ↦
            rw (fault, redacted)
              (apply-WellFormed (fails a.failed_at job.id stored) (apply_all (a.others 3) s.jobs)
                before)
      ]
    ]

pub handle_job-WellFormed :
    (config : Config) (a : Attempt) (job : Job) (s : Server)
    → WellFormed s.jobs
    → WellFormed (handle_job config a job s).1.jobs
unfolding handle_job
handle_job-WellFormed config a job s h =
    settle-WellFormed a job (process_job config a job s).0 (process_job config a job s).1
      (process_job-WellFormed config a job s h)

after-WellFormed :
    (next : Next) (rest : Drained × Server) (s : Server)
    → WellFormed rest.1.jobs
    → WellFormed s.jobs
    → WellFormed (after next rest s).1.jobs
after-WellFormed continues rest s r h = r
after-WellFormed backs_off rest s r h = h
after-WellFormed panicked rest s r h = h

drain-WellFormed :
    (config : Config) (ts : List Turn) (s : Server)
    → WellFormed s.jobs
    → WellFormed (drain config ts s).1.jobs
unfolding drain
drain-WellFormed config [] s h = h
drain-WellFormed config (t ∷ ts) s h = elim (Bool-cases t.shutdown) [
  | inl down ↦ rw down h
  | inr up ↦
      let fetched = apply_all-WellFormed t.before_fetch s.jobs h in
      elim (Option-cases (fetch_oldest_queued (apply_all t.before_fetch s.jobs))) [
        | inl empty ↦ rw (up, empty) fetched
        | inr (job, found) ↦
            let handled = handle_job-WellFormed config (t.attempt job) job _ fetched in
            rw (up, found) (after-WellFormed _ _ _ (drain-WellFormed config ts _ handled) handled)
      ]
]

-- The worker, from its start on and for any number of turns, whatever ComfyUI answers and whatever
-- the other tasks write before each of its statements, keeps job ids unique and the columns of every
-- row in agreement with its status.
pub start-WellFormed :
    (config : Config) (before : List Write) (ts : List Turn) (s : Server)
    → UniqueIds s.jobs
    → All IsConsistent s.jobs
    → UniqueIds (start config before ts s).1.jobs
      × All IsConsistent (start config before ts s).1.jobs
unfolding start apply
start-WellFormed config before ts s u h =
    drain-WellFormed config ts (set_jobs reset_running_jobs (set_jobs (apply_all before) s)) (
      apply-WellFormed resets (apply_all before s.jobs) (apply_all-WellFormed before s.jobs (u, h)))
