-- ===== src/Worker/Settles.antt =====
-- What an attempt leaves of the row of its job when no other task writes to the table meanwhile.
use zun_rust_server.Prelude.{
  ℕ, ◌≡◌, refl, sym, ap, subst, ◌∙◌, ◌⊎◌, inl, inr, Bool, true, false, List, [], ◌∷◌, some,
  if◌then◌else◌, Bool-cases, Option-cases, arith,
}
use zun_rust_server.Prelude.Int.{ℤ}
use zun_rust_server.Prelude.Text.{Text, text_eq, text_eq_iff, text_eq_refl}
use zun_rust_server.Sql.{fetch_optional, update_where, count_where}
use zun_rust_server.Sql.Update.{fetch_optional-update_where, fetch_optional_test}
use zun_rust_server.Sql.Member.{Member, All-Member}
use zun_rust_server.Jobs.{
  Status, Job, queued, running, done, failed, has_id, is_queued_live, is_claimable, mark_running,
  update_comfy_prompt_id, mark_done, mark_failed, requeue, write_progress, fetch_oldest_queued,
  running_row,
}
use zun_rust_server.Jobs.Lifecycle.{apply_all}
use zun_rust_server.Jobs.Consistent.{UniqueIds, Differs}
use zun_rust_server.Jobs.Key.{count_where-one_if}
use zun_rust_server.Jobs.Queue.{fetch_oldest_queued-Picks, Picks}
use zun_rust_server.Server.{Server, notify_job_change}
use zun_rust_server.Comfy.{Outcome, Failure, is_unreachable, Outcome-cases}
use zun_rust_server.Comfy as Comfy
use zun_rust_server.Error.Redact.{redact_internal}
use zun_rust_server.Worker.{
  Attempt, Config, Next, continues, backs_off, panicked, work_if, process_job, settle, handle_job,
  ◌>>=◌,
}
use zun_rust_server.Worker.Triple.{Post, Stable, work-Triple}

-- The table has a row of the id, with the status.
abbrev pub Stands : Text → Status → List Job → Type 0
Stands id st jobs = (j : Job) × (fetch_optional (has_id id) jobs ≡ some j) × (j.status ≡ st)

update_where-Stands :
    (id : Text) (st st' : Status) (w : Job → Bool) (f : Job → Job) (jobs : List Job)
    → ((r : Job) → (f r).id ≡ r.id)
    → ((r : Job) → has_id id r ≡ true → r.status ≡ st → (if w r then f r else r).status ≡ st')
    → Stands id st jobs
    → Stands id st' (update_where w f jobs)
update_where-Stands id st st' w f jobs keep moves (j, found, e) = (
  if w j then f j else j,
  fetch_optional-update_where (has_id id) w f jobs (λ r. ap (λ k. text_eq k id) (keep r))
      ∙ rw found refl,
  moves j (fetch_optional_test (has_id id) jobs j found) e,
)

Stable-Stands :
    (a : Attempt) (id : Text)
    → ((n : ℕ) → a.others n ≡ [])
    → Stable a id (Stands id running) (Stands id done)
unfolding apply_all update_comfy_prompt_id write_progress mark_done
Stable-Stands a id alone = record {
  interfered = λ n jobs h. rw (alone n) h;
  named = λ comfy_id jobs h.
      update_where-Stands id running running (has_id id) _ jobs (λ r. refl) (λ r k e. ground arith)
        h;
  progressed = λ p jobs h.
      update_where-Stands id running running _ _ jobs (λ r. refl) (λ r k e. ground arith) h;
  completed = λ path width height jobs h.
      update_where-Stands id running done _ _ jobs (λ r. refl) (λ r k e. ground arith) h;
}

pub Member-found :
    (jobs : List Job) (j : Job)
    → UniqueIds jobs
    → Member j jobs
    → fetch_optional (has_id j.id) jobs ≡ some j
unfolding fetch_optional
Member-found [] j u m = absurd m
Member-found (x ∷ xs) j u (inl e) = rw e (rw (text_eq_refl j.id) refl)
Member-found (x ∷ xs) j u (inr m) =
    let d : text_eq j.id x.id ≡ false = All-Member (Differs x.id) j xs u.0 m in
    elim (Bool-cases (text_eq x.id j.id)) [
      | inr other ↦ rw other (Member-found xs j u.1 m)
      | inl same ↦
          let e = (text_eq_iff x.id j.id).0 same in
          let r : text_eq x.id x.id ≡ true = text_eq_refl x.id in
          let q : text_eq x.id x.id ≡ false = rw (sym e) at d in absurd cc
    ]

-- The claim of the job that the worker fetched succeeds.
pub claim-Stands :
    (now : ℤ) (jobs : List Job) (job : Job)
    → UniqueIds jobs
    → fetch_oldest_queued jobs ≡ some job
    → ((mark_running now job.id jobs).1 ≡ true)
      × Stands job.id running (mark_running now job.id jobs).0
unfolding mark_running
claim-Stands now jobs job u e =
    let picked : Picks jobs (some job) = subst (Picks jobs) e (fetch_oldest_queued-Picks jobs u) in
    let found = Member-found jobs job u picked.0 in
    let ready : is_queued_live job ≡ true = picked.1 in
    let one : count_where (is_claimable job.id) jobs ≡ 1 =
      count_where-one_if job.id is_queued_live jobs u ∙ rw found (rw ready refl) in
    let mine : is_claimable job.id job ≡ true = rw (text_eq_refl job.id) ready in
    (
      rw one refl,
      (
        running_row now job,
        fetch_optional-update_where (has_id job.id) (is_claimable job.id) (running_row now) jobs
              (λ r. refl)
            ∙ rw found (rw mine refl),
        refl,
      ),
    )

work_if-Stands :
    (config : Config) (a : Attempt) (job : Job) (s : Server)
    → ((n : ℕ) → a.others n ≡ [])
    → Stands job.id running s.jobs
    → Post (Stands job.id running) (λ _. Stands job.id done) (work_if config a job true s)
unfolding work_if
work_if-Stands config a job s alone h =
    work-Triple a job (Stands job.id running) (Stands job.id done) (Stable-Stands a job.id alone)
      config s h

process_job-Stands :
    (config : Config) (a : Attempt) (job : Job) (s : Server)
    → ((n : ℕ) → a.others n ≡ [])
    → UniqueIds s.jobs
    → fetch_oldest_queued s.jobs ≡ some job
    → Post (Stands job.id running) (λ _. Stands job.id done) (process_job config a job s)
unfolding process_job ◌>>=◌ apply_all
process_job-Stands config a job s alone u e =
    let (claimed, stands) = claim-Stands a.claimed_at s.jobs job u e in
    rw (alone 0) (
      rw claimed (
        work_if-Stands config a job
          (record s { jobs = (mark_running a.claimed_at job.id s.jobs).0 }) alone stands))

-- What the row's status is after the loop has dealt with an attempt.
abbrev pub SettledAs : Text → Next → List Job → Type 0
SettledAs id continues jobs = Stands id done jobs ⊎ Stands id failed jobs
SettledAs id backs_off jobs = Stands id queued jobs
SettledAs id panicked jobs = Stands id running jobs

settle-SettledAs :
    (a : Attempt) (job : Job) (r : Outcome (Unit {0})) (s : Server)
    → ((n : ℕ) → a.others n ≡ [])
    → Post (Stands job.id running) (λ _. Stands job.id done) (r, s)
    → let (next, s') = settle a job r s in SettledAs job.id next s'.jobs
unfolding settle requeue mark_failed apply_all notify_job_change
settle-SettledAs a job (Comfy.done u) s alone h = inl h
settle-SettledAs a job (Comfy.failed e) s alone h = elim (Bool-cases (is_unreachable e)) [
  | inl away ↦
      rw (away, alone 3)
        (update_where-Stands job.id running queued _ _ s.jobs (λ r. refl) (λ r k q. ground arith) h)
  | inr fault ↦ elim (Option-cases (redact_internal e.message)) [
    | inl panics ↦ rw (fault, panics) h
    | inr (stored, redacted) ↦
        rw (fault, redacted, alone 3)
          (inr (
            update_where-Stands job.id running failed _ _ s.jobs (λ r. refl) (λ r k q. ground arith)
              h))
  ]
]

-- The attempt at the job that the worker fetched, in a table with unique ids and while no other task
-- writes to it, does not leave the row running, unless the worker's task dies of a panic: the row is
-- done or failed when the loop goes on, and queued again when it backs off from ComfyUI.
pub handle_job-SettledAs :
    (config : Config) (a : Attempt) (job : Job) (s : Server)
    → ((n : ℕ) → a.others n ≡ [])
    → UniqueIds s.jobs
    → fetch_oldest_queued s.jobs ≡ some job
    → let (next, s') = handle_job config a job s in SettledAs job.id next s'.jobs
unfolding handle_job
handle_job-SettledAs config a job s alone u e =
    let (r, s') = process_job config a job s in
    settle-SettledAs a job r s' alone (process_job-Stands config a job s alone u e)
