-- ===== src/Worker/Drain.antt =====
-- The inner loop ends: every turn takes a job off the queue.
use zun_rust_server.Prelude.{
  ℕ, suc, ◌+◌, ◌-◌, ◌≤◌, ◌<◌, ◌≡◌, refl, ap, ◌∙◌, subst, Bool, true, false, List, [], ◌∷◌, none,
  some, All, length, map, &&_right, Bool-cases, Option-cases, inl, inr, arith, ◌==◌,
}
use zun_rust_server.Prelude.Int.{ℤ}
use zun_rust_server.Sql.{update_where, count_where}
use zun_rust_server.Sql.Member.{count_where-length}
use zun_rust_server.Jobs.{
  Job, is_queued_live, is_claimable, has_id, running_row, mark_running, mark_failed,
  update_comfy_prompt_id, write_progress, mark_done, fetch_oldest_queued,
}
use zun_rust_server.Jobs.Lifecycle.{apply_all}
use zun_rust_server.Jobs.Consistent.{UniqueIds, IsConsistent}
use zun_rust_server.Jobs.Queue.{Picks, fetch_oldest_queued-Picks}
use zun_rust_server.Server.{Server, notify_job_change}
use zun_rust_server.Comfy.{Outcome, is_unreachable}
use zun_rust_server.Comfy as Comfy
use zun_rust_server.Error.Redact.{redact_internal}
use zun_rust_server.Worker.{
  Attempt, Config, Next, continues, backs_off, panicked, Turn, Drained, idle, stopped, backed_off,
  died, out_of_turns, after, work, work_if, process_job, settle, handle_job, drain, ◌>>=◌,
}
use zun_rust_server.Worker.Triple.{Post, Stable, work-Triple}
use zun_rust_server.Worker.Settles.{claim-Stands}
use zun_rust_server.Worker.Invariant.{handle_job-WellFormed}

abbrev pub queued_count : List Job → ℕ
queued_count jobs = count_where is_queued_live jobs

count_where-update_where_le :
    (q w : Job → Bool) (f : Job → Job) (rows : List Job)
    → ((r : Job) → w r ≡ true → q (f r) ≡ true → q r ≡ true)
    → count_where q (update_where w f rows) ≤ count_where q rows
unfolding count_where update_where
count_where-update_where_le q w f [] h = omega arith
count_where-update_where_le q w f (r ∷ rs) h =
    ground (arith, h r, count_where-update_where_le q w f rs h)

-- An update that takes rows out of the count.
count_where-update_where_out :
    (q w : Job → Bool) (f : Job → Job) (rows : List Job)
    → ((r : Job) → w r ≡ true → q r ≡ true)
    → ((r : Job) → q (f r) ≡ false)
    → count_where q (update_where w f rows) + count_where w rows ≤ count_where q rows
unfolding count_where update_where
count_where-update_where_out q w f [] h k = omega arith
count_where-update_where_out q w f (r ∷ rs) h k =
    ground (arith, h r, k r, count_where-update_where_out q w f rs h k)

abbrev AtMost : ℕ → List Job → Type 0
AtMost n jobs = queued_count jobs ≤ n

update_where-AtMost :
    (n : ℕ) (w : Job → Bool) (f : Job → Job) (jobs : List Job)
    → ((r : Job) → is_queued_live (f r) ≡ true → is_queued_live r ≡ true)
    → AtMost n jobs
    → AtMost n (update_where w f jobs)
update_where-AtMost n w f jobs keeps h =
    omega (arith, count_where-update_where_le is_queued_live w f jobs (λ r e. keeps r), h)

Stable-AtMost :
    (a : Attempt) (job : Job) (n : ℕ)
    → ((k : ℕ) → a.others k ≡ [])
    → Stable a job.id (AtMost n) (AtMost n)
unfolding apply_all update_comfy_prompt_id write_progress mark_done
Stable-AtMost a job n alone = record {
  interfered = λ k jobs h. rw (alone k) h;
  named = λ c jobs h. update_where-AtMost n _ _ jobs (λ r q. q) h;
  progressed = λ p jobs h. update_where-AtMost n _ _ jobs (λ r q. q) h;
  completed = λ path width height jobs h. update_where-AtMost n _ _ jobs (λ r q. cc) h;
}

-- The claim takes the job off the queue.
claim-AtMost :
    (now : ℤ) (n : ℕ) (jobs : List Job) (job : Job)
    → UniqueIds jobs
    → fetch_oldest_queued jobs ≡ some job
    → queued_count jobs ≤ suc n
    → AtMost n (mark_running now job.id jobs).0
unfolding mark_running
claim-AtMost now n jobs job u e h =
    let one : count_where (is_claimable job.id) jobs == 1 ≡ true =
      (claim-Stands now jobs job u e).0 in
    let out =
      count_where-update_where_out is_queued_live (is_claimable job.id) (running_row now) jobs
        (λ r k. &&_right (has_id job.id r) (is_queued_live r) k) (λ r. refl) in
    ground (arith, one, out, h)

work_if-AtMost :
    (config : Config) (a : Attempt) (job : Job) (n : ℕ) (claimed : Bool) (s : Server)
    → ((k : ℕ) → a.others k ≡ [])
    → AtMost n s.jobs
    → AtMost n (work_if config a job claimed s).1.jobs
unfolding work_if
work_if-AtMost config a job n false s alone h = h
work_if-AtMost config a job n true s alone h =
    either_way (work config a job s)
      (work-Triple a job (AtMost n) (AtMost n) (Stable-AtMost a job n alone) config s h)
  where
    either_way :
        (r : Outcome (Unit {0}) × Server) → Post (AtMost n) (λ _. AtMost n) r → AtMost n r.1.jobs
    either_way (Comfy.done u, t) k = k
    either_way (Comfy.failed e, t) k = k

process_job-AtMost :
    (config : Config) (a : Attempt) (job : Job) (n : ℕ) (s : Server)
    → ((k : ℕ) → a.others k ≡ [])
    → UniqueIds s.jobs
    → fetch_oldest_queued s.jobs ≡ some job
    → queued_count s.jobs ≤ suc n
    → AtMost n (process_job config a job s).1.jobs
unfolding process_job ◌>>=◌ apply_all
process_job-AtMost config a job n s alone u e h = rw (alone 0) (
    work_if-AtMost config a job n (mark_running a.claimed_at job.id s.jobs).1
      (record s { jobs = (mark_running a.claimed_at job.id s.jobs).0 }) alone
      (claim-AtMost a.claimed_at n s.jobs job u e h))

-- What the end of a drain says of the table.
abbrev pub DrainedAs : Drained → List Job → Type 0
DrainedAs idle jobs = queued_count jobs ≡ 0
DrainedAs backed_off jobs = Unit
DrainedAs died jobs = Unit
DrainedAs stopped jobs = ⊥
DrainedAs out_of_turns jobs = ⊥

-- After an attempt that lets the loop go on, the queue is shorter.
settle-AtMost :
    (a : Attempt) (job : Job) (n : ℕ) (r : Outcome (Unit {0})) (s : Server)
    → ((k : ℕ) → a.others k ≡ [])
    → AtMost n s.jobs
    → (settle a job r s).0 ≡ continues
    → AtMost n (settle a job r s).1.jobs
unfolding settle mark_failed apply_all notify_job_change
settle-AtMost a job n (Comfy.done u) s alone h g = h
settle-AtMost a job n (Comfy.failed e) s alone h g = elim (Bool-cases (is_unreachable e)) [
  | inl away ↦ absurd (let q = rw away at g in cc)
  | inr fault ↦ elim (Option-cases (redact_internal e.message)) [
    | inl panics ↦ rw (fault, panics) h
    | inr (stored, redacted) ↦
        rw (fault, redacted, alone 3) (update_where-AtMost n _ _ s.jobs (λ r q. cc) h)
  ]
]

found_positive :
    (jobs : List Job) (job : Job)
    → UniqueIds jobs
    → fetch_oldest_queued jobs ≡ some job
    → 1 ≤ queued_count jobs
unfolding mark_running
found_positive jobs job u e =
    let now = job.created_at in
    let one : count_where (is_claimable job.id) jobs == 1 ≡ true =
      (claim-Stands now jobs job u e).0 in
    let out =
      count_where-update_where_out is_queued_live (is_claimable job.id) (running_row now) jobs
        (λ r k. &&_right (has_id job.id r) (is_queued_live r) k) (λ r. refl) in
    ground (arith, one, out)

empty_zero :
    (jobs : List Job) → UniqueIds jobs → fetch_oldest_queued jobs ≡ none → queued_count jobs ≡ 0
empty_zero jobs u e =
    let none_left : Picks jobs none = subst (Picks jobs) e (fetch_oldest_queued-Picks jobs u) in
    count_where-length is_queued_live jobs ∙ ap length none_left

handle_job-AtMost :
    (config : Config) (a : Attempt) (job : Job) (n : ℕ) (s : Server)
    → ((k : ℕ) → a.others k ≡ [])
    → UniqueIds s.jobs
    → fetch_oldest_queued s.jobs ≡ some job
    → queued_count s.jobs ≤ suc n
    → (handle_job config a job s).0 ≡ continues
    → AtMost n (handle_job config a job s).1.jobs
unfolding handle_job
handle_job-AtMost config a job n s alone u e h g =
    settle-AtMost a job n (process_job config a job s).0 (process_job config a job s).1 alone
      (process_job-AtMost config a job n s alone u e h) g

-- A turn at whose start no shutdown is asked for and no other task writes.
abbrev pub quiet_turn : (Job → Attempt) → Turn
quiet_turn attempt = record { shutdown = false; before_fetch = []; attempt = attempt }

-- No other task writes during the attempt, whichever the job.
abbrev pub IsAlone : (Job → Attempt) → Type 0
IsAlone attempt = (job : Job) (k : ℕ) → (attempt job).others k ≡ []

after-DrainedAs :
    (next : Next) (rest : Drained × Server) (s : Server)
    → (next ≡ continues → DrainedAs rest.0 rest.1.jobs)
    → DrainedAs (after next rest s).0 (after next rest s).1.jobs
after-DrainedAs continues rest s h = h refl
after-DrainedAs backs_off rest s h = tt
after-DrainedAs panicked rest s h = tt

-- While no shutdown is asked for and no other task writes to a well-formed table, more turns than
-- there are queued jobs are enough for the loop to end: it either empties the queue, or backs off
-- from a ComfyUI that is not reachable, or dies of a panic.
pub drain-DrainedAs :
    (config : Config) (attempts : List (Job → Attempt)) (s : Server)
    → UniqueIds s.jobs
    → All IsConsistent s.jobs
    → All IsAlone attempts
    → queued_count s.jobs < length attempts
    → let (end, s') = drain config (map quiet_turn attempts) s in DrainedAs end s'.jobs
unfolding drain apply_all
drain-DrainedAs config [] s u c quiet h = absurd (omega (arith, h))
drain-DrainedAs config (attempt ∷ rest) s u c quiet h =
    elim (Option-cases (fetch_oldest_queued s.jobs)) [
      | inl empty ↦ rw empty (empty_zero s.jobs u empty)
      | inr (job, found) ↦
          let handled = handle_job-WellFormed config (attempt job) job s (u, c) in
          let positive = found_positive s.jobs job u found in
          rw found (
            after-DrainedAs (handle_job config (attempt job) job s).0
              (drain config (map quiet_turn rest) (handle_job config (attempt job) job s).1)
              (handle_job config (attempt job) job s).1
              (λ g.
                drain-DrainedAs config rest (handle_job config (attempt job) job s).1 handled.0
                  handled.1 quiet.1
                  (let shorter =
                      handle_job-AtMost config (attempt job) job (length rest - 1) s (quiet.0 job) u
                        found (omega (arith, h)) g in
                    omega (arith, shorter, h, positive))))
    ]
