-- ===== src/Handlers/Submit/Accepts.antt =====
-- src/handlers.rs: what `submit_job` answers and leaves, on every branch.
use zun_rust_server.Prelude.{
  ℕ, ◌≡◌, refl, ap, ◌∙◌, true, List, [], ◌∷◌, ◌++◌, Option, none, some, is_some, Bool-cases,
  Option-cases, inl, inr,
}
use zun_rust_server.Prelude.Text.{Text, text_eq→eq}
use zun_rust_server.Error.{Result, ok, err, Result-cases}
use zun_rust_server.Sql.{fetch_optional}
use zun_rust_server.Sql.Update.{fetch_optional_test}
use zun_rust_server.Sql.Member.{Member, Member-update_where, Member-fetch_optional}
use zun_rust_server.Jobs.{Job, NewJob, queued_row, insert_job, has_id}
use zun_rust_server.Server.{Server, Input, wake_worker}
use zun_rust_server.Paths.{join, needs_slash}
use zun_rust_server.Handlers.Submit.Request.{SubmitEnv, SubmitFields, Request}
use zun_rust_server.Handlers.Submit.Prompt.{Resolved}
use zun_rust_server.Handlers.Submit.Resolve.{
  is_input, has_sha, update_input, touched, cleared, resolve_row, use_cached, resolve_existing,
  resolve_input, check_upload, Accepted, answer_insert, submit_checked, new_job, enqueue,
  enqueue_resolved, check_submit, submit_job,
}
use zun_rust_server.Handlers.Submit.Stored.{
  Held, HasInput, SameQueue, Outcome, is_input_self, update_input-Held, need_or_store-Outcome,
}

module _ (env : SubmitEnv) (fields : SubmitFields) (dir : needs_slash env.data_dir ≡ true) where
  use_cached-Outcome :
      (row : Input) (path : Text) (s : Server)
      → Member row s.inputs
      → row.sha256 ≡ fields.input_sha256
      → row.path ≡ some path
      → Outcome env fields s (use_cached env fields row.id path s)
  unfolding use_cached
  use_cached-Outcome row path s m same at_path =
      let h : Held fields.input_sha256 row.id s.inputs = record {
        row = row;
        member = m;
        id_is = refl;
        sha_is = same;
      } in
      elim (Bool-cases (is_some (s.disk (join env.data_dir path)))) [
        | inl there ↦ rw there (
          (refl, refl),
          record {
            row = touched env.now_input row;
            member =
                Member-update_where (is_input row.id) (touched env.now_input) row s.inputs
                  (is_input_self row row.id refl) m;
            id_is = refl;
            sha_is = same;
            path = path;
            path_is = at_path;
            on_disk = there;
          },
        )
        | inr gone ↦ rw gone (
            need_or_store-Outcome env fields dir fields.upload (some row.id)
              (update_input row.id cleared s)
              (update_input-Held fields.input_sha256 row.id cleared s (λ i. refl) (λ i. refl) h))
      ]

  resolve_row-Outcome :
      (row : Input) (path : Option Text) (s : Server)
      → Member row s.inputs
      → row.sha256 ≡ fields.input_sha256
      → row.path ≡ path
      → Outcome env fields s (resolve_row env fields row path s)
  unfolding resolve_row
  resolve_row-Outcome row none s m same e =
      need_or_store-Outcome env fields dir fields.upload (some row.id) s
        (record { row = row; member = m; id_is = refl; sha_is = same })
  resolve_row-Outcome row (some path) s m same e = use_cached-Outcome row path s m same e

  resolve_existing-Outcome :
      (found : Option Input) (s : Server)
      → fetch_optional (has_sha fields.input_sha256) s.inputs ≡ found
      → Outcome env fields s (resolve_existing env fields found s)
  unfolding resolve_existing
  resolve_existing-Outcome none s e = need_or_store-Outcome env fields dir fields.upload none s tt
  resolve_existing-Outcome (some row) s e =
      resolve_row-Outcome row row.path s
        (Member-fetch_optional (has_sha fields.input_sha256) row s.inputs e)
        (text_eq→eq row.sha256 fields.input_sha256
          (fetch_optional_test (has_sha fields.input_sha256) s.inputs row e))
        refl

  resolve_input-Outcome : (s : Server) → Outcome env fields s (resolve_input env fields s)
  unfolding resolve_input
  resolve_input-Outcome s = elim (Result-cases (check_upload env fields)) [
    | inl fine ↦
        rw (resolve_input, fine)
          (resolve_existing-Outcome (fetch_optional (has_sha fields.input_sha256) s.inputs) s refl)
    | inr (e, bad) ↦ rw (resolve_input, bad) ((refl, refl), tt)
  ]

-- The bytes have the hash that the client claims, where an input is answered.
abbrev pub CheckedIfOk : SubmitEnv → SubmitFields → Result ℕ → Type 0
CheckedIfOk env fields (ok id) = check_upload env fields ≡ ok tt
CheckedIfOk env fields (err e) = Unit

CheckedIfOk-all :
    (env : SubmitEnv) (fields : SubmitFields) (r : Result ℕ)
    → check_upload env fields ≡ ok tt
    → CheckedIfOk env fields r
CheckedIfOk-all env fields (ok id) h = h
CheckedIfOk-all env fields (err e) h = tt

pub resolve_input-CheckedIfOk :
    (env : SubmitEnv) (fields : SubmitFields) (s : Server)
    → CheckedIfOk env fields (resolve_input env fields s).0
unfolding resolve_input
resolve_input-CheckedIfOk env fields s = elim (Result-cases (check_upload env fields)) [
  | inl fine ↦ CheckedIfOk-all env fields _ fine
  | inr (e, bad) ↦ rw (resolve_input, bad) tt
]

-- What a submit answers and leaves, for what its checks give: the state before and after it.
abbrev pub Submitted :
    SubmitEnv → Result (SubmitFields × Resolved) → Server → Result Accepted → Server → Type 0
Submitted env checks s (err e) s' = SameQueue s s'
Submitted env checks s (ok a) s' =
    (fields : SubmitFields) × (r : Resolved) × ((checks ≡ ok (fields, r))
      × ((check_upload env fields ≡ ok tt)
          × ((a.job_id ≡ env.uuid)
              × ((s'.jobs ≡ s.jobs ++ queued_row (new_job env r a.input_id) ∷ [])
                  × ((s'.worker_wake ≡ true)
                      × HasInput env.data_dir fields.input_sha256 a.input_id s')))))

insert_job_ok :
    (n : NewJob) (jobs jobs' : List Job)
    → insert_job n jobs ≡ some jobs'
    → jobs' ≡ jobs ++ queued_row n ∷ []
unfolding insert_job
insert_job_ok n jobs jobs' h = elim (Option-cases (fetch_optional (has_id n.job_id) jobs)) [
  | inl free ↦ let q = rw (insert_job, free) at h in cc
  | inr (j, taken) ↦ absurd (let q = rw (insert_job, taken) at h in cc)
]

module _ (env : SubmitEnv) (fields : SubmitFields) (r : Resolved) (s : Server) where
  answer_insert-Submitted :
      (id : ℕ) (jobs : Option (List Job)) (s' : Server)
      → insert_job (new_job env r id) s'.jobs ≡ jobs
      → SameQueue s s'
      → check_upload env fields ≡ ok tt
      → HasInput env.data_dir fields.input_sha256 id s'
      → let (a, s'') = answer_insert env id jobs s' in Submitted env (ok (fields, r)) s a s''
  unfolding wake_worker
  answer_insert-Submitted id none s' e same fine input = same
  answer_insert-Submitted id (some jobs) s' e same fine input = (
    fields,
    r,
    (
      refl,
      (
        fine,
        (
          refl,
          (
            insert_job_ok (new_job env r id) s'.jobs jobs e
                ∙ ap (λ rows. rows ++ queued_row (new_job env r id) ∷ []) same.0,
            (
              refl,
              record {
                row = input.row;
                member = input.member;
                id_is = input.id_is;
                sha_is = input.sha_is;
                path = input.path;
                path_is = input.path_is;
                on_disk = input.on_disk;
              },
            ),
          ),
        ),
      ),
    ),
  )

  enqueue_resolved-Submitted :
      (input : Result ℕ) (s' : Server)
      → Outcome env fields s (input, s')
      → CheckedIfOk env fields input
      → let (a, s'') = enqueue_resolved env r (input, s') in Submitted env (ok (fields, r)) s a s''
  unfolding enqueue
  enqueue_resolved-Submitted (err e) s' (same, u) fine = same
  enqueue_resolved-Submitted (ok id) s' (same, input) fine =
      answer_insert-Submitted id _ s' refl same fine input

submit_checked-Submitted :
    (env : SubmitEnv) (checks : Result (SubmitFields × Resolved)) (s : Server)
    → needs_slash env.data_dir ≡ true
    → let (r, s') = submit_checked env checks s in Submitted env checks s r s'
unfolding submit_checked
submit_checked-Submitted env (err e) s dir = (refl, refl)
submit_checked-Submitted env (ok (fields, r)) s dir =
    enqueue_resolved-Submitted env fields r s (resolve_input env fields s).0
      (resolve_input env fields s).1 (resolve_input-Outcome env fields dir s)
      (resolve_input-CheckedIfOk env fields s)

-- A submit that is refused leaves the jobs and the wake of the worker as they were.  One that is
-- accepted has passed every check of its fields and of its bytes, appends exactly the queued job
-- of the resolved prompt and input, wakes the worker, and leaves a row of the input, for the hash
-- of the request, whose file is on the disk.  The data directory is written without a slash at its
-- end.
pub submit_job-Submitted :
    (env : SubmitEnv) (req : Request) (s : Server)
    → needs_slash env.data_dir ≡ true
    → let (r, s') = submit_job env req s in Submitted env (check_submit env req s.prompts) s r s'
unfolding submit_job
submit_job-Submitted env req s dir =
    submit_checked-Submitted env (check_submit env req s.prompts) s dir
