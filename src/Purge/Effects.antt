-- ===== src/Purge/Effects.antt =====
-- What the purge leaves of the tables.
use zun_rust_server.Prelude.{
  ◌+◌, ◌≡◌, refl, sym, ap, ◌∙◌, Bool, true, false, ◌||◌, List, [], ◌∷◌, Option, none, some,
  if◌then◌else◌, any, All, length, Bool-cases, ◌⊎◌, inl, inr, arith,
}
use zun_rust_server.Prelude.Text.{text_eq, text_eq_iff, text_eq_refl}
use zun_rust_server.Sql.{select_where, delete_where, count_where}
use zun_rust_server.Sql.Member.{count_where-length}
use zun_rust_server.Sql.Order.{All-mono}
use zun_rust_server.Jobs.{Job, has_id, hard_delete}
use zun_rust_server.Jobs.Consistent.{UniqueIds, Differs}
use zun_rust_server.Server.{Server, Input}
use zun_rust_server.Purge.{
  Env, PurgeOpts, PurgeReport, ComfyDirs, is_stale_job, is_stale_input, job_cutoff, input_cutoff,
  purge_job, purge_jobs, purge_input, purge_inputs, purge_tables, run, empty_report,
}

module _ {A : Type 0} where
  delete_where-delete_where :
      (v w : A → Bool) (rows : List A)
      → delete_where v (delete_where w rows) ≡ delete_where (λ r. w r || v r) rows
  unfolding delete_where
  delete_where-delete_where v w [] = refl
  delete_where-delete_where v w (r ∷ rs) = ground (arith, delete_where-delete_where v w rs)

  delete_where_ext :
      (v w : A → Bool) (rows : List A)
      → All (λ r. v r ≡ w r) rows
      → delete_where v rows ≡ delete_where w rows
  unfolding delete_where
  delete_where_ext v w [] h = refl
  delete_where_ext v w (r ∷ rs) h = ground (arith, delete_where_ext v w rs h.1)

  delete_where-false : (rows : List A) → delete_where (λ r. false) rows ≡ rows
  unfolding delete_where
  delete_where-false [] = refl
  delete_where-false (r ∷ rs) = rw (delete_where-false rs)

  any_miss :
      (t w : A → Bool) (rows : List A)
      → All (λ r. t r ≡ false) rows
      → any t (select_where w rows) ≡ false
  unfolding select_where
  any_miss t w [] h = refl
  any_miss t w (r ∷ rs) h = ground (arith, any_miss t w rs h.1)

  pub any-delete_where :
      (t w : A → Bool) (rows : List A)
      → ((r : A) → t r ≡ true → w r ≡ false)
      → any t (delete_where w rows) ≡ any t rows
  unfolding delete_where
  any-delete_where t w [] h = refl
  any-delete_where t w (r ∷ rs) h = ground (arith, h r, any-delete_where t w rs h)

  All-both :
      (P Q : A → Type 0) (rows : List A) → All P rows → All Q rows → All (λ r. P r × Q r) rows
  All-both P Q [] p q = tt
  All-both P Q (r ∷ rs) p q = ((p.0, q.0), All-both P Q rs p.1 q.1)

abbrev pub is_among : List Job → Job → Bool
is_among rows j = any (λ r. has_id r.id j) rows

Differs-sym : (j k : Job) → Differs j.id k → text_eq j.id k.id ≡ false
Differs-sym j k d = elim (Bool-cases (text_eq j.id k.id)) [
  | inr h ↦ h
  | inl h ↦
      let e = (text_eq_iff j.id k.id).0 h in
      let q : text_eq k.id k.id ≡ false = rw e at d in absurd (let p = text_eq_refl k.id in cc)
]

-- Ids are unique, so a row is among the rows that a test selects when it meets the test.
among_selected :
    (w : Job → Bool) (jobs : List Job)
    → UniqueIds jobs
    → All (λ j. is_among (select_where w jobs) j ≡ w j) jobs
unfolding select_where
among_selected w [] u = tt
among_selected w (x ∷ xs) u =
    let rest = All-both (Differs x.id) _ xs u.0 (among_selected w xs u.1) in
    (among_self (Bool-cases (w x)), All-mono xs (λ j p. ground (arith, p.0, p.1)) rest)
  where
    among_self :
        (w x ≡ true) ⊎ (w x ≡ false)
        → is_among (if w x then x ∷ select_where w xs else select_where w xs) x ≡ w x
    among_self (inl h) = rw (h, text_eq_refl x.id) refl
    among_self (inr h) =
        rw h (any_miss (λ r. has_id r.id x) w xs (All-mono xs (λ j d. Differs-sym x j d) u.0))

purge_inputs-jobs :
    (env : Env) (opts : PurgeOpts) (is : List Input) (st : Server × PurgeReport)
    → ((purge_inputs env opts is st).0.jobs ≡ st.0.jobs)
      × ((purge_inputs env opts is st).1.jobs_hard_deleted ≡ st.1.jobs_hard_deleted)
unfolding purge_inputs purge_input
purge_inputs-jobs env opts [] st = (refl, refl)
purge_inputs-jobs env opts (i ∷ is) st = purge_inputs-jobs env opts is _

purge_job-jobs :
    (env : Env) (opts : PurgeOpts) (r : Job) (st : Server × PurgeReport)
    → opts.dry_run ≡ false
    → (purge_job env opts r st).0.jobs ≡ delete_where (has_id r.id) st.0.jobs
unfolding purge_job hard_delete
purge_job-jobs env opts r st wet = rw wet refl

pub purge_jobs-jobs :
    (env : Env) (opts : PurgeOpts) (rows : List Job) (st : Server × PurgeReport)
    → opts.dry_run ≡ false
    → (purge_jobs env opts rows st).0.jobs ≡ delete_where (is_among rows) st.0.jobs
unfolding purge_jobs
purge_jobs-jobs env opts [] st wet = sym (delete_where-false st.0.jobs)
purge_jobs-jobs env opts (r ∷ rs) st wet =
    purge_jobs-jobs env opts rs (purge_job env opts r st) wet
    ∙ ap (delete_where (is_among rs)) (purge_job-jobs env opts r st wet)
    ∙ delete_where-delete_where (is_among rs) (has_id r.id) st.0.jobs

purge_job-inputs :
    (env : Env) (opts : PurgeOpts) (r : Job) (st : Server × PurgeReport)
    → (purge_job env opts r st).0.inputs ≡ st.0.inputs
unfolding purge_job
purge_job-inputs env opts r st = refl

pub purge_jobs-inputs :
    (env : Env) (opts : PurgeOpts) (rows : List Job) (st : Server × PurgeReport)
    → (purge_jobs env opts rows st).0.inputs ≡ st.0.inputs
unfolding purge_jobs
purge_jobs-inputs env opts [] st = refl
purge_jobs-inputs env opts (r ∷ rs) st =
    purge_jobs-inputs env opts rs (purge_job env opts r st) ∙ purge_job-inputs env opts r st

purge_jobs-count :
    (env : Env) (opts : PurgeOpts) (rows : List Job) (st : Server × PurgeReport)
    → (purge_jobs env opts rows st).1.jobs_hard_deleted ≡ length rows + st.1.jobs_hard_deleted
unfolding purge_jobs purge_job
purge_jobs-count env opts [] st = omega arith
purge_jobs-count env opts (r ∷ rs) st =
    omega (arith, purge_jobs-count env opts rs (purge_job env opts r st))

-- The purge of the jobs, as one DELETE.
pub purged_jobs :
    (env : Env) (opts : PurgeOpts) (s : Server) (report : PurgeReport)
    → UniqueIds s.jobs
    → opts.dry_run ≡ false
    → (purge_jobs env opts
        (select_where (is_stale_job (job_cutoff opts)) s.jobs)
        (s, report)).0.jobs
      ≡ delete_where (is_stale_job (job_cutoff opts)) s.jobs
purged_jobs env opts s report u wet =
    purge_jobs-jobs env opts _ (s, report) wet
    ∙ delete_where_ext _ (is_stale_job (job_cutoff opts)) s.jobs
        (among_selected (is_stale_job (job_cutoff opts)) s.jobs u)

abbrev stale_jobs : PurgeOpts → Server → List Job
stale_jobs opts s = select_where (is_stale_job (job_cutoff opts)) s.jobs

purge_tables-jobs :
    (env : Env) (opts : PurgeOpts) (s : Server)
    → UniqueIds s.jobs
    → opts.dry_run ≡ false
    → (purge_tables env opts s).0.jobs ≡ delete_where (is_stale_job (job_cutoff opts)) s.jobs
unfolding purge_tables
purge_tables-jobs env opts s u wet =
    (purge_inputs-jobs env opts _ (purge_jobs env opts (stale_jobs opts s) (s, empty_report))).0
    ∙ purged_jobs env opts s empty_report u wet

purge_tables-count :
    (env : Env) (opts : PurgeOpts) (s : Server)
    → (purge_tables env opts s).1.jobs_hard_deleted
      ≡ count_where (is_stale_job (job_cutoff opts)) s.jobs
unfolding purge_tables
purge_tables-count env opts s =
    let st = purge_jobs env opts (stale_jobs opts s) (s, empty_report) in
    omega (
      arith,
      (purge_inputs-jobs env opts
          (select_where (is_stale_input (input_cutoff opts) st.0.jobs) st.0.inputs) st).1,
      purge_jobs-count env opts (stale_jobs opts s) (s, empty_report),
      count_where-length (is_stale_job (job_cutoff opts)) s.jobs,
    )

-- Where job ids are unique, a purge that is not a dry run leaves exactly the jobs that are not
-- soft-deleted or were soft-deleted no earlier than the cutoff, as they were, and its report counts
-- the others.
pub run-jobs :
    (env : Env) (opts : PurgeOpts) (dirs : Option ComfyDirs) (s : Server)
    → UniqueIds s.jobs
    → opts.dry_run ≡ false
    → let (s', dirs', report) = run env opts dirs s in
      (s'.jobs ≡ delete_where (is_stale_job (job_cutoff opts)) s.jobs)
      × (report.jobs_hard_deleted ≡ count_where (is_stale_job (job_cutoff opts)) s.jobs)
unfolding run
run-jobs env opts none s u wet = (purge_tables-jobs env opts s u wet, purge_tables-count env opts s)
run-jobs env opts (some d) s u wet =
    (purge_tables-jobs env opts s u wet, purge_tables-count env opts s)
