-- ===== src/Purge/Kept.antt =====
-- The inputs that a live job refers to stay through the purge.
use zun_rust_server.Prelude.{
  ℕ, ◌≡◌, refl, ap, ◌∙◌, Bool, true, false, ◌&&◌, List, [], ◌∷◌, Option, none, some, All,
  Bool-cases, inl, inr, arith, ◌==◌, ==_iff,
}
use zun_rust_server.Sql.{select_where, fetch_optional, update_where}
use zun_rust_server.Sql.Order.{All-mono, select_where_holds}
use zun_rust_server.Jobs.{Job, is_live}
use zun_rust_server.Jobs.Consistent.{UniqueIds}
use zun_rust_server.Server.{Server, Input}
use zun_rust_server.Purge.{
  Env, PurgeOpts, PurgeReport, ComfyDirs, is_stale_job, is_stale_input, is_referenced, job_cutoff,
  input_cutoff, purge_jobs, purge_input, purge_inputs, purge_tables, run, empty_report,
}
use zun_rust_server.Purge.Effects.{any-delete_where, purged_jobs, purge_jobs-inputs}

fetch_optional-update_where_apart :
    {A : Type 0}
    → (key w : A → Bool) (f : A → A) (rows : List A) → ((r : A) → key r ≡ true → w r ≡ false)
    → ((r : A) → key (f r) ≡ key r)
    → fetch_optional key (update_where w f rows) ≡ fetch_optional key rows
unfolding fetch_optional update_where
fetch_optional-update_where_apart key w f [] apart keep = refl
fetch_optional-update_where_apart key w f (r ∷ rs) apart keep =
    ground (arith, apart r, keep r, fetch_optional-update_where_apart key w f rs apart keep)

purge_input-apart :
    (env : Env) (opts : PurgeOpts) (id : ℕ) (i : Input) (st : Server × PurgeReport)
    → (i.id == id) ≡ false
    → fetch_optional (λ k. k.id == id) (purge_input env opts i st).0.inputs
      ≡ fetch_optional (λ k. k.id == id) st.0.inputs
unfolding purge_input
purge_input-apart env opts id i st h = elim (Bool-cases opts.dry_run) [
  | inl dry ↦ rw dry refl
  | inr wet ↦ rw wet (
      fetch_optional-update_where_apart (λ k. k.id == id) (λ k. k.id == i.id)
        (λ k. record k { path = none }) st.0.inputs (λ r q. ground (arith, h)) (λ r. refl))
]

purge_inputs-apart :
    (env : Env) (opts : PurgeOpts) (id : ℕ) (is : List Input) (st : Server × PurgeReport)
    → All (λ i. (i.id == id) ≡ false) is
    → fetch_optional (λ k. k.id == id) (purge_inputs env opts is st).0.inputs
      ≡ fetch_optional (λ k. k.id == id) st.0.inputs
unfolding purge_inputs
purge_inputs-apart env opts id [] st h = refl
purge_inputs-apart env opts id (i ∷ is) st h =
    purge_inputs-apart env opts id is (purge_input env opts i st) h.1
    ∙ purge_input-apart env opts id i st h.0

-- The purge of the jobs leaves every reference of a live job.
pub purged_referenced :
    (env : Env) (opts : PurgeOpts) (s : Server) (report : PurgeReport) (id : ℕ)
    → UniqueIds s.jobs
    → opts.dry_run ≡ false
    → is_referenced
        (purge_jobs env opts
          (select_where (is_stale_job (job_cutoff opts)) s.jobs)
          (s, report)).0.jobs
        id
      ≡ is_referenced s.jobs id
purged_referenced env opts s report id u wet =
    ap (λ jobs. is_referenced jobs id) (purged_jobs env opts s report u wet)
    ∙ any-delete_where (λ j. (j.input_id == id) && is_live j) (is_stale_job (job_cutoff opts))
        s.jobs (λ r h. live_not_stale r h)
  where
    live_not_stale :
        (r : Job)
        → (r.input_id == id) && is_live r ≡ true
        → is_stale_job (job_cutoff opts) r ≡ false
    live_not_stale r h = ground (arith, h)

referenced_apart :
    (opts : PurgeOpts) (jobs : List Job) (inputs : List Input) (id : ℕ)
    → is_referenced jobs id ≡ true
    → All
        (λ i. (i.id == id) ≡ false)
        (select_where (is_stale_input (input_cutoff opts) jobs) inputs)
referenced_apart opts jobs inputs id h =
    All-mono (select_where (is_stale_input (input_cutoff opts) jobs) inputs) (λ i q. apart i q)
      (select_where_holds (is_stale_input (input_cutoff opts) jobs) inputs)
  where
    apart : (i : Input) → is_stale_input (input_cutoff opts) jobs i ≡ true → (i.id == id) ≡ false
    apart i q = elim (Bool-cases (i.id == id)) [
      | inr e ↦ e
      | inl e ↦
          let same = (==_iff i.id id).0 e in
          let free : is_referenced jobs i.id ≡ false = ground (arith, q) in
          let used : is_referenced jobs i.id ≡ true = rw same h in absurd cc
    ]

purge_tables-referenced :
    (env : Env) (opts : PurgeOpts) (s : Server) (id : ℕ)
    → UniqueIds s.jobs
    → opts.dry_run ≡ false
    → is_referenced s.jobs id ≡ true
    → fetch_optional (λ i. i.id == id) (purge_tables env opts s).0.inputs
      ≡ fetch_optional (λ i. i.id == id) s.inputs
unfolding purge_tables
purge_tables-referenced env opts s id u wet h =
    let st =
      purge_jobs env opts (select_where (is_stale_job (job_cutoff opts)) s.jobs)
        (s, empty_report) in
    purge_inputs-apart env opts id _ st (
      referenced_apart opts st.0.jobs st.0.inputs id
        (purged_referenced env opts s empty_report id u wet ∙ h))
    ∙ ap (fetch_optional (λ i. i.id == id)) (
        purge_jobs-inputs env opts (select_where (is_stale_job (job_cutoff opts)) s.jobs)
          (s, empty_report))

-- An input that a job refers to which is not soft-deleted keeps its row, its path included, through
-- a purge that is not a dry run; job ids are unique.
pub run-referenced :
    (env : Env) (opts : PurgeOpts) (dirs : Option ComfyDirs) (s : Server) (id : ℕ)
    → UniqueIds s.jobs
    → opts.dry_run ≡ false
    → is_referenced s.jobs id ≡ true
    → fetch_optional (λ i. i.id == id) (run env opts dirs s).0.inputs
      ≡ fetch_optional (λ i. i.id == id) s.inputs
unfolding run
run-referenced env opts none s id u wet h = purge_tables-referenced env opts s id u wet h
run-referenced env opts (some d) s id u wet h = purge_tables-referenced env opts s id u wet h
