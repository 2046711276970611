-- ===== src/Purge/DryRun.antt =====
-- A dry run of the purge.
use zun_rust_server.Prelude.{ℕ, ◌≡◌, refl, ap, ◌∙◌, true, List, [], ◌∷◌, Option, none, some, arith}
use zun_rust_server.Prelude.Text.{Text}
use zun_rust_server.Sql.{select_where}
use zun_rust_server.Jobs.{Job}
use zun_rust_server.Server.{Server, Input, Disk}
use zun_rust_server.Purge.{
  Env, PurgeOpts, PurgeReport, ComfyDirs, Entry, is_stale_job, job_cutoff, job_files, to_list,
  remove_one, remove_all, purge_job, purge_jobs, purge_input, purge_inputs, purge_tables, sweep_dir,
  sweep_comfy_leftovers, run, empty_report,
}

remove_one-dry : (env : Env) (rel : Text) (st : Disk × ℕ) → (remove_one env true rel st).0 ≡ st.0
unfolding remove_one
remove_one-dry env rel st = refl

remove_all-dry :
    (env : Env) (rels : List Text) (st : Disk × ℕ) → (remove_all env true rels st).0 ≡ st.0
unfolding remove_all
remove_all-dry env [] st = refl
remove_all-dry env (rel ∷ rels) st =
    remove_all-dry env rels (remove_one env true rel st) ∙ remove_one-dry env rel st

purge_job-dry :
    (env : Env) (opts : PurgeOpts) (j : Job) (st : Server × PurgeReport)
    → opts.dry_run ≡ true
    → (purge_job env opts j st).0 ≡ st.0
unfolding purge_job
purge_job-dry env opts j (s, report) dry = rw dry (
    ap (λ d. record s { disk = d })
      (remove_all-dry env (job_files env j) (s.disk, report.job_files_removed)))

purge_jobs-dry :
    (env : Env) (opts : PurgeOpts) (js : List Job) (st : Server × PurgeReport)
    → opts.dry_run ≡ true
    → (purge_jobs env opts js st).0 ≡ st.0
unfolding purge_jobs
purge_jobs-dry env opts [] st dry = refl
purge_jobs-dry env opts (j ∷ js) st dry =
    purge_jobs-dry env opts js (purge_job env opts j st) dry ∙ purge_job-dry env opts j st dry

purge_input-dry :
    (env : Env) (opts : PurgeOpts) (i : Input) (st : Server × PurgeReport)
    → opts.dry_run ≡ true
    → (purge_input env opts i st).0 ≡ st.0
unfolding purge_input
purge_input-dry env opts i (s, report) dry = rw dry (
    ap (λ d. record s { disk = d })
      (remove_all-dry env (to_list i.path) (s.disk, report.input_files_removed)))

purge_inputs-dry :
    (env : Env) (opts : PurgeOpts) (is : List Input) (st : Server × PurgeReport)
    → opts.dry_run ≡ true
    → (purge_inputs env opts is st).0 ≡ st.0
unfolding purge_inputs
purge_inputs-dry env opts [] st dry = refl
purge_inputs-dry env opts (i ∷ is) st dry =
    purge_inputs-dry env opts is (purge_input env opts i st) dry ∙ purge_input-dry env opts i st dry

purge_tables-dry :
    (env : Env) (opts : PurgeOpts) (s : Server)
    → opts.dry_run ≡ true
    → (purge_tables env opts s).0 ≡ s
unfolding purge_tables
purge_tables-dry env opts s dry =
    purge_inputs-dry env opts _
      (purge_jobs env opts (select_where (is_stale_job (job_cutoff opts)) s.jobs) (s, empty_report))
      dry
    ∙ purge_jobs-dry env opts (select_where (is_stale_job (job_cutoff opts)) s.jobs)
        (s, empty_report) dry

sweep_dir-dry :
    (opts : PurgeOpts) (es : List Entry) → opts.dry_run ≡ true → (sweep_dir opts es).0 ≡ es
unfolding sweep_dir
sweep_dir-dry opts [] dry = refl
sweep_dir-dry opts (e ∷ es) dry = ground (arith, sweep_dir-dry opts es dry)

sweep-dry :
    (opts : PurgeOpts) (d : ComfyDirs) → opts.dry_run ≡ true → (sweep_comfy_leftovers opts d).0 ≡ d
unfolding sweep_comfy_leftovers
sweep-dry opts d dry = rw (sweep_dir-dry opts d.input dry, sweep_dir-dry opts d.output dry)

-- A dry run changes neither the tables nor the files nor ComfyUI's directories.
pub run-dry :
    (env : Env) (opts : PurgeOpts) (dirs : Option ComfyDirs) (s : Server)
    → opts.dry_run ≡ true
    → ((run env opts dirs s).0 ≡ s) × ((run env opts dirs s).1 ≡ dirs)
unfolding run
run-dry env opts none s dry = (purge_tables-dry env opts s dry, refl)
run-dry env opts (some d) s dry = (purge_tables-dry env opts s dry, ap some (sweep-dry opts d dry))
