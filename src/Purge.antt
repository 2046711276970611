-- ===== src/Purge.antt =====
-- src/purge.rs: the daily purge. The database does not fail here; a file that cannot be removed is an
-- answer of the file system. ComfyUI's two directories are lists of entries.
pub mod Effects
pub mod Kept
pub mod Sweep
pub mod DryRun
pub mod Files
use zun_rust_server.Prelude.{
  ℕ, suc, ◌+◌, ◌*◌, Bool, true, false, not, ◌&&◌, ◌||◌, List, [], ◌∷◌, ◌++◌, Option, none, some,
  is_some, if◌then◌else◌, any, map, ◌==◌,
}
use zun_rust_server.Prelude.Int.{ℤ, pos, ltb_ℤ, as_i64, wrapping_sub}
use zun_rust_server.Prelude.Text.{Text, text, starts_with}
use zun_rust_server.Sql.{select_where, update_where}
use zun_rust_server.Jobs.{Job, is_live, hard_delete}
use zun_rust_server.Server.{Server, Input, Bytes, Disk, remove_file}
use zun_rust_server.Paths.{join}

abbrev pub retention_secs : ℕ → ℕ
retention_secs days = days * 24 * 60 * 60

abbrev pub default_delete_grace_secs : ℕ
default_delete_grace_secs = retention_secs 30

abbrev pub default_cache_ttl_secs : ℕ
default_cache_ttl_secs = retention_secs 30

pub record PurgeReport : Type 0 where
  pub jobs_hard_deleted : ℕ
  pub job_files_removed : ℕ
  pub inputs_purged : ℕ
  pub input_files_removed : ℕ
  pub comfy_files_removed : ℕ

abbrev pub empty_report : PurgeReport
empty_report = record {
  jobs_hard_deleted = 0;
  job_files_removed = 0;
  inputs_purged = 0;
  input_files_removed = 0;
  comfy_files_removed = 0;
}

pub record PurgeOpts : Type 0 where
  pub now_seconds : ℤ
  pub delete_grace_seconds : ℤ
  pub cache_ttl_seconds : ℤ
  pub dry_run : Bool

abbrev pub defaults_now : ℤ → PurgeOpts
defaults_now now = record {
  now_seconds = now;
  delete_grace_seconds = pos default_delete_grace_secs;
  cache_ttl_seconds = pos default_cache_ttl_secs;
  dry_run = false;
}

abbrev pub for_retention_days_now : ℕ → ℤ → PurgeOpts
for_retention_days_now days now =
    let secs = pos (retention_secs days) in
    record (defaults_now now) { delete_grace_seconds = secs; cache_ttl_seconds = secs }

-- What the purge finds around it: the data directory, the standard library's `with_extension`, and
-- the files whose removal fails though they are there.
pub record Env : Type 0 where
  pub data_dir : Text
  pub with_extension : Text → Text → Text
  pub remove_error : Text → Bool

abbrev pub job_cutoff : PurgeOpts → ℤ
job_cutoff opts = wrapping_sub opts.now_seconds opts.delete_grace_seconds

abbrev pub input_cutoff : PurgeOpts → ℤ
input_cutoff opts = wrapping_sub opts.now_seconds opts.cache_ttl_seconds

-- `deleted_at IS NOT NULL AND deleted_at < ?`
abbrev pub is_stale_job : ℤ → Job → Bool
is_stale_job cutoff j = elim j.deleted_at [ none ↦ false | some t ↦ ltb_ℤ t cutoff ]

abbrev pub to_list : {A : Type 0} → Option A → List A
to_list none = []
to_list (some a) = a ∷ []

abbrev pub avif_sibling : Env → Text → Text
avif_sibling env rel = env.with_extension rel (text "avif")

abbrev pub job_files : Env → Job → List Text
job_files env j =
    to_list j.output_path
    ++ to_list j.thumb_path
    ++ to_list j.preview_path
    ++ map (avif_sibling env) (to_list j.thumb_path ++ to_list j.preview_path)

-- One removal, with the number of files removed before and after.
unfoldable pub remove_one : Env → Bool → Text → Disk × ℕ → Disk × ℕ
remove_one env dry_run rel (disk, n) =
    let abs = join env.data_dir rel in
    if dry_run
    then (disk, suc n)
    else if not (is_some (disk abs))
    then (disk, n)
    else if env.remove_error abs
    then (disk, n)
    else (remove_file abs disk, suc n)

unfoldable pub remove_all : Env → Bool → List Text → Disk × ℕ → Disk × ℕ
remove_all env dry_run [] st = st
remove_all env dry_run (rel ∷ rels) st = remove_all env dry_run rels (remove_one env dry_run rel st)

-- The body of the loop over the stale jobs.
unfoldable pub purge_job : Env → PurgeOpts → Job → Server × PurgeReport → Server × PurgeReport
purge_job env opts j (s, report) =
    let (disk, removed) =
      remove_all env opts.dry_run (job_files env j) (s.disk, report.job_files_removed) in
    (
      record s { disk = disk; jobs = if opts.dry_run then s.jobs else hard_delete j.id s.jobs },
      record report {
        job_files_removed = removed;
        jobs_hard_deleted = suc report.jobs_hard_deleted;
      },
    )

unfoldable pub purge_jobs : Env → PurgeOpts → List Job → Server × PurgeReport → Server × PurgeReport
purge_jobs env opts [] st = st
purge_jobs env opts (j ∷ js) st = purge_jobs env opts js (purge_job env opts j st)

abbrev pub is_referenced : List Job → ℕ → Bool
is_referenced jobs id = any (λ j. (j.input_id == id) && is_live j) jobs

abbrev pub is_stale_input : ℤ → List Job → Input → Bool
is_stale_input cutoff jobs i =
    is_some i.path && ltb_ℤ i.last_used_at cutoff && not (is_referenced jobs i.id)

-- The body of the loop over the stale inputs.
unfoldable pub purge_input : Env → PurgeOpts → Input → Server × PurgeReport → Server × PurgeReport
purge_input env opts i (s, report) =
    let (disk, removed) =
      remove_all env opts.dry_run (to_list i.path) (s.disk, report.input_files_removed) in
    (
      record s {
        disk = disk;
        inputs =
            if opts.dry_run
            then s.inputs
            else update_where (λ k. k.id == i.id) (λ k. record k { path = none }) s.inputs;
      },
      record report { input_files_removed = removed; inputs_purged = suc report.inputs_purged },
    )

unfoldable pub purge_inputs :
    Env → PurgeOpts → List Input → Server × PurgeReport → Server × PurgeReport
purge_inputs env opts [] st = st
purge_inputs env opts (i ∷ is) st = purge_inputs env opts is (purge_input env opts i st)

-- An entry of a directory: `modified` is `none` when the time cannot be read or is before 1970, and
-- `unreadable` says that its metadata cannot be read.
pub record Entry : Type 0 where
  pub name : Text
  pub unreadable : Bool
  pub is_file : Bool
  pub modified : Option ℕ
  pub remove_error : Bool

unfoldable pub is_older_than_cutoff : PurgeOpts → Option ℕ → Bool
is_older_than_cutoff opts none = false
is_older_than_cutoff opts (some age) = ltb_ℤ (as_i64 age) (job_cutoff opts)

unfoldable pub is_leftover : PurgeOpts → Entry → Bool
is_leftover opts e =
    starts_with e.name (text "zun_")
    && not e.unreadable
    && e.is_file
    && is_older_than_cutoff opts e.modified

-- The entries that a directory keeps, and the number of those counted as removed.
unfoldable pub sweep_dir : PurgeOpts → List Entry → List Entry × ℕ
sweep_dir opts [] = ([], 0)
sweep_dir opts (e ∷ es) =
    let (kept, n) = sweep_dir opts es in
    if not (is_leftover opts e)
    then (e ∷ kept, n)
    else if opts.dry_run
    then (e ∷ kept, suc n)
    else if e.remove_error
    then (e ∷ kept, n)
    else (kept, suc n)

-- The entries of `input` and `output`; a directory that cannot be read has none to go through.
pub record ComfyDirs : Type 0 where
  pub input : List Entry
  pub output : List Entry

unfoldable pub sweep_comfy_leftovers : PurgeOpts → ComfyDirs → ComfyDirs × ℕ
sweep_comfy_leftovers opts dirs =
    let (input, n) = sweep_dir opts dirs.input in
    let (output, m) = sweep_dir opts dirs.output in
    (record { input = input; output = output }, n + m)

unfoldable pub purge_tables : Env → PurgeOpts → Server → Server × PurgeReport
purge_tables env opts s =
    let st =
      purge_jobs env opts (select_where (is_stale_job (job_cutoff opts)) s.jobs)
        (s, empty_report) in
    purge_inputs env opts
      (select_where (is_stale_input (input_cutoff opts) (st.0).jobs) (st.0).inputs) st

-- `dirs` is there when `comfy_data_dir` is configured.
unfoldable pub run :
    Env → PurgeOpts → Option ComfyDirs → Server → Server × Option ComfyDirs × PurgeReport
unfolding purge_tables
run env opts dirs s =
    let (s', report) = purge_tables env opts s in
    elim dirs [
      | none ↦ (s', none, report)
      | some d ↦
          let (d', removed) = sweep_comfy_leftovers opts d in
          (s', some d', record report { comfy_files_removed = removed })
    ]
