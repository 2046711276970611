-- ===== src/Examples/Purge.antt =====
-- The purge and the atomic write at concrete inputs.
use zun_rust_server.Prelude.{
  ◌≡◌, refl, true, false, [], ◌∷◌, ◌++◌, none, some, All, if◌then◌else◌, ◌==◌,
}
use zun_rust_server.Prelude.Int.{pos}
use zun_rust_server.Prelude.Text.{text, text_eq, contains, starts_with}
use zun_rust_server.Sql.{delete_where, count_where, fetch_optional}
use zun_rust_server.Server.{Server, Disk}
use zun_rust_server.Paths.{Io, join, needs_slash, data_path, atomic_write}
use zun_rust_server.Paths.Atomic.{IsWhole, atomic_write_crash}
use zun_rust_server.Paths.Traversal.{components, data_path-components}
use zun_rust_server.Purge.{
  Env, PurgeOpts, ComfyDirs, Entry, defaults_now, job_cutoff, is_stale_job, run,
}
use zun_rust_server.Purge.Effects.{run-jobs}
use zun_rust_server.Purge.Kept.{run-referenced}
use zun_rust_server.Examples.Data.{done_a, queued_b, stale_d, server}

abbrev env : Env
env = record { data_dir = text "/data"; with_extension = λ p e. p ++ e; remove_error = λ p. false }

abbrev opts : PurgeOpts
opts = defaults_now (pos 3000000)

abbrev old_entry : Entry
old_entry = record {
  name = text "zun_a.png";
  unreadable = false;
  is_file = true;
  modified = some 5;
  remove_error = false;
}

abbrev dirs : ComfyDirs
dirs = record { input = old_entry ∷ []; output = record old_entry { name = text "mine.png" } ∷ [] }

-- A stale job and two that are not.
abbrev purged : Server
purged = record server { jobs = stale_d ∷ done_a ∷ queued_b ∷ [] }

run-jobs_example :
    let (s', dirs', report) = run env opts (some dirs) purged in
    (s'.jobs ≡ delete_where (is_stale_job (job_cutoff opts)) purged.jobs)
    × (report.jobs_hard_deleted ≡ count_where (is_stale_job (job_cutoff opts)) purged.jobs)
unfolding text_eq
run-jobs_example =
    run-jobs env opts (some dirs) purged ((refl, (refl, tt)), ((refl, tt), (tt, tt))) refl

run-referenced_example :
    fetch_optional (λ i. i.id == 1) (run env opts (some dirs) purged).0.inputs
    ≡ fetch_optional (λ i. i.id == 1) purged.inputs
unfolding text_eq
run-referenced_example =
    run-referenced env opts (some dirs) purged 1 ((refl, (refl, tt)), ((refl, tt), (tt, tt))) refl
      refl

-- A write that fails after two bytes.
abbrev full_disk : Io
full_disk = record { written = 2; write_error = true; rename_error = false; remove_error = false }

abbrev old_disk : Disk
old_disk p = if text_eq p (text "/o/a") then some (9 ∷ []) else none

atomic_write_crash_example : All (IsWhole (text "/o/a") (1 ∷ 2 ∷ 3 ∷ []) old_disk) (
    (atomic_write full_disk (text "/o/t") (text "/o/a") (1 ∷ 2 ∷ 3 ∷ []) old_disk).disk
    ∷ (atomic_write full_disk (text "/o/t") (text "/o/a") (1 ∷ 2 ∷ 3 ∷ []) old_disk).states)
unfolding text_eq
atomic_write_crash_example =
    atomic_write_crash full_disk (text "/o/t") (text "/o/a") (1 ∷ 2 ∷ 3 ∷ []) old_disk refl

data_path-components_example :
    (components (text "/data/outputs/a.png")
      ≡ components (join (text "/data") (text "outputs")) ++ text "a.png" ∷ [])
    × (contains (text "a.png") (text "..") ≡ false)
    × (contains (text "a.png") (text "\\") ≡ false)
unfolding data_path join needs_slash contains starts_with
data_path-components_example =
    data_path-components (text "/data") (text "outputs") (text "a.png") (text "/data/outputs/a.png")
      refl refl
