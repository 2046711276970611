-- ===== src/Examples/Host.antt =====
-- The tokens, the disk usage and the backups at concrete inputs.
use zun_rust_server.Prelude.{
  ℕ, ◌≤◌, ◌-◌, ◌*◌, ◌≡◌, refl, true, false, any, [], ◌∷◌, Option, none, some, if◌then◌else◌, Bool,
}
use zun_rust_server.Prelude.Text.{Text, text, text_eq, len}
use zun_rust_server.Error.{Result, ok}
use zun_rust_server.Server.{Disk, write_file}
use zun_rust_server.Access.{load, parsed, Config, resolve_dirs, with_defaults, ConfigFile}
use zun_rust_server.Access.Bearer.{Judged, load-require_bearer}
use zun_rust_server.Health.{Directory, listing, file_entry, dir_entry, no_more, dir_size}
use zun_rust_server.Health.Usage.{dir_size_lem, is_read, total_size, capped}
use zun_rust_server.Backup.{
  SnapshotEnv, snapshot_path, snapshot_once, vacuum_sql, BackupFile, opened, not_there, prune_old,
}
use zun_rust_server.Backup.Literal.{vacuum_target, vacuum_target-vacuum_sql}
use zun_rust_server.Backup.Snapshot.{Snapshot, WritesItsTarget, snapshot_once-Snapshot}
use zun_rust_server.Backup.Prune.{goes, prune_old_lem}
use zun_rust_server.Paths.{tmp_sibling}

abbrev token_a : Text
token_a = text "aaaaaaaaaaaaaaaaaaaaaaaaaaaaaaaa"

abbrev config_file : ConfigFile
config_file = record {
  token = token_a;
  bind = none;
  comfy_url = none;
  data_dir = none;
  log_format = none;
  purge_after_days = none;
  backup_keep_days = none;
  warmup_on_start = none;
  comfy_data_dir = none;
}

abbrev config : Config
config = resolve_dirs (text "/etc/zun") (with_defaults config_file)

abbrev count_up : ℕ → Result ℕ × ℕ
count_up n = (ok n, n)

load-require_bearer_example :
    (32 ≤ len config.token) × Judged config.token (some (text "Bearer wrong")) count_up 5
unfolding load resolve_dirs len text_eq
load-require_bearer_example =
    load-require_bearer (text "/etc/zun") (parsed config_file) config (some (text "Bearer wrong"))
      count_up 5 refl

abbrev tree : Directory
tree = listing (file_entry 3 (dir_entry (listing (file_entry 4 no_more)) no_more))

dir_size_example : dir_size tree ≡ (if is_read tree then some (capped (total_size tree)) else none)
dir_size_example = dir_size_lem tree

vacuum_target-vacuum_sql_example :
    vacuum_target (vacuum_sql (text "/it's/x.db")) ≡ some (text "/it's/x.db")
vacuum_target-vacuum_sql_example = vacuum_target-vacuum_sql (text "/it's/x.db")

-- An SQLite that runs every VACUUM INTO with a target.
abbrev write_target : Option Text → Disk → Bool × Disk
write_target none disk = (false, disk)
write_target (some target) disk = (true, write_file target (1 ∷ 2 ∷ []) disk)

abbrev sqlite : Text → Disk → Bool × Disk
sqlite sql disk = write_target (vacuum_target sql) disk

sqlite-WritesItsTarget : WritesItsTarget sqlite
sqlite-WritesItsTarget sql target q disk at_target apart = rw at_target (rw apart refl)

abbrev snapshot_env : SnapshotEnv
snapshot_env = record {
  data_dir = text "/data";
  today = record { year = 2026; month = 11; day = 3 };
  suffix = 1 ∷ 2 ∷ 3 ∷ 4 ∷ [];
  execute = sqlite;
  create_dir_error = false;
  io = record { written = 0; write_error = false; rename_error = false; remove_error = false };
}

snapshot_once-Snapshot_example :
    let path = snapshot_path snapshot_env in
    let tmp = tmp_sibling snapshot_env.suffix path in
    Snapshot path none
      ((sqlite (vacuum_sql tmp) (λ p. none)).1 tmp)
      (snapshot_once snapshot_env (λ p. none))
snapshot_once-Snapshot_example =
    snapshot_once-Snapshot snapshot_env (λ p. none) sqlite-WritesItsTarget

abbrev old_backup : BackupFile
old_backup = record {
  path = text "/b/jobs-2000-01-01.db";
  extension = some (text "db");
  modified = some 5;
  remove_error = false;
}

abbrev full_disk : Disk
full_disk p = some (1 ∷ [])

abbrev day_40 : ℕ
day_40 = 40 * 86400 * 1000000000

prune_old_example :
    (prune_old day_40 30 not_there full_disk ≡ (true, full_disk))
    × ((prune_old day_40 30 (opened (old_backup ∷ []) false) full_disk).1 old_backup.path ≡ (
        if any (goes (day_40 - 30 * 86400 * 1000000000) old_backup.path) (old_backup ∷ [])
        then none
        else some (1 ∷ [])))
prune_old_example = prune_old_lem day_40 30 (old_backup ∷ []) false full_disk old_backup.path
