-- ===== src/Backup.antt =====
-- src/backup.rs: the daily snapshot of the database and the pruning of old ones. What SQLite does
-- with a statement is a parameter; the times are nanoseconds since the epoch.
pub mod Literal
pub mod Snapshot
pub mod Prune
use zun_rust_server.Prelude.{
  ℕ, zero, suc, ◌+◌, ◌-◌, ◌*◌, ◌^◌, Bool, true, false, not, ◌&&◌, List, [], ◌∷◌, ◌++◌, Option, none,
  some, if◌then◌else◌, ltb, ◌==◌, length,
}
use zun_rust_server.Prelude.Text.{Text, text, text_eq}
use zun_rust_server.Prelude.Fields.{decimal}
use zun_rust_server.Server.{Bytes, Disk, write_file, remove_file}
use zun_rust_server.Paths.{Io, join, tmp_sibling, drop_staged, rename_file}

unfoldable pub zeros : ℕ → Text
zeros zero = []
zeros (suc n) = b'0' ∷ zeros n

-- `{:0w}`
unfoldable pub padded : ℕ → ℕ → Text
unfolding zeros
padded w n = zeros (w - length (decimal n)) ++ decimal n

pub record Date : Type 0 where
  pub year : ℕ
  pub month : ℕ
  pub day : ℕ

unfoldable pub backup_name : Date → Text
unfolding padded
backup_name d =
    text "jobs-"
    ++ (padded 4 d.year
        ++ (text "-" ++ (padded 2 d.month ++ (text "-" ++ (padded 2 d.day ++ text ".db")))))

-- `replace('\'', "''")`
unfoldable pub escape_quotes : Text → Text
escape_quotes [] = []
escape_quotes (c ∷ s) = if c == b'\'' then b'\'' ∷ b'\'' ∷ escape_quotes s else c ∷ escape_quotes s

unfoldable pub vacuum_sql : Text → Text
unfolding escape_quotes
vacuum_sql path = text "VACUUM INTO '" ++ (escape_quotes path ++ text "'")

-- What is around a snapshot: `execute` is whether SQLite runs a statement, and the disk after it.
pub record SnapshotEnv : Type 0 where
  pub data_dir : Text
  pub today : Date
  pub suffix : Bytes
  pub execute : Text → Disk → Bool × Disk
  pub create_dir_error : Bool
  pub io : Io

abbrev pub snapshot_path : SnapshotEnv → Text
snapshot_path env = join (join env.data_dir (text "backups")) (backup_name env.today)

-- `rename`, of a file that is there, and the commit; otherwise the drop of the staged file.
abbrev pub commit_staged : Io → Text → Text → Option Bytes → Disk → Option Text × Disk
commit_staged io tmp path none disk = (none, drop_staged io tmp false disk)
commit_staged io tmp path (some bytes) disk =
    if io.rename_error
    then (none, drop_staged io tmp false disk)
    else (some path, drop_staged io tmp true (rename_file tmp path bytes disk))

abbrev pub after_vacuum : Io → Text → Text → Bool × Disk → Option Text × Disk
after_vacuum io tmp path (false, disk) = (none, drop_staged io tmp false disk)
after_vacuum io tmp path (true, disk) = commit_staged io tmp path (disk tmp) disk

-- The path of the snapshot; `none` is the error.
unfoldable pub snapshot_once : SnapshotEnv → Disk → Option Text × Disk
unfolding drop_staged vacuum_sql
snapshot_once env disk =
    let path = snapshot_path env in
    let tmp = tmp_sibling env.suffix path in
    if env.create_dir_error
    then (none, disk)
    else after_vacuum env.io tmp path (env.execute (vacuum_sql tmp) disk)

-- An entry of the directory: the extension of its path, and the time of its last change, if the
-- metadata is read.
pub record BackupFile : Type 0 where
  pub path : Text
  pub extension : Option Text
  pub modified : Option ℕ
  pub remove_error : Bool

-- What `read_dir` gives; `broken_off` is an error of `next_entry`.
pub data Listing : Type 0 where
  not_there denied : Listing
  opened : List BackupFile → Bool → Listing

abbrev pub is_db : Option Text → Bool
is_db none = false
is_db (some e) = text_eq e (text "db")

abbrev pub is_older : ℕ → Option ℕ → Bool
is_older cutoff none = false
is_older cutoff (some modified) = ltb modified cutoff

abbrev pub is_stale_backup : ℕ → BackupFile → Bool
is_stale_backup cutoff f = is_db f.extension && is_older cutoff f.modified

-- The loop over the entries.
unfoldable pub prune_files : ℕ → List BackupFile → Disk → Disk
prune_files cutoff [] disk = disk
prune_files cutoff (f ∷ fs) disk =
    if is_stale_backup cutoff f && not f.remove_error
    then prune_files cutoff fs (remove_file f.path disk)
    else prune_files cutoff fs disk

abbrev pub backup_cutoff : ℕ → ℕ → ℕ
backup_cutoff now keep_days = now - keep_days * 24 * 60 * 60 * 10 ^ 9

-- Whether the pruning succeeds, and the disk after it.
unfoldable pub prune_old : ℕ → ℕ → Listing → Disk → Bool × Disk
unfolding prune_files
prune_old now keep_days not_there disk = (true, disk)
prune_old now keep_days denied disk = (false, disk)
prune_old now keep_days (opened files broken_off) disk =
    (not broken_off, prune_files (backup_cutoff now keep_days) files disk)
