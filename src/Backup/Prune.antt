-- ===== src/Backup/Prune.antt =====
-- `prune_old` of src/backup.rs: which files go.
use zun_rust_server.Prelude.{
  ℕ, ◌-◌, ◌*◌, ◌≡◌, refl, ap, ◌∙◌, Bool, true, false, not, ◌&&◌, List, [], ◌∷◌, Option, none,
  if◌then◌else◌, any, arith, Bool-cases, inl, inr,
}
use zun_rust_server.Prelude.Text.{Text, text_eq}
use zun_rust_server.Server.{Bytes, Disk, remove_file}
use zun_rust_server.Backup.{
  BackupFile, not_there, opened, is_stale_backup, prune_files, backup_cutoff, prune_old,
}

-- The file at `p` is a stale backup that can be removed.
abbrev pub goes : ℕ → Text → BackupFile → Bool
goes cutoff p f = (is_stale_backup cutoff f && not f.remove_error) && text_eq f.path p

if_none : (b : Bool) (x : Option Bytes) → (if b then none else none) ≡ (if true then none else x)
if_none true x = refl
if_none false x = refl

prune_files_lem :
    (cutoff : ℕ) (fs : List BackupFile) (disk : Disk) (p : Text)
    → prune_files cutoff fs disk p ≡ (if any (goes cutoff p) fs then none else disk p)
unfolding prune_files
prune_files_lem cutoff [] disk p = refl
prune_files_lem cutoff (f ∷ fs) disk p =
    elim (Bool-cases (is_stale_backup cutoff f && not f.remove_error)) [
      | inr stays ↦ rw stays (prune_files_lem cutoff fs disk p)
      | inl stale ↦ elim (Bool-cases (text_eq f.path p)) [
        | inr other ↦
            rw stale (prune_files_lem cutoff fs (remove_file f.path disk) p ∙ rw other refl)
        | inl same ↦ rw stale (
            prune_files_lem cutoff fs (remove_file f.path disk) p
            ∙ rw same (if_none (any (goes cutoff p) fs) (disk p)))
      ]
    ]

-- After a pruning, a file is gone exactly when it was already, or when the directory lists it as a
-- `.db` file that was changed last before the days to keep, and it can be removed; every other file
-- is as it was.  A directory that is not there is no error.
pub prune_old_lem :
    (now keep_days : ℕ) (fs : List BackupFile) (broken_off : Bool) (disk : Disk) (p : Text)
    → (prune_old now keep_days not_there disk ≡ (true, disk))
      × ((prune_old now keep_days (opened fs broken_off) disk).1 p
          ≡ (if any (goes (now - keep_days * 86400 * 1000000000) p) fs then none else disk p))
unfolding prune_old
prune_old_lem now keep_days fs broken_off disk p = (
  refl,
  prune_files_lem (backup_cutoff now keep_days) fs disk p
      ∙ ap (λ c. if any (goes (now - c) p) fs then none else disk p) (omega arith),
)
