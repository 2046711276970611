-- ===== src/Backup/Snapshot.antt =====
-- `snapshot_once` of src/backup.rs: the dated file is whole, or what it was.
use zun_rust_server.Prelude.{
  ℕ, ◌≡◌, refl, sym, Bool, true, false, [], ◌∷◌, ◌++◌, Option, none, some, is_some, arith,
  append_assoc, Bool-cases, inl, inr,
}
use zun_rust_server.Prelude.Text.{Text, text, text_eq, text_eq_refl}
use zun_rust_server.Hash.{hex}
use zun_rust_server.Server.{Bytes, Disk}
use zun_rust_server.Paths.{Io, tmp_sibling, drop_staged}
use zun_rust_server.Backup.{
  SnapshotEnv, snapshot_path, vacuum_sql, commit_staged, after_vacuum, snapshot_once,
}
use zun_rust_server.Backup.Literal.{vacuum_target, vacuum_target-vacuum_sql}

text_eq_longer : (s : Text) (c : ℕ) (t : Text) → text_eq (s ++ c ∷ t) s ≡ false
unfolding text_eq
text_eq_longer [] c t = refl
text_eq_longer (d ∷ s) c t = ground (arith, text_eq_longer s c t)

tmp_sibling_other : (suffix path : Text) → text_eq (tmp_sibling suffix path) path ≡ false
unfolding tmp_sibling
tmp_sibling_other suffix path =
    rw (append_assoc path (text ".tmp.") (hex suffix))
      (text_eq_longer path b'.' (text "tmp." ++ hex suffix))

-- SQLite's VACUUM INTO writes to no file but the one it names.
abbrev pub WritesItsTarget : (Text → Disk → Bool × Disk) → Type 0
WritesItsTarget execute =
    (sql target q : Text) (disk : Disk)
    → vacuum_target sql ≡ some target
    → text_eq target q ≡ false
    → (execute sql disk).1 q ≡ disk q

drop_staged_other :
    (io : Io) (tmp q : Text) (committed : Bool) (disk : Disk)
    → text_eq tmp q ≡ false
    → drop_staged io tmp committed disk q ≡ disk q
unfolding drop_staged
drop_staged_other io tmp q true disk apart = refl
drop_staged_other io tmp q false disk apart = elim (Bool-cases io.remove_error) [
  | inl stays ↦ rw stays refl
  | inr goes ↦ rw goes (rw apart refl)
]

-- What a snapshot answers and leaves at its path: `old` was there, `dump` was staged.
abbrev pub Snapshot : Text → Option Bytes → Option Bytes → Option Text × Disk → Type 0
Snapshot path old dump (none, disk) = disk path ≡ old
Snapshot path old dump (some p, disk) =
    (p ≡ path) × (disk path ≡ dump) × (is_some (disk path) ≡ true)

commit_staged-Snapshot :
    (io : Io) (tmp path : Text) (staged : Option Bytes) (disk : Disk)
    → text_eq tmp path ≡ false
    → Snapshot path (disk path) staged (commit_staged io tmp path staged disk)
unfolding drop_staged
commit_staged-Snapshot io tmp path none disk apart = drop_staged_other io tmp path false disk apart
commit_staged-Snapshot io tmp path (some bytes) disk apart = elim (Bool-cases io.rename_error) [
  | inl fails ↦ rw (commit_staged, fails) (drop_staged_other io tmp path false disk apart)
  | inr moved ↦
      let here = text_eq_refl path in rw (commit_staged, moved) (refl, rw here refl, rw here refl)
]

after_vacuum-Snapshot :
    (io : Io) (tmp path : Text) (ran : Bool) (disk : Disk)
    → text_eq tmp path ≡ false
    → Snapshot path (disk path) (disk tmp) (after_vacuum io tmp path (ran, disk))
after_vacuum-Snapshot io tmp path false disk apart = drop_staged_other io tmp path false disk apart
after_vacuum-Snapshot io tmp path true disk apart =
    commit_staged-Snapshot io tmp path (disk tmp) disk apart

-- A snapshot that fails at any step leaves the file of the day as it was; one that succeeds answers
-- its path, and the file holds all that SQLite wrote to the staged file.
pub snapshot_once-Snapshot :
    (env : SnapshotEnv) (disk : Disk)
    → WritesItsTarget env.execute
    → let path = snapshot_path env in
      let tmp = tmp_sibling env.suffix path in
      Snapshot path (disk path) ((env.execute (vacuum_sql tmp) disk).1 tmp) (snapshot_once env disk)
unfolding snapshot_once
snapshot_once-Snapshot env disk writes =
    let path = snapshot_path env in
    let tmp = tmp_sibling env.suffix path in
    let (ran, disk') = env.execute (vacuum_sql tmp) disk in
    let apart = tmp_sibling_other env.suffix path in
    elim (Bool-cases env.create_dir_error) [
      | inl no_dir ↦ rw no_dir refl
      | inr made ↦ rw made (
          rw (sym (writes (vacuum_sql tmp) tmp path disk (vacuum_target-vacuum_sql tmp) apart))
            (after_vacuum-Snapshot env.io tmp path ran disk' apart))
    ]
