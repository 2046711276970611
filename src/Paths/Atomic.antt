-- ===== src/Paths/Atomic.antt =====
-- What an atomic write leaves, at the end and after a crash.
use zun_rust_server.Prelude.{
  ℕ, zero, suc, ◌≡◌, refl, ◌⊎◌, inl, inr, true, false, ◌∷◌, none, some, if◌then◌else◌, take, length,
  All, Bool-cases,
}
use zun_rust_server.Prelude.Text.{Text, text_eq, text_eq_refl}
use zun_rust_server.Sql.Update.{All-append_one}
use zun_rust_server.Server.{Bytes, Disk, write_file}
use zun_rust_server.Paths.{Io, drop_staged, write_states, atomic_write}

-- The disk holds at `path` what it did, or all of `bytes`.
unfoldable pub IsWhole : Text → Bytes → Disk → Disk → Type 0
IsWhole path bytes old new = (new path ≡ old path) ⊎ (new path ≡ some bytes)

write_states-IsWhole :
    (tmp path : Text) (bytes whole : Bytes) (n : ℕ) (disk : Disk)
    → text_eq tmp path ≡ false
    → All (IsWhole path whole disk) (write_states tmp bytes n disk)
unfolding write_states IsWhole
write_states-IsWhole tmp path bytes whole zero disk other = (inl (rw other refl), tt)
write_states-IsWhole tmp path bytes whole (suc n) disk other =
    All-append_one (IsWhole path whole disk) (write_states tmp bytes n disk)
      (write_file tmp (take (suc n) bytes) disk)
      (write_states-IsWhole tmp path bytes whole n disk other) (inl (rw other refl))

-- A crash at any moment of an atomic write leaves the target as it was or fully written, whatever
-- fails; the temporary path is not the target's.
pub atomic_write_crash :
    (io : Io) (tmp path : Text) (bytes : Bytes) (disk : Disk)
    → text_eq tmp path ≡ false
    → All
        (IsWhole path bytes disk)
        ((atomic_write io tmp path bytes disk).disk ∷ (atomic_write io tmp path bytes disk).states)
unfolding atomic_write drop_staged IsWhole
atomic_write_crash io tmp path bytes disk other =
    let states = write_states-IsWhole tmp path bytes bytes in
    elim (Bool-cases io.write_error) [
      | inl w ↦ elim (Bool-cases io.remove_error) [
        | inl r ↦ rw (w, r) (inl (rw other refl), (inl refl, states io.written disk other))
        | inr r ↦ rw (w, r) (inl (rw other refl), (inl refl, states io.written disk other))
      ]
      | inr w ↦ elim (Bool-cases io.rename_error) [
        | inl n ↦ elim (Bool-cases io.remove_error) [
          | inl r ↦ rw (w, n, r) (inl (rw other refl), (inl refl, states (length bytes) disk other))
          | inr r ↦ rw (w, n, r) (inl (rw other refl), (inl refl, states (length bytes) disk other))
        ]
        | inr n ↦
            rw (w, n)
              (inr (rw (text_eq_refl path) refl), (inl refl, states (length bytes) disk other))
      ]
    ]

-- An atomic write that succeeds leaves all the bytes at the target and nothing at the temporary path;
-- one that fails leaves the target as it was, and nothing at the temporary path unless its removal
-- fails too; every other file is as it was.
pub atomic_write_lem :
    (io : Io) (tmp path q : Text) (bytes : Bytes) (disk : Disk)
    → text_eq tmp path ≡ false
    → text_eq path tmp ≡ false
    → text_eq tmp q ≡ false
    → text_eq path q ≡ false
    → let done = atomic_write io tmp path bytes disk in
      (done.disk path ≡ (if done.succeeded then some bytes else disk path))
      × ((done.disk tmp ≡ none) ⊎ (io.remove_error ≡ true))
      × (done.disk q ≡ disk q)
unfolding atomic_write drop_staged
atomic_write_lem io tmp path q bytes disk other other' apart apart' =
    let self = text_eq_refl tmp in
    let here = text_eq_refl path in
    elim (Bool-cases io.write_error) [
      | inl w ↦ elim (Bool-cases io.remove_error) [
        | inl r ↦ rw (w, r) (rw other refl, inr refl, rw apart refl)
        | inr r ↦ rw (w, r) (rw other refl, inl (rw self refl), rw apart refl)
      ]
      | inr w ↦ elim (Bool-cases io.rename_error) [
        | inl n ↦ elim (Bool-cases io.remove_error) [
          | inl r ↦ rw (w, n, r) (rw other refl, inr refl, rw apart refl)
          | inr r ↦ rw (w, n, r) (rw other refl, inl (rw self refl), rw apart refl)
        ]
        | inr n ↦ rw (w, n) (rw here refl, inl (rw (other', self) refl), rw (apart, apart') refl)
      ]
    ]

pub atomic_write_succeeds :
    (i : Io) (tmp path : Text) (bytes : Bytes) (disk : Disk)
    → (atomic_write i tmp path bytes disk).succeeded ≡ true
    → (atomic_write i tmp path bytes disk).disk path ≡ some bytes
unfolding atomic_write drop_staged
atomic_write_succeeds i tmp path bytes disk h = elim (Bool-cases i.write_error) [
  | inl w ↦ absurd (let q = rw w at h in cc)
  | inr w ↦ elim (Bool-cases i.rename_error) [
    | inl n ↦ absurd (let q = rw (w, n) at h in cc)
    | inr n ↦ rw (w, n) (rw (text_eq_refl path) refl)
  ]
]
