-- ===== src/Paths.antt =====
-- src/paths.rs: paths under the data directory, and the atomic write. A path is its text. An atomic
-- write returns the disks that exist while it runs, oldest first, so that a crash is a choice of one
-- of them, and then the disk that it leaves.
pub mod Atomic
pub mod Traversal
pub mod Relative
use zun_rust_server.Prelude.{
  ℕ, zero, suc, Bool, true, false, not, ◌==◌, ◌||◌, List, [], ◌∷◌, ◌++◌, Option, none, some,
  if◌then◌else◌, take, length,
}
use zun_rust_server.Prelude.Text.{Text, text, contains, starts_with, strip_prefix}
use zun_rust_server.Hash.{hex}
use zun_rust_server.Server.{Bytes, Disk, write_file, remove_file}

abbrev pub slash : ℕ
slash = 47

abbrev pub cache_inputs : Text
cache_inputs = text "cache/inputs"

abbrev pub outputs : Text
outputs = text "outputs"

abbrev pub thumbs : Text
thumbs = text "thumbs"

abbrev pub previews : Text
previews = text "previews"

-- A path that is not empty and does not end in a slash.
unfoldable pub needs_slash : Text → Bool
needs_slash [] = false
needs_slash (c ∷ []) = not (c == slash)
needs_slash (c ∷ d ∷ s) = needs_slash (d ∷ s)

-- `Path::join`: an absolute path replaces the base.
unfoldable pub join : Text → Text → Text
join base rel =
    if starts_with rel (text "/")
    then rel
    else if needs_slash base
    then base ++ slash ∷ rel
    else base ++ rel

abbrev pub is_empty : Text → Bool
is_empty [] = true
is_empty (c ∷ s) = false

abbrev pub is_invalid_filename : Text → Bool
is_invalid_filename f =
    is_empty f || contains f (text "/") || contains f (text "\\") || contains f (text "..")

-- `none` is the error.
unfoldable pub data_path : Text → Text → Text → Option Text
data_path data_dir subdir filename =
    if is_invalid_filename filename then none else some (join (join data_dir subdir) filename)

-- `strip_prefix` of the path, by whole components.
unfoldable pub relative_for_db : Text → Text → Text
relative_for_db path data_dir = elim (strip_prefix path data_dir) [
  | none ↦ path
  | some [] ↦ []
  | some (c ∷ rest) ↦
      if not (needs_slash data_dir)
      then c ∷ rest
      else if starts_with (c ∷ rest) (text "/")
      then rest
      else path
]

-- `suffix` is the random u32 as its four bytes, the highest first; the path has a file name.
unfoldable pub tmp_sibling : Bytes → Text → Text
tmp_sibling suffix path = path ++ text ".tmp." ++ hex suffix

-- What the file system does with the calls of one write: `written` bytes reach the temporary file,
-- `write_error` says that the write then fails, and so on.
pub record Io : Type 0 where
  pub written : ℕ
  pub write_error : Bool
  pub rename_error : Bool
  pub remove_error : Bool

-- `Drop for Staged`: an uncommitted temporary file is removed, an error is ignored.
unfoldable pub drop_staged : Io → Text → Bool → Disk → Disk
drop_staged io tmp committed disk =
    if committed then disk else if io.remove_error then disk else remove_file tmp disk

-- `rename` of a file that is there.
abbrev pub rename_file : Text → Text → Bytes → Disk → Disk
rename_file tmp path bytes disk = write_file path bytes (remove_file tmp disk)

-- The disks while `n` bytes are written, one after another.
unfoldable pub write_states : Text → Bytes → ℕ → Disk → List Disk
write_states tmp bytes zero disk = write_file tmp [] disk ∷ []
write_states tmp bytes (suc n) disk =
    write_states tmp bytes n disk ++ write_file tmp (take (suc n) bytes) disk ∷ []

-- `atomic_write`, `atomic_write_blocking`, and `atomic_copy` of a file that holds `bytes`: the disks
-- on the way, the disk at the end, and whether the call succeeds.
pub record Written : Type 0 where
  pub states : List Disk
  pub disk : Disk
  pub succeeded : Bool

unfoldable pub atomic_write : Io → Text → Text → Bytes → Disk → Written
unfolding drop_staged
atomic_write io tmp path bytes disk =
    if io.write_error
    then record {
      states = disk ∷ write_states tmp bytes io.written disk;
      disk = drop_staged io tmp false (write_file tmp (take io.written bytes) disk);
      succeeded = false;
    }
    else (let states = disk ∷ write_states tmp bytes (length bytes) disk in
        let filled = write_file tmp bytes disk in
        if io.rename_error
        then record { states = states; disk = drop_staged io tmp false filled; succeeded = false }
        else record {
          states = states;
          disk = drop_staged io tmp true (rename_file tmp path bytes filled);
          succeeded = true;
        })
