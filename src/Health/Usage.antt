-- ===== src/Health/Usage.antt =====
-- The disk usage of src/lib.rs: what a walk adds up, and how long a sample is served.
use zun_rust_server.Prelude.{
  ℕ, ◌+◌, ◌^◌, ◌-◌, ◌≡◌, refl, ◌∙◌, Bool, true, false, ◌&&◌, Option, none, some, if◌then◌else◌, ltb,
  arith, Bool-cases, inl, inr,
}
use zun_rust_server.Health.{
  Directory, Entries, not_there, denied, listing, no_more, file_entry, dir_entry, other_entry,
  unreadable_entry, saturating_add, dir_size, entries_size, DiskUsageSample, Probe,
  compute_or_reuse_disk_usage, size_or_zero,
}

-- The lengths of all files below, and whether every directory is read.
unfoldable mutual
  pub total_size : Directory → ℕ
  total_size not_there = 0
  total_size denied = 0
  total_size (listing es) = total_entries es

  pub total_entries : Entries → ℕ
  total_entries no_more = 0
  total_entries (file_entry n es) = n + total_entries es
  total_entries (dir_entry d es) = total_size d + total_entries es
  total_entries (other_entry es) = total_entries es
  total_entries (unreadable_entry es) = total_entries es

unfoldable mutual
  pub is_read : Directory → Bool
  is_read not_there = true
  is_read denied = false
  is_read (listing es) = are_read es

  pub are_read : Entries → Bool
  are_read no_more = true
  are_read (file_entry n es) = are_read es
  are_read (dir_entry d es) = is_read d && are_read es
  are_read (other_entry es) = are_read es
  are_read (unreadable_entry es) = are_read es

abbrev pub capped : ℕ → ℕ
capped n = if ltb n (2 ^ 64) then n else 2 ^ 64 - 1

saturating_add-capped : (a b : ℕ) → saturating_add (capped a) (capped b) ≡ capped (a + b)
saturating_add-capped a b = ground arith

saturating_add_file : (a n : ℕ) → saturating_add (capped a) n ≡ capped (a + n)
saturating_add_file a n = ground arith

abbrev size_if : Bool → ℕ → Option ℕ
size_if read n = if read then some (capped n) else none

size_if_same : (read : Bool) (m n : ℕ) → m ≡ n → size_if read m ≡ size_if read n
size_if_same read m n e = rw e refl

mutual
  unfolding dir_size total_size is_read

  dir_size_if : (d : Directory) → dir_size d ≡ size_if (is_read d) (total_size d)
  dir_size_if not_there = refl
  dir_size_if denied = refl
  dir_size_if (listing es) =
      entries_size_if 0 es
      ∙ size_if_same (are_read es) (0 + total_entries es) (total_entries es) (omega arith)

  entries_size_if :
      (t : ℕ) (es : Entries)
      → entries_size (capped t) es ≡ size_if (are_read es) (t + total_entries es)
  entries_size_if t no_more = size_if_same true t (t + 0) (omega arith)
  entries_size_if t (file_entry n es) = rw (saturating_add_file t n) (
      entries_size_if (t + n) es
      ∙ size_if_same (are_read es) (t + n + total_entries es) (t + (n + total_entries es))
          (omega arith))
  entries_size_if t (other_entry es) = entries_size_if t es
  entries_size_if t (unreadable_entry es) = entries_size_if t es
  entries_size_if t (dir_entry d es) = elim (Bool-cases (is_read d)) [
    | inr refused ↦ rw (dir_size_if d, refused) refl
    | inl read ↦
        rw (dir_size_if d, read)
          (rw (saturating_add-capped t (total_size d)) (
            entries_size_if (t + total_size d) es
            ∙ size_if_same (are_read es) (t + total_size d + total_entries es)
                (t + (total_size d + total_entries es)) (omega arith)))
  ]

-- The walk adds up the lengths of all files below the directory, up to the largest `u64`; it fails
-- exactly when a directory below cannot be read.
pub dir_size_lem :
    (d : Directory) → dir_size d ≡ (if is_read d then some (capped (total_size d)) else none)
dir_size_lem d = dir_size_if d

-- For 60 seconds after a walk, every probe is answered by what the walk added up, whatever the
-- directory holds by then, and the sample stays; the next probe after that walks again.
pub probe_reuse :
    (p q : Probe) (cache : Option DiskUsageSample) (sample : DiskUsageSample)
    → compute_or_reuse_disk_usage p cache ≡ (some sample.total_bytes, some sample)
    → q.joined ≡ true
    → let walked = size_or_zero (dir_size q.data_dir) in
      compute_or_reuse_disk_usage q (compute_or_reuse_disk_usage p cache).1 ≡ (
        if ltb (q.now - sample.computed_at) 60000
        then (some sample.total_bytes, some sample)
        else (some walked, some (record { total_bytes = walked; computed_at = q.walked })))
unfolding compute_or_reuse_disk_usage
probe_reuse p q cache sample first joined = rw (first, joined) refl
