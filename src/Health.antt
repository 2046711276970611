-- ===== src/Health.antt =====
-- src/lib.rs: the handlers `capabilities` and `health`, with the cached disk usage. A directory is
-- the tree that the file system shows.
pub mod Usage
use zun_rust_server.Prelude.{
  ℕ, ◌+◌, ◌^◌, ◌-◌, Bool, true, false, List, [], ◌∷◌, Option, none, some, if◌then◌else◌, ltb, leb,
}
use zun_rust_server.Prelude.Text.{Text, text}
use zun_rust_server.Workflow.Registry.{
  WorkflowRegistry, WorkflowSupport, support_list, supported_count,
}

-- What `read_dir` gives, and an entry by its metadata: a file of some length, a directory, another
-- kind, or an error.
mutual
  pub data Directory : Type 0 where
    not_there denied : Directory
    listing : Entries → Directory

  pub data Entries : Type 0 where
    no_more : Entries
    file_entry : ℕ → Entries → Entries
    dir_entry : Directory → Entries → Entries
    other_entry unreadable_entry : Entries → Entries

abbrev pub saturating_add : ℕ → ℕ → ℕ
saturating_add a b = let n = a + b in if ltb n (2 ^ 64) then n else 2 ^ 64 - 1

abbrev pub add_dir : ℕ → Option ℕ → Option ℕ
add_dir total none = none
add_dir total (some n) = some (saturating_add total n)

-- `none` is the error of a directory below that is not read.
unfoldable mutual
  pub dir_size : Directory → Option ℕ
  dir_size not_there = some 0
  dir_size denied = none
  dir_size (listing es) = entries_size 0 es

  -- The loop over the entries, with `total`.
  pub entries_size : ℕ → Entries → Option ℕ
  entries_size total no_more = some total
  entries_size total (file_entry n es) = entries_size (saturating_add total n) es
  entries_size total (dir_entry d es) = elim (add_dir total (dir_size d)) [
    | none ↦ none
    | some t ↦ entries_size t es
  ]
  entries_size total (other_entry es) = entries_size total es
  entries_size total (unreadable_entry es) = entries_size total es

-- The clock counts milliseconds.
pub record DiskUsageSample : Type 0 where
  pub total_bytes : ℕ
  pub computed_at : ℕ

abbrev pub disk_cache_ttl : ℕ
disk_cache_ttl = 60000

-- `dir_size(&dir).unwrap_or(0)`
abbrev pub size_or_zero : Option ℕ → ℕ
size_or_zero none = 0
size_or_zero (some n) = n

-- `elapsed` saturates at zero.
abbrev pub is_young : ℕ → DiskUsageSample → Bool
is_young now sample = ltb (now - sample.computed_at) disk_cache_ttl

-- `now` is the time of the look at the cache, `walked` that at the end of the walk of the data
-- directory, and `joined` says that the blocking task ends without a panic.
pub record Probe : Type 0 where
  pub now : ℕ
  pub walked : ℕ
  pub data_dir : Directory
  pub joined : Bool

abbrev pub measure : Probe → Option DiskUsageSample → Option ℕ × Option DiskUsageSample
measure p cache =
    let total = size_or_zero (dir_size p.data_dir) in
    if p.joined
    then (some total, some (record { total_bytes = total; computed_at = p.walked }))
    else (none, cache)

unfoldable pub compute_or_reuse_disk_usage :
    Probe → Option DiskUsageSample → Option ℕ × Option DiskUsageSample
unfolding dir_size
compute_or_reuse_disk_usage p none = measure p none
compute_or_reuse_disk_usage p (some sample) =
    if is_young p.now sample
    then (some sample.total_bytes, some sample)
    else measure p (some sample)

pub record HealthBody : Type 0 where
  pub status : Text
  pub version : Text
  pub data_bytes : Option ℕ

unfoldable pub health : Text → Probe → Option DiskUsageSample → HealthBody × Option DiskUsageSample
unfolding compute_or_reuse_disk_usage
health version p cache =
    let (bytes, cache') = compute_or_reuse_disk_usage p cache in
    (record { status = text "ok"; version = version; data_bytes = bytes }, cache')

pub record CapabilitiesBody : Type 0 where
  pub version : Text
  pub image_edit : Bool
  pub auto_mask : Bool
  pub lora : Bool
  pub reference_image : Bool
  pub manual_mask : Bool
  pub text_to_image : Bool
  pub workflows : List WorkflowSupport

unfoldable pub capabilities : Text → WorkflowRegistry → CapabilitiesBody
unfolding supported_count support_list
capabilities version workflows = record {
  version = version;
  image_edit = ltb 0 (supported_count workflows);
  auto_mask = false;
  lora = false;
  reference_image = false;
  manual_mask = false;
  text_to_image = false;
  workflows = support_list workflows;
}
