-- ===== src/Limits.antt =====
-- The bounds of src/lib.rs and `clamp_timeout_seconds`.
use zun_rust_server.Prelude.{
  ℕ, ◌*◌, ◌-◌, ◌≤◌, ◌≡◌, Option, none, some, arith, if◌then◌else◌, Bool, true, not, ◌&&◌,
}
use zun_rust_server.Prelude.Int.{ℤ, pos, negsuc, ltb_ℤ}

abbrev pub max_upload_bytes : ℕ
max_upload_bytes = 20 * 1024 * 1024

abbrev pub max_prompt_len : ℕ
max_prompt_len = 8 * 1024

abbrev pub max_label_len : ℕ
max_label_len = 1000

abbrev pub max_description_len : ℕ
max_description_len = 4000

abbrev pub max_input_name_len : ℕ
max_input_name_len = 255

abbrev pub default_timeout_seconds : ℕ
default_timeout_seconds = 120

abbrev pub min_timeout_seconds : ℤ
min_timeout_seconds = pos 1

abbrev pub max_timeout_seconds : ℤ
max_timeout_seconds = pos 1800

-- `Ord::clamp` on `i64`.
abbrev pub clamp : ℤ → ℤ → ℤ → ℤ
clamp t lo hi = if ltb_ℤ t lo then lo else if ltb_ℤ hi t then hi else t

-- The cast `as u64` wraps a negative value around.
abbrev pub as_u64 : ℤ → ℕ
as_u64 (pos n) = n
as_u64 (negsuc n) = 0xffffffffffffffff - n

unfoldable pub clamp_timeout_seconds : Option ℤ → ℕ
clamp_timeout_seconds (some t) = as_u64 (clamp t min_timeout_seconds max_timeout_seconds)
clamp_timeout_seconds none = default_timeout_seconds

-- `(MIN..=MAX).contains(&t)`
abbrev pub is_accepted_timeout : ℤ → Bool
is_accepted_timeout t = not (ltb_ℤ t min_timeout_seconds) && not (ltb_ℤ max_timeout_seconds t)

-- Whatever `i64` is stored, the timeout of a job lies between 1 and 1800 seconds.
pub clamp_timeout_seconds_bounds :
    (t : Option ℤ) → (1 ≤ clamp_timeout_seconds t) × (clamp_timeout_seconds t ≤ 1800)
unfolding clamp_timeout_seconds
clamp_timeout_seconds_bounds none = ground arith
clamp_timeout_seconds_bounds (some t) = ground arith

-- A stored value that a prompt may have is used as it is.
pub clamp_timeout_seconds-accepted :
    (t : ℤ) → is_accepted_timeout t ≡ true → pos (clamp_timeout_seconds (some t)) ≡ t
unfolding clamp_timeout_seconds
clamp_timeout_seconds-accepted t h = ground arith
