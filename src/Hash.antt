-- ===== src/Hash.antt =====
-- src/hash.rs: SHA-256 as lower-case hex. The digest of some bytes, a list of bytes, is a parameter.
pub mod Hex
use zun_rust_server.Prelude.{
  ℕ, ◌+◌, ◌-◌, ◌/◌, ◌%◌, Bool, true, false, ◌&&◌, ◌||◌, List, [], ◌∷◌, leb, ltb, ◌==◌, all,
  if◌then◌else◌,
}
use zun_rust_server.Prelude.Text.{Text, len}
use zun_rust_server.Server.{Bytes}

abbrev pub Digest : Type 0
Digest = Bytes → Bytes

abbrev pub hex_digit : ℕ → ℕ
hex_digit d = if ltb d 10 then b'0' + d else b'a' + (d - 10)

-- `{b:02x}` of each byte.
unfoldable pub hex : Bytes → Text
hex [] = []
hex (b ∷ bs) = hex_digit (b / 16) ∷ hex_digit (b % 16) ∷ hex bs

unfoldable pub sha256_hex : Digest → Bytes → Text
unfolding hex
sha256_hex digest bytes = hex (digest bytes)

-- A character of more than one byte has no byte that is a digit.
abbrev pub is_hex_char : ℕ → Bool
is_hex_char c = leb b'0' c && leb c b'9' || leb b'a' c && leb c b'f'

unfoldable pub is_valid_sha256_hex : Text → Bool
is_valid_sha256_hex s = (len s == 64) && all is_hex_char s
