-- ===== src/Hash/Hex.antt =====
-- What the hex of a digest looks like.
use zun_rust_server.Prelude.{
  ℕ, ◌*◌, ◌/◌, ◌%◌, ◌<◌, ◌≡◌, refl, true, [], ◌∷◌, all, All, length, arith,
}
use zun_rust_server.Prelude.Text.{Text, len}
use zun_rust_server.Server.{Bytes}
use zun_rust_server.Hash.{Digest, hex_digit, hex, sha256_hex, is_hex_char, is_valid_sha256_hex}

hex_digit_lem : (d : ℕ) → d < 16 → is_hex_char (hex_digit d) ≡ true
hex_digit_lem d h = ground arith

all-hex : (bytes : Bytes) → All (λ b. b < 256) bytes → all is_hex_char (hex bytes) ≡ true
unfolding hex
all-hex [] h = refl
all-hex (b ∷ bs) h =
    rw (hex_digit_lem (b / 16) (omega (arith, h.0)), hex_digit_lem (b % 16) (omega arith))
      (all-hex bs h.1)

-- Hex digits are single bytes.
pub len_of_hex : (s : Text) → all is_hex_char s ≡ true → len s ≡ length s
unfolding len
len_of_hex [] h = refl
len_of_hex (c ∷ s) h = ground (arith, len_of_hex s)

length-hex : (bytes : Bytes) → length (hex bytes) ≡ 2 * length bytes
unfolding hex
length-hex [] = refl
length-hex (b ∷ bs) = omega (arith, length-hex bs)

-- The hash of any bytes is one that a submit accepts, where the digest has 32 bytes.
pub sha256_hex-accepted :
    (digest : Digest) (bytes : Bytes)
    → length (digest bytes) ≡ 32
    → All (λ b. b < 256) (digest bytes)
    → is_valid_sha256_hex (sha256_hex digest bytes) ≡ true
unfolding sha256_hex is_valid_sha256_hex
sha256_hex-accepted digest bytes h small =
    let hexed = all-hex (digest bytes) small in
    let long : len (hex (digest bytes)) ≡ 64 =
      omega (arith, len_of_hex (hex (digest bytes)) hexed, length-hex (digest bytes), h) in
    rw (long, hexed) refl
