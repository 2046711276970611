-- ===== src/Examples/Redact.antt =====
-- Redaction and the timeout at concrete inputs.
use zun_rust_server.Prelude.{
  ℕ, zero, suc, ◌≤◌, ◌≡◌, refl, false, [], ◌∷◌, ◌++◌, none, some, All, arith,
}
use zun_rust_server.Prelude.Int.{pos}
use zun_rust_server.Prelude.Text.{Text, text, len, is_whitespace, starts_with}
use zun_rust_server.Limits.{clamp_timeout_seconds, clamp_timeout_seconds-accepted}
use zun_rust_server.Error.Redact.{
  redact_internal, redact_words, redact_token, split_words, truncate, span, span_end,
  is_redactable_path, is_redactable_url,
}
use zun_rust_server.Error.Redact.Bounds.{redact_internal-len, redact_internal_panics}

abbrev leak : Text
leak = text "open (/home/u/x.png): failed"

abbrev redacted : Text
redacted = text "open (<path>): failed"

redact_internal-len_example : len redacted ≤ 403
unfolding redact_internal redact_words split_words is_whitespace redact_token span span_end
    is_redactable_path is_redactable_url starts_with truncate len
redact_internal-len_example = redact_internal-len leak redacted refl

-- `n` times a character of three bytes.
abbrev wide : ℕ → Text
wide zero = []
wide (suc n) = 0x732b ∷ wide n

wide-All : (n : ℕ) → All (λ d. is_whitespace d ≡ false) (wide n ++ 0x732b ∷ [])
unfolding is_whitespace
wide-All zero = (refl, tt)
wide-All (suc n) = (refl, wide-All n)

redact_internal_panics_example : redact_internal (wide 133 ++ 0x732b ∷ []) ≡ none
unfolding redact_token span span_end is_redactable_path is_redactable_url starts_with len
redact_internal_panics_example =
    redact_internal_panics (wide 133) 0x732b [] (wide-All 133) refl (omega arith) (omega arith)

clamp_timeout_seconds-accepted_example : pos (clamp_timeout_seconds (some (pos 60))) ≡ pos 60
clamp_timeout_seconds-accepted_example = clamp_timeout_seconds-accepted (pos 60) refl
