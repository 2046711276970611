-- ===== src/Error/Redact.antt =====
-- src/error.rs: `redact_internal` and the functions under it, which hide paths and URLs from every
-- error text that a client can read. `none` is the panic of `String::truncate` inside a character.
pub mod Bounds
pub mod Ascii
use zun_rust_server.Prelude.{
  ℕ, zero, suc, ◌+◌, ◌-◌, Bool, true, false, not, ◌&&◌, ◌||◌, List, [], ◌∷◌, ◌++◌, Option, none,
  some, if◌then◌else◌, leb, ltb, ◌==◌, any,
}
use zun_rust_server.Prelude.Text.{Text, text, len, len_utf8, is_whitespace, starts_with}

abbrev pub is_leading : ℕ → Bool
is_leading c = (c == b'(') || (c == b'[') || (c == b'{') || (c == 34) || (c == 39) || (c == b'<')

abbrev pub is_trailing : ℕ → Bool
is_trailing c =
    (c == b')')
    || (c == b']')
    || (c == b'}')
    || (c == 34)
    || (c == 39)
    || (c == b'>')
    || (c == b',')
    || (c == b';')
    || (c == b'.')
    || (c == b':')

-- `take_while` from the front, with the rest: `split_at(leading_len)`.
unfoldable pub span : (ℕ → Bool) → Text → Text × Text
span p [] = ([], [])
span p (c ∷ s) = let (taken, rest) = span p s in if p c then (c ∷ taken, rest) else ([], c ∷ s)

-- `take_while` from the back: the text before it, and it.
unfoldable pub span_end : (ℕ → Bool) → Text → Text × Text
span_end p [] = ([], [])
span_end p (c ∷ s) =
    let (core, trail) = span_end p s in
    elim core [
      | [] ↦ (if p c then ([], c ∷ trail) else (c ∷ [], trail))
      | d ∷ ds ↦ (c ∷ d ∷ ds, trail)
    ]

abbrev pub roots : List Text
roots =
    text "/home/"
    ∷ text "/tmp/"
    ∷ text "/var/"
    ∷ text "/usr/"
    ∷ text "/opt/"
    ∷ text "/etc/"
    ∷ text "/root/"
    ∷ text "/srv/"
    ∷ text "/mnt/"
    ∷ text "/data/"
    ∷ []

unfoldable pub is_redactable_path : Text → Bool
is_redactable_path s = any (λ r. starts_with s r) roots

unfoldable pub is_redactable_url : Text → Bool
is_redactable_url s =
    starts_with s (text "http://")
    || starts_with s (text "https://")
    || starts_with s (text "ws://")
    || starts_with s (text "wss://")

unfoldable pub redact_token : Text → Text
redact_token tok =
    let (lead, rest) = span is_leading tok in
    let (core, trail) = span_end is_trailing rest in
    if is_redactable_path core
    then lead ++ text "<path>" ++ trail
    else if is_redactable_url core
    then lead ++ text "<url>" ++ trail
    else tok

-- `split_whitespace`: `word` is the part of the current word that is read.
unfoldable pub split_words : Text → Text → List Text
unfolding is_whitespace
split_words [] [] = []
split_words (w ∷ word) [] = (w ∷ word) ∷ []
split_words word (c ∷ s) =
    let rest = split_words [] s in
    let more = split_words (word ++ c ∷ []) s in
    if is_whitespace c then elim word [ [] ↦ rest | w ∷ ws ↦ (w ∷ ws) ∷ rest ] else more

abbrev pub split_whitespace : Text → List Text
split_whitespace s = split_words [] s

-- `String::truncate`: the first `n` bytes of a text that is longer, a panic where they end inside a
-- character.
unfoldable pub truncate : ℕ → Text → Option Text
truncate n [] = some []
truncate n (c ∷ s) =
    let rest = truncate (n - len_utf8 c) s in
    if n == 0
    then some []
    else if ltb n (len_utf8 c)
    then none
    else elim rest [ none ↦ none | some t ↦ some (c ∷ t) ]

abbrev pub max_len : ℕ
max_len = 400

-- The loop of `redact_internal`: `first` stands for `i == 0`.
unfoldable pub redact_words : Bool → Text → List Text → Option Text
unfolding truncate redact_token
redact_words first out [] = some out
redact_words first out (tok ∷ toks) =
    let grown = (if first then out else out ++ text " ") ++ redact_token tok in
    let rest = redact_words false grown toks in
    if leb max_len (len grown)
    then elim (truncate max_len grown) [ none ↦ none | some t ↦ some (t ++ 0x2026 ∷ []) ]
    else rest

unfoldable pub redact_internal : Text → Option Text
unfolding redact_words split_words
redact_internal s = redact_words true [] (split_whitespace s)
