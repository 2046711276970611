-- ===== src/Error/Redact/Ascii.antt =====
-- On a text of characters of one byte `redact_internal` does not panic.
use zun_rust_server.Prelude.{
  ℕ, ◌-◌, ◌≡◌, refl, Bool, true, false, List, [], ◌∷◌, ◌++◌, some, if◌then◌else◌, arith, leb, ◌==◌,
  All, Bool-cases, inl, inr, ◌∙◌,
}
use zun_rust_server.Prelude.Text.{Text, text, len, len_utf8, is_whitespace}
use zun_rust_server.Error.Redact.{
  span, span_end, truncate, redact_words, redact_internal, redact_token, split_words,
  split_whitespace, max_len, is_leading, is_trailing, is_redactable_path, is_redactable_url,
}
use zun_rust_server.Error.Redact.Bounds.{IsAscii, grow, redact_words_step}

append-IsAscii : (s t : Text) → IsAscii s → IsAscii t → IsAscii (s ++ t)
append-IsAscii [] t a b = b
append-IsAscii (c ∷ s) t a b = (a.0, append-IsAscii s t a.1 b)

span-IsAscii : (p : ℕ → Bool) (s : Text) → IsAscii s → IsAscii (span p s).0 × IsAscii (span p s).1
unfolding span
span-IsAscii p [] a = (tt, tt)
span-IsAscii p (c ∷ s) a = elim (Bool-cases (p c)) [
  | inl e ↦ let rest = span-IsAscii p s a.1 in rw e ((a.0, rest.0), rest.1)
  | inr e ↦ rw e (tt, a)
]

span_end-IsAscii : (p : ℕ → Bool) (s : Text) → IsAscii s → IsAscii (span_end p s).1
unfolding span_end
span_end-IsAscii p [] a = tt
span_end-IsAscii p (c ∷ s) a = ground (arith, span_end-IsAscii p s a.1)

redact_token-IsAscii : (tok : Text) → IsAscii tok → IsAscii (redact_token tok)
unfolding redact_token
redact_token-IsAscii tok a =
    let parts = span-IsAscii is_leading tok a in
    let trail = span_end-IsAscii is_trailing (span is_leading tok).1 parts.1 in
    elim (Bool-cases (is_redactable_path (span_end is_trailing (span is_leading tok).1).0)) [
      | inl e ↦
          rw e (append-IsAscii _ _ (append-IsAscii _ (text "<path>") parts.0 (omega arith)) trail)
      | inr e ↦
          elim (Bool-cases (is_redactable_url (span_end is_trailing (span is_leading tok).1).0)) [
            | inl f ↦
                rw (e, f)
                  (append-IsAscii _ _ (append-IsAscii _ (text "<url>") parts.0 (omega arith)) trail)
            | inr f ↦ rw (e, f) a
          ]
    ]

truncate-IsAscii : (n : ℕ) (s : Text) → IsAscii s → (t : Text) × (truncate n s ≡ some t)
unfolding truncate
truncate-IsAscii n [] a = ([], refl)
truncate-IsAscii n (c ∷ s) a = elim (Bool-cases (n == 0)) [
  | inl e ↦ ([], rw e)
  | inr e ↦
      let one : len_utf8 c ≡ 1 = ground (arith, a.0) in
      let (t, found) = truncate-IsAscii (n - len_utf8 c) s a.1 in (c ∷ t, ground (arith, a.0))
]

redact_words-IsAscii :
    (first : Bool) (out : Text) (toks : List Text)
    → IsAscii out
    → All IsAscii toks
    → (r : Text) × (redact_words first out toks ≡ some r)
redact_words-IsAscii first out [] a b = (out, unfold redact_words in refl)
redact_words-IsAscii first out (tok ∷ toks) a b =
    let grown : IsAscii (grow first out tok) =
      append-IsAscii _ _ (spaced first out a) (redact_token-IsAscii tok b.0) in
    elim (Bool-cases (leb max_len (len (grow first out tok)))) [
      | inl full ↦
          let (t, cut) = truncate-IsAscii max_len (grow first out tok) grown in
          (t ++ 0x2026 ∷ [], redact_words_step first out tok toks ∙ rw (full, cut))
      | inr more ↦
          let (r, found) = redact_words-IsAscii false (grow first out tok) toks grown b.1 in
          (r, redact_words_step first out tok toks ∙ rw more found)
    ]
  where
    spaced :
        (first : Bool) (out : Text) → IsAscii out → IsAscii (if first then out else out ++ text " ")
    spaced true out a = a
    spaced false out a = append-IsAscii out (text " ") a (omega arith)

split_words-IsAscii : (word s : Text) → IsAscii word → IsAscii s → All IsAscii (split_words word s)
unfolding split_words
split_words-IsAscii [] [] a b = tt
split_words-IsAscii (w ∷ word) [] a b = (a, tt)
split_words-IsAscii [] (c ∷ s) a b = elim (Bool-cases (is_whitespace c)) [
  | inl e ↦ rw e (split_words-IsAscii [] s tt b.1)
  | inr e ↦ rw e (split_words-IsAscii (c ∷ []) s (b.0, tt) b.1)
]
split_words-IsAscii (w ∷ word) (c ∷ s) a b = elim (Bool-cases (is_whitespace c)) [
  | inl e ↦ rw e (a, split_words-IsAscii [] s tt b.1)
  | inr e ↦ rw e (
      split_words-IsAscii (w ∷ (word ++ c ∷ [])) s (append-IsAscii (w ∷ word) (c ∷ []) a (b.0, tt))
        b.1)
]

-- A text of characters of one byte is always redacted: no input of that kind makes it panic.
pub redact_internal-IsAscii : (s : Text) → IsAscii s → (r : Text) × (redact_internal s ≡ some r)
unfolding redact_internal
redact_internal-IsAscii s a =
    redact_words-IsAscii true [] (split_whitespace s) tt (split_words-IsAscii [] s tt a)
