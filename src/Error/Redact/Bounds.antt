-- ===== src/Error/Redact/Bounds.antt =====
-- How long a redacted text is, and when it is none.
use zun_rust_server.Prelude.{
  ℕ, ◌+◌, ◌-◌, ◌≤◌, ◌<◌, ◌≡◌, refl, ap, Bool, true, false, List, [], ◌∷◌, ◌++◌, Option, none, some,
  if◌then◌else◌, arith, leb, All, Bool-cases, length, length-append, le→leb, ◌∙◌, Option-cases, inl,
  inr,
}
use mathlib.Core.List.{append-nil, append_assoc}
use zun_rust_server.Prelude.Text.{Text, text, len, len_utf8, is_whitespace}
use zun_rust_server.Error.Redact.{
  truncate, redact_words, redact_internal, redact_token, split_words, split_whitespace, max_len,
}

-- A text of characters of one byte.
abbrev pub IsAscii : Text → Type 0
IsAscii s = All (λ c. c < 0x80) s

truncate-len : (n : ℕ) (s t : Text) → truncate n s ≡ some t → len t ≤ n
unfolding truncate len
truncate-len n [] t e = ground arith
truncate-len n (c ∷ s) t e = elim (Option-cases (truncate (n - len_utf8 c) s)) [
  | inl out ↦ ground arith
  | inr (r, found) ↦ ground (arith, truncate-len (n - len_utf8 c) s r found)
]

len-append : (s t : Text) → len (s ++ t) ≡ len s + len t
unfolding len
len-append [] t = omega arith
len-append (c ∷ s) t = omega (arith, len-append s t)

abbrev pub grow : Bool → Text → Text → Text
grow first out tok = (if first then out else out ++ text " ") ++ redact_token tok

-- The step of the loop, with the token's redaction shut.
pub redact_words_step :
    (first : Bool) (out tok : Text) (toks : List Text)
    → redact_words first out (tok ∷ toks) ≡ (
        if leb max_len (len (grow first out tok))
        then (elim (truncate max_len (grow first out tok)) [
          | none ↦ none
          | some t ↦ some (t ++ 0x2026 ∷ [])
        ])
        else redact_words false (grow first out tok) toks)
unfolding redact_words
redact_words_step first out tok toks = ground arith

ellipsis : len (0x2026 ∷ []) ≡ 3
unfolding len
ellipsis = refl

redact_words-len :
    (first : Bool) (out : Text) (toks : List Text) (r : Text)
    → len out < max_len
    → redact_words first out toks ≡ some r
    → len r ≤ 403
redact_words-len first out [] r h e = unfold redact_words in ground arith
redact_words-len first out (tok ∷ toks) r h e =
    elim (Bool-cases (leb max_len (len (grow first out tok)))) [
      | inl full ↦
          ended r (truncate max_len (grow first out tok)) refl
            (rw (redact_words_step first out tok toks, full) at e)
      | inr more ↦
          redact_words-len false (grow first out tok) toks r (ground arith)
            (rw (redact_words_step first out tok toks, more) at e)
    ]
  where
    ended :
        (r : Text) (o : Option Text)
        → truncate max_len (grow first out tok) ≡ o
        → (elim o [ none ↦ none | some t ↦ some (t ++ 0x2026 ∷ []) ]) ≡ some r
        → len r ≤ 403
    ended r none e k = cc
    ended r (some t) e k =
        let q : t ++ 0x2026 ∷ [] ≡ r = cc in
        let l = truncate-len max_len (grow first out tok) t e in
        omega (arith, len-append t (0x2026 ∷ []), ap len q, ellipsis)

-- A redacted text has at most 403 bytes: the cap of 400 and the ellipsis.
pub redact_internal-len : (s r : Text) → redact_internal s ≡ some r → len r ≤ 403
unfolding redact_internal
redact_internal-len s r e =
    redact_words-len true [] (split_whitespace s) r (unfold len in omega arith) e

-- A character that begins before the cap and ends behind it makes `truncate` panic.
truncate_inside :
    (n : ℕ) (front : Text) (c : ℕ) (t : Text)
    → len front < n
    → n < len front + len_utf8 c
    → truncate n (front ++ c ∷ t) ≡ none
unfolding truncate len
truncate_inside n [] c t h k = ground arith
truncate_inside n (d ∷ front) c t h k = ground (arith, truncate_inside (n - len_utf8 d) front c t)

len_utf8-pos : (c : ℕ) → 1 ≤ len_utf8 c
len_utf8-pos c = ground arith

one_word :
    (word s : Text)
    → All (λ c. is_whitespace c ≡ false) s
    → 0 < length (word ++ s)
    → split_words word s ≡ (word ++ s) ∷ []
unfolding split_words
one_word [] [] a h = absurd (omega arith)
one_word (w ∷ word) [] a h = simp append-nil
one_word word (c ∷ s) a h = rw (a.0) (
    one_word (word ++ c ∷ []) s a.1
      (omega (arith, length-append word (c ∷ []), length-append (word ++ c ∷ []) s))
    ∙ ap (λ w. w ∷ []) (append_assoc word (c ∷ []) s))

-- A text of one word that is not redacted, in which a character of more than one byte begins before
-- byte 400 and ends behind it, is not redacted but makes `redact_internal` panic.
pub redact_internal_panics :
    (front : Text) (c : ℕ) (t : Text)
    → All (λ d. is_whitespace d ≡ false) (front ++ c ∷ t)
    → redact_token (front ++ c ∷ t) ≡ front ++ c ∷ t
    → len front < max_len
    → max_len < len front + len_utf8 c
    → redact_internal (front ++ c ∷ t) ≡ none
unfolding redact_internal
redact_internal_panics front c t plain same h k =
    rw (one_word [] (front ++ c ∷ t) plain (omega (arith, length-append front (c ∷ t)))) (
      redact_words_step true [] (front ++ c ∷ t) []
      ∙ rw
          (same, le→leb max_len (len (front ++ c ∷ t)) over, truncate_inside max_len front c t h k))
  where
    over : max_len ≤ len (front ++ c ∷ t)
    over = unfold len in omega (arith, len-append front (c ∷ t))
