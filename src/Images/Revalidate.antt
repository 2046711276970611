-- ===== src/Images/Revalidate.antt =====
-- The revalidation of `serve_file_with_ct` in src/images.rs: a response 304 for the tag of a
-- response 200.
use zun_rust_server.Prelude.{
  ℕ, ◌≡◌, refl, Bool, true, not, [], ◌∷◌, ◌++◌, Option, none, some, all, ◌==◌, length, arith,
  Bool-cases, Option-cases, inl, inr, ap, sym, ◌∙◌,
}
use zun_rust_server.Prelude.Text.{Text, text_eq_refl, is_whitespace}
use zun_rust_server.Prelude.Fields.{
  trim, trim_start, trim_end, decimal, is_digit, decimal_digits, split_on_one, trim_end-append,
}
use zun_rust_server.Error.{Result, ok, err}
use zun_rust_server.Server.{Bytes, Disk}
use zun_rust_server.Images.File.{
  Response, Modified, etag_text, etag_for, not_modified, lists_etag, respond, serve_file_with_ct,
}

abbrev no_comma : ℕ → Bool
no_comma c = not (c == b',')

all_and : (p : ℕ → Bool) (s t : Text) → all p s ≡ true → all p t ≡ true → all p (s ++ t) ≡ true
all_and p [] t h k = k
all_and p (c ∷ s) t h k = elim (Bool-cases (p c)) [
  | inl holds ↦ rw holds (all_and p s t (rw holds at h) k)
  | inr fails ↦ absurd (let q = rw fails at h in cc)
]

digits_no_comma : (s : Text) → all is_digit s ≡ true → all no_comma s ≡ true
digits_no_comma [] h = refl
digits_no_comma (c ∷ s) h = ground (arith, digits_no_comma s)

etag_no_comma : (n ns : ℕ) → all no_comma (etag_text n ns) ≡ true
unfolding etag_text
etag_no_comma n ns =
    all_and no_comma (decimal n) (b'-' ∷ (decimal ns ++ b'"' ∷ []))
      (digits_no_comma (decimal n) (decimal_digits n))
      (all_and no_comma (decimal ns) (b'"' ∷ []) (digits_no_comma (decimal ns) (decimal_digits ns))
        refl)

trim_etag : (n ns : ℕ) → trim (etag_text n ns) ≡ etag_text n ns
unfolding trim trim_start etag_text is_whitespace trim_end
trim_etag n ns =
    let closed = trim_end-append (decimal ns) b'"' [] refl in
    let dashed = trim_end-append (b'-' ∷ decimal ns) b'"' [] refl in
    trim_end-append (b'"' ∷ decimal n) b'-' (decimal ns ++ b'"' ∷ []) dashed

lists_etag_self : (n ns : ℕ) → lists_etag (etag_text n ns) (etag_text n ns) ≡ true
unfolding lists_etag
lists_etag_self n ns =
    rw
      (
        split_on_one b',' (etag_text n ns) (etag_no_comma n ns),
        trim_etag n ns,
        text_eq_refl (etag_text n ns),
      )
      refl

etag_for-etag_text :
    (n : ℕ) (modified : Option ℕ) (tag : Text)
    → etag_for n modified ≡ some tag
    → lists_etag tag tag ≡ true
unfolding etag_for
etag_for-etag_text n none tag h = cc
etag_for-etag_text n (some ns) tag h =
    let same : etag_text n ns ≡ tag = cc in rw (sym same) (lists_etag_self n ns)

-- The tag of an answer is the file's.
respond-etag :
    (content_type : Text) (body : Bytes) (etag header : Option Text)
    → (respond content_type body etag header).etag ≡ etag
unfolding respond
respond-etag content_type body none header = refl
respond-etag content_type body (some e) none = refl
respond-etag content_type body (some e) (some header) = elim (Bool-cases (lists_etag e header)) [
  | inl listed ↦ rw listed refl
  | inr other ↦ rw other refl
]

abbrev etag_or : Result Response → Option Text
etag_or (ok r) = r.etag
etag_or (err e) = none

-- When a file is served with a tag, a request with this tag in `If-None-Match` is answered by 304
-- with the same tag and no body, while the file and its time of change stay.
pub serve_file_revalidates :
    (modified : Modified) (abs content_type : Text) (header : Option Text) (disk : Disk)
    (served : Response) (tag : Text)
    → serve_file_with_ct modified abs content_type header disk ≡ ok served
    → served.etag ≡ some tag
    → serve_file_with_ct modified abs content_type (some tag) disk ≡ ok (not_modified tag)
unfolding serve_file_with_ct
serve_file_revalidates modified abs content_type header disk served tag answer tagged =
    elim (Option-cases (disk abs)) [
      | inl missing ↦ absurd (let q = rw (serve_file_with_ct, missing) at answer in cc)
      | inr (body, there) ↦
          let sent = rw (serve_file_with_ct, there) at answer in
          let own : etag_for (length body) (modified abs) ≡ some tag =
            sym (respond-etag content_type body (etag_for (length body) (modified abs)) header)
            ∙ ap (λ r. etag_or r) sent
            ∙ tagged in
          rw (serve_file_with_ct, there, own)
            (rw (respond, etag_for-etag_text (length body) (modified abs) tag own) refl)
    ]
