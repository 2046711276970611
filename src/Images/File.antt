-- ===== src/Images/File.antt =====
-- src/images.rs: `serve_file_with_ct`, and the content types. `modified` gives the time of a file's
-- last change in nanoseconds; no file changes between its metadata and its body.
use zun_rust_server.Prelude.{ℕ, Bool, [], ◌∷◌, ◌++◌, Option, none, some, if◌then◌else◌, any, length}
use zun_rust_server.Prelude.Text.{Text, text, text_eq}
use zun_rust_server.Prelude.Fields.{split_on, trim, to_ascii_lowercase, decimal}
use zun_rust_server.Error.{Result, ok, err, not_found}
use zun_rust_server.Server.{Bytes, Disk}

abbrev pub cache_header : Text
cache_header = text "private, max-age=3600"

-- A response, with the headers that the handlers set.
pub record Response : Type 0 where
  pub status : ℕ
  pub body : Bytes
  pub content_type : Option Text
  pub cache_control : Option Text
  pub content_length : Option ℕ
  pub etag : Option Text
  pub vary : Option Text

abbrev pub Modified : Type 0
Modified = Text → Option ℕ

-- `"{len}-{mtime_ns}"`, with the quotes.
unfoldable pub etag_text : ℕ → ℕ → Text
etag_text len ns = b'"' ∷ (decimal len ++ (b'-' ∷ (decimal ns ++ b'"' ∷ [])))

unfoldable pub etag_for : ℕ → Option ℕ → Option Text
unfolding etag_text
etag_for len none = none
etag_for len (some ns) = some (etag_text len ns)

abbrev pub not_modified : Text → Response
not_modified etag = record {
  status = 304;
  body = [];
  content_type = none;
  cache_control = some cache_header;
  content_length = none;
  etag = some etag;
  vary = none;
}

abbrev pub whole_file : Text → Bytes → Option Text → Response
whole_file content_type body etag = record {
  status = 200;
  body = body;
  content_type = some content_type;
  cache_control = some cache_header;
  content_length = some (length body);
  etag = etag;
  vary = none;
}

-- `s.split(',').any(|v| v.trim() == etag_val)`
unfoldable pub lists_etag : Text → Text → Bool
lists_etag etag header = any (λ v. text_eq (trim v) etag) (split_on b',' header)

unfoldable pub respond : Text → Bytes → Option Text → Option Text → Response
unfolding lists_etag
respond content_type body none if_none_match = whole_file content_type body none
respond content_type body (some etag) none = whole_file content_type body (some etag)
respond content_type body (some etag) (some header) =
    if lists_etag etag header then not_modified etag else whole_file content_type body (some etag)

unfoldable pub serve_file_with_ct : Modified → Text → Text → Option Text → Disk → Result Response
unfolding etag_for respond
serve_file_with_ct modified abs content_type if_none_match disk = elim (disk abs) [
  | none ↦ err not_found
  | some body ↦ ok (respond content_type body (etag_for (length body) (modified abs)) if_none_match)
]

-- For the file's extension, as `Path::extension` gives it.
unfoldable pub content_type_for : Option Text → Text
content_type_for none = text "application/octet-stream"
content_type_for (some ext) =
    let lower = to_ascii_lowercase ext in
    if text_eq lower (text "jpg")
    then text "image/jpeg"
    else if text_eq lower (text "jpeg")
    then text "image/jpeg"
    else if text_eq lower (text "png")
    then text "image/png"
    else text "application/octet-stream"

-- src/inputs.rs: `safe_content_type`.
unfoldable pub safe_content_type : Option Text → Text
safe_content_type none = text "application/octet-stream"
safe_content_type (some stored) =
    if text_eq stored (text "image/jpeg")
    then text "image/jpeg"
    else if text_eq stored (text "image/png")
    then text "image/png"
    else text "application/octet-stream"
