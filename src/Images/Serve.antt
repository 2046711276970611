-- ===== src/Images/Serve.antt =====
-- The handlers `get_result`, `get_thumb` and `get_preview` of src/images.rs, and `get_input` and
-- `get_input_file` of src/inputs.rs.
use zun_rust_server.Prelude.{
  ℕ, Bool, not, List, ◌++◌, Option, none, some, is_some, if◌then◌else◌, ◌==◌,
}
use zun_rust_server.Prelude.Int.{ℤ}
use zun_rust_server.Prelude.Text.{Text, text}
use zun_rust_server.Error.{
  Result, ok, err, not_found, not_ready, internal, missing_output_path, render_failed,
  invalid_filename, ◌>>=◌, ok_or,
}
use zun_rust_server.Sql.{fetch_optional}
use zun_rust_server.Jobs.{Job, Column, thumb_path, preview_path, done, is_status}
use zun_rust_server.Server.{Server, Input, Disk}
use zun_rust_server.Paths.{join, relative_for_db}
use zun_rust_server.Handlers.Poll.{fetch_job_row}
use zun_rust_server.Derived.{
  DerivedFormat, jpeg, avif, extension, format_content_type, Renderer, RenderIo, Rendition, thumb,
  preview, derived_path, ensure_one,
}
use zun_rust_server.Images.Negotiate.{negotiate_derived_format}
use zun_rust_server.Images.File.{
  Response, Modified, serve_file_with_ct, content_type_for, safe_content_type,
}

-- What the handlers find around them: the encoders, the standard library's `with_extension`,
-- `extension` and `parse`, the file times, and what happens in up to two renderings.
pub record ImageEnv : Type 0 where
  pub renderer : Renderer
  pub with_extension : Text → Text → Text
  pub extension_of : Text → Option Text
  pub above_zero : Text → Bool
  pub modified : Modified
  pub jpeg_io : RenderIo
  pub negotiated_io : RenderIo

pub record Headers : Type 0 where
  pub accept : Option Text
  pub if_none_match : Option Text

abbrev pub serve_output : ImageEnv → Headers → Text → Disk → Result Response
serve_output env h rel disk =
    serve_file_with_ct env.modified (join env.renderer.data_dir rel)
      (content_type_for (env.extension_of rel)) h.if_none_match disk

unfoldable pub get_result : ImageEnv → Headers → Text → Server → Result Response
unfolding fetch_job_row
get_result env h id s = do
  row ← ok_or (fetch_job_row id s.jobs) not_found
  rel ← ok_or (if is_status row.status done then row.output_path else none) not_ready
  serve_output env h rel s.disk

abbrev pub column_of : Column → Job → Option Text
column_of thumb_path j = j.thumb_path
column_of preview_path j = j.preview_path

unfoldable pub cached_derived_path : ImageEnv → Option Text → DerivedFormat → Option Text
cached_derived_path env none format = none
cached_derived_path env (some rel) jpeg = some (join env.renderer.data_dir rel)
cached_derived_path env (some rel) avif =
    some (env.with_extension (join env.renderer.data_dir rel) (extension avif))

-- A path of a file that is there.
abbrev pub on_disk : Option Text → Disk → Option Text
on_disk none disk = none
on_disk (some abs) disk = if is_some (disk abs) then some abs else none

abbrev pub with_vary : Result Response → Result Response
with_vary answer = answer >>= λ r. ok (record r { vary = some (text "Accept") })

unfoldable pub serve_negotiated_file :
    ImageEnv → Headers → Text → DerivedFormat → Disk → Result Response
unfolding serve_file_with_ct format_content_type
serve_negotiated_file env h abs format disk =
    with_vary
      (serve_file_with_ct env.modified abs (format_content_type format) h.if_none_match disk)

-- A file of the rendition that is there, at the recorded path or, for AVIF, at the path by its name;
-- the error is of a job id that is no file name.
unfoldable pub existing_file :
    ImageEnv → Rendition → Text → Option Text → DerivedFormat → Disk → Result (Option Text)
unfolding cached_derived_path
existing_file env r id column jpeg disk = ok (on_disk (cached_derived_path env column jpeg) disk)
existing_file env r id column avif disk =
    elim (on_disk (cached_derived_path env column avif) disk) [
      | some abs ↦ ok (some abs)
      | none ↦ do
        abs ←
            ok_or (derived_path env.renderer.data_dir r id avif)
              (internal (invalid_filename (id ++ text "." ++ extension avif)))
        ok (on_disk (some abs) disk)
    ]

-- The JPEG as the fallback when its AVIF does not render.
abbrev pub fallback : ImageEnv → Headers → Option Text → Server → Result Response
fallback env h column s = elim (on_disk (cached_derived_path env column jpeg) s.disk) [
  | none ↦ err (internal render_failed)
  | some abs ↦ serve_negotiated_file env h abs jpeg s.disk
]

abbrev pub serve_generated :
    ImageEnv
    → Headers
    → Option Text
    → DerivedFormat
    → Option Text × Server
    → Result Response × Server
serve_generated env h column format (some abs, s) =
    (serve_negotiated_file env h abs format s.disk, s)
serve_generated env h column jpeg (none, s) = (err (internal render_failed), s)
serve_generated env h column avif (none, s) = (fallback env h column s, s)

abbrev pub generate :
    ImageEnv
    → Headers
    → Rendition
    → Text
    → Text
    → Option Text
    → DerivedFormat
    → Server
    → Result Response × Server
generate env h r id output_abs column format s =
    serve_generated env h column format
      (ensure_one env.renderer env.negotiated_io id output_abs r format s)

-- The AVIF, once its JPEG is rendered and recorded.
abbrev pub after_jpeg :
    ImageEnv → Headers → Rendition → Text → Text → Option Text × Server → Result Response × Server
after_jpeg env h r id output_abs (none, s) = (err (internal render_failed), s)
after_jpeg env h r id output_abs (some abs, s) =
    generate env h r id output_abs (some (relative_for_db abs env.renderer.data_dir)) avif s

unfoldable pub generate_missing :
    ImageEnv
    → Headers
    → Rendition
    → Text
    → Text
    → Option Text
    → DerivedFormat
    → Server
    → Result Response × Server
unfolding ensure_one cached_derived_path serve_negotiated_file
generate_missing env h r id output_abs column jpeg s = generate env h r id output_abs column jpeg s
generate_missing env h r id output_abs column avif s =
    elim (on_disk (cached_derived_path env column jpeg) s.disk) [
      | some abs ↦ generate env h r id output_abs column avif s
      | none ↦
          after_jpeg env h r id output_abs
            (ensure_one env.renderer env.jpeg_io id output_abs r jpeg s)
    ]

abbrev pub serve_missing :
    ImageEnv
    → Headers
    → Rendition
    → Text
    → Job
    → DerivedFormat
    → Option Text
    → Server
    → Result Response × Server
serve_missing env h r id row format none s = (err (internal missing_output_path), s)
serve_missing env h r id row format (some rel) s =
    generate_missing env h r id (join env.renderer.data_dir rel) (column_of r.column row) format s

abbrev pub serve_done :
    ImageEnv
    → Headers
    → Rendition
    → Text
    → Job
    → DerivedFormat
    → Result (Option Text)
    → Server
    → Result Response × Server
serve_done env h r id row format (err e) s = (err e, s)
serve_done env h r id row format (ok (some abs)) s =
    (serve_negotiated_file env h abs format s.disk, s)
serve_done env h r id row format (ok none) s = serve_missing env h r id row format row.output_path s

abbrev pub serve_row :
    ImageEnv
    → Headers
    → Rendition
    → Text
    → DerivedFormat
    → Option Job
    → Server
    → Result Response × Server
serve_row env h r id format none s = (err not_found, s)
serve_row env h r id format (some row) s =
    if not (is_status row.status done)
    then (err not_ready, s)
    else serve_done env h r id row format
        (existing_file env r id (column_of r.column row) format s.disk) s

unfoldable pub serve_derived :
    ImageEnv → Headers → Rendition → Text → Server → Result Response × Server
unfolding negotiate_derived_format existing_file generate_missing
serve_derived env h r id s =
    serve_row env h r id (negotiate_derived_format env.above_zero h.accept)
      (fetch_job_row id s.jobs) s

unfoldable pub get_thumb : ImageEnv → Headers → Text → Server → Result Response × Server
unfolding serve_derived
get_thumb env h id s = serve_derived env h thumb id s

unfoldable pub get_preview : ImageEnv → Headers → Text → Server → Result Response × Server
unfolding serve_derived
get_preview env h id s = serve_derived env h preview id s

abbrev pub has_input_id : ℕ → Input → Bool
has_input_id id i = i.id == id

-- The body of `get_input`.
pub record InputBody : Type 0 where
  pub id : ℕ
  pub sha256 : Text
  pub available : Bool
  pub original_name : Option Text
  pub content_type : Option Text
  pub size_bytes : Option ℕ
  pub width : Option ℕ
  pub height : Option ℕ
  pub created_at : ℤ
  pub last_used_at : ℤ

unfoldable pub get_input : ℕ → List Input → Result InputBody
get_input id inputs = do
  row ← ok_or (fetch_optional (has_input_id id) inputs) not_found
  ok (record {
    id = row.id;
    sha256 = row.sha256;
    available = is_some row.path;
    original_name = row.original_name;
    content_type = row.content_type;
    size_bytes = row.size_bytes;
    width = row.width;
    height = row.height;
    created_at = row.created_at;
    last_used_at = row.last_used_at;
  })

unfoldable pub get_input_file : ImageEnv → Headers → ℕ → Server → Result Response
unfolding serve_file_with_ct safe_content_type
get_input_file env h id s = do
  row ← ok_or (fetch_optional (has_input_id id) s.inputs) not_found
  path ← ok_or row.path not_found
  serve_file_with_ct env.modified (join env.renderer.data_dir path)
      (safe_content_type row.content_type) h.if_none_match s.disk
