-- ===== src/Derived.antt =====
-- src/derived_images.rs: the smaller renditions of a job's output. The decoder, the resizing and the
-- encoders are a function of the format, the longest edge and the bytes of the output; `none` is
-- their error.
pub mod Render
pub mod Outcome
use zun_rust_server.Prelude.{ℕ, Bool, List, Option, none, some, ◌++◌, if◌then◌else◌}
use zun_rust_server.Prelude.Text.{Text, text}
use zun_rust_server.Jobs.{Job, Column, thumb_path, preview_path, record_derived}
use zun_rust_server.Server.{Server, Bytes, Disk}
use zun_rust_server.Paths.{
  Io, data_path, relative_for_db, tmp_sibling, thumbs, previews, atomic_write,
}

abbrev pub thumb_max_edge : ℕ
thumb_max_edge = 400

abbrev pub preview_max_edge : ℕ
preview_max_edge = 1280

pub data DerivedFormat : Type 0 where
  jpeg avif : DerivedFormat

unfoldable pub extension : DerivedFormat → Text
extension jpeg = text "jpg"
extension avif = text "avif"

unfoldable pub format_content_type : DerivedFormat → Text
format_content_type jpeg = text "image/jpeg"
format_content_type avif = text "image/avif"

pub record Renderer : Type 0 where
  pub data_dir : Text
  pub encode : DerivedFormat → ℕ → Bytes → Option Bytes

-- What the file system and the random numbers do in one rendering.
pub record RenderIo : Type 0 where
  pub create_dir_error : Bool
  pub suffix : Bytes
  pub io : Io

-- The parameters `sub`, `max_edge` and `column`.
pub record Rendition : Type 0 where
  pub sub : Text
  pub max_edge : ℕ
  pub column : Column

abbrev pub thumb : Rendition
thumb = record { sub = thumbs; max_edge = thumb_max_edge; column = thumb_path }

abbrev pub preview : Rendition
preview = record { sub = previews; max_edge = preview_max_edge; column = preview_path }

-- `data_path` of `{job_id}.{ext}`
abbrev pub derived_path : Text → Rendition → Text → DerivedFormat → Option Text
derived_path data_dir r job_id format =
    data_path data_dir r.sub (job_id ++ text "." ++ extension format)

-- The bytes that are written, if the output is there and is an image.
abbrev pub encoded : Renderer → DerivedFormat → ℕ → Option Bytes → Option Bytes
encoded g format max_edge none = none
encoded g format max_edge (some output) = g.encode format max_edge output

abbrev pub write_rendition : RenderIo → Text → Option Bytes → Server → Option Text × Server
write_rendition e abs none s = (none, s)
write_rendition e abs (some buf) s =
    let w = atomic_write e.io (tmp_sibling e.suffix abs) abs buf s.disk in
    (if w.succeeded then some abs else none, record s { disk = w.disk })

abbrev pub render_at :
    Renderer → RenderIo → Text → ℕ → DerivedFormat → Option Text → Server → Option Text × Server
render_at g e output_abs max_edge format none s = (none, s)
render_at g e output_abs max_edge format (some abs) s =
    if e.create_dir_error
    then (none, s)
    else write_rendition e abs (encoded g format max_edge (s.disk output_abs)) s

-- The absolute path of the file that is written; `none` is the error.
unfoldable pub render_only :
    Renderer → RenderIo → Text → Text → Rendition → DerivedFormat → Server → Option Text × Server
unfolding extension
render_only g e job_id output_abs r format s =
    render_at g e output_abs r.max_edge format (derived_path g.data_dir r job_id format) s

abbrev pub persist : Renderer → Text → Rendition → Option Text × Server → Option Text × Server
persist g job_id r (none, s) = (none, s)
persist g job_id r (some abs, s) =
    let rel = relative_for_db abs g.data_dir in
    (some abs, record s { jobs = record_derived r.column job_id rel s.jobs })

unfoldable pub render_and_persist :
    Renderer → RenderIo → Text → Text → Rendition → DerivedFormat → Server → Option Text × Server
unfolding render_only
render_and_persist g e job_id output_abs r format s =
    persist g job_id r (render_only g e job_id output_abs r format s)

unfoldable pub ensure_one :
    Renderer → RenderIo → Text → Text → Rendition → DerivedFormat → Server → Option Text × Server
unfolding render_only render_and_persist
ensure_one g e job_id output_abs r jpeg s = render_and_persist g e job_id output_abs r jpeg s
ensure_one g e job_id output_abs r avif s = render_only g e job_id output_abs r avif s

-- The four renderings, whose errors are only logged.
unfoldable pub generate_for_job :
    Renderer → RenderIo → RenderIo → RenderIo → RenderIo → Text → Text → Server → Server
unfolding render_only render_and_persist
generate_for_job g e1 e2 e3 e4 job_id output_abs s =
    let s1 = (render_and_persist g e1 job_id output_abs thumb jpeg s).1 in
    let s2 = (render_only g e2 job_id output_abs thumb avif s1).1 in
    let s3 = (render_and_persist g e3 job_id output_abs preview jpeg s2).1 in
    (render_only g e4 job_id output_abs preview avif s3).1
