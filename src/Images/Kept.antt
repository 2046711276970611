-- ===== src/Images/Kept.antt =====
-- src/images.rs: the JPEG that `serve_derived` keeps on record next to every AVIF.
use zun_rust_server.Prelude.{
  ◌≡◌, refl, ◌∙◌, ◌⊎◌, Bool, true, false, ◌++◌, Option, none, some, is_some,
}
use zun_rust_server.Prelude.Text.{Text, text, starts_with}
use zun_rust_server.Error.{Result, ok, err}
use zun_rust_server.Sql.Member.{Member, Member-update_where}
use zun_rust_server.Server.{Server}
use zun_rust_server.Jobs.{Job, Column, thumb_path, preview_path, set_column, record_derived, has_id}
use zun_rust_server.Paths.{join, needs_slash, relative_for_db}
use zun_rust_server.Paths.Relative.{join-relative_for_db}
use zun_rust_server.Derived.{
  jpeg, avif, extension, Renderer, RenderIo, Rendition, derived_path, render_at, render_only,
  persist, render_and_persist, ensure_one,
}
use zun_rust_server.Derived.Render.{avif_apart}
use zun_rust_server.Derived.Outcome.{
  LeftAt, render_at-LeftAt, FileWritten, render_at-FileWritten, render_at-jobs,
}
use zun_rust_server.Images.File.{Response}
use zun_rust_server.Images.Serve.{column_of}

-- The job's row records a path of a JPEG, and this file is on the disk.
pub record HasJpegAt (data_dir : Text) (c : Column) (id : Text) (s : Server) (abs : Text)
    : Type 0 where
  pub row : Job
  pub member : Member row s.jobs
  pub id_is : has_id id row ≡ true
  pub rel : Text
  pub column : column_of c row ≡ some rel
  pub there : join data_dir rel ≡ abs
  pub on_disk : is_some (s.disk abs) ≡ true

abbrev pub is_ok : {A : Type 0} → Result A → Bool
is_ok (ok a) = true
is_ok (err e) = false

-- The file of the AVIF is as it was.
abbrev pub SameAvif : Text → Rendition → Text → Server → Server → Type 0
SameAvif data_dir r id s s' =
    (abs : Text) → derived_path data_dir r id avif ≡ some abs → s'.disk abs ≡ s.disk abs

-- Nothing has happened, or a JPEG is on record, or the request fails and the jobs and the AVIF are
-- as they were.
abbrev pub Kept : Text → Rendition → Text → Server → Result Response × Server → Type 0
Kept data_dir r id s (answer, s') =
    (s' ≡ s)
    ⊎ (((abs : Text) × HasJpegAt data_dir r.column id s' abs)
        ⊎ ((is_ok answer ≡ false) × (s'.jobs ≡ s.jobs) × SameAvif data_dir r id s s'))

column_of-set_column :
    (c : Column) (rel : Text) (j : Job) → column_of c (set_column c rel j) ≡ some rel
column_of-set_column thumb_path rel j = refl
column_of-set_column preview_path rel j = refl

has_id-set_column :
    (c : Column) (id rel : Text) (j : Job) → has_id id (set_column c rel j) ≡ has_id id j
has_id-set_column thumb_path id rel j = refl
has_id-set_column preview_path id rel j = refl

-- What the rendering of a JPEG leaves.
abbrev pub Rendered : Renderer → Rendition → Text → Server → Option Text × Server → Type 0
Rendered g r id s (none, s') = (s'.jobs ≡ s.jobs) × SameAvif g.data_dir r id s s'
Rendered g r id s (some abs, s') =
    (derived_path g.data_dir r id jpeg ≡ some abs) × HasJpegAt g.data_dir r.column id s' abs

module _ (g : Renderer) (r : Rendition) (dir : needs_slash g.data_dir ≡ true)
    (sub : needs_slash r.sub ≡ true) (inside : starts_with r.sub (text "/") ≡ false) where
  persist-Rendered :
      (id : Text) (row : Job) (s s' : Server) (answer : Option Text)
      → Member row s.jobs
      → has_id id row ≡ true
      → FileWritten (derived_path g.data_dir r id jpeg) (answer, s')
      → s'.jobs ≡ s.jobs
      → ((abs : Text) → derived_path g.data_dir r id avif ≡ some abs → LeftAt abs s (answer, s'))
      → Rendered g r id s (persist g id r (answer, s'))
  unfolding record_derived
  persist-Rendered id row s s' none m found written same left = (same, left)
  persist-Rendered id row s s' (some abs) m found (at_path, written) same left =
      let rel = relative_for_db abs g.data_dir in
      (
        at_path,
        record {
          row = set_column r.column rel row;
          member =
              Member-update_where (has_id id) (set_column r.column rel) row s'.jobs found
                (rw same m);
          id_is = has_id-set_column r.column id rel row ∙ found;
          rel = rel;
          column = column_of-set_column r.column rel row;
          there =
              join-relative_for_db g.data_dir r.sub (id ++ text "." ++ extension jpeg) abs dir sub
                inside at_path;
          on_disk = written;
        },
      )

  pub ensure_one-Rendered :
      (e : RenderIo) (id output_abs : Text) (row : Job) (s : Server)
      → Member row s.jobs
      → has_id id row ≡ true
      → Rendered g r id s (ensure_one g e id output_abs r jpeg s)
  unfolding ensure_one render_and_persist render_only
  ensure_one-Rendered e id output_abs row s m found =
      let path = derived_path g.data_dir r id jpeg in
      persist-Rendered id row s (render_at g e output_abs r.max_edge jpeg path s).1
        (render_at g e output_abs r.max_edge jpeg path s).0 m found
        (render_at-FileWritten g e output_abs r.max_edge jpeg path s)
        (render_at-jobs g e output_abs r.max_edge jpeg path s)
        (λ abs at_avif.
          render_at-LeftAt g e output_abs r.max_edge jpeg path abs s
            (λ staged at_jpeg. avif_apart g.data_dir r id e.suffix staged abs at_jpeg at_avif))
