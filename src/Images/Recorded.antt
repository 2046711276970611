-- ===== src/Images/Recorded.antt =====
-- src/images.rs: the branches of `serve_derived`, and the JPEG next to an AVIF that is rendered.
use zun_rust_server.Prelude.{
  ◌≡◌, refl, sym, inl, inr, true, false, Option, none, some, is_some, Bool-cases, Option-cases,
  &&_left,
}
use zun_rust_server.Prelude.Text.{Text, text, text_eq, text_eq→eq, starts_with}
use zun_rust_server.Error.{Result, ok, err}
use zun_rust_server.Sql.Update.{fetch_optional_test}
use zun_rust_server.Sql.Member.{Member, Member-fetch_optional}
use zun_rust_server.Server.{Server, Disk}
use zun_rust_server.Jobs.{Job, Column, done, is_status, has_id, is_live}
use zun_rust_server.Paths.{join, needs_slash, relative_for_db, tmp_sibling}
use zun_rust_server.Handlers.Poll.{fetch_job_row, is_live_job}
use zun_rust_server.Derived.{
  DerivedFormat, jpeg, avif, Rendition, derived_path, render_at, render_only, ensure_one,
}
use zun_rust_server.Derived.Render.{tmp_sibling_apart}
use zun_rust_server.Derived.Outcome.{render_at-jobs, render_at_keeps}
use zun_rust_server.Images.Negotiate.{negotiate_derived_format}
use zun_rust_server.Images.Serve.{
  ImageEnv, Headers, column_of, cached_derived_path, on_disk, existing_file, serve_generated,
  generate, after_jpeg, generate_missing, serve_missing, serve_done, serve_row, serve_derived,
}
use zun_rust_server.Images.Kept.{HasJpegAt, Kept, Rendered, ensure_one-Rendered}

kept_in :
    (d : Text) (c : Column) (id : Text) (s s' : Server) (abs : Text)
    → HasJpegAt d c id s abs
    → s'.jobs ≡ s.jobs
    → is_some (s'.disk abs) ≡ true
    → HasJpegAt d c id s' abs
kept_in d c id s s' abs h same there = record {
  row = h.row;
  member = rw same h.member;
  id_is = h.id_is;
  rel = h.rel;
  column = h.column;
  there = h.there;
  on_disk = there;
}

serve_generated-server :
    (env : ImageEnv) (h : Headers) (column : Option Text) (format : DerivedFormat) (o : Option Text)
    (s : Server)
    → (serve_generated env h column format (o, s)).1 ≡ s
serve_generated-server env h column jpeg none s = refl
serve_generated-server env h column avif none s = refl
serve_generated-server env h column jpeg (some abs) s = refl
serve_generated-server env h column avif (some abs) s = refl

-- No file is where the AVIF is staged.
abbrev pub IsFresh : ImageEnv → Rendition → Text → Server → Type 0
IsFresh env r id s =
    (abs : Text)
    → derived_path env.renderer.data_dir r id avif ≡ some abs
    → is_some (s.disk (tmp_sibling env.negotiated_io.suffix abs)) ≡ false

apart_of_fresh :
    (tmp q : Text) (disk : Disk)
    → is_some (disk tmp) ≡ false
    → is_some (disk q) ≡ true
    → text_eq tmp q ≡ false
apart_of_fresh tmp q disk fresh there = elim (Bool-cases (text_eq tmp q)) [
  | inr apart ↦ apart
  | inl same ↦ absurd (let e = text_eq→eq tmp q same in let k = rw e at fresh in cc)
]

on_disk_some :
    (env : ImageEnv) (column : Option Text) (disk : Disk) (abs : Text)
    → on_disk (cached_derived_path env column jpeg) disk ≡ some abs
    → (rel : Text) × (column ≡ some rel)
      × (join env.renderer.data_dir rel ≡ abs)
      × (is_some (disk abs) ≡ true)
unfolding cached_derived_path
on_disk_some env none disk abs h = cc
on_disk_some env (some rel) disk abs h =
    elim (Bool-cases (is_some (disk (join env.renderer.data_dir rel)))) [
      | inl there ↦
          let q = rw there at h in
          let same : join env.renderer.data_dir rel ≡ abs = cc in
          (rel, refl, same, rw (sym same) there)
      | inr gone ↦ absurd (let q = rw gone at h in cc)
    ]

module _ (env : ImageEnv) (h : Headers) (r : Rendition) (id : Text)
    (dir : needs_slash env.renderer.data_dir ≡ true) (sub : needs_slash r.sub ≡ true)
    (inside : starts_with r.sub (text "/") ≡ false) where
  generate_avif :
      (output_abs : Text) (column : Option Text) (s s0 : Server) (q : Text)
      → ((abs : Text)
          → derived_path env.renderer.data_dir r id avif ≡ some abs
          → text_eq (tmp_sibling env.negotiated_io.suffix abs) q ≡ false)
      → HasJpegAt env.renderer.data_dir r.column id s q
      → Kept env.renderer.data_dir r id s0 (generate env h r id output_abs column avif s)
  unfolding ensure_one render_only
  generate_avif output_abs column s s0 q apart kept =
      let path = derived_path env.renderer.data_dir r id avif in
      let (o, s') = render_at env.renderer env.negotiated_io output_abs r.max_edge avif path s in
      inr (
        inl (
          q,
          rw (serve_generated-server env h column avif o s') (
              kept_in env.renderer.data_dir r.column id s s' q kept
                (render_at-jobs env.renderer env.negotiated_io output_abs r.max_edge avif path s)
                (render_at_keeps env.renderer env.negotiated_io output_abs r.max_edge avif path q s
                  apart kept.on_disk)),
        ))

  generate_jpeg :
      (column : Option Text) (s s' : Server) (o : Option Text)
      → Rendered env.renderer r id s (o, s')
      → Kept env.renderer.data_dir r id s (serve_generated env h column jpeg (o, s'))
  generate_jpeg column s s' none (same, left) = inr (inr (refl, same, left))
  generate_jpeg column s s' (some abs) (at_path, kept) = inr (inl (abs, kept))

  after_jpeg-Kept :
      (output_abs : Text) (s s' : Server) (o : Option Text)
      → Rendered env.renderer r id s (o, s')
      → Kept env.renderer.data_dir r id s (after_jpeg env h r id output_abs (o, s'))
  after_jpeg-Kept output_abs s s' none (same, left) = inr (inr (refl, same, left))
  after_jpeg-Kept output_abs s s' (some abs) (at_path, kept) =
      generate_avif output_abs (some (relative_for_db abs env.renderer.data_dir)) s' s abs
        (λ staged found.
          tmp_sibling_apart env.renderer.data_dir r id env.negotiated_io.suffix abs staged at_path
            found)
        kept

  generate_missing-Kept :
      (output_abs : Text) (row : Job) (format : DerivedFormat) (s : Server)
      → IsFresh env r id s
      → Member row s.jobs
      → has_id id row ≡ true
      → Kept env.renderer.data_dir r id s
          (generate_missing env h r id output_abs (column_of r.column row) format s)
  unfolding generate_missing
  generate_missing-Kept output_abs row jpeg s fresh m found =
      let (o, s') = ensure_one env.renderer env.negotiated_io id output_abs r jpeg s in
      generate_jpeg (column_of r.column row) s s' o (
        ensure_one-Rendered env.renderer r dir sub inside env.negotiated_io id output_abs row s m
          found)
  generate_missing-Kept output_abs row avif s fresh m found =
      elim (Option-cases (on_disk (cached_derived_path env (column_of r.column row) jpeg) s.disk)) [
        | inl missing ↦
            let (o, s') = ensure_one env.renderer env.jpeg_io id output_abs r jpeg s in
            rw (generate_missing, missing)
              (after_jpeg-Kept output_abs s s' o (
                ensure_one-Rendered env.renderer r dir sub inside env.jpeg_io id output_abs row s m
                  found))
        | inr (abs, cached) ↦
            let (rel, at_column, joined, there) =
              on_disk_some env (column_of r.column row) s.disk abs cached in
            rw (generate_missing, cached)
              (generate_avif output_abs (column_of r.column row) s s abs
                (λ staged at_path.
                  apart_of_fresh (tmp_sibling env.negotiated_io.suffix staged) abs s.disk
                    (fresh staged at_path) there)
                (record {
                  row = row;
                  member = m;
                  id_is = found;
                  rel = rel;
                  column = at_column;
                  there = joined;
                  on_disk = there;
                }))
      ]

  serve_missing-Kept :
      (row : Job) (format : DerivedFormat) (output : Option Text) (s : Server)
      → IsFresh env r id s
      → Member row s.jobs
      → has_id id row ≡ true
      → Kept env.renderer.data_dir r id s (serve_missing env h r id row format output s)
  serve_missing-Kept row format none s fresh m found = inl refl
  serve_missing-Kept row format (some rel) s fresh m found =
      generate_missing-Kept (join env.renderer.data_dir rel) row format s fresh m found

  serve_done-Kept :
      (row : Job) (format : DerivedFormat) (existing : Result (Option Text)) (s : Server)
      → IsFresh env r id s
      → Member row s.jobs
      → has_id id row ≡ true
      → Kept env.renderer.data_dir r id s (serve_done env h r id row format existing s)
  serve_done-Kept row format (err e) s fresh m found = inl refl
  serve_done-Kept row format (ok (some abs)) s fresh m found = inl refl
  serve_done-Kept row format (ok none) s fresh m found =
      serve_missing-Kept row format row.output_path s fresh m found

  serve_row-Kept :
      (format : DerivedFormat) (found : Option Job) (s : Server)
      → IsFresh env r id s
      → fetch_job_row id s.jobs ≡ found
      → Kept env.renderer.data_dir r id s (serve_row env h r id format found s)
  unfolding fetch_job_row
  serve_row-Kept format none s fresh e = inl refl
  serve_row-Kept format (some row) s fresh e = elim (Bool-cases (is_status row.status done)) [
    | inr early ↦ rw early (inl refl)
    | inl ready ↦ rw ready (
        serve_done-Kept row format (existing_file env r id (column_of r.column row) format s.disk) s
          fresh (Member-fetch_optional (is_live_job id) row s.jobs e)
          (&&_left (has_id id row) (is_live row)
            (fetch_optional_test (is_live_job id) s.jobs row e)))
  ]

-- A request for a thumbnail or a preview leaves the server as it was, or a JPEG of the job that is
-- on the disk and recorded in the job's row, so that no AVIF is rendered without the JPEG through
-- which the purge finds it; or it fails and leaves the jobs and the AVIF's file as they were.  No
-- file is at the name where the AVIF is staged; the data directory and the directory of the
-- renditions are written without a slash at their ends, and the latter does not start with one.
pub serve_derived-Kept :
    (env : ImageEnv) (h : Headers) (r : Rendition) (id : Text) (s : Server)
    → needs_slash env.renderer.data_dir ≡ true
    → needs_slash r.sub ≡ true
    → starts_with r.sub (text "/") ≡ false
    → IsFresh env r id s
    → Kept env.renderer.data_dir r id s (serve_derived env h r id s)
unfolding serve_derived
serve_derived-Kept env h r id s dir sub inside fresh =
    serve_row-Kept env h r id dir sub inside (negotiate_derived_format env.above_zero h.accept)
      (fetch_job_row id s.jobs) s fresh refl
