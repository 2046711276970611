-- ===== src/Derived/Outcome.antt =====
-- src/derived_images.rs: the file and the row that a rendering leaves.
use zun_rust_server.Prelude.{
  ℕ, ◌≡◌, refl, ap, true, false, Option, none, some, is_some, Bool-cases, inl, inr,
}
use zun_rust_server.Prelude.Text.{Text, text_eq}
use zun_rust_server.Server.{Server, Bytes, Disk}
use zun_rust_server.Paths.{Io, tmp_sibling, atomic_write, drop_staged}
use zun_rust_server.Paths.Atomic.{atomic_write_succeeds}
use zun_rust_server.Derived.{DerivedFormat, Renderer, RenderIo, encoded, write_rendition, render_at}

-- A write leaves every file that is there, but the one it stages.
atomic_write_keeps :
    (i : Io) (tmp path q : Text) (bytes : Bytes) (disk : Disk)
    → text_eq tmp q ≡ false
    → is_some (disk q) ≡ true
    → is_some ((atomic_write i tmp path bytes disk).disk q) ≡ true
unfolding atomic_write drop_staged
atomic_write_keeps i tmp path q bytes disk apart there = elim (Bool-cases i.write_error) [
  | inl w ↦ elim (Bool-cases i.remove_error) [
    | inl stays ↦ rw (w, stays) (rw apart there)
    | inr goes ↦ rw (w, goes) (rw apart there)
  ]
  | inr w ↦ elim (Bool-cases i.rename_error) [
    | inl n ↦ elim (Bool-cases i.remove_error) [
      | inl stays ↦ rw (w, n, stays) (rw apart there)
      | inr goes ↦ rw (w, n, goes) (rw apart there)
    ]
    | inr n ↦ elim (Bool-cases (text_eq path q)) [
      | inl hit ↦ rw (w, n) (rw hit refl)
      | inr miss ↦ rw (w, n) (rw (miss, apart) there)
    ]
  ]
]

-- The path that is answered has a file.
abbrev pub FileWritten : Option Text → Option Text × Server → Type 0
FileWritten path (none, s) = Unit
FileWritten path (some abs, s) = (path ≡ some abs) × (is_some (s.disk abs) ≡ true)

write_rendition-FileWritten :
    (e : RenderIo) (abs : Text) (buf : Option Bytes) (s : Server)
    → FileWritten (some abs) (write_rendition e abs buf s)
write_rendition-FileWritten e abs none s = tt
write_rendition-FileWritten e abs (some buf) s =
    let tmp = tmp_sibling e.suffix abs in
    elim (Bool-cases (atomic_write e.io tmp abs buf s.disk).succeeded) [
      | inl written ↦
          rw (write_rendition, written)
            (refl, ap is_some (atomic_write_succeeds e.io tmp abs buf s.disk written))
      | inr failed ↦ rw (write_rendition, failed) tt
    ]

pub render_at-FileWritten :
    (g : Renderer) (e : RenderIo) (output_abs : Text) (max_edge : ℕ) (format : DerivedFormat)
    (path : Option Text) (s : Server)
    → FileWritten path (render_at g e output_abs max_edge format path s)
render_at-FileWritten g e output_abs max_edge format none s = tt
render_at-FileWritten g e output_abs max_edge format (some abs) s =
    elim (Bool-cases e.create_dir_error) [
      | inl no_dir ↦ rw (render_at, no_dir) tt
      | inr made ↦
          rw (render_at, made)
            (write_rendition-FileWritten e abs (encoded g format max_edge (s.disk output_abs)) s)
    ]

write_rendition-jobs :
    (e : RenderIo) (abs : Text) (buf : Option Bytes) (s : Server)
    → (write_rendition e abs buf s).1.jobs ≡ s.jobs
write_rendition-jobs e abs none s = refl
write_rendition-jobs e abs (some buf) s = refl

pub render_at-jobs :
    (g : Renderer) (e : RenderIo) (output_abs : Text) (max_edge : ℕ) (format : DerivedFormat)
    (path : Option Text) (s : Server)
    → (render_at g e output_abs max_edge format path s).1.jobs ≡ s.jobs
render_at-jobs g e output_abs max_edge format none s = refl
render_at-jobs g e output_abs max_edge format (some abs) s = elim (Bool-cases e.create_dir_error) [
  | inl no_dir ↦ rw (render_at, no_dir) refl
  | inr made ↦
      rw (render_at, made)
        (write_rendition-jobs e abs (encoded g format max_edge (s.disk output_abs)) s)
]

write_rendition_keeps :
    (e : RenderIo) (abs q : Text) (buf : Option Bytes) (s : Server)
    → text_eq (tmp_sibling e.suffix abs) q ≡ false
    → is_some (s.disk q) ≡ true
    → is_some ((write_rendition e abs buf s).1.disk q) ≡ true
write_rendition_keeps e abs q none s apart there = there
write_rendition_keeps e abs q (some buf) s apart there =
    atomic_write_keeps e.io (tmp_sibling e.suffix abs) abs q buf s.disk apart there

pub render_at_keeps :
    (g : Renderer) (e : RenderIo) (output_abs : Text) (max_edge : ℕ) (format : DerivedFormat)
    (path : Option Text) (q : Text) (s : Server)
    → ((abs : Text) → path ≡ some abs → text_eq (tmp_sibling e.suffix abs) q ≡ false)
    → is_some (s.disk q) ≡ true
    → is_some ((render_at g e output_abs max_edge format path s).1.disk q) ≡ true
render_at_keeps g e output_abs max_edge format none q s apart there = there
render_at_keeps g e output_abs max_edge format (some abs) q s apart there =
    elim (Bool-cases e.create_dir_error) [
      | inl no_dir ↦ rw (render_at, no_dir) there
      | inr made ↦
          rw (render_at, made)
            (write_rendition_keeps e abs q (encoded g format max_edge (s.disk output_abs)) s
              (apart abs refl) there)
    ]

-- A write that fails leaves every file but the one it stages.
atomic_write_fails :
    (i : Io) (tmp path q : Text) (bytes : Bytes) (disk : Disk)
    → text_eq tmp q ≡ false
    → (atomic_write i tmp path bytes disk).succeeded ≡ false
    → (atomic_write i tmp path bytes disk).disk q ≡ disk q
unfolding atomic_write drop_staged
atomic_write_fails i tmp path q bytes disk apart h = elim (Bool-cases i.write_error) [
  | inl w ↦ elim (Bool-cases i.remove_error) [
    | inl stays ↦ rw (w, stays) (rw apart refl)
    | inr goes ↦ rw (w, goes) (rw apart refl)
  ]
  | inr w ↦ elim (Bool-cases i.rename_error) [
    | inl n ↦ elim (Bool-cases i.remove_error) [
      | inl stays ↦ rw (w, n, stays) (rw apart refl)
      | inr goes ↦ rw (w, n, goes) (rw apart refl)
    ]
    | inr n ↦ absurd (let k = rw (w, n) at h in cc)
  ]
]

-- A rendering that fails has not touched the file.
abbrev pub LeftAt : Text → Server → Option Text × Server → Type 0
LeftAt q s (none, s') = s'.disk q ≡ s.disk q
LeftAt q s (some abs, s') = Unit

write_rendition-LeftAt :
    (e : RenderIo) (abs q : Text) (buf : Option Bytes) (s : Server)
    → text_eq (tmp_sibling e.suffix abs) q ≡ false
    → LeftAt q s (write_rendition e abs buf s)
write_rendition-LeftAt e abs q none s apart = refl
write_rendition-LeftAt e abs q (some buf) s apart =
    let tmp = tmp_sibling e.suffix abs in
    elim (Bool-cases (atomic_write e.io tmp abs buf s.disk).succeeded) [
      | inl written ↦ rw (write_rendition, written) tt
      | inr failed ↦
          rw (write_rendition, failed) (atomic_write_fails e.io tmp abs q buf s.disk apart failed)
    ]

pub render_at-LeftAt :
    (g : Renderer) (e : RenderIo) (output_abs : Text) (max_edge : ℕ) (format : DerivedFormat)
    (path : Option Text) (q : Text) (s : Server)
    → ((abs : Text) → path ≡ some abs → text_eq (tmp_sibling e.suffix abs) q ≡ false)
    → LeftAt q s (render_at g e output_abs max_edge format path s)
render_at-LeftAt g e output_abs max_edge format none q s apart = refl
render_at-LeftAt g e output_abs max_edge format (some abs) q s apart =
    elim (Bool-cases e.create_dir_error) [
      | inl no_dir ↦ rw (render_at, no_dir) refl
      | inr made ↦
          rw (render_at, made)
            (write_rendition-LeftAt e abs q (encoded g format max_edge (s.disk output_abs)) s
              (apart abs refl))
    ]
