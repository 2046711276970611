-- ===== src/Derived/Render.antt =====
-- src/derived_images.rs: what a rendering answers and leaves.
use zun_rust_server.Prelude.{
  ◌≡◌, refl, sym, ◌∙◌, false, [], ◌∷◌, ◌++◌, some, arith, append_assoc, Bool-cases, inl, inr,
}
use zun_rust_server.Prelude.Text.{Text, text, text_eq, starts_with}
use zun_rust_server.Hash.{hex}
use zun_rust_server.Paths.{join, needs_slash, data_path, tmp_sibling, is_invalid_filename}
use zun_rust_server.Derived.{DerivedFormat, jpeg, avif, extension, Rendition, derived_path}

text_eq-append : (s a b : Text) → text_eq (s ++ a) (s ++ b) ≡ text_eq a b
unfolding text_eq
text_eq-append [] a b = refl
text_eq-append (c ∷ s) a b = ground (arith, text_eq-append s a b)

-- The path of a name that ends in an extension, up to the extension.
abbrev path_stem : Text → Text → Text
path_stem base id = join base (id ++ text ".")

starts_slash :
    (id x : Text)
    → starts_with ((id ++ text ".") ++ x) (text "/") ≡ starts_with (id ++ text ".") (text "/")
unfolding starts_with
starts_slash [] x = refl
starts_slash (c ∷ id) x = refl

join-path_stem : (base id x : Text) → join base ((id ++ text ".") ++ x) ≡ path_stem base id ++ x
unfolding join
join-path_stem base id x = elim (Bool-cases (starts_with (id ++ text ".") (text "/"))) [
  | inl root ↦ rw (starts_slash id x, root) refl
  | inr plain ↦ elim (Bool-cases (needs_slash base)) [
    | inl needed ↦
        rw (starts_slash id x, plain, needed) (sym (append_assoc base (b'/' ∷ (id ++ text ".")) x))
    | inr closed ↦
        rw (starts_slash id x, plain, closed) (sym (append_assoc base (id ++ text ".") x))
  ]
]

pub derived_path-path_stem :
    (data_dir : Text) (r : Rendition) (id : Text) (format : DerivedFormat) (abs : Text)
    → derived_path data_dir r id format ≡ some abs
    → abs ≡ path_stem (join data_dir r.sub) id ++ extension format
unfolding data_path
derived_path-path_stem data_dir r id format abs h =
    elim (Bool-cases (is_invalid_filename ((id ++ text ".") ++ extension format))) [
      | inl bad ↦ absurd (let q = rw (data_path, bad) at h in cc)
      | inr good ↦
          let found = rw (data_path, good) at h in
          let same : join (join data_dir r.sub) ((id ++ text ".") ++ extension format) ≡ abs = cc in
          sym same ∙ join-path_stem (join data_dir r.sub) id (extension format)
    ]

-- The JPEG is not where the AVIF is staged.
pub tmp_sibling_apart :
    (data_dir : Text) (r : Rendition) (id suffix jpeg_abs avif_abs : Text)
    → derived_path data_dir r id jpeg ≡ some jpeg_abs
    → derived_path data_dir r id avif ≡ some avif_abs
    → text_eq (tmp_sibling suffix avif_abs) jpeg_abs ≡ false
unfolding tmp_sibling extension text_eq
tmp_sibling_apart data_dir r id suffix jpeg_abs avif_abs at_jpeg at_avif =
    let stem = path_stem (join data_dir r.sub) id in
    rw
      (
        derived_path-path_stem data_dir r id jpeg jpeg_abs at_jpeg,
        derived_path-path_stem data_dir r id avif avif_abs at_avif,
      )
      (rw
        (
          append_assoc (stem ++ extension avif) (text ".tmp.") (hex suffix),
          append_assoc stem (extension avif) (text ".tmp." ++ hex suffix),
        )
        (text_eq-append stem (extension avif ++ (text ".tmp." ++ hex suffix)) (extension jpeg)))

-- The AVIF is not where the JPEG is staged.
pub avif_apart :
    (data_dir : Text) (r : Rendition) (id suffix jpeg_abs avif_abs : Text)
    → derived_path data_dir r id jpeg ≡ some jpeg_abs
    → derived_path data_dir r id avif ≡ some avif_abs
    → text_eq (tmp_sibling suffix jpeg_abs) avif_abs ≡ false
unfolding tmp_sibling extension text_eq
avif_apart data_dir r id suffix jpeg_abs avif_abs at_jpeg at_avif =
    let stem = path_stem (join data_dir r.sub) id in
    rw
      (
        derived_path-path_stem data_dir r id jpeg jpeg_abs at_jpeg,
        derived_path-path_stem data_dir r id avif avif_abs at_avif,
      )
      (rw
        (
          append_assoc (stem ++ extension jpeg) (text ".tmp.") (hex suffix),
          append_assoc stem (extension jpeg) (text ".tmp." ++ hex suffix),
        )
        (text_eq-append stem (extension jpeg ++ (text ".tmp." ++ hex suffix)) (extension avif)))
