-- ===== src/Paths/Traversal.antt =====
-- Which filenames reach a path.
use zun_rust_server.Prelude.{
  ℕ, ◌≡◌, refl, true, false, List, [], ◌∷◌, ◌++◌, some, if◌then◌else◌, Bool-cases, inl, inr, arith,
  ◌==◌,
}
use zun_rust_server.Prelude.Text.{Text, text, contains, starts_with}
use zun_rust_server.Paths.{slash, join, needs_slash, data_path}

abbrev pub add_to_first : ℕ → List Text → List Text
add_to_first c [] = (c ∷ []) ∷ []
add_to_first c (t ∷ ts) = (c ∷ t) ∷ ts

-- The components of a path: what stands between the slashes.
unfoldable pub components : Text → List Text
components [] = [] ∷ []
components (c ∷ s) =
    let rest = components s in if c == slash then [] ∷ rest else add_to_first c rest

pub starts_with_slash :
    (s : Text) → contains s (text "/") ≡ false → starts_with s (text "/") ≡ false
unfolding contains
starts_with_slash [] h = refl
starts_with_slash (c ∷ s) h = ground arith

-- A text without a slash is one component.
components_one : (s : Text) → contains s (text "/") ≡ false → components s ≡ s ∷ []
unfolding components contains starts_with
components_one [] h = refl
components_one (c ∷ s) h = ground (arith, components_one s)

first_added :
    (c : ℕ) (rest : List Text) → (t : Text) × (ts : List Text) × (add_to_first c rest ≡ t ∷ ts)
first_added c [] = (c ∷ [], [], refl)
first_added c (t ∷ ts) = (c ∷ t, ts, refl)

components_first : (s : Text) → (t : Text) × (ts : List Text) × (components s ≡ t ∷ ts)
unfolding components
components_first [] = ([], [], refl)
components_first (c ∷ s) = elim (Bool-cases (c == slash)) [
  | inl h ↦ rw h ([], components s, refl)
  | inr h ↦ rw h (first_added c (components s))
]

components-append :
    (base s : Text) → components (base ++ slash ∷ s) ≡ components base ++ components s
unfolding components
components-append [] s = refl
components-append (c ∷ base) s =
    let (t, ts, e) = components_first base in ground (arith, components-append base s, e)

pub join_under :
    (base s : Text)
    → needs_slash base ≡ true
    → contains s (text "/") ≡ false
    → join base s ≡ base ++ slash ∷ s
unfolding join
join_under base s h plain = rw (starts_with_slash s plain, h) refl

-- A filename that is accepted is the last component of its path, under the components of the
-- directory, and is not the parent directory.
pub data_path-components :
    (data_dir subdir filename path : Text)
    → needs_slash (join data_dir subdir) ≡ true
    → data_path data_dir subdir filename ≡ some path
    → (components path ≡ components (join data_dir subdir) ++ filename ∷ [])
      × (contains filename (text "..") ≡ false)
      × (contains filename (text "\\") ≡ false)
unfolding data_path
data_path-components data_dir subdir filename path h e =
    elim (Bool-cases (contains filename (text "/"))) [
      | inl slashed ↦ absurd (ground (arith, slashed))
      | inr plain ↦
          let named : path ≡ join (join data_dir subdir) filename = ground (arith, plain) in
          let up : contains filename (text "..") ≡ false = ground (arith, plain) in
          let back : contains filename (text "\\") ≡ false = ground (arith, plain) in
          (
            rw
                (
                  named,
                  join_under (join data_dir subdir) filename h plain,
                  components-append (join data_dir subdir) filename,
                  components_one filename plain,
                )
                refl,
            up,
            back,
          )
    ]
