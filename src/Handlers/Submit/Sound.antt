-- ===== src/Handlers/Submit/Sound.antt =====
-- src/handlers.rs: the input cache stays sound, that is, a file of the cache has the hash that its
-- name says, whatever is submitted.
use zun_rust_server.Prelude.{
  ◌+◌, ◌≡◌, refl, sym, ap, ◌∙◌, ◌⊎◌, inl, inr, true, false, ◌∷◌, ◌++◌, some, ◌==◌, ==_iff, all,
  length, length-append, append_cancel, append_inj, append_assoc, arith, Bool-cases, &&_left,
  &&_right,
}
use zun_rust_server.Prelude.Text.{Text, text, text_eq, text_eq→eq, len}
use zun_rust_server.Server.{Bytes, Disk}
use zun_rust_server.Hash.{Digest, hex, sha256_hex, is_hex_char, is_valid_sha256_hex}
use zun_rust_server.Hash.Hex.{len_of_hex}
use zun_rust_server.Paths.{
  Io, slash, needs_slash, data_path, cache_inputs, tmp_sibling, atomic_write, drop_staged,
}
use zun_rust_server.Paths.Relative.{data_path-text}
use zun_rust_server.Handlers.Submit.Resolve.{cache_name}
use zun_rust_server.Handlers.Submit.Stored.{cache_open, cache_plain}

abbrev pub IsImageExt : Text → Type 0
IsImageExt ext = (ext ≡ text "jpg") ⊎ (ext ≡ text "png")

-- Every file of the cache has the hash of its name.
unfoldable pub CacheSound : Digest → Text → Disk → Type 0
CacheSound digest d disk =
    (sha ext p : Text) (bytes : Bytes)
    → is_valid_sha256_hex sha ≡ true
    → IsImageExt ext
    → data_path d cache_inputs (cache_name sha ext) ≡ some p
    → disk p ≡ some bytes
    → sha256_hex digest bytes ≡ sha

-- A write leaves what is elsewhere, but for the file it stages.
atomic_write_else :
    (i : Io) (tmp path q : Text) (bytes : Bytes) (disk : Disk)
    → text_eq tmp q ≡ false
    → let disk' = (atomic_write i tmp path bytes disk).disk in
      (disk' q ≡ disk q) ⊎ ((path ≡ q) × (disk' q ≡ some bytes))
unfolding atomic_write drop_staged
atomic_write_else i tmp path q bytes disk apart = elim (Bool-cases i.write_error) [
  | inl w ↦ elim (Bool-cases i.remove_error) [
    | inl stays ↦ rw (w, stays) (rw apart (inl refl))
    | inr goes ↦ rw (w, goes) (rw apart (inl refl))
  ]
  | inr w ↦ elim (Bool-cases i.rename_error) [
    | inl n ↦ elim (Bool-cases i.remove_error) [
      | inl stays ↦ rw (w, n, stays) (rw apart (inl refl))
      | inr goes ↦ rw (w, n, goes) (rw apart (inl refl))
    ]
    | inr n ↦ elim (Bool-cases (text_eq path q)) [
      | inl hit ↦ rw (w, n) (rw hit (inr (text_eq→eq path q hit, refl)))
      | inr miss ↦ rw (w, n) (rw (miss, apart) (inl refl))
    ]
  ]
]

length_of_sha : (sha : Text) → is_valid_sha256_hex sha ≡ true → length sha ≡ 64
unfolding is_valid_sha256_hex
length_of_sha sha h =
    let long = (==_iff (len sha) 64).0 (&&_left (len sha == 64) (all is_hex_char sha) h) in
    sym (len_of_hex sha (&&_right (len sha == 64) (all is_hex_char sha) h)) ∙ long

length_of_ext : (ext : Text) → IsImageExt ext → length ext ≡ 3
length_of_ext ext (inl e) = ap length e
length_of_ext ext (inr e) = ap length e

some_same : (a b : Bytes) → some a ≡ some b → a ≡ b
some_same a b h = cc

module _ (d : Text) (dir : needs_slash d ≡ true) where
  cache_text :
      (f abs : Text)
      → data_path d cache_inputs f ≡ some abs
      → abs ≡ d ++ slash ∷ (cache_inputs ++ slash ∷ f)
  cache_text f abs found = data_path-text d cache_inputs f abs dir cache_open cache_plain found

  name_of :
      (f g : Text)
      → d ++ slash ∷ (cache_inputs ++ slash ∷ f) ≡ d ++ slash ∷ (cache_inputs ++ slash ∷ g)
      → f ≡ g
  name_of f g e =
      let under =
        append_cancel d (slash ∷ (cache_inputs ++ slash ∷ f)) (slash ∷ (cache_inputs ++ slash ∷ g))
          e in
      let rest : cache_inputs ++ slash ∷ f ≡ cache_inputs ++ slash ∷ g = cc in
      let last = append_cancel cache_inputs (slash ∷ f) (slash ∷ g) rest in cc

  -- Two files of the cache at one path are of one hash.
  same_sha :
      (sha sha' ext ext' abs : Text)
      → length sha ≡ 64
      → length sha' ≡ 64
      → data_path d cache_inputs (cache_name sha ext) ≡ some abs
      → data_path d cache_inputs (cache_name sha' ext') ≡ some abs
      → sha ≡ sha'
  same_sha sha sha' ext ext' abs l l' found found' =
      let names = name_of (cache_name sha ext) (cache_name sha' ext') (
        sym (cache_text (cache_name sha ext) abs found)
        ∙ cache_text (cache_name sha' ext') abs found') in
      append_inj sha sha' (text "." ++ ext) (text "." ++ ext') (l ∙ sym l')
        (sym (append_assoc sha (text ".") ext) ∙ names ∙ append_assoc sha' (text ".") ext')

  length_of_path :
      (sha ext abs : Text)
      → length sha ≡ 64
      → data_path d cache_inputs (cache_name sha ext) ≡ some abs
      → length abs ≡ length d + 79 + length ext
  length_of_path sha ext abs l found =
      let whole = length-append d (slash ∷ (cache_inputs ++ slash ∷ cache_name sha ext)) in
      let dot = length-append sha (text ".") in
      let named = length-append (sha ++ text ".") ext in
      rw (cache_text (cache_name sha ext) abs found) (omega (arith, whole, dot, named, l))

  -- A file of the cache is not where another one is staged.
  staged_apart :
      (sha sha' ext ext' abs p : Text) (suffix : Bytes)
      → length sha ≡ 64
      → length sha' ≡ 64
      → IsImageExt ext'
      → data_path d cache_inputs (cache_name sha ext) ≡ some abs
      → data_path d cache_inputs (cache_name sha' ext') ≡ some p
      → text_eq (tmp_sibling suffix abs) p ≡ false
  unfolding tmp_sibling
  staged_apart sha sha' ext ext' abs p suffix l l' image found found' =
      let short = length_of_ext ext' image in
      let here = length_of_path sha ext abs l found in
      let there = length_of_path sha' ext' p l' found' in
      let outer = length-append (abs ++ text ".tmp.") (hex suffix) in
      let inner = length-append abs (text ".tmp.") in
      elim (Bool-cases (text_eq ((abs ++ text ".tmp.") ++ hex suffix) p)) [
        | inr apart ↦ apart
        | inl same ↦
            let e = ap length (text_eq→eq ((abs ++ text ".tmp.") ++ hex suffix) p same) in
            absurd (omega (arith, short, here, there, outer, inner, e))
      ]

  -- The write of a file with the hash of its name keeps the cache sound.
  pub atomic_write-CacheSound :
      (digest : Digest) (i : Io) (suffix : Bytes) (sha ext abs : Text) (bytes : Bytes) (disk : Disk)
      → is_valid_sha256_hex sha ≡ true
      → sha256_hex digest bytes ≡ sha
      → data_path d cache_inputs (cache_name sha ext) ≡ some abs
      → CacheSound digest d disk
      → CacheSound digest d (atomic_write i (tmp_sibling suffix abs) abs bytes disk).disk
  unfolding CacheSound
  atomic_write-CacheSound digest i suffix sha ext abs bytes disk valid hashed found sound sha' ext'
        p other valid' image found' read =
      let l = length_of_sha sha valid in
      let l' = length_of_sha sha' valid' in
      let apart = staged_apart sha sha' ext ext' abs p suffix l l' image found found' in
      elim (atomic_write_else i (tmp_sibling suffix abs) abs p bytes disk apart) [
        | inl kept ↦ sound sha' ext' p other valid' image found' (sym kept ∙ read)
        | inr (at_path, written) ↦
            let same : bytes ≡ other = some_same bytes other (sym written ∙ read) in
            sym (ap (sha256_hex digest) same)
            ∙ hashed
            ∙ same_sha sha sha' ext ext' p l l' (found ∙ ap some at_path) found'
      ]
