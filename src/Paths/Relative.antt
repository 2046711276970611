-- ===== src/Paths/Relative.antt =====
-- The path that the database stores, and the path on the disk.
use mathlib.Core.List.{append_assoc}
use zun_rust_server.Prelude.{
  ℕ, ◌≡◌, refl, sym, ap, ◌∙◌, true, false, [], ◌∷◌, ◌++◌, some, Bool-cases, inl, inr, arith,
}
use zun_rust_server.Prelude.Text.{Text, text, contains, starts_with, strip_prefix}
use zun_rust_server.Paths.{slash, join, needs_slash, data_path, relative_for_db}
use zun_rust_server.Paths.Traversal.{join_under}

strip_prefix-append : (p t : Text) → strip_prefix (p ++ t) p ≡ some t
unfolding strip_prefix
strip_prefix-append [] [] = refl
strip_prefix-append [] (c ∷ t) = refl
strip_prefix-append (c ∷ p) t = ground (arith, strip_prefix-append p t)

needs_slash-append : (d s : Text) (c : ℕ) → needs_slash (d ++ c ∷ s) ≡ needs_slash (c ∷ s)
unfolding needs_slash
needs_slash-append [] s c = refl
needs_slash-append (a ∷ []) s c = refl
needs_slash-append (a ∷ b ∷ d) s c = needs_slash-append (b ∷ d) s c

needs_slash-under : (s : Text) → needs_slash s ≡ true → needs_slash (slash ∷ s) ≡ true
unfolding needs_slash
needs_slash-under [] h = cc
needs_slash-under (c ∷ s) h = h

starts_with-append :
    (s t : Text)
    → needs_slash s ≡ true
    → starts_with s (text "/") ≡ false
    → starts_with (s ++ t) (text "/") ≡ false
unfolding starts_with needs_slash
starts_with-append [] t n h = cc
starts_with-append (c ∷ s) t n h = h

join_plain :
    (d s : Text)
    → needs_slash d ≡ true
    → starts_with s (text "/") ≡ false
    → join d s ≡ d ++ slash ∷ s
unfolding join
join_plain d s h plain = rw (plain, h) refl

-- A subdirectory that is neither empty nor absolute and does not end in a slash, and a data directory
-- that is not empty and does not end in one.
module _ (d sub f abs : Text) (hd : needs_slash d ≡ true) (hs : needs_slash sub ≡ true)
    (plain : starts_with sub (text "/") ≡ false) (found : data_path d sub f ≡ some abs) where
  pub data_path-text : abs ≡ d ++ slash ∷ (sub ++ slash ∷ f)
  unfolding data_path
  data_path-text = elim (Bool-cases (contains f (text "/"))) [
    | inl slashed ↦ absurd (ground (arith, slashed))
    | inr single ↦
        let named : abs ≡ join (join d sub) f = ground (arith, single) in
        let under : join d sub ≡ d ++ slash ∷ sub = join_plain d sub hd plain in
        let open_end : needs_slash (d ++ slash ∷ sub) ≡ true =
          needs_slash-append d sub slash ∙ needs_slash-under sub hs in
        named
        ∙ ap (λ t. join t f) under
        ∙ join_under (d ++ slash ∷ sub) f open_end single
        ∙ append_assoc d (slash ∷ sub) (slash ∷ f)
  ]

  pub relative_for_db-text : relative_for_db abs d ≡ sub ++ slash ∷ f
  unfolding relative_for_db starts_with
  relative_for_db-text =
      rw data_path-text
        (rw (relative_for_db, strip_prefix-append d (slash ∷ (sub ++ slash ∷ f)), hd) refl)

-- Joining the data directory and the path that is stored for a file gives the file's path back.
pub join-relative_for_db :
    (d sub f abs : Text)
    → needs_slash d ≡ true
    → needs_slash sub ≡ true
    → starts_with sub (text "/") ≡ false
    → data_path d sub f ≡ some abs
    → join d (relative_for_db abs d) ≡ abs
join-relative_for_db d sub f abs hd hs plain found =
    ap (join d) (relative_for_db-text d sub f abs hd hs plain found)
    ∙ join_plain d (sub ++ slash ∷ f) hd (starts_with-append sub (slash ∷ f) hs plain)
    ∙ sym (data_path-text d sub f abs hd hs plain found)
