-- ===== src/Sql/Update.antt =====
-- Laws of UPDATE, DELETE and fetch_optional.
use zun_rust_server.Prelude.{
  ◌≡◌, refl, inl, inr, Bool, true, false, List, [], ◌∷◌, ◌++◌, none, some, arith, if◌then◌else◌,
  All, Bool-cases,
}
use zun_rust_server.Sql.{fetch_optional, update_where, delete_where, count_where}
use mathlib.Core.Option
use mathlib.Core.Path.{subst}

module _ {ℓ} {A : Type ℓ} where
  pub All-update_where {κ} :
      (P : A → Type κ) (w : A → Bool) (f : A → A) (rows : List A)
      → ((r : A) → P r → w r ≡ true → P (f r))
      → All P rows
      → All P (update_where w f rows)
  unfolding update_where
  All-update_where P w f [] keep h = tt
  All-update_where P w f (r ∷ rs) keep h = elim (Bool-cases (w r)) [
    | inl e ↦ rw e (keep r h.0 e, All-update_where P w f rs keep h.1)
    | inr e ↦ rw e (h.0, All-update_where P w f rs keep h.1)
  ]

  pub All-delete_where {κ} :
      (P : A → Type κ) (w : A → Bool) (rows : List A) → All P rows → All P (delete_where w rows)
  unfolding delete_where
  All-delete_where P w [] h = tt
  All-delete_where P w (r ∷ rs) h = elim (Bool-cases (w r)) [
    | inl e ↦ rw e (All-delete_where P w rs h.1)
    | inr e ↦ rw e (h.0, All-delete_where P w rs h.1)
  ]

  pub All-append_one {κ} :
      (P : A → Type κ) (rows : List A) (a : A) → All P rows → P a → All P (rows ++ a ∷ [])
  All-append_one P [] a h p = (p, tt)
  All-append_one P (r ∷ rs) a h p = (h.0, All-append_one P rs a h.1 p)

  -- An update that leaves the key of a row as it is shows at the row that the key finds.
  pub fetch_optional-update_where :
      (key w : A → Bool) (f : A → A) (rows : List A)
      → ((r : A) → key (f r) ≡ key r)
      → fetch_optional key (update_where w f rows)
        ≡ Option.map (λ r. if w r then f r else r) (fetch_optional key rows)
  unfolding fetch_optional update_where
  fetch_optional-update_where key w f [] keep = refl
  fetch_optional-update_where key w f (r ∷ rs) keep =
      ground (arith, keep r, fetch_optional-update_where key w f rs keep)

  pub fetch_optional-append_one :
      (key : A → Bool) (rows : List A) (a : A)
      → fetch_optional key (rows ++ a ∷ []) ≡ (elim (fetch_optional key rows) [
        | some r ↦ some r
        | none ↦ if key a then some a else none
      ])
  unfolding fetch_optional
  fetch_optional-append_one key [] a = ground arith
  fetch_optional-append_one key (r ∷ rs) a = ground (arith, fetch_optional-append_one key rs a)

  pub fetch_optional_test :
      (key : A → Bool) (rows : List A) (r : A) → fetch_optional key rows ≡ some r → key r ≡ true
  unfolding fetch_optional
  fetch_optional_test key [] r h = cc
  fetch_optional_test key (x ∷ rs) r h = ground (arith, fetch_optional_test key rs r)

  pub All-fetch_optional {κ} :
      (P : A → Type κ) (key : A → Bool) (rows : List A) (r : A)
      → All P rows
      → fetch_optional key rows ≡ some r
      → P r
  unfolding fetch_optional
  All-fetch_optional P key [] r h e = absurd (cc e)
  All-fetch_optional P key (x ∷ rs) r h e = elim (Bool-cases (key x)) [
    | inl t ↦ subst_some (rw t at e) h.0
    | inr t ↦ All-fetch_optional P key rs r h.1 (rw t at e)
  ]
    where
      subst_some : some x ≡ some r → P x → P r
      subst_some e p = let q : x ≡ r = cc in subst P q p

  pub fetch_optional-delete_where_self :
      (key : A → Bool) (rows : List A) → fetch_optional key (delete_where key rows) ≡ none
  unfolding fetch_optional delete_where
  fetch_optional-delete_where_self key [] = refl
  fetch_optional-delete_where_self key (r ∷ rs) =
      ground (arith, fetch_optional-delete_where_self key rs)

  -- A DELETE that takes no row with the key leaves the row that the key finds.
  pub fetch_optional-delete_where_other :
      (key w : A → Bool) (rows : List A)
      → ((r : A) → key r ≡ true → w r ≡ false)
      → fetch_optional key (delete_where w rows) ≡ fetch_optional key rows
  unfolding fetch_optional delete_where
  fetch_optional-delete_where_other key w [] spare = refl
  fetch_optional-delete_where_other key w (r ∷ rs) spare =
      ground (arith, spare r, fetch_optional-delete_where_other key w rs spare)

  -- After an UPDATE that takes its own test away no row meets the test.
  pub fetch_optional-update_where_gone :
      (w : A → Bool) (f : A → A) (rows : List A)
      → ((r : A) → w r ≡ true → w (f r) ≡ false)
      → fetch_optional w (update_where w f rows) ≡ none
  unfolding fetch_optional update_where
  fetch_optional-update_where_gone w f [] gone = refl
  fetch_optional-update_where_gone w f (r ∷ rs) gone =
      ground (arith, gone r, fetch_optional-update_where_gone w f rs gone)

  pub count_where-update_where_gone :
      (w : A → Bool) (f : A → A) (rows : List A)
      → ((r : A) → w r ≡ true → w (f r) ≡ false)
      → count_where w (update_where w f rows) ≡ 0
  unfolding count_where update_where
  count_where-update_where_gone w f [] gone = refl
  count_where-update_where_gone w f (r ∷ rs) gone =
      ground (arith, gone r, count_where-update_where_gone w f rs gone)
