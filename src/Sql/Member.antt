-- ===== src/Sql/Member.antt =====
-- Rows of a table, where selection and order take them, and the place of a row in an ordered list.
use zun_rust_server.Prelude.{
  suc, ◌≡◌, refl, ap, ◌⊎◌, inl, inr, Bool, true, ◌&&◌, List, [], ◌∷◌, ◌++◌, some, arith, All,
  Bool-cases, length,
}
use mathlib.Core.Path.{subst}
use zun_rust_server.Sql.{
  select_where, update_where, fetch_optional, insert_by, order_by, count_where,
}
use zun_rust_server.Sql.Order.{All-mono}

abbrev pub Member : {A : Type 0} → A → List A → Type 0
Member a [] = ⊥
Member a (x ∷ xs) = (x ≡ a) ⊎ Member a xs

module _ {A : Type 0} where
  pub Member-All : (rows : List A) → All (λ r. Member r rows) rows
  Member-All [] = tt
  Member-All (x ∷ xs) = (inl refl, All-mono xs (λ a m. inr m) (Member-All xs))

  pub All-Member {κ} : (P : A → Type κ) (a : A) (rows : List A) → All P rows → Member a rows → P a
  All-Member P a [] h m = absurd m
  All-Member P a (x ∷ xs) h (inl e) = subst P e h.0
  All-Member P a (x ∷ xs) h (inr m) = All-Member P a xs h.1 m

  pub Member-fetch_optional :
      (key : A → Bool) (a : A) (rows : List A) → fetch_optional key rows ≡ some a → Member a rows
  unfolding fetch_optional
  Member-fetch_optional key a [] e = cc
  Member-fetch_optional key a (x ∷ xs) e = elim (Bool-cases (key x)) [
    | inl hit ↦ let q = rw hit at e in inl (cc q)
    | inr miss ↦ inr (Member-fetch_optional key a xs (rw miss at e))
  ]

  pub Member-select_where :
      (w : A → Bool) (a : A) (rows : List A)
      → w a ≡ true
      → Member a rows
      → Member a (select_where w rows)
  unfolding select_where
  Member-select_where w a [] h m = m
  Member-select_where w a (x ∷ xs) h (inl e) = rw (e, h) (inl refl)
  Member-select_where w a (x ∷ xs) h (inr m) = elim (Bool-cases (w x)) [
    | inl hit ↦ rw hit (inr (Member-select_where w a xs h m))
    | inr miss ↦ rw miss (Member-select_where w a xs h m)
  ]

  pub All-select_where_inv {κ} :
      (P : A → Type κ) (w : A → Bool) (rows : List A)
      → All P (select_where w rows)
      → All (λ r. w r ≡ true → P r) rows
  unfolding select_where
  All-select_where_inv P w [] h = tt
  All-select_where_inv P w (x ∷ xs) h = elim (Bool-cases (w x)) [
    | inl hit ↦ let k = rw hit at h in (λ e. k.0, All-select_where_inv P w xs k.1)
    | inr miss ↦ (λ e. cc (miss, e), All-select_where_inv P w xs (rw miss at h))
  ]

  -- COUNT(*) is the number of the rows that the test selects.
  pub count_where-length :
      (w : A → Bool) (rows : List A) → count_where w rows ≡ length (select_where w rows)
  unfolding count_where select_where
  count_where-length w [] = refl
  count_where-length w (x ∷ xs) = ground (arith, count_where-length w xs)

  pub select_where-select_where :
      (v w : A → Bool) (rows : List A)
      → select_where v (select_where w rows) ≡ select_where (λ r. w r && v r) rows
  unfolding select_where
  select_where-select_where v w [] = refl
  select_where-select_where v w (x ∷ xs) = ground (arith, select_where-select_where v w xs)

  pub Member-split :
      (a : A) (rows : List A)
      → Member a rows
      → (ys : List A) × (zs : List A) × (rows ≡ ys ++ a ∷ zs)
  Member-split a [] m = absurd m
  Member-split a (x ∷ xs) (inl e) = ([], xs, ap (λ y. y ∷ xs) e)
  Member-split a (x ∷ xs) (inr m) =
      let (ys, zs, e) = Member-split a xs m in (x ∷ ys, zs, ap (λ l. x ∷ l) e)

  module _ (before : A → A → Bool) where
    Member-insert_by_self : (a : A) (rows : List A) → Member a (insert_by before a rows)
    unfolding insert_by
    Member-insert_by_self a [] = inl refl
    Member-insert_by_self a (x ∷ xs) = elim (Bool-cases (before a x)) [
      | inl e ↦ rw e (inl refl)
      | inr e ↦ rw e (inr (Member-insert_by_self a xs))
    ]

    Member-insert_by :
        (a r : A) (rows : List A) → Member a rows → Member a (insert_by before r rows)
    unfolding insert_by
    Member-insert_by a r [] m = absurd m
    Member-insert_by a r (x ∷ xs) m = elim (Bool-cases (before r x)) [
      | inl e ↦ rw e (inr m)
      | inr e ↦ rw e (elim m [ inl h ↦ inl h | inr t ↦ inr (Member-insert_by a r xs t) ])
    ]

    pub Member-order_by : (a : A) (rows : List A) → Member a rows → Member a (order_by before rows)
    unfolding order_by
    Member-order_by a [] m = m
    Member-order_by a (x ∷ xs) (inl e) = rw e (Member-insert_by_self a (order_by before xs))
    Member-order_by a (x ∷ xs) (inr m) =
        Member-insert_by a x (order_by before xs) (Member-order_by a xs m)

    length-insert_by :
        (r : A) (rows : List A) → length (insert_by before r rows) ≡ suc (length rows)
    unfolding insert_by
    length-insert_by r [] = refl
    length-insert_by r (x ∷ xs) = ground (arith, length-insert_by r xs)

    pub length-order_by : (rows : List A) → length (order_by before rows) ≡ length rows
    unfolding order_by
    length-order_by [] = refl
    length-order_by (x ∷ xs) =
        omega (arith, length-insert_by x (order_by before xs), length-order_by xs)

pub Member-update_where :
    {A : Type 0}
    → (w : A → Bool) (f : A → A) (a : A) (rows : List A) → w a ≡ true
    → Member a rows
    → Member (f a) (update_where w f rows)
unfolding update_where
Member-update_where w f a [] h m = m
Member-update_where w f a (r ∷ rs) h (inl e) = inl (rw (e, h) refl)
Member-update_where w f a (r ∷ rs) h (inr m) = inr (Member-update_where w f a rs h m)
