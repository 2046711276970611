-- ===== src/Sql/Order.antt =====
-- ORDER BY a transitive test over rows that it can compare pairwise: the result is strictly
-- ordered, selection commutes with it, and the rows after a cursor are the rest of the list.
use zun_rust_server.Prelude.{
  ◌≡◌, refl, ◌⊎◌, inl, inr, Bool, true, false, List, [], ◌∷◌, ◌++◌, arith, All, Bool-cases,
  if◌then◌else◌,
}
use zun_rust_server.Sql.{select_where, insert_by, order_by}

-- Each row comes before all that follow.
abbrev pub IsOrdered {ℓ} : {A : Type ℓ} → (A → A → Bool) → List A → Type 0
IsOrdered before [] = Unit
IsOrdered before (r ∷ rs) = All (λ s. before r s ≡ true) rs × IsOrdered before rs

abbrev pub Comparable {ℓ} : {A : Type ℓ} → (A → A → Bool) → A → A → Type 0
Comparable before a b = (before a b ≡ true) ⊎ (before b a ≡ true)

abbrev pub AllComparable {ℓ} : {A : Type ℓ} → (A → A → Bool) → List A → Type 0
AllComparable before [] = Unit
AllComparable before (r ∷ rs) = All (Comparable before r) rs × AllComparable before rs

pub All-mono {ℓ κ} :
    {A : Type ℓ} {P Q : A → Type κ} (xs : List A) → ((a : A) → P a → Q a) → All P xs → All Q xs
All-mono [] f h = tt
All-mono (x ∷ xs) f h = (f x h.0, All-mono xs f h.1)

module _ {ℓ} {A : Type ℓ} where
  pub All-select_where {κ} :
      (P : A → Type κ) (w : A → Bool) (rows : List A) → All P rows → All P (select_where w rows)
  unfolding select_where
  All-select_where P w [] h = tt
  All-select_where P w (r ∷ rs) h = elim (Bool-cases (w r)) [
    | inl e ↦ rw e (h.0, All-select_where P w rs h.1)
    | inr e ↦ rw e (All-select_where P w rs h.1)
  ]

  pub select_where_holds :
      (w : A → Bool) (rows : List A) → All (λ r. w r ≡ true) (select_where w rows)
  unfolding select_where
  select_where_holds w [] = tt
  select_where_holds w (r ∷ rs) = elim (Bool-cases (w r)) [
    | inl e ↦ rw e (e, select_where_holds w rs)
    | inr e ↦ rw e (select_where_holds w rs)
  ]

  pub AllComparable-select_where :
      (before : A → A → Bool) (w : A → Bool) (rows : List A)
      → AllComparable before rows
      → AllComparable before (select_where w rows)
  unfolding select_where
  AllComparable-select_where before w [] h = tt
  AllComparable-select_where before w (r ∷ rs) h = elim (Bool-cases (w r)) [
    | inl e ↦ rw e (
      All-select_where (Comparable before r) w rs h.0,
      AllComparable-select_where before w rs h.1,
    )
    | inr e ↦ rw e (AllComparable-select_where before w rs h.1)
  ]

module _ {ℓ} {A : Type ℓ} (before : A → A → Bool) where
  pub All-insert_by {κ} :
      (P : A → Type κ) (r : A) (rows : List A) → P r → All P rows → All P (insert_by before r rows)
  unfolding insert_by
  All-insert_by P r [] p h = (p, tt)
  All-insert_by P r (x ∷ xs) p h = elim (Bool-cases (before r x)) [
    | inl e ↦ rw e (p, h)
    | inr e ↦ rw e (h.0, All-insert_by P r xs p h.1)
  ]

  pub All-order_by {κ} :
      (P : A → Type κ) (rows : List A) → All P rows → All P (order_by before rows)
  unfolding order_by
  All-order_by P [] h = tt
  All-order_by P (r ∷ rs) h = All-insert_by P r (order_by before rs) h.0 (All-order_by P rs h.1)

  -- A property of all the rows that come out is one of all that went in.
  pub All-insert_by_inv {κ} :
      (P : A → Type κ) (r : A) (rows : List A) → All P (insert_by before r rows) → P r × All P rows
  unfolding insert_by
  All-insert_by_inv P r [] h = (h.0, tt)
  All-insert_by_inv P r (x ∷ xs) h = elim (Bool-cases (before r x)) [
    | inl e ↦ let k = rw e at h in (k.0, k.1)
    | inr e ↦
        let k = rw e at h in let rest = All-insert_by_inv P r xs k.1 in (rest.0, (k.0, rest.1))
  ]

  pub All-order_by_inv {κ} :
      (P : A → Type κ) (rows : List A) → All P (order_by before rows) → All P rows
  unfolding order_by
  All-order_by_inv P [] h = tt
  All-order_by_inv P (r ∷ rs) h =
      let both = All-insert_by_inv P r (order_by before rs) h in
      (both.0, All-order_by_inv P rs both.1)

  insert_by_front :
      (r : A) (rows : List A)
      → All (λ s. before r s ≡ true) rows
      → insert_by before r rows ≡ r ∷ rows
  unfolding insert_by
  insert_by_front r [] h = refl
  insert_by_front r (x ∷ xs) h = rw (h.0)

  module _ (trans : (a b c : A) → before a b ≡ true → before b c ≡ true → before a c ≡ true) where
    insert_by-IsOrdered :
        (r : A) (rows : List A)
        → All (Comparable before r) rows
        → IsOrdered before rows
        → IsOrdered before (insert_by before r rows)
    unfolding insert_by
    insert_by-IsOrdered r [] c o = (tt, tt)
    insert_by-IsOrdered r (x ∷ xs) c o = elim (Bool-cases (before r x)) [
      | inl e ↦ rw e ((e, All-mono xs (λ s q. trans r x s e q) o.0), o)
      | inr e ↦ rw e (
        All-insert_by (λ s. before x s ≡ true) r xs (ground arith) o.0,
        insert_by-IsOrdered r xs c.1 o.1,
      )
    ]

    pub order_by-IsOrdered :
        (rows : List A) → AllComparable before rows → IsOrdered before (order_by before rows)
    unfolding order_by
    order_by-IsOrdered [] c = tt
    order_by-IsOrdered (r ∷ rs) c =
        insert_by-IsOrdered r (order_by before rs) (All-order_by (Comparable before r) rs c.0)
          (order_by-IsOrdered rs c.1)

    select_where-insert_by :
        (w : A → Bool) (r : A) (rows : List A)
        → IsOrdered before rows
        → select_where w (insert_by before r rows)
          ≡ (if w r then insert_by before r (select_where w rows) else select_where w rows)
    unfolding select_where insert_by
    select_where-insert_by w r [] o = ground arith
    select_where-insert_by w r (x ∷ xs) o = elim (Bool-cases (before r x)) [
      | inl e ↦ ground (
        arith,
        insert_by_front r (select_where w xs) (
            All-select_where (λ s. before r s ≡ true) w xs
              (All-mono xs (λ s q. trans r x s e q) o.0)),
      )
      | inr e ↦ ground (arith, select_where-insert_by w r xs o.1)
    ]

    pub order_by-select_where :
        (w : A → Bool) (rows : List A)
        → AllComparable before rows
        → order_by before (select_where w rows) ≡ select_where w (order_by before rows)
    unfolding select_where order_by
    order_by-select_where w [] c = refl
    order_by-select_where w (r ∷ rs) c = ground (
      arith,
      order_by-select_where w rs c.1,
      select_where-insert_by w r (order_by before rs) (order_by-IsOrdered rs c.1),
    )

    module _ (irrefl : (a : A) → before a a ≡ false) where
      select_where-All :
          (w : A → Bool) (rows : List A) → All (λ s. w s ≡ true) rows → select_where w rows ≡ rows
      unfolding select_where
      select_where-All w [] h = refl
      select_where-All w (x ∷ xs) h = rw (h.0, select_where-All w xs h.1)

      asym : (a b : A) → before a b ≡ true → before b a ≡ false
      asym a b h = ground (arith, trans a b a h, irrefl a)

      -- The rows after the cursor `r` of an ordered list are those that follow it.
      pub select_after :
          (ys : List A) (r : A) (zs : List A)
          → IsOrdered before (ys ++ r ∷ zs)
          → select_where (before r) (ys ++ r ∷ zs) ≡ zs
      unfolding select_where
      select_after [] r zs o = rw (irrefl r) (select_where-All (before r) zs o.0)
      select_after (y ∷ ys) r zs o = rw (asym y r (head_of ys o.0)) (select_after ys r zs o.1)
        where
          head_of : (ws : List A) → All (λ s. before y s ≡ true) (ws ++ r ∷ zs) → before y r ≡ true
          head_of [] h = h.0
          head_of (w ∷ ws) h = head_of ws h.1

      select_where_none :
          (w : A → Bool) (rows : List A) → All (λ s. w s ≡ false) rows → select_where w rows ≡ []
      unfolding select_where
      select_where_none w [] h = refl
      select_where_none w (x ∷ xs) h = rw (h.0, select_where_none w xs h.1)

      -- The rows before `r` in an ordered list are those that stand ahead of it.
      pub select_before :
          (ys : List A) (r : A) (zs : List A)
          → IsOrdered before (ys ++ r ∷ zs)
          → select_where (λ s. before s r) (ys ++ r ∷ zs) ≡ ys
      unfolding select_where
      select_before [] r zs o =
          rw (irrefl r)
            (select_where_none (λ s. before s r) zs (All-mono zs (λ s q. asym r s q) o.0))
      select_before (y ∷ ys) r zs o = rw (head_of ys o.0, select_before ys r zs o.1)
        where
          head_of : (ws : List A) → All (λ s. before y s ≡ true) (ws ++ r ∷ zs) → before y r ≡ true
          head_of [] h = h.0
          head_of (w ∷ ws) h = head_of ws h.1

      -- The first row of an ordered list has no row before it.
      pub first_of-IsOrdered :
          (r : A) (rows : List A)
          → IsOrdered before (r ∷ rows)
          → All (λ s. before s r ≡ false) (r ∷ rows)
      first_of-IsOrdered r rows o = (irrefl r, All-mono rows (λ s q. asym r s q) o.0)
