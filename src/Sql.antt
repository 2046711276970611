-- ===== src/Sql.antt =====
-- The SQL statements of the source over a table held as the list of its rows: WHERE as a Boolean
-- test, SET as a function on a row, the number of rows affected, ORDER BY as an insertion sort.
pub mod Update
pub mod Order
pub mod Member
use zun_rust_server.Prelude.{ℕ, suc, ◌≡◌, Bool, List, [], ◌∷◌, Option, none, some, if◌then◌else◌}

module _ {ℓ} {A : Type ℓ} where
  -- SELECT ... WHERE w
  unfoldable pub select_where : (A → Bool) → List A → List A
  select_where w [] = []
  select_where w (r ∷ rs) = if w r then r ∷ select_where w rs else select_where w rs

  -- `fetch_optional`: the first row that the test takes.
  unfoldable pub fetch_optional : (A → Bool) → List A → Option A
  fetch_optional w [] = none
  fetch_optional w (r ∷ rs) = if w r then some r else fetch_optional w rs

  -- UPDATE ... SET f WHERE w
  unfoldable pub update_where : (A → Bool) → (A → A) → List A → List A
  update_where w f [] = []
  update_where w f (r ∷ rs) = (if w r then f r else r) ∷ update_where w f rs

  -- DELETE FROM ... WHERE w
  unfoldable pub delete_where : (A → Bool) → List A → List A
  delete_where w [] = []
  delete_where w (r ∷ rs) = if w r then delete_where w rs else r ∷ delete_where w rs

  -- `rows_affected()`, and SELECT COUNT(*)
  unfoldable pub count_where : (A → Bool) → List A → ℕ
  count_where w [] = 0
  count_where w (r ∷ rs) = let n = count_where w rs in if w r then suc n else n

  unfoldable pub insert_by : (A → A → Bool) → A → List A → List A
  insert_by before a [] = a ∷ []
  insert_by before a (r ∷ rs) = if before a r then a ∷ r ∷ rs else r ∷ insert_by before a rs

  -- ORDER BY: `before a b` says that a row `a` comes before `b`.
  unfoldable pub order_by : (A → A → Bool) → List A → List A
  unfolding insert_by
  order_by before [] = []
  order_by before (r ∷ rs) = insert_by before r (order_by before rs)

  -- LIMIT 1
  abbrev pub first_row : List A → Option A
  first_row [] = none
  first_row (r ∷ rs) = some r
