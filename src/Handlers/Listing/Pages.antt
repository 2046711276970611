-- ===== src/Handlers/Listing/Pages.antt =====
-- Keyset pagination: a client that follows `next_cursor` sees every job once, in order.
use zun_rust_server.Prelude.{
  ℕ, zero, suc, ◌<◌, ◌≡◌, refl, sym, ap, ◌∙◌, subst, inl, inr, true, false, ◌&&◌, List, [], ◌∷◌,
  ◌++◌, map, Option, none, some, arith, ◌==◌, length, take, drop, take-append-drop, length-drop,
  Bool-cases,
}
use mathlib.Core.Path.{fun_ext}
use mathlib.Core.List.{append_assoc, map-append}
use zun_rust_server.Prelude.Int.{ℤ}
use zun_rust_server.Prelude.Text.{Text}
use zun_rust_server.Error.{Result, ok, ◌>>=◌}
use zun_rust_server.Sql.{select_where, order_by}
use zun_rust_server.Sql.Order.{
  IsOrdered, AllComparable, All-mono, AllComparable-select_where, order_by-IsOrdered,
  order_by-select_where, select_after,
}
use zun_rust_server.Sql.Member.{select_where-select_where}
use zun_rust_server.Jobs.{Job, Status, key_lt}
use zun_rust_server.Jobs.Consistent.{UniqueIds}
use zun_rust_server.Jobs.Queue.{key_lt_irrefl, key_lt_trans, UniqueIds-AllComparable}
use zun_rust_server.Handlers.Listing.{
  Cursor, CursorFormat, ListQuery, ListItem, Page, list_item, status_filter, cursor_filter,
  is_listed, newest_first, list_rows, page_limit, last, cursor_of, page_of, list_jobs,
  encode_cursor,
}

-- A client that asks for a page and then for the next, as long as there is one.
unfoldable pub crawl : CursorFormat → ℕ → ListQuery → List Job → Result (List ListItem)
crawl fmt zero q jobs = ok []
crawl fmt (suc n) q jobs = do
  page ← list_jobs fmt q jobs
  elim page.next_cursor [
    | none ↦ ok page.items
    | some c ↦ do rest ← crawl fmt n (record q { cursor = some c }) jobs; ok (page.items ++ rest)
  ]

page_limit-pos : (n : Option ℤ) → 0 < page_limit n
page_limit-pos none = omega arith
page_limit-pos (some n) = ground arith

last_split :
    {A : Type 0} (xs : List A)
    → 0 < length xs
    → (ys : List A) × (r : A) × (xs ≡ ys ++ r ∷ []) × (last xs ≡ some r)
last_split [] h = absurd (omega arith)
last_split (x ∷ []) h = ([], x, refl, refl)
last_split (x ∷ y ∷ xs) h =
    let (ys, r, e, l) = last_split (y ∷ xs) (omega arith) in (x ∷ ys, r, ap (λ t. x ∷ t) e, l)

take_short : {A : Type 0} (n : ℕ) (xs : List A) → (length (take n xs) == n) ≡ false → take n xs ≡ xs
take_short zero xs h = cc
take_short (suc n) [] h = refl
take_short (suc n) (x ∷ xs) h = ap (λ t. x ∷ t) (take_short n xs (ground arith))

regroup :
    {A : Type 0} (ys front : List A) (r : A) (page rest zs : List A)
    → page ≡ front ++ r ∷ []
    → page ++ rest ≡ zs
    → ys ++ zs ≡ (ys ++ front) ++ r ∷ rest
regroup ys front r page rest zs e d =
    ap (λ l. ys ++ l) (sym d ∙ ap (λ l. l ++ rest) e) ∙ simp append_assoc

cursor_read :
    (fmt : CursorFormat) (r : Job)
    → cursor_filter fmt (some (encode_cursor fmt (cursor_of r))) ≡ ok (some (cursor_of r))
cursor_read fmt r =
    rw (fmt.decode-encode (fmt.to_json (cursor_of r)), fmt.from_json-to_json (cursor_of r))

drop_lt :
    {A : Type 0} (limit n : ℕ) (zs : List A)
    → 0 < length (take limit zs)
    → length zs < suc n
    → length (drop limit zs) < n
drop_lt zero n zs h k = absurd (omega arith)
drop_lt (suc m) n [] h k = absurd (omega arith)
drop_lt (suc m) n (z ∷ zs) h k = omega (arith, length-drop m zs)

abbrev next_pages : (Text → Result (List ListItem)) → Page → Result (List ListItem)
next_pages ask page = elim page.next_cursor [
  | none ↦ ok page.items
  | some c ↦ do rest ← ask c; ok (page.items ++ rest)
]

module _ (fmt : CursorFormat) (jobs : List Job) (n : ℕ) (q : ListQuery) where
  ask : Text → Result (List ListItem)
  ask c = crawl fmt n (record q { cursor = some c }) jobs

  crawl-suc : crawl fmt (suc n) q jobs ≡ (list_jobs fmt q jobs >>= next_pages ask)
  unfolding crawl ask
  crawl-suc = refl

  module _ (zs : List Job)
      (e : list_jobs fmt q jobs
        ≡ ok (page_of fmt (page_limit q.limit) (take (page_limit q.limit) zs))) where
    -- A short page is the last.
    crawl_last :
        (length (take (page_limit q.limit) zs) == page_limit q.limit) ≡ false
        → crawl fmt (suc n) q jobs ≡ ok (map list_item zs)
    crawl_last short =
        crawl-suc
        ∙ rw (e, short) (ap (λ l. ok (map list_item l)) (take_short (page_limit q.limit) zs short))

    crawl_more :
        (r : Job)
        → (length (take (page_limit q.limit) zs) == page_limit q.limit) ≡ true
        → last (take (page_limit q.limit) zs) ≡ some r
        → crawl fmt n (record q { cursor = some (encode_cursor fmt (cursor_of r)) }) jobs
          ≡ ok (map list_item (drop (page_limit q.limit) zs))
        → crawl fmt (suc n) q jobs ≡ ok (map list_item zs)
    unfolding ask
    crawl_more r full l rest =
        crawl-suc
        ∙ rw (e, full, l, rest)
            (ap ok (
              sym
                (map-append list_item (take (page_limit q.limit) zs) (drop (page_limit q.limit) zs))
              ∙ ap (map list_item) (take-append-drop (page_limit q.limit) zs)))

newest_first_trans :
    (a b c : Job) → newest_first a b ≡ true → newest_first b c ≡ true → newest_first a c ≡ true
newest_first_trans a b c h k = key_lt_trans c b a k h

AllComparable-newest :
    (jobs : List Job) → AllComparable key_lt jobs → AllComparable newest_first jobs
AllComparable-newest [] c = tt
AllComparable-newest (j ∷ js) c =
    (All-mono js (λ k d. elim d [ inl h ↦ inr h | inr h ↦ inl h ]) c.0, AllComparable-newest js c.1)

module _ (st : Option Status) (input : Option ℕ) (jobs : List Job) (u : UniqueIds jobs) where
  listed : List Job
  listed = list_rows st input none jobs

  comparable : AllComparable newest_first (select_where (is_listed st input) jobs)
  comparable =
      AllComparable-select_where newest_first (is_listed st input) jobs
        (AllComparable-newest jobs (UniqueIds-AllComparable jobs u))

  listed_lem : listed ≡ order_by newest_first (select_where (is_listed st input) jobs)
  unfolding listed list_rows
  listed_lem = ap (order_by newest_first) (select_true jobs)
    where
      select_true :
          (rows : List Job)
          → select_where (λ j. is_listed st input j && true) rows
            ≡ select_where (is_listed st input) rows
      select_true rows = ap (λ w. select_where w rows) (fun_ext λ j. ground arith)

  -- The rows past the cursor of `r` are those that follow `r` in the whole list.
  list_rows_after :
      (ys : List Job) (r : Job) (zs : List Job)
      → listed ≡ ys ++ r ∷ zs
      → list_rows st input (some (cursor_of r)) jobs ≡ zs
  unfolding list_rows
  list_rows_after ys r zs e =
      ap (order_by newest_first)
        (sym (select_where-select_where (newest_first r) (is_listed st input) jobs))
      ∙ order_by-select_where newest_first newest_first_trans (newest_first r)
          (select_where (is_listed st input) jobs) comparable
      ∙ ap (select_where (newest_first r)) (sym listed_lem ∙ e)
      ∙ select_after newest_first newest_first_trans key_lt_irrefl ys r zs (
          subst (IsOrdered newest_first) (sym listed_lem ∙ e) (
            order_by-IsOrdered newest_first newest_first_trans
              (select_where (is_listed st input) jobs) comparable))

  module _ (fmt : CursorFormat) where
    list_jobs_lem :
        (q : ListQuery) (c : Option Cursor) (zs : List Job)
        → status_filter q.status ≡ ok st
        → cursor_filter fmt q.cursor ≡ ok c
        → q.input_id ≡ input
        → list_rows st input c jobs ≡ zs
        → list_jobs fmt q jobs
          ≡ ok (page_of fmt (page_limit q.limit) (take (page_limit q.limit) zs))
    unfolding list_jobs
    list_jobs_lem q c zs es ec ei ez = rw (es, ec, ei, ez)

    -- From any point of the list on, the pages add up to the rest of it.
    abbrev Crawls : ℕ → Type 0
    Crawls n =
        (q : ListQuery) (c : Option Cursor) (ys zs : List Job)
        → status_filter q.status ≡ ok st
        → cursor_filter fmt q.cursor ≡ ok c
        → q.input_id ≡ input
        → list_rows st input c jobs ≡ zs
        → listed ≡ ys ++ zs
        → length zs < n
        → crawl fmt n q jobs ≡ ok (map list_item zs)

    crawl_step : (n : ℕ) → Crawls n → Crawls (suc n)
    crawl_step n ih q c ys zs es ec ei ez el h =
        elim (Bool-cases (length (take limit zs) == limit)) [
          | inr short ↦ crawl_last fmt jobs n q zs (list_jobs_lem q c zs es ec ei ez) short
          | inl full ↦
              let some_left : 0 < length (take limit zs) = ground (arith, page_limit-pos q.limit) in
              let (front, r, e, l) = last_split (take limit zs) some_left in
              crawl_more fmt jobs n q zs (list_jobs_lem q c zs es ec ei ez) r full l
                (next_page front r e (drop_lt limit n zs some_left h))
        ]
      where
        limit : ℕ
        limit = page_limit q.limit

        next_page :
            (front : List Job) (r : Job)
            → take limit zs ≡ front ++ r ∷ []
            → length (drop limit zs) < n
            → crawl fmt n (record q { cursor = some (encode_cursor fmt (cursor_of r)) }) jobs
              ≡ ok (map list_item (drop limit zs))
        next_page front r e fewer =
            let split =
              el
              ∙ regroup ys front r (take limit zs) (drop limit zs) zs e
                  (take-append-drop limit zs) in
            ih (record q { cursor = some (encode_cursor fmt (cursor_of r)) }) (some (cursor_of r))
              ((ys ++ front) ++ r ∷ []) (drop limit zs) es (cursor_read fmt r) ei
              (list_rows_after (ys ++ front) r (drop limit zs) split)
              (split ∙ sym (append_assoc (ys ++ front) (r ∷ []) (drop limit zs))) fewer

    crawl_from : (n : ℕ) → Crawls n
    crawl_from zero = λ q c ys zs es ec ei ez el h. absurd (omega arith)
    crawl_from (suc n) = crawl_step n (crawl_from n)

-- In a table with unique ids, a client that lists jobs with any status, input and page size that are
-- accepted, and follows `next_cursor` to the end, gets exactly the jobs that match and are not
-- deleted, newest first, each once; more requests than there are such jobs are never needed.
pub crawl-list_rows :
    (fmt : CursorFormat) (q : ListQuery) (jobs : List Job) (st : Option Status) (n : ℕ)
    → UniqueIds jobs
    → status_filter q.status ≡ ok st
    → q.cursor ≡ none
    → length (list_rows st q.input_id none jobs) < n
    → crawl fmt n q jobs ≡ ok (map list_item (list_rows st q.input_id none jobs))
crawl-list_rows fmt q jobs st n u es ec h =
    crawl_from st q.input_id jobs u fmt n q none [] (list_rows st q.input_id none jobs) es (rw ec)
      refl refl (unfold listed in refl) h
