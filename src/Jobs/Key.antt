-- ===== src/Jobs/Key.antt =====
-- UPDATE ... WHERE id = ? AND ...: what it does to the table when ids are unique.
use zun_rust_server.Prelude.{
  ℕ, ◌≡◌, ◌≢◌, refl, sym, ap, ◌∙◌, subst, inl, inr, Bool, true, false, ◌&&◌, List, [], ◌∷◌, Option,
  none, some, arith, if◌then◌else◌, All, Bool-cases,
}
use zun_rust_server.Prelude.Int.{ℤ}
use zun_rust_server.Prelude.Text.{Text, text_eq, text_eq_iff}
use zun_rust_server.Sql.{fetch_optional, update_where, count_where}
use zun_rust_server.Sql.Update.{fetch_optional-update_where, fetch_optional_test}
use zun_rust_server.Jobs.{Status, Job, has_id, is_status, cancelled_row, cancel_where}
use zun_rust_server.Jobs.Consistent.{UniqueIds, Differs, UniqueIds-update_where}

abbrev pub one_if : (Job → Bool) → Option Job → ℕ
one_if w none = 0
one_if w (some j) = if w j then 1 else 0

count_none :
    (id : Text) (w : Job → Bool) (jobs : List Job)
    → All (Differs id) jobs
    → count_where (λ j. has_id id j && w j) jobs ≡ 0
unfolding count_where
count_none id w [] d = refl
count_none id w (j ∷ js) d = ground (arith, count_none id w js d.1)

-- `rows_affected` of such an update is 1 or 0, as the row of the id passes the rest of the test.
pub count_where-one_if :
    (id : Text) (w : Job → Bool) (jobs : List Job)
    → UniqueIds jobs
    → count_where (λ j. has_id id j && w j) jobs ≡ one_if w (fetch_optional (has_id id) jobs)
unfolding count_where fetch_optional
count_where-one_if id w [] u = refl
count_where-one_if id w (j ∷ js) u = elim (Bool-cases (has_id id j)) [
  | inl hit ↦
      let e : j.id ≡ id = (text_eq_iff j.id id).0 hit in
      ground (arith, hit, count_none id w js (subst (λ k. All (Differs k) js) e u.0))
  | inr miss ↦ ground (arith, miss, count_where-one_if id w js u.1)
]

-- The row of the id after it.
pub fetch_optional-update_id :
    (id : Text) (w : Job → Bool) (f : Job → Job) (jobs : List Job) (j : Job)
    → ((r : Job) → (f r).id ≡ r.id)
    → fetch_optional (has_id id) jobs ≡ some j
    → fetch_optional (has_id id) (update_where (λ r. has_id id r && w r) f jobs)
      ≡ some (if w j then f j else j)
fetch_optional-update_id id w f jobs j keep found =
    fetch_optional-update_where (has_id id) (λ r. has_id id r && w r) f jobs
      (λ r. ap (λ k. text_eq k id) (keep r))
    ∙ rw (found, fetch_optional_test (has_id id) jobs j found)

-- Every other row stays as it is.
pub fetch_optional-update_other :
    (id id' : Text) (w : Job → Bool) (f : Job → Job) (jobs : List Job)
    → ((r : Job) → (f r).id ≡ r.id)
    → id ≢ id'
    → fetch_optional (has_id id') (update_where (λ r. has_id id r && w r) f jobs)
      ≡ fetch_optional (has_id id') jobs
unfolding fetch_optional update_where
fetch_optional-update_other id id' w f [] keep d = refl
fetch_optional-update_other id id' w f (j ∷ js) keep d = ground (
  arith,
  keep j,
  text_eq_iff j.id id,
  text_eq_iff j.id id',
  fetch_optional-update_other id id' w f js keep d,
)

-- A test that the row of the id does not pass leaves the table as it is.
update_where_none :
    (id : Text) (w : Job → Bool) (f : Job → Job) (jobs : List Job)
    → All (Differs id) jobs
    → update_where (λ j. has_id id j && w j) f jobs ≡ jobs
unfolding update_where
update_where_none id w f [] d = refl
update_where_none id w f (j ∷ js) d = rw (d.0, update_where_none id w f js d.1)

pub update_where_miss :
    (id : Text) (w : Job → Bool) (f : Job → Job) (jobs : List Job)
    → UniqueIds jobs
    → one_if w (fetch_optional (has_id id) jobs) ≡ 0
    → update_where (λ j. has_id id j && w j) f jobs ≡ jobs
unfolding update_where fetch_optional
update_where_miss id w f [] u z = refl
update_where_miss id w f (j ∷ js) u z = elim (Bool-cases (has_id id j)) [
  | inl hit ↦
      let e : j.id ≡ id = (text_eq_iff j.id id).0 hit in
      let rest = update_where_none id w f js (subst (λ k. All (Differs k) js) e u.0) in
      ground (arith, hit, rest)
  | inr miss ↦ ground (arith, miss, update_where_miss id w f js u.1)
]

-- What holds of the row of an id holds of all rows with the id.
pub All-of_id :
    (P : Job → Type 0) (id : Text) (jobs : List Job) (j : Job)
    → UniqueIds jobs
    → fetch_optional (has_id id) jobs ≡ some j
    → P j
    → All (λ r. has_id id r ≡ true → P r) jobs
unfolding fetch_optional
All-of_id P id [] j u found p = tt
All-of_id P id (x ∷ xs) j u found p = elim (Bool-cases (has_id id x)) [
  | inl hit ↦
      let e : x ≡ j = some_inj (rw hit at found) in
      let q : x.id ≡ id = (text_eq_iff x.id id).0 hit in
      (λ h. subst P (sym e) p, others xs (subst (λ k. All (Differs k) xs) q u.0))
  | inr miss ↦ (λ h. absurd (cc (miss, h)), All-of_id P id xs j u.1 (rw miss at found) p)
]
  where
    some_inj : {a b : Job} → some a ≡ some b → a ≡ b
    some_inj e = cc

    others : (rows : List Job) → All (Differs id) rows → All (λ r. has_id id r ≡ true → P r) rows
    others [] d = tt
    others (r ∷ rs) d = (λ h. absurd (let m = d.0 in cc (m, h)), others rs d.1)

-- What an UPDATE of `cancel_job` that asks for the status `st` does to the row `j` of its id.
pub record CancelsRow (st : Status) (now : ℤ) (id : Text) (jobs : List Job) (j : Job) : Type 0 where
  pub affected : (cancel_where st now id jobs).1 ≡ (if is_status j.status st then 1 else 0)
  pub row :
      fetch_optional (has_id id) (cancel_where st now id jobs).0
      ≡ some (if is_status j.status st then cancelled_row now j else j)
  pub unique : UniqueIds (cancel_where st now id jobs).0
  pub missed : is_status j.status st ≡ false → (cancel_where st now id jobs).0 ≡ jobs

pub cancel_where-CancelsRow :
    (st : Status) (now : ℤ) (id : Text) (jobs : List Job) (j : Job)
    → UniqueIds jobs
    → fetch_optional (has_id id) jobs ≡ some j
    → CancelsRow st now id jobs j
unfolding cancel_where
cancel_where-CancelsRow st now id jobs j u found = record {
  affected = count_where-one_if id (λ r. is_status r.status st) jobs u ∙ rw found;
  row =
      fetch_optional-update_id id (λ r. is_status r.status st) (cancelled_row now) jobs j
        (λ r. refl) found;
  unique = UniqueIds-update_where _ (cancelled_row now) jobs (λ r. refl) u;
  missed = λ e.
      update_where_miss id (λ r. is_status r.status st) (cancelled_row now) jobs u (rw (found, e));
}
