-- ===== src/Prompts/Refines.antt =====
-- src/custom_prompts.rs as a map from ids to prompts: the table with its deleted rows is an
-- implementation of it.
use zun_rust_server.Prelude.{
  ℕ, suc, ◌≡◌, refl, sym, ◌∙◌, Bool, true, false, List, [], ◌∷◌, ◌++◌, Option, none, some, arith,
  inl, inr, Bool-cases, Option-cases, ◌==◌, if◌then◌else◌, is_none, &&_left,
}
use mathlib.Core.Path.{fun_ext}
use zun_rust_server.Prelude.Int.{ℤ}
use zun_rust_server.Error.{AppError, Result, ok, err, not_found, Result-cases}
use zun_rust_server.Sql.{fetch_optional, count_where, update_where}
use zun_rust_server.Sql.Update.{fetch_optional-append_one, fetch_optional-update_where_gone}
use zun_rust_server.Server.{Prompt}
use zun_rust_server.Workflow.Registry.{WorkflowRegistry}
use zun_rust_server.Prompts.{
  CreatePrompt, UpdatePrompt, validate_create, validate_update, created_row, updated_row, store_row,
  is_prompt, fetch, max_id, create, list, get_one, update, delete, or_keep,
}
use zun_rust_server.Prompts.Valid.{IsValid, validate_create_lem, validate_update_lem}
use zun_rust_server.Prompts.Rows.{
  IsCreated, IsUpdated, Takes, validate_create_complete, validate_update_complete,
}
use zun_rust_server.Prompts.Listing.{
  Pairwise, OtherId, Lists, list-Lists, OtherId-update_where, OtherId-created_row,
}
use zun_rust_server.Prompts.Crud.{fetch_above, fetch_stored, fetch_created}

-- The abstract catalog.
abbrev pub Catalog : Type 0
Catalog = ℕ → Option Prompt

abbrev pub view : List Prompt → Catalog
view prompts id = fetch id prompts

abbrev pub set_at : ℕ → Option Prompt → Catalog → Catalog
set_at id p c j = if id == j then p else c j

pub data Request : Type 0 where
  create_prompt : CreatePrompt → Request
  list_prompts : Request
  get_prompt : ℕ → Request
  update_prompt : ℕ → UpdatePrompt → Request
  delete_prompt : ℕ → Request

pub data Answer : Type 0 where
  row : Result Prompt → Answer
  items : List Prompt → Answer
  status : Result ℕ → Answer

-- What a request may do to the abstract catalog, and what it answers.
pub data Step (registry : WorkflowRegistry) (now : ℤ)
    : Request → Catalog → Answer → Catalog → Type 0 where
  creates :
      {c : Catalog} (body : CreatePrompt) (id : ℕ) (p : Prompt)
      → IsCreated now id body p
      → IsValid registry p
      → c id ≡ none
      → Step registry now (create_prompt body) c (row (ok p)) (set_at id (some p) c)
  refuses_create :
      {c : Catalog} (body : CreatePrompt) (e : AppError)
      → ((id : ℕ) (p : Prompt) → IsCreated now id body p → ¬ IsValid registry p)
      → Step registry now (create_prompt body) c (row (err e)) c
  lists :
      {c : Catalog} (rows : List Prompt)
      → Lists c rows
      → Step registry now list_prompts c (items rows) c
  gets :
      {c : Catalog} (id : ℕ) (p : Prompt)
      → c id ≡ some p
      → Step registry now (get_prompt id) c (row (ok p)) c
  misses_get :
      {c : Catalog} (id : ℕ)
      → c id ≡ none
      → Step registry now (get_prompt id) c (row (err not_found)) c
  updates :
      {c : Catalog} (id : ℕ) (body : UpdatePrompt) (old new : Prompt)
      → c id ≡ some old
      → IsUpdated now body old new
      → (IsValid registry old → IsValid registry new)
      → Step registry now (update_prompt id body) c (row (ok new)) (set_at id (some new) c)
  refuses_update :
      {c : Catalog} (id : ℕ) (body : UpdatePrompt) (old : Prompt) (e : AppError)
      → c id ≡ some old
      → ((new : Prompt) → IsUpdated now body old new → ¬ IsValid registry new)
      → Step registry now (update_prompt id body) c (row (err e)) c
  misses_update :
      {c : Catalog} (id : ℕ) (body : UpdatePrompt)
      → c id ≡ none
      → Step registry now (update_prompt id body) c (row (err not_found)) c
  deletes :
      {c : Catalog} (id : ℕ) (old : Prompt)
      → c id ≡ some old
      → Step registry now (delete_prompt id) c (status (ok 204)) (set_at id none c)
  misses_delete :
      {c : Catalog} (id : ℕ)
      → c id ≡ none
      → Step registry now (delete_prompt id) c (status (err not_found)) c

-- The handlers.
abbrev pub as_row : Result Prompt × List Prompt → Answer × List Prompt
as_row (r, prompts) = (row r, prompts)

abbrev pub as_status : Result ℕ × List Prompt → Answer × List Prompt
as_status (r, prompts) = (status r, prompts)

unfoldable pub handle : WorkflowRegistry → ℤ → Request → List Prompt → Answer × List Prompt
unfolding create list get_one update delete
handle registry now (create_prompt body) prompts = as_row (create registry now body prompts)
handle registry now list_prompts prompts = (items (list prompts), prompts)
handle registry now (get_prompt id) prompts = (row (get_one id prompts), prompts)
handle registry now (update_prompt id body) prompts = as_row (update registry now id body prompts)
handle registry now (delete_prompt id) prompts = as_status (delete now id prompts)

fetch_other :
    (j : ℕ) (w : Prompt → Bool) (f : Prompt → Prompt) (prompts : List Prompt)
    → ((p : Prompt) → w p ≡ true → (is_prompt j p ≡ false) × (is_prompt j (f p) ≡ false))
    → fetch j (update_where w f prompts) ≡ fetch j prompts
unfolding fetch fetch_optional update_where
fetch_other j w f [] apart = refl
fetch_other j w f (p ∷ ps) apart = elim (Bool-cases (w p)) [
  | inl hit ↦ rw hit (rw ((apart p hit).0, (apart p hit).1) (fetch_other j w f ps apart))
  | inr miss ↦ elim (Bool-cases (is_prompt j p)) [
    | inl found ↦ rw miss (rw found refl)
    | inr other ↦ rw miss (rw other (fetch_other j w f ps apart))
  ]
]

fetch-create :
    (now : ℤ) (body : CreatePrompt) (prompts : List Prompt) (j : ℕ)
    → let id = suc (max_id prompts) in
      fetch j (prompts ++ created_row now id body ∷ [])
      ≡ set_at id (some (created_row now id body)) (view prompts) j
unfolding fetch
fetch-create now body prompts j =
    let id = suc (max_id prompts) in
    let last = fetch_optional-append_one (is_prompt j) prompts (created_row now id body) in
    elim (Bool-cases (id == j)) [
      | inl hit ↦
          let same : id ≡ j = ground (arith, hit) in
          rw hit (rw (sym same) (fetch_created now body prompts))
      | inr miss ↦ rw miss (
          last ∙ elim (Option-cases (fetch_optional (is_prompt j) prompts)) [
            | inl e ↦ rw (e, miss) refl
            | inr (p, e) ↦ rw e refl
          ])
    ]

is_prompt_apart :
    (id j : ℕ) (p : Prompt) → (id == j) ≡ false → (p.id == id) ≡ true → is_prompt j p ≡ false
is_prompt_apart id j p miss hit = ground (arith, miss, hit)

-- An UPDATE of rows of an id sets what the id finds.
fetch-update_where :
    (id : ℕ) (w : Prompt → Bool) (f : Prompt → Prompt) (found : Option Prompt)
    (prompts : List Prompt)
    → ((p : Prompt) → w p ≡ true → (p.id == id) ≡ true)
    → ((p : Prompt) → (f p).id ≡ p.id)
    → fetch id (update_where w f prompts) ≡ found
    → (j : ℕ) → fetch j (update_where w f prompts) ≡ set_at id found (view prompts) j
fetch-update_where id w f found prompts only keep here j = elim (Bool-cases (id == j)) [
  | inl hit ↦ let same : id ≡ j = ground (arith, hit) in rw hit (rw (sym same) here)
  | inr miss ↦ rw miss (
      fetch_other j w f prompts (λ p h. (
        is_prompt_apart id j p miss (only p h),
        is_prompt_apart id j (f p) miss (rw (keep p) (only p h)),
      )))
]

-- A set to what is there changes nothing.
set_at_same : (id : ℕ) (found : Option Prompt) (c : Catalog) → c id ≡ found → set_at id found c ≡ c
set_at_same id found c here = fun_ext (λ j. elim (Bool-cases (id == j)) [
  | inl hit ↦ let same : id ≡ j = ground (arith, hit) in rw hit (rw (sym same) (sym here))
  | inr miss ↦ rw miss refl
])

-- A check that refuses does not pass.
refused : (r : Result (Unit {0})) (e : AppError) → r ≡ err e → ¬ (r ≡ ok tt)
refused r e h k = cc

keeps_update : {A : Type 0} → (o : Option A) (old : A) → Takes o old (or_keep o old)
keeps_update none old = refl
keeps_update (some a) old = refl

updated_row-IsUpdated :
    (now : ℤ) (body : UpdatePrompt) (p : Prompt) → IsUpdated now body p (updated_row now body p)
updated_row-IsUpdated now body p = record {
  same_id = refl;
  label_is = keeps_update body.label p.label;
  description_is = keeps_update body.description p.description;
  text_is = keeps_update body.text p.text;
  workflow_is = keeps_update body.workflow p.workflow;
  timeout_is = keeps_update body.timeout_seconds p.timeout_seconds;
  same_created = refl;
  updated_now = refl;
  same_deleted = refl;
}

created_row-IsCreated :
    (now : ℤ) (id : ℕ) (body : CreatePrompt) → IsCreated now id body (created_row now id body)
created_row-IsCreated now id body = record {
  id_is = refl;
  label_is = refl;
  description_is = refl;
  text_is = refl;
  workflow_is = refl;
  timeout_is = refl;
  created_now = refl;
  updated_now = refl;
  live = refl;
}

create-Step :
    (registry : WorkflowRegistry) (now : ℤ) (body : CreatePrompt) (prompts : List Prompt)
    → Pairwise OtherId prompts
    → let (answer, prompts') = create registry now body prompts in
      Step registry now (create_prompt body) (view prompts) (row answer) (view prompts')
      × Pairwise OtherId prompts'
unfolding create
create-Step registry now body prompts u = elim (Result-cases (validate_create registry body)) [
  | inr (e, bad) ↦
      rw (create, bad)
        (
          refuses_create body e (λ id p made valid.
              refused _ e bad (validate_create_complete registry now id body p made valid)),
          u,
        )
  | inl passed ↦
      let id = suc (max_id prompts) in
      let seen = fun_ext (fetch-create now body prompts) in
      rw (create, passed)
        (
          rw (fetch_created now body prompts) (
              rw seen (
                creates body id (created_row now id body) (created_row-IsCreated now id body)
                  (validate_create_lem registry now id body passed)
                  (fetch_above id prompts (omega arith)))),
          OtherId-created_row now body prompts u,
        )
]

get-Step :
    (registry : WorkflowRegistry) (now : ℤ) (id : ℕ) (prompts : List Prompt)
    → Step registry now (get_prompt id) (view prompts) (row (get_one id prompts)) (view prompts)
unfolding get_one
get-Step registry now id prompts = elim (Option-cases (fetch id prompts)) [
  | inl missing ↦ rw missing (misses_get id missing)
  | inr (p, found) ↦ rw found (gets id p found)
]

update-Step :
    (registry : WorkflowRegistry) (now : ℤ) (id : ℕ) (body : UpdatePrompt) (prompts : List Prompt)
    → Pairwise OtherId prompts
    → let (answer, prompts') = update registry now id body prompts in
      Step registry now (update_prompt id body) (view prompts) (row answer) (view prompts')
      × Pairwise OtherId prompts'
unfolding update
update-Step registry now id body prompts u = elim (Option-cases (fetch id prompts)) [
  | inl missing ↦ rw (update, missing) (misses_update id body missing, u)
  | inr (current, found) ↦ elim (Result-cases (validate_update registry body)) [
    | inr (e, bad) ↦
        rw (update, found)
          (rw bad (
            refuses_update id body current e found (λ new asked valid.
                refused _ e bad
                  (validate_update_complete registry now body current new asked valid)),
            u,
          ))
    | inl passed ↦
        let new = updated_row now body current in
        let stored = fetch_stored id new current prompts found in
        let seen = fun_ext (
          fetch-update_where id (λ p. p.id == id) (store_row new) (some new) prompts (λ p h. h)
            (λ p. refl) stored) in
        rw (update, found)
          (rw passed (
            rw stored (
                rw seen (
                  updates id body current new found (updated_row-IsUpdated now body current)
                    (validate_update_lem registry now body current passed))),
            OtherId-update_where (λ p. p.id == id) (store_row new) prompts (λ p. refl) u,
          ))
  ]
]

count_where-none :
    {A : Type 0}
    → (w : A → Bool) (rows : List A) → fetch_optional w rows ≡ none
    → count_where w rows ≡ 0
unfolding fetch_optional count_where
count_where-none w [] h = refl
count_where-none w (r ∷ rs) h = ground (arith, count_where-none w rs)

count_where-some :
    {A : Type 0}
    → (w : A → Bool) (rows : List A) (r : A) → fetch_optional w rows ≡ some r
    → (count_where w rows == 0) ≡ false
unfolding fetch_optional count_where
count_where-some w [] r h = cc
count_where-some w (x ∷ rs) r h = ground (arith, count_where-some w rs r)

delete-Step :
    (registry : WorkflowRegistry) (now : ℤ) (id : ℕ) (prompts : List Prompt)
    → Pairwise OtherId prompts
    → let (answer, prompts') = delete now id prompts in
      Step registry now (delete_prompt id) (view prompts) (status answer) (view prompts')
      × Pairwise OtherId prompts'
unfolding delete fetch
delete-Step registry now id prompts u =
    let mark : Prompt → Prompt = λ p. record p { deleted_at = some now } in
    let gone = fetch_optional-update_where_gone (is_prompt id) mark prompts (λ p h. ground arith) in
    let seen = fun_ext (
      fetch-update_where id (is_prompt id) mark none prompts
        (λ p h. &&_left (p.id == id) (is_none p.deleted_at) h) (λ p. refl) gone) in
    let kept = OtherId-update_where (is_prompt id) mark prompts (λ p. refl) u in
    elim (Option-cases (fetch_optional (is_prompt id) prompts)) [
      | inl missing ↦
          rw (delete, count_where-none (is_prompt id) prompts missing)
            (
              rw seen (rw (set_at_same id none (view prompts) missing) (misses_delete id missing)),
              kept,
            )
      | inr (current, found) ↦
          rw (delete, count_where-some (is_prompt id) prompts current found)
            (rw seen (deletes id current found), kept)
    ]

-- If no two rows have the same id, every request to the catalog, refused ones included, answers and
-- does what a map from ids to prompts would, and leaves no two rows with the same id: a new row is
-- the body's under a free id and is valid, a changed one takes the fields that the body has and is
-- valid if it was, a refused one would not be valid, and a list has the live rows, each once and by
-- the time of their creation.
pub handle-Step :
    (registry : WorkflowRegistry) (now : ℤ) (req : Request) (prompts : List Prompt)
    → Pairwise OtherId prompts
    → let (answer, prompts') = handle registry now req prompts in
      Step registry now req (view prompts) answer (view prompts') × Pairwise OtherId prompts'
unfolding handle
handle-Step registry now (create_prompt body) prompts u = create-Step registry now body prompts u
handle-Step registry now list_prompts prompts u = (lists (list prompts) (list-Lists prompts u), u)
handle-Step registry now (get_prompt id) prompts u = (get-Step registry now id prompts, u)
handle-Step registry now (update_prompt id body) prompts u =
    update-Step registry now id body prompts u
handle-Step registry now (delete_prompt id) prompts u = delete-Step registry now id prompts u
