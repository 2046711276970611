-- ===== src/Prompts/Crud.antt =====
-- What the handlers of the catalog answer, and what a later read sees.
use zun_rust_server.Prelude.{
  ℕ, suc, ◌<◌, ◌≡◌, refl, ◌∙◌, true, false, List, [], ◌∷◌, ◌++◌, none, some, arith, inl, inr,
  Bool-cases, ◌==◌,
}
use zun_rust_server.Prelude.Int.{ℤ}
use zun_rust_server.Error.{AppError, ok, err, not_found}
use zun_rust_server.Sql.{fetch_optional, count_where, update_where}
use zun_rust_server.Sql.Update.{
  fetch_optional-append_one, fetch_optional-update_where, fetch_optional_test,
  fetch_optional-update_where_gone, count_where-update_where_gone,
}
use zun_rust_server.Server.{Prompt}
use zun_rust_server.Workflow.Registry.{WorkflowRegistry}
use zun_rust_server.Prompts.{
  CreatePrompt, UpdatePrompt, validate_create, validate_update, created_row, updated_row, store_row,
  is_prompt, fetch, max_id, create, get_one, update, delete,
}

-- An id above all is free.
pub fetch_above : (id : ℕ) (prompts : List Prompt) → max_id prompts < id → fetch id prompts ≡ none
unfolding fetch fetch_optional max_id
fetch_above id [] h = refl
fetch_above id (p ∷ ps) h = ground (arith, fetch_above id ps)

pub fetch_created :
    (now : ℤ) (body : CreatePrompt) (prompts : List Prompt)
    → let id = suc (max_id prompts) in
      fetch id (prompts ++ created_row now id body ∷ []) ≡ some (created_row now id body)
unfolding fetch
fetch_created now body prompts =
    let id = suc (max_id prompts) in
    let free : fetch_optional (is_prompt id) prompts ≡ none =
      unfold fetch in fetch_above id prompts (omega arith) in
    fetch_optional-append_one (is_prompt id) prompts (created_row now id body)
    ∙ ground (arith, free)

-- A prompt that passes the checks is stored under a new id: the answer is its row, and a later read
-- of the id gives that row.
pub get_one-create :
    (registry : WorkflowRegistry) (now : ℤ) (body : CreatePrompt) (prompts : List Prompt)
    → validate_create registry body ≡ ok tt
    → let id = suc (max_id prompts) in
      let (answer, prompts') = create registry now body prompts in
      (answer ≡ ok (created_row now id body))
      × (get_one id prompts' ≡ ok (created_row now id body))
      × (fetch id prompts ≡ none)
unfolding create get_one
get_one-create registry now body prompts passed =
    let here = fetch_created now body prompts in
    (ground arith, ground arith, fetch_above (suc (max_id prompts)) prompts (omega arith))

pub fetch_stored :
    (id : ℕ) (new current : Prompt) (prompts : List Prompt)
    → fetch id prompts ≡ some current
    → fetch id (update_where (λ p. p.id == id) (store_row new) prompts)
      ≡ some (store_row new current)
unfolding fetch
fetch_stored id new current prompts found =
    let hit : is_prompt id current ≡ true =
      fetch_optional_test (is_prompt id) prompts current found in
    fetch_optional-update_where (is_prompt id) (λ p. p.id == id) (store_row new) prompts (λ r. refl)
    ∙ rw found (ground arith)

-- An update whose checks pass answers with the row as it was, but for the fields that the body has
-- and the time of the update, and a later read gives that row; a field that the body leaves out keeps
-- its value.
pub get_one-update :
    (registry : WorkflowRegistry) (now : ℤ) (id : ℕ) (body : UpdatePrompt) (prompts : List Prompt)
    (current : Prompt)
    → fetch id prompts ≡ some current
    → validate_update registry body ≡ ok tt
    → let (answer, prompts') = update registry now id body prompts in
      (answer ≡ ok (updated_row now body current))
      × (get_one id prompts' ≡ ok (updated_row now body current))
unfolding update get_one
get_one-update registry now id body prompts current found passed =
    let stored = fetch_stored id (updated_row now body current) current prompts found in
    (ground arith, ground arith)

-- A deleted prompt is no longer read: if the delete answers 204, the next read answers 404, and so
-- does the next delete.
pub get_one-delete :
    (now later : ℤ) (id : ℕ) (prompts : List Prompt)
    → (delete now id prompts).0 ≡ ok 204
    → (get_one id (delete now id prompts).1 ≡ err not_found)
      × ((delete later id (delete now id prompts).1).0 ≡ err not_found)
unfolding delete get_one fetch
get_one-delete now later id prompts done =
    elim (Bool-cases (count_where (is_prompt id) prompts == 0)) [
      | inl e ↦ absurd (ground (arith, e))
      | inr e ↦
          let mark : Prompt → Prompt = λ p. record p { deleted_at = some now } in
          let gone : (r : Prompt) → is_prompt id r ≡ true → is_prompt id (mark r) ≡ false =
            λ r h. ground arith in
          rw e (
            rw (fetch_optional-update_where_gone (is_prompt id) mark prompts gone) refl,
            rw (count_where-update_where_gone (is_prompt id) mark prompts gone) refl,
          )
    ]

-- A request that is refused leaves the catalog as it was.
pub create_error_unchanged :
    (registry : WorkflowRegistry) (now : ℤ) (body : CreatePrompt) (prompts : List Prompt)
    (e : AppError)
    → (create registry now body prompts).0 ≡ err e
    → (create registry now body prompts).1 ≡ prompts
unfolding create
create_error_unchanged registry now body prompts e h =
    let here = fetch_created now body prompts in ground (arith, here)
