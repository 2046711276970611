-- ===== src/Prompts/Valid.antt =====
-- Every prompt of the catalog meets the bounds, whatever requests came before.
use zun_rust_server.Prelude.{
  ℕ, suc, ◌≤◌, ◌≡◌, true, false, List, [], ◌∷◌, Option, none, some, arith, All, Option-cases, inl,
  inr, Bool-cases, ◌==◌,
}
use zun_rust_server.Prelude.Int.{ℤ}
use zun_rust_server.Prelude.Text.{Text, len, is_blank}
use zun_rust_server.Limits.{max_prompt_len, max_label_len, max_description_len, is_accepted_timeout}
use zun_rust_server.Error.{Result, ok, >>-eq-ok, fail_if_passes, Result-cases}
use zun_rust_server.Sql.{count_where, update_where}
use zun_rust_server.Sql.Update.{All-update_where, All-append_one, All-fetch_optional}
use zun_rust_server.Server.{Prompt}
use zun_rust_server.Workflow.Registry.{WorkflowRegistry, supports, Checked}
use zun_rust_server.Prompts.{
  CreatePrompt, UpdatePrompt, Field, validate_len, validate_timeout, validate_workflow,
  validate_label, validate_text, validate_description, validate_create, validate_update,
  created_row, updated_row, store_row, is_prompt, fetch, max_id, create, update, delete,
  check_given, or_keep,
}

abbrev pub DescriptionFits : Option Text → Type 0
DescriptionFits none = Unit
DescriptionFits (some d) = len d ≤ max_description_len

abbrev pub TimeoutFits : Option ℤ → Type 0
TimeoutFits none = Unit
TimeoutFits (some t) = is_accepted_timeout t ≡ true

pub record IsValid (registry : WorkflowRegistry) (p : Prompt) : Type 0 where
  pub label_filled : is_blank p.label ≡ false
  pub label_fits : len p.label ≤ max_label_len
  pub text_filled : is_blank p.text ≡ false
  pub text_fits : len p.text ≤ max_prompt_len
  pub description_fits : DescriptionFits p.description
  pub workflow_supported : supports registry p.workflow ≡ Checked.ok tt
  pub timeout_fits : TimeoutFits p.timeout_seconds

validate_len_lem :
    (f : Field) (value : Text) (max : ℕ) → validate_len f value max ≡ ok tt → len value ≤ max
unfolding validate_len
validate_len_lem f value max h = ground arith

validate_description_lem : (d : Option Text) → validate_description d ≡ ok tt → DescriptionFits d
unfolding validate_description
validate_description_lem none h = tt
validate_description_lem (some d) h = validate_len_lem _ d max_description_len h

validate_timeout_lem : (t : Option ℤ) → validate_timeout t ≡ ok tt → TimeoutFits t
unfolding validate_timeout
validate_timeout_lem none h = tt
validate_timeout_lem (some t) h = ground arith

validate_workflow_lem :
    (registry : WorkflowRegistry) (name : Text)
    → validate_workflow registry name ≡ ok tt
    → supports registry name ≡ Checked.ok tt
unfolding validate_workflow
validate_workflow_lem registry name h = ground arith

pub validate_create_lem :
    (registry : WorkflowRegistry) (now : ℤ) (id : ℕ) (body : CreatePrompt)
    → validate_create registry body ≡ ok tt
    → IsValid registry (created_row now id body)
unfolding validate_create
validate_create_lem registry now id body h =
    let (label_ok, h1) = >>-eq-ok _ _ h in
    let (text_ok, h2) = >>-eq-ok _ _ h1 in
    let (label_len, h3) = >>-eq-ok _ _ h2 in
    let (text_len, h4) = >>-eq-ok _ _ h3 in
    let (description_ok, h5) = >>-eq-ok _ _ h4 in
    let (workflow_ok, timeout_ok) = >>-eq-ok _ _ h5 in
    record {
      label_filled = fail_if_passes _ _ label_ok;
      label_fits = validate_len_lem _ _ _ label_len;
      text_filled = fail_if_passes _ _ text_ok;
      text_fits = validate_len_lem _ _ _ text_len;
      description_fits = validate_description_lem body.description description_ok;
      workflow_supported = validate_workflow_lem registry body.workflow workflow_ok;
      timeout_fits = validate_timeout_lem body.timeout_seconds timeout_ok;
    }

validate_label_lem :
    (t : Text) → validate_label t ≡ ok tt → (is_blank t ≡ false) × (len t ≤ max_label_len)
unfolding validate_label
validate_label_lem t h =
    let (filled, fits) = >>-eq-ok _ _ h in (fail_if_passes _ _ filled, validate_len_lem _ _ _ fits)

validate_text_lem :
    (t : Text) → validate_text t ≡ ok tt → (is_blank t ≡ false) × (len t ≤ max_prompt_len)
unfolding validate_text
validate_text_lem t h =
    let (filled, fits) = >>-eq-ok _ _ h in (fail_if_passes _ _ filled, validate_len_lem _ _ _ fits)

-- What a check of a given field gives for the field's new value, beside the old one's.
or_keep_lem :
    {A : Type 0} (P : A → Type 0) (check : A → Result (Unit {0})) (o : Option A) (old : A)
    → ((a : A) → check a ≡ ok tt → P a)
    → check_given check o ≡ ok tt
    → P old
    → P (or_keep o old)
or_keep_lem P check none old sound h p = p
or_keep_lem P check (some a) old sound h p = sound a h

pub validate_update_lem :
    (registry : WorkflowRegistry) (now : ℤ) (body : UpdatePrompt) (p : Prompt)
    → validate_update registry body ≡ ok tt
    → IsValid registry p
    → IsValid registry (updated_row now body p)
unfolding validate_update
validate_update_lem registry now body p h v =
    let (label_ok, h1) = >>-eq-ok _ _ h in
    let (description_ok, h2) = >>-eq-ok _ _ h1 in
    let (text_ok, h3) = >>-eq-ok _ _ h2 in
    let (workflow_ok, timeout_ok) = >>-eq-ok _ _ h3 in
    let label =
      or_keep_lem (λ t. (is_blank t ≡ false) × (len t ≤ max_label_len)) validate_label body.label
        p.label validate_label_lem label_ok (v.label_filled, v.label_fits) in
    let text =
      or_keep_lem (λ t. (is_blank t ≡ false) × (len t ≤ max_prompt_len)) validate_text body.text
        p.text validate_text_lem text_ok (v.text_filled, v.text_fits) in
    record {
      label_filled = label.0;
      label_fits = label.1;
      text_filled = text.0;
      text_fits = text.1;
      description_fits =
          or_keep_lem DescriptionFits validate_description body.description p.description
            validate_description_lem description_ok v.description_fits;
      workflow_supported =
          or_keep_lem (λ w. supports registry w ≡ Checked.ok tt) (validate_workflow registry)
            body.workflow p.workflow (validate_workflow_lem registry) workflow_ok
            v.workflow_supported;
      timeout_fits =
          or_keep_lem TimeoutFits validate_timeout body.timeout_seconds p.timeout_seconds
            validate_timeout_lem timeout_ok v.timeout_fits;
    }

-- The requests that write the catalog, each at its time.
pub data Call : Type 0 where
  creates : ℤ → CreatePrompt → Call
  updates : ℤ → ℕ → UpdatePrompt → Call
  deletes : ℤ → ℕ → Call

unfoldable pub serve : WorkflowRegistry → List Call → List Prompt → List Prompt
serve registry [] prompts = prompts
serve registry (creates now body ∷ cs) prompts =
    serve registry cs (create registry now body prompts).1
serve registry (updates now id body ∷ cs) prompts =
    serve registry cs (update registry now id body prompts).1
serve registry (deletes now id ∷ cs) prompts = serve registry cs (delete now id prompts).1

module _ (registry : WorkflowRegistry) where
  create-IsValid :
      (now : ℤ) (body : CreatePrompt) (prompts : List Prompt)
      → All (IsValid registry) prompts
      → All (IsValid registry) (create registry now body prompts).1
  unfolding create
  create-IsValid now body prompts h = elim (Result-cases (validate_create registry body)) [
    | inl passed ↦
        rw (passed, create)
          (All-append_one (IsValid registry) prompts _ h
            (validate_create_lem registry now (suc (max_id prompts)) body passed))
    | inr (e, refused) ↦ rw (refused, create) h
  ]

  update-IsValid :
      (now : ℤ) (id : ℕ) (body : UpdatePrompt) (prompts : List Prompt)
      → All (IsValid registry) prompts
      → All (IsValid registry) (update registry now id body prompts).1
  unfolding update
  update-IsValid now id body prompts h = elim (Option-cases (fetch id prompts)) [
    | inl missing ↦ rw (missing, update) h
    | inr (p, found) ↦ elim (Result-cases (validate_update registry body)) [
      | inl passed ↦
          let v = validate_update_lem registry now body p passed (
            All-fetch_optional (IsValid registry) (is_prompt id) prompts p h
              (unfold fetch in found)) in
          rw (found, update)
            (rw passed (
              All-update_where (IsValid registry) _ (store_row (updated_row now body p)) prompts
                (λ r q hit. record {
                  label_filled = v.label_filled;
                  label_fits = v.label_fits;
                  text_filled = v.text_filled;
                  text_fits = v.text_fits;
                  description_fits = v.description_fits;
                  workflow_supported = v.workflow_supported;
                  timeout_fits = v.timeout_fits;
                })
                h))
      | inr (e, refused) ↦ rw (found, update) (rw refused h)
    ]
  ]

  delete-IsValid :
      (now : ℤ) (id : ℕ) (prompts : List Prompt)
      → All (IsValid registry) prompts
      → All (IsValid registry) (delete now id prompts).1
  unfolding delete
  delete-IsValid now id prompts h = elim (Bool-cases (count_where (is_prompt id) prompts == 0)) [
    | inl none_hit ↦ rw none_hit kept
    | inr some_hit ↦ rw some_hit kept
  ]
    where
      kept :
          All
            (IsValid registry)
            (update_where (is_prompt id) (λ p. record p { deleted_at = some now }) prompts)
      kept =
          All-update_where (IsValid registry) _ _ prompts
            (λ r q hit. record {
              label_filled = q.label_filled;
              label_fits = q.label_fits;
              text_filled = q.text_filled;
              text_fits = q.text_fits;
              description_fits = q.description_fits;
              workflow_supported = q.workflow_supported;
              timeout_fits = q.timeout_fits;
            })
            h

  serve-keeps :
      (cs : List Call) (prompts : List Prompt)
      → All (IsValid registry) prompts
      → All (IsValid registry) (serve registry cs prompts)
  unfolding serve
  serve-keeps [] prompts h = h
  serve-keeps (creates now body ∷ cs) prompts h =
      serve-keeps cs _ (create-IsValid now body prompts h)
  serve-keeps (updates now id body ∷ cs) prompts h =
      serve-keeps cs _ (update-IsValid now id body prompts h)
  serve-keeps (deletes now id ∷ cs) prompts h = serve-keeps cs _ (delete-IsValid now id prompts h)

-- Whatever requests create, change and delete prompts, every prompt of the catalog has a label and a
-- text that are not blank and keep to their limits, a description within its limit if it has one, a
-- workflow that the registry supports, and a timeout of 1 to 1800 seconds if it has one.
pub serve-IsValid :
    (registry : WorkflowRegistry) (cs : List Call) → All (IsValid registry) (serve registry cs [])
serve-IsValid registry cs = serve-keeps registry cs [] tt
