-- ===== src/Prompts/Rows.antt =====
-- src/custom_prompts.rs: the rows that a request asks for, field by field, and what the checks have to
-- do with them.
use zun_rust_server.Prelude.{ℕ, ◌≤◌, ◌≡◌, refl, subst, Bool, false, Option, none, some, arith}
use zun_rust_server.Prelude.Int.{ℤ}
use zun_rust_server.Prelude.Text.{Text, len, is_blank}
use zun_rust_server.Limits.{max_prompt_len, max_label_len}
use zun_rust_server.Error.{AppError, Result, ok, ◌>>◌, fail_if}
use zun_rust_server.Server.{Prompt}
use zun_rust_server.Workflow.Registry.{WorkflowRegistry, supports, Checked}
use zun_rust_server.Prompts.{
  CreatePrompt, UpdatePrompt, Field, validate_len, validate_timeout, validate_workflow,
  validate_label, validate_text, validate_description, validate_create, validate_update,
  check_given,
}
use zun_rust_server.Prompts.Valid.{DescriptionFits, TimeoutFits, IsValid}

-- A new row of the body.
pub record IsCreated (now : ℤ) (id : ℕ) (body : CreatePrompt) (p : Prompt) : Type 0 where
  pub id_is : p.id ≡ id
  pub label_is : p.label ≡ body.label
  pub description_is : p.description ≡ body.description
  pub text_is : p.text ≡ body.text
  pub workflow_is : p.workflow ≡ body.workflow
  pub timeout_is : p.timeout_seconds ≡ body.timeout_seconds
  pub created_now : p.created_at ≡ now
  pub updated_now : p.updated_at ≡ now
  pub live : p.deleted_at ≡ none

-- A field is what the body gives, or what it was.
abbrev pub Takes : {A : Type 0} → Option A → A → A → Type 0
Takes none old new = new ≡ old
Takes (some a) old new = new ≡ a

pub record IsUpdated (now : ℤ) (body : UpdatePrompt) (old new : Prompt) : Type 0 where
  pub same_id : new.id ≡ old.id
  pub label_is : Takes body.label old.label new.label
  pub description_is : Takes body.description old.description new.description
  pub text_is : Takes body.text old.text new.text
  pub workflow_is : Takes body.workflow old.workflow new.workflow
  pub timeout_is : Takes body.timeout_seconds old.timeout_seconds new.timeout_seconds
  pub same_created : new.created_at ≡ old.created_at
  pub updated_now : new.updated_at ≡ now
  pub same_deleted : new.deleted_at ≡ old.deleted_at

and_ok : (m k : Result (Unit {0})) → m ≡ ok tt → k ≡ ok tt → (m >> k) ≡ ok tt
and_ok m k e f = rw e f

fail_if_ok : (b : Bool) (e : AppError) → b ≡ false → fail_if b e ≡ ok tt
fail_if_ok b e h = rw h refl

len_ok : (f : Field) (value : Text) (max : ℕ) → len value ≤ max → validate_len f value max ≡ ok tt
unfolding validate_len
len_ok f value max h = ground (arith, h)

description_ok : (d : Option Text) → DescriptionFits d → validate_description d ≡ ok tt
unfolding validate_description
description_ok none h = refl
description_ok (some d) h = len_ok _ d _ h

timeout_ok : (t : Option ℤ) → TimeoutFits t → validate_timeout t ≡ ok tt
unfolding validate_timeout
timeout_ok none h = refl
timeout_ok (some t) h = rw h refl

workflow_ok :
    (registry : WorkflowRegistry) (name : Text)
    → supports registry name ≡ Checked.ok tt
    → validate_workflow registry name ≡ ok tt
unfolding validate_workflow
workflow_ok registry name h = rw (validate_workflow, h) refl

label_ok : (t : Text) → (is_blank t ≡ false) × (len t ≤ max_label_len) → validate_label t ≡ ok tt
unfolding validate_label
label_ok t (filled, fits) = and_ok _ _ (fail_if_ok _ _ filled) (len_ok _ t _ fits)

text_ok : (t : Text) → (is_blank t ≡ false) × (len t ≤ max_prompt_len) → validate_text t ≡ ok tt
unfolding validate_text
text_ok t (filled, fits) = and_ok _ _ (fail_if_ok _ _ filled) (len_ok _ t _ fits)

-- The checks of a create pass if the row that is asked for is valid.
pub validate_create_complete :
    (registry : WorkflowRegistry) (now : ℤ) (id : ℕ) (body : CreatePrompt) (p : Prompt)
    → IsCreated now id body p
    → IsValid registry p
    → validate_create registry body ≡ ok tt
unfolding validate_create
validate_create_complete registry now id body p c v =
    and_ok _ _ (fail_if_ok _ _ (subst (λ t. is_blank t ≡ false) c.label_is v.label_filled)) (
      and_ok _ _ (fail_if_ok _ _ (subst (λ t. is_blank t ≡ false) c.text_is v.text_filled)) (
        and_ok _ _ (len_ok _ _ _ (subst (λ t. len t ≤ max_label_len) c.label_is v.label_fits)) (
          and_ok _ _ (len_ok _ _ _ (subst (λ t. len t ≤ max_prompt_len) c.text_is v.text_fits)) (
            and_ok _ _
              (description_ok _ (subst DescriptionFits c.description_is v.description_fits))
              (and_ok _ _
                (workflow_ok registry _ (
                  subst (λ w. supports registry w ≡ Checked.ok tt) c.workflow_is
                    v.workflow_supported))
                (timeout_ok _ (subst TimeoutFits c.timeout_is v.timeout_fits)))))))

given_ok :
    {A : Type 0} (P : A → Type 0) (check : A → Result (Unit {0})) (o : Option A) (old new : A)
    → ((a : A) → P a → check a ≡ ok tt)
    → Takes o old new
    → P new
    → check_given check o ≡ ok tt
given_ok P check none old new complete t p = refl
given_ok P check (some a) old new complete t p = complete a (subst P t p)

-- The checks of an update pass if the row that is asked for is valid.
pub validate_update_complete :
    (registry : WorkflowRegistry) (now : ℤ) (body : UpdatePrompt) (old new : Prompt)
    → IsUpdated now body old new
    → IsValid registry new
    → validate_update registry body ≡ ok tt
unfolding validate_update
validate_update_complete registry now body old new u v =
    and_ok _ _
      (given_ok (λ t. (is_blank t ≡ false) × (len t ≤ max_label_len)) validate_label body.label
        old.label new.label label_ok u.label_is (v.label_filled, v.label_fits))
      (and_ok _ _
        (given_ok DescriptionFits validate_description body.description old.description
          new.description description_ok u.description_is v.description_fits)
        (and_ok _ _
          (given_ok (λ t. (is_blank t ≡ false) × (len t ≤ max_prompt_len)) validate_text body.text
            old.text new.text text_ok u.text_is (v.text_filled, v.text_fits))
          (and_ok _ _
            (given_ok (λ w. supports registry w ≡ Checked.ok tt) (validate_workflow registry)
              body.workflow old.workflow new.workflow (workflow_ok registry) u.workflow_is
              v.workflow_supported)
            (given_ok TimeoutFits validate_timeout body.timeout_seconds old.timeout_seconds
              new.timeout_seconds timeout_ok u.timeout_is v.timeout_fits))))
