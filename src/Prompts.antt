-- ===== src/Prompts.antt =====
-- src/custom_prompts.rs: the catalog of prompts. The handlers take the registry of workflows and the
-- clock, and return the table that they leave.
pub mod Valid
pub mod Crud
pub mod Rows
pub mod Listing
pub mod Refines
use zun_rust_server.Prelude.{
  ℕ, suc, ◌+◌, Bool, true, false, not, ◌&&◌, ◌||◌, List, [], ◌∷◌, ◌++◌, Option, none, some, is_none,
  if◌then◌else◌, ltb, ◌==◌,
}
use zun_rust_server.Prelude.Int.{ℤ, ltb_ℤ}
use zun_rust_server.Prelude.Text.{Text, len, is_blank}
use zun_rust_server.Limits.{max_prompt_len, max_label_len, max_description_len, is_accepted_timeout}
use zun_rust_server.Error.{
  AppError, Result, ok, err, not_found, bad_request, Reason, Field, label, description, prompt_body,
  label_blank, text_blank, too_long, timeout_out_of_range, unknown_workflow, unsupported_workflow,
  ◌>>=◌, ◌>>◌, fail_if, ok_or,
}
use zun_rust_server.Sql.{select_where, fetch_optional, update_where, count_where, order_by}
use zun_rust_server.Server.{Prompt}
use zun_rust_server.Workflow.Registry.{WorkflowRegistry, supports}
use zun_rust_server.Workflow.Registry as Registry

pub record CreatePrompt : Type 0 where
  pub label : Text
  pub description : Option Text
  pub text : Text
  pub workflow : Text
  pub timeout_seconds : Option ℤ

-- As serde has read it; the outer `none` is a field that is left as it is.
pub record UpdatePrompt : Type 0 where
  pub label : Option Text
  pub description : Option (Option Text)
  pub text : Option Text
  pub workflow : Option Text
  pub timeout_seconds : Option (Option ℤ)

unfoldable pub validate_len : Field → Text → ℕ → Result (Unit {0})
validate_len field value max = fail_if (ltb max (len value)) (bad_request (too_long field max))

unfoldable pub validate_timeout : Option ℤ → Result (Unit {0})
validate_timeout none = ok tt
validate_timeout (some t) = fail_if (not (is_accepted_timeout t)) (bad_request timeout_out_of_range)

unfoldable pub validate_workflow : WorkflowRegistry → Text → Result (Unit {0})
validate_workflow registry workflow = elim (supports registry workflow) [
  | Registry.Checked.ok u ↦ ok tt
  | Registry.Checked.err (Registry.WorkflowSupportError.unknown name) ↦
      err (bad_request (unknown_workflow name))
  | Registry.Checked.err (Registry.WorkflowSupportError.unsupported name reason) ↦
      err (bad_request (unsupported_workflow name))
]

unfoldable pub validate_label : Text → Result (Unit {0})
validate_label l = do
  fail_if (is_blank l) (bad_request label_blank)
  validate_len label l max_label_len

unfoldable pub validate_text : Text → Result (Unit {0})
validate_text t = do
  fail_if (is_blank t) (bad_request text_blank)
  validate_len prompt_body t max_prompt_len

unfoldable pub validate_description : Option Text → Result (Unit {0})
validate_description none = ok tt
validate_description (some d) = validate_len description d max_description_len

-- The checks of `create`, in their order.
unfoldable pub validate_create : WorkflowRegistry → CreatePrompt → Result (Unit {0})
validate_create registry body = do
  fail_if (is_blank body.label) (bad_request label_blank)
  fail_if (is_blank body.text) (bad_request text_blank)
  validate_len label body.label max_label_len
  validate_len prompt_body body.text max_prompt_len
  validate_description body.description
  validate_workflow registry body.workflow
  validate_timeout body.timeout_seconds

-- The row id that SQLite gives: one above the largest.
unfoldable pub max_id : List Prompt → ℕ
max_id [] = 0
max_id (p ∷ ps) = if ltb (max_id ps) p.id then p.id else max_id ps

abbrev pub is_prompt : ℕ → Prompt → Bool
is_prompt id p = (p.id == id) && is_none p.deleted_at

unfoldable pub fetch : ℕ → List Prompt → Option Prompt
fetch id prompts = fetch_optional (is_prompt id) prompts

abbrev pub created_row : ℤ → ℕ → CreatePrompt → Prompt
created_row now id body = record {
  id = id;
  label = body.label;
  description = body.description;
  text = body.text;
  workflow = body.workflow;
  timeout_seconds = body.timeout_seconds;
  created_at = now;
  updated_at = now;
  deleted_at = none;
}

unfoldable pub create :
    WorkflowRegistry → ℤ → CreatePrompt → List Prompt → Result Prompt × List Prompt
unfolding fetch
create registry now body prompts = elim (validate_create registry body) [
  | err e ↦ (err e, prompts)
  | ok u ↦
      let id = suc (max_id prompts) in
      let prompts' = prompts ++ created_row now id body ∷ [] in
      (ok_or (fetch id prompts') not_found, prompts')
]

unfoldable pub list : List Prompt → List Prompt
list prompts =
    order_by (λ a b. ltb_ℤ a.created_at b.created_at)
      (select_where (λ p. is_none p.deleted_at) prompts)

unfoldable pub get_one : ℕ → List Prompt → Result Prompt
unfolding fetch
get_one id prompts = ok_or (fetch id prompts) not_found

abbrev pub or_keep : {A : Type 0} → Option A → A → A
or_keep none old = old
or_keep (some a) old = a

abbrev pub check_given : {A : Type 0} → (A → Result (Unit {0})) → Option A → Result (Unit {0})
check_given check none = ok tt
check_given check (some a) = check a

-- The checks of `update`, each on the fields that the body has.
unfoldable pub validate_update : WorkflowRegistry → UpdatePrompt → Result (Unit {0})
validate_update registry body = do
  check_given validate_label body.label
  check_given validate_description body.description
  check_given validate_text body.text
  check_given (validate_workflow registry) body.workflow
  check_given validate_timeout body.timeout_seconds

-- The row `current` with the fields of the body.
abbrev pub updated_row : ℤ → UpdatePrompt → Prompt → Prompt
updated_row now body p = record p {
  label = or_keep body.label p.label;
  description = or_keep body.description p.description;
  text = or_keep body.text p.text;
  workflow = or_keep body.workflow p.workflow;
  timeout_seconds = or_keep body.timeout_seconds p.timeout_seconds;
  updated_at = now;
}

-- The UPDATE binds the columns of the row that was read.
abbrev pub store_row : Prompt → Prompt → Prompt
store_row new p = record p {
  label = new.label;
  description = new.description;
  text = new.text;
  workflow = new.workflow;
  timeout_seconds = new.timeout_seconds;
  updated_at = new.updated_at;
}

unfoldable pub update :
    WorkflowRegistry → ℤ → ℕ → UpdatePrompt → List Prompt → Result Prompt × List Prompt
unfolding fetch
update registry now id body prompts = elim (fetch id prompts) [
  | none ↦ (err not_found, prompts)
  | some current ↦ elim (validate_update registry body) [
    | err e ↦ (err e, prompts)
    | ok u ↦
        let prompts' =
          update_where (λ p. p.id == id) (store_row (updated_row now body current)) prompts in
        (ok_or (fetch id prompts') not_found, prompts')
  ]
]

unfoldable pub delete : ℤ → ℕ → List Prompt → Result ℕ × List Prompt
delete now id prompts =
    let prompts' = update_where (is_prompt id) (λ p. record p { deleted_at = some now }) prompts in
    if count_where (is_prompt id) prompts == 0
    then (err not_found, prompts')
    else (ok 204, prompts')
