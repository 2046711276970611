-- ===== src/Workflow/Registry/Loaded.antt =====
-- The registry that the server starts with.
use zun_rust_server.Prelude.{
  ◌≡◌, refl, sym, ◌∙◌, map, ◌⊎◌, Bool, true, false, [], ◌∷◌, Option, none, some, arith, ◌↔◌,
}
use zun_rust_server.Prelude.Text.{Text, text, text_eq, text_lt, text_eq_iff}
use zun_rust_server.Sql.{order_by, count_where}
use zun_rust_server.Workflow.{Value}
use zun_rust_server.Workflow.Registry.{
  WorkflowRegistry, Embedded, ok, supported_template, supports, supported_count, support_list,
  workflow_support, default_workflow, load_embedded_template, load_registry,
}

abbrev pub flux3 : Text
flux3 = text "flux3_klein_edit"

abbrev pub flux2 : Text
flux2 = text "flux2_klein_edit"

-- The registry that comes out of a load of the two templates.
abbrev pub loaded : Value → Value → WorkflowRegistry
loaded t3 t2 = record {
  templates = (flux3, t3) ∷ (flux2, t2) ∷ [];
  support =
      (flux3, workflow_support flux3 default_workflow)
      ∷ (flux2, workflow_support flux2 default_workflow)
      ∷ [];
}

loaded_of : Option Value → Option Value → Option WorkflowRegistry
loaded_of (some t3) (some t2) = some (loaded t3 t2)
loaded_of (some t3) none = none
loaded_of none _ = none

load_registry_lem :
    (files : Embedded)
    → load_registry files
      ≡ loaded_of (load_embedded_template files flux3) (load_embedded_template files flux2)
unfolding load_registry loaded_of text_eq
load_registry_lem files = ground arith

loaded_of_inv :
    (o3 o2 : Option Value) (r : WorkflowRegistry)
    → loaded_of o3 o2 ≡ some r
    → (t3 : Value) × (t2 : Value) × (o3 ≡ some t3) × (o2 ≡ some t2) × (r ≡ loaded t3 t2)
unfolding loaded_of
loaded_of_inv (some t3) (some t2) r e = (t3, t2, refl, refl, sym (cc e))
loaded_of_inv (some t3) none r e = cc
loaded_of_inv none o r e = cc

-- A registry that loads accepts exactly the two enabled workflows.
pub load_registry-supports :
    (files : Embedded) (r : WorkflowRegistry) (name : Text)
    → load_registry files ≡ some r
    → (supports r name ≡ ok tt) ↔ ((name ≡ flux3) ⊎ (name ≡ flux2))
unfolding supports workflow_support
load_registry-supports files r name e =
    let (t3, t2, _, _, shape) = loaded_of_inv _ _ r (sym (load_registry_lem files) ∙ e) in
    rw shape (
      ground (arith, text_eq_iff flux3 name, text_eq_iff flux2 name),
      ground (arith, text_eq_iff flux3 name, text_eq_iff flux2 name),
    )

-- The template that a loaded registry gives for a workflow is the one of the workflow's file.
pub load_registry-supported_template :
    (files : Embedded) (r : WorkflowRegistry) (name : Text) (t : Value)
    → load_registry files ≡ some r
    → supported_template r name ≡ ok t
    → load_embedded_template files name ≡ some t
unfolding supported_template workflow_support
load_registry-supported_template files r name t e found =
    let (t3, t2, e3, e2, shape) = loaded_of_inv _ _ r (sym (load_registry_lem files) ∙ e) in
    ground (arith, text_eq_iff flux3 name, text_eq_iff flux2 name)

-- A loaded registry lists two workflows by name, both supported, and advertises the enabled default
-- and no other as the default.
pub load_registry-support_list :
    (files : Embedded) (r : WorkflowRegistry)
    → load_registry files ≡ some r
    → (map {B = Text × Bool} (λ s. (s.name, s.is_default)) (support_list r)
        ≡ (flux2, false) ∷ (default_workflow, true) ∷ [])
      × (supported_count r ≡ 2)
unfolding support_list supported_count workflow_support text_lt text_eq order_by count_where
load_registry-support_list files r e =
    let (t3, t2, _, _, shape) = loaded_of_inv _ _ r (sym (load_registry_lem files) ∙ e) in
    rw shape (refl, refl)
