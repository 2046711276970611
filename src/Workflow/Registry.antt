-- ===== src/Workflow/Registry.antt =====
-- src/workflow.rs: the registry of templates with the support status of each. A hash map is an
-- association list; the embedded directory and the JSON parser are parameters.
pub mod Loaded
use zun_rust_server.Prelude.{
  ℕ, suc, Bool, true, false, not, ◌&&◌, ◌||◌, List, [], ◌∷◌, ◌++◌, map, Option, none, some,
  if◌then◌else◌, ◌==◌, ◌≡◌,
}
use zun_rust_server.Prelude.Text.{Text, text, text_eq, text_lt, contains}
use zun_rust_server.Sql.{order_by, count_where}
use zun_rust_server.Workflow.{
  Value, prompt_token, input_image_token, filename_prefix_token, seed_token,
}

pub record WorkflowSupport : Type 0 where
  pub name : Text
  pub display_name : Text
  pub kind : Text
  pub requires_input_image : Bool
  pub experimental : Bool
  pub is_default : Bool
  pub runtime : Text
  pub pipeline : Option Text
  pub model_path : Option Text
  pub dtype : Option Text
  pub offload_mode : Option Text
  pub default_steps : Option ℕ
  pub default_width : Option ℕ
  pub default_height : Option ℕ
  pub loaded : Bool
  pub supported : Bool
  pub placeholders : List Text
  pub warning : Option Text
  pub reason : Option Text

pub record WorkflowRegistry : Type 0 where
  pub templates : List (Text × Value)
  pub support : List (Text × WorkflowSupport)

-- `HashMap::get`
unfoldable pub get : {A : Type 0} → Text → List (Text × A) → Option A
get name [] = none
get name ((k, v) ∷ m) = if text_eq k name then some v else get name m

-- `HashMap::insert`
unfoldable pub insert : {A : Type 0} → Text → A → List (Text × A) → List (Text × A)
insert name a [] = (name, a) ∷ []
insert name a ((k, v) ∷ m) = if text_eq k name then (name, a) ∷ m else (k, v) ∷ insert name a m

pub data WorkflowSupportError : Type 0 where
  unknown : Text → WorkflowSupportError
  unsupported : Text → Text → WorkflowSupportError

pub data Checked (A : Type 0) : Type 0 where
  ok : A → Checked A
  err : WorkflowSupportError → Checked A

abbrev reason_of : WorkflowSupport → Text
reason_of s = elim s.reason [ some r ↦ r | none ↦ text "unsupported" ]

unfoldable pub supported_template : WorkflowRegistry → Text → Checked Value
unfolding get
supported_template r name = elim (get name r.support) [
  | some s ↦
      if s.supported
      then elim (get name r.templates) [ some t ↦ ok t | none ↦ err (unknown name) ]
      else err (unsupported name (reason_of s))
  | none ↦ err (unknown name)
]

unfoldable pub supports : WorkflowRegistry → Text → Checked (Unit {0})
unfolding get
supports r name = elim (get name r.support) [
  | some s ↦ if s.supported then ok tt else err (unsupported name (reason_of s))
  | none ↦ err (unknown name)
]

unfoldable pub supported_count : WorkflowRegistry → ℕ
supported_count r = count_where (λ e. e.1.supported) r.support

unfoldable pub support_list : WorkflowRegistry → List WorkflowSupport
support_list r = order_by (λ a b. text_lt a.name b.name) (map (λ e. e.1) r.support)

-- `name.split('_')`
abbrev split_underscores : Text → List Text
split_underscores [] = [] ∷ []
split_underscores (c ∷ s) = elim (split_underscores s) [
  | [] ↦ []
  | part ∷ parts ↦ if c == b'_' then [] ∷ part ∷ parts else (c ∷ part) ∷ parts
]

abbrev join_spaces : List Text → Text
join_spaces [] = []
join_spaces (part ∷ []) = part
join_spaces (part ∷ next ∷ parts) = part ++ text " " ++ join_spaces (next ∷ parts)

abbrev humanize_part : Text → Text
humanize_part part =
    if text_eq part (text "flux2")
    then text "FLUX 2"
    else if text_eq part (text "kv")
    then text "KV"
    else if text_eq part (text "t2i")
    then text "T2I"
    else part

unfoldable pub humanize_workflow_name : Text → Text
humanize_workflow_name name = join_spaces (map humanize_part (split_underscores name))

pub record WorkflowMetadata : Type 0 where
  pub display_name : Text
  pub experimental : Bool
  pub warning : Option Text

-- The fields in which the arms of the match differ; the others are the same in all of them.
unfoldable pub workflow_metadata : Text → WorkflowMetadata
unfolding humanize_workflow_name
workflow_metadata name =
    if text_eq name (text "flux3_klein_edit")
    then record { display_name = text "FLUX 3 klein"; experimental = false; warning = none }
    else if text_eq name (text "flux2_klein_edit")
    then record { display_name = text "FLUX 2 klein"; experimental = false; warning = none }
    else if text_eq name (text "flux2_klein_9b_kv_edit")
    then record {
      display_name = text "FLUX 2 klein 9B-KV";
      experimental = true;
      warning = some (text "Experimental heavier workflow; may OOM on 16 GB VRAM.");
    }
    else record { display_name = humanize_workflow_name name; experimental = false; warning = none }

unfoldable pub workflow_support : Text → Text → WorkflowSupport
workflow_support name default_workflow =
    let metadata = workflow_metadata name in
    record {
      name = name;
      display_name = metadata.display_name;
      kind = text "image_edit";
      requires_input_image = true;
      experimental = metadata.experimental;
      is_default = text_eq name default_workflow;
      runtime = text "comfyui";
      pipeline = none;
      model_path = none;
      dtype = none;
      offload_mode = none;
      default_steps = none;
      default_width = none;
      default_height = none;
      loaded = true;
      supported = true;
      placeholders = prompt_token ∷ input_image_token ∷ filename_prefix_token ∷ seed_token ∷ [];
      warning = metadata.warning;
      reason = none;
    }

abbrev pub enabled_workflows : List Text
enabled_workflows = text "flux3_klein_edit" ∷ text "flux2_klein_edit" ∷ []

abbrev pub default_workflow : Text
default_workflow = text "flux3_klein_edit"

-- The embedded directory and `serde_json::from_str`, with what they give for a file name: `none`
-- where the file is missing, is no UTF-8 or no JSON.
abbrev pub Embedded : Type 0
Embedded = Text → Option Value

unfoldable pub load_embedded_template : Embedded → Text → Option Value
load_embedded_template files name =
    if text_eq name []
      || contains name (text "/")
      || contains name (text "\\")
      || contains name (text "..")
    then none
    else files (name ++ text ".json")

-- The loop of `load_registry`, with the registry that it has filled so far.
unfoldable pub load_all : Embedded → List Text → WorkflowRegistry → Option WorkflowRegistry
unfolding insert
load_all files [] r = some r
load_all files (name ∷ names) r = elim (load_embedded_template files name) [
  | none ↦ none
  | some template ↦ load_all files names (record {
    templates = insert name template r.templates;
    support = insert name (workflow_support name default_workflow) r.support;
  })
]

unfoldable pub load_registry : Embedded → Option WorkflowRegistry
unfolding load_all
load_registry files = load_all files enabled_workflows (record { templates = []; support = [] })
