-- ===== src/Workflow.antt =====
-- src/workflow.rs: JSON templates and the substitution of whole-string placeholders. An object is
-- the list of its fields.
pub mod Fill
pub mod Delivered
pub mod Registry
use zun_rust_server.Prelude.{ℕ, Bool, true, false, List, [], ◌∷◌, ◌++◌, if◌then◌else◌}
use zun_rust_server.Prelude.Int.{ℤ, pos}
use zun_rust_server.Prelude.Text.{Text, text, text_eq}

-- `serde_json::Value`; a number that is no integer is the bit pattern of its f64.
mutual
  pub data Value : Type 0 where
    null : Value
    bool : Bool → Value
    number : ℤ → Value
    float : ℕ → Value
    string : Text → Value
    array : Items → Value
    object : Fields → Value

  pub data Fields : Type 0 where
    field : Text → Value → Fields → Fields
    end : Fields

  pub data Items : Type 0 where
    cons : Value → Items → Items
    nil : Items

abbrev pub prompt_token : Text
prompt_token = text "PROMPT_PLACEHOLDER"

abbrev pub input_image_token : Text
input_image_token = text "INPUT_IMAGE_PLACEHOLDER"

abbrev pub filename_prefix_token : Text
filename_prefix_token = text "FILENAME_PREFIX_PLACEHOLDER"

abbrev pub seed_token : Text
seed_token = text "SEED_PLACEHOLDER"

-- The loop over `subs`: the first needle that equals the whole string.
unfoldable pub replace : List (Text × Text) → Text → Text
replace [] s = s
replace ((needle, replacement) ∷ subs) s = if text_eq s needle then replacement else replace subs s

unfoldable mutual
  unfolding replace

  pub patch_placeholders : List (Text × Text) → Value → Value
  patch_placeholders subs null = null
  patch_placeholders subs (bool b) = bool b
  patch_placeholders subs (number n) = number n
  patch_placeholders subs (float x) = float x
  patch_placeholders subs (string s) = string (replace subs s)
  patch_placeholders subs (array xs) = array (patch_items subs xs)
  patch_placeholders subs (object fs) = object (patch_fields subs fs)

  pub patch_items : List (Text × Text) → Items → Items
  patch_items subs nil = nil
  patch_items subs (cons v xs) = cons (patch_placeholders subs v) (patch_items subs xs)

  pub patch_fields : List (Text × Text) → Fields → Fields
  patch_fields subs end = end
  patch_fields subs (field k v fs) = field k (patch_placeholders subs v) (patch_fields subs fs)

unfoldable mutual
  pub patch_seed_placeholder : ℕ → Value → Value
  patch_seed_placeholder seed null = null
  patch_seed_placeholder seed (bool b) = bool b
  patch_seed_placeholder seed (number n) = number n
  patch_seed_placeholder seed (float x) = float x
  patch_seed_placeholder seed (string s) =
      if text_eq s seed_token then number (pos seed) else string s
  patch_seed_placeholder seed (array xs) = array (patch_seed_items seed xs)
  patch_seed_placeholder seed (object fs) = object (patch_seed_fields seed fs)

  pub patch_seed_items : ℕ → Items → Items
  patch_seed_items seed nil = nil
  patch_seed_items seed (cons v xs) =
      cons (patch_seed_placeholder seed v) (patch_seed_items seed xs)

  pub patch_seed_fields : ℕ → Fields → Fields
  patch_seed_fields seed end = end
  patch_seed_fields seed (field k v fs) =
      field k (patch_seed_placeholder seed v) (patch_seed_fields seed fs)

-- `format!("zun_{job_id}")`
abbrev pub output_prefix : Text → Text
output_prefix job_id = text "zun_" ++ job_id

unfoldable pub build_edit_workflow : Value → Text → Text → Text → ℕ → Value
build_edit_workflow template prompt_text input_image_name job_id seed =
    patch_seed_placeholder seed (
      patch_placeholders
        ((prompt_token, prompt_text)
          ∷ (input_image_token, input_image_name)
          ∷ (filename_prefix_token, output_prefix job_id)
          ∷ [])
        template)
