-- ===== src/Workflow/Fill.antt =====
-- What `build_edit_workflow` makes of a template: one function of a string, at every string of it.
use zun_rust_server.Prelude.{
  ℕ, ◌≡◌, ◌≢◌, refl, ap, ap₂, false, List, [], ◌∷◌, arith, if◌then◌else◌, Bool-cases, inl, inr,
}
use zun_rust_server.Prelude.Int.{pos}
use zun_rust_server.Prelude.Text.{Text, text_eq, text_eq_iff}
use zun_rust_server.Workflow.{
  Value, Items, Fields, null, bool, number, float, string, array, object, nil, cons, end, field,
  prompt_token, input_image_token, filename_prefix_token, seed_token, replace, patch_placeholders,
  patch_items, patch_fields, patch_seed_placeholder, patch_seed_items, patch_seed_fields,
  output_prefix, build_edit_workflow,
}

-- A function of the strings, at every string; all else stays in its place.
unfoldable mutual
  pub map_strings : (Text → Value) → Value → Value
  map_strings f null = null
  map_strings f (bool b) = bool b
  map_strings f (number n) = number n
  map_strings f (float x) = float x
  map_strings f (string s) = f s
  map_strings f (array xs) = array (map_items f xs)
  map_strings f (object fs) = object (map_fields f fs)

  pub map_items : (Text → Value) → Items → Items
  map_items f nil = nil
  map_items f (cons v xs) = cons (map_strings f v) (map_items f xs)

  pub map_fields : (Text → Value) → Fields → Fields
  map_fields f end = end
  map_fields f (field k v fs) = field k (map_strings f v) (map_fields f fs)

-- What a template's string stands for.
abbrev pub fill : Text → Text → Text → ℕ → Text → Value
fill prompt_text image job_id seed s =
    if text_eq s prompt_token
    then string prompt_text
    else if text_eq s input_image_token
    then string image
    else if text_eq s filename_prefix_token
    then string (output_prefix job_id)
    else if text_eq s seed_token
    then number (pos seed)
    else string s

module _ (prompt_text image job_id : Text) (seed : ℕ) where
  subs : List (Text × Text)
  subs =
      (prompt_token, prompt_text)
      ∷ (input_image_token, image)
      ∷ (filename_prefix_token, output_prefix job_id)
      ∷ []

  module _
      (step : (s : Text)
        → patch_seed_placeholder seed (string (replace subs s))
          ≡ fill prompt_text image job_id seed s) where
    mutual
      unfolding patch_placeholders patch_seed_placeholder map_strings

      both :
          (v : Value)
          → patch_seed_placeholder seed (patch_placeholders subs v)
            ≡ map_strings (fill prompt_text image job_id seed) v
      both null = refl
      both (bool b) = refl
      both (number n) = refl
      both (float x) = refl
      both (string s) = step s
      both (array xs) = ap array (both_items xs)
      both (object fs) = ap object (both_fields fs)

      both_items :
          (xs : Items)
          → patch_seed_items seed (patch_items subs xs)
            ≡ map_items (fill prompt_text image job_id seed) xs
      both_items nil = refl
      both_items (cons v xs) = ap₂ cons (both v) (both_items xs)

      both_fields :
          (fs : Fields)
          → patch_seed_fields seed (patch_fields subs fs)
            ≡ map_fields (fill prompt_text image job_id seed) fs
      both_fields end = refl
      both_fields (field k v fs) = ap₂ (field k) (both v) (both_fields fs)

  not_seed : (s : Text) → s ≢ seed_token → text_eq s seed_token ≡ false
  not_seed s d = elim (Bool-cases (text_eq s seed_token)) [
    | inl e ↦ absurd (d ((text_eq_iff s seed_token).0 e))
    | inr e ↦ e
  ]

  prefix_not_seed : text_eq (output_prefix job_id) seed_token ≡ false
  unfolding text_eq
  prefix_not_seed = refl

  fill_step :
      prompt_text ≢ seed_token
      → image ≢ seed_token
      → (s : Text)
      → patch_seed_placeholder seed (string (replace subs s)) ≡ fill prompt_text image job_id seed s
  unfolding patch_seed_placeholder replace subs
  fill_step dp di s = ground (arith, not_seed prompt_text dp, not_seed image di, prefix_not_seed)

  -- If neither the prompt nor the image name is the seed's own placeholder, the workflow that is
  -- submitted is the template with each placeholder replaced by its value, the seed as a number, and
  -- everything else unchanged.
  pub build_edit_workflow-map_strings :
      (template : Value)
      → prompt_text ≢ seed_token
      → image ≢ seed_token
      → build_edit_workflow template prompt_text image job_id seed
        ≡ map_strings (fill prompt_text image job_id seed) template
  unfolding build_edit_workflow subs
  build_edit_workflow-map_strings template dp di = both (fill_step dp di) template
