-- ===== src/Workflow/Delivered.antt =====
-- src/workflow.rs: whether the text of the prompt arrives in the workflow that is submitted.
use zun_rust_server.Prelude.{
  ℕ, ◌≡◌, refl, Bool, true, false, not, ◌||◌, List, [], ◌∷◌, Bool-cases, inl, inr,
}
use zun_rust_server.Prelude.Text.{Text, text_eq, text_eq→eq, text_eq_iff}
use zun_rust_server.Workflow.{
  Value, Items, Fields, null, bool, number, float, string, array, object, nil, cons, end, field,
  prompt_token, input_image_token, filename_prefix_token, seed_token, replace, patch_placeholders,
  patch_items, patch_fields, patch_seed_placeholder, patch_seed_items, patch_seed_fields,
  output_prefix, build_edit_workflow,
}

-- The text is one of the strings, at any depth; names of fields are not looked at.
unfoldable mutual
  pub has_string : Text → Value → Bool
  has_string t null = false
  has_string t (bool b) = false
  has_string t (number n) = false
  has_string t (float x) = false
  has_string t (string s) = text_eq s t
  has_string t (array xs) = has_item t xs
  has_string t (object fs) = has_field t fs

  pub has_item : Text → Items → Bool
  has_item t nil = false
  has_item t (cons v xs) = has_string t v || has_item t xs

  pub has_field : Text → Fields → Bool
  has_field t end = false
  has_field t (field k v fs) = has_string t v || has_field t fs

-- One of two places is enough.
either :
    (a b a' b' : Bool)
    → (a || b) ≡ true
    → (a ≡ true → a' ≡ true)
    → (b ≡ true → b' ≡ true)
    → (a' || b') ≡ true
either true b a' b' h f g = rw (f refl) refl
either false b true b' h f g = refl
either false b false b' h f g = g h

neither : (a b : Bool) → a ≡ false → b ≡ false → (a || b) ≡ false
neither a b e f = rw (e, f) refl

no_seed_string :
    (seed : ℕ) (s : Text) → has_string seed_token (patch_seed_placeholder seed (string s)) ≡ false
unfolding has_string patch_seed_placeholder
no_seed_string seed s = elim (Bool-cases (text_eq s seed_token)) [
  | inl hit ↦ rw hit refl
  | inr miss ↦ rw miss miss
]

mutual
  unfolding has_string patch_seed_placeholder

  no_seed : (seed : ℕ) (v : Value) → has_string seed_token (patch_seed_placeholder seed v) ≡ false
  no_seed seed null = refl
  no_seed seed (bool b) = refl
  no_seed seed (number n) = refl
  no_seed seed (float x) = refl
  no_seed seed (string s) = no_seed_string seed s
  no_seed seed (array xs) = no_seed_items seed xs
  no_seed seed (object fs) = no_seed_fields seed fs

  no_seed_items : (seed : ℕ) (xs : Items) → has_item seed_token (patch_seed_items seed xs) ≡ false
  no_seed_items seed nil = refl
  no_seed_items seed (cons v xs) = neither _ _ (no_seed seed v) (no_seed_items seed xs)

  no_seed_fields :
      (seed : ℕ) (fs : Fields) → has_field seed_token (patch_seed_fields seed fs) ≡ false
  no_seed_fields seed end = refl
  no_seed_fields seed (field k v fs) = neither _ _ (no_seed seed v) (no_seed_fields seed fs)

module _ (p : Text) (subs : List (Text × Text)) (seed : ℕ)
    (other : text_eq p seed_token ≡ false) where
  arrives_string :
      (s : Text)
      → has_string prompt_token (string s) ≡ true
      → has_string p
          (patch_seed_placeholder seed (patch_placeholders ((prompt_token, p) ∷ subs) (string s)))
        ≡ true
  unfolding has_string patch_seed_placeholder patch_placeholders replace
  arrives_string s h = rw (h, other) ((text_eq_iff p p).1 refl)

  mutual
    unfolding has_string patch_seed_placeholder patch_placeholders

    arrives :
        (v : Value)
        → has_string prompt_token v ≡ true
        → has_string p
            (patch_seed_placeholder seed (patch_placeholders ((prompt_token, p) ∷ subs) v))
          ≡ true
    arrives null h = absurd (let q = h in cc)
    arrives (bool b) h = absurd (let q = h in cc)
    arrives (number n) h = absurd (let q = h in cc)
    arrives (float x) h = absurd (let q = h in cc)
    arrives (string s) h = arrives_string s h
    arrives (array xs) h = arrives_items xs h
    arrives (object fs) h = arrives_fields fs h

    arrives_items :
        (xs : Items)
        → has_item prompt_token xs ≡ true
        → has_item p (patch_seed_items seed (patch_items ((prompt_token, p) ∷ subs) xs)) ≡ true
    arrives_items nil h = absurd (let q = h in cc)
    arrives_items (cons v xs) h = either _ _ _ _ h (arrives v) (arrives_items xs)

    arrives_fields :
        (fs : Fields)
        → has_field prompt_token fs ≡ true
        → has_field p (patch_seed_fields seed (patch_fields ((prompt_token, p) ∷ subs) fs)) ≡ true
    arrives_fields end h = absurd (let q = h in cc)
    arrives_fields (field k v fs) h = either _ _ _ _ h (arrives v) (arrives_fields fs)

-- A workflow built from a template that has the prompt's placeholder among its strings has the text
-- of the prompt among its strings, unless this text is the seed's placeholder; then it is lost.
pub build_edit_workflow-has_string :
    (template : Value) (prompt_text image job_id : Text) (seed : ℕ)
    → has_string prompt_token template ≡ true
    → has_string prompt_text (build_edit_workflow template prompt_text image job_id seed)
      ≡ not (text_eq prompt_text seed_token)
unfolding build_edit_workflow
build_edit_workflow-has_string template prompt_text image job_id seed h =
    elim (Bool-cases (text_eq prompt_text seed_token)) [
      | inr other ↦ rw other (
          arrives prompt_text
            ((input_image_token, image) ∷ (filename_prefix_token, output_prefix job_id) ∷ []) seed
            other template h)
      | inl same ↦ rw same (rw (text_eq→eq prompt_text seed_token same) (no_seed seed _))
    ]
