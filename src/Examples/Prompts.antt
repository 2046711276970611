-- ===== src/Examples/Prompts.antt =====
-- The catalog of prompts at concrete inputs.
use zun_rust_server.Prelude.{◌≡◌, refl, [], ◌∷◌, none, some, All}
use zun_rust_server.Prelude.Int.{pos}
use zun_rust_server.Prelude.Text.{text, is_blank}
use zun_rust_server.Error.{bad_request, label_blank}
use zun_rust_server.Server.{Prompt}
use zun_rust_server.Workflow.{null}
use zun_rust_server.Workflow.Registry.{WorkflowRegistry, default_workflow}
use zun_rust_server.Workflow.Registry.Loaded.{loaded}
use zun_rust_server.Prompts.{CreatePrompt, UpdatePrompt, validate_create, created_row, create}
use zun_rust_server.Prompts.Refines.{Step, handle, update_prompt, view, handle-Step}
use zun_rust_server.Prompts.Listing.{Pairwise, OtherId}
use zun_rust_server.Prompts.Valid.{IsValid, creates, updates, serve, serve-IsValid}
use zun_rust_server.Prompts.Crud.{create_error_unchanged}

abbrev registry : WorkflowRegistry
registry = loaded null null

abbrev body : CreatePrompt
body = record {
  label = text "Cat";
  description = some (text "a cat");
  text = text "make it a cat";
  workflow = default_workflow;
  timeout_seconds = some (pos 60);
}

abbrev relabel : UpdatePrompt
relabel = record {
  label = some (text "Dog");
  description = none;
  text = none;
  workflow = none;
  timeout_seconds = none;
}

abbrev cat : Prompt
cat = created_row (pos 5) 1 body

serve-IsValid_example :
    All
      (IsValid registry)
      (serve registry (creates (pos 5) body ∷ updates (pos 6) 1 relabel ∷ []) [])
serve-IsValid_example =
    serve-IsValid registry (creates (pos 5) body ∷ updates (pos 6) 1 relabel ∷ [])

create_error_unchanged_example :
    (create registry (pos 6) (record body { label = [] }) (cat ∷ [])).1 ≡ cat ∷ []
unfolding create validate_create is_blank
create_error_unchanged_example =
    create_error_unchanged registry (pos 6) (record body { label = [] }) (cat ∷ [])
      (bad_request label_blank) refl

handle-Step_example :
    let (answer, prompts') = handle registry (pos 6) (update_prompt 1 relabel) (cat ∷ []) in
    Step registry (pos 6) (update_prompt 1 relabel) (view (cat ∷ [])) answer (view prompts')
    × Pairwise OtherId prompts'
handle-Step_example = handle-Step registry (pos 6) (update_prompt 1 relabel) (cat ∷ []) (tt, tt)
