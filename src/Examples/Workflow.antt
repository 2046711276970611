-- ===== src/Examples/Workflow.antt =====
-- Templates and their registry at concrete inputs.
use zun_rust_server.Prelude.{◌≡◌, refl, not, some}
use zun_rust_server.Prelude.Text.{text, text_eq}
use zun_rust_server.Workflow.{
  Value, nil, cons, end, field, string, array, object, prompt_token, seed_token,
  filename_prefix_token, build_edit_workflow,
}
use zun_rust_server.Workflow.Fill.{map_strings, fill, build_edit_workflow-map_strings}
use zun_rust_server.Workflow.Delivered.{has_string, build_edit_workflow-has_string}
use zun_rust_server.Workflow.Registry.{Embedded, WorkflowRegistry}
use zun_rust_server.Workflow.Registry.Loaded.{loaded}

abbrev template : Value
template = object (
    field (text "text") (string prompt_token) (
      field (text "seed") (string seed_token)
        (field (text "files") (array (cons (string filename_prefix_token) nil)) end)))

build_edit_workflow-map_strings_example :
    build_edit_workflow template (text "cat") (text "in.png") (text "a") 7
    ≡ map_strings (fill (text "cat") (text "in.png") (text "a") 7) template
build_edit_workflow-map_strings_example =
    build_edit_workflow-map_strings (text "cat") (text "in.png") (text "a") 7 template (λ e. cc)
      (λ e. cc)

-- A prompt that is the seed's placeholder.
build_edit_workflow-has_string_example :
    has_string seed_token (build_edit_workflow template seed_token (text "in.png") (text "a") 7)
    ≡ not (text_eq seed_token seed_token)
unfolding has_string text_eq
build_edit_workflow-has_string_example =
    build_edit_workflow-has_string template seed_token (text "in.png") (text "a") 7 refl

-- Every file is there.
abbrev files : Embedded
files name = some (string name)

abbrev registry : WorkflowRegistry
registry = loaded (string (text "flux3_klein_edit.json")) (string (text "flux2_klein_edit.json"))
