-- ===== src/Handlers/Submit/Prompt.antt =====
-- src/handlers.rs: `resolve_prompt`, the prompt and workflow that a submit asks for.
use zun_rust_server.Prelude.{ℕ, List, Option, none, some, ltb}
use zun_rust_server.Prelude.Int.{ℤ, pos, negsuc}
use zun_rust_server.Prelude.Text.{Text, is_blank, len}
use zun_rust_server.Limits.{max_prompt_len, default_timeout_seconds, clamp_timeout_seconds}
use zun_rust_server.Error.{
  Result, ok, err, bad_request, both_prompts, no_prompt, unknown_prompt_id, workflow_required,
  prompt_text_blank, prompt_text_too_long, ◌>>=◌, ◌>>◌, fail_if, ok_or,
}
use zun_rust_server.Server.{Prompt}
use zun_rust_server.Workflow.Registry.{WorkflowRegistry}
use zun_rust_server.Prompts.{fetch, validate_workflow}

-- The workflow, the text, the prompt that they are from, and the timeout.
pub record Resolved : Type 0 where
  pub workflow : Text
  pub prompt_text : Text
  pub source_prompt_id : Option ℕ
  pub timeout_seconds : ℕ

-- No row has a negative id.
abbrev pub fetch_prompt : ℤ → List Prompt → Option Prompt
fetch_prompt (pos id) prompts = fetch id prompts
fetch_prompt (negsuc n) prompts = none

unfoldable pub resolve_stored : WorkflowRegistry → ℤ → List Prompt → Result Resolved
resolve_stored registry pid prompts = do
  row ← ok_or (fetch_prompt pid prompts) (bad_request (unknown_prompt_id pid))
  validate_workflow registry row.workflow
  ok (record {
    workflow = row.workflow;
    prompt_text = row.text;
    source_prompt_id = some row.id;
    timeout_seconds = clamp_timeout_seconds row.timeout_seconds;
  })

unfoldable pub resolve_text : WorkflowRegistry → Option Text → Text → Result Resolved
resolve_text registry override prompt = do
  workflow ← ok_or override (bad_request workflow_required)
  validate_workflow registry workflow
  fail_if (is_blank prompt) (bad_request prompt_text_blank)
  fail_if (ltb max_prompt_len (len prompt)) (bad_request prompt_text_too_long)
  ok (record {
    workflow = workflow;
    prompt_text = prompt;
    source_prompt_id = none;
    timeout_seconds = default_timeout_seconds;
  })

unfoldable pub resolve_prompt :
    WorkflowRegistry → Option ℤ → Option Text → Option Text → List Prompt → Result Resolved
unfolding resolve_stored resolve_text
resolve_prompt registry (some pid) (some t) override prompts = err (bad_request both_prompts)
resolve_prompt registry none none override prompts = err (bad_request no_prompt)
resolve_prompt registry (some pid) none override prompts = resolve_stored registry pid prompts
resolve_prompt registry none (some t) override prompts = resolve_text registry override t
