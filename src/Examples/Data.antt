-- ===== src/Examples/Data.antt =====
-- The tables, requests and environments of the examples.
use zun_rust_server.Prelude.{false, List, [], ◌∷◌, none, some}
use zun_rust_server.Prelude.Int.{ℤ, pos}
use zun_rust_server.Prelude.Text.{Text, text}
use zun_rust_server.Jobs.{Job, NewJob, queued_row, running_row, done_row}
use zun_rust_server.Server.{Server, Input}
use zun_rust_server.Workflow.Registry.{default_workflow}

abbrev pub new_job : Text → ℤ → NewJob
new_job id now = record {
  job_id = id;
  input_id = 1;
  source_prompt_id = none;
  prompt_text = text "a cat";
  workflow = default_workflow;
  timeout_seconds = pos 60;
  seed = 7;
  now = now;
}

abbrev pub id_a : Text
id_a = text "a"

abbrev pub id_b : Text
id_b = text "b"

abbrev pub id_c : Text
id_c = text "c"

abbrev pub done_a : Job
done_a =
    done_row (pos 20) (text "outputs/a.png") (some 8) (some 8)
      (running_row (pos 11) (queued_row (new_job id_a (pos 10))))

abbrev pub queued_b : Job
queued_b = queued_row (new_job id_b (pos 11))

abbrev pub running_c : Job
running_c = running_row (pos 30) (queued_row (new_job id_c (pos 12)))

abbrev pub table : List Job
table = done_a ∷ queued_b ∷ running_c ∷ []

abbrev pub stale_d : Job
stale_d = record done_a {
  id = text "d";
  deleted_at = some (pos 21);
  thumb_path = some (text "thumbs/d.jpg");
}

abbrev pub input_1 : Input
input_1 = record {
  id = 1;
  sha256 = text "00";
  path = some (text "cache/inputs/00.png");
  original_name = none;
  content_type = some (text "image/png");
  size_bytes = some 3;
  width = none;
  height = none;
  created_at = pos 1;
  last_used_at = pos 1;
}

abbrev pub input_2 : Input
input_2 = record input_1 { id = 2; path = some (text "cache/inputs/01.png") }

abbrev pub server : Server
server = record {
  jobs = table;
  inputs = input_1 ∷ input_2 ∷ [];
  prompts = [];
  disk = λ p. some (1 ∷ []);
  job_events = 0;
  worker_wake = false;
  interrupts = 0;
}
