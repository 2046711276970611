-- ===== src/Examples/Submit.antt =====
-- Submits and long-polls at concrete inputs.
use zun_rust_server.Prelude.{
  ◌≡◌, refl, ◌⊎◌, ◌≤◌, ◌+◌, ◌*◌, true, false, [], ◌∷◌, none, some, is_some, arith,
}
use zun_rust_server.Prelude.Int.{pos}
use zun_rust_server.Prelude.Text.{Text, text, text_eq}
use zun_rust_server.Error.{ok}
use zun_rust_server.Sql.{fetch_optional}
use zun_rust_server.Server.{Bytes, Server}
use zun_rust_server.Jobs.{Job, running_row, queue_position}
use zun_rust_server.Paths.{needs_slash}
use zun_rust_server.Workflow.{null}
use zun_rust_server.Workflow.Registry.{default_workflow}
use zun_rust_server.Workflow.Registry.Loaded.{loaded}
use zun_rust_server.Handlers.Submit.Request.{SubmitEnv, Request, Part, got}
use zun_rust_server.Handlers.Submit.Resolve.{submit_job, check_submit}
use zun_rust_server.Handlers.Submit.Sound.{CacheSound}
use zun_rust_server.Handlers.Submit.Keeps.{submit_job-CacheSound}
use zun_rust_server.Handlers.Submit.Accepts.{Submitted, submit_job-Submitted}
use zun_rust_server.Handlers.Poll.{
  Poll, Turn, hold, get_job, wait_seconds, answer_of, changed, job_body, fetch_job_row,
}
use zun_rust_server.Handlers.Poll.Window.{get_job_answers, window_end}
use zun_rust_server.Handlers.Poll.Answer.{get_job_first_change}
use zun_rust_server.Examples.Data.{table, queued_b, done_a, id_b, server}

abbrev digest_of_zeros : Bytes → Bytes
digest_of_zeros bytes =
    0 ∷ 0 ∷ 0 ∷ 0 ∷ 0 ∷ 0 ∷ 0 ∷ 0 ∷ 0 ∷ 0 ∷ 0 ∷ 0 ∷ 0 ∷ 0 ∷ 0 ∷ 0 ∷ 0 ∷ 0 ∷ 0 ∷ 0 ∷ 0 ∷ 0 ∷ 0 ∷ 0
    ∷ 0 ∷ 0 ∷ 0 ∷ 0 ∷ 0 ∷ 0 ∷ 0 ∷ 0 ∷ []

abbrev sha_of_zeros : Text
sha_of_zeros = text "0000000000000000000000000000000000000000000000000000000000000000"

abbrev submit_env : SubmitEnv
submit_env = record {
  data_dir = text "/data";
  workflows = loaded null null;
  digest = digest_of_zeros;
  parse_i64 = λ t. none;
  dimensions = λ b. some (8, 8);
  now_input = pos 40;
  now_job = pos 41;
  uuid = text "e";
  random = 9;
  suffix = 1 ∷ 2 ∷ 3 ∷ 4 ∷ [];
  create_dir_error = false;
  io = record { written = 0; write_error = false; rename_error = false; remove_error = false };
}

abbrev text_part : Text → Text → Part
text_part name value = record {
  name = some name;
  content_type = none;
  bytes = got [];
  text = got value;
}

abbrev upload_request : Request
upload_request = record {
  content_type = some (text "multipart/form-data; boundary=x");
  json = none;
  form = some (
      got (record {
        name = some (text "image");
        content_type = some (text "image/png");
        bytes = got (1 ∷ 2 ∷ []);
        text = got [];
      })
      ∷ got (text_part (text "input_sha256") sha_of_zeros)
      ∷ got (text_part (text "prompt_text") (text "make it a cat"))
      ∷ got (text_part (text "workflow") default_workflow)
      ∷ []);
}

submit_job-Submitted_example :
    let (r, s') = submit_job submit_env upload_request server in
    Submitted submit_env (check_submit submit_env upload_request server.prompts) server r s'
unfolding needs_slash
submit_job-Submitted_example = submit_job-Submitted submit_env upload_request server refl

abbrev empty_server : Server
empty_server = record server { disk = λ p. none }

nothing_cached : CacheSound digest_of_zeros (text "/data") (λ p. none)
unfolding CacheSound
nothing_cached sha ext p bytes valid image found read = absurd (cc read)

submit_job-CacheSound_example :
    CacheSound digest_of_zeros
      (text "/data")
      (submit_job submit_env upload_request empty_server).1.disk
unfolding needs_slash
submit_job-CacheSound_example =
    submit_job-CacheSound submit_env upload_request empty_server refl nothing_cached

abbrev running_b : Job
running_b = running_row (pos 31) queued_b

abbrev quiet_turn : Turn
quiet_turn = record { event = none; jobs = table; query = 5 }

abbrev change_turn : Turn
change_turn = record { event = some 300; jobs = done_a ∷ running_b ∷ []; query = 5 }

abbrev poll : Poll
poll = record {
  wait = some 2;
  before = table;
  now = 1000;
  turns = quiet_turn ∷ change_turn ∷ [];
  after = done_a ∷ running_b ∷ [];
}

abbrev quiet_poll : Poll
quiet_poll = record poll { turns = quiet_turn ∷ change_turn ∷ quiet_turn ∷ [] }

get_job_answers_example :
    (is_some (get_job id_b quiet_poll) ≡ true)
    × (wait_seconds (some 2) ≤ 30)
    × ((row : Job) → (hold id_b quiet_poll row).1 ≤ 1000 + 1000 * wait_seconds (some 2) + 5)
unfolding wait_seconds
get_job_answers_example =
    get_job_answers id_b quiet_poll 5 (omega arith) (omega arith, (omega arith, (omega arith, tt)))

get_job_first_change_example :
    (get_job id_b poll ≡ answer_of (changed running_b) queued_b poll.after)
    ⊎ ((get_job id_b poll ≡ some (ok (job_body queued_b (queue_position queued_b poll.after))))
        × (window_end poll ≤ (hold id_b poll queued_b).1))
unfolding fetch_job_row fetch_optional text_eq wait_seconds
get_job_first_change_example =
    get_job_first_change id_b poll queued_b (quiet_turn ∷ []) change_turn [] refl refl refl
      (record { row = queued_b; found = refl; same = refl }, tt) refl
