-- ===== src/Examples/Worker.antt =====
-- The worker at concrete inputs.
use zun_rust_server.Prelude.{ℕ, ◌≡◌, refl, true, false, List, [], ◌∷◌, none, All, arith}
use zun_rust_server.Prelude.Int.{pos}
use zun_rust_server.Prelude.Text.{text, text_eq}
use zun_rust_server.Jobs.{Job, fetch_oldest_queued}
use zun_rust_server.Jobs.Lifecycle.{Write, cancels_running}
use zun_rust_server.Jobs.Consistent.{IsConsistent}
use zun_rust_server.Paths.{Io}
use zun_rust_server.Comfy.{done, failed, Failure, connect}
use zun_rust_server.Sql.{order_by, select_where}
use zun_rust_server.Workflow.{null}
use zun_rust_server.Workflow.Registry.Loaded.{loaded}
use zun_rust_server.Worker.{Attempt, Config, handle_job}
use zun_rust_server.Worker.Settles.{SettledAs, handle_job-SettledAs}
use zun_rust_server.Prelude.{map}
use zun_rust_server.Sql.{count_where}
use zun_rust_server.Comfy.{other}
use zun_rust_server.Worker.{drain}
use zun_rust_server.Worker.Drain.{DrainedAs, quiet_turn, drain-DrainedAs}
use zun_rust_server.Worker.Interfered.{IsForeign, left_with, handle_job-left_with}
use zun_rust_server.Worker.{as_f64, widened, normalised, process_job}
use zun_rust_server.Jobs.{has_id, one_bits}
use zun_rust_server.Jobs.Lifecycle.{submits, deletes, restores}
use zun_rust_server.Examples.Data.{done_a, queued_b, running_c, new_job, server, id_b}

abbrev good_io : Io
good_io = record { written = 0; write_error = false; rename_error = false; remove_error = false }

abbrev no_backend : Failure
no_backend = record { message = text "connection refused"; chain = connect ∷ [] }

-- An attempt that ends at the upload, as ComfyUI is not there.
abbrev unreachable_attempt : (ℕ → List Write) → Attempt
unreachable_attempt others = record {
  claimed_at = pos 40;
  done_at = pos 41;
  failed_at = pos 41;
  others = others;
  extension = λ p. text "png";
  upload_image = λ b n. failed no_backend;
  connect_ws = done tt;
  submit_prompt = λ v. done (text "p");
  frames = [];
  timed_out = false;
  worth_writing = λ p last. true;
  get_history = done none;
  view = λ i. done [];
  create_dir_all = done tt;
  tmp_sibling = λ p. text "tmp";
  io = good_io;
  dimensions = λ b. none;
  read_error = text "No such file or directory (os error 2)";
  write_error = text "No space left on device (os error 28)";
  debug = λ t. t;
}

abbrev config : Config
config = record { data_dir = text "/data"; workflows = loaded null null }

handle_job-SettledAs_example :
    let (next, s') = handle_job config (unreachable_attempt (λ n. [])) queued_b server in
    SettledAs id_b next s'.jobs
unfolding text_eq fetch_oldest_queued order_by select_where
handle_job-SettledAs_example =
    handle_job-SettledAs config (unreachable_attempt (λ n. [])) queued_b server (λ n. refl)
      ((refl, (refl, tt)), ((refl, tt), (tt, tt))) refl

done_a-IsConsistent : IsConsistent done_a
done_a-IsConsistent = ground arith

queued_b-IsConsistent : IsConsistent queued_b
queued_b-IsConsistent = ground arith

running_c-IsConsistent : IsConsistent running_c
running_c-IsConsistent = ground arith

-- Between its writes the job is cancelled, deleted and restored, and another one is submitted.
busy_others :
    (n : ℕ)
    → All (IsForeign id_b) (
        cancels_running (pos 39) id_b
        ∷ deletes (pos 39) id_b
        ∷ restores id_b
        ∷ submits (new_job (text "e") (pos 39))
        ∷ [])
unfolding text_eq
busy_others n = (tt, (tt, (tt, (refl, tt))))

handle_job-left_with_example :
    let a = unreachable_attempt (λ n.
      cancels_running (pos 39) id_b
      ∷ deletes (pos 39) id_b
      ∷ restores id_b
      ∷ submits (new_job (text "e") (pos 39))
      ∷ []) in
    All
      (λ j.
        has_id id_b j ≡ true → left_with (process_job config a queued_b server).0 j.status ≡ true)
      (handle_job config a queued_b server).1.jobs
unfolding text_eq fetch_oldest_queued order_by select_where
handle_job-left_with_example =
    handle_job-left_with config
      (unreachable_attempt (λ n.
        cancels_running (pos 39) id_b
        ∷ deletes (pos 39) id_b
        ∷ restores id_b
        ∷ submits (new_job (text "e") (pos 39))
        ∷ []))
      queued_b server busy_others ((refl, (refl, tt)), ((refl, tt), (tt, tt))) refl

-- The bits of 1, 0.5, the least positive f32 and -2.
as_f64_tests :
    (as_f64 0x3f800000 ≡ one_bits)
    × (as_f64 0x3f000000 ≡ 0x3fe0000000000000)
    × (as_f64 1 ≡ 0x36a0000000000000)
    × (as_f64 0xc0000000 ≡ 0xc000000000000000)
unfolding as_f64 widened normalised
as_f64_tests = (refl, refl, refl, refl)

-- An attempt that fails for a reason of its own: the job is marked failed and the loop goes on.
abbrev rejected_attempt : Job → Attempt
rejected_attempt job = record (unreachable_attempt (λ n. [])) {
  upload_image = λ b n. failed (record { message = text "bad image"; chain = other ∷ [] });
}

drain-DrainedAs_example :
    let (end, s') =
      drain config (map quiet_turn (rejected_attempt ∷ rejected_attempt ∷ [])) server in
    DrainedAs end s'.jobs
unfolding text_eq count_where
drain-DrainedAs_example =
    drain-DrainedAs config (rejected_attempt ∷ rejected_attempt ∷ []) server
      ((refl, (refl, tt)), ((refl, tt), (tt, tt)))
      (done_a-IsConsistent, (queued_b-IsConsistent, (running_c-IsConsistent, tt)))
      (λ job k. refl, (λ job k. refl, tt)) (omega arith)
