-- ===== src/Worker/Warmup.antt =====
-- src/worker.rs: `spawn_warmup` and `warm_once`. The clock counts milliseconds.
use zun_rust_server.Prelude.{
  ℕ, ◌+◌, ◌*◌, ◌≤◌, ◌<◌, ◌≡◌, refl, Bool, true, false, List, [], ◌∷◌, if◌then◌else◌, leb, arith,
  Bool-cases, inl, inr, length,
}
use zun_rust_server.Prelude.Text.{Text, text}
use zun_rust_server.Server.{Bytes}
use zun_rust_server.Workflow.{Value, build_edit_workflow}
use zun_rust_server.Workflow.Registry.{WorkflowRegistry, supported_template, default_workflow}
use zun_rust_server.Comfy.{Outcome, done, failed, Frame, await_completion}
use zun_rust_server.Comfy.Client.{and_then}
use zun_rust_server.Worker.{checked, failure}

abbrev pub warmup_wait_limit : ℕ
warmup_wait_limit = 300 * 1000

abbrev pub warmup_probe_interval : ℕ
warmup_probe_interval = 3 * 1000

-- A turn of the wait: whether ComfyUI answers the probe, the clock after it, whether the server
-- shuts down by then, and, if it does so during the sleep, how the sleep ends.
pub record ProbeTurn : Type 0 where
  pub answers : Bool
  pub now : ℕ
  pub stopping : Bool
  pub stops_in_sleep : Bool

pub data Waited : Type 0 where
  ready stopped gave_up probing : Waited

unfoldable pub wait_for_comfy : ℕ → List ProbeTurn → Waited
wait_for_comfy deadline [] = probing
wait_for_comfy deadline (t ∷ ts) =
    let rest = wait_for_comfy deadline ts in
    if t.answers
    then ready
    else if t.stopping
    then stopped
    else if leb deadline t.now
    then gave_up
    else if t.stops_in_sleep
    then stopped
    else rest

-- The answers to a warm-up.
pub record Warmup : Type 0 where
  pub warmup_png : Outcome Bytes
  pub upload_image : Bytes → Text → Outcome Text
  pub connect_ws : Outcome (Unit {0})
  pub submit_prompt : Value → Outcome Text
  pub frames : List Frame
  pub timed_out : Bool
  pub elapsed_ms : ℕ

abbrev pub await_warmup : Warmup → Text → Outcome (Unit {0})
await_warmup w prompt_id =
    if w.timed_out
    then failed (failure (text "warm-up timed out"))
    else (await_completion prompt_id w.frames).0

unfoldable pub warm_once : WorkflowRegistry → Warmup → Outcome ℕ
unfolding supported_template await_completion
warm_once workflows w =
    and_then (checked (supported_template workflows default_workflow)) (λ template.
      and_then w.warmup_png (λ png.
        and_then (w.upload_image png (text "zun_warmup.png")) (λ stored_name.
          and_then w.connect_ws (λ ws.
            and_then
              (w.submit_prompt
                (build_edit_workflow template (text "warmup") stored_name (text "warmup") 1))
              (λ prompt_id. and_then (await_warmup w prompt_id) (λ u. done w.elapsed_ms))))))

-- The clock goes on by the gap between two probes.
abbrev pub Ticks : ℕ → List ProbeTurn → Type 0
Ticks now [] = Unit
Ticks now (t ∷ ts) = (now ≤ t.now) × Ticks (t.now + warmup_probe_interval) ts

abbrev pub is_probing : Waited → Bool
is_probing probing = true
is_probing _ = false

wait_from :
    (now deadline : ℕ) (ts : List ProbeTurn)
    → Ticks now ts
    → now ≤ deadline + 3000
    → deadline + 3000 < now + 3000 * length ts
    → is_probing (wait_for_comfy deadline ts) ≡ false
unfolding wait_for_comfy
wait_from now deadline [] ticks early enough = absurd (omega (arith, early, enough))
wait_from now deadline (t ∷ ts) ticks early enough = elim (Bool-cases t.answers) [
  | inl up ↦ rw up refl
  | inr down ↦ elim (Bool-cases t.stopping) [
    | inl stop ↦ rw (down, stop) refl
    | inr on ↦ elim (Bool-cases (leb deadline t.now)) [
      | inl late ↦ rw (down, on, late) refl
      | inr in_time ↦ elim (Bool-cases t.stops_in_sleep) [
        | inl stop ↦ rw (down, on, in_time, stop) refl
        | inr sleeps ↦
            rw (down, on, in_time, sleeps)
              (wait_from (t.now + warmup_probe_interval) deadline ts ticks.1
                (ground (arith, in_time)) (omega (arith, ticks.0, enough)))
      ]
    ]
  ]
]

-- The wait for ComfyUI ends within 102 probes, three seconds apart, and a shutdown or an answer only
-- ends it earlier.
pub wait_for_comfy_ends :
    (now : ℕ) (ts : List ProbeTurn)
    → Ticks now ts
    → 102 ≤ length ts
    → is_probing (wait_for_comfy (now + warmup_wait_limit) ts) ≡ false
wait_for_comfy_ends now ts ticks enough =
    wait_from now (now + warmup_wait_limit) ts ticks (omega arith) (omega (arith, enough))
