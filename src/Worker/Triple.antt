-- ===== src/Worker/Triple.antt =====
-- A predicate on the table of jobs through an attempt.
use zun_rust_server.Prelude.{ℕ, ◌+◌, List, [], ◌∷◌, Option, Bool-cases, inl, inr}
use zun_rust_server.Prelude.Text.{Text}
use zun_rust_server.Jobs.{Job, update_comfy_prompt_id, mark_done, write_progress}
use zun_rust_server.Jobs.Lifecycle.{apply_all}
use zun_rust_server.Server.{Server, notify_job_change, interrupt}
use zun_rust_server.Comfy.{Failure, Outcome, done, failed, await_completion}
use zun_rust_server.Paths.{atomic_write}
use zun_rust_server.Worker.{
  gets, failure, Task, ◌>>=◌, ◌>>◌, lift, modify, set_jobs, interfere, Attempt, Config, as_f64,
  timeout_text, write_frames, write_output, await, finalize_output, collect_output, work,
}

-- What holds after a task: `Q` when it is done, `P` when it fails.
abbrev pub Post :
    {A : Type 0} → (List Job → Type 0) → (A → List Job → Type 0) → Outcome A × Server → Type 0
Post P Q (done a, s) = Q a s.jobs
Post P Q (failed e, s) = P s.jobs

abbrev pub Triple : {A : Type 0} → (List Job → Type 0) → Task A → (A → List Job → Type 0) → Type 0
Triple P m Q = (s : Server) → P s.jobs → Post P Q (m s)

module _ (P : List Job → Type 0) where
  Post->>= :
      {A B : Type 0}
      → (Q : B → List Job → Type 0) (f : A → Task B) (r : Outcome A × Server) → Post P (λ a. P) r
      → ((a : A) → Triple P (f a) Q)
      → Post P Q (elim r.0 [ done a ↦ f a r.1 | failed e ↦ (failed e, r.1) ])
  Post->>= Q f (done a, s) h k = k a s h
  Post->>= Q f (failed e, s) h k = h

  pub Triple->>= :
      {A B : Type 0}
      → (Q : B → List Job → Type 0) (m : Task A) (f : A → Task B) → Triple P m (λ a. P)
      → ((a : A) → Triple P (f a) Q)
      → Triple P (m >>= f) Q
  unfolding ◌>>=◌
  Triple->>= Q m f h k s p = Post->>= Q f (m s) (h s p) k

  pub Triple-lift : {A : Type 0} → (r : Outcome A) → Triple P (lift r) (λ a. P)
  Triple-lift (done a) s p = p
  Triple-lift (failed e) s p = p

-- What an attempt asks of `P` to keep it up to the write of the output, and to reach `Q` by it.
pub record Stable (a : Attempt) (id : Text) (P Q : List Job → Type 0) : Type 0 where
  pub interfered : (n : ℕ) (jobs : List Job) → P jobs → P (apply_all (a.others n) jobs)
  pub named :
      (comfy_id : Text) (jobs : List Job) → P jobs → P (update_comfy_prompt_id id comfy_id jobs)
  pub progressed : (p : ℕ) (jobs : List Job) → P jobs → P (write_progress id p jobs)
  pub completed :
      (path : Text) (width height : Option ℕ) (jobs : List Job)
      → P jobs
      → Q (mark_done a.done_at id path width height jobs).0

module _ (a : Attempt) (job : Job) (P Q : List Job → Type 0) (stable : Stable a job.id P Q) where
  write_frames-keeps :
      (n last : ℕ) (ps : List ℕ) (s : Server)
      → P s.jobs
      → P (write_frames a job.id n last ps s).jobs
  unfolding write_frames
  write_frames-keeps n last [] s h = h
  write_frames-keeps n last (p ∷ ps) s h = elim (Bool-cases (a.worth_writing p last)) [
    | inl e ↦
        let before = stable.interfered (4 + n) s.jobs h in
        rw e (write_frames-keeps (n + 1) p ps _ (stable.progressed (as_f64 p) _ before))
    | inr e ↦ rw e (write_frames-keeps n last ps s h)
  ]

  write_output-Triple :
      (path : Text) (bytes : List ℕ) → Triple P (write_output a path bytes) (λ _. P)
  write_output-Triple path bytes s h =
      elim (Bool-cases (atomic_write a.io (a.tmp_sibling path) path bytes s.disk).succeeded) [
        | inl e ↦ rw e h
        | inr e ↦ rw e h
      ]

  timeout-Triple :
      (e : Failure) → Triple P (modify interrupt >> lift {A = Unit {0}} (failed e)) (λ _. P)
  unfolding interrupt
  timeout-Triple e =
      Triple->>= P (λ _. P) (modify interrupt) (λ _. lift {A = Unit {0}} (failed e)) (λ s h. h)
        (λ _ s h. h)

  await-Triple : (comfy_id : Text) → Triple P (await a job comfy_id) (λ _. P)
  await-Triple comfy_id =
      Triple->>= P (λ _. P)
        (modify (write_frames a job.id 0 0 (await_completion comfy_id a.frames).1)) _
        (λ s h. write_frames-keeps 0 0 (await_completion comfy_id a.frames).1 s h)
        (λ _. elim (Bool-cases a.timed_out) [
          | inl e ↦ rw e (timeout-Triple (failure (timeout_text job.timeout_seconds)))
          | inr e ↦ rw e (Triple-lift P _)
        ])

  finalize-Triple :
      (rel : Text) (bytes : List ℕ) → Triple P (finalize_output a job rel bytes) (λ _. Q)
  unfolding finalize_output
  finalize-Triple rel bytes =
      Triple->>= P (λ _. Q) (interfere a 2) _ (λ s h. stable.interfered 2 s.jobs h)
        (λ _ s h. stable.completed rel _ _ s.jobs h)

  collect-Triple :
      (config : Config) (comfy_id : Text) → Triple P (collect_output config a job comfy_id) (λ _. Q)
  unfolding collect_output
  collect-Triple config comfy_id =
      Triple->>= P (λ _. Q) (lift a.get_history) _ (Triple-lift P _)
        (λ found.
          Triple->>= P (λ _. Q) (lift _) _ (Triple-lift P _)
            (λ entry.
              Triple->>= P (λ _. Q) (lift _) _ (Triple-lift P _)
                (λ _.
                  Triple->>= P (λ _. Q) (lift _) _ (Triple-lift P _)
                    (λ img.
                      Triple->>= P (λ _. Q) (lift _) _ (Triple-lift P _)
                        (λ bytes.
                          Triple->>= P (λ _. Q) (lift _) _ (Triple-lift P _)
                            (λ path.
                              Triple->>= P (λ _. Q) (lift _) _ (Triple-lift P _)
                                (λ _.
                                  Triple->>= P (λ _. Q) (write_output a path bytes) _
                                    (write_output-Triple path bytes)
                                    (λ _. finalize-Triple _ bytes))))))))

  submitted-Triple :
      (config : Config) (comfy_id : Text)
      → Triple P
          (interfere a 1 >>= λ _.
            modify (set_jobs (update_comfy_prompt_id job.id comfy_id)) >>= λ _.
            await a job comfy_id >>= λ _. collect_output config a job comfy_id)
          (λ _. Q)
  submitted-Triple config comfy_id =
      Triple->>= P (λ _. Q) (interfere a 1) _ (λ s h. stable.interfered 1 s.jobs h)
        (λ _.
          Triple->>= P (λ _. Q) (modify _) _ (λ s h. stable.named comfy_id s.jobs h)
            (λ _.
              Triple->>= P (λ _. Q) (await a job comfy_id) _ (await-Triple comfy_id)
                (λ _. collect-Triple config comfy_id)))

  pub work-Triple : (config : Config) → Triple P (work config a job) (λ _. Q)
  unfolding work notify_job_change
  work-Triple config =
      Triple->>= P (λ _. Q) (modify notify_job_change) _ (λ s h. h)
        (λ _.
          Triple->>= P (λ _. Q) (gets _) _ (λ s h. h)
            (λ row.
              Triple->>= P (λ _. Q) (lift _) _ (Triple-lift P _)
                (λ input.
                  Triple->>= P (λ _. Q) (lift _) _ (Triple-lift P _)
                    (λ rel.
                      Triple->>= P (λ _. Q) (lift _) _ (Triple-lift P _)
                        (λ template.
                          Triple->>= P (λ _. Q) (gets _) _ (λ s h. h)
                            (λ file.
                              Triple->>= P (λ _. Q) (lift _) _ (Triple-lift P _)
                                (λ bytes.
                                  Triple->>= P (λ _. Q) (lift _) _ (Triple-lift P _)
                                    (λ stored.
                                      Triple->>= P (λ _. Q) (lift _) _ (Triple-lift P _)
                                        (λ _.
                                          Triple->>= P (λ _. Q) (lift _) _ (Triple-lift P _)
                                            (λ comfy_id. submitted-Triple config comfy_id))))))))))
