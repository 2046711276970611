-- ===== src/Handlers/Poll/Answer.antt =====
-- What the long-poll of `get_job` (src/handlers.rs) answers: the first change that it reads.
use zun_rust_server.Prelude.{
  ℕ, ◌≤◌, ◌≡◌, refl, ap, ◌⊎◌, true, false, ◌&&◌, List, [], ◌∷◌, ◌++◌, Option, none, some, ltb, leb,
  All, Bool-cases, inl, inr, leb→le,
}
use zun_rust_server.Prelude.Text.{Text}
use zun_rust_server.Error.{ok}
use zun_rust_server.Jobs.{Job, queue_position}
use zun_rust_server.Handlers.Poll.{
  Turn, Polled, window_over, gone, changed, next_now, differs, after_read, wait_loop, wait_seconds,
  Poll, hold, can_change, fetch_job_row, answer_of, get_job, job_body,
}
use zun_rust_server.Handlers.Poll.Window.{window_end}

-- A turn that reads the row as it was.
pub record ReadsSame (id : Text) (initial : Job) (t : Turn) : Type 0 where
  pub row : Job
  pub found : fetch_job_row id t.jobs ≡ some row
  pub same : differs row initial ≡ false

-- The loop ends with the change or at the deadline.
FirstOrOver : ℕ → Polled → Polled × ℕ → Type 0
FirstOrOver deadline first ended =
    (ended.0 ≡ first) ⊎ ((ended.0 ≡ window_over) × (deadline ≤ ended.1))

-- What the first turn that does not read the row as it was ends the loop with.
abbrev pub ends_with : Option Job → Polled
ends_with none = gone
ends_with (some current) = changed current

abbrev pub IsNews : Job → Option Job → Type 0
IsNews initial none = Unit
IsNews initial (some current) = differs current initial ≡ true

after_read_news :
    (found : Option Job) (initial : Job) (now : ℕ) (rest : Polled × ℕ)
    → IsNews initial found
    → after_read found initial now rest ≡ (ends_with found, now)
after_read_news none initial now rest news = refl
after_read_news (some current) initial now rest news = rw news refl

module _ (id : Text) (deadline : ℕ) (initial : Job) where
  wait_loop-FirstOrOver :
      (now : ℕ) (us : List Turn) (t : Turn) (ts : List Turn)
      → All (ReadsSame id initial) us
      → IsNews initial (fetch_job_row id t.jobs)
      → FirstOrOver deadline
          (ends_with (fetch_job_row id t.jobs))
          (wait_loop id deadline initial now (us ++ t ∷ ts))
  unfolding wait_loop FirstOrOver
  wait_loop-FirstOrOver now [] t ts same news = elim (Bool-cases (leb deadline now)) [
    | inl over ↦ rw over (inr (refl, leb→le deadline now over))
    | inr early ↦ rw early (
        inl (
          ap (λ r. r.0)
            (after_read_news (fetch_job_row id t.jobs) initial (next_now deadline now t)
              (wait_loop id deadline initial (next_now deadline now t) ts) news)))
  ]
  wait_loop-FirstOrOver now (u ∷ us) t ts same news = elim (Bool-cases (leb deadline now)) [
    | inl over ↦ rw over (inr (refl, leb→le deadline now over))
    | inr early ↦
        rw (early, same.0.found, same.0.same)
          (wait_loop-FirstOrOver (next_now deadline now u) us t ts same.1 news)
  ]

hold-FirstOrOver :
    (id : Text) (p : Poll) (row : Job) (us : List Turn) (t : Turn) (ts : List Turn)
    → (ltb 0 (wait_seconds p.wait) && can_change row) ≡ true
    → p.turns ≡ us ++ t ∷ ts
    → All (ReadsSame id row) us
    → IsNews row (fetch_job_row id t.jobs)
    → FirstOrOver (window_end p) (ends_with (fetch_job_row id t.jobs)) (hold id p row)
unfolding hold
hold-FirstOrOver id p row us t ts waits turns same news =
    rw (waits, turns) (wait_loop-FirstOrOver id (window_end p) row p.now us t ts same news)

-- The row of a job that is held, while nothing of its status or progress changes up to a turn that
-- reads a change, or that the job is gone: the answer is what this turn reads, or the deadline has
-- come first, and the answer is the row as it was.
pub get_job_first_change :
    (id : Text) (p : Poll) (row : Job) (us : List Turn) (t : Turn) (ts : List Turn)
    → fetch_job_row id p.before ≡ some row
    → (ltb 0 (wait_seconds p.wait) && can_change row) ≡ true
    → p.turns ≡ us ++ t ∷ ts
    → All (ReadsSame id row) us
    → IsNews row (fetch_job_row id t.jobs)
    → (get_job id p ≡ answer_of (ends_with (fetch_job_row id t.jobs)) row p.after)
      ⊎ ((get_job id p ≡ some (ok (job_body row (queue_position row p.after))))
          × (window_end p ≤ (hold id p row).1))
unfolding get_job FirstOrOver
get_job_first_change id p row us t ts found waits turns same news =
    elim (hold-FirstOrOver id p row us t ts waits turns same news) [
      | inl first ↦ inl (rw found (ap (λ polled. answer_of polled row p.after) first))
      | inr (over, late) ↦ inr (rw found (ap (λ polled. answer_of polled row p.after) over), late)
    ]
