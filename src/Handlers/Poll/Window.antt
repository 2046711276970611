-- ===== src/Handlers/Poll/Window.antt =====
-- The window of the long-poll of `get_job` (src/handlers.rs): that the request ends, and when.
use zun_rust_server.Prelude.{
  ℕ, suc, ◌+◌, ◌*◌, ◌≤◌, ◌≡◌, refl, Bool, true, false, ◌&&◌, List, [], ◌∷◌, Option, none, some,
  is_some, ltb, leb, arith, All, Bool-cases, inl, inr,
}
use zun_rust_server.Prelude.Text.{Text}
use zun_rust_server.Jobs.{Job}
use zun_rust_server.Handlers.Poll.{
  Turn, Polled, window_over, gone, pending, changed, min, next_now, wait_fallback_tick, woken_at,
  differs, after_read, wait_loop, wait_seconds, Poll, hold, can_change, fetch_job_row, answer_of,
  answer_row, get_job,
}

abbrev pub is_pending : Polled → Bool
is_pending pending = true
is_pending window_over = false
is_pending gone = false
is_pending (changed j) = false

abbrev pub silent_here : Option ℕ → ℕ → ℕ
silent_here none n = suc n
silent_here (some after) n = n

-- The turns in which `job_events` does not change.
abbrev pub silent_turns : List Turn → ℕ
silent_turns [] = 0
silent_turns (t ∷ ts) = silent_here t.event (silent_turns ts)

-- A wait starts and ends between now and the deadline.
woken_at_bounds :
    (deadline now : ℕ) (event : Option ℕ)
    → leb deadline now ≡ false
    → let woken = woken_at now (min (now + wait_fallback_tick) deadline) event in
      (now ≤ woken) × (woken ≤ deadline)
woken_at_bounds deadline now none early = ground arith
woken_at_bounds deadline now (some after) early = ground arith

next_now_upper :
    (deadline now q : ℕ) (t : Turn)
    → leb deadline now ≡ false
    → t.query ≤ q
    → next_now deadline now t ≤ deadline + q
next_now_upper deadline now q t early quick =
    omega (arith, (woken_at_bounds deadline now t.event early).1, quick)

after_read_upper :
    (found : Option Job) (initial : Job) (now bound : ℕ) (rest : Polled × ℕ)
    → now ≤ bound
    → rest.1 ≤ bound
    → (after_read found initial now rest).1 ≤ bound
after_read_upper none initial now bound rest h k = h
after_read_upper (some current) initial now bound rest h k =
    elim (Bool-cases (differs current initial)) [ inl e ↦ rw e h | inr e ↦ rw e k ]

module _ (id : Text) (deadline : ℕ) (initial : Job) where
  wait_loop_upper :
      (q now : ℕ) (ts : List Turn)
      → All (λ t. t.query ≤ q) ts
      → now ≤ deadline + q
      → (wait_loop id deadline initial now ts).1 ≤ deadline + q
  unfolding wait_loop
  wait_loop_upper q now [] quick h = ground arith
  wait_loop_upper q now (t ∷ ts) quick h = elim (Bool-cases (leb deadline now)) [
    | inl over ↦ rw over h
    | inr early ↦
        let next = next_now_upper deadline now q t early quick.0 in
        rw early (
          after_read_upper (fetch_job_row id t.jobs) initial (next_now deadline now t)
            (deadline + q) (wait_loop id deadline initial (next_now deadline now t) ts) next
            (wait_loop_upper q (next_now deadline now t) ts quick.1 next))
  ]

-- A silent turn takes the fallback tick, or ends at the deadline.
remaining :
    (deadline now n : ℕ) (event : Option ℕ)
    → deadline ≤ now + 1000 * silent_here event n
    → leb deadline now ≡ false
    → deadline ≤ woken_at now (min (now + wait_fallback_tick) deadline) event + 1000 * n
remaining deadline now n none h early = ground arith
remaining deadline now n (some after) h early = ground arith

is_pending-after_read :
    (found : Option Job) (initial : Job) (now : ℕ) (rest : Polled × ℕ)
    → is_pending rest.0 ≡ false
    → is_pending (after_read found initial now rest).0 ≡ false
is_pending-after_read none initial now rest h = refl
is_pending-after_read (some current) initial now rest h =
    elim (Bool-cases (differs current initial)) [ inl e ↦ rw e refl | inr e ↦ rw e h ]

module _ (id : Text) (deadline : ℕ) (initial : Job) where
  wait_loop_ends :
      (now : ℕ) (ts : List Turn)
      → deadline ≤ now + 1000 * silent_turns ts
      → is_pending (wait_loop id deadline initial now ts).0 ≡ false
  unfolding wait_loop
  wait_loop_ends now [] h = ground arith
  wait_loop_ends now (t ∷ ts) h = elim (Bool-cases (leb deadline now)) [
    | inl over ↦ rw over refl
    | inr early ↦ rw early (
        is_pending-after_read (fetch_job_row id t.jobs) initial (next_now deadline now t)
          (wait_loop id deadline initial (next_now deadline now t) ts)
          (wait_loop_ends (next_now deadline now t) ts
            (omega (arith, remaining deadline now (silent_turns ts) t.event h early))))
  ]

-- The end of the window that a request asks for.
abbrev pub window_end : Poll → ℕ
window_end p = p.now + 1000 * wait_seconds p.wait

hold_ends :
    (id : Text) (p : Poll) (row : Job)
    → wait_seconds p.wait ≤ silent_turns p.turns
    → is_pending (hold id p row).0 ≡ false
unfolding hold
hold_ends id p row h = elim (Bool-cases (ltb 0 (wait_seconds p.wait) && can_change row)) [
  | inl waits ↦ rw waits (wait_loop_ends id (window_end p) row p.now p.turns (omega (arith, h)))
  | inr at_once ↦ rw at_once refl
]

hold_upper :
    (id : Text) (p : Poll) (row : Job) (q : ℕ)
    → All (λ t. t.query ≤ q) p.turns
    → (hold id p row).1 ≤ window_end p + q
unfolding hold
hold_upper id p row q quick = elim (Bool-cases (ltb 0 (wait_seconds p.wait) && can_change row)) [
  | inl waits ↦ rw waits (wait_loop_upper id (window_end p) row q p.now p.turns quick (omega arith))
  | inr at_once ↦ rw at_once (omega arith)
]

answer_of_some :
    (polled : Polled) (row : Job) (after : List Job)
    → is_pending polled ≡ false
    → is_some (answer_of polled row after) ≡ true
answer_of_some window_over row after h = refl
answer_of_some gone row after h = refl
answer_of_some pending row after h = cc
answer_of_some (changed j) row after h = refl

answer_row_some :
    (id : Text) (p : Poll) (found : Option Job)
    → wait_seconds p.wait ≤ silent_turns p.turns
    → is_some (answer_row id p found) ≡ true
answer_row_some id p none h = refl
answer_row_some id p (some row) h =
    answer_of_some (hold id p row).0 row p.after (hold_ends id p row h)

wait_seconds_le : (wait : Option ℕ) → wait_seconds wait ≤ 30
unfolding wait_seconds
wait_seconds_le none = ground arith
wait_seconds_le (some w) = ground arith

-- `get_job` answers, however often `job_events` changes meanwhile, once as many turns of the wait
-- loop end by the fallback tick as the request has seconds to wait, which are 30 at most; and it
-- ends within that time, but for one read of the table.
pub get_job_answers :
    (id : Text) (p : Poll) (q : ℕ)
    → wait_seconds p.wait ≤ silent_turns p.turns
    → All (λ t. t.query ≤ q) p.turns
    → (is_some (get_job id p) ≡ true)
      × (wait_seconds p.wait ≤ 30)
      × ((row : Job) → (hold id p row).1 ≤ p.now + 1000 * wait_seconds p.wait + q)
unfolding get_job
get_job_answers id p q silent quick = (
  answer_row_some id p (fetch_job_row id p.before) silent,
  wait_seconds_le p.wait,
  λ row. hold_upper id p row q quick,
)
