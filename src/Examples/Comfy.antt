-- ===== src/Examples/Comfy.antt =====
-- The client of ComfyUI at concrete inputs.
use zun_rust_server.Prelude.{
  ℕ, ◌≤◌, ◌<◌, ◌==◌, ◌≡◌, refl, sym, inl, inr, Bool-cases, All, true, List, [], ◌∷◌, none, some,
  map, length, if◌then◌else◌, leb,
}
use zun_rust_server.Prelude.Text.{text}
use zun_rust_server.Workflow.{null, object, field, end, string}
use zun_rust_server.Comfy.Client.{
  Net, HttpResponse, submit_request, new_client, submit_prompt, submit_prompt_once,
}
use zun_rust_server.Comfy.Once.{
  IsConnected, fails_to_connect, deliveries, submit_prompt_once_at_most,
}
use zun_rust_server.Sql.{select_where}
use zun_rust_server.Comfy.{
  Outcome, done, failed, Failure, status, connect, safe, with_retry, read_chunks, read_capped,
  Frame, skipped, event, executing, progress, await_completion,
}
use zun_rust_server.Comfy.Retry.{Answers, with_retry-Answers}
use zun_rust_server.Comfy.Stream.{read_capped-len, concerns, await_completion-concerns}

abbrev busy : Failure
busy = record { message = text "503"; chain = status 503 ∷ [] }

-- Busy twice, then an answer.
abbrev third_time : ℕ → Outcome ℕ
third_time n = if leb n 2 then failed busy else done n

with_retry-Answers_example : Answers safe third_time 1 (with_retry safe third_time)
with_retry-Answers_example = with_retry-Answers safe third_time

abbrev chunks : List (List ℕ)
chunks = (1 ∷ 2 ∷ []) ∷ (3 ∷ []) ∷ []

read_capped-len_example : length {A = ℕ} (1 ∷ 2 ∷ 3 ∷ []) ≤ 3
unfolding read_capped read_chunks
read_capped-len_example =
    read_capped-len 3 (text "view") none (map done chunks) (1 ∷ 2 ∷ 3 ∷ []) refl

abbrev frames : List Frame
frames =
    skipped
    ∷ event (record { prompt_id = some (text "q"); kind = executing true })
    ∷ event (record { prompt_id = some (text "p"); kind = progress (some 5) })
    ∷ event (record { prompt_id = some (text "p"); kind = executing true })
    ∷ []

await_completion-concerns_example :
    await_completion (text "p") (select_where (concerns (text "p")) frames)
    ≡ await_completion (text "p") frames
await_completion-concerns_example = await_completion-concerns (text "p") frames

abbrev accepted : HttpResponse
accepted = record { code = 200; declared = some 2; chunks = done (1 ∷ 2 ∷ []) ∷ [] }

-- A network whose first call does not connect.
abbrev flaky : Net
flaky = record {
  send = λ n req.
      if n == 1
      then failed (record { message = text "refused"; chain = connect ∷ [] })
      else done accepted;
  parse = λ bytes. some (object (field (text "prompt_id") (string (text "p")) end));
  read_entry = λ v. none;
}

flaky_bodies :
    (n : ℕ) (r : HttpResponse)
    → flaky.send n (submit_request (new_client (text "http://c")) null (text "id")) ≡ done r
    → All IsConnected r.chunks
flaky_bodies n r sent = elim (Bool-cases (n == 1)) [
  | inl first ↦ absurd (let q = rw first at sent in cc)
  | inr later ↦ let q = rw later at sent in let same : accepted ≡ r = cc in rw (sym same) (refl, tt)
]

submit_prompt_once_at_most_example :
    let client = new_client (text "http://c") in
    let (answer, calls) = submit_prompt flaky client null (text "id") in
    (1 ≤ calls)
    × (calls ≤ 3)
    × (answer ≡ submit_prompt_once flaky client null (text "id") calls)
    × ((n : ℕ)
        → 1 ≤ n
        → n < calls
        → fails_to_connect (flaky.send n (submit_request client null (text "id"))) ≡ true)
    × (deliveries flaky (submit_request client null (text "id")) calls ≤ 1)
submit_prompt_once_at_most_example =
    submit_prompt_once_at_most flaky (new_client (text "http://c")) null (text "id") flaky_bodies
