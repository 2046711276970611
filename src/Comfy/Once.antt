-- ===== src/Comfy/Once.antt =====
-- `submit_prompt` of src/comfy.rs: which of its calls can have reached ComfyUI.
use zun_rust_server.Prelude.{
  ℕ, zero, suc, ◌+◌, Bool, if◌then◌else◌, ◌≤◌, ◌<◌, ◌≡◌, refl, sym, ap, true, false, ◌&&◌, List, [],
  ◌∷◌, ◌++◌, Option, none, some, leb, ltb, Bool-cases, arith, inl, inr, All, length,
}
use zun_rust_server.Prelude.Text.{Text, text}
use zun_rust_server.Server.{Bytes}
use zun_rust_server.Workflow.{Value}
use zun_rust_server.Comfy.{
  Cause, unreachable, connect, timeout, status, other, Failure, Outcome, done, failed, connect_only,
  should_retry, read_chunks, read_capped, max_json_bytes, Outcome-cases, cap_failure,
}
use zun_rust_server.Comfy.Retry.{IsRetried, with_retry-Answers}
use zun_rust_server.Comfy.Client.{
  ComfyClient, HttpResponse, HttpRequest, Net, and_then, error_for_status, or_fail, json_capped,
  send_checked, as_str, get_field, submit_request, submit_prompt_once, submit_prompt,
}

-- The outermost error of a chain is reqwest's failure to connect.
abbrev pub refused : List Cause → Bool
refused (connect ∷ causes) = true
refused _ = false

-- The request has not reached the other side, whatever the client makes of it.
abbrev pub fails_to_connect : {A : Type 0} → Outcome A → Bool
fails_to_connect (done a) = false
fails_to_connect (failed e) = refused e.chain

abbrev pub IsConnected : {A : Type 0} → Outcome A → Type 0
IsConnected r = fails_to_connect r ≡ false

refused_of_retry :
    (chain : List Cause) (message : Text)
    → should_retry (record { message = message; chain = chain }) connect_only ≡ true
    → refused chain ≡ true
unfolding should_retry
refused_of_retry [] message h = h
refused_of_retry (connect ∷ cs) message h = refl
refused_of_retry (unreachable ∷ cs) message h = h
refused_of_retry (timeout ∷ cs) message h = h
refused_of_retry (status code ∷ cs) message h = h
refused_of_retry (other ∷ cs) message h = h

and_then-IsConnected :
    {A B : Type 0}
    → (m : Outcome A) (f : A → Outcome B) → IsConnected m
    → ((a : A) → m ≡ done a → IsConnected (f a))
    → IsConnected (and_then m f)
and_then-IsConnected (done a) f h k = k a refl
and_then-IsConnected (failed e) f h k = h

or_fail-IsConnected :
    {A : Type 0} → (o : Option A) (message : Text) → IsConnected (or_fail o message)
or_fail-IsConnected none message = refl
or_fail-IsConnected (some a) message = refl

error_for_status-IsConnected : (r : HttpResponse) → IsConnected (error_for_status r)
unfolding error_for_status
error_for_status-IsConnected r = elim (Bool-cases (leb 400 r.code && ltb r.code 600)) [
  | inl bad ↦ rw bad refl
  | inr fine ↦ rw fine refl
]

error_for_status_same : (r r' : HttpResponse) → error_for_status r ≡ done r' → r ≡ r'
unfolding error_for_status
error_for_status_same r r' h = elim (Bool-cases (leb 400 r.code && ltb r.code 600)) [
  | inl bad ↦ absurd (let q = rw bad at h in cc)
  | inr fine ↦ let q = rw fine at h in cc
]

read_chunks-IsConnected :
    (cap : ℕ) (what : Text) (buf : Bytes) (chunks : List (Outcome Bytes))
    → All IsConnected chunks
    → IsConnected (read_chunks cap what buf chunks)
unfolding read_chunks
read_chunks-IsConnected cap what buf [] h = refl
read_chunks-IsConnected cap what buf (failed e ∷ chunks) h = h.0
read_chunks-IsConnected cap what buf (done chunk ∷ chunks) h =
    elim (Bool-cases (ltb cap (length buf + length chunk))) [
      | inl over ↦ rw over refl
      | inr fits ↦ rw fits (read_chunks-IsConnected cap what (buf ++ chunk) chunks h.1)
    ]

read_capped-IsConnected :
    (cap : ℕ) (what : Text) (declared : Option ℕ) (chunks : List (Outcome Bytes))
    → All IsConnected chunks
    → IsConnected (read_capped cap what declared chunks)
unfolding read_capped
read_capped-IsConnected cap what none chunks h = read_chunks-IsConnected cap what [] chunks h
read_capped-IsConnected cap what (some len) chunks h = elim (Bool-cases (ltb cap len)) [
  | inl over ↦ rw over refl
  | inr fits ↦ rw fits (read_chunks-IsConnected cap what [] chunks h)
]

submit_answered :
    (net : Net) (client : ComfyClient) (workflow : Value) (client_id : Text) (n : ℕ)
    (r : HttpResponse)
    → net.send n (submit_request client workflow client_id) ≡ done r
    → All IsConnected r.chunks
    → IsConnected (submit_prompt_once net client workflow client_id n)
unfolding submit_prompt_once send_checked json_capped
submit_answered net client workflow client_id n r sent body = rw sent (
    and_then-IsConnected (error_for_status r) _ (error_for_status-IsConnected r) (λ r' same.
      and_then-IsConnected _ _
        (and_then-IsConnected
          (read_capped max_json_bytes (text "submit_prompt") r'.declared r'.chunks) _
          (read_capped-IsConnected max_json_bytes (text "submit_prompt") r'.declared r'.chunks
            (rw (sym (error_for_status_same r r' same)) body))
          (λ bytes e. or_fail-IsConnected (net.parse bytes) _))
        (λ v e. or_fail-IsConnected (as_str (get_field (text "prompt_id") v)) _)))

-- Of the first n calls, those by which the request can have reached ComfyUI.
unfoldable pub deliveries : Net → HttpRequest → ℕ → ℕ
deliveries net req zero = 0
deliveries net req (suc n) =
    (if fails_to_connect (net.send (suc n) req) then 0 else 1) + deliveries net req n

deliveries_none :
    (net : Net) (req : HttpRequest) (m : ℕ)
    → ((n : ℕ) → 1 ≤ n → n ≤ m → fails_to_connect (net.send n req) ≡ true)
    → deliveries net req m ≡ 0
unfolding deliveries
deliveries_none net req zero h = refl
deliveries_none net req (suc m) h =
    let rest = deliveries_none net req m (λ n first last. h n first (omega (arith, last))) in
    rw (h (suc m) (omega arith) (omega arith), rest) refl

deliveries_once :
    (net : Net) (req : HttpRequest) (calls : ℕ)
    → ((n : ℕ) → 1 ≤ n → n < calls → fails_to_connect (net.send n req) ≡ true)
    → deliveries net req calls ≤ 1
unfolding deliveries
deliveries_once net req zero h = omega arith
deliveries_once net req (suc m) h =
    let before = deliveries_none net req m (λ n first last. h n first (omega (arith, last))) in
    elim (Bool-cases (fails_to_connect (net.send (suc m) req))) [
      | inl lost ↦ rw (lost, before) (omega arith)
      | inr sent ↦ rw (sent, before) (omega arith)
    ]

abbrev failure_or : Outcome Text → Failure
failure_or (done a) = cap_failure a
failure_or (failed e) = e

submit_retried :
    (net : Net) (client : ComfyClient) (workflow : Value) (client_id : Text) (n : ℕ)
    → ((r : HttpResponse)
        → net.send n (submit_request client workflow client_id) ≡ done r
        → All IsConnected r.chunks)
    → IsRetried connect_only (submit_prompt_once net client workflow client_id n)
    → fails_to_connect (net.send n (submit_request client workflow client_id)) ≡ true
unfolding submit_prompt_once send_checked
submit_retried net client workflow client_id n body again =
    let lost = refused_of_retry again.failure.chain again.failure.message again.retried in
    elim (Outcome-cases (net.send n (submit_request client workflow client_id))) [
      | inl (r, sent) ↦
          let fine = submit_answered net client workflow client_id n r sent (body r sent) in
          absurd (let q = rw again.answer at fine in cc)
      | inr (e, failing) ↦
          let q = rw failing at (again.answer) in
          let same : e ≡ again.failure = ap failure_or (q) in rw (failing, same) lost
    ]

-- A submit makes one to three calls and answers as the last of them; each call before it fails with
-- an error whose outermost cause is the failure to connect, so that at most one of its calls can
-- have reached ComfyUI: it queues no prompt twice, also when an answer is lost or late.  Once the
-- network answers, no body that is read fails to connect.
pub submit_prompt_once_at_most :
    (net : Net) (client : ComfyClient) (workflow : Value) (client_id : Text)
    → ((n : ℕ) (r : HttpResponse)
        → net.send n (submit_request client workflow client_id) ≡ done r
        → All IsConnected r.chunks)
    → let (answer, calls) = submit_prompt net client workflow client_id in
      (1 ≤ calls)
      × (calls ≤ 3)
      × (answer ≡ submit_prompt_once net client workflow client_id calls)
      × ((n : ℕ)
          → 1 ≤ n
          → n < calls
          → fails_to_connect (net.send n (submit_request client workflow client_id)) ≡ true)
      × (deliveries net (submit_request client workflow client_id) calls ≤ 1)
unfolding submit_prompt
submit_prompt_once_at_most net client workflow client_id body =
    let a = with_retry-Answers connect_only (submit_prompt_once net client workflow client_id) in
    let lost : (n : ℕ)
        → 1 ≤ n
        → n < (submit_prompt net client workflow client_id).1
        → fails_to_connect (net.send n (submit_request client workflow client_id)) ≡ true =
      λ n first later.
        submit_retried net client workflow client_id n (body n) (a.before n first later) in
    (
      a.from,
      a.bounded,
      a.result,
      lost,
      deliveries_once net (submit_request client workflow client_id)
          (submit_prompt net client workflow client_id).1 lost,
    )
