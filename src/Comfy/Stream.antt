-- ===== src/Comfy/Stream.antt =====
-- The reads of a body and of the stream of events.
use zun_rust_server.Prelude.{
  ℕ, ◌+◌, ◌≤◌, ◌≡◌, refl, sym, ap, map, ◌∙◌, Bool, true, false, List, [], ◌∷◌, ◌++◌, Option, none,
  some, ltb, length, length-append, arith, Bool-cases, inl, inr,
}
use mathlib.Core.List.{append-nil, append_assoc}
use zun_rust_server.Prelude.Text.{Text}
use zun_rust_server.Server.{Bytes}
use zun_rust_server.Sql.{select_where}
use zun_rust_server.Comfy.{
  Outcome, done, failed, Frame, broken, closed, skipped, event, on_kind, is_for, await_completion,
  read_chunks, read_capped,
}

read_chunks-len :
    (limit : ℕ) (what : Text) (buf : Bytes) (chunks : List (Outcome Bytes)) (bytes : Bytes)
    → length buf ≤ limit
    → read_chunks limit what buf chunks ≡ done bytes
    → length bytes ≤ limit
unfolding read_chunks
read_chunks-len limit what buf [] bytes h e = ground arith
read_chunks-len limit what buf (failed f ∷ chunks) bytes h e = cc
read_chunks-len limit what buf (done chunk ∷ chunks) bytes h e =
    ground (arith, length-append buf chunk, read_chunks-len limit what (buf ++ chunk) chunks bytes)

-- A body that is read is no longer than the cap.
pub read_capped-len :
    (limit : ℕ) (what : Text) (declared : Option ℕ) (chunks : List (Outcome Bytes)) (bytes : Bytes)
    → read_capped limit what declared chunks ≡ done bytes
    → length bytes ≤ limit
unfolding read_capped
read_capped-len limit what none chunks bytes e =
    read_chunks-len limit what [] chunks bytes (omega arith) e
read_capped-len limit what (some len) chunks bytes e =
    ground (arith, read_chunks-len limit what [] chunks bytes (omega arith))

abbrev pub concat : List Bytes → Bytes
concat [] = []
concat (b ∷ bs) = b ++ concat bs

read_chunks-concat :
    (limit : ℕ) (what : Text) (buf : Bytes) (chunks : List Bytes)
    → length buf + length (concat chunks) ≤ limit
    → read_chunks limit what buf (map done chunks) ≡ done (buf ++ concat chunks)
unfolding read_chunks
read_chunks-concat limit what buf [] h = ap done (sym (append-nil buf))
read_chunks-concat limit what buf (c ∷ cs) h =
    let fits : ltb limit (length buf + length c) ≡ false =
      ground (arith, length-append c (concat cs)) in
    rw fits (
      read_chunks-concat limit what (buf ++ c) cs
        (omega (arith, h, length-append c (concat cs), length-append buf c))
      ∙ ap done (append_assoc buf c (concat cs)))

-- A body whose chunks all arrive and which is within the cap, as is its declared length, is read
-- whole.
pub read_capped-concat :
    (limit : ℕ) (what : Text) (declared : Option ℕ) (chunks : List Bytes)
    → length (concat chunks) ≤ limit
    → ((len : ℕ) → declared ≡ some len → len ≤ limit)
    → read_capped limit what declared (map done chunks) ≡ done (concat chunks)
unfolding read_capped
read_capped-concat limit what none chunks h d =
    read_chunks-concat limit what [] chunks (omega (arith, h))
read_capped-concat limit what (some len) chunks h d =
    let within : ltb limit len ≡ false = ground (arith, d len refl) in
    rw within (read_chunks-concat limit what [] chunks (omega (arith, h)))

-- The frame concerns the prompt, or ends the stream.
abbrev pub concerns : Text → Frame → Bool
concerns prompt_id (event e) = is_for prompt_id e
concerns prompt_id skipped = false
concerns prompt_id closed = true
concerns prompt_id (broken f) = true

-- The events of other prompts and the frames that are skipped change neither the result nor the
-- progress that is sent.
pub await_completion-concerns :
    (prompt_id : Text) (frames : List Frame)
    → await_completion prompt_id (select_where (concerns prompt_id) frames)
      ≡ await_completion prompt_id frames
unfolding await_completion select_where
await_completion-concerns prompt_id [] = refl
await_completion-concerns prompt_id (broken f ∷ frames) = refl
await_completion-concerns prompt_id (closed ∷ frames) = refl
await_completion-concerns prompt_id (skipped ∷ frames) = await_completion-concerns prompt_id frames
await_completion-concerns prompt_id (event e ∷ frames) =
    let ih = await_completion-concerns prompt_id frames in
    elim (Bool-cases (is_for prompt_id e)) [
      | inl mine ↦ rw mine (rw mine (ap (on_kind e.kind) ih))
      | inr others ↦ rw others ih
    ]
