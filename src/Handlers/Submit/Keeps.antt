-- ===== src/Handlers/Submit/Keeps.antt =====
-- src/handlers.rs: `submit_job` keeps the input cache sound on every branch.
use zun_rust_server.Prelude.{
  ℕ, ◌≡◌, refl, ap, inl, inr, true, not, List, Option, none, some, is_some, Bool-cases,
}
use zun_rust_server.Prelude.Text.{Text, text_eq, text_eq→eq}
use zun_rust_server.Error.{
  Result, ok, err, Result-cases, ◌>>=◌, fail_if, fail_if_passes, ◌>>◌, input_name_too_long,
  bad_request, hash_mismatch, bad_sha256,
}
use zun_rust_server.Sql.{fetch_optional}
use zun_rust_server.Server.{Server, Input, Prompt, wake_worker}
use zun_rust_server.Jobs.{Job, insert_job}
use zun_rust_server.Hash.{sha256_hex, is_valid_sha256_hex}
use zun_rust_server.Paths.{
  needs_slash, data_path, cache_inputs, join, relative_for_db, tmp_sibling, atomic_write,
}
use zun_rust_server.Handlers.Submit.Request.{SubmitEnv, SubmitFields, Upload, Request, parse_submit}
use zun_rust_server.Handlers.Submit.Prompt.{Resolved, resolve_prompt}
use zun_rust_server.Handlers.Submit.Resolve.{
  name_too_long, has_sha, update_input, cleared, record_upload, cache_name, store_at, store_upload,
  need_or_store, use_cached, resolve_row, resolve_existing, resolve_input, check_upload,
  answer_insert, new_job, enqueue, enqueue_resolved, check_submit, submit_checked, submit_job,
}
use zun_rust_server.Handlers.Submit.Sound.{CacheSound, atomic_write-CacheSound}

-- The bytes of an upload have the hash that the client claims.
abbrev Hashed : SubmitEnv → SubmitFields → Option Upload → Type 0
Hashed env fields none = Unit
Hashed env fields (some u) = sha256_hex env.digest u.bytes ≡ fields.input_sha256

hash_checked :
    (env : SubmitEnv) (fields : SubmitFields) (upload : Option Upload)
    → fields.upload ≡ upload
    → check_upload env fields ≡ ok tt
    → Hashed env fields upload
unfolding check_upload
hash_checked env fields none e h = tt
hash_checked env fields (some u) e h =
    let q = rw (check_upload, e) at h in
    let actual = sha256_hex env.digest u.bytes in
    let k =
      fail_if_passes (not (text_eq actual fields.input_sha256))
        (bad_request (hash_mismatch actual fields.input_sha256)) q in
    elim (Bool-cases (text_eq actual fields.input_sha256)) [
      | inl same ↦ text_eq→eq actual fields.input_sha256 same
      | inr other ↦ absurd (let r = rw other at k in cc)
    ]

record_upload-disk :
    (env : SubmitEnv) (fields : SubmitFields) (u : Upload) (rel : Text) (existing : Option ℕ)
    (s : Server)
    → (record_upload env fields u rel existing s).1.disk ≡ s.disk
unfolding record_upload
record_upload-disk env fields u rel none s = refl
record_upload-disk env fields u rel (some id) s = refl

module _ (env : SubmitEnv) (fields : SubmitFields) (dir : needs_slash env.data_dir ≡ true)
    (valid : is_valid_sha256_hex fields.input_sha256 ≡ true) where
  store_at_sound :
      (u : Upload) (existing : Option ℕ) (path : Option Text) (s : Server)
      → Hashed env fields (some u)
      → data_path env.data_dir cache_inputs (cache_name fields.input_sha256 u.ext) ≡ path
      → CacheSound env.digest env.data_dir s.disk
      → CacheSound env.digest env.data_dir (store_at env fields u existing path s).1.disk
  unfolding store_at
  store_at_sound u existing none s hashed found sound = sound
  store_at_sound u existing (some abs) s hashed found sound =
      let tmp = tmp_sibling env.suffix abs in
      let after = atomic_write env.io tmp abs u.bytes s.disk in
      let kept =
        atomic_write-CacheSound env.data_dir dir env.digest env.io env.suffix fields.input_sha256
          u.ext abs u.bytes s.disk valid hashed found sound in
      elim (Bool-cases env.create_dir_error) [
        | inl no_dir ↦ rw (store_at, no_dir) sound
        | inr made ↦ elim (Bool-cases after.succeeded) [
          | inr failed ↦ rw (store_at, made, failed) kept
          | inl written ↦
              rw (store_at, made, written)
                (rw
                  (record_upload-disk env fields u (relative_for_db abs env.data_dir) existing
                    (record s { disk = after.disk }))
                  kept)
        ]
      ]

  need_or_store_sound :
      (upload : Option Upload) (existing : Option ℕ) (s : Server)
      → Hashed env fields upload
      → CacheSound env.digest env.data_dir s.disk
      → CacheSound env.digest env.data_dir (need_or_store env fields upload existing s).1.disk
  unfolding need_or_store store_upload
  need_or_store_sound none existing s hashed sound = sound
  need_or_store_sound (some u) existing s hashed sound =
      store_at_sound u existing
        (data_path env.data_dir cache_inputs (cache_name fields.input_sha256 u.ext)) s hashed refl
        sound

  use_cached_sound :
      (id : ℕ) (path : Text) (s : Server)
      → Hashed env fields fields.upload
      → CacheSound env.digest env.data_dir s.disk
      → CacheSound env.digest env.data_dir (use_cached env fields id path s).1.disk
  unfolding use_cached
  use_cached_sound id path s hashed sound =
      elim (Bool-cases (is_some (s.disk (join env.data_dir path)))) [
        | inl there ↦ rw there sound
        | inr gone ↦
            rw gone
              (need_or_store_sound fields.upload (some id) (update_input id cleared s) hashed sound)
      ]

  resolve_row_sound :
      (row : Input) (path : Option Text) (s : Server)
      → Hashed env fields fields.upload
      → CacheSound env.digest env.data_dir s.disk
      → CacheSound env.digest env.data_dir (resolve_row env fields row path s).1.disk
  unfolding resolve_row
  resolve_row_sound row none s hashed sound =
      need_or_store_sound fields.upload (some row.id) s hashed sound
  resolve_row_sound row (some path) s hashed sound = use_cached_sound row.id path s hashed sound

  resolve_existing_sound :
      (found : Option Input) (s : Server)
      → Hashed env fields fields.upload
      → CacheSound env.digest env.data_dir s.disk
      → CacheSound env.digest env.data_dir (resolve_existing env fields found s).1.disk
  unfolding resolve_existing
  resolve_existing_sound none s hashed sound = need_or_store_sound fields.upload none s hashed sound
  resolve_existing_sound (some row) s hashed sound = resolve_row_sound row row.path s hashed sound

  resolve_input_sound :
      (s : Server)
      → CacheSound env.digest env.data_dir s.disk
      → CacheSound env.digest env.data_dir (resolve_input env fields s).1.disk
  unfolding resolve_input
  resolve_input_sound s sound = elim (Result-cases (check_upload env fields)) [
    | inr (e, bad) ↦ rw (resolve_input, bad) sound
    | inl fine ↦
        rw (resolve_input, fine)
          (resolve_existing_sound (fetch_optional (has_sha fields.input_sha256) s.inputs) s
            (hash_checked env fields fields.upload refl fine) sound)
  ]

answer_insert-disk :
    (env : SubmitEnv) (id : ℕ) (jobs : Option (List Job)) (s : Server)
    → (answer_insert env id jobs s).1.disk ≡ s.disk
unfolding wake_worker
answer_insert-disk env id none s = refl
answer_insert-disk env id (some jobs) s = refl

enqueue_resolved-disk :
    (env : SubmitEnv) (r : Resolved) (input : Result ℕ) (s : Server)
    → (enqueue_resolved env r (input, s)).1.disk ≡ s.disk
unfolding enqueue
enqueue_resolved-disk env r (err e) s = refl
enqueue_resolved-disk env r (ok id) s =
    answer_insert-disk env id (insert_job (new_job env r id) s.jobs) s

bind-eq-ok :
    {A B : Type 0}
    → (m : Result A) (k : A → Result B) (b : B) → (m >>= k) ≡ ok b
    → (a : A) × (m ≡ ok a) × (k a ≡ ok b)
bind-eq-ok (ok a) k b h = (a, refl, h)
bind-eq-ok (err e) k b h = cc

abbrev with_fields : SubmitFields → Resolved → Result (SubmitFields × Resolved)
with_fields fields r = ok (fields, r)

abbrev fields_or : SubmitFields → Result (SubmitFields × Resolved) → SubmitFields
fields_or d (ok (fields, r)) = fields
fields_or d (err e) = d

-- The first of three checks in a row that pass, and the fields that are passed on.
checks_inv :
    (first second : Result (Unit {0})) (resolved : Result Resolved) (parsed fields : SubmitFields)
    (r : Resolved)
    → (first >> (second >> (resolved >>= with_fields parsed))) ≡ ok (fields, r)
    → (first ≡ ok tt) × (parsed ≡ fields)
checks_inv (err e) second resolved parsed fields r h = cc
checks_inv (ok u) (err e) resolved parsed fields r h = cc
checks_inv (ok u) (ok v) (err e) parsed fields r h = cc
checks_inv (ok u) (ok v) (ok x) parsed fields r h = (refl, ap (λ c. fields_or parsed c) h)

check_submit_valid :
    (env : SubmitEnv) (req : Request) (prompts : List Prompt) (fields : SubmitFields) (r : Resolved)
    → check_submit env req prompts ≡ ok (fields, r)
    → is_valid_sha256_hex fields.input_sha256 ≡ true
unfolding check_submit
check_submit_valid env req prompts fields r h =
    let (parsed, at_parse, rest) = bind-eq-ok (parse_submit env req) _ (fields, r) h in
    let (sha_checked, same) =
      checks_inv (fail_if (not (is_valid_sha256_hex parsed.input_sha256)) (bad_request bad_sha256))
        (fail_if (name_too_long parsed.input_name) (bad_request input_name_too_long))
        (resolve_prompt env.workflows parsed.prompt_id parsed.prompt_text parsed.workflow_override
          prompts)
        parsed fields r rest in
    let q =
      fail_if_passes (not (is_valid_sha256_hex parsed.input_sha256)) (bad_request bad_sha256)
        sha_checked in
    elim (Bool-cases (is_valid_sha256_hex parsed.input_sha256)) [
      | inl valid ↦ rw same at valid
      | inr invalid ↦ absurd (let k = rw invalid at q in cc)
    ]

submit_checked_sound :
    (env : SubmitEnv) (req : Request) (checks : Result (SubmitFields × Resolved)) (s : Server)
    → needs_slash env.data_dir ≡ true
    → check_submit env req s.prompts ≡ checks
    → CacheSound env.digest env.data_dir s.disk
    → CacheSound env.digest env.data_dir (submit_checked env checks s).1.disk
unfolding submit_checked
submit_checked_sound env req (err e) s dir h sound = sound
submit_checked_sound env req (ok (fields, r)) s dir h sound =
    let (input, s') = resolve_input env fields s in
    rw (enqueue_resolved-disk env r input s')
      (resolve_input_sound env fields dir (check_submit_valid env req s.prompts fields r h) s sound)

-- A submit keeps the input cache sound: when every JPEG and PNG of the cache has the SHA-256 that
-- its name says, then so has every one after the request, whatever bytes and hash the client sends,
-- and whatever fails on the way.
pub submit_job-CacheSound :
    (env : SubmitEnv) (req : Request) (s : Server)
    → needs_slash env.data_dir ≡ true
    → CacheSound env.digest env.data_dir s.disk
    → CacheSound env.digest env.data_dir (submit_job env req s).1.disk
unfolding submit_job
submit_job-CacheSound env req s dir sound =
    submit_checked_sound env req (check_submit env req s.prompts) s dir refl sound
