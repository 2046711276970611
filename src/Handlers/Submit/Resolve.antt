-- ===== src/Handlers/Submit/Resolve.antt =====
-- src/handlers.rs: `resolve_input` and `submit_job`.
use zun_rust_server.Prelude.{
  ℕ, suc, Bool, false, not, List, [], ◌∷◌, ◌++◌, Option, none, some, is_some, if◌then◌else◌, ltb,
  ◌==◌, length,
}
use zun_rust_server.Prelude.Int.{ℤ, pos}
use zun_rust_server.Prelude.Text.{Text, text, text_eq, len}
use zun_rust_server.Limits.{max_input_name_len}
use zun_rust_server.Error.{
  Result, ok, err, bad_request, need_upload, internal, database, io, invalid_filename, bad_sha256,
  input_name_too_long, hash_mismatch, ◌>>=◌, ◌>>◌, fail_if,
}
use zun_rust_server.Sql.{fetch_optional, update_where}
use zun_rust_server.Jobs.{Job, NewJob, insert_job}
use zun_rust_server.Server.{Server, Input, Prompt, wake_worker}
use zun_rust_server.Hash.{sha256_hex, is_valid_sha256_hex}
use zun_rust_server.Paths.{
  join, data_path, cache_inputs, relative_for_db, tmp_sibling, atomic_write,
}
use zun_rust_server.Handlers.Submit.Request.{
  SubmitEnv, SubmitFields, Upload, Request, parse_submit, random_seed,
}
use zun_rust_server.Handlers.Submit.Prompt.{Resolved, resolve_prompt}

-- The check of the bytes against the hash that the client claims.
unfoldable pub check_upload : SubmitEnv → SubmitFields → Result (Unit {0})
check_upload env fields = elim fields.upload [
  | none ↦ ok tt
  | some u ↦
      let actual = sha256_hex env.digest u.bytes in
      fail_if (not (text_eq actual fields.input_sha256))
        (bad_request (hash_mismatch actual fields.input_sha256))
]

abbrev pub is_input : ℕ → Input → Bool
is_input id i = i.id == id

abbrev pub has_sha : Text → Input → Bool
has_sha sha i = text_eq i.sha256 sha

-- UPDATE inputs SET ... WHERE id = ?
abbrev pub update_input : ℕ → (Input → Input) → Server → Server
update_input id f s = record s { inputs = update_where (is_input id) f s.inputs }

abbrev pub touched : ℤ → Input → Input
touched now i = record i { last_used_at = now }

abbrev pub cleared : Input → Input
cleared i = record i { path = none }

-- The row id that SQLite gives.
unfoldable pub max_input_id : List Input → ℕ
max_input_id [] = 0
max_input_id (i ∷ is) = if ltb (max_input_id is) i.id then i.id else max_input_id is

abbrev pub width_of : Option (ℕ × ℕ) → Option ℕ
width_of none = none
width_of (some (w, h)) = some w

abbrev pub height_of : Option (ℕ × ℕ) → Option ℕ
height_of none = none
height_of (some (w, h)) = some h

-- The columns that both statements set for a file that was written.
abbrev pub stored_input : SubmitEnv → SubmitFields → Upload → Text → Input → Input
stored_input env fields u rel i = record i {
  path = some rel;
  original_name = fields.input_name;
  content_type = some u.content_type;
  size_bytes = some (length u.bytes);
  width = width_of (env.dimensions u.bytes);
  height = height_of (env.dimensions u.bytes);
  last_used_at = env.now_input;
}

abbrev pub new_input : SubmitEnv → SubmitFields → ℕ → Input
new_input env fields id = record {
  id = id;
  sha256 = fields.input_sha256;
  path = none;
  original_name = none;
  content_type = none;
  size_bytes = none;
  width = none;
  height = none;
  created_at = env.now_input;
  last_used_at = env.now_input;
}

-- The row, once the file is written: an UPDATE of the row that is there, or an INSERT.
unfoldable pub record_upload :
    SubmitEnv → SubmitFields → Upload → Text → Option ℕ → Server → Result ℕ × Server
unfolding max_input_id
record_upload env fields u rel (some id) s =
    (ok id, update_input id (stored_input env fields u rel) s)
record_upload env fields u rel none s =
    let id = suc (max_input_id s.inputs) in
    (
      ok id,
      record s {
        inputs = s.inputs ++ stored_input env fields u rel (new_input env fields id) ∷ [];
      },
    )

-- `{sha256}.{ext}`
abbrev pub cache_name : Text → Text → Text
cache_name sha ext = sha ++ text "." ++ ext

-- The write to the absolute path, `none` for a bad name.
unfoldable pub store_at :
    SubmitEnv → SubmitFields → Upload → Option ℕ → Option Text → Server → Result ℕ × Server
unfolding record_upload
store_at env fields u existing none s =
    (err (internal (invalid_filename (cache_name fields.input_sha256 u.ext))), s)
store_at env fields u existing (some abs) s =
    let w = atomic_write env.io (tmp_sibling env.suffix abs) abs u.bytes s.disk in
    if env.create_dir_error
    then (err (internal io), s)
    else if not w.succeeded
    then (err (internal io), record s { disk = w.disk })
    else record_upload env fields u (relative_for_db abs env.data_dir) existing
        (record s { disk = w.disk })

unfoldable pub store_upload :
    SubmitEnv → SubmitFields → Upload → Option ℕ → Server → Result ℕ × Server
unfolding store_at
store_upload env fields u existing s =
    store_at env fields u existing
      (data_path env.data_dir cache_inputs (cache_name fields.input_sha256 u.ext)) s

-- Without a file in the cache: a hash alone is not enough.
unfoldable pub need_or_store :
    SubmitEnv → SubmitFields → Option Upload → Option ℕ → Server → Result ℕ × Server
unfolding store_upload
need_or_store env fields none existing s = (err (need_upload existing), s)
need_or_store env fields (some u) existing s = store_upload env fields u existing s

-- A row that claims a path: the file is there, or the row is demoted.
unfoldable pub use_cached : SubmitEnv → SubmitFields → ℕ → Text → Server → Result ℕ × Server
unfolding need_or_store
use_cached env fields id path s =
    if is_some (s.disk (join env.data_dir path))
    then (ok id, update_input id (touched env.now_input) s)
    else need_or_store env fields fields.upload (some id) (update_input id cleared s)

-- The row, if there is one, and the path that it claims.
unfoldable pub resolve_row :
    SubmitEnv → SubmitFields → Input → Option Text → Server → Result ℕ × Server
unfolding use_cached need_or_store
resolve_row env fields row none s = need_or_store env fields fields.upload (some row.id) s
resolve_row env fields row (some path) s = use_cached env fields row.id path s

unfoldable pub resolve_existing :
    SubmitEnv → SubmitFields → Option Input → Server → Result ℕ × Server
unfolding resolve_row need_or_store
resolve_existing env fields none s = need_or_store env fields fields.upload none s
resolve_existing env fields (some row) s = resolve_row env fields row row.path s

unfoldable pub resolve_input : SubmitEnv → SubmitFields → Server → Result ℕ × Server
unfolding check_upload resolve_existing
resolve_input env fields s = elim (check_upload env fields) [
  | err e ↦ (err e, s)
  | ok u ↦ resolve_existing env fields (fetch_optional (has_sha fields.input_sha256) s.inputs) s
]

-- The body of the 202.
pub record Accepted : Type 0 where
  pub job_id : Text
  pub input_id : ℕ

abbrev pub new_job : SubmitEnv → Resolved → ℕ → NewJob
new_job env r input_id = record {
  job_id = env.uuid;
  input_id = input_id;
  source_prompt_id = r.source_prompt_id;
  prompt_text = r.prompt_text;
  workflow = r.workflow;
  timeout_seconds = pos r.timeout_seconds;
  seed = random_seed env.random;
  now = env.now_job;
}

-- The INSERT of the job, `none` for an id that is taken, and the wake of the worker.
abbrev pub answer_insert : SubmitEnv → ℕ → Option (List Job) → Server → Result Accepted × Server
answer_insert env input_id none s = (err (internal database), s)
answer_insert env input_id (some jobs) s =
    (ok (record { job_id = env.uuid; input_id = input_id }), wake_worker (record s { jobs = jobs }))

unfoldable pub enqueue : SubmitEnv → Resolved → ℕ → Server → Result Accepted × Server
enqueue env r input_id s = answer_insert env input_id (insert_job (new_job env r input_id) s.jobs) s

abbrev pub name_too_long : Option Text → Bool
name_too_long none = false
name_too_long (some n) = ltb max_input_name_len (len n)

-- Everything that is checked before the input is looked up.
unfoldable pub check_submit : SubmitEnv → Request → List Prompt → Result (SubmitFields × Resolved)
unfolding parse_submit resolve_prompt
check_submit env req prompts = do
  fields ← parse_submit env req
  fail_if (not (is_valid_sha256_hex fields.input_sha256)) (bad_request bad_sha256)
  fail_if (name_too_long fields.input_name) (bad_request input_name_too_long)
  r ←
      resolve_prompt env.workflows fields.prompt_id fields.prompt_text fields.workflow_override
        prompts
  ok (fields, r)

abbrev pub enqueue_resolved : SubmitEnv → Resolved → Result ℕ × Server → Result Accepted × Server
enqueue_resolved env r (err e, s) = (err e, s)
enqueue_resolved env r (ok input_id, s) = enqueue env r input_id s

unfoldable pub submit_checked :
    SubmitEnv → Result (SubmitFields × Resolved) → Server → Result Accepted × Server
unfolding resolve_input enqueue
submit_checked env (err e) s = (err e, s)
submit_checked env (ok (fields, r)) s = enqueue_resolved env r (resolve_input env fields s)

unfoldable pub submit_job : SubmitEnv → Request → Server → Result Accepted × Server
unfolding check_submit submit_checked
submit_job env req s = submit_checked env (check_submit env req s.prompts) s
