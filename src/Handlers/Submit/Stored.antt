-- ===== src/Handlers/Submit/Stored.antt =====
-- src/handlers.rs `resolve_input`: what the upload of a new input answers and leaves.
use zun_rust_server.Prelude.{
  ℕ, ◌≡◌, refl, ◌∙◌, true, false, List, [], ◌∷◌, ◌++◌, Option, none, some, is_some, Bool-cases, inl,
  inr, ==_iff,
}
use zun_rust_server.Prelude.Text.{Text, text, starts_with}
use zun_rust_server.Error.{Result, ok, err}
use zun_rust_server.Sql.Member.{Member, Member-update_where}
use zun_rust_server.Server.{Server, Input}
use zun_rust_server.Paths.{
  join, needs_slash, data_path, cache_inputs, relative_for_db, tmp_sibling, atomic_write,
}
use zun_rust_server.Paths.Atomic.{atomic_write_succeeds}
use zun_rust_server.Paths.Relative.{join-relative_for_db}
use zun_rust_server.Handlers.Submit.Request.{SubmitEnv, SubmitFields, Upload}
use zun_rust_server.Handlers.Submit.Resolve.{
  is_input, update_input, stored_input, new_input, record_upload, cache_name, store_at,
  store_upload, need_or_store,
}

Member-append_last : {A : Type 0} → (rows : List A) (a : A) → Member a (rows ++ a ∷ [])
Member-append_last [] a = inl refl
Member-append_last (r ∷ rs) a = inr (Member-append_last rs a)

-- A row of the id for the hash.
pub record Held (sha : Text) (id : ℕ) (inputs : List Input) : Type 0 where
  pub row : Input
  pub member : Member row inputs
  pub id_is : row.id ≡ id
  pub sha_is : row.sha256 ≡ sha

-- Such a row, with a file that is on the disk.
pub record HasInput (data_dir sha : Text) (id : ℕ) (s : Server) : Type 0 where
  pub row : Input
  pub member : Member row s.inputs
  pub id_is : row.id ≡ id
  pub sha_is : row.sha256 ≡ sha
  pub path : Text
  pub path_is : row.path ≡ some path
  pub on_disk : is_some (s.disk (join data_dir path)) ≡ true

-- The jobs and the wake of the worker are as they were.
abbrev pub SameQueue : Server → Server → Type 0
SameQueue s s' = (s'.jobs ≡ s.jobs) × (s'.worker_wake ≡ s.worker_wake)

abbrev pub HasInputIfOk : Text → Text → Result ℕ → Server → Type 0
HasInputIfOk data_dir sha (ok id) s = HasInput data_dir sha id s
HasInputIfOk data_dir sha (err e) s = Unit

abbrev pub HeldIfAny : Text → Option ℕ → List Input → Type 0
HeldIfAny sha none inputs = Unit
HeldIfAny sha (some id) inputs = Held sha id inputs

pub is_input_self : (i : Input) (id : ℕ) → i.id ≡ id → is_input id i ≡ true
is_input_self i id e = (==_iff i.id id).1 e

pub update_input-Held :
    (sha : Text) (id : ℕ) (f : Input → Input) (s : Server)
    → ((i : Input) → (f i).id ≡ i.id)
    → ((i : Input) → (f i).sha256 ≡ i.sha256)
    → Held sha id s.inputs
    → Held sha id (update_input id f s).inputs
update_input-Held sha id f s keep_id keep_sha h = record {
  row = f h.row;
  member =
      Member-update_where (is_input id) f h.row s.inputs (is_input_self h.row id h.id_is) h.member;
  id_is = keep_id h.row ∙ h.id_is;
  sha_is = keep_sha h.row ∙ h.sha_is;
}

pub cache_open : needs_slash cache_inputs ≡ true
unfolding needs_slash
cache_open = refl

pub cache_plain : starts_with cache_inputs (text "/") ≡ false
unfolding starts_with
cache_plain = refl

abbrev pub Outcome : SubmitEnv → SubmitFields → Server → Result ℕ × Server → Type 0
Outcome env fields s (r, s') = SameQueue s s' × HasInputIfOk env.data_dir fields.input_sha256 r s'

module _ (env : SubmitEnv) (fields : SubmitFields) (dir : needs_slash env.data_dir ≡ true) where
  record_upload-HasInput :
      (u : Upload) (rel : Text) (existing : Option ℕ) (s : Server)
      → HeldIfAny fields.input_sha256 existing s.inputs
      → is_some (s.disk (join env.data_dir rel)) ≡ true
      → let (r, s') = record_upload env fields u rel existing s in
        HasInputIfOk env.data_dir fields.input_sha256 r s'
  unfolding record_upload
  record_upload-HasInput u rel none s held here = record {
    row = stored_input env fields u rel (new_input env fields _);
    member = Member-append_last s.inputs _;
    id_is = refl;
    sha_is = refl;
    path = rel;
    path_is = refl;
    on_disk = here;
  }
  record_upload-HasInput u rel (some id) s held here = record {
    row = stored_input env fields u rel held.row;
    member =
        Member-update_where (is_input id) (stored_input env fields u rel) held.row s.inputs
          (is_input_self held.row id held.id_is) held.member;
    id_is = held.id_is;
    sha_is = held.sha_is;
    path = rel;
    path_is = refl;
    on_disk = here;
  }

  record_upload-SameQueue :
      (u : Upload) (rel : Text) (existing : Option ℕ) (s : Server)
      → SameQueue s (record_upload env fields u rel existing s).1
  unfolding record_upload
  record_upload-SameQueue u rel none s = (refl, refl)
  record_upload-SameQueue u rel (some id) s = (refl, refl)

  store_at-Outcome :
      (u : Upload) (existing : Option ℕ) (path : Option Text) (s : Server)
      → ((abs : Text)
          → path ≡ some abs
          → join env.data_dir (relative_for_db abs env.data_dir) ≡ abs)
      → HeldIfAny fields.input_sha256 existing s.inputs
      → Outcome env fields s (store_at env fields u existing path s)
  unfolding store_at
  store_at-Outcome u existing none s there held = ((refl, refl), tt)
  store_at-Outcome u existing (some abs) s there held =
      let tmp = tmp_sibling env.suffix abs in
      let s1 : Server = record s { disk = (atomic_write env.io tmp abs u.bytes s.disk).disk } in
      elim (Bool-cases env.create_dir_error) [
        | inl no_dir ↦ rw (store_at, no_dir) ((refl, refl), tt)
        | inr made ↦ elim (Bool-cases (atomic_write env.io tmp abs u.bytes s.disk).succeeded) [
          | inr failed ↦ rw (store_at, made, failed) ((refl, refl), tt)
          | inl written ↦
              rw (store_at, made, written)
                (
                  record_upload-SameQueue u (relative_for_db abs env.data_dir) existing s1,
                  record_upload-HasInput u (relative_for_db abs env.data_dir) existing s1 held (
                      rw
                        (
                          there abs refl,
                          atomic_write_succeeds env.io tmp abs u.bytes s.disk written,
                        )
                        refl),
                )
        ]
      ]

  store_upload-Outcome :
      (u : Upload) (existing : Option ℕ) (s : Server)
      → HeldIfAny fields.input_sha256 existing s.inputs
      → Outcome env fields s (store_upload env fields u existing s)
  unfolding store_upload
  store_upload-Outcome u existing s held =
      let name = cache_name fields.input_sha256 u.ext in
      store_at-Outcome u existing (data_path env.data_dir cache_inputs name) s
        (λ abs found.
          join-relative_for_db env.data_dir cache_inputs name abs dir cache_open cache_plain found)
        held

  pub need_or_store-Outcome :
      (upload : Option Upload) (existing : Option ℕ) (s : Server)
      → HeldIfAny fields.input_sha256 existing s.inputs
      → Outcome env fields s (need_or_store env fields upload existing s)
  unfolding need_or_store
  need_or_store-Outcome none existing s held = ((refl, refl), tt)
  need_or_store-Outcome (some u) existing s held = store_upload-Outcome u existing s held
