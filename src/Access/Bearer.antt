-- ===== src/Access/Bearer.antt =====
-- Who passes `require_bearer` of src/auth.rs, under a configuration that src/config.rs loads.
use zun_rust_server.Prelude.{
  ◌≤◌, ◌≡◌, ◌≢◌, ◌⊎◌, refl, ap, sym, false, [], ◌∷◌, ◌++◌, Option, none, some, ltb, ◌==◌, arith,
  Bool-cases, Option-cases, inl, inr,
}
use zun_rust_server.Prelude.Text.{Text, text, text_eq, text_eq→eq, text_eq_refl, strip_prefix, len}
use zun_rust_server.Error.{Result, err, unauthorized}
use zun_rust_server.Access.{
  token_eq, check_token, require_bearer, Config, Source, absent, broken, invalid, parsed, Loaded,
  loaded, refused, resolve_dirs, check_config, load,
}

strip_prefix_inv : (s p rest : Text) → strip_prefix s p ≡ some rest → s ≡ p ++ rest
unfolding strip_prefix
strip_prefix_inv s [] rest h = cc
strip_prefix_inv [] (p ∷ ps) rest h = cc
strip_prefix_inv (c ∷ s) (p ∷ ps) rest h = elim (Bool-cases (c == p)) [
  | inl hit ↦
      let same : c ≡ p = ground arith in let q = strip_prefix_inv s ps rest (rw hit at h) in cc
  | inr miss ↦ absurd (let q = rw miss at h in cc)
]

-- Whether a request with the header passes.
abbrev pub Passes : Text → Option Text → Type 0
Passes token header = header ≡ some (text "Bearer " ++ token)

bearer_of :
    (header token : Text)
    → strip_prefix header (text "Bearer ") ≡ some token
    → Passes token (some header)
bearer_of header token h = ap some (strip_prefix_inv header (text "Bearer ") token h)

some_inj : {A : Type 0} → (a b : A) → some a ≡ some b → a ≡ b
some_inj a b h = cc

strip_prefix_bearer : (t : Text) → strip_prefix (text "Bearer " ++ t) (text "Bearer ") ≡ some t
unfolding strip_prefix
strip_prefix_bearer t = refl

not_bearer :
    (header token : Text)
    → strip_prefix header (text "Bearer ") ≡ none
    → some header ≢ some (text "Bearer " ++ token)
not_bearer header token malformed h =
    let same = some_inj header (text "Bearer " ++ token) h in
    let stripped = rw same at malformed in let q = strip_prefix_bearer token in cc

other_token :
    (header token presented : Text)
    → strip_prefix header (text "Bearer ") ≡ some presented
    → text_eq presented token ≡ false
    → some header ≢ some (text "Bearer " ++ token)
other_token header token presented found other h =
    let same = some_inj header (text "Bearer " ++ token) h in
    let stripped = rw same at found in
    let q = strip_prefix_bearer token in
    let e : presented ≡ token = cc in let k = rw e at other in let r = text_eq_refl token in cc

module _ {S A : Type 0} where
  passes_through :
      (token : Text) (next : S → Result A × S) (s : S)
      → require_bearer token (some (text "Bearer " ++ token)) next s ≡ next s
  unfolding require_bearer token_eq
  passes_through token next s = rw (check_token, text_eq_refl token) refl

  -- The middleware on a header, and whether it is the token's.
  abbrev pub Judged : Text → Option Text → (S → Result A × S) → S → Type 0
  Judged token header next s =
      (Passes token header × (require_bearer token header next s ≡ next s))
      ⊎ ((header ≢ some (text "Bearer " ++ token))
          × (require_bearer token header next s ≡ (err unauthorized, s)))

  require_bearer-Judged :
      (token : Text) (header : Option Text) (next : S → Result A × S) (s : S)
      → Judged token header next s
  unfolding require_bearer token_eq strip_prefix
  require_bearer-Judged token none next s = inr (λ h. cc h, refl)
  require_bearer-Judged token (some header) next s =
      elim (Option-cases (strip_prefix header (text "Bearer "))) [
        | inl malformed ↦
            inr (λ h. not_bearer header token malformed h, rw (require_bearer, malformed) refl)
        | inr (presented, found) ↦ elim (Bool-cases (text_eq presented token)) [
          | inl same ↦
              let e = text_eq→eq presented token same in
              inl (
                bearer_of header token (rw e at found),
                rw (require_bearer, found) (rw (check_token, same) refl),
              )
          | inr other ↦ inr (
            λ h. other_token header token presented found other h,
            rw (require_bearer, found) (rw (check_token, other) refl),
          )
        ]
      ]

abbrev token_or : Loaded → Text
token_or (loaded c) = c.token
token_or (refused e) = []

load_token :
    (base : Text) (source : Source) (c : Config) → load base source ≡ loaded c → 32 ≤ len c.token
unfolding load resolve_dirs
load_token base absent c h = cc
load_token base broken c h = cc
load_token base invalid c h = cc
load_token base (parsed f) c h =
    elim (Bool-cases (text_eq f.token (text "REPLACE_ME_RUN_JUST_SETUP"))) [
      | inl placeholder ↦ absurd (let q = rw (check_config, placeholder) at h in cc)
      | inr chosen ↦ elim (Bool-cases (ltb (len f.token) 32)) [
        | inl short ↦ absurd (let q = rw (check_config, chosen) at h in let k = rw short at q in cc)
        | inr long ↦
            let q = rw (check_config, chosen) at h in
            let k = rw long at q in
            let same : f.token ≡ c.token = ap token_or k in rw (sym same) (ground arith)
      ]
    ]

-- Under a configuration that loads, a request reaches its handler exactly when its header is the
-- token behind `Bearer `, and the token has at least 32 bytes; any other request is answered by 401
-- and leaves the state as it was.
pub load-require_bearer :
    {S A : Type 0}
    → (base : Text) (source : Source) (c : Config) (header : Option Text) (next : S → Result A × S)
      (s : S)
    → load base source ≡ loaded c
    → (32 ≤ len c.token) × Judged c.token header next s
load-require_bearer base source c header next s h =
    (load_token base source c h, require_bearer-Judged c.token header next s)
