-- ===== src/Prompts/Listing.antt =====
-- src/custom_prompts.rs: `list`, and the primary key of the table that it reads.
use zun_rust_server.Prelude.{
  ℕ, suc, ◌≤◌, ◌≡◌, refl, Bool, true, false, List, [], ◌∷◌, ◌++◌, Option, some, arith, inl, inr,
  All, Bool-cases, ◌==◌, is_none,
}
use zun_rust_server.Prelude.Int.{ℤ, ltb_ℤ}
use zun_rust_server.Sql.{select_where, insert_by, order_by, update_where, fetch_optional}
use zun_rust_server.Sql.Update.{All-update_where, All-append_one, fetch_optional_test}
use zun_rust_server.Sql.Order.{
  All-mono, All-select_where, All-insert_by, All-order_by, select_where_holds,
}
use zun_rust_server.Sql.Member.{
  Member, Member-All, All-Member, Member-fetch_optional, Member-select_where, Member-order_by,
}
use zun_rust_server.Server.{Prompt}
use zun_rust_server.Prompts.{CreatePrompt, created_row, is_prompt, fetch, max_id, list}

-- A relation of each row to all that follow.
abbrev pub Pairwise : {A : Type 0} → (A → A → Type 0) → List A → Type 0
Pairwise R [] = Unit
Pairwise R (a ∷ rows) = All (R a) rows × Pairwise R rows

-- The primary key.
abbrev pub OtherId : Prompt → Prompt → Type 0
OtherId p q = (p.id == q.id) ≡ false

abbrev pub NotLater : Prompt → Prompt → Type 0
NotLater p q = ltb_ℤ q.created_at p.created_at ≡ false

abbrev earlier : Prompt → Prompt → Bool
earlier p q = ltb_ℤ p.created_at q.created_at

Pairwise-select_where :
    {A : Type 0}
    → (R : A → A → Type 0) (w : A → Bool) (rows : List A) → Pairwise R rows
    → Pairwise R (select_where w rows)
unfolding select_where
Pairwise-select_where R w [] h = tt
Pairwise-select_where R w (r ∷ rs) h = elim (Bool-cases (w r)) [
  | inl e ↦ rw e (All-select_where (R r) w rs h.0, Pairwise-select_where R w rs h.1)
  | inr e ↦ rw e (Pairwise-select_where R w rs h.1)
]

-- A symmetric relation holds in every order.
module _ {A : Type 0} (before : A → A → Bool) (R : A → A → Type 0)
    (flip : (a b : A) → R a b → R b a) where
  Pairwise-insert_by :
      (r : A) (rows : List A)
      → All (R r) rows
      → Pairwise R rows
      → Pairwise R (insert_by before r rows)
  unfolding insert_by
  Pairwise-insert_by r [] d h = (tt, tt)
  Pairwise-insert_by r (x ∷ xs) d h = elim (Bool-cases (before r x)) [
    | inl e ↦ rw e (d, h)
    | inr e ↦
        rw e (All-insert_by before (R x) r xs (flip r x d.0) h.0, Pairwise-insert_by r xs d.1 h.1)
  ]

  Pairwise-order_by : (rows : List A) → Pairwise R rows → Pairwise R (order_by before rows)
  unfolding order_by
  Pairwise-order_by [] h = tt
  Pairwise-order_by (r ∷ rs) h =
      Pairwise-insert_by r (order_by before rs) (All-order_by before (R r) rs h.0)
        (Pairwise-order_by rs h.1)

not_later : (p q s : Prompt) → earlier p q ≡ true → NotLater q s → NotLater p s
not_later p q s e h = ground (arith, e, h)

NotLater-insert_by :
    (r : Prompt) (rows : List Prompt)
    → Pairwise NotLater rows
    → Pairwise NotLater (insert_by earlier r rows)
unfolding insert_by
NotLater-insert_by r [] h = (tt, tt)
NotLater-insert_by r (x ∷ xs) h = elim (Bool-cases (earlier r x)) [
  | inl e ↦ rw e ((ground (arith, e), All-mono xs (λ s k. not_later r x s e k) h.0), h)
  | inr e ↦ rw e (All-insert_by earlier (NotLater x) r xs e h.0, NotLater-insert_by r xs h.1)
]

NotLater-order_by : (rows : List Prompt) → Pairwise NotLater (order_by earlier rows)
unfolding order_by
NotLater-order_by [] = tt
NotLater-order_by (r ∷ rs) = NotLater-insert_by r (order_by earlier rs) (NotLater-order_by rs)

-- A live row is the one that its id finds.
fetch-Member :
    (p : Prompt) (prompts : List Prompt)
    → Pairwise OtherId prompts
    → Member p prompts
    → is_none p.deleted_at ≡ true
    → fetch p.id prompts ≡ some p
unfolding fetch fetch_optional
fetch-Member p [] u m live = absurd m
fetch-Member p (x ∷ xs) u (inl e) live =
    rw e (let self : (p.id == p.id) ≡ true = ground arith in rw (self, live) refl)
fetch-Member p (x ∷ xs) u (inr m) live =
    let apart = All-Member (OtherId x) p xs u.0 m in rw apart (fetch-Member p xs u.1 m live)

-- The rows that are listed are the rows of the map, each once, none created before one ahead of it.
pub record Lists (c : ℕ → Option Prompt) (rows : List Prompt) : Type 0 where
  pub sorted : Pairwise NotLater rows
  pub once : Pairwise OtherId rows
  pub sound : All (λ p. c p.id ≡ some p) rows
  pub complete : (id : ℕ) (p : Prompt) → c id ≡ some p → Member p rows

pub list-Lists :
    (prompts : List Prompt)
    → Pairwise OtherId prompts
    → Lists (λ id. fetch id prompts) (list prompts)
unfolding list
list-Lists prompts u =
    let live : Prompt → Bool = λ p. is_none p.deleted_at in
    let rows = select_where live prompts in
    record {
      sorted = NotLater-order_by rows;
      once =
          Pairwise-order_by earlier OtherId (λ a b h. ground (arith, h)) rows
            (Pairwise-select_where OtherId live prompts u);
      sound = All-order_by earlier _ rows (
          found rows (select_where_holds live prompts)
            (All-select_where (λ p. Member p prompts) live prompts (Member-All prompts)));
      complete = λ id p here. Member-order_by earlier p rows (
          Member-select_where live p prompts
            (is_live id p (fetch_optional_test (is_prompt id) prompts p (unfold fetch in here)))
            (Member-fetch_optional (is_prompt id) p prompts (unfold fetch in here)));
    }
  where
    is_live : (id : ℕ) (p : Prompt) → is_prompt id p ≡ true → is_none p.deleted_at ≡ true
    is_live id p h = ground (arith, h)

    found :
        (rows : List Prompt)
        → All (λ p. is_none p.deleted_at ≡ true) rows
        → All (λ p. Member p prompts) rows
        → All (λ p. fetch p.id prompts ≡ some p) rows
    found [] h m = tt
    found (p ∷ ps) h m = (fetch-Member p prompts u m.0 h.0, found ps h.1 m.1)

-- The writes keep the primary key.
pub OtherId-update_where :
    (w : Prompt → Bool) (f : Prompt → Prompt) (rows : List Prompt)
    → ((r : Prompt) → (f r).id ≡ r.id)
    → Pairwise OtherId rows
    → Pairwise OtherId (update_where w f rows)
unfolding update_where
OtherId-update_where w f [] keep h = tt
OtherId-update_where w f (r ∷ rs) keep h =
    let rest = All-update_where (OtherId r) w f rs (λ s d hit. rw (keep s) d) h.0 in
    elim (Bool-cases (w r)) [
      | inl hit ↦ rw (hit, keep r) (rest, OtherId-update_where w f rs keep h.1)
      | inr miss ↦ rw miss (rest, OtherId-update_where w f rs keep h.1)
    ]

max_id_head : (p : Prompt) (ps : List Prompt) → p.id ≤ max_id (p ∷ ps)
unfolding max_id
max_id_head p ps = ground arith

max_id_tail : (p : Prompt) (ps : List Prompt) → max_id ps ≤ max_id (p ∷ ps)
unfolding max_id
max_id_tail p ps = ground arith

below_max : (rows : List Prompt) → All (λ p. p.id ≤ max_id rows) rows
below_max [] = tt
below_max (p ∷ ps) =
    let tail = max_id_tail p ps in
    (max_id_head p ps, All-mono ps (λ q k. omega (arith, k, tail)) (below_max ps))

OtherId-append_one :
    (rows : List Prompt) (n : Prompt)
    → All (λ p. OtherId p n) rows
    → Pairwise OtherId rows
    → Pairwise OtherId (rows ++ n ∷ [])
OtherId-append_one [] n d u = (tt, tt)
OtherId-append_one (r ∷ rs) n d u =
    (All-append_one (OtherId r) rs n u.0 d.0, OtherId-append_one rs n d.1 u.1)

pub OtherId-created_row :
    (now : ℤ) (body : CreatePrompt) (rows : List Prompt)
    → Pairwise OtherId rows
    → Pairwise OtherId (rows ++ created_row now (suc (max_id rows)) body ∷ [])
OtherId-created_row now body rows u =
    OtherId-append_one rows _ (All-mono rows (λ p k. ground (arith, k)) (below_max rows)) u
