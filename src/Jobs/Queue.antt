-- ===== src/Jobs/Queue.antt =====
-- The worker's queue: `fetch_oldest_queued` of src/worker.rs and `queue_position` of `get_job`.
use zun_rust_server.Prelude.{
  ◌≡◌, refl, sym, ap, ◌∙◌, subst, true, false, ◌&&◌, List, [], ◌∷◌, ◌++◌, Option, none, some, arith,
  All, length, &&_left,
}
use zun_rust_server.Prelude.Text.{Text, text_lt_irrefl, text_lt_trans, text_lt_total, text_eq_iff}
use zun_rust_server.Sql.{fetch_optional, select_where, order_by, count_where, first_row}
use zun_rust_server.Sql.Order.{
  IsOrdered, AllComparable, Comparable, All-mono, All-select_where, All-order_by, All-order_by_inv,
  AllComparable-select_where, order_by-IsOrdered, order_by-select_where, select_before,
  first_of-IsOrdered, select_where_holds,
}
use zun_rust_server.Sql.Member.{
  Member, Member-All, Member-split, Member-order_by, Member-select_where, Member-fetch_optional,
  count_where-length, select_where-select_where, length-order_by,
}
use zun_rust_server.Jobs.{
  Job, queued, is_status, has_id, key_lt, is_queued_live, fetch_oldest_queued, queue_position,
}
use zun_rust_server.Jobs.Consistent.{UniqueIds, Differs}

pub key_lt_irrefl : (a : Job) → key_lt a a ≡ false
key_lt_irrefl a = ground (arith, text_lt_irrefl a.id)

pub key_lt_trans : (a b c : Job) → key_lt a b ≡ true → key_lt b c ≡ true → key_lt a c ≡ true
key_lt_trans a b c h k = ground (arith, text_lt_trans a.id b.id c.id)

key_lt_total : (a b : Job) → Differs a.id b → Comparable key_lt a b
key_lt_total a b d = ground (arith, text_lt_total a.id b.id, text_eq_iff b.id a.id)

pub UniqueIds-AllComparable : (jobs : List Job) → UniqueIds jobs → AllComparable key_lt jobs
UniqueIds-AllComparable [] u = tt
UniqueIds-AllComparable (j ∷ js) u =
    (All-mono js (λ k d. key_lt_total j k d) u.0, UniqueIds-AllComparable js u.1)

-- What the worker should pick: the first of the queued jobs that are not deleted, by the time of
-- submission and then by id, and nothing only if there is no such job.
abbrev pub Picks : List Job → Option Job → Type 0
Picks jobs none = select_where is_queued_live jobs ≡ []
Picks jobs (some j) =
    Member j jobs
    × (is_queued_live j ≡ true)
    × All (λ k. key_lt k j ≡ false) (select_where is_queued_live jobs)

abbrev queue : List Job → List Job
queue jobs = order_by key_lt (select_where is_queued_live jobs)

queue-IsOrdered : (jobs : List Job) → UniqueIds jobs → IsOrdered key_lt (queue jobs)
queue-IsOrdered jobs u =
    order_by-IsOrdered key_lt key_lt_trans (select_where is_queued_live jobs)
      (AllComparable-select_where key_lt is_queued_live jobs (UniqueIds-AllComparable jobs u))

empty_of_All : (rows : List Job) → All (λ k. ⊥) rows → rows ≡ []
empty_of_All [] h = refl
empty_of_All (r ∷ rs) h = absurd h.0

first_row-Picks :
    (jobs q : List Job) → queue jobs ≡ q → IsOrdered key_lt q → Picks jobs (first_row q)
first_row-Picks jobs [] e o = empty_of_All (select_where is_queued_live jobs) (
    All-order_by_inv key_lt (λ k. ⊥) (select_where is_queued_live jobs)
      (subst (All (λ k. ⊥)) (sym e) tt))
first_row-Picks jobs (j ∷ q) e o = (
  from (λ k. Member k jobs)
      (All-select_where (λ k. Member k jobs) is_queued_live jobs (Member-All jobs)),
  from (λ k. is_queued_live k ≡ true) (select_where_holds is_queued_live jobs),
  All-order_by_inv key_lt (λ k. key_lt k j ≡ false) (select_where is_queued_live jobs)
      (subst (All (λ k. key_lt k j ≡ false)) (sym e)
        (first_of-IsOrdered key_lt key_lt_trans key_lt_irrefl j q o)),
)
  where
    from : (P : Job → Type 0) → All P (select_where is_queued_live jobs) → P j
    from P h = (subst (All P) e (All-order_by key_lt P (select_where is_queued_live jobs) h)).0

-- In a table with unique ids `fetch_oldest_queued` picks a queued job that is not deleted and that
-- no other such job precedes by (created_at, id), and finds none only if the table holds none.
pub fetch_oldest_queued-Picks :
    (jobs : List Job) → UniqueIds jobs → Picks jobs (fetch_oldest_queued jobs)
unfolding fetch_oldest_queued
fetch_oldest_queued-Picks jobs u = first_row-Picks jobs (queue jobs) refl (queue-IsOrdered jobs u)

count_ahead :
    (jobs : List Job) (j : Job)
    → UniqueIds jobs
    → count_where (λ k. is_queued_live k && key_lt k j) jobs
      ≡ length (select_where (λ k. key_lt k j) (queue jobs))
count_ahead jobs j u =
    count_where-length (λ k. is_queued_live k && key_lt k j) jobs
    ∙ ap length (sym (select_where-select_where (λ k. key_lt k j) is_queued_live jobs))
    ∙ sym (length-order_by key_lt (select_where (λ k. key_lt k j) queued_rows))
    ∙ ap length (
        order_by-select_where key_lt key_lt_trans (λ k. key_lt k j) queued_rows
          (AllComparable-select_where key_lt is_queued_live jobs (UniqueIds-AllComparable jobs u)))
  where
    queued_rows : List Job
    queued_rows = select_where is_queued_live jobs

-- In a table with unique ids, the position that `get_job` reports for a queued job that is not
-- deleted is its place in the order in which the worker picks jobs: so many stand ahead of it.
pub queue_position_lem :
    (jobs : List Job) (id : Text) (j : Job)
    → UniqueIds jobs
    → fetch_optional (has_id id) jobs ≡ some j
    → is_queued_live j ≡ true
    → (ys : List Job) × (zs : List Job) × (order_by key_lt (select_where is_queued_live jobs)
        ≡ ys ++ j ∷ zs)
      × (queue_position j jobs ≡ some (length ys))
unfolding queue_position
queue_position_lem jobs id j u found ready =
    let (ys, zs, e) = Member-split j (queue jobs) (
      Member-order_by key_lt j (select_where is_queued_live jobs) (
        Member-select_where is_queued_live j jobs ready
          (Member-fetch_optional (has_id id) j jobs found))) in
    (
      ys,
      zs,
      e,
      rw (&&_left (is_status j.status queued) _ ready) (
          ap some (
            count_ahead jobs j u
            ∙ ap (λ q. length (select_where (λ k. key_lt k j) q)) e
            ∙ ap length (
                select_before key_lt key_lt_trans key_lt_irrefl ys j zs
                  (subst (IsOrdered key_lt) e (queue-IsOrdered jobs u))))),
    )
