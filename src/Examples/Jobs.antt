-- ===== src/Examples/Jobs.antt =====
-- The table of jobs at concrete inputs.
use zun_rust_server.Prelude.{◌≡◌, refl, ◌++◌, List, [], ◌∷◌, none, some, All, length}
use zun_rust_server.Prelude.Int.{pos}
use zun_rust_server.Prelude.Text.{text, text_eq}
use zun_rust_server.Sql.{fetch_optional, order_by, select_where}
use zun_rust_server.Jobs.{Job, has_id, key_lt, is_queued_live, fetch_oldest_queued, queue_position}
use zun_rust_server.Jobs.Lifecycle.{
  Write, submits, claims, completes, cancels_running, fails, deletes, apply, apply_all, Becomes,
  MovesJob, apply-Moves,
}
use zun_rust_server.Jobs.Final.{outcome, outcome_final}
use zun_rust_server.Jobs.Consistent.{UniqueIds, Agrees, apply_all-Agrees}
use zun_rust_server.Jobs.Queue.{Picks, fetch_oldest_queued-Picks, queue_position_lem}
use zun_rust_server.Examples.Data.{new_job, id_a, id_b, done_a, queued_b, table}

abbrev late_writes : List Write
late_writes =
    cancels_running (pos 40) id_a ∷ fails (pos 41) id_a (text "late") ∷ deletes (pos 42) id_a ∷ []

outcome_final_example :
    (j' : Job) × (fetch_optional (has_id id_a) (apply_all late_writes table) ≡ some j')
    × (outcome j' ≡ outcome done_a)
unfolding fetch_optional text_eq
outcome_final_example =
    outcome_final late_writes id_a table done_a (refl, (refl, (refl, tt))) refl refl

apply-Moves_example :
    Becomes MovesJob queued_b (fetch_optional (has_id id_b) (apply (claims (pos 40) id_b) table))
unfolding fetch_optional text_eq
apply-Moves_example = apply-Moves (claims (pos 40) id_b) id_b table queued_b refl

abbrev history : List Write
history =
    submits (new_job id_a (pos 10))
    ∷ claims (pos 11) id_a
    ∷ completes (pos 20) id_a (text "outputs/a.png") none none
    ∷ []

apply_all-Agrees_example :
    UniqueIds (apply_all history []) × All (λ j. Agrees j.status j) (apply_all history [])
apply_all-Agrees_example = apply_all-Agrees history

fetch_oldest_queued-Picks_example : Picks table (fetch_oldest_queued table)
unfolding text_eq
fetch_oldest_queued-Picks_example =
    fetch_oldest_queued-Picks table ((refl, (refl, tt)), ((refl, tt), (tt, tt)))

queue_position_example :
    (ys : List Job) × (zs : List Job) × (order_by key_lt (select_where is_queued_live table)
      ≡ ys ++ queued_b ∷ zs)
    × (queue_position queued_b table ≡ some (length ys))
unfolding fetch_optional text_eq
queue_position_example =
    queue_position_lem table id_b queued_b ((refl, (refl, tt)), ((refl, tt), (tt, tt))) refl refl
