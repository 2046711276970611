-- ===== src/Examples/Handlers.antt =====
-- The handlers of jobs at concrete inputs.
use zun_rust_server.Prelude.{
  ℕ, ◌+◌, ◌%◌, ◌^◌, ◌≡◌, refl, List, [], ◌∷◌, map, Option, none, some, if◌then◌else◌, arith, ◌==◌,
}
use zun_rust_server.Prelude.Int.{pos, negsuc}
use zun_rust_server.Prelude.Text.{text_eq, text_lt}
use zun_rust_server.Error.{ok, err, not_found}
use zun_rust_server.Sql.{fetch_optional, order_by, select_where, insert_by}
use zun_rust_server.Jobs.{has_id, is_status, running, cancelled_row, requeued_row, running_row}
use zun_rust_server.Jobs.Lifecycle.{claims, requeues}
use zun_rust_server.Handlers.Control.{no_content, cancel_job, delete_job, restore_job}
use zun_rust_server.Handlers.Control.Outcomes.{
  cancel_job_alone, cancel_job_claimed, cancel_job_requeued, restore_job-delete_job,
}
use zun_rust_server.Handlers.Listing.{Cursor, CursorFormat, ListQuery, list_rows, list_item}
use zun_rust_server.Handlers.Listing.Pages.{crawl, crawl-list_rows}
use zun_rust_server.Examples.Data.{id_a, id_b, id_c, done_a, queued_b, running_c, table, server}

cancel_job_alone_example :
    let (answer, s') = cancel_job [] [] (pos 50) id_c server in
    (answer ≡ ok no_content)
    × (fetch_optional (has_id id_c) s'.jobs ≡ some (cancelled_row (pos 50) running_c))
    × (s'.interrupts
        ≡ (if is_status running_c.status running then server.interrupts + 1 else server.interrupts))
    × (s'.job_events ≡ (server.job_events + 1) % 2 ^ 64)
unfolding fetch_optional text_eq
cancel_job_alone_example =
    cancel_job_alone (pos 50) id_c server running_c ((refl, (refl, tt)), ((refl, tt), (tt, tt)))
      refl refl

cancel_job_claimed_example :
    let (answer, s') = cancel_job (claims (pos 49) id_b ∷ []) [] (pos 50) id_b server in
    (answer ≡ ok no_content)
    × (fetch_optional (has_id id_b) s'.jobs
        ≡ some (cancelled_row (pos 50) (running_row (pos 49) queued_b)))
    × (s'.interrupts ≡ server.interrupts + 1)
unfolding fetch_optional text_eq
cancel_job_claimed_example =
    cancel_job_claimed (pos 49) (pos 50) id_b server queued_b
      ((refl, (refl, tt)), ((refl, tt), (tt, tt))) refl refl

cancel_job_requeued_example :
    let (answer, s') =
      cancel_job (claims (pos 49) id_b ∷ []) (requeues id_b ∷ []) (pos 50) id_b server in
    (answer ≡ err not_found)
    × (fetch_optional (has_id id_b) s'.jobs ≡ some (requeued_row (running_row (pos 49) queued_b)))
unfolding fetch_optional text_eq
cancel_job_requeued_example =
    cancel_job_requeued (pos 49) (pos 50) id_b server queued_b
      ((refl, (refl, tt)), ((refl, tt), (tt, tt))) refl refl

restore_job-delete_job_example :
    ((delete_job (pos 50) id_a server).0 ≡ ok no_content)
    × ((restore_job id_a (delete_job (pos 50) id_a server).1).0 ≡ ok no_content)
    × ((restore_job id_a (delete_job (pos 50) id_a server).1).1.jobs ≡ server.jobs)
unfolding fetch_optional text_eq
restore_job-delete_job_example =
    restore_job-delete_job (pos 50) id_a server done_a ((refl, (refl, tt)), ((refl, tt), (tt, tt)))
      refl refl

abbrev write_cursor : Cursor → List ℕ
write_cursor c = elim c.created_at [ pos n ↦ 0 ∷ n ∷ c.id | negsuc n ↦ 1 ∷ n ∷ c.id ]

abbrev read_cursor : List ℕ → Option Cursor
read_cursor [] = none
read_cursor (t ∷ []) = none
read_cursor (t ∷ n ∷ id) =
    some (record { created_at = if t == 0 then pos n else negsuc n; id = id })

read_cursor-write_cursor : (c : Cursor) → read_cursor (write_cursor c) ≡ some c
read_cursor-write_cursor c = ground arith

-- A format of cursors that reads back what it writes.
abbrev plain_format : CursorFormat
plain_format = record {
  to_json = write_cursor;
  from_json = read_cursor;
  from_json-to_json = read_cursor-write_cursor;
  encode = λ b. b;
  decode = λ t. some t;
  decode-encode = λ b. refl;
}

abbrev by_ones : ListQuery
by_ones = record { status = none; input_id = some 1; cursor = none; limit = some (pos 1) }

crawl-list_rows_example :
    crawl plain_format 4 by_ones table ≡ ok (map list_item (list_rows none (some 1) none table))
unfolding text_eq list_rows order_by insert_by select_where text_lt
crawl-list_rows_example =
    crawl-list_rows plain_format by_ones table none 4 ((refl, (refl, tt)), ((refl, tt), (tt, tt)))
      refl refl (omega arith)
