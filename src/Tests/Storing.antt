-- ===== src/Tests/Storing.antt =====
-- Examples of the theorems on the store.
use grns.Base.{
  ◌++◌, if◌then◌else◌, ◌+◌, unique_strings, String, contains, all, not, ◌||◌, ◌==◌, ◌≡◌, refl, true,
  false, List, [], ◌∷◌, none, some, arith, filter, list_beq, length, drop,
}
use mathlib.Core.Option
use mathlib.Core.List.{Perm, Mem, Memᴰ}
use grns.Base.Text.{Text, text_eq, codes, trim_space, to_lower, byte_len}
use grns.Errors.{Result, ok, err}
use grns.Models.Domain.{ready_task_statuses}
use grns.Store.Invariant.{IsWellFormed}
use grns.Store.Invariant.Histories.{Op, run_ops, apply_op, run_ops-IsWellFormed}
use grns.Store.Lifecycle.{update_known, is_known, close_tasks_exact}
use grns.Store.Lifecycle.Reopened.{is_open_if_in, untouched, reopen_tasks-reopens}
use grns.Store.ListQuery.{build_list_query}
use grns.Store.ListQuery.Marks.{marks}
use grns.Store.ListQuery.Balance.{placeholders_match_arguments}
use grns.Store.Project.{normalize_project, project_from_task_id, same_task_project}
use grns.Store.Queries.{list_ready_tasks, scan_task, limited}
use grns.Store.Ready.{close_unblocks}
use grns.Store.Ready.Ordered.{is_ordered, newer, older, rows-is_ordered}
use grns.Store.Queries.{ready_rows, stale_rows}
use grns.Store.Ready.Queue.{list_ready_tasks_exact, waits_for_nothing}
use grns.Store.Ready.Scans.{is_scannable, listed_ids}
use grns.Store.Auth.Readable.{is_some}
use grns.Models.{Task}
use grns.Store.RoundTrip.{is_dated_task, scan_task-task_row}
use grns.Store.SpecRegex.{
  Scans, row_more, no_rows, filter_rows_by_spec_regex, is_listed, spec_regex_page,
}
use grns.Store.Tables.{Db, TaskRow, empty_db, ids}
use grns.Store.Tasks.{close_tasks, reopen_tasks, closed_row, task_row, create_tasks}
use grns.Store.Time.{db_format_time, db_parse_time, db_before}
use grns.Store.Time.Order.{
  db_parse_time-db_format_time, read_back, is_dated, db_before_dated, db_before_misorders,
}
use grns.Tests.Samples.{sample_ops, sample_task, sample_filter}

abbrev sample_db : Db
sample_db = run_ops sample_ops empty_db

run_ops-IsWellFormed_example : IsWellFormed sample_db
run_ops-IsWellFormed_example = run_ops-IsWellFormed sample_ops

wanted_ids : List Text
wanted_ids = codes "gr-aaaa" ∷ codes "gr-aaaa" ∷ codes "gr-none" ∷ []

close_tasks_exact_example :
    close_tasks (codes "GR ") wanted_ids 9 sample_db
    ≡ update_known (normalize_project (codes "GR ")) wanted_ids (closed_row 9) sample_db
close_tasks_exact_example =
    close_tasks_exact (codes "GR ") wanted_ids 9 sample_db (run_ops-IsWellFormed sample_ops)

abbrev open_row : String → TaskRow
open_row id = task_row (codes "gr") (sample_task id "open")

abbrev result_or : Db → Result Db → Db
result_or db (ok db') = db'
result_or db (err e) = db

-- The first task closed, for which the second waits.
abbrev closed_db : Db
closed_db = result_or sample_db (close_tasks (codes "gr") (codes "gr-aaaa" ∷ []) 9 sample_db)

closes : close_tasks (codes "gr") (codes "gr-aaaa" ∷ []) 9 sample_db ≡ ok closed_db
unfolding close_tasks run_ops codes unique_strings create_tasks project_from_task_id trim_space
    to_lower byte_len list_beq contains same_task_project normalize_project task_row
closes = refl

waits : Mem (open_row "gr-bbbb") sample_db.tasks
unfolding run_ops codes unique_strings create_tasks project_from_task_id trim_space to_lower
    byte_len list_beq contains same_task_project normalize_project task_row
waits = ∣ Memᴰ.tail (Memᴰ.head refl) ∣₁

is_waiting_ready :
    (contains ready_task_statuses (open_row "gr-bbbb").status ≡ true)
    × (contains (codes "gr-aaaa" ∷ []) (open_row "gr-bbbb").id ≡ false)
    × ((open_row "gr-bbbb").project_id ≡ normalize_project (codes "gr"))
unfolding contains codes task_row list_beq normalize_project trim_space to_lower byte_len
is_waiting_ready = (refl, refl, refl)

covered :
    all
      (λ d.
        not (d.child_id == (open_row "gr-bbbb").id) || contains (codes "gr-aaaa" ∷ []) d.parent_id)
      sample_db.deps
    ≡ true
unfolding run_ops codes unique_strings create_tasks project_from_task_id trim_space to_lower
    byte_len list_beq contains same_task_project normalize_project task_row
covered = refl

closed_scannable : all is_scannable closed_db.tasks ≡ true
unfolding close_tasks run_ops codes unique_strings create_tasks project_from_task_id trim_space
    to_lower byte_len list_beq contains same_task_project normalize_project task_row scan_task
    Option.bind
closed_scannable = refl

close_unblocks_example :
    (tasks : List Task) × (task : Task) × (list_ready_tasks (codes "gr") 0 closed_db ≡ some tasks)
    × (scan_task (open_row "gr-bbbb") ≡ some task)
    × Mem task tasks
close_unblocks_example =
    close_unblocks (codes "gr") (codes "gr-aaaa" ∷ []) 9 sample_db closed_db (open_row "gr-bbbb")
      (run_ops-IsWellFormed sample_ops) closes waits is_waiting_ready.2 is_waiting_ready.0
      is_waiting_ready.1 covered closed_scannable

abbrev reopened_db : Db
reopened_db = result_or sample_db (reopen_tasks (codes "gr") (codes "gr-aaaa" ∷ []) 11 closed_db)

reopens : reopen_tasks (codes "gr") (codes "gr-aaaa" ∷ []) 11 closed_db ≡ ok reopened_db
unfolding close_tasks reopen_tasks run_ops codes unique_strings create_tasks project_from_task_id
    trim_space to_lower byte_len list_beq contains same_task_project normalize_project task_row
reopens = refl

closed_db-IsWellFormed : IsWellFormed closed_db
unfolding run_ops apply_op
closed_db-IsWellFormed =
    run_ops-IsWellFormed (sample_ops ++ Op.closes (codes "gr") (codes "gr-aaaa" ∷ []) 9 ∷ [])

reopen_tasks-reopens_example :
    (all (is_known (normalize_project (codes "gr")) closed_db.tasks) (codes "gr-aaaa" ∷ []) ≡ true)
    × (all (is_open_if_in (normalize_project (codes "gr")) (codes "gr-aaaa" ∷ [])) reopened_db.tasks
        ≡ true)
    × (untouched (normalize_project (codes "gr")) (codes "gr-aaaa" ∷ []) reopened_db.tasks
        ≡ untouched (normalize_project (codes "gr")) (codes "gr-aaaa" ∷ []) closed_db.tasks)
    × (ids reopened_db.tasks ≡ ids closed_db.tasks)
reopen_tasks-reopens_example =
    reopen_tasks-reopens (codes "gr") (codes "gr-aaaa" ∷ []) 11 closed_db reopened_db
      closed_db-IsWellFormed reopens

list_ready_tasks_exact_example :
    (is_some (list_ready_tasks (codes "gr") 0 sample_db)
      ≡ all is_scannable
          (filter (waits_for_nothing sample_db (normalize_project (codes "gr"))) sample_db.tasks))
    × Perm (listed_ids (list_ready_tasks (codes "gr") 0 sample_db)) (
        if all is_scannable
          (filter (waits_for_nothing sample_db (normalize_project (codes "gr"))) sample_db.tasks)
        then ids
            (filter (waits_for_nothing sample_db (normalize_project (codes "gr"))) sample_db.tasks)
        else [])
list_ready_tasks_exact_example = list_ready_tasks_exact (codes "gr") sample_db

rows-is_ordered_example :
    (is_ordered newer (ready_rows (codes "gr") 5 sample_db) ≡ true)
    × (is_ordered older (stale_rows (codes "gr") 100 [] 5 sample_db) ≡ true)
rows-is_ordered_example = rows-is_ordered (codes "gr") 100 [] 5 sample_db

placeholders_match_arguments_example :
    marks (build_list_query sample_filter).0 ≡ length (build_list_query sample_filter).1
placeholders_match_arguments_example = placeholders_match_arguments sample_filter

scan_task-task_row_example :
    scan_task (task_row (project_from_task_id (codes "gr-aaaa")) (sample_task "gr-aaaa" "open")) ≡ (
      if is_dated_task (sample_task "gr-aaaa" "open")
      then some (record (sample_task "gr-aaaa" "open") {
        project = project_from_task_id (codes "gr-aaaa");
        closed_at = none;
      })
      else none)
scan_task-task_row_example = scan_task-task_row (sample_task "gr-aaaa" "open")

db_parse_time-db_format_time_example :
    db_parse_time (db_format_time 1500000000) ≡ read_back 1500000000
db_parse_time-db_format_time_example = db_parse_time-db_format_time 1500000000

db_before_dated_example :
    (db_before (db_format_time 1500000000) (db_format_time 2000000001) ≡ true)
    × (db_before (db_format_time 2000000001) (db_format_time 1500000000) ≡ false)
unfolding is_dated
db_before_dated_example = db_before_dated 1500000000 2000000001 refl (omega arith)

db_before_misorders_example :
    (db_before (db_format_time (3000000000 + 500)) (db_format_time 3000000000) ≡ true)
    × (db_before (db_format_time 3000000000) (db_format_time (3000000000 + 500)) ≡ false)
db_before_misorders_example =
    db_before_misorders 3000000000 500 (omega arith) (omega arith) (omega arith)

scan_first : scan_task (open_row "gr-aaaa") ≡ some (sample_task "gr-aaaa" "open")
unfolding scan_task task_row codes Option.bind project_from_task_id trim_space to_lower byte_len
scan_first = refl

scan_second : scan_task (open_row "gr-bbbb") ≡ some (sample_task "gr-bbbb" "open")
unfolding scan_task task_row codes Option.bind project_from_task_id trim_space to_lower byte_len
scan_second = refl

sample-Scans :
    Scans
      (open_row "gr-aaaa" ∷ open_row "gr-bbbb" ∷ [])
      (sample_task "gr-aaaa" "open" ∷ sample_task "gr-bbbb" "open" ∷ [])
sample-Scans = row_more scan_first (row_more scan_second no_rows)

spec_regex_page_example :
    filter_rows_by_spec_regex (λ s. true) 1 1 (open_row "gr-aaaa" ∷ open_row "gr-bbbb" ∷ [])
    ≡ some (
        limited 1 (
          drop 1 (
            filter
              (is_listed (λ s. true))
              (sample_task "gr-aaaa" "open" ∷ sample_task "gr-bbbb" "open" ∷ []))))
spec_regex_page_example =
    spec_regex_page (λ s. true) 1 1 (open_row "gr-aaaa" ∷ open_row "gr-bbbb" ∷ [])
      (sample_task "gr-aaaa" "open" ∷ sample_task "gr-bbbb" "open" ∷ []) sample-Scans
