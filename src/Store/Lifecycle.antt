-- ===== src/Store/Lifecycle.antt =====
-- Closing and reopening: the count of existing rows by which the code decides stands for the test
-- that every id is a task of the project, and the update reaches exactly those tasks.
pub mod Reopened
use grns.Base.{
  ◌+◌, ◌≤◌, ◌≡◌, refl, ◌∙◌, Bool, true, false, List, [], ◌∷◌, arith, if◌then◌else◌, ◌==◌, nat_eq,
  is_empty, all, any, contains, distinct, filter, length, unique_strings, unique_strings-distinct,
  contains-unique_strings, all-unique_strings,
}
use mathlib.Core.Path.{fun_ext}
use grns.Base.Text.{Text, text_eq, trim_space, to_lower}
use grns.Base.Text.Laws.{trim_space-to_lower, trim_space_idem, to_lower_idem}
use grns.Errors.{Result, ok, err, plain, task_not_found}
use grns.Models.{Time}
use grns.Store.Project.{normalize_project}
use grns.Store.Tables.{Db, TaskRow, ids, update_where}
use grns.Store.Tasks.{
  is_task, is_in, set_all, count_existing_tasks_in_project, close_tasks, reopen_tasks, closed_row,
  reopened_row,
}
use grns.Store.Invariant.{IsWellFormed}

-- The id is a task of the project.
abbrev pub is_known : Text → List TaskRow → Text → Bool
is_known project rows id = any (is_task id project) rows

not_known :
    (project : Text) (rows : List TaskRow) (id : Text)
    → contains (ids rows) id ≡ false
    → is_known project rows id ≡ false
unfolding contains
not_known project [] id h = refl
not_known project (r ∷ rows) id h = ground (arith, not_known project rows id)

count_in :
    (project w : Text) (ws : List Text) (rows : List TaskRow)
    → contains ws w ≡ false
    → distinct (ids rows) ≡ true
    → length (filter (is_in project (w ∷ ws)) rows)
      ≡ (if is_known project rows w then 1 else 0) + length (filter (is_in project ws) rows)
unfolding contains distinct
count_in project w ws [] n d = omega arith
count_in project w ws (r ∷ rows) n d = ground (
  arith,
  count_in project w ws rows,
  not_known project rows w,
  text_eq.beq_iff r.id w,
  text_eq.beq_iff w r.id,
)

count_none : (project : Text) (rows : List TaskRow) → length (filter (is_in project []) rows) ≡ 0
unfolding contains
count_none project [] = refl
count_none project (r ∷ rows) = ground (arith, count_none project rows)

count_le :
    (project : Text) (ws : List Text) (rows : List TaskRow)
    → distinct ws ≡ true
    → distinct (ids rows) ≡ true
    → length (filter (is_in project ws) rows) ≤ length ws
unfolding distinct
count_le project [] rows dw d = omega (arith, count_none project rows)
count_le project (w ∷ ws) rows dw d =
    ground (arith, count_in project w ws rows, count_le project ws rows)

-- All distinct ids are known exactly when as many rows as ids are found.
count_all :
    (project : Text) (ws : List Text) (rows : List TaskRow)
    → distinct ws ≡ true
    → distinct (ids rows) ≡ true
    → (length (filter (is_in project ws) rows) == length ws) ≡ all (is_known project rows) ws
unfolding distinct
count_all project [] rows dw d = ground (arith, count_none project rows)
count_all project (w ∷ ws) rows dw d =
    ground (arith, count_in project w ws rows, count_le project ws rows, count_all project ws rows)

-- The two forms of the test read the same rows.
is_in-unique_strings :
    (project : Text) (wanted : List Text) (r : TaskRow)
    → is_in project (unique_strings wanted) r ≡ is_in project wanted r
is_in-unique_strings project wanted r = ground (arith, contains-unique_strings wanted r.id)

update_where_none :
    (project : Text) (set : TaskRow → TaskRow) (rows : List TaskRow)
    → update_where (is_in project []) set rows ≡ rows
unfolding update_where contains
update_where_none project set [] = refl
update_where_none project set (r ∷ rows) = ground (arith, update_where_none project set rows)

-- What `set_all` does, said without the count and without the removal of duplicates.
abbrev pub update_known : Text → List Text → (TaskRow → TaskRow) → Db → Result Db
update_known project wanted set db =
    if all (is_known project db.tasks) wanted
    then ok (record db { tasks = update_where (is_in project wanted) set db.tasks })
    else err (plain task_not_found)

set_all_counted :
    (project : Text) (once : List Text) (set : TaskRow → TaskRow) (db : Db)
    → distinct once ≡ true
    → IsWellFormed db
    → (if is_empty once
        then ok db
        else if length (filter (is_in project once) db.tasks) == length once
        then ok (record db { tasks = update_where (is_in project once) set db.tasks })
        else err (plain task_not_found))
      ≡ update_known project once set db
set_all_counted project [] set db d w = rw (update_where_none project set db.tasks)
set_all_counted project (a ∷ once) set db d w =
    rw (count_all project (a ∷ once) db.tasks d w.tasks_distinct)

pub normalize_project_twice :
    (project : Text) → normalize_project (normalize_project project) ≡ normalize_project project
unfolding normalize_project
normalize_project_twice p =
    cc (trim_space_idem (to_lower p), trim_space-to_lower p, to_lower_idem (trim_space p))

pub set_all_exact :
    (project : Text) (wanted : List Text) (set : TaskRow → TaskRow) (db : Db)
    → IsWellFormed db
    → set_all project wanted set db ≡ update_known (normalize_project project) wanted set db
unfolding set_all count_existing_tasks_in_project
set_all_exact project wanted set db w =
    let normal = normalize_project project in
    rw normalize_project_twice (
      set_all_counted normal (unique_strings wanted) set db (unique_strings-distinct wanted) w
      ∙ rw
          (
            all-unique_strings (is_known normal db.tasks) wanted,
            fun_ext (is_in-unique_strings normal wanted),
          )
          refl)

-- In a well-formed database closing is all or nothing: if every id is a task of the project, exactly those tasks become closed
-- with the given time and nothing else changes; otherwise the answer is that a task was not found.
-- Duplicate ids and the case of the project make no difference.
pub close_tasks_exact :
    (project : Text) (wanted : List Text) (t : Time) (db : Db)
    → IsWellFormed db
    → close_tasks project wanted t db
      ≡ update_known (normalize_project project) wanted (closed_row t) db
unfolding close_tasks
close_tasks_exact project wanted t db w = set_all_exact project wanted (closed_row t) db w
