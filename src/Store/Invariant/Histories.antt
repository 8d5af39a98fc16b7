-- ===== src/Store/Invariant/Histories.antt =====
-- The operations of the store keep a database well formed, and so does every history of them.
use grns.Base.{
  nat_eq, length, unique_strings, ◌≡◌, refl, Bool, true, false, List, [], ◌∷◌, ◌==◌, is_empty,
  contains, distinct,
}
use grns.Base.Text.{Text, text_eq}
use grns.Errors.{Result, ok, err, IfOk}
use grns.Errors.Laws.{IfOk-refuse, IfOk-require, IfOk-if}
use grns.Store.Project.{normalize_project, project_from_task_id}
use grns.Store.Tables.{Db, TaskRow, label_eq, dep_eq}
use grns.Store.Tasks.{add_dependency}
use grns.Store.Invariant.{IsWellFormed}
use grns.Store.Invariant.Inserts.{
  insert_task_row-IsWellFormed, insert_labels-IsWellFormed, insert_deps-IsWellFormed,
  add_dependency-IsWellFormed,
}
use grns.Store.Invariant.Changes.{
  update_where-IsWellFormed, without_labels-IsWellFormed, without_deps-IsWellFormed,
  delete_tasks-IsWellFormed,
}
use grns.Errors.Laws.{IfOk-bind}
use grns.Models.{Time}
use grns.Store.Tables.{empty_db}
use grns.Store.Tasks.{
  TaskCreateInput, TaskUpdate, insert_rows, insert_links, create_tasks, update_task, apply_update,
  add_labels, remove_labels, replace_labels, add_dependency, remove_dependencies, close_tasks,
  reopen_tasks, set_all, closed_row, reopened_row, is_in, count_existing_tasks_in_project,
}
use grns.Store.Queries.{cleanup_closed_tasks, erase_found}

insert_rows-IsWellFormed :
    (cs : List TaskCreateInput) (db : Db) → IsWellFormed db → IfOk IsWellFormed (insert_rows cs db)
unfolding insert_rows
insert_rows-IsWellFormed [] db w = w
insert_rows-IsWellFormed (c ∷ cs) db w =
    IfOk-bind IsWellFormed IsWellFormed _ _ (insert_task_row-IsWellFormed c.task db w)
      (insert_rows-IsWellFormed cs)

insert_links-IsWellFormed :
    (cs : List TaskCreateInput) (db : Db) → IsWellFormed db → IfOk IsWellFormed (insert_links cs db)
unfolding insert_links
insert_links-IsWellFormed [] db w = w
insert_links-IsWellFormed (c ∷ cs) db w =
    IfOk-bind IsWellFormed IsWellFormed _ _ (insert_labels-IsWellFormed c.task.id c.labels db w)
      λ db' w'.
        IfOk-bind IsWellFormed IsWellFormed _ _ (insert_deps-IsWellFormed c.task.id c.deps db' w')
          (insert_links-IsWellFormed cs)

pub create_tasks-IsWellFormed :
    (cs : List TaskCreateInput) (db : Db) → IsWellFormed db → IfOk IsWellFormed (create_tasks cs db)
unfolding create_tasks
create_tasks-IsWellFormed cs db w =
    IfOk-bind IsWellFormed IsWellFormed _ _ (insert_rows-IsWellFormed cs db w)
      (insert_links-IsWellFormed cs)

id-apply_update : (u : TaskUpdate) (r : TaskRow) → (apply_update u r).id ≡ r.id
unfolding apply_update
id-apply_update u r = refl

project-apply_update : (u : TaskUpdate) (r : TaskRow) → (apply_update u r).project_id ≡ r.project_id
unfolding apply_update
project-apply_update u r = refl

pub update_task-IsWellFormed :
    (id : Text) (u : TaskUpdate) (db : Db)
    → IsWellFormed db
    → IfOk IsWellFormed (update_task id u db)
unfolding update_task
update_task-IsWellFormed id u db w = IfOk-refuse IsWellFormed (is_empty id) _ _ λ _.
    IfOk-refuse IsWellFormed (is_empty (project_from_task_id id)) _ _ λ _.
      update_where-IsWellFormed _ (apply_update u) db (id-apply_update u) (project-apply_update u) w

set_all-IsWellFormed :
    (project : Text) (wanted : List Text) (set : TaskRow → TaskRow) (db : Db)
    → ((r : TaskRow) → (set r).id ≡ r.id)
    → ((r : TaskRow) → (set r).project_id ≡ r.project_id)
    → IsWellFormed db
    → IfOk IsWellFormed (set_all project wanted set db)
unfolding set_all
set_all-IsWellFormed project wanted set db same_id same_project w =
    let normal = normalize_project project in
    let once = unique_strings wanted in
    IfOk-if IsWellFormed (is_empty once) _ _ (λ _. w)
      λ _.
        IfOk-require IsWellFormed (count_existing_tasks_in_project normal once db == length once) _
          _ λ _. update_where-IsWellFormed (is_in normal once) set db same_id same_project w

-- A call of the store that can change it.
pub data Op : Type 0 where
  creates : List TaskCreateInput → Op
  updates : Text → TaskUpdate → Op
  adds_labels removes_labels replaces_labels : Text → List Text → Op
  adds_dependency : Text → Text → Text → Op
  removes_dependencies : Text → Op
  closes reopens : Text → List Text → Time → Op
  cleans_up : Text → Time → Bool → Op

-- An error leaves the database as it was.
abbrev pub after : Db → Result Db → Db
after db (ok db') = db'
after db (err e) = db

unfoldable pub apply_op : Op → Db → Db
apply_op (creates cs) db = after db (create_tasks cs db)
apply_op (updates id u) db = after db (update_task id u db)
apply_op (adds_labels id ls) db = after db (add_labels id ls db)
apply_op (removes_labels id ls) db = remove_labels id ls db
apply_op (replaces_labels id ls) db = after db (replace_labels id ls db)
apply_op (adds_dependency child parent kind) db = after db (add_dependency child parent kind db)
apply_op (removes_dependencies child) db = remove_dependencies child db
apply_op (closes project wanted t) db = after db (close_tasks project wanted t db)
apply_op (reopens project wanted t) db = after db (reopen_tasks project wanted t db)
apply_op (cleans_up project cutoff dry_run) db = (cleanup_closed_tasks project cutoff dry_run db).1

unfoldable pub run_ops : List Op → Db → Db
unfolding apply_op
run_ops [] db = db
run_ops (op ∷ ops) db = run_ops ops (apply_op op db)

after-IsWellFormed :
    (db : Db) (r : Result Db) → IsWellFormed db → IfOk IsWellFormed r → IsWellFormed (after db r)
after-IsWellFormed db (ok db') w h = h
after-IsWellFormed db (err e) w h = w

erase_found-IsWellFormed :
    (dry_run : Bool) (found : List Text) (db : Db)
    → IsWellFormed db
    → IsWellFormed (erase_found dry_run found db)
unfolding erase_found
erase_found-IsWellFormed true found db w = w
erase_found-IsWellFormed false [] db w = w
erase_found-IsWellFormed false (a ∷ found) db w =
    delete_tasks-IsWellFormed (λ r. contains (a ∷ found) r.id) db w

cleanup-IsWellFormed :
    (project : Text) (cutoff : Time) (dry_run : Bool) (db : Db)
    → IsWellFormed db
    → IsWellFormed (cleanup_closed_tasks project cutoff dry_run db).1
unfolding cleanup_closed_tasks
cleanup-IsWellFormed project cutoff dry_run db w = erase_found-IsWellFormed dry_run _ db w

remove_labels-IsWellFormed :
    (id : Text) (ls : List Text) (db : Db) → IsWellFormed db → IsWellFormed (remove_labels id ls db)
unfolding remove_labels
remove_labels-IsWellFormed id [] db w = w
remove_labels-IsWellFormed id (l ∷ ls) db w = without_labels-IsWellFormed _ db w

apply_op-IsWellFormed : (op : Op) (db : Db) → IsWellFormed db → IsWellFormed (apply_op op db)
unfolding apply_op add_labels replace_labels close_tasks reopen_tasks remove_dependencies
apply_op-IsWellFormed (creates cs) db w =
    after-IsWellFormed db _ w (create_tasks-IsWellFormed cs db w)
apply_op-IsWellFormed (updates id u) db w =
    after-IsWellFormed db _ w (update_task-IsWellFormed id u db w)
apply_op-IsWellFormed (adds_labels id ls) db w =
    after-IsWellFormed db _ w (insert_labels-IsWellFormed id ls db w)
apply_op-IsWellFormed (removes_labels id ls) db w = remove_labels-IsWellFormed id ls db w
apply_op-IsWellFormed (replaces_labels id ls) db w =
    after-IsWellFormed db _ w
      (insert_labels-IsWellFormed id ls _ (without_labels-IsWellFormed _ db w))
apply_op-IsWellFormed (adds_dependency child parent kind) db w =
    after-IsWellFormed db _ w (add_dependency-IsWellFormed child parent kind db w)
apply_op-IsWellFormed (removes_dependencies child) db w = without_deps-IsWellFormed _ db w
apply_op-IsWellFormed (closes project wanted t) db w =
    after-IsWellFormed db _ w
      (set_all-IsWellFormed project wanted (closed_row t) db (λ r. refl) (λ r. refl) w)
apply_op-IsWellFormed (reopens project wanted t) db w =
    after-IsWellFormed db _ w
      (set_all-IsWellFormed project wanted (reopened_row t) db (λ r. refl) (λ r. refl) w)
apply_op-IsWellFormed (cleans_up project cutoff dry_run) db w =
    cleanup-IsWellFormed project cutoff dry_run db w

empty_db-IsWellFormed : IsWellFormed empty_db
unfolding distinct
empty_db-IsWellFormed = record {
  tasks_distinct = refl;
  projects = refl;
  labels_distinct = refl;
  labels_owned = refl;
  deps_distinct = refl;
  deps_owned = refl;
  deps_within = refl;
}

run_ops_from : (ops : List Op) (db : Db) → IsWellFormed db → IsWellFormed (run_ops ops db)
unfolding run_ops
run_ops_from [] db w = w
run_ops_from (op ∷ ops) db w = run_ops_from ops (apply_op op db) (apply_op-IsWellFormed op db w)

pub run_ops-IsWellFormed : (ops : List Op) → IsWellFormed (run_ops ops empty_db)
run_ops-IsWellFormed ops = run_ops_from ops empty_db empty_db-IsWellFormed
