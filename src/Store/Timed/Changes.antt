-- ===== src/Store/Timed/Changes.antt =====
-- What updates, closing, reopening and links do to the closing times.
use grns.Base.{
  ◌≡◌, refl, true, List, [], ◌∷◌, ◌==◌, nat_eq, arith, list_beq, is_empty, length, unique_strings,
  eq_refl,
}
use grns.Base.Text.{Text, text_eq, codes}
use grns.Errors.{IfOk}
use grns.Errors.Laws.{IfOk-refuse, IfOk-require, IfOk-if}
use grns.Models.{Time}
use grns.Models.Domain.{status_closed}
use grns.Store.Project.{project_from_task_id, normalize_project, same_task_project}
use grns.Store.Tables.{Db, TaskRow}
use grns.Store.Tables.Laws.{all-update_where}
use grns.Store.Tasks.{
  TaskUpdate, apply_update, update_task, set_all, closed_row, reopened_row, close_tasks,
  reopen_tasks, add_dependency, add_labels, count_existing_tasks_in_project, is_task, is_in,
}
use grns.Store.Timed.{
  is_timed, IsTimed, is_timed_patch, update-timed, insert_dep_rows-IsTimed, insert_labels-IsTimed,
}

pub update_task-IsTimed :
    (id : Text) (u : TaskUpdate) (db : Db)
    → is_timed_patch u.status u.closed_at ≡ true
    → IsTimed db
    → IfOk IsTimed (update_task id u db)
unfolding update_task IsTimed
update_task-IsTimed id u db h w = IfOk-refuse IsTimed (is_empty id) _ _ λ _.
    IfOk-refuse IsTimed (is_empty (project_from_task_id id)) _ _ λ _.
      all-update_where (is_task id (project_from_task_id id)) (apply_update u) is_timed db.tasks
        (λ r k. update-timed u r h k) w

pub set_all-IsTimed :
    (project : Text) (wanted : List Text) (set : TaskRow → TaskRow) (db : Db)
    → ((r : TaskRow) → is_timed (set r) ≡ true)
    → IsTimed db
    → IfOk IsTimed (set_all project wanted set db)
unfolding set_all IsTimed
set_all-IsTimed project wanted set db h w =
    let once = unique_strings wanted in
    IfOk-if IsTimed (is_empty once) _ _ (λ _. w)
      λ _.
        IfOk-require IsTimed
          (count_existing_tasks_in_project (normalize_project project) once db == length once) _ _
          λ _.
            all-update_where (is_in (normalize_project project) (unique_strings wanted)) set
              is_timed db.tasks (λ r k. h r) w

pub close_tasks-IsTimed :
    (project : Text) (wanted : List Text) (t : Time) (db : Db)
    → IsTimed db
    → IfOk IsTimed (close_tasks project wanted t db)
unfolding close_tasks is_timed
close_tasks-IsTimed project wanted t db w =
    set_all-IsTimed project wanted (closed_row t) db (λ r. closed r) w
  where
    closed : (r : TaskRow) → is_timed (closed_row t r) ≡ true
    closed r = ground (arith, eq_refl status_closed)

pub reopen_tasks-IsTimed :
    (project : Text) (wanted : List Text) (t : Time) (db : Db)
    → IsTimed db
    → IfOk IsTimed (reopen_tasks project wanted t db)
unfolding reopen_tasks is_timed list_beq codes
reopen_tasks-IsTimed project wanted t db w =
    set_all-IsTimed project wanted (reopened_row t) db (λ r. refl) w

pub add_dependency-IsTimed :
    (child parent kind : Text) (db : Db)
    → IsTimed db
    → IfOk IsTimed (add_dependency child parent kind db)
unfolding add_dependency
add_dependency-IsTimed child parent kind db w =
    IfOk-require IsTimed (same_task_project child parent) _ _ λ _.
      insert_dep_rows-IsTimed (record { child_id = child; parent_id = parent; kind = kind } ∷ []) db
        w

pub add_labels-IsTimed :
    (id : Text) (ls : List Text) (db : Db) → IsTimed db → IfOk IsTimed (add_labels id ls db)
unfolding add_labels
add_labels-IsTimed id ls db w = insert_labels-IsTimed id ls db w
