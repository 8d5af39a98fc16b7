-- ===== src/Store/Timed.antt =====
-- A task has a closing time exactly when it is closed: what the statements of tasks.go do to it.
pub mod Changes
use grns.Base.{
  ℕ, ◌≡◌, ◌≢◌, refl, Bool, true, false, not, ◌&&◌, List, [], ◌∷◌, ◌++◌, Option, none, some,
  if◌then◌else◌, ◌==◌, nat_eq, all, filter, all-append, all-filter, arith, list_beq, contains,
  is_empty, map, length, unique_strings, eq_refl,
}
use grns.Base.Text.{Text, text_eq, codes}
use grns.Errors.{Result, ok, err, ◌>>=◌, IfOk}
use grns.Errors.Laws.{IfOk-refuse, IfOk-require, IfOk-if, IfOk-bind}
use grns.Models.{Time, Task, Dependency}
use grns.Models.Domain.{status_closed, status_open}
use grns.Store.Time.{DbTime, db_format_time}
use grns.Store.Project.{project_from_task_id, normalize_project, same_task_project}
use grns.Store.Tables.{
  Db, TaskRow, DepRow, ids, insert_task, update_where, delete_tasks, insert_labels_rows,
  insert_dep_rows,
}
use grns.Store.Tables.Laws.{all-update_where}
use grns.Store.Tasks.{
  task_row, null_time, insert_task_row, insert_labels, insert_deps, insert_rows, insert_links,
  TaskCreateInput, create_tasks, create_task, TaskUpdate, apply_update, update_task, set_all,
  closed_row, reopened_row, close_tasks, reopen_tasks, add_dependency, add_labels, remove_labels,
  assign, dep_row, count_existing_tasks_in_project, is_task, is_in,
}

abbrev pub has_value {ℓ} : {A : Type ℓ} → Option A → Bool
has_value none = false
has_value (some a) = true

-- Closed, with the time; or not closed, and no time.
unfoldable pub is_timed : TaskRow → Bool
is_timed r =
    if r.status == status_closed then has_value r.closed_at else not (has_value r.closed_at)

unfoldable pub IsTimed : Db → Type 0
IsTimed db = all is_timed db.tasks ≡ true

-- The same of a task that is about to be inserted, and of an update.
unfoldable pub is_timed_task : Task → Bool
is_timed_task t =
    if t.status == status_closed
    then has_value (null_time t.closed_at)
    else not (has_value (null_time t.closed_at))

unfoldable pub is_timed_patch : Option Text → Option Time → Bool
is_timed_patch none none = true
is_timed_patch (some status) (some t) = if status == status_closed then not (t == 0) else t == 0
is_timed_patch _ _ = false

row-timed : (p : Text) (t : Task) → is_timed_task t ≡ true → is_timed (task_row p t) ≡ true
unfolding is_timed is_timed_task task_row
row-timed p t h = h

timed_after :
    (status : Option Text) (at : Option Time) (old : Text) (old_at : Option DbTime)
    → is_timed_patch status at ≡ true
    → (if old == status_closed then has_value old_at else not (has_value old_at)) ≡ true
    → (if assign (λ v. v) status old == status_closed
        then has_value (assign (λ t. null_time (some t)) at old_at)
        else not (has_value (assign (λ t. null_time (some t)) at old_at)))
      ≡ true
unfolding is_timed_patch null_time
timed_after none none old old_at h k = k
timed_after none (some t) old old_at h k = cc
timed_after (some s) none old old_at h k = cc
timed_after (some s) (some t) old old_at h k = ground (arith, h)

pub update-timed :
    (u : TaskUpdate) (r : TaskRow)
    → is_timed_patch u.status u.closed_at ≡ true
    → is_timed r ≡ true
    → is_timed (apply_update u r) ≡ true
unfolding is_timed apply_update is_timed_patch
update-timed u r h k = timed_after u.status u.closed_at r.status r.closed_at h k

with_row-timed :
    (r : TaskRow) (rows : List TaskRow)
    → is_timed r ≡ true
    → all is_timed rows ≡ true
    → all is_timed (rows ++ r ∷ []) ≡ true
with_row-timed r rows h w = ground (arith, all-append is_timed rows (r ∷ []), h, w)

insert_task-IsTimed :
    (r : TaskRow) (db : Db) → is_timed r ≡ true → IsTimed db → IfOk IsTimed (insert_task r db)
unfolding insert_task IsTimed
insert_task-IsTimed r db h w =
    IfOk-refuse IsTimed (contains (ids db.tasks) r.id) _ _ λ _. with_row-timed r db.tasks h w

insert_task_row-IsTimed :
    (t : Task) (db : Db) → is_timed_task t ≡ true → IsTimed db → IfOk IsTimed (insert_task_row t db)
unfolding insert_task_row
insert_task_row-IsTimed t db h w =
    IfOk-refuse IsTimed (is_empty (project_from_task_id t.id)) _ _ λ _.
      insert_task-IsTimed (task_row (project_from_task_id t.id) t) db
        (row-timed (project_from_task_id t.id) t h) w

-- Labels and dependencies leave the tasks alone.
pub insert_labels-IsTimed :
    (id : Text) (labels : List Text) (db : Db)
    → IsTimed db
    → IfOk IsTimed (insert_labels id labels db)
unfolding insert_labels insert_labels_rows IsTimed
insert_labels-IsTimed id labels db w =
    IfOk-if IsTimed (is_empty labels) _ _ (λ _. w)
      λ _.
        IfOk-require IsTimed
          (all (λ l. contains (ids db.tasks) l.task_id)
            (map (λ l. record { task_id = id; label = l }) labels))
          _ _ λ _. w

pub insert_dep_rows-IsTimed :
    (rows : List DepRow) (db : Db) → IsTimed db → IfOk IsTimed (insert_dep_rows rows db)
unfolding insert_dep_rows IsTimed
insert_dep_rows-IsTimed rows db w =
    IfOk-require IsTimed
      (all (λ d. contains (ids db.tasks) d.child_id && contains (ids db.tasks) d.parent_id) rows) _
      _ λ _. w

insert_deps-IsTimed :
    (id : Text) (deps : List Dependency) (db : Db)
    → IsTimed db
    → IfOk IsTimed (insert_deps id deps db)
unfolding insert_deps
insert_deps-IsTimed id deps db w =
    IfOk-if IsTimed (is_empty deps) _ _ (λ _. w)
      λ _.
        IfOk-require IsTimed (all (λ d. same_task_project id d.parent_id) deps) _ _
          λ _. insert_dep_rows-IsTimed (map (dep_row id) deps) db w

unfoldable pub timed_inputs : List TaskCreateInput → Bool
timed_inputs = all (λ c. is_timed_task c.task)

insert_rows-IsTimed :
    (cs : List TaskCreateInput) (db : Db)
    → timed_inputs cs ≡ true
    → IsTimed db
    → IfOk IsTimed (insert_rows cs db)
unfolding insert_rows timed_inputs
insert_rows-IsTimed [] db h w = w
insert_rows-IsTimed (c ∷ cs) db h w =
    IfOk-bind IsTimed IsTimed (insert_task_row c.task db) _
      (insert_task_row-IsTimed c.task db (ground (arith, h)) w)
      λ db' w'. insert_rows-IsTimed cs db' (ground (arith, h)) w'

insert_links-IsTimed :
    (cs : List TaskCreateInput) (db : Db) → IsTimed db → IfOk IsTimed (insert_links cs db)
unfolding insert_links
insert_links-IsTimed [] db w = w
insert_links-IsTimed (c ∷ cs) db w =
    IfOk-bind IsTimed IsTimed (insert_labels c.task.id c.labels db) _
      (insert_labels-IsTimed c.task.id c.labels db w)
      λ db1 w1.
        IfOk-bind IsTimed IsTimed (insert_deps c.task.id c.deps db1) _
          (insert_deps-IsTimed c.task.id c.deps db1 w1) λ db2 w2. insert_links-IsTimed cs db2 w2

pub create_tasks-IsTimed :
    (cs : List TaskCreateInput) (db : Db)
    → timed_inputs cs ≡ true
    → IsTimed db
    → IfOk IsTimed (create_tasks cs db)
unfolding create_tasks
create_tasks-IsTimed cs db h w =
    IfOk-bind IsTimed IsTimed (insert_rows cs db) _ (insert_rows-IsTimed cs db h w)
      λ db' w'. insert_links-IsTimed cs db' w'
