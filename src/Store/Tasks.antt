-- ===== src/Store/Tasks.antt =====
-- internal/store/tasks.go: the operations on tasks, labels and dependencies. Each runs as one
-- transaction or one statement: an error leaves the database as it was, so an operation is a
-- function to the new database or to the error.
use grns.Base.{
  ℕ, Bool, false, not, ◌&&◌, List, [], ◌∷◌, Option, none, some, map, if◌then◌else◌, ◌==◌, nat_eq,
  is_empty, all, any, contains, unique_strings, filter, length,
}
use grns.Base.Text.{Text, text_eq}
use grns.Errors.{
  Result, ok, err, plain, invalid_task_id, id_required, task_not_found, project_mismatch, ◌>>=◌,
}
use grns.Models.{Time, Custom, Dependency, Task}
use grns.Base.Int.{ℤ}
use grns.Models.Domain.{status_open, status_closed}
use grns.Store.Time.{DbTime, db_format_time}
use grns.Store.Project.{project_from_task_id, normalize_project, same_task_project}
use grns.Store.Tables.{
  Db, TaskRow, DepRow, label_eq, dep_eq, insert_task, update_where, insert_labels_rows,
  insert_dep_rows,
}

unfoldable pub null_if_empty : Text → Option Text
null_if_empty s = if is_empty s then none else some s

-- `customToJSON`; the JSON text itself is not modelled.
unfoldable pub custom_to_json : Custom → Option Custom
custom_to_json [] = none
custom_to_json (c ∷ cs) = some (c ∷ cs)

unfoldable pub null_time : Option Time → Option DbTime
unfolding db_format_time
null_time none = none
null_time (some t) = if t == 0 then none else some (db_format_time t)

unfoldable pub task_row : Text → Task → TaskRow
unfolding null_if_empty custom_to_json null_time db_format_time
task_row project_id t = record {
  id = t.id;
  project_id = project_id;
  title = t.title;
  status = t.status;
  kind = t.kind;
  priority = t.priority;
  description = null_if_empty t.description;
  spec_id = null_if_empty t.spec_id;
  parent_id = null_if_empty t.parent_id;
  assignee = null_if_empty t.assignee;
  notes = null_if_empty t.notes;
  design = null_if_empty t.design;
  acceptance_criteria = null_if_empty t.acceptance_criteria;
  source_repo = null_if_empty t.source_repo;
  created_at = db_format_time t.created_at;
  updated_at = db_format_time t.updated_at;
  closed_at = null_time t.closed_at;
  custom = custom_to_json t.custom;
}

unfoldable pub insert_task_row : Task → Db → Result Db
unfolding task_row insert_task
insert_task_row t db =
    let project_id = project_from_task_id t.id in
    if is_empty project_id
    then err (plain invalid_task_id)
    else insert_task (task_row project_id t) db

unfoldable pub insert_labels : Text → List Text → Db → Result Db
unfolding insert_labels_rows
insert_labels id labels db =
    if is_empty labels
    then ok db
    else insert_labels_rows (map (λ l. record { task_id = id; label = l }) labels) db

abbrev pub dep_row : Text → Dependency → DepRow
dep_row child_id d = record { child_id = child_id; parent_id = d.parent_id; kind = d.kind }

unfoldable pub insert_deps : Text → List Dependency → Db → Result Db
unfolding insert_dep_rows
insert_deps child_id deps db =
    if is_empty deps
    then ok db
    else if all (λ d. same_task_project child_id d.parent_id) deps
    then insert_dep_rows (map (dep_row child_id) deps) db
    else err (plain project_mismatch)

-- store.TaskCreateInput, whose task is never nil here.
pub record TaskCreateInput : Type 0 where
  pub task : Task
  pub labels : List Text
  pub deps : List Dependency

unfoldable pub insert_rows : List TaskCreateInput → Db → Result Db
unfolding insert_task_row
insert_rows [] db = ok db
insert_rows (c ∷ cs) db = do db' ← insert_task_row c.task db; insert_rows cs db'

unfoldable pub insert_links : List TaskCreateInput → Db → Result Db
unfolding insert_labels insert_deps
insert_links [] db = ok db
insert_links (c ∷ cs) db = do
  with_labels ← insert_labels c.task.id c.labels db
  with_deps ← insert_deps c.task.id c.deps with_labels
  insert_links cs with_deps

unfoldable pub create_tasks : List TaskCreateInput → Db → Result Db
unfolding insert_rows insert_links
create_tasks tasks db = do db' ← insert_rows tasks db; insert_links tasks db'

unfoldable pub create_task : Task → List Text → List Dependency → Db → Result Db
unfolding create_tasks
create_task task labels deps db =
    create_tasks (record { task = task; labels = labels; deps = deps } ∷ []) db

-- WHERE id = ? AND project_id = ?
abbrev pub is_task : Text → Text → TaskRow → Bool
is_task id project r = (r.id == id) && (r.project_id == project)

unfoldable pub task_exists : Text → Db → Bool
task_exists id db =
    let project = project_from_task_id id in
    if is_empty project then false else any (is_task id project) db.tasks

-- store.TaskUpdate
pub record TaskUpdate : Type 0 where
  pub title : Option Text
  pub status : Option Text
  pub kind : Option Text
  pub priority : Option ℤ
  pub description : Option Text
  pub spec_id : Option Text
  pub parent_id : Option Text
  pub assignee : Option Text
  pub notes : Option Text
  pub design : Option Text
  pub acceptance_criteria : Option Text
  pub source_repo : Option Text
  pub closed_at : Option Time
  pub custom : Option Custom
  pub updated_at : Time

-- One column of the SET clause: the old value, unless the update names a new one.
abbrev pub assign {ℓ κ} : {A : Type ℓ} {B : Type κ} → (A → B) → Option A → B → B
assign f none old = old
assign f (some a) old = f a

unfoldable pub apply_update : TaskUpdate → TaskRow → TaskRow
unfolding null_if_empty custom_to_json null_time db_format_time
apply_update u r = record r {
  title = assign (λ v. v) u.title r.title;
  status = assign (λ v. v) u.status r.status;
  kind = assign (λ v. v) u.kind r.kind;
  priority = assign (λ v. v) u.priority r.priority;
  description = assign null_if_empty u.description r.description;
  spec_id = assign null_if_empty u.spec_id r.spec_id;
  parent_id = assign null_if_empty u.parent_id r.parent_id;
  assignee = assign null_if_empty u.assignee r.assignee;
  notes = assign null_if_empty u.notes r.notes;
  design = assign null_if_empty u.design r.design;
  acceptance_criteria = assign null_if_empty u.acceptance_criteria r.acceptance_criteria;
  source_repo = assign null_if_empty u.source_repo r.source_repo;
  updated_at = db_format_time u.updated_at;
  closed_at = assign (λ t. null_time (some t)) u.closed_at r.closed_at;
  custom = assign custom_to_json u.custom r.custom;
}

unfoldable pub update_task : Text → TaskUpdate → Db → Result Db
unfolding apply_update update_where
update_task id update db =
    if is_empty id
    then err (plain id_required)
    else (let project = project_from_task_id id in
        if is_empty project
        then err (plain invalid_task_id)
        else ok (record db {
          tasks = update_where (is_task id project) (apply_update update) db.tasks;
        }))

unfoldable pub add_labels : Text → List Text → Db → Result Db
unfolding insert_labels
add_labels id labels db = insert_labels id labels db

unfoldable pub remove_labels : Text → List Text → Db → Db
remove_labels id labels db = if is_empty labels then db else record db {
  labels = filter (λ l. not ((l.task_id == id) && contains labels l.label)) db.labels;
}

unfoldable pub replace_labels : Text → List Text → Db → Result Db
unfolding insert_labels
replace_labels id labels db =
    insert_labels id labels (record db { labels = filter (λ l. not (l.task_id == id)) db.labels })

unfoldable pub add_dependency : Text → Text → Text → Db → Result Db
unfolding insert_dep_rows
add_dependency child_id parent_id kind db =
    if same_task_project child_id parent_id
    then insert_dep_rows (record { child_id = child_id; parent_id = parent_id; kind = kind } ∷ [])
        db
    else err (plain project_mismatch)

unfoldable pub remove_dependencies : Text → Db → Db
remove_dependencies child_id db = record db {
  deps = filter (λ d. not (d.child_id == child_id)) db.deps;
}

-- WHERE project_id = ? AND id IN (...)
abbrev pub is_in : Text → List Text → TaskRow → Bool
is_in project wanted r = (r.project_id == project) && contains wanted r.id

unfoldable pub count_existing_tasks_in_project : Text → List Text → Db → ℕ
count_existing_tasks_in_project project wanted db =
    length (filter (is_in (normalize_project project) wanted) db.tasks)

-- The body that `CloseTasks` and `ReopenTasks` share, at each one's SET clause.
unfoldable pub set_all : Text → List Text → (TaskRow → TaskRow) → Db → Result Db
unfolding count_existing_tasks_in_project update_where
set_all raw_project raw_ids set db =
    let project = normalize_project raw_project in
    let wanted = unique_strings raw_ids in
    if is_empty wanted
    then ok db
    else if count_existing_tasks_in_project project wanted db == length wanted
    then ok (record db { tasks = update_where (is_in project wanted) set db.tasks })
    else err (plain task_not_found)

unfoldable pub closed_row : Time → TaskRow → TaskRow
closed_row t r = record r {
  status = status_closed;
  updated_at = db_format_time t;
  closed_at = some (db_format_time t);
}

unfoldable pub reopened_row : Time → TaskRow → TaskRow
reopened_row t r = record r {
  status = status_open;
  updated_at = db_format_time t;
  closed_at = none;
}

unfoldable pub close_tasks : Text → List Text → Time → Db → Result Db
unfolding set_all closed_row
close_tasks project wanted t db = set_all project wanted (closed_row t) db

unfoldable pub reopen_tasks : Text → List Text → Time → Db → Result Db
unfolding set_all reopened_row
reopen_tasks project wanted t db = set_all project wanted (reopened_row t) db
