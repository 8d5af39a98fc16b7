-- ===== src/Store/Queries.antt =====
-- internal/store/tasks.go: the operations that read, and the clean-up of closed tasks.
use grns.Base.{
  ℕ, zero, suc, Bool, not, ◌&&◌, ◌||◌, List, [], ◌∷◌, Option, none, some, map, if◌then◌else◌, ◌==◌,
  is_empty, any, contains, filter, length, take,
}
use mathlib.Core.Option
use grns.Base.Text.{Text, text_eq, text_ltb}
use grns.Models.{Time, Custom, Task}
use grns.Models.Domain.{
  status_closed, dependency_blocks, ready_task_statuses, stale_default_excluded_statuses,
}
use grns.Store.Time.{DbTime, db_format_time, db_parse_time, db_before}
use grns.Store.Project.{project_from_task_id, normalize_project}
use grns.Store.Tables.{Db, TaskRow, DepRow, ids, delete_tasks}
use grns.Store.Tasks.{is_task}

abbrev pub or_empty : Option Text → Text
or_empty none = []
or_empty (some s) = s

abbrev pub custom_of : Option Custom → Custom
custom_of none = []
custom_of (some c) = c

-- A column that may be NULL: NULL is a nil pointer, and a text that is no time is an error.
unfoldable pub scan_closed : Option DbTime → Option (Option Time)
unfolding db_parse_time
scan_closed none = some none
scan_closed (some d) = Option.map some (db_parse_time d)

-- `none` is the error of a text that is no time.
unfoldable pub scan_task : TaskRow → Option Task
unfolding scan_closed
scan_task r = Option.bind (db_parse_time r.created_at) λ created.
    Option.bind (db_parse_time r.updated_at) λ updated.
      Option.bind (scan_closed r.closed_at) λ closed. some (record {
        project = project_from_task_id r.id;
        id = r.id;
        title = r.title;
        status = r.status;
        kind = r.kind;
        priority = r.priority;
        description = or_empty r.description;
        spec_id = or_empty r.spec_id;
        parent_id = or_empty r.parent_id;
        assignee = or_empty r.assignee;
        notes = or_empty r.notes;
        design = or_empty r.design;
        acceptance_criteria = or_empty r.acceptance_criteria;
        source_repo = or_empty r.source_repo;
        created_at = created;
        updated_at = updated;
        closed_at = closed;
        custom = custom_of r.custom;
      })

first {ℓ} : {A : Type ℓ} → List A → Option A
first [] = none
first (x ∷ xs) = some x

-- The row that `GetTask` scans: none where there is no such row or the id names no project.
unfoldable pub get_task_row : Text → Db → Option TaskRow
unfolding first
get_task_row id db =
    let project = project_from_task_id id in
    if is_empty project then none else first (filter (is_task id project) db.tasks)

insert_text : Text → List Text → List Text
insert_text l [] = l ∷ []
insert_text l (m ∷ ms) = if text_ltb m l then m ∷ insert_text l ms else l ∷ m ∷ ms

-- ORDER BY label ASC
unfoldable pub order_texts : List Text → List Text
unfolding insert_text
order_texts [] = []
order_texts (l ∷ ls) = insert_text l (order_texts ls)

unfoldable pub list_labels : Text → Db → List Text
unfolding order_texts
list_labels id db = order_texts (map (λ l. l.label) (filter (λ l. l.task_id == id) db.labels))

-- The rows of `NOT EXISTS (SELECT 1 FROM task_deps d JOIN tasks p ...)` for one task.
unfoldable pub blocks : TaskRow → DepRow → TaskRow → Bool
blocks t d p =
    (p.id == d.parent_id)
    && (d.child_id == t.id)
    && (p.project_id == t.project_id)
    && (d.kind == dependency_blocks)
    && contains ready_task_statuses p.status

unfoldable pub has_open_blocker : Db → TaskRow → Bool
unfolding blocks
has_open_blocker db t = any (λ d. any (blocks t d) db.tasks) db.deps

unfoldable pub is_ready : Db → Text → TaskRow → Bool
unfolding has_open_blocker
is_ready db project t =
    (t.project_id == project)
    && contains ready_task_statuses t.status
    && not (has_open_blocker db t)

-- ORDER BY updated_at, newest or oldest first. SQL leaves the order of equal times open; here they
-- keep the order of the table.
unfoldable pub insert_by {ℓ} : {A : Type ℓ} → (A → A → Bool) → A → List A → List A
insert_by before a [] = a ∷ []
insert_by before a (b ∷ bs) = if before b a then b ∷ insert_by before a bs else a ∷ b ∷ bs

unfoldable pub order_by {ℓ} : {A : Type ℓ} → (A → A → Bool) → List A → List A
unfolding insert_by
order_by before [] = []
order_by before (a ∷ more) = insert_by before a (order_by before more)

unfoldable pub limited {ℓ} : {A : Type ℓ} → ℕ → List A → List A
limited zero rows = rows
limited (suc n) rows = take (suc n) rows

-- The loop over the rows: `none` is the error of the first that cannot be read.
unfoldable pub scan_rows : List TaskRow → Option (List Task)
unfolding scan_task
scan_rows [] = some []
scan_rows (r ∷ rows) =
    Option.bind (scan_task r) λ t. Option.bind (scan_rows rows) λ tasks. some (t ∷ tasks)

-- The query of ListReadyTasks.
unfoldable pub ready_rows : Text → ℕ → Db → List TaskRow
unfolding is_ready order_by limited
ready_rows project limit db = limited limit (
    order_by (λ a b. db_before b.updated_at a.updated_at)
      (filter (is_ready db (normalize_project project)) db.tasks))

unfoldable pub list_ready_tasks : Text → ℕ → Db → Option (List Task)
unfolding scan_rows ready_rows
list_ready_tasks project limit db = scan_rows (ready_rows project limit db)

unfoldable pub is_stale : Text → Time → List Text → TaskRow → Bool
is_stale project cutoff statuses t =
    (t.project_id == project)
    && db_before t.updated_at (db_format_time cutoff)
    && (if is_empty statuses
        then not (contains stale_default_excluded_statuses t.status)
        else contains statuses t.status)

-- The query of ListStaleTasks.
unfoldable pub stale_rows : Text → Time → List Text → ℕ → Db → List TaskRow
unfolding is_stale order_by limited
stale_rows project cutoff statuses limit db = limited limit (
    order_by (λ a b. db_before a.updated_at b.updated_at)
      (filter (is_stale (normalize_project project) cutoff statuses) db.tasks))

unfoldable pub list_stale_tasks : Text → Time → List Text → ℕ → Db → Option (List Task)
unfolding scan_rows stale_rows
list_stale_tasks project cutoff statuses limit db =
    scan_rows (stale_rows project cutoff statuses limit db)

-- store.CleanupResult; its count is the length of `task_ids`.
pub record CleanupResult : Type 0 where
  pub task_ids : List Text
  pub count : ℕ
  pub dry_run : Bool

unfoldable pub is_cleanable : Text → Time → TaskRow → Bool
is_cleanable project cutoff t =
    (is_empty project || (t.project_id == project))
    && (t.status == status_closed)
    && db_before t.updated_at (db_format_time cutoff)

-- The deletion, unless this is a dry run or nothing was found.
unfoldable pub erase_found : Bool → List Text → Db → Db
unfolding delete_tasks
erase_found dry_run found db =
    if dry_run || is_empty found then db else delete_tasks (λ r. contains found r.id) db

unfoldable pub cleanup_closed_tasks : Text → Time → Bool → Db → CleanupResult × Db
unfolding is_cleanable erase_found
cleanup_closed_tasks project cutoff dry_run db =
    let found = ids (filter (is_cleanable (normalize_project project) cutoff) db.tasks) in
    (
      record { task_ids = found; count = length found; dry_run = dry_run },
      erase_found dry_run found db,
    )
