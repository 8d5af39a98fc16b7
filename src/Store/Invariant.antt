-- ===== src/Store/Invariant.antt =====
-- Well-formed databases: keys are unique, every reference has its row, every task carries the
-- project that its id names, and no dependency crosses projects. The operations keep all of it.
pub mod Inserts
pub mod Changes
pub mod Histories
use grns.Base.{
  ℕ, ◌≡◌, refl, ap, ◌∙◌, sym, subst, Bool, true, false, not, ◌&&◌, ◌||◌, List, [], ◌∷◌, ◌++◌, arith,
  map, if◌then◌else◌, ◌==◌, is_empty, all, any, contains, distinct, filter, all_mono, all-filter,
  all-filter_and, distinct-filter, distinct-append_one, all-append, Bool-cases, inl, inr,
  &&-eq-true, eq_refl,
}
use mathlib.Core.List.{map-append}
use grns.Base.Text.{Text, text_eq}
use grns.Errors.{Result, ok, err, ◌>>=◌, IfOk}
use grns.Errors.Laws.{IfOk-refuse, IfOk-require, IfOk-if}
use grns.Models.{Task, Dependency}
use grns.Store.Project.{project_from_task_id, same_task_project}
use grns.Store.Tables.{
  Db, TaskRow, LabelRow, DepRow, label_eq, dep_eq, ids, append_all, update_where, insert_task,
  insert_labels_rows, insert_dep_rows, delete_tasks,
}
use grns.Store.Tables.Laws.{
  append_all-distinct, all-append_all, ids-update_where, all-update_where, contains-ids-append,
  contains-ids-filter-not, distinct-ids-filter,
}
use grns.Store.Tasks.{
  dep_row, insert_task_row, insert_labels, insert_deps, task_row, add_dependency,
}

-- tasks.project_id is the project that the id names, and there is one.
abbrev pub owns_project : TaskRow → Bool
owns_project r = not (is_empty r.project_id) && (r.project_id == project_from_task_id r.id)

abbrev pub label_owned : List Text → LabelRow → Bool
label_owned known l = contains known l.task_id

abbrev pub dep_owned : List Text → DepRow → Bool
dep_owned known d = contains known d.child_id && contains known d.parent_id

abbrev pub within_project : DepRow → Bool
within_project d = same_task_project d.child_id d.parent_id

pub record IsWellFormed (db : Db) : Type 0 where
  pub tasks_distinct : distinct (ids db.tasks) ≡ true
  pub projects : all owns_project db.tasks ≡ true
  pub labels_distinct : distinct db.labels ≡ true
  pub labels_owned : all (label_owned (ids db.tasks)) db.labels ≡ true
  pub deps_distinct : distinct db.deps ≡ true
  pub deps_owned : all (dep_owned (ids db.tasks)) db.deps ≡ true
  pub deps_within : all within_project db.deps ≡ true
