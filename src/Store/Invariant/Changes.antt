-- ===== src/Store/Invariant/Changes.antt =====
-- The statements that update or delete rows keep a database well formed.
use grns.Base.{◌≡◌, Bool, not, arith, filter, all-filter, all-filter_and, distinct-filter}
use grns.Base.Text.{text_eq}
use grns.Store.Tables.{Db, TaskRow, LabelRow, DepRow, label_eq, dep_eq, update_where, delete_tasks}
use grns.Store.Tables.Laws.{
  ids-update_where, all-update_where, contains-ids-filter-not, distinct-ids-filter,
}
use grns.Store.Invariant.{IsWellFormed, owns_project, within_project}

-- A statement that only rewrites columns other than the id and the project.
pub update_where-IsWellFormed :
    (test : TaskRow → Bool) (set : TaskRow → TaskRow) (db : Db)
    → ((r : TaskRow) → (set r).id ≡ r.id)
    → ((r : TaskRow) → (set r).project_id ≡ r.project_id)
    → IsWellFormed db
    → IsWellFormed (record db { tasks = update_where test set db.tasks })
update_where-IsWellFormed test set db same_id same_project w =
    let same = ids-update_where test set db.tasks same_id in
    record {
      tasks_distinct = rw same w.tasks_distinct;
      projects =
          all-update_where test set owns_project db.tasks
            (λ r own. rw (same_id r, same_project r) own) w.projects;
      labels_distinct = w.labels_distinct;
      labels_owned = rw same w.labels_owned;
      deps_distinct = w.deps_distinct;
      deps_owned = rw same w.deps_owned;
      deps_within = w.deps_within;
    }

pub without_labels-IsWellFormed :
    (keep : LabelRow → Bool) (db : Db)
    → IsWellFormed db
    → IsWellFormed (record db { labels = filter keep db.labels })
without_labels-IsWellFormed keep db w = record {
  tasks_distinct = w.tasks_distinct;
  projects = w.projects;
  labels_distinct = distinct-filter keep db.labels w.labels_distinct;
  labels_owned = all-filter _ keep db.labels w.labels_owned;
  deps_distinct = w.deps_distinct;
  deps_owned = w.deps_owned;
  deps_within = w.deps_within;
}

pub without_deps-IsWellFormed :
    (keep : DepRow → Bool) (db : Db)
    → IsWellFormed db
    → IsWellFormed (record db { deps = filter keep db.deps })
without_deps-IsWellFormed keep db w = record {
  tasks_distinct = w.tasks_distinct;
  projects = w.projects;
  labels_distinct = w.labels_distinct;
  labels_owned = w.labels_owned;
  deps_distinct = distinct-filter keep db.deps w.deps_distinct;
  deps_owned = all-filter _ keep db.deps w.deps_owned;
  deps_within = all-filter _ keep db.deps w.deps_within;
}

-- The cascade leaves no reference to a task that is gone.
pub delete_tasks-IsWellFormed :
    (test : TaskRow → Bool) (db : Db) → IsWellFormed db → IsWellFormed (delete_tasks test db)
unfolding delete_tasks
delete_tasks-IsWellFormed test db w =
    let left = contains-ids-filter-not test db.tasks in
    record {
      tasks_distinct = distinct-ids-filter (λ r. not (test r)) db.tasks w.tasks_distinct;
      projects = all-filter owns_project _ db.tasks w.projects;
      labels_distinct = distinct-filter _ db.labels w.labels_distinct;
      labels_owned =
          all-filter_and _ _ _ db.labels (λ l p q. ground (arith, left l.task_id)) w.labels_owned;
      deps_distinct = distinct-filter _ db.deps w.deps_distinct;
      deps_owned =
          all-filter_and _ _ _ db.deps (λ d p q. ground (arith, left d.child_id, left d.parent_id))
            w.deps_owned;
      deps_within = all-filter within_project _ db.deps w.deps_within;
    }
