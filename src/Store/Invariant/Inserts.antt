-- ===== src/Store/Invariant/Inserts.antt =====
-- The statements that insert rows keep a database well formed.
use grns.Base.{
  ◌≡◌, refl, true, false, List, [], ◌∷◌, ◌++◌, arith, map, is_empty, all, contains, all_mono,
  distinct-append_one, all-append, eq_refl,
}
use mathlib.Core.List.{map-append}
use grns.Base.Text.{Text, text_eq}
use grns.Errors.{IfOk}
use grns.Errors.Laws.{IfOk-refuse, IfOk-require, IfOk-if}
use grns.Models.{Task, Dependency}
use grns.Store.Project.{project_from_task_id, same_task_project}
use grns.Store.Tables.{
  Db, TaskRow, LabelRow, DepRow, label_eq, dep_eq, ids, insert_task, insert_labels_rows,
  insert_dep_rows,
}
use grns.Store.Tables.Laws.{append_all-distinct, all-append_all, contains-ids-append}
use grns.Store.Tasks.{
  dep_row, insert_task_row, insert_labels, insert_deps, task_row, add_dependency,
}
use grns.Store.Invariant.{IsWellFormed, owns_project, label_owned, dep_owned, within_project}

-- References stay good where no id is lost.
abbrev Covers : List Text → List Text → Type 0
Covers known more = (a : Text) → contains known a ≡ true → contains more a ≡ true

labels_still_owned :
    (known more : List Text) (ls : List LabelRow)
    → Covers known more
    → all (label_owned known) ls ≡ true
    → all (label_owned more) ls ≡ true
labels_still_owned known more ls c =
    all_mono (label_owned known) (label_owned more) ls (λ l. c l.task_id)

dep_still_owned :
    (known more : List Text) (d : DepRow)
    → Covers known more
    → dep_owned known d ≡ true
    → dep_owned more d ≡ true
dep_still_owned known more d c h = ground (arith, c d.child_id, c d.parent_id)

deps_still_owned :
    (known more : List Text) (ds : List DepRow)
    → Covers known more
    → all (dep_owned known) ds ≡ true
    → all (dep_owned more) ds ≡ true
deps_still_owned known more ds c =
    all_mono (dep_owned known) (dep_owned more) ds (λ d. dep_still_owned known more d c)

with_row : Db → TaskRow → Db
with_row db r = record db { tasks = db.tasks ++ r ∷ [] }

-- A new row whose id is free and whose project is right.
with_row-IsWellFormed :
    (db : Db) (r : TaskRow)
    → contains (ids db.tasks) r.id ≡ false
    → owns_project r ≡ true
    → IsWellFormed db
    → IsWellFormed (with_row db r)
unfolding with_row
with_row-IsWellFormed db r free own w = record {
  tasks_distinct =
      rw (map-append (λ (t : TaskRow). t.id) db.tasks (r ∷ []))
        (distinct-append_one (ids db.tasks) r.id w.tasks_distinct free);
  projects = ground (arith, all-append owns_project db.tasks (r ∷ []), w.projects);
  labels_distinct = w.labels_distinct;
  labels_owned =
      labels_still_owned (ids db.tasks) _ db.labels (contains-ids-append db.tasks (r ∷ []))
        w.labels_owned;
  deps_distinct = w.deps_distinct;
  deps_owned =
      deps_still_owned (ids db.tasks) _ db.deps (contains-ids-append db.tasks (r ∷ []))
        w.deps_owned;
  deps_within = w.deps_within;
}

row_owns_project :
    (t : Task)
    → is_empty (project_from_task_id t.id) ≡ false
    → owns_project (task_row (project_from_task_id t.id) t) ≡ true
unfolding task_row
row_owns_project t named = ground (arith, eq_refl (project_from_task_id t.id))

id-task_row : (t : Task) (p : Text) → (task_row p t).id ≡ t.id
unfolding task_row
id-task_row t p = refl

insert_task-IsWellFormed :
    (r : TaskRow) (db : Db)
    → owns_project r ≡ true
    → IsWellFormed db
    → IfOk IsWellFormed (insert_task r db)
unfolding insert_task with_row
insert_task-IsWellFormed r db own w =
    IfOk-refuse IsWellFormed (contains (ids db.tasks) r.id) _ _
      (λ free. with_row-IsWellFormed db r free own w)

pub insert_task_row-IsWellFormed :
    (t : Task) (db : Db) → IsWellFormed db → IfOk IsWellFormed (insert_task_row t db)
unfolding insert_task_row
insert_task_row-IsWellFormed t db w =
    IfOk-refuse IsWellFormed (is_empty (project_from_task_id t.id)) _ _
      (λ named. insert_task-IsWellFormed _ db (row_owns_project t named) w)

insert_labels_rows-IsWellFormed :
    (rows : List LabelRow) (db : Db)
    → IsWellFormed db
    → IfOk IsWellFormed (insert_labels_rows rows db)
unfolding insert_labels_rows
insert_labels_rows-IsWellFormed rows db w =
    IfOk-require IsWellFormed (all (label_owned (ids db.tasks)) rows) _ _ λ owned. record {
      tasks_distinct = w.tasks_distinct;
      projects = w.projects;
      labels_distinct = append_all-distinct db.labels rows w.labels_distinct;
      labels_owned = all-append_all _ db.labels rows w.labels_owned owned;
      deps_distinct = w.deps_distinct;
      deps_owned = w.deps_owned;
      deps_within = w.deps_within;
    }

pub insert_labels-IsWellFormed :
    (id : Text) (labels : List Text) (db : Db)
    → IsWellFormed db
    → IfOk IsWellFormed (insert_labels id labels db)
unfolding insert_labels
insert_labels-IsWellFormed id labels db w =
    IfOk-if IsWellFormed (is_empty labels) _ _ (λ _. w)
      (λ _. insert_labels_rows-IsWellFormed _ db w)

insert_dep_rows-IsWellFormed :
    (rows : List DepRow) (db : Db)
    → all within_project rows ≡ true
    → IsWellFormed db
    → IfOk IsWellFormed (insert_dep_rows rows db)
unfolding insert_dep_rows
insert_dep_rows-IsWellFormed rows db within w =
    IfOk-require IsWellFormed (all (dep_owned (ids db.tasks)) rows) _ _ λ owned. record {
      tasks_distinct = w.tasks_distinct;
      projects = w.projects;
      labels_distinct = w.labels_distinct;
      labels_owned = w.labels_owned;
      deps_distinct = append_all-distinct db.deps rows w.deps_distinct;
      deps_owned = all-append_all _ db.deps rows w.deps_owned owned;
      deps_within = all-append_all _ db.deps rows w.deps_within within;
    }

all-dep_row :
    (child : Text) (deps : List Dependency)
    → all (λ d. same_task_project child d.parent_id) deps ≡ true
    → all within_project (map (dep_row child) deps) ≡ true
all-dep_row child [] h = refl
all-dep_row child (d ∷ deps) h = ground (arith, all-dep_row child deps)

pub insert_deps-IsWellFormed :
    (child : Text) (deps : List Dependency) (db : Db)
    → IsWellFormed db
    → IfOk IsWellFormed (insert_deps child deps db)
unfolding insert_deps
insert_deps-IsWellFormed child deps db w =
    IfOk-if IsWellFormed (is_empty deps) _ _ (λ _. w)
      λ _.
        IfOk-require IsWellFormed (all (λ d. same_task_project child d.parent_id) deps) _ _
          (λ within. insert_dep_rows-IsWellFormed _ db (all-dep_row child deps within) w)

pub add_dependency-IsWellFormed :
    (child parent kind : Text) (db : Db)
    → IsWellFormed db
    → IfOk IsWellFormed (add_dependency child parent kind db)
unfolding add_dependency
add_dependency-IsWellFormed child parent kind db w =
    IfOk-require IsWellFormed (same_task_project child parent) _ _ λ within.
      insert_dep_rows-IsWellFormed
        (record { child_id = child; parent_id = parent; kind = kind } ∷ []) db
        (ground (arith, within)) w
