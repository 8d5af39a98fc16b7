-- ===== src/Store/Tables.antt =====
-- internal/store/migrations.go: the tables tasks, task_labels and task_deps after the last
-- migration, with their constraints; and the SQL statements of tasks.go as functions on them.
-- A statement that fails changes nothing. Columns that no statement of the model reads as NULL are
-- kept without the option. The projects table and the full text index are not modelled.
pub mod Laws
use grns.Base.{
  ℕ, ◌+◌, Bool, true, false, not, ◌&&◌, ◌||◌, List, [], ◌∷◌, ◌++◌, Option, none, some, map,
  if◌then◌else◌, ◌==◌, nat_eq, is_empty, all, any, contains, append_new, distinct, filter, length,
  Eq, ◌≡◌, ◌↔◌, arith,
}
use grns.Base.Text.{Text, text_eq}
use grns.Base.Int.{ℤ}
use grns.Errors.{Result, ok, err, plain, unique_constraint, foreign_key_constraint}
use grns.Models.{Custom}
use grns.Store.Time.{DbTime}

-- A row of tasks; `none` is NULL.
pub record TaskRow : Type 0 where
  pub id : Text
  pub project_id : Text
  pub title : Text
  pub status : Text
  pub kind : Text
  pub priority : ℤ
  pub description : Option Text
  pub spec_id : Option Text
  pub parent_id : Option Text
  pub assignee : Option Text
  pub notes : Option Text
  pub design : Option Text
  pub acceptance_criteria : Option Text
  pub source_repo : Option Text
  pub created_at : DbTime
  pub updated_at : DbTime
  pub closed_at : Option DbTime
  pub custom : Option Custom

-- A row of task_labels.
pub record LabelRow : Type 0 where
  pub task_id : Text
  pub label : Text

-- A row of task_deps; `kind` is the column type.
pub record DepRow : Type 0 where
  pub child_id : Text
  pub parent_id : Text
  pub kind : Text

unfoldable pub label_beq : LabelRow → LabelRow → Bool
label_beq a b = (a.task_id == b.task_id) && (a.label == b.label)

pub label_beq_iff : (a b : LabelRow) → (label_beq a b ≡ true) ↔ (a ≡ b)
unfolding label_beq
label_beq_iff a b =
    ground (arith, text_eq.beq_iff a.task_id b.task_id, text_eq.beq_iff a.label b.label)

instance abbrev pub label_eq : Eq LabelRow
label_eq = record { beq = label_beq; beq_iff = label_beq_iff }

unfoldable pub dep_beq : DepRow → DepRow → Bool
dep_beq a b = (a.child_id == b.child_id) && (a.parent_id == b.parent_id) && (a.kind == b.kind)

pub dep_beq_iff : (a b : DepRow) → (dep_beq a b ≡ true) ↔ (a ≡ b)
unfolding dep_beq
dep_beq_iff a b = ground (
  arith,
  text_eq.beq_iff a.child_id b.child_id,
  text_eq.beq_iff a.parent_id b.parent_id,
  text_eq.beq_iff a.kind b.kind,
)

instance abbrev pub dep_eq : Eq DepRow
dep_eq = record { beq = dep_beq; beq_iff = dep_beq_iff }

pub record Db : Type 0 where
  pub tasks : List TaskRow
  pub labels : List LabelRow
  pub deps : List DepRow

abbrev pub empty_db : Db
empty_db = record { tasks = []; labels = []; deps = [] }

abbrev pub ids : List TaskRow → List Text
ids = map (λ r. r.id)

-- INSERT INTO tasks: the primary key.
unfoldable pub insert_task : TaskRow → Db → Result Db
insert_task row db =
    if contains (ids db.tasks) row.id
    then err (plain unique_constraint)
    else ok (record db { tasks = db.tasks ++ row ∷ [] })

-- UPDATE tasks SET ... WHERE ...
unfoldable pub update_where : (TaskRow → Bool) → (TaskRow → TaskRow) → List TaskRow → List TaskRow
update_where test set [] = []
update_where test set (r ∷ rs) = (if test r then set r else r) ∷ update_where test set rs

-- DELETE FROM tasks WHERE ...: labels and dependencies go with their tasks (ON DELETE CASCADE).
unfoldable pub delete_tasks : (TaskRow → Bool) → Db → Db
delete_tasks test db =
    let gone = ids (filter test db.tasks) in
    record {
      tasks = filter (λ r. not (test r)) db.tasks;
      labels = filter (λ l. not (contains gone l.task_id)) db.labels;
      deps = filter (λ d. not (contains gone d.child_id || contains gone d.parent_id)) db.deps;
    }

pub append_all {ℓ} : {A : Type ℓ} ⦃e : Eq A⦄ → List A → List A → List A
append_all rows [] = rows
append_all rows (a ∷ more) = append_all (append_new rows a) more

-- INSERT OR IGNORE INTO task_labels: the foreign key, then each row that is not there yet.
unfoldable pub insert_labels_rows : List LabelRow → Db → Result Db
unfolding append_all
insert_labels_rows rows db =
    if all (λ l. contains (ids db.tasks) l.task_id) rows
    then ok (record db { labels = append_all db.labels rows })
    else err (plain foreign_key_constraint)

-- INSERT OR IGNORE INTO task_deps: both foreign keys, then each row that is not there yet.
unfoldable pub insert_dep_rows : List DepRow → Db → Result Db
unfolding append_all
insert_dep_rows rows db =
    if all (λ d. contains (ids db.tasks) d.child_id && contains (ids db.tasks) d.parent_id) rows
    then ok (record db { deps = append_all db.deps rows })
    else err (plain foreign_key_constraint)
