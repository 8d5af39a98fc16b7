-- ===== src/Store/Migrations.antt =====
-- internal/store/migrations.go: the migrations in order, what a run of them does to a database file
-- and the status that MigrationPlan reports.
-- A schema with its rows is a type `S` of which the model asks whether it has the table tasks;
-- running the SQL of a migration in its transaction is the parameter `exec`. Of schema_migrations
-- the model keeps whether it exists and its versions. Other failures of SQLite (opening a
-- transaction, committing, reading the schema) are not modelled.
pub mod Order
pub mod Loop
pub mod Resume
pub mod Runs
pub mod Plan
use grns.Base.{
  ℕ, Bool, true, false, not, List, [], ◌∷◌, ◌++◌, Option, none, some, map, if◌then◌else◌, nat_eq,
  leb, ltb, is_empty, contains, append_new, filter, String,
}
use grns.Errors.{Error, Result, ok, err, plain, wrap, other, unique_constraint, ◌>>=◌}

pub record Migration : Type 0 where
  pub version : ℕ
  pub description : String

-- The list of the source.
abbrev pub migrations : List Migration
migrations =
    record { version = 1; description = "initial schema: tasks, labels, deps tables and indexes" }
    ∷ record {
      version = 2;
      description = "add assignee, notes, design, acceptance_criteria, source_repo columns";
    }
    ∷ record { version = 3; description = "FTS5 full-text search on tasks" }
    ∷ record { version = 4; description = "list query index tuning from measured query plans" }
    ∷ record {
      version = 5;
      description =
          "attachments: add blobs, attachments, and attachment_labels tables with constraints and indexes";
    }
    ∷ record { version = 6; description = "git refs: add git_repos and task_git_refs tables" }
    ∷ record {
      version = 7;
      description = "projects: add explicit project ownership metadata for tasks";
    }
    ∷ record {
      version = 8;
      description = "auth: add local admin users and browser sessions tables";
    }
    ∷ []

-- `recorded` is the table schema_migrations, if it exists.
pub record DbFile {ℓ} (S : Type ℓ) : Type ℓ where
  pub schema : S
  pub recorded : Option (List ℕ)

pub record MigrationInfo : Type 0 where
  pub version : ℕ
  pub description : String

pub record MigrationStatus : Type 0 where
  pub current_version : ℕ
  pub available_version : ℕ
  pub pending : List MigrationInfo

-- sort.Slice by the version.
unfoldable pub insert_by_version : Migration → List Migration → List Migration
insert_by_version m [] = m ∷ []
insert_by_version m (k ∷ ms) =
    let rest = insert_by_version m ms in if ltb k.version m.version then k ∷ rest else m ∷ k ∷ ms

unfoldable pub sort_by_version : List Migration → List Migration
unfolding insert_by_version
sort_by_version [] = []
sort_by_version (m ∷ ms) = insert_by_version m (sort_by_version ms)

-- MAX(version), or 0 of no rows.
unfoldable pub max_version : List ℕ → ℕ
max_version [] = 0
max_version (v ∷ vs) = let rest = max_version vs in if ltb rest v then v else rest

unfoldable pub last_version : List Migration → ℕ
last_version [] = 0
last_version (m ∷ []) = m.version
last_version (m ∷ k ∷ ms) = last_version (k ∷ ms)

abbrev pub to_info : Migration → MigrationInfo
to_info m = record { version = m.version; description = m.description }

unfoldable pub versions_of : Option (List ℕ) → List ℕ
versions_of none = []
versions_of (some vs) = vs

pub max_recorded : Option (List ℕ) → Result ℕ
unfolding max_version
max_recorded none = err (plain other)
max_recorded (some vs) = ok (max_version vs)

pub no_version_recorded : Option (List ℕ) → Bool
no_version_recorded none = true
no_version_recorded (some vs) = is_empty vs

abbrev pub plan_of : Bool → ℕ → List Migration → MigrationStatus
plan_of pre_migration current sorted =
    let effective = if pre_migration then (if leb current 0 then 1 else current) else current in
    record {
      current_version = effective;
      available_version = last_version sorted;
      pending = map to_info (filter (λ m. ltb effective m.version) sorted);
    }

module _ {ℓ} {S : Type ℓ} where
  -- CREATE TABLE IF NOT EXISTS
  unfoldable pub ensure_migrations_table : DbFile S → DbFile S
  unfolding versions_of
  ensure_migrations_table db = record db { recorded = some (versions_of db.recorded) }

  unfoldable pub current_version : DbFile S → Result ℕ
  unfolding max_recorded
  current_version db = max_recorded db.recorded

  unfoldable pub detect_pre_migration : (S → Bool) → DbFile S → Bool
  unfolding no_version_recorded
  detect_pre_migration has_tasks db =
      if not (has_tasks db.schema) then false else no_version_recorded db.recorded

  -- INSERT OR IGNORE of version 1.
  unfoldable pub stamp_version_1 : DbFile S → DbFile S
  unfolding versions_of append_new
  stamp_version_1 db = record db { recorded = some (append_new (versions_of db.recorded) 1) }

  -- INSERT: the version is the primary key.
  unfoldable pub record_version : ℕ → DbFile S → Result (DbFile S)
  unfolding versions_of
  record_version v db =
      if contains (versions_of db.recorded) v
      then err (plain unique_constraint)
      else ok (record db { recorded = some (versions_of db.recorded ++ v ∷ []) })

  -- One transaction: the SQL, then the record of it.
  unfoldable pub apply_migration :
      (Migration → S → Result S) → Migration → DbFile S → Result (DbFile S)
  unfolding record_version
  apply_migration exec m db =
      exec m db.schema >>= λ schema. record_version m.version (record db { schema = schema })

  -- The loop: it stops at the first migration that fails, which leaves the file as it found it.
  unfoldable pub apply_pending :
      (Migration → S → Result S) → ℕ → List Migration → DbFile S → Option Error × DbFile S
  unfolding apply_migration
  apply_pending exec current [] db = (none, db)
  apply_pending exec current (m ∷ ms) db = elim (leb m.version current) [
    | true ↦ apply_pending exec current ms db
    | false ↦ elim (apply_migration exec m db) [
      | ok next ↦ apply_pending exec current ms next
      | err e ↦ (some (wrap e), db)
    ]
  ]

  -- Detection, the table of versions and the stamp of a file from before the migrations.
  unfoldable pub prepare_file : (S → Bool) → DbFile S → DbFile S
  unfolding detect_pre_migration ensure_migrations_table stamp_version_1
  prepare_file has_tasks db =
      let ensured = ensure_migrations_table db in
      if detect_pre_migration has_tasks db then stamp_version_1 ensured else ensured

  unfoldable pub run_migrations :
      (S → Bool) → (Migration → S → Result S) → List Migration → DbFile S → Option Error × DbFile S
  unfolding prepare_file current_version apply_pending sort_by_version
  run_migrations has_tasks exec migrations db =
      let ready = prepare_file has_tasks db in
      elim (current_version ready) [
        | ok current ↦ apply_pending exec current (sort_by_version migrations) ready
        | err e ↦ (some (wrap e), ready)
      ]

  -- The status, and the file, in which the table of versions now exists.
  unfoldable pub migration_plan :
      (S → Bool) → List Migration → DbFile S → Result MigrationStatus × DbFile S
  unfolding detect_pre_migration ensure_migrations_table current_version sort_by_version
  migration_plan has_tasks migrations db =
      let ensured = ensure_migrations_table db in
      (
        current_version ensured >>= λ current.
            ok (plan_of (detect_pre_migration has_tasks db) current (sort_by_version migrations)),
        ensured,
      )
