-- ===== src/Server/Importer/Normalize.antt =====
-- internal/server/importer.go: the checks of an import record, and the phase that makes them.
use grns.Base.{
  ℕ, Bool, not, ◌&&◌, ◌||◌, List, [], ◌∷◌, ◌++◌, Option, none, some, if◌then◌else◌, ◌==◌, nat_eq,
  is_empty,
}
use grns.Base.Text.{Text, text_eq, trim_space}
use grns.Models.{Time, Task, Dependency}
use grns.Models.Domain.{status_closed, dependency_blocks, is_valid_priority}
use grns.Errors.{
  Error, Result, ok, err, plain, value_invalid, bad_request, bad_request_code, map_err, guard,
  ◌>>=◌, code_invalid_argument, code_invalid_id, code_invalid_priority, code_invalid_parent_id,
  code_invalid_dependency,
}
use grns.Server.Validation.{
  normalize_status, normalize_type, normalize_labels, normalize_prefix, validate_id,
  task_id_belongs_to_project,
}
use grns.Server.TaskMapper.{TaskImportRecord}
use grns.Server.Importer.{missing_fields, Run, State, Import, count_error}

abbrev pub invalid : ℕ → Error
invalid code = bad_request_code (plain value_invalid) code

-- A project that the record names must be the one of the route.
unfoldable pub check_project : Text → Text → Result (Unit {0})
check_project raw project = if is_empty (trim_space raw) then ok tt else do
  rec_project ←
      map_err (λ e. bad_request_code e code_invalid_argument) (normalize_prefix (trim_space raw))
  guard (rec_project == project) (invalid code_invalid_argument)

unfoldable pub names_task : Text → Text → Bool
names_task project id = validate_id id && task_id_belongs_to_project id project

unfoldable pub import_dep : Text → Dependency → Result Dependency
unfolding names_task
import_dep project dep =
    let parent = trim_space dep.parent_id in
    let kind = trim_space dep.kind in
    if is_empty parent || not (names_task project parent)
    then err (invalid code_invalid_dependency)
    else ok
        (record { parent_id = parent; kind = if is_empty kind then dependency_blocks else kind })

unfoldable pub import_deps : Text → List Dependency → Result (List Dependency)
unfolding import_dep
import_deps project [] = ok []
import_deps project (dep ∷ deps) = do
  first ← import_dep project dep
  rest ← import_deps project deps
  ok (first ∷ rest)

-- A field that may be nil.
unfoldable pub if_given {ℓ} : {A : Type ℓ} → (A → Result A) → Option A → Result (Option A)
if_given f none = ok none
if_given f (some a) = do b ← f a; ok (some b)

unfoldable pub time_or : Time → Time → Time
time_or default t = if t == 0 then default else t

unfoldable pub import_closed_at : Text → Time → Option Time → Option Time
import_closed_at status updated_at closed_at =
    if status == status_closed
    then elim closed_at [
      | none ↦ some updated_at
      | some t ↦ some (if t == 0 then updated_at else t)
    ]
    else none

-- The record with what the checks made of its fields.
unfoldable pub imported_task : Text → Time → Task → Text → Text → Text → Task
unfolding time_or import_closed_at
imported_task project now t status kind parent_id =
    let created = time_or now t.created_at in
    let updated = time_or created t.updated_at in
    record t {
      project = project;
      id = trim_space t.id;
      title = trim_space t.title;
      status = status;
      kind = kind;
      parent_id = parent_id;
      created_at = created;
      updated_at = updated;
      closed_at = import_closed_at status updated t.closed_at;
    }

-- The checks of a record that has an id and a title.
unfoldable pub normalize_fields :
    Text → Time → Text → Text → TaskImportRecord → Result (Option TaskImportRecord)
unfolding names_task import_deps if_given imported_task
normalize_fields project now id parent_id rec = do
  named ← guard (names_task project id) (invalid code_invalid_id)
  status ← normalize_status rec.task.status
  kind ← normalize_type rec.task.kind
  in_range ← guard (is_valid_priority rec.task.priority) (invalid code_invalid_priority)
  parent ←
      guard (is_empty parent_id || names_task project parent_id) (invalid code_invalid_parent_id)
  labels ← if_given normalize_labels rec.labels
  deps ← if_given (import_deps project) rec.deps
  ok (
      some (record {
        task = imported_task project now rec.task status kind parent_id;
        has_custom = rec.has_custom;
        labels = labels;
        deps = deps;
      }))

-- `normalizeImportRecord`: none is a record to skip.
unfoldable pub normalize_import_record :
    Text → Time → TaskImportRecord → Result (Option TaskImportRecord)
unfolding check_project normalize_fields
normalize_import_record raw_project now rec = do
  project ← map_err (λ e. bad_request_code e code_invalid_argument) (normalize_prefix raw_project)
  same ← check_project rec.task.project project
  if is_empty (trim_space rec.task.id) || is_empty (trim_space rec.task.title)
      then ok none
      else normalize_fields project now (trim_space rec.task.id) (trim_space rec.task.parent_id) rec

unfoldable pub keep_record : TaskImportRecord → Run → Run
keep_record rec run = record run { import_ids = run.import_ids ++ rec.task.id ∷ [] }

-- The records that are kept, with the run that counts the others.
unfoldable pub normalized_step :
    Option TaskImportRecord
    → Result (List TaskImportRecord) × State
    → Result (List TaskImportRecord) × State
normalized_step none r = r
normalized_step (some rec) (ok recs, s) = (ok (rec ∷ recs), s)
normalized_step (some rec) (err e, s) = (err e, s)

unfoldable pub counted : Option TaskImportRecord → Run → Run
unfolding keep_record
counted none run = count_error missing_fields run
counted (some rec) run = keep_record rec run

unfoldable pub normalize_and_validate :
    Text → Time → List TaskImportRecord → Import (List TaskImportRecord)
unfolding normalize_import_record normalized_step counted
normalize_and_validate project now [] s = (ok [], s)
normalize_and_validate project now (raw ∷ raws) (run, db) =
    elim (normalize_import_record project now raw) [
      | err e ↦ (err (bad_request e), (run, db))
      | ok kept ↦
          normalized_step kept (normalize_and_validate project now raws (counted kept run, db))
    ]
