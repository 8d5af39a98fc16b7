-- ===== src/Server/TaskService/Operations.antt =====
-- internal/server/task_service.go: the operations that change the store. Each is a function to its
-- answer and the new database, or to the error, which leaves the database as it was.
use grns.Base.{
  ℕ, suc, Bool, true, ◌&&◌, ◌||◌, List, [], ◌∷◌, map, if◌then◌else◌, is_empty, contains,
}
use grns.Base.Text.{Text, text_eq, trim_space}
use grns.Models.{Dependency}
use grns.Models.Domain.{dependency_blocks}
use grns.Errors.{
  Error, Result, ok, err, plain, value_required, value_invalid, task_not_found, bad_request,
  bad_request_code, conflict_code, not_found_code, map_err, ◌>>=◌, ◌>>◌, guard,
  is_unique_constraint, is_foreign_key_constraint, is_project_mismatch, is_task_not_found,
  code_missing_required, code_invalid_id, code_invalid_dependency, code_task_id_exists,
  code_task_not_found,
}
use grns.Server.Validation.{normalize_labels, validate_id, task_id_belongs_to_project}
use grns.Server.TaskContracts.{to_store_task_update}
use grns.Server.TaskMapper.{TaskUpdateRequest, build_task_update_from_request}
use grns.Server.TaskService.{
  Call, TaskCreateRequest, PreparedTaskCreate, service_project, prepare_create_request,
}
use grns.Store.Tables.{Db}
use grns.Store.Tasks.{
  TaskCreateInput, create_task, create_tasks, task_exists, update_task, close_tasks, reopen_tasks,
  add_dependency, add_labels, remove_labels,
}
use grns.Store.Queries.{list_labels}

-- Each parent is created by the same request or already stored.
unfoldable pub validate_dependency_parents :
    List Dependency → List Text → (Text → Result Bool) → Result (Unit {0})
validate_dependency_parents [] created exists = ok tt
validate_dependency_parents (dep ∷ deps) created exists =
    let rest = validate_dependency_parents deps created exists in
    if contains created dep.parent_id
    then rest
    else (exists dep.parent_id >>= λ found.
        if found
        then rest
        else err (bad_request_code (plain value_invalid) code_invalid_dependency))

-- What the client sees of an error of CreateTask and CreateTasks.
unfoldable pub create_error : Error → Error
create_error e =
    if is_unique_constraint e
    then conflict_code (plain value_invalid) code_task_id_exists
    else if is_foreign_key_constraint e || is_project_mismatch e
    then bad_request_code (plain value_invalid) code_invalid_dependency
    else e

abbrev pub stored : Db → Text → Result Bool
stored db id = ok (task_exists id db)

unfoldable pub create : Call → TaskCreateRequest → Db → Result (PreparedTaskCreate × Db)
unfolding prepare_create_request validate_dependency_parents create_error create_task
create c req db = do
  prefix ← service_project c
  prepared ← prepare_create_request prefix req (stored db) (c.draw 0) (c.clock 0)
  ok_parents ← validate_dependency_parents prepared.deps (prepared.task.id ∷ []) (stored db)
  db' ← map_err create_error (create_task prepared.task prepared.labels prepared.deps db)
  ok (prepared, db')

-- `exists`: the ids that the batch has taken, and those of the store. The cache holds answers of
-- the store, which does not change while the batch is prepared.
unfoldable pub taken : List Text → Db → Text → Result Bool
taken reserved db id = if contains reserved id then ok true else ok (task_exists id db)

unfoldable pub prepare_batch :
    Call → Text → Db → ℕ → List Text → List TaskCreateRequest → Result (List PreparedTaskCreate)
unfolding prepare_create_request taken
prepare_batch c prefix db n reserved [] = ok []
prepare_batch c prefix db n reserved (req ∷ reqs) = do
  prepared ← prepare_create_request prefix req (taken reserved db) (c.draw n) (c.clock n)
  rest ← prepare_batch c prefix db (suc n) (prepared.task.id ∷ reserved) reqs
  ok (prepared ∷ rest)

unfoldable pub validate_batch : List Text → Db → List PreparedTaskCreate → Result (Unit {0})
unfolding validate_dependency_parents
validate_batch reserved db [] = ok tt
validate_batch reserved db (p ∷ ps) =
    validate_dependency_parents p.deps reserved (taken reserved db) >> validate_batch reserved db ps

abbrev pub create_input : PreparedTaskCreate → TaskCreateInput
create_input p = record { task = p.task; labels = p.labels; deps = p.deps }

unfoldable pub batch_create :
    Call → List TaskCreateRequest → Db → Result (List PreparedTaskCreate × Db)
unfolding prepare_batch validate_batch create_error create_tasks
batch_create c reqs db =
    if is_empty reqs
    then err (bad_request_code (plain value_required) code_missing_required)
    else do
      prefix ← service_project c
      prepared ← prepare_batch c prefix db 0 [] reqs
      ok_parents ← validate_batch (map (λ p. p.task.id) prepared) db prepared
      db' ← map_err create_error (create_tasks (map create_input prepared) db)
      ok (prepared, db')

abbrev pub no_such_task : Error
no_such_task = not_found_code (plain task_not_found) code_task_not_found

-- `Update` up to its read of the updated task.
unfoldable pub update : Call → Text → TaskUpdateRequest → Db → Result Db
unfolding build_task_update_from_request update_task
update c id req db = do
  project ← service_project c
  belongs ← guard (task_id_belongs_to_project id project) no_such_task
  patch ← build_task_update_from_request req (c.clock 0)
  update_task id (to_store_task_update patch) db

unfoldable pub not_found_error : Error → Error
not_found_error e = if is_task_not_found e then no_such_task else e

unfoldable pub close : Call → List Text → Db → Result Db
unfolding not_found_error close_tasks
close c wanted db = do
  project ← service_project c
  map_err not_found_error (close_tasks project wanted (c.clock 0) db)

unfoldable pub reopen : Call → List Text → Db → Result Db
unfolding not_found_error reopen_tasks
reopen c wanted db = do
  project ← service_project c
  map_err not_found_error (reopen_tasks project wanted (c.clock 0) db)

unfoldable pub ensure_task_exists : Call → Text → Db → Result (Unit {0})
ensure_task_exists c id db = do
  project ← service_project c
  belongs ← guard (task_id_belongs_to_project id project) no_such_task
  guard (task_exists id db) no_such_task

abbrev pub invalid_dependency : Error
invalid_dependency = bad_request_code (plain value_invalid) code_invalid_dependency

unfoldable pub add_task_dependency : Call → Text → Text → Text → Db → Result Db
unfolding ensure_task_exists add_dependency
add_task_dependency c child_id parent_id raw_kind db = do
  valid ← guard (validate_id child_id && validate_id parent_id) invalid_dependency
  project ← service_project c
  belong ←
      guard
        (task_id_belongs_to_project child_id project
          && task_id_belongs_to_project parent_id project)
        invalid_dependency
  child ← ensure_task_exists c child_id db
  parent ← ensure_task_exists c parent_id db
  let kind = trim_space raw_kind
  map_err (λ e. if is_project_mismatch e then invalid_dependency else e)
      (add_dependency child_id parent_id (if is_empty kind then dependency_blocks else kind) db)

abbrev pub invalid_id : Error
invalid_id = bad_request_code (plain value_invalid) code_invalid_id

unfoldable pub add_task_labels : Call → Text → List Text → Db → Result (List Text × Db)
unfolding ensure_task_exists add_labels
add_task_labels c id labels db = do
  valid ← guard (validate_id id) invalid_id
  exists ← ensure_task_exists c id db
  normalized ← map_err bad_request (normalize_labels labels)
  db' ← add_labels id normalized db
  ok (list_labels id db', db')

unfoldable pub remove_task_labels : Call → Text → List Text → Db → Result (List Text × Db)
unfolding ensure_task_exists remove_labels
remove_task_labels c id labels db = do
  valid ← guard (validate_id id) invalid_id
  exists ← ensure_task_exists c id db
  normalized ← map_err bad_request (normalize_labels labels)
  ok (list_labels id (remove_labels id normalized db), remove_labels id normalized db)
