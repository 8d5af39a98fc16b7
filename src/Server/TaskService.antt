-- ===== src/Server/TaskService.antt =====
-- internal/server/task_service.go: the operations on tasks, from the requests down to the store.
-- The context and the process give a `Call`: the project in the context, the time that time.Now
-- returns for the n-th request and the bytes that its n-th identifier is drawn from. Failures of
-- SQLite other than those of the constraints are not modelled.
pub mod Operations
pub mod Lifecycle
use grns.Base.{
  ℕ, zero, suc, Bool, true, false, not, ◌&&◌, ◌||◌, List, [], ◌∷◌, ◌++◌, Option, none, some, map,
  if◌then◌else◌, ◌==◌, is_empty, contains,
}
use grns.Base.Text.{Text, text_eq, trim_space, has_prefix}
use grns.Base.Int.{ℤ}
use grns.Models.{Time, Custom, Task, Dependency}
use grns.Models.Domain.{
  status_open, status_closed, type_task, default_priority, dependency_blocks, is_valid_priority,
}
use grns.Errors.{
  Error, Result, ok, err, plain, value_required, value_invalid, task_not_found, bad_request,
  bad_request_code, conflict_code, not_found_code, map_err, ◌>>=◌, ◌>>◌, guard,
  is_unique_constraint, is_foreign_key_constraint, is_project_mismatch, is_task_not_found,
  code_missing_required, code_invalid_priority, code_invalid_parent_id, code_invalid_id,
  code_invalid_dependency, code_task_id_exists, code_task_not_found,
}
use grns.Server.Validation.{
  normalize_status, normalize_type, normalize_labels, normalize_prefix, validate_id,
  task_id_belongs_to_project,
}
use grns.Server.TaskContracts.{to_store_task_update}
use grns.Server.TaskMapper.{TaskUpdateRequest, build_task_update_from_request}
use grns.Store.Project.{generate_id}
use grns.Store.Tables.{Db}
use grns.Store.Tasks.{
  TaskCreateInput, create_task, create_tasks, task_exists, update_task, close_tasks, reopen_tasks,
  add_dependency, add_labels, remove_labels,
}
use grns.Store.Queries.{list_labels}

-- api.TaskCreateRequest; `kind` is its field Type.
pub record TaskCreateRequest : Type 0 where
  pub id : Text
  pub title : Text
  pub status : Option Text
  pub kind : Option Text
  pub priority : Option ℤ
  pub description : Option Text
  pub spec_id : Option Text
  pub parent_id : Option Text
  pub assignee : Option Text
  pub notes : Option Text
  pub design : Option Text
  pub acceptance_criteria : Option Text
  pub source_repo : Option Text
  pub custom : Custom
  pub labels : List Text
  pub deps : List Dependency

pub record Call : Type 0 where
  pub context_project : Option Text
  pub project_prefix : Text
  pub clock : ℕ → Time
  pub draw : ℕ → ℕ → Result (List ℕ)

unfoldable pub ok_or_none {ℓ} : {A : Type ℓ} → Result A → Option A
ok_or_none (ok a) = some a
ok_or_none (err e) = none

-- project_context.go
unfoldable pub project_from_context : Option Text → Option Text
unfolding ok_or_none
project_from_context none = none
project_from_context (some value) = ok_or_none (normalize_prefix value)

unfoldable pub service_project : Call → Result Text
unfolding project_from_context
service_project c = elim (project_from_context c.context_project) [
  | some project ↦ ok project
  | none ↦ normalize_prefix c.project_prefix
]

-- preparedTaskCreate; its response repeats the other three.
pub record PreparedTaskCreate : Type 0 where
  pub task : Task
  pub labels : List Text
  pub deps : List Dependency

abbrev pub value_or_empty : Option Text → Text
value_or_empty none = []
value_or_empty (some s) = trim_space s

-- The value that the request gives, checked, or the default.
unfoldable pub given_or {ℓ} : {A : Type ℓ} → (A → Result A) → A → Option A → Result A
given_or check default none = ok default
given_or check default (some value) = check value

unfoldable pub check_priority : ℤ → Result ℤ
check_priority p =
    if is_valid_priority p
    then ok p
    else err (bad_request_code (plain value_invalid) code_invalid_priority)

-- The id that the request names, if it is free, or a new one.
unfoldable pub choose_id : Text → Text → (Text → Result Bool) → (ℕ → Result (List ℕ)) → Result Text
choose_id prefix raw exists draw =
    let id = trim_space raw in
    if is_empty id
    then generate_id prefix (some exists) draw
    else if not (validate_id id) || not (has_prefix id (prefix ++ b'-' ∷ []))
    then err (bad_request_code (plain value_invalid) code_invalid_id)
    else (exists id >>= λ found.
        if found then err (conflict_code (plain value_invalid) code_task_id_exists) else ok id)

unfoldable pub check_parent_id : Text → Result Text
check_parent_id raw =
    let parent = trim_space raw in
    if not (is_empty parent) && not (validate_id parent)
    then err (bad_request_code (plain value_invalid) code_invalid_parent_id)
    else ok parent

unfoldable pub check_dep : Dependency → Result Dependency
check_dep dep =
    let parent = trim_space dep.parent_id in
    let kind = trim_space dep.kind in
    if is_empty parent || not (validate_id parent)
    then err (bad_request_code (plain value_invalid) code_invalid_dependency)
    else ok
        (record { parent_id = parent; kind = if is_empty kind then dependency_blocks else kind })

unfoldable pub check_deps : List Dependency → Result (List Dependency)
unfolding check_dep
check_deps [] = ok []
check_deps (dep ∷ deps) = do first ← check_dep dep; rest ← check_deps deps; ok (first ∷ rest)

unfoldable pub prepared_task :
    Text → TaskCreateRequest → Time → Text → Text → Text → ℤ → Text → Task
prepared_task prefix req now id status kind priority parent_id = record {
  project = prefix;
  id = id;
  title = trim_space req.title;
  status = status;
  kind = kind;
  priority = priority;
  description = value_or_empty req.description;
  spec_id = value_or_empty req.spec_id;
  parent_id = parent_id;
  assignee = value_or_empty req.assignee;
  notes = value_or_empty req.notes;
  design = value_or_empty req.design;
  acceptance_criteria = value_or_empty req.acceptance_criteria;
  source_repo = value_or_empty req.source_repo;
  created_at = now;
  updated_at = now;
  closed_at = if status == status_closed then some now else none;
  custom = req.custom;
}

unfoldable pub prepare_create_request :
    Text
    → TaskCreateRequest
    → (Text → Result Bool)
    → (ℕ → Result (List ℕ))
    → Time
    → Result PreparedTaskCreate
unfolding given_or check_priority choose_id check_parent_id check_deps prepared_task
prepare_create_request prefix req exists draw now =
    if is_empty (trim_space req.title)
    then err (bad_request_code (plain value_required) code_missing_required)
    else do
      status ← given_or (λ v. map_err bad_request (normalize_status v)) status_open req.status
      kind ← given_or (λ v. map_err bad_request (normalize_type v)) type_task req.kind
      priority ← given_or check_priority default_priority req.priority
      labels ← map_err bad_request (normalize_labels req.labels)
      id ← choose_id prefix req.id exists draw
      parent_id ← given_or check_parent_id [] req.parent_id
      deps ← check_deps req.deps
      ok (record {
        task = prepared_task prefix req now id status kind priority parent_id;
        labels = labels;
        deps = deps;
      })
