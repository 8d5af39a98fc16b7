-- ===== src/Server/TaskMapper.antt =====
-- internal/server/task_mapper.go: the patches that an update request and an import record become.
use grns.Base.{Bool, not, ◌&&◌, List, Option, none, some, if◌then◌else◌, ◌==◌, is_empty}
use grns.Base.Text.{Text, text_eq, trim_space}
use grns.Base.Int.{ℤ}
use grns.Models.{Time, Custom, Task, Dependency}
use grns.Models.Domain.{status_closed, is_valid_priority}
use grns.Errors.{
  Result, ok, err, plain, value_required, value_invalid, bad_request, bad_request_code, map_err,
  ◌>>=◌, code_missing_required, code_invalid_priority, code_invalid_parent_id,
}
use grns.Server.Validation.{normalize_status, normalize_type, validate_id}
use grns.Server.TaskContracts.{TaskUpdatePatch}

-- api.TaskUpdateRequest; `kind` is its field Type, and of `custom` nil is none.
pub record TaskUpdateRequest : Type 0 where
  pub title : Option Text
  pub status : Option Text
  pub kind : Option Text
  pub priority : Option ℤ
  pub description : Option Text
  pub spec_id : Option Text
  pub parent_id : Option Text
  pub assignee : Option Text
  pub notes : Option Text
  pub design : Option Text
  pub acceptance_criteria : Option Text
  pub source_repo : Option Text
  pub custom : Option Custom

-- api.TaskImportRecord; nil is none.
pub record TaskImportRecord : Type 0 where
  pub task : Task
  pub has_custom : Bool
  pub labels : Option (List Text)
  pub deps : Option (List Dependency)

-- A field that the request may leave out.
unfoldable pub optional {ℓ} : {A : Type ℓ} → (A → Result A) → Option A → Result (Option A)
optional f none = ok none
optional f (some a) = do b ← f a; ok (some b)

unfoldable pub patch_title : Text → Result Text
patch_title title =
    let trimmed = trim_space title in
    if is_empty trimmed
    then err (bad_request_code (plain value_required) code_missing_required)
    else ok trimmed

unfoldable pub patch_priority : ℤ → Result ℤ
patch_priority priority =
    if is_valid_priority priority
    then ok priority
    else err (bad_request_code (plain value_invalid) code_invalid_priority)

unfoldable pub patch_parent_id : Text → Result Text
patch_parent_id raw =
    let parent = trim_space raw in
    if not (is_empty parent) && not (validate_id parent)
    then err (bad_request_code (plain value_invalid) code_invalid_parent_id)
    else ok parent

-- A status comes with the time at which the task is closed, the zero time if it is not.
unfoldable pub patch_closed_at : Time → Option Text → Option Time
patch_closed_at at none = none
patch_closed_at at (some status) = some (if status == status_closed then at else 0)

unfoldable pub build_task_update_from_request : TaskUpdateRequest → Time → Result TaskUpdatePatch
unfolding optional patch_title patch_priority patch_parent_id patch_closed_at
build_task_update_from_request req updated_at = do
  title ← optional patch_title req.title
  status ← optional (λ v. map_err bad_request (normalize_status v)) req.status
  kind ← optional (λ v. map_err bad_request (normalize_type v)) req.kind
  priority ← optional patch_priority req.priority
  parent_id ← optional patch_parent_id req.parent_id
  ok (record {
    title = title;
    status = status;
    kind = kind;
    priority = priority;
    description = req.description;
    spec_id = req.spec_id;
    parent_id = parent_id;
    assignee = req.assignee;
    notes = req.notes;
    design = req.design;
    acceptance_criteria = req.acceptance_criteria;
    source_repo = req.source_repo;
    closed_at = patch_closed_at updated_at status;
    custom = req.custom;
    updated_at = updated_at;
  })

-- The time in an import record, or the time of its update.
abbrev pub closed_or : Time → Option Time → Time
closed_or at none = at
closed_or at (some t) = t

unfoldable pub build_task_update_from_import : TaskImportRecord → TaskUpdatePatch
build_task_update_from_import rec = record {
  title = some rec.task.title;
  status = some rec.task.status;
  kind = some rec.task.kind;
  priority = some rec.task.priority;
  description = some rec.task.description;
  spec_id = some rec.task.spec_id;
  parent_id = some rec.task.parent_id;
  assignee = some rec.task.assignee;
  notes = some rec.task.notes;
  design = some rec.task.design;
  acceptance_criteria = some rec.task.acceptance_criteria;
  source_repo = some rec.task.source_repo;
  closed_at = some (
      if rec.task.status == status_closed
      then closed_or rec.task.updated_at rec.task.closed_at
      else 0);
  custom = if rec.has_custom then some rec.task.custom else none;
  updated_at = rec.task.updated_at;
}
