-- ===== src/Server/TaskService/Lifecycle.antt =====
-- The operations of the service keep a closing time on exactly the closed tasks.
pub mod Histories
use grns.Base.{
  ℕ, suc, ◌≡◌, ◌≢◌, ◌<◌, refl, Bool, true, false, not, ◌&&◌, List, [], ◌∷◌, ◌++◌, Option, none,
  some, if◌then◌else◌, ◌==◌, nat_eq, all, is_empty, arith, map,
}
use grns.Base.Text.{Text, text_eq, trim_space}
use grns.Base.Int.{ℤ}
use grns.Errors.{Error, Result, ok, err, ◌>>=◌, map_err, guard, IfOk, bad_request}
use grns.Errors.Laws.{
  IfOk-refuse, IfOk-require, IfOk-if, IfOk-bind, IfOk-self, IfOk-after, IfOk-map_err,
}
use grns.Models.{Time, Task}
use grns.Models.Domain.{status_closed, status_open, type_task, default_priority}
use grns.Server.Validation.{normalize_status, normalize_type, normalize_labels}
use grns.Server.TaskContracts.{TaskUpdatePatch, to_store_task_update}
use grns.Server.TaskMapper.{
  TaskUpdateRequest, patch_closed_at, build_task_update_from_request, optional, patch_title,
  patch_priority, patch_parent_id,
}
use grns.Server.TaskService.{
  given_or, check_priority, choose_id, check_parent_id, check_deps, Call, TaskCreateRequest,
  PreparedTaskCreate, prepared_task, prepare_create_request, service_project,
}
use grns.Server.TaskService.Operations.{
  create, batch_create, update, close, reopen, prepare_batch, create_input, taken,
  validate_dependency_parents, create_error, not_found_error, ensure_task_exists, stored,
  add_task_dependency, add_task_labels, remove_task_labels,
}
use grns.Store.Tables.{Db, empty_db}
use grns.Store.Tasks.{null_time, create_tasks, create_task, close_tasks, reopen_tasks, update_task}
use grns.Store.Timed.{
  has_value, is_timed, is_timed_task, is_timed_patch, IsTimed, create_tasks-IsTimed, timed_inputs,
}
use grns.Store.Timed.Changes.{update_task-IsTimed, close_tasks-IsTimed, reopen_tasks-IsTimed}

-- A request that is prepared at a time that is not the zero time.
prepared_task-timed :
    (prefix : Text) (req : TaskCreateRequest) (now : Time) (id status kind : Text) (priority : ℤ)
    (parent_id : Text)
    → 0 < now
    → is_timed_task (prepared_task prefix req now id status kind priority parent_id) ≡ true
unfolding is_timed_task prepared_task null_time
prepared_task-timed prefix req now id status kind priority parent_id h = ground (arith, h)

unfoldable pub IsTimedCreate : PreparedTaskCreate → Type 0
IsTimedCreate p = is_timed_task p.task ≡ true

pub prepare-timed :
    (prefix : Text) (req : TaskCreateRequest) (exists : Text → Result Bool)
    (draw : ℕ → Result (List ℕ)) (now : Time)
    → 0 < now
    → IfOk IsTimedCreate (prepare_create_request prefix req exists draw now)
unfolding prepare_create_request IsTimedCreate
prepare-timed prefix req exists draw now h =
    IfOk-refuse IsTimedCreate (is_empty (trim_space req.title)) _ _ λ _.
      IfOk-after IsTimedCreate
        (given_or (λ v. map_err bad_request (normalize_status v)) status_open req.status) _
        λ status.
          IfOk-after IsTimedCreate
            (given_or (λ v. map_err bad_request (normalize_type v)) type_task req.kind) _
            λ kind.
              IfOk-after IsTimedCreate (given_or check_priority default_priority req.priority) _
                λ priority.
                  IfOk-after IsTimedCreate (map_err bad_request (normalize_labels req.labels)) _
                    λ labels. IfOk-after IsTimedCreate (choose_id prefix req.id exists draw) _ λ id.
                      IfOk-after IsTimedCreate (given_or check_parent_id [] req.parent_id) _
                        λ parent_id. IfOk-after IsTimedCreate (check_deps req.deps) _ λ deps.
                          prepared_task-timed prefix req now id status kind priority parent_id h

unfoldable pub IsTimedPatch : TaskUpdatePatch → Type 0
IsTimedPatch p = is_timed_patch p.status p.closed_at ≡ true

patch_closed_at-timed :
    (now : Time) (status : Option Text)
    → 0 < now
    → is_timed_patch status (patch_closed_at now status) ≡ true
unfolding is_timed_patch patch_closed_at
patch_closed_at-timed now none h = refl
patch_closed_at-timed now (some s) h = ground (arith, h)

pub patch-timed :
    (req : TaskUpdateRequest) (now : Time)
    → 0 < now
    → IfOk IsTimedPatch (build_task_update_from_request req now)
unfolding build_task_update_from_request IsTimedPatch
patch-timed req now h = IfOk-after IsTimedPatch (optional patch_title req.title) _ λ title.
    IfOk-after IsTimedPatch (optional (λ v. map_err bad_request (normalize_status v)) req.status) _
      λ status.
        IfOk-after IsTimedPatch (optional (λ v. map_err bad_request (normalize_type v)) req.kind) _
          λ kind. IfOk-after IsTimedPatch (optional patch_priority req.priority) _ λ priority.
            IfOk-after IsTimedPatch (optional patch_parent_id req.parent_id) _
              λ parent_id. patch_closed_at-timed now status h
