-- ===== src/Server/TaskService/Lifecycle/Histories.antt =====
-- Every history of requests to the service, and the closing times behind it.
use grns.Base.{
  ℕ, suc, ◌≡◌, ◌<◌, refl, true, ◌&&◌, List, [], ◌∷◌, if-both, nat_eq, is_empty, arith, map,
}
use grns.Base.Text.{Text, text_eq}
use grns.Errors.{Result, ok, err, map_err, guard, IfOk, bad_request}
use grns.Errors.Laws.{IfOk-refuse, IfOk-bind}
use grns.Server.Validation.{task_id_belongs_to_project, validate_id, normalize_labels}
use grns.Server.TaskContracts.{TaskUpdatePatch, to_store_task_update}
use grns.Server.TaskMapper.{TaskUpdateRequest, build_task_update_from_request}
use grns.Server.TaskService.{
  Call, TaskCreateRequest, PreparedTaskCreate, prepare_create_request, service_project,
}
use grns.Server.TaskService.Operations.{
  create, batch_create, update, close, reopen, prepare_batch, create_input, taken,
  validate_dependency_parents, create_error, validate_batch, no_such_task, invalid_id,
  invalid_dependency, not_found_error, ensure_task_exists, stored, add_task_dependency,
  add_task_labels, remove_task_labels,
}
use grns.Store.Tables.{Db, empty_db}
use grns.Store.Tasks.{create_tasks, create_task, add_labels, remove_labels}
use grns.Store.Timed.{is_timed_patch, IsTimed, create_tasks-IsTimed, timed_inputs}
use grns.Store.Timed.Changes.{
  update_task-IsTimed, add_dependency-IsTimed, add_labels-IsTimed, close_tasks-IsTimed,
  reopen_tasks-IsTimed,
}
use grns.Server.TaskService.Lifecycle.{
  IfOk-after, IfOk-map_err, IsTimedCreate, prepare-timed, IsTimedPatch, patch-timed,
}

-- A call of the service, each with its own context and clock.
pub data ServiceOp : Type 0 where
  creating : TaskCreateRequest → ServiceOp
  batch_creating : List TaskCreateRequest → ServiceOp
  updating : Text → TaskUpdateRequest → ServiceOp
  closing reopening : List Text → ServiceOp
  linking : Text → Text → Text → ServiceOp
  labelling unlabelling : Text → List Text → ServiceOp

-- The new database, without the answer.
abbrev pub database {ℓ} : {A : Type ℓ} → Result (A × Db) → Result Db
database (ok p) = ok p.1
database (err e) = err e

unfoldable pub serve : Call → ServiceOp → Db → Result Db
unfolding create batch_create update close reopen add_task_dependency add_task_labels
    remove_task_labels
serve c (creating req) db = database (create c req db)
serve c (batch_creating reqs) db = database (batch_create c reqs db)
serve c (updating id req) db = update c id req db
serve c (closing wanted) db = close c wanted db
serve c (reopening wanted) db = reopen c wanted db
serve c (linking child parent kind) db = add_task_dependency c child parent kind db
serve c (labelling id labels) db = database (add_task_labels c id labels db)
serve c (unlabelling id labels) db = database (remove_task_labels c id labels db)

-- The clock of a call never reads the zero time.
unfoldable pub Ticks : Call → Type 0
Ticks c = (n : ℕ) → 0 < c.clock n

one_timed : (p : PreparedTaskCreate) → IsTimedCreate p → timed_inputs (create_input p ∷ []) ≡ true
unfolding IsTimedCreate timed_inputs
one_timed p h = ground (arith, h)

patch_stored :
    (p : TaskUpdatePatch)
    → IsTimedPatch p
    → is_timed_patch (to_store_task_update p).status (to_store_task_update p).closed_at ≡ true
unfolding IsTimedPatch to_store_task_update
patch_stored p h = h

of_database {ℓ} :
    {A : Type ℓ} (r : Result (A × Db)) → IfOk (λ p. IsTimed p.1) r → IfOk IsTimed (database r)
of_database (ok p) h = h
of_database (err e) h = tt

create-IsTimed :
    (c : Call) (req : TaskCreateRequest) (db : Db)
    → Ticks c
    → IsTimed db
    → IfOk (λ p. IsTimed p.1) (create c req db)
unfolding create create_task Ticks
create-IsTimed c req db h w =
    IfOk-after (λ p. IsTimed p.1) (service_project c) _
      λ prefix.
        IfOk-bind IsTimedCreate (λ p. IsTimed p.1)
          (prepare_create_request prefix req (stored db) (c.draw 0) (c.clock 0)) _
          (prepare-timed prefix req (stored db) (c.draw 0) (c.clock 0) (h 0))
          λ prepared timed.
            IfOk-after (λ p. IsTimed p.1)
              (validate_dependency_parents prepared.deps (prepared.task.id ∷ []) (stored db)) _
              λ parents.
                IfOk-bind IsTimed (λ p. IsTimed p.1)
                  (map_err create_error (create_tasks (create_input prepared ∷ []) db)) _
                  (IfOk-map_err IsTimed create_error _ (
                    create_tasks-IsTimed (create_input prepared ∷ []) db (one_timed prepared timed)
                      w))
                  λ db' w'. w'

batch-timed :
    (c : Call) (prefix : Text) (db : Db) (n : ℕ) (reserved : List Text)
    (reqs : List TaskCreateRequest)
    → Ticks c
    → IfOk
        (λ ps. timed_inputs (map create_input ps) ≡ true)
        (prepare_batch c prefix db n reserved reqs)
unfolding prepare_batch timed_inputs IsTimedCreate Ticks
batch-timed c prefix db n reserved [] h = refl
batch-timed c prefix db n reserved (req ∷ reqs) h =
    IfOk-bind IsTimedCreate (λ ps. timed_inputs (map create_input ps) ≡ true)
      (prepare_create_request prefix req (taken reserved db) (c.draw n) (c.clock n)) _
      (prepare-timed prefix req (taken reserved db) (c.draw n) (c.clock n) (h n))
      λ p timed.
        IfOk-bind (λ ps. timed_inputs (map create_input ps) ≡ true)
          (λ ps. timed_inputs (map create_input ps) ≡ true)
          (prepare_batch c prefix db (suc n) (p.task.id ∷ reserved) reqs) _
          (batch-timed c prefix db (suc n) (p.task.id ∷ reserved) reqs h)
          λ ps more. ground (arith, timed, more)

batch_create-IsTimed :
    (c : Call) (reqs : List TaskCreateRequest) (db : Db)
    → Ticks c
    → IsTimed db
    → IfOk (λ p. IsTimed p.1) (batch_create c reqs db)
unfolding batch_create
batch_create-IsTimed c reqs db h w =
    IfOk-refuse (λ p. IsTimed p.1) (is_empty reqs) _ _
      λ _.
        IfOk-after (λ p. IsTimed p.1) (service_project c) _
          λ prefix.
            IfOk-bind (λ ps. timed_inputs (map create_input ps) ≡ true) (λ p. IsTimed p.1)
              (prepare_batch c prefix db 0 [] reqs) _ (batch-timed c prefix db 0 [] reqs h)
              λ ps timed.
                IfOk-after (λ p. IsTimed p.1) (validate_batch (map (λ p. p.task.id) ps) db ps) _
                  λ parents.
                    IfOk-bind IsTimed (λ p. IsTimed p.1)
                      (map_err create_error (create_tasks (map create_input ps) db)) _
                      (IfOk-map_err IsTimed create_error _
                        (create_tasks-IsTimed (map create_input ps) db timed w))
                      λ db' w'. w'

update-IsTimed :
    (c : Call) (id : Text) (req : TaskUpdateRequest) (db : Db)
    → Ticks c
    → IsTimed db
    → IfOk IsTimed (update c id req db)
unfolding update to_store_task_update Ticks
update-IsTimed c id req db h w = IfOk-after IsTimed (service_project c) _ λ project.
    IfOk-after IsTimed (guard (task_id_belongs_to_project id project) no_such_task) _ λ belongs.
      IfOk-bind IsTimedPatch IsTimed (build_task_update_from_request req (c.clock 0)) _
        (patch-timed req (c.clock 0) (h 0))
        λ patch timed.
          update_task-IsTimed id (to_store_task_update patch) db (patch_stored patch timed) w

without_labels-IsTimed :
    (id : Text) (ls : List Text) (db : Db) → IsTimed db → IsTimed (remove_labels id ls db)
unfolding remove_labels IsTimed
without_labels-IsTimed id ls db w = if-both IsTimed (is_empty ls) _ _ (λ _. w) λ _. w

serve-IsTimed :
    (c : Call) (op : ServiceOp) (db : Db) → Ticks c → IsTimed db → IfOk IsTimed (serve c op db)
unfolding serve close reopen add_task_dependency add_task_labels remove_task_labels
serve-IsTimed c (creating req) db h w = of_database _ (create-IsTimed c req db h w)
serve-IsTimed c (batch_creating reqs) db h w = of_database _ (batch_create-IsTimed c reqs db h w)
serve-IsTimed c (updating id req) db h w = update-IsTimed c id req db h w
serve-IsTimed c (closing wanted) db h w = IfOk-after IsTimed (service_project c) _ λ project.
    IfOk-map_err IsTimed not_found_error _ (close_tasks-IsTimed project wanted (c.clock 0) db w)
serve-IsTimed c (reopening wanted) db h w = IfOk-after IsTimed (service_project c) _ λ project.
    IfOk-map_err IsTimed not_found_error _ (reopen_tasks-IsTimed project wanted (c.clock 0) db w)
serve-IsTimed c (linking child parent kind) db h w =
    IfOk-after IsTimed (guard (validate_id child && validate_id parent) invalid_dependency) _
      λ valid. IfOk-after IsTimed (service_project c) _ λ project.
        IfOk-after IsTimed
          (guard
            (task_id_belongs_to_project child project && task_id_belongs_to_project parent project)
            invalid_dependency)
          _
          λ belong. IfOk-after IsTimed (ensure_task_exists c child db) _ λ found.
            IfOk-after IsTimed (ensure_task_exists c parent db) _
              λ found'. IfOk-map_err IsTimed _ _ (add_dependency-IsTimed child parent _ db w)
serve-IsTimed c (labelling id labels) db h w = of_database (add_task_labels c id labels db) (
    IfOk-after (λ p. IsTimed p.1) (guard (validate_id id) invalid_id) _
      λ valid.
        IfOk-after (λ p. IsTimed p.1) (ensure_task_exists c id db) _
          λ found.
            IfOk-after (λ p. IsTimed p.1) (map_err bad_request (normalize_labels labels)) _
              λ normalized.
                IfOk-bind IsTimed (λ p. IsTimed p.1) (add_labels id normalized db) _
                  (add_labels-IsTimed id normalized db w) λ db' w'. w')
serve-IsTimed c (unlabelling id labels) db h w = of_database (remove_task_labels c id labels db) (
    IfOk-after (λ p. IsTimed p.1) (guard (validate_id id) invalid_id) _
      λ valid.
        IfOk-after (λ p. IsTimed p.1) (ensure_task_exists c id db) _
          λ found.
            IfOk-after (λ p. IsTimed p.1) (map_err bad_request (normalize_labels labels)) _
              λ normalized. without_labels-IsTimed id normalized db w)

after : Db → Result Db → Db
after db (ok db') = db'
after db (err e) = db

unfoldable pub serve_all : List (Call × ServiceOp) → Db → Db
unfolding serve after
serve_all [] db = db
serve_all (call ∷ calls) db = serve_all calls (after db (serve call.0 call.1 db))

unfoldable pub AllTick : List (Call × ServiceOp) → Type 0
AllTick [] = Unit
AllTick (call ∷ calls) = Ticks call.0 × AllTick calls

serve_all_from :
    (calls : List (Call × ServiceOp)) (db : Db)
    → AllTick calls
    → IsTimed db
    → IsTimed (serve_all calls db)
unfolding serve_all AllTick
serve_all_from [] db h w = w
serve_all_from (call ∷ calls) db h w =
    serve_all_from calls (after db (serve call.0 call.1 db)) h.1
      (after-timed (serve call.0 call.1 db) (serve-IsTimed call.0 call.1 db h.0 w))
  where
    after-timed : (r : Result Db) → IfOk IsTimed r → IsTimed (after db r)
    after-timed (ok db') k = k
    after-timed (err e) k = w

-- After every history of these requests of the task service on an empty database, failed ones
-- included: creating, batch-creating, updating, closing, reopening, linking, labelling and
-- unlabelling, each at a time behind the zero time, exactly the closed tasks have a closing time.
-- Imports, which write both fields as they are given, and closing with a commit are not among them.
pub serve_all-IsTimed :
    (calls : List (Call × ServiceOp)) → AllTick calls → IsTimed (serve_all calls empty_db)
unfolding IsTimed
serve_all-IsTimed calls h = serve_all_from calls empty_db h refl
