-- ===== src/Server/Importer.antt =====
-- internal/server/importer.go: an import in phases, over one record of the run.
-- Of a message the model keeps what it reports. The cache of `taskExists` is the list of ids that
-- have an entry, each with its answer.
pub mod Normalize
pub mod Phases
pub mod DryRun
pub mod Atomic
use grns.Base.{
  ℕ, zero, suc, ◌+◌, Bool, true, false, not, ◌&&◌, ◌||◌, List, [], ◌∷◌, ◌++◌, Option, none, some,
  map, if◌then◌else◌, ◌==◌, is_empty, contains, length,
}
use grns.Base.Text.{Text, text_eq, codes}
use grns.Models.{Time, Task, Dependency}
use grns.Errors.{Error, Result, ok, err}
use grns.Server.TaskContracts.{to_store_task_update}
use grns.Server.TaskMapper.{TaskImportRecord, build_task_update_from_import}
use grns.Store.Tables.{Db}
use grns.Store.Tasks.{
  create_task, task_exists, update_task, replace_labels, remove_dependencies, add_dependency,
}

-- importTaskAction
pub data Action : Type 0 where
  action_none action_created action_updated action_skipped action_error : Action

pub data Message : Type 0 where
  missing_fields : Message
  duplicate_id : Text → Message
  skipped_orphan strict_orphan : Text → Text → Message

-- api.ImportRequest, with the dedupe mode and the orphan handling that `Import` fills in.
pub record ImportRequest : Type 0 where
  pub tasks : List TaskImportRecord
  pub dry_run : Bool
  pub dedupe : Text
  pub orphan_handling : Text
  pub atomic : Bool

-- api.ImportResponse
pub record ImportResponse : Type 0 where
  pub created : ℕ
  pub updated : ℕ
  pub skipped : ℕ
  pub errors : ℕ
  pub dry_run : Bool
  pub task_ids : List Text
  pub messages : List Message
  pub atomic_mode : Bool
  pub applied_chunks : ℕ

-- What changes of importRun.
pub record Run : Type 0 where
  pub response : ImportResponse
  pub import_ids : List Text
  pub cache : List (Text × Bool)

-- The phases run over the run and the store. An error ends them, and what was written before it
-- stays written, unless a transaction takes it back.
abbrev pub State : Type 0
State = Run × Db

abbrev pub Import {ℓ} : Type ℓ → Type ℓ
Import A = State → Result A × State

abbrev pub continue {ℓ κ} :
    {A : Type ℓ} {B : Type κ} → (A → Import B) → Result A × State → Result B × State
continue f (ok a, s) = f a s
continue f (err e, s) = (err e, s)

infixl 5 ◌>>=◌
abbrev pub ◌>>=◌ {ℓ κ} : {A : Type ℓ} {B : Type κ} → Import A → (A → Import B) → Import B
m >>= f = λ s. continue f (m s)

abbrev pub pure {ℓ} : {A : Type ℓ} → A → Import A
pure a s = (ok a, s)

abbrev pub modify : (Run → Run) → Import (Unit {0})
modify f (run, db) = (ok tt, (f run, db))

abbrev pub written : Run → Db → Result Db → Result (Unit {0}) × State
written run db (ok db') = (ok tt, (run, db'))
written run db (err e) = (err e, (run, db))

-- A statement of the store: an error leaves the database as it was.
abbrev pub write : (Db → Result Db) → Import (Unit {0})
write op (run, db) = written run db (op db)

unfoldable pub cached : Text → List (Text × Bool) → Option Bool
cached id [] = none
cached id (e ∷ es) = let rest = cached id es in if e.0 == id then some e.1 else rest

-- `taskExists`: the answer, which the run remembers.
abbrev pub answer : Text → Option Bool → Import Bool
answer id none (run, db) =
    (ok (task_exists id db), (record run { cache = (id, task_exists id db) ∷ run.cache }, db))
answer id (some found) s = (ok found, s)

unfoldable pub lookup_task : Text → Import Bool
unfolding cached task_exists
lookup_task id (run, db) = answer id (cached id run.cache) (run, db)

unfoldable pub remember : Text → Run → Run
remember id run = record run { cache = (id, true) ∷ run.cache }

unfoldable pub overwrite_labels : Text → Option (List Text) → Import (Unit {0})
overwrite_labels id none = pure tt
overwrite_labels id (some labels) = write (replace_labels id labels)

unfoldable pub overwrite_task : TaskImportRecord → Import (Unit {0})
unfolding overwrite_labels
overwrite_task rec = do
  updated ←
      write (update_task rec.task.id (to_store_task_update (build_task_update_from_import rec)))
  overwrite_labels rec.task.id rec.labels

abbrev pub labels_or_none : Option (List Text) → List Text
labels_or_none none = []
labels_or_none (some labels) = labels

-- What one record does to the counters, the messages and the action.
unfoldable pub count_created : Text → Run → Run
unfolding remember
count_created id run =
    let r = run.response in
    remember id (record run {
      response = record r { created = suc r.created; task_ids = r.task_ids ++ id ∷ [] };
    })

unfoldable pub count_updated : Text → Run → Run
unfolding remember
count_updated id run =
    let r = run.response in
    remember id (record run {
      response = record r { updated = suc r.updated; task_ids = r.task_ids ++ id ∷ [] };
    })

unfoldable pub count_skipped : Text → Run → Run
count_skipped id run =
    let r = run.response in
    record run { response = record r { skipped = suc r.skipped; task_ids = r.task_ids ++ id ∷ [] } }

unfoldable pub count_error : Message → Run → Run
count_error m run =
    let r = run.response in
    record run { response = record r { errors = suc r.errors; messages = r.messages ++ m ∷ [] } }

-- The record of an id that is stored already, by the mode. A mode that is none of the three does
-- nothing; the request's handler admits only those.
unfoldable pub upsert_existing : Text → Bool → TaskImportRecord → Import Action
unfolding count_skipped count_error count_updated overwrite_task
upsert_existing dedupe dry_run rec =
    if dedupe == codes "skip"
    then (do counted ← modify (count_skipped rec.task.id); pure action_skipped)
    else if dedupe == codes "error"
    then (do counted ← modify (count_error (duplicate_id rec.task.id)); pure action_error)
    else if dedupe == codes "overwrite"
    then (do
      stored ← if dry_run then pure tt else overwrite_task rec
      counted ← modify (count_updated rec.task.id)
      pure action_updated)
    else pure action_none

unfoldable pub upsert_new : Bool → TaskImportRecord → Import Action
unfolding count_created create_task
upsert_new dry_run rec = do
  stored ← if dry_run then pure tt else write (create_task rec.task (labels_or_none rec.labels) [])
  counted ← modify (count_created rec.task.id)
  pure action_created

unfoldable pub upsert_record : Text → Bool → TaskImportRecord → Import Action
unfolding lookup_task upsert_existing upsert_new
upsert_record dedupe dry_run rec = do
  exists ← lookup_task rec.task.id
  if exists then upsert_existing dedupe dry_run rec else upsert_new dry_run rec

-- `applyTaskUpserts`: each record with its action.
unfoldable pub apply_task_upserts :
    Text → Bool → List TaskImportRecord → Import (List (Action × TaskImportRecord))
unfolding upsert_record
apply_task_upserts dedupe dry_run [] = pure []
apply_task_upserts dedupe dry_run (rec ∷ recs) = do
  action ← upsert_record dedupe dry_run rec
  more ← apply_task_upserts dedupe dry_run recs
  pure ((action, rec) ∷ more)
