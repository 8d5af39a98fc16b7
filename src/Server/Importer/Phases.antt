-- ===== src/Server/Importer/Phases.antt =====
-- internal/server/importer.go: the dependencies of an import, and the whole import.
use grns.Base.{
  Bool, true, false, not, ◌&&◌, ◌||◌, List, [], ◌∷◌, ◌++◌, Option, none, some, if◌then◌else◌, ◌==◌,
  is_empty, contains,
}
use grns.Base.Text.{Text, text_eq, codes}
use grns.Models.{Time, Dependency}
use grns.Errors.{Result, ok, err}
use grns.Server.TaskMapper.{TaskImportRecord}
use grns.Server.Importer.{
  Action, action_created, action_updated, Message, skipped_orphan, strict_orphan, ImportRequest,
  Run, State, Import, ◌>>=◌, pure, modify, write, lookup_task, count_error, apply_task_upserts,
}
use grns.Server.Importer.Normalize.{normalize_and_validate}
use grns.Store.Tables.{Db}
use grns.Store.Tasks.{remove_dependencies, add_dependency}

unfoldable pub note : Message → Run → Run
note m run =
    let r = run.response in record run { response = record r { messages = r.messages ++ m ∷ [] } }

-- The loop of `resolvedDeps`: the dependencies to write and, under "strict", the orphans.
unfoldable pub sort_deps : Text → Bool → List Dependency → Import (List Dependency × List Text)
unfolding note lookup_task
sort_deps id strict [] s = (ok ([], []), s)
sort_deps id strict (dep ∷ deps) (run, db) =
    (do
      exists ← lookup_task dep.parent_id
      noted ←
          if not (exists || contains run.import_ids dep.parent_id || strict)
          then modify (note (skipped_orphan id dep.parent_id))
          else pure tt
      rest ← sort_deps id strict deps
      pure (
          if exists || contains run.import_ids dep.parent_id
          then (dep ∷ rest.0, rest.1)
          else if strict
          then (rest.0, dep.parent_id ∷ rest.1)
          else rest))
      (run, db)

unfoldable pub report_orphans : Text → List Text → Import (Unit {0})
unfolding count_error
report_orphans id [] = pure tt
report_orphans id (parent ∷ parents) = do
  counted ← modify (count_error (strict_orphan id parent))
  report_orphans id parents

-- `resolvedDeps`: none is a record that is skipped.
unfoldable pub resolved_deps : Text → Text → List Dependency → Import (Option (List Dependency))
unfolding sort_deps report_orphans
resolved_deps orphan_handling id deps =
    if orphan_handling == codes "allow" then pure (some deps) else do
      (kept, orphans) ← sort_deps id (orphan_handling == codes "strict") deps
      reported ← report_orphans id orphans
      pure (if is_empty orphans then some kept else none)

unfoldable pub write_deps : Text → List Dependency → Import (Unit {0})
write_deps id [] = pure tt
write_deps id (dep ∷ deps) = do
  added ← write (add_dependency id dep.parent_id dep.kind)
  write_deps id deps

abbrev pub is_updated : Action → Bool
is_updated action_updated = true
is_updated _ = false

abbrev pub is_written : Action → Bool
is_written action_created = true
is_written action_updated = true
is_written _ = false

unfoldable pub replace_deps : Text → Action → Option (List Dependency) → Import (Unit {0})
unfolding write_deps
replace_deps id action none = pure tt
replace_deps id action (some deps) = do
  removed ← if is_updated action then write (λ db. ok (remove_dependencies id db)) else pure tt
  write_deps id deps

unfoldable pub apply_record_deps :
    Text → Text → Action → Option (List Dependency) → Import (Unit {0})
unfolding resolved_deps replace_deps
apply_record_deps orphan_handling id action none = pure tt
apply_record_deps orphan_handling id action (some deps) =
    if is_written action
    then (do resolved ← resolved_deps orphan_handling id deps; replace_deps id action resolved)
    else pure tt

unfoldable pub apply_dependencies : Text → List (Action × TaskImportRecord) → Import (Unit {0})
unfolding apply_record_deps
apply_dependencies orphan_handling [] = pure tt
apply_dependencies orphan_handling (e ∷ es) = do
  applied ← apply_record_deps orphan_handling e.1.task.id e.0 e.1.deps
  apply_dependencies orphan_handling es

-- Both phases, the second not in a dry run.
unfoldable pub apply_phases :
    ImportRequest → Text → Text → List TaskImportRecord → Import (Unit {0})
unfolding apply_dependencies
apply_phases req dedupe orphan_handling recs = do
  done ← apply_task_upserts dedupe req.dry_run recs
  if req.dry_run then pure tt else apply_dependencies orphan_handling done

abbrev pub roll_back {ℓ} : {A : Type ℓ} → Db → Result A × State → Result A × State
roll_back db (ok a, t) = (ok a, t)
roll_back db (err e, t) = (err e, (t.0, db))

-- `RunInTx`: an error takes the writes back. The run keeps its counters.
unfoldable pub run_in_tx {ℓ} : {A : Type ℓ} → Import A → Import A
run_in_tx m s = roll_back s.1 (m s)

unfoldable pub count_chunk : Run → Run
count_chunk run = record run { response = record (run.response) { applied_chunks = 1 } }

abbrev pub or_default : Text → Text → Text
or_default default value = if is_empty value then default else value

unfoldable pub first_run : ImportRequest → Run
first_run req = record {
  response = record {
    created = 0;
    updated = 0;
    skipped = 0;
    errors = 0;
    dry_run = req.dry_run;
    task_ids = [];
    messages = [];
    atomic_mode = req.atomic;
    applied_chunks = 0;
  };
  import_ids = [];
  cache = [];
}

-- The phases behind the checks, in one transaction if the import is atomic.
unfoldable pub run_phases : ImportRequest → List TaskImportRecord → Import (Unit {0})
unfolding apply_phases run_in_tx
run_phases req recs =
    let phases =
      apply_phases req (or_default (codes "skip") req.dedupe)
        (or_default (codes "allow") req.orphan_handling) recs in
    if req.atomic && not req.dry_run then run_in_tx phases else phases

unfoldable pub finish : Bool → Import (Unit {0})
unfolding count_chunk
finish dry_run = if dry_run then pure tt else modify count_chunk

unfoldable pub import_steps : ImportRequest → Text → Time → Import (Unit {0})
unfolding run_phases finish
import_steps req project now = do
  recs ← normalize_and_validate project now req.tasks
  applied ← run_phases req recs
  finish req.dry_run

-- `Import`: the error or none, the response, and the database behind it.
unfoldable pub import_tasks : ImportRequest → Text → Time → Db → Result (Unit {0}) × State
unfolding import_steps first_run
import_tasks req project now db = import_steps req project now (first_run req, db)
