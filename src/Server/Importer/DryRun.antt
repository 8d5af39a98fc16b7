-- ===== src/Server/Importer/DryRun.antt =====
-- What an import does to the store when it is a dry run.
use grns.Base.{
  ◌≡◌, refl, ◌∙◌, Bool, true, false, not, ◌&&◌, List, [], ◌∷◌, Option, none, some, ◌==◌, if-both,
}
use grns.Base.Text.{Text, text_eq, codes}
use grns.Models.{Time}
use grns.Errors.{Result, ok, err, bad_request}
use grns.Server.TaskMapper.{TaskImportRecord}
use grns.Server.Importer.{
  action_none, action_created, action_updated, action_skipped, action_error, duplicate_id,
  count_created, count_updated, count_skipped, count_error, ImportRequest, Run, State, Import,
  ◌>>=◌, continue, pure, modify, answer, lookup_task, cached, upsert_existing, upsert_new,
  upsert_record, apply_task_upserts,
}
use grns.Server.Importer.Normalize.{
  normalize_and_validate, normalized_step, normalize_import_record, counted,
}
use grns.Server.Importer.Phases.{
  apply_phases, run_in_tx, roll_back, count_chunk, first_run, import_tasks, run_phases, finish,
  import_steps,
}
use grns.Store.Tables.{Db}

-- The step writes nothing.
unfoldable pub KeepsDb {ℓ} : {A : Type ℓ} → Import A → Type 0
KeepsDb m = (s : State) → (m s).1.1 ≡ s.1

pure-KeepsDb {ℓ} : {A : Type ℓ} (a : A) → KeepsDb (pure a)
unfolding KeepsDb
pure-KeepsDb a s = refl

modify-KeepsDb : (f : Run → Run) → KeepsDb (modify f)
unfolding KeepsDb
modify-KeepsDb f (run, db) = refl

continue-keeps {ℓ κ} :
    {A : Type ℓ} {B : Type κ} (f : A → Import B) (db : Db) (r : Result A × State)
    → ((a : A) → KeepsDb (f a))
    → r.1.1 ≡ db
    → (continue f r).1.1 ≡ db
unfolding KeepsDb
continue-keeps f db (ok a, s) h k = h a s ∙ k
continue-keeps f db (err e, s) h k = k

bind-KeepsDb {ℓ κ} :
    {A : Type ℓ} {B : Type κ} (m : Import A) (f : A → Import B)
    → KeepsDb m
    → ((a : A) → KeepsDb (f a))
    → KeepsDb (m >>= f)
unfolding KeepsDb
bind-KeepsDb m f h k s = continue-keeps f s.1 (m s) k (h s)

lookup_task-KeepsDb : (id : Text) → KeepsDb (lookup_task id)
unfolding KeepsDb lookup_task
lookup_task-KeepsDb id (run, db) = remembered (cached id run.cache)
  where
    remembered : (o : Option Bool) → (answer id o (run, db)).1.1 ≡ db
    remembered none = refl
    remembered (some found) = refl

abbrev nothing : Import (Unit {0})
nothing = pure tt

upsert_existing-KeepsDb :
    (dedupe : Text) (rec : TaskImportRecord) → KeepsDb (upsert_existing dedupe true rec)
unfolding upsert_existing
upsert_existing-KeepsDb dedupe rec =
    if-both KeepsDb (dedupe == codes "skip") _ _
      (λ _.
        bind-KeepsDb (modify (count_skipped rec.task.id)) _ (modify-KeepsDb _)
          λ _. pure-KeepsDb action_skipped)
      λ _.
        if-both KeepsDb (dedupe == codes "error") _ _
          (λ _.
            bind-KeepsDb (modify (count_error (duplicate_id rec.task.id))) _ (modify-KeepsDb _)
              λ _. pure-KeepsDb action_error)
          λ _.
            if-both KeepsDb (dedupe == codes "overwrite") _ _
              (λ _. bind-KeepsDb nothing _ (pure-KeepsDb tt) λ _.
                bind-KeepsDb (modify (count_updated rec.task.id)) _ (modify-KeepsDb _)
                  λ _. pure-KeepsDb action_updated)
              λ _. pure-KeepsDb action_none

upsert_new-KeepsDb : (rec : TaskImportRecord) → KeepsDb (upsert_new true rec)
unfolding upsert_new
upsert_new-KeepsDb rec = bind-KeepsDb nothing _ (pure-KeepsDb tt) λ _.
    bind-KeepsDb (modify (count_created rec.task.id)) _ (modify-KeepsDb _)
      λ _. pure-KeepsDb action_created

upsert_record-KeepsDb :
    (dedupe : Text) (rec : TaskImportRecord) → KeepsDb (upsert_record dedupe true rec)
unfolding upsert_record
upsert_record-KeepsDb dedupe rec =
    bind-KeepsDb (lookup_task rec.task.id) _ (lookup_task-KeepsDb rec.task.id) λ exists.
      if-both KeepsDb exists _ _ (λ _. upsert_existing-KeepsDb dedupe rec)
        λ _. upsert_new-KeepsDb rec

apply_task_upserts-KeepsDb :
    (dedupe : Text) (recs : List TaskImportRecord) → KeepsDb (apply_task_upserts dedupe true recs)
unfolding apply_task_upserts
apply_task_upserts-KeepsDb dedupe [] = pure-KeepsDb []
apply_task_upserts-KeepsDb dedupe (rec ∷ recs) =
    bind-KeepsDb (upsert_record dedupe true rec) _ (upsert_record-KeepsDb dedupe rec) λ action.
      bind-KeepsDb (apply_task_upserts dedupe true recs) _ (apply_task_upserts-KeepsDb dedupe recs)
        λ more. pure-KeepsDb ((action, rec) ∷ more)

pub normalize-KeepsDb :
    (project : Text) (now : Time) (raws : List TaskImportRecord)
    → KeepsDb (normalize_and_validate project now raws)
unfolding KeepsDb normalize_and_validate
normalize-KeepsDb project now [] s = refl
normalize-KeepsDb project now (raw ∷ raws) (run, db) =
    checked (normalize_import_record project now raw)
      (λ kept. normalize-KeepsDb project now raws (counted kept run, db))
  where
    step :
        (kept : Option TaskImportRecord) (r : Result (List TaskImportRecord) × State)
        → r.1.1 ≡ db
        → (normalized_step kept r).1.1 ≡ db
    step none r h = h
    step (some rec) (ok recs, s) h = h
    step (some rec) (err e, s) h = h

    checked :
        (o : Result (Option TaskImportRecord))
        → ((kept : Option TaskImportRecord)
            → (normalize_and_validate project now raws (counted kept run, db)).1.1 ≡ db)
        → (elim o as (λ _. Result (List TaskImportRecord) × State) [
          | err e ↦ (err (bad_request e), (run, db))
          | ok kept ↦
              normalized_step kept (normalize_and_validate project now raws (counted kept run, db))
        ]).1.1
          ≡ db
    checked (err e) ih = refl
    checked (ok kept) ih = step kept _ (ih kept)

pub phases-KeepsDb :
    (req : ImportRequest) (dedupe orphan_handling : Text) (recs : List TaskImportRecord)
    → req.dry_run ≡ true
    → KeepsDb (apply_phases req dedupe orphan_handling recs)
unfolding apply_phases
phases-KeepsDb req dedupe orphan_handling recs h = rw (h) (
    bind-KeepsDb (apply_task_upserts dedupe true recs) _ (apply_task_upserts-KeepsDb dedupe recs)
      λ done. pure-KeepsDb tt)

run_in_tx-KeepsDb : {A : Type 0} (m : Import A) → KeepsDb m → KeepsDb (run_in_tx m)
unfolding KeepsDb run_in_tx
run_in_tx-KeepsDb m h s = rolled s.1 (m s) (h s)
  where
    rolled : {A : Type 0} (db : Db) (r : Result A × State) → r.1.1 ≡ db → (roll_back db r).1.1 ≡ db
    rolled db (ok a, t) k = k
    rolled db (err e, t) k = refl

-- The last step of an import.
finish-KeepsDb : (dry_run : Bool) → KeepsDb (finish dry_run)
unfolding finish
finish-KeepsDb true = pure-KeepsDb tt
finish-KeepsDb false = modify-KeepsDb count_chunk

run_phases-KeepsDb :
    (req : ImportRequest) (recs : List TaskImportRecord)
    → req.dry_run ≡ true
    → KeepsDb (run_phases req recs)
unfolding run_phases
run_phases-KeepsDb req recs h =
    if-both (KeepsDb {A = Unit {0}}) (req.atomic && not req.dry_run) _ _
      (λ _. run_in_tx-KeepsDb _ (phases-KeepsDb req _ _ recs h)) λ _. phases-KeepsDb req _ _ recs h

-- A dry run leaves the database as it is, whatever the records, the modes and the outcome.
pub dry_run_writes_nothing :
    (req : ImportRequest) (project : Text) (now : Time) (db : Db)
    → req.dry_run ≡ true
    → (import_tasks req project now db).1.1 ≡ db
unfolding import_tasks import_steps KeepsDb
dry_run_writes_nothing req project now db h =
    bind-KeepsDb (normalize_and_validate project now req.tasks)
      (λ recs. run_phases req recs >>= λ _. finish req.dry_run)
      (normalize-KeepsDb project now req.tasks)
      (λ recs.
        bind-KeepsDb (run_phases req recs) (λ _. finish req.dry_run) (run_phases-KeepsDb req recs h)
          λ _. finish-KeepsDb req.dry_run)
      (first_run req, db)
