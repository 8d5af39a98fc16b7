-- ===== src/Server/Importer/Atomic.antt =====
-- An atomic import that fails leaves no trace in the store.
use grns.Base.{◌≡◌, refl, subst, Bool, true, false, not, ◌&&◌, List, if-both, arith}
use grns.Base.Text.{Text, text_eq, codes}
use grns.Models.{Time}
use grns.Errors.{Error, Result, ok, err}
use grns.Server.TaskMapper.{TaskImportRecord}
use grns.Server.Importer.{ImportRequest, State, Import, ◌>>=◌, continue}
use grns.Server.Importer.Normalize.{normalize_and_validate}
use grns.Server.Importer.Phases.{
  apply_phases, run_in_tx, roll_back, first_run, import_tasks, run_phases, finish, import_steps,
  or_default,
}
use grns.Store.Tables.{Db}
use grns.Server.Importer.DryRun.{KeepsDb, normalize-KeepsDb, phases-KeepsDb}

-- An error has left the database as it was.
Undone {ℓ} : {A : Type ℓ} → Db → Result A × State → Type 0
Undone db (ok a, s) = Unit
Undone db (err e, s) = s.1 ≡ db

run_in_tx-Undone : {A : Type 0} (m : Import A) (s : State) → Undone s.1 (run_in_tx m s)
unfolding Undone run_in_tx
run_in_tx-Undone m s = rolled s.1 (m s)
  where
    rolled : {A : Type 0} (db : Db) (r : Result A × State) → Undone db (roll_back db r)
    rolled db (ok a, t) = tt
    rolled db (err e, t) = refl

-- A step that cannot fail, behind one that undoes its writes when it fails.
finish-Undone :
    (dry_run : Bool) (db : Db) (r : Result (Unit {0}) × State)
    → Undone db r
    → Undone db (continue (λ _. finish dry_run) r)
unfolding Undone finish
finish-Undone true db (ok a, s) h = tt
finish-Undone false db (ok a, s) h = tt
finish-Undone dry_run db (err e, s) h = h

phases-Undone :
    (req : ImportRequest) (recs : List TaskImportRecord) (s : State)
    → req.atomic ≡ true
    → Undone s.1 (run_phases req recs s)
unfolding run_phases Undone KeepsDb
phases-Undone req recs s h =
    if-both (λ (m : Import (Unit {0})). Undone s.1 (m s)) (req.atomic && not req.dry_run) _ _
      (λ _. run_in_tx-Undone phases s)
      λ dry. kept-Undone (phases s) (
        phases-KeepsDb req (or_default (codes "skip") req.dedupe)
          (or_default (codes "allow") req.orphan_handling) recs (ground (arith, h, dry)) s)
  where
    phases : Import (Unit {0})
    phases =
        apply_phases req (or_default (codes "skip") req.dedupe)
          (or_default (codes "allow") req.orphan_handling) recs

    kept-Undone : (r : Result (Unit {0}) × State) → r.1.1 ≡ s.1 → Undone s.1 r
    kept-Undone (ok a, t) k = tt
    kept-Undone (err e, t) k = k

continue-Undone :
    {A : Type 0} (f : A → Import (Unit {0})) (db : Db) (r : Result A × State)
    → ((a : A) (s : State) → Undone s.1 (f a s))
    → r.1.1 ≡ db
    → Undone db (continue f r)
unfolding Undone
continue-Undone f db (ok a, s) h k = subst (λ d. Undone d (f a s)) k (h a s)
continue-Undone f db (err e, s) h k = k

Undone-apply :
    (db : Db) (r : Result (Unit {0}) × State) (e : Error) → r.0 ≡ err e → Undone db r → r.1.1 ≡ db
unfolding Undone
Undone-apply db (ok a, s) e h u = cc
Undone-apply db (err f, s) e h u = u

-- An atomic import that reports an error, in whichever phase and at whichever record, has left
-- the database as it was: all of it is written, or nothing.
pub atomic_import_all_or_nothing :
    (req : ImportRequest) (project : Text) (now : Time) (db : Db) (e : Error)
    → req.atomic ≡ true
    → (import_tasks req project now db).0 ≡ err e
    → (import_tasks req project now db).1.1 ≡ db
unfolding import_tasks import_steps KeepsDb
atomic_import_all_or_nothing req project now db e h failed = Undone-apply db _ e failed (
    continue-Undone (λ recs. run_phases req recs >>= λ _. finish req.dry_run) db
      (normalize_and_validate project now req.tasks (first_run req, db))
      (λ recs s. finish-Undone req.dry_run s.1 (run_phases req recs s) (phases-Undone req recs s h))
      (normalize-KeepsDb project now req.tasks (first_run req, db)))
