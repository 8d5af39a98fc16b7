-- ===== src/Store/Migrations/Runs.antt =====
-- Whole runs of the migrations: resumed after a failure, and on a file older than the migrations.
use grns.Base.{
  ℕ, ◌≤◌, ◌≡◌, refl, sym, ◌∙◌, ap, Bool, true, false, List, [], ◌∷◌, Option, none, some, nat_eq,
  ltb, contains, filter, append_new, arith,
}
use grns.Errors.{Error, Result, ok}
use grns.Store.Migrations.{
  Migration, DbFile, max_version, versions_of, prepare_file, current_version, sort_by_version,
  apply_pending, run_migrations, no_version_recorded, max_recorded,
}
use grns.Store.Migrations.Order.{ascends, IsNumbered, sort_by_version-ascends}
use grns.Store.Migrations.Loop.{
  top, in_turn, in_turn-ok, in_turn-top, apply_pending-filter, filter-ascends,
}
use grns.Store.Migrations.Resume.{
  Refines, above, in_turn-resume, ready_versions, as_file, prepare_file-eq, IsSettled,
  prepare_file-IsSettled, prepare_file-settled, in_turn-IsSettled,
}

filter-rises :
    (k n : ℕ) (ms : List Migration)
    → ascends n ms ≡ true
    → ascends k (filter (λ m. ltb k m.version) ms) ≡ true
unfolding ascends
filter-rises k n [] a = refl
filter-rises k n (m ∷ ms) a =
    ground (arith, filter-rises k m.version ms, filter-ascends k m.version ms)

filter-filter :
    (j k : ℕ) (ms : List Migration)
    → j ≤ k
    → filter (λ m. ltb k m.version) (filter (λ m. ltb j m.version) ms)
      ≡ filter (λ m. ltb k m.version) ms
filter-filter j k [] h = refl
filter-filter j k (m ∷ ms) h = ground (arith, filter-filter j k ms)

current_version-settled {ℓ} :
    {S : Type ℓ} (has_tasks : S → Bool) (db : DbFile S)
    → IsSettled has_tasks db
    → current_version db ≡ ok (top db)
unfolding current_version max_recorded versions_of
current_version-settled has_tasks db (vs, r, h) = rw r refl

module _ {ℓ} {S : Type ℓ} (exec : Migration → S → Result S) where
  old_file :
      (first : Migration) (rest : List Migration) (made : S)
      → first.version ≡ 1
      → ascends 0 (first ∷ rest) ≡ true
      → in_turn exec
          (above (as_file made (some (ready_versions true none))) (first ∷ rest))
          (as_file made (some (ready_versions true none)))
        ≡ in_turn exec rest (as_file made (some (1 ∷ [])))
  unfolding ready_versions ascends max_version versions_of no_version_recorded append_new contains
  old_file first rest made one a =
      let later : ascends 1 rest ≡ true = rw (← one) (ground arith) in
      ap (λ (l : List Migration). in_turn exec l (as_file made (some (1 ∷ []))))
        (rw one (filter-ascends 1 1 rest (omega arith) later))

  new_file :
      (first : Migration) (rest : List Migration) (empty made : S)
      → first.version ≡ 1
      → ascends 0 (first ∷ rest) ≡ true
      → exec first empty ≡ ok made
      → in_turn exec
          (above (as_file empty (some (ready_versions false none))) (first ∷ rest))
          (as_file empty (some (ready_versions false none)))
        ≡ in_turn exec rest (as_file made (some (1 ∷ [])))
  unfolding ready_versions max_version versions_of
  new_file first rest empty made one a makes =
      ap (λ (l : List Migration). in_turn exec l (as_file empty (some [])))
        (filter-ascends 0 0 (first ∷ rest) (omega arith) a)
      ∙ in_turn-ok exec first rest (as_file empty (some [])) made makes
      ∙ ap (λ (v : ℕ). in_turn exec rest (as_file made (some (v ∷ [])))) one

module _ {ℓ} {S : Type ℓ} (has_tasks : S → Bool) (ms : List Migration) (n : IsNumbered ms) where
  abbrev pub ready : DbFile S → DbFile S
  ready = prepare_file has_tasks

  run_with_current :
      (exec : Migration → S → Result S) (db : DbFile S) (c : ℕ)
      → current_version (ready db) ≡ ok c
      → run_migrations has_tasks exec ms db ≡ apply_pending exec c (sort_by_version ms) (ready db)
  unfolding run_migrations
  run_with_current exec db c h = rw (h, run_migrations) refl

  pub run-in_turn :
      (exec : Migration → S → Result S) (db : DbFile S)
      → run_migrations has_tasks exec ms db
        ≡ in_turn exec (above (ready db) (sort_by_version ms)) (ready db)
  run-in_turn exec db =
      run_with_current exec db (top (ready db))
        (current_version-settled has_tasks (ready db) (prepare_file-IsSettled has_tasks db))
      ∙ apply_pending-filter exec 0 (sort_by_version ms) (ready db) (sort_by_version-ascends ms n)

  -- A run, whether it failed or not, and then another with an `exec'` that does at least what the
  -- first one's did, leave the file and the outcome that the second alone gives.
  pub run_migrations_resume :
      (exec exec' : Migration → S → Result S) (db : DbFile S)
      → Refines exec exec'
      → run_migrations has_tasks exec' ms (run_migrations has_tasks exec ms db).1
        ≡ run_migrations has_tasks exec' ms db
  run_migrations_resume exec exec' db r =
      let start = ready db in
      let late = above start (sort_by_version ms) in
      let result = in_turn exec late start in
      let next = result.1 in
      let rises = filter-rises (top start) 0 (sort_by_version ms) (sort_by_version-ascends ms n) in
      ap (λ (o : Option Error × DbFile S). run_migrations has_tasks exec' ms o.1)
        (run-in_turn exec db)
      ∙ run-in_turn exec' next
      ∙ ap (λ (k : DbFile S). in_turn exec' (above k (sort_by_version ms)) k)
          (prepare_file-settled has_tasks next (
            in_turn-IsSettled has_tasks exec late start next result.0
              (prepare_file-IsSettled has_tasks db) refl))
      ∙ ap (λ (l : List Migration). in_turn exec' l next)
          (sym (
            filter-filter (top start) (top next) (sort_by_version ms)
              (in_turn-top exec late start next result.0 rises refl)))
      ∙ in_turn-resume exec exec' late start next result.0 r rises refl
      ∙ sym (run-in_turn exec' db)

  run-from :
      (exec : Migration → S → Result S) (s : S) (tasks : Bool) (l : List Migration)
      → has_tasks s ≡ tasks
      → sort_by_version ms ≡ l
      → run_migrations has_tasks exec ms (as_file s none)
        ≡ in_turn exec
            (above (as_file s (some (ready_versions tasks none))) l)
            (as_file s (some (ready_versions tasks none)))
  run-from exec s tasks l t sorted =
      run-in_turn exec (as_file s none)
      ∙ ap (λ (k : DbFile S). in_turn exec (above k (sort_by_version ms)) k)
          (prepare_file-eq has_tasks (as_file s none))
      ∙ rw t (rw sorted refl)

  -- A file that has the tables of migration 1 but no record of it ends as a new file does on which
  -- migration 1 has just made those tables: the same outcome, schema and recorded versions.
  pub run_migrations-stamped :
      (exec : Migration → S → Result S) (first : Migration) (rest : List Migration) (empty made : S)
      → sort_by_version ms ≡ first ∷ rest
      → first.version ≡ 1
      → has_tasks empty ≡ false
      → has_tasks made ≡ true
      → exec first empty ≡ ok made
      → run_migrations has_tasks exec ms (as_file made none)
        ≡ run_migrations has_tasks exec ms (as_file empty none)
  run_migrations-stamped exec first rest empty made sorted one fresh old makes =
      let rises : ascends 0 (first ∷ rest) ≡ true = rw (← sorted) (sort_by_version-ascends ms n) in
      run-from exec made true (first ∷ rest) old sorted
      ∙ old_file exec first rest made one rises
      ∙ sym (
          run-from exec empty false (first ∷ rest) fresh sorted
          ∙ new_file exec first rest empty made one rises makes)
