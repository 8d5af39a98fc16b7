-- ===== src/Store/Migrations/Plan.antt =====
-- What the plan of the migrations says of the run that follows it.
use grns.Base.{
  ℕ, ◌≡◌, refl, sym, ◌∙◌, ap, Bool, true, false, not, List, [], ◌∷◌, ◌++◌, Option, none, some, map,
  nat_eq, leb, ltb, contains, filter, if◌then◌else◌, append_new,
}
use grns.Errors.{Result, ok, err}
use grns.Store.Migrations.{
  Migration, MigrationInfo, MigrationStatus, DbFile, max_version, versions_of, detect_pre_migration,
  prepare_file, ensure_migrations_table, current_version, sort_by_version, run_migrations,
  migration_plan, no_version_recorded, max_recorded, to_info,
}
use grns.Store.Migrations.Order.{versions, IsNumbered}
use grns.Store.Migrations.Loop.{top, in_turn, in_turn-recorded}
use grns.Store.Migrations.Resume.{above, ready_versions, as_file, prepare_file-eq}
use grns.Store.Migrations.Runs.{run-in_turn}

-- What the plan takes for the current version, and what the run finds recorded.
unfoldable pub starts_with : Bool → Option (List ℕ) → List ℕ
starts_with pre recorded = if pre then 1 ∷ [] else versions_of recorded

effective : Bool → ℕ → ℕ
effective pre current = if pre then (if leb current 0 then 1 else current) else current

abbrev is_pre : Bool → Option (List ℕ) → Bool
is_pre tasks recorded = if not tasks then false else no_version_recorded recorded

ready_versions-starts_with :
    (tasks : Bool) (recorded : Option (List ℕ))
    → ready_versions tasks recorded ≡ starts_with (is_pre tasks recorded) recorded
unfolding ready_versions starts_with no_version_recorded versions_of append_new contains
ready_versions-starts_with false recorded = refl
ready_versions-starts_with true none = refl
ready_versions-starts_with true (some []) = refl
ready_versions-starts_with true (some (v ∷ vs)) = refl

effective-ready :
    (tasks : Bool) (recorded : Option (List ℕ))
    → effective (is_pre tasks recorded) (max_version (versions_of recorded))
      ≡ max_version (ready_versions tasks recorded)
unfolding ready_versions effective no_version_recorded versions_of append_new contains max_version
effective-ready false recorded = refl
effective-ready true none = refl
effective-ready true (some []) = refl
effective-ready true (some (v ∷ vs)) = refl

ready_versions-ensured :
    (tasks : Bool) (recorded : Option (List ℕ))
    → ready_versions tasks (some (versions_of recorded)) ≡ ready_versions tasks recorded
unfolding ready_versions no_version_recorded versions_of
ready_versions-ensured false none = refl
ready_versions-ensured true none = refl
ready_versions-ensured tasks (some vs) = refl

abbrev pending_of : Result MigrationStatus → List MigrationInfo
pending_of (ok plan) = plan.pending
pending_of (err e) = []

map-to_info : (l : List Migration) → map (λ i. i.version) (map to_info l) ≡ versions l
map-to_info [] = refl
map-to_info (m ∷ l) = cc (map-to_info l)

module _ {ℓ} {S : Type ℓ} (has_tasks : S → Bool) (ms : List Migration) (n : IsNumbered ms) where
  -- Asking for the plan first changes nothing of what a run does.
  pub run_migrations-migration_plan :
      (exec : Migration → S → Result S) (db : DbFile S)
      → run_migrations has_tasks exec ms (migration_plan has_tasks ms db).1
        ≡ run_migrations has_tasks exec ms db
  unfolding run_migrations migration_plan ensure_migrations_table
  run_migrations-migration_plan exec db =
      run-in_turn has_tasks ms n exec (ensure_migrations_table db)
      ∙ ap (λ (k : DbFile S). in_turn exec (above k (sort_by_version ms)) k) same
      ∙ sym (run-in_turn has_tasks ms n exec db)
    where
      same : prepare_file has_tasks (ensure_migrations_table db) ≡ prepare_file has_tasks db
      same =
          prepare_file-eq has_tasks (ensure_migrations_table db)
          ∙ ap (λ (vs : List ℕ). as_file db.schema (some vs))
              (ready_versions-ensured (has_tasks db.schema) db.recorded)
          ∙ sym (prepare_file-eq has_tasks db)

  top-ready :
      (db : DbFile S)
      → effective (detect_pre_migration has_tasks db) (max_version (versions_of db.recorded))
        ≡ top (prepare_file has_tasks db)
  unfolding detect_pre_migration versions_of
  top-ready db =
      effective-ready (has_tasks db.schema) db.recorded
      ∙ sym (ap (λ (k : DbFile S). top k) (prepare_file-eq has_tasks db))

  versions_of-ready :
      (db : DbFile S)
      → versions_of (prepare_file has_tasks db).recorded
        ≡ starts_with (detect_pre_migration has_tasks db) db.recorded
  unfolding detect_pre_migration versions_of
  versions_of-ready db =
      ap (λ (k : DbFile S). versions_of k.recorded) (prepare_file-eq has_tasks db)
      ∙ ready_versions-starts_with (has_tasks db.schema) db.recorded

  migration_plan-pending :
      (db : DbFile S) (plan : MigrationStatus)
      → (migration_plan has_tasks ms db).0 ≡ ok plan
      → plan.pending
        ≡ map to_info (
            filter
              (λ m.
                ltb
                  (effective
                    (detect_pre_migration has_tasks db)
                    (max_version (versions_of db.recorded)))
                  m.version)
              (sort_by_version ms))
  unfolding migration_plan ensure_migrations_table current_version max_recorded effective
      versions_of
  migration_plan-pending db plan p = ap (λ (r : Result MigrationStatus). pending_of r) (sym p)

  -- A run that succeeds records, after version 1 if the file is from before the migrations and
  -- after what was recorded otherwise, exactly the pending versions of the plan, in their order.
  pub migration_plan_predicts :
      (exec : Migration → S → Result S) (db next : DbFile S) (plan : MigrationStatus)
      → (migration_plan has_tasks ms db).0 ≡ ok plan
      → run_migrations has_tasks exec ms db ≡ (none, next)
      → versions_of next.recorded
        ≡ starts_with (detect_pre_migration has_tasks db) db.recorded
          ++ map (λ i. i.version) plan.pending
  migration_plan_predicts exec db next plan p h =
      in_turn-recorded exec (above (prepare_file has_tasks db) (sort_by_version ms))
        (prepare_file has_tasks db) next (sym (run-in_turn has_tasks ms n exec db) ∙ h)
      ∙ ap
          (λ (vs : List ℕ). vs ++ versions (above (prepare_file has_tasks db) (sort_by_version ms)))
          (versions_of-ready db)
      ∙ ap (λ (vs : List ℕ). starts_with (detect_pre_migration has_tasks db) db.recorded ++ vs)
          (sym (planned-versions))
    where
      planned-versions :
          map (λ i. i.version) plan.pending
          ≡ versions (above (prepare_file has_tasks db) (sort_by_version ms))
      planned-versions =
          ap (map (λ i. i.version)) (migration_plan-pending db plan p)
          ∙ map-to_info _
          ∙ ap (λ (k : ℕ). versions (filter (λ m. ltb k m.version) (sort_by_version ms)))
              (top-ready db)
