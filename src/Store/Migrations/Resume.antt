-- ===== src/Store/Migrations/Resume.antt =====
-- A pass that stopped is taken up again, and the file that a run starts its pass from.
use grns.Base.{
  ℕ, ◌≤◌, ◌<◌, ◌≡◌, refl, sym, subst, ◌∙◌, ap, inl, inr, Bool, true, false, not, List, [], ◌∷◌,
  ◌++◌, Option, none, some, nat_eq, ltb, contains, filter, if◌then◌else◌, is_empty, append_new,
  arith,
}
use grns.Errors.{Error, Result, ok}
use grns.Errors.Laws.{Result-cases}
use grns.Store.Migrations.{
  Migration, DbFile, versions_of, detect_pre_migration, prepare_file, ensure_migrations_table,
  stamp_version_1, no_version_recorded,
}
use grns.Store.Migrations.Order.{ascends}
use grns.Store.Migrations.Loop.{
  applied, top, top-applied, in_turn, in_turn-nil, in_turn-ok, in_turn-err, in_turn-top,
  filter-ascends,
}

-- What is recorded when the loop starts.
unfoldable pub ready_versions : Bool → Option (List ℕ) → List ℕ
ready_versions tasks recorded =
    if (if not tasks then false else no_version_recorded recorded)
    then append_new (versions_of recorded) 1
    else versions_of recorded

ready_versions-nonempty :
    (recorded : Option (List ℕ)) → is_empty (ready_versions true recorded) ≡ false
unfolding ready_versions no_version_recorded versions_of append_new contains
ready_versions-nonempty none = refl
ready_versions-nonempty (some []) = refl
ready_versions-nonempty (some (v ∷ vs)) = refl

ready_versions-settled :
    (tasks : Bool) (vs : List ℕ)
    → (tasks ≡ true → is_empty vs ≡ false)
    → ready_versions tasks (some vs) ≡ vs
unfolding ready_versions no_version_recorded versions_of
ready_versions-settled true vs h = rw (h refl) refl
ready_versions-settled false vs h = refl

append_one-nonempty : (vs : List ℕ) (v : ℕ) → is_empty (vs ++ v ∷ []) ≡ false
append_one-nonempty [] v = refl
append_one-nonempty (w ∷ vs) v = refl

abbrev pub as_file {ℓ} : {S : Type ℓ} → S → Option (List ℕ) → DbFile S
as_file s o = record { schema = s; recorded = o }

if-as_file {ℓ} :
    {S : Type ℓ} (s : S) (b : Bool) (x y : List ℕ)
    → (if b then as_file s (some x) else as_file s (some y)) ≡ as_file s (some (if b then x else y))
if-as_file s true x y = refl
if-as_file s false x y = refl

module _ {ℓ} {S : Type ℓ} where
  -- What one way of running the SQL does, the other does as well.
  abbrev pub Refines : (Migration → S → Result S) → (Migration → S → Result S) → Type ℓ
  Refines exec exec' = (m : Migration) (s t : S) → exec m s ≡ ok t → exec' m s ≡ ok t

  abbrev pub above : DbFile S → List Migration → List Migration
  above db ms = filter (λ m. ltb (top db) m.version) ms

  skip-applied :
      (db : DbFile S) (m : Migration) (ms : List Migration)
      → m.version ≤ top db
      → above db (m ∷ ms) ≡ above db ms
  skip-applied db m ms h = ground arith

  -- A turn stopped anywhere, taken up again above the highest recorded version.
  pub in_turn-resume :
      (exec exec' : Migration → S → Result S) (ms : List Migration) (db next : DbFile S)
      (o : Option Error)
      → Refines exec exec'
      → ascends (top db) ms ≡ true
      → in_turn exec ms db ≡ (o, next)
      → in_turn exec' (above next ms) next ≡ in_turn exec' ms db
  unfolding ascends
  in_turn-resume exec exec' [] db next o r a h =
      let e : db ≡ next = cc (h, in_turn-nil exec db) in rw e refl
  in_turn-resume exec exec' (m ∷ ms) db next o r a h =
      let late : top db < m.version = ground arith in
      elim (Result-cases (exec m db.schema)) [
        | inr (s, e) ↦
            let there = applied db m.version s in
            let reached = top-applied db m.version s late in
            let rest : ascends (top there) ms ≡ true = rw reached (ground arith) in
            let h' = sym (in_turn-ok exec m ms db s e) ∙ h in
            let higher = in_turn-top exec ms there next o rest h' in
            ap (λ (l : List Migration). in_turn exec' l next)
              (skip-applied next m ms (omega (arith, reached, higher)))
            ∙ in_turn-resume exec exec' ms there next o r rest h'
            ∙ sym (in_turn-ok exec' m ms db s (r m db.schema s e))
        | inl (f, e) ↦
            let same : db ≡ next = cc (h, in_turn-err exec m ms db f e) in
            subst (λ (k : DbFile S). in_turn exec' (above k (m ∷ ms)) k ≡ in_turn exec' (m ∷ ms) db)
              same
              (ap (λ (l : List Migration). in_turn exec' l db)
                (filter-ascends (top db) (top db) (m ∷ ms) (omega arith) a))
      ]

  pub prepare_file-eq :
      (has_tasks : S → Bool) (db : DbFile S)
      → prepare_file has_tasks db
        ≡ as_file db.schema (some (ready_versions (has_tasks db.schema) db.recorded))
  unfolding prepare_file ready_versions stamp_version_1 ensure_migrations_table detect_pre_migration
  prepare_file-eq has_tasks db =
      if-as_file db.schema
        (if not (has_tasks db.schema) then false else no_version_recorded db.recorded) _ _

  module _ (has_tasks : S → Bool) where
    -- The table of versions is there, and is not empty beside a table of tasks.
    abbrev pub IsSettled : DbFile S → Type 0
    IsSettled db =
        (vs : List ℕ) × (db.recorded ≡ some vs) × (has_tasks db.schema ≡ true → is_empty vs ≡ false)

    pub prepare_file-IsSettled : (db : DbFile S) → IsSettled (prepare_file has_tasks db)
    prepare_file-IsSettled db = rw (prepare_file-eq has_tasks db) (
      ready_versions (has_tasks db.schema) db.recorded,
      refl,
      λ h. rw h (ready_versions-nonempty db.recorded),
    )

    pub prepare_file-settled : (db : DbFile S) → IsSettled db → prepare_file has_tasks db ≡ db
    prepare_file-settled db (vs, r, h) =
        prepare_file-eq has_tasks db
        ∙ ap (λ (o : Option (List ℕ)). as_file db.schema o)
            (rw r (ap some (ready_versions-settled (has_tasks db.schema) vs h)) ∙ sym r)

    applied-IsSettled : (db : DbFile S) (v : ℕ) (s : S) → IsSettled (applied db v s)
    applied-IsSettled db v s = (
      versions_of db.recorded ++ v ∷ [],
      refl,
      λ _. append_one-nonempty (versions_of db.recorded) v,
    )

    pub in_turn-IsSettled :
        (exec : Migration → S → Result S) (ms : List Migration) (db next : DbFile S)
        (o : Option Error)
        → IsSettled db
        → in_turn exec ms db ≡ (o, next)
        → IsSettled next
    in_turn-IsSettled exec [] db next o d h = subst IsSettled (cc (h, in_turn-nil exec db)) d
    in_turn-IsSettled exec (m ∷ ms) db next o d h = elim (Result-cases (exec m db.schema)) [
      | inr (s, e) ↦
          in_turn-IsSettled exec ms (applied db m.version s) next o
            (applied-IsSettled db m.version s) (sym (in_turn-ok exec m ms db s e) ∙ h)
      | inl (f, e) ↦ subst IsSettled (cc (h, in_turn-err exec m ms db f e)) d
    ]
