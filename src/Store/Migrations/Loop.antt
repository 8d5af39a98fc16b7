-- ===== src/Store/Migrations/Loop.antt =====
-- What one pass over the sorted migrations does to the file, however it ends.
use mathlib.Core.List.{append-nil, append_assoc}
use grns.Base.{
  ℕ, ◌≤◌, ◌<◌, ◌≡◌, refl, sym, ◌∙◌, ap, inl, inr, true, List, [], ◌∷◌, ◌++◌, Option, none, some,
  nat_eq, leb, ltb, filter, Bool-cases, arith,
}
use grns.Errors.{Error, Result, ok, err, wrap}
use grns.Errors.Laws.{Result-cases}
use grns.Store.Migrations.{
  Migration, DbFile, max_version, versions_of, record_version, apply_migration, apply_pending,
}
use grns.Store.Migrations.Order.{ascends, versions, max_version-append, contains-above_max}

-- No migration of an ascending list is skipped.
pub filter-ascends :
    (k n : ℕ) (ms : List Migration)
    → k ≤ n
    → ascends n ms ≡ true
    → filter (λ m. ltb k m.version) ms ≡ ms
unfolding ascends
filter-ascends k n [] h a = refl
filter-ascends k n (m ∷ ms) h a = ground (arith, filter-ascends k m.version ms)

module _ {ℓ} {S : Type ℓ} where
  -- The file with the schema that a migration left, and its version recorded.
  abbrev pub applied : DbFile S → ℕ → S → DbFile S
  applied db v s = record { schema = s; recorded = some (versions_of db.recorded ++ v ∷ []) }

  abbrev pub top : DbFile S → ℕ
  top db = max_version (versions_of db.recorded)

  pub record_version-new :
      (v : ℕ) (db : DbFile S) (s : S)
      → top db < v
      → record_version v (record db { schema = s }) ≡ ok (applied db v s)
  unfolding record_version
  record_version-new v db s h = ground (arith, contains-above_max (versions_of db.recorded) v h)

  pub top-applied : (db : DbFile S) (v : ℕ) (s : S) → top db < v → top (applied db v s) ≡ v
  unfolding versions_of
  top-applied db v s h = max_version-append (versions_of db.recorded) v h

  recorded-applied :
      (db : DbFile S) (v : ℕ) (s : S) (vs : List ℕ)
      → versions_of (applied db v s).recorded ++ vs ≡ versions_of db.recorded ++ v ∷ vs
  unfolding versions_of
  recorded-applied db v s vs = append_assoc (versions_of db.recorded) (v ∷ []) vs

  -- The migrations in turn, without the test of their versions.
  unfoldable pub in_turn :
      (Migration → S → Result S) → List Migration → DbFile S → Option Error × DbFile S
  in_turn exec [] db = (none, db)
  in_turn exec (m ∷ ms) db = elim (exec m db.schema) [
    | ok s ↦ in_turn exec ms (applied db m.version s)
    | err e ↦ (some (wrap e), db)
  ]

  module _ (exec : Migration → S → Result S) where
    apply_migration-ok :
        (m : Migration) (db : DbFile S) (s : S)
        → exec m db.schema ≡ ok s
        → top db < m.version
        → apply_migration exec m db ≡ ok (applied db m.version s)
    unfolding apply_migration
    apply_migration-ok m db s e h = rw e (record_version-new m.version db s h)

    apply_migration-err :
        (m : Migration) (db : DbFile S) (e : Error)
        → exec m db.schema ≡ err e
        → apply_migration exec m db ≡ err e
    unfolding apply_migration
    apply_migration-err m db e h = rw h refl

    skip :
        (c : ℕ) (m : Migration) (ms : List Migration) (db : DbFile S)
        → leb m.version c ≡ true
        → apply_pending exec c (m ∷ ms) db ≡ apply_pending exec c ms db
    unfolding apply_pending
    skip c m ms db h = ground (arith, h)

    step-ok :
        (c : ℕ) (m : Migration) (ms : List Migration) (db : DbFile S) (s : S)
        → c < m.version
        → top db < m.version
        → exec m db.schema ≡ ok s
        → apply_pending exec c (m ∷ ms) db ≡ apply_pending exec c ms (applied db m.version s)
    unfolding apply_pending
    step-ok c m ms db s h a e = ground (arith, apply_migration-ok m db s e a)

    step-err :
        (c : ℕ) (m : Migration) (ms : List Migration) (db : DbFile S) (f : Error)
        → c < m.version
        → exec m db.schema ≡ err f
        → apply_pending exec c (m ∷ ms) db ≡ (some (wrap f), db)
    unfolding apply_pending
    step-err c m ms db f h e = ground (arith, apply_migration-err m db f e)

    stop : (c : ℕ) (db : DbFile S) → apply_pending exec c [] db ≡ (none, db)
    unfolding apply_pending
    stop c db = refl

    pub in_turn-ok :
        (m : Migration) (ms : List Migration) (db : DbFile S) (s : S)
        → exec m db.schema ≡ ok s
        → in_turn exec (m ∷ ms) db ≡ in_turn exec ms (applied db m.version s)
    unfolding in_turn
    in_turn-ok m ms db s e = rw (e, in_turn) refl

    pub in_turn-err :
        (m : Migration) (ms : List Migration) (db : DbFile S) (f : Error)
        → exec m db.schema ≡ err f
        → in_turn exec (m ∷ ms) db ≡ (some (wrap f), db)
    unfolding in_turn
    in_turn-err m ms db f e = rw (e, in_turn) refl

    pub in_turn-nil : (db : DbFile S) → in_turn exec [] db ≡ (none, db)
    unfolding in_turn
    in_turn-nil db = refl

    pub apply_pending-in_turn :
        (c : ℕ) (ms : List Migration) (db : DbFile S)
        → c ≤ top db
        → ascends (top db) ms ≡ true
        → apply_pending exec c ms db ≡ in_turn exec ms db
    unfolding ascends
    apply_pending-in_turn c [] db h a = stop c db ∙ sym (in_turn-nil db)
    apply_pending-in_turn c (m ∷ ms) db h a =
        let above : top db < m.version = ground arith in
        elim (Result-cases (exec m db.schema)) [
          | inr (s, e) ↦
              step-ok c m ms db s (omega arith) above e
              ∙ apply_pending-in_turn c ms (applied db m.version s)
                  (omega (arith, top-applied db m.version s above))
                  (rw (top-applied db m.version s above) (ground arith))
              ∙ sym (in_turn-ok m ms db s e)
          | inl (f, e) ↦ step-err c m ms db f (omega arith) e ∙ sym (in_turn-err m ms db f e)
        ]

    -- A pass over all of them is a turn of those above the highest recorded version.
    pub apply_pending-filter :
        (n : ℕ) (ms : List Migration) (db : DbFile S)
        → ascends n ms ≡ true
        → apply_pending exec (top db) ms db
          ≡ in_turn exec (filter (λ m. ltb (top db) m.version) ms) db
    unfolding ascends
    apply_pending-filter n [] db a = stop (top db) db ∙ sym (in_turn-nil db)
    apply_pending-filter n (m ∷ ms) db a = elim (Bool-cases (leb m.version (top db))) [
      | inl e ↦ skip (top db) m ms db e ∙ ground (arith, apply_pending-filter m.version ms db)
      | inr e ↦
          let above : ascends (top db) (m ∷ ms) ≡ true = ground arith in
          apply_pending-in_turn (top db) (m ∷ ms) db (omega arith) above
          ∙ ap (λ (l : List Migration). in_turn exec l db)
              (sym (filter-ascends (top db) (top db) (m ∷ ms) (omega arith) above))
    ]

    -- With no error left, all the versions are recorded, in order.
    pub in_turn-recorded :
        (ms : List Migration) (db next : DbFile S)
        → in_turn exec ms db ≡ (none, next)
        → versions_of next.recorded ≡ versions_of db.recorded ++ versions ms
    in_turn-recorded [] db next h = cc (h, in_turn-nil db, append-nil (versions_of db.recorded))
    in_turn-recorded (m ∷ ms) db next h = elim (Result-cases (exec m db.schema)) [
      | inr (s, e) ↦
          in_turn-recorded ms (applied db m.version s) next (sym (in_turn-ok m ms db s e) ∙ h)
          ∙ recorded-applied db m.version s (versions ms)
      | inl (f, e) ↦ absurd (cc (h, in_turn-err m ms db f e))
    ]

    pub in_turn-top :
        (ms : List Migration) (db next : DbFile S) (o : Option Error)
        → ascends (top db) ms ≡ true
        → in_turn exec ms db ≡ (o, next)
        → top db ≤ top next
    unfolding ascends
    in_turn-top [] db next o a h = let e : db ≡ next = cc (h, in_turn-nil db) in rw e (omega arith)
    in_turn-top (m ∷ ms) db next o a h =
        let above : top db < m.version = ground arith in
        elim (Result-cases (exec m db.schema)) [
          | inr (s, e) ↦
              let higher =
                in_turn-top ms (applied db m.version s) next o
                  (rw (top-applied db m.version s above) (ground arith))
                  (sym (in_turn-ok m ms db s e) ∙ h) in
              omega (arith, higher, top-applied db m.version s above)
          | inl (f, e) ↦ let e : db ≡ next = cc (h, in_turn-err m ms db f e) in rw e (omega arith)
        ]
