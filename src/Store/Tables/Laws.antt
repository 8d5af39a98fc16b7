-- ===== src/Store/Tables/Laws.antt =====
-- The statements on the tables one by one: what they keep of ids, rows and keys.
use grns.Base.{
  ◌≡◌, refl, Bool, true, false, not, List, [], ◌∷◌, ◌++◌, arith, all, contains, append_new,
  distinct, filter, Eq, contains-append, append_new-distinct, all-append_new,
}
use mathlib.Core.List.{map-append}
use grns.Base.Text.{Text, text_eq}
use grns.Store.Tables.{TaskRow, ids, update_where, append_all}

module _ {ℓ} {A : Type ℓ} ⦃e : Eq A⦄ where
  pub append_all-distinct :
      (rows more : List A) → distinct rows ≡ true → distinct (append_all rows more) ≡ true
  unfolding append_all
  append_all-distinct rows [] h = h
  append_all-distinct rows (a ∷ more) h =
      append_all-distinct (append_new rows a) more (append_new-distinct rows a h)

  pub all-append_all :
      (p : A → Bool) (rows more : List A)
      → all p rows ≡ true
      → all p more ≡ true
      → all p (append_all rows more) ≡ true
  unfolding append_all
  all-append_all p rows [] h k = h
  all-append_all p rows (a ∷ more) h k =
      all-append_all p (append_new rows a) more (all-append_new p rows a h (ground arith))
        (ground arith)

module _ (test : TaskRow → Bool) (set : TaskRow → TaskRow) where
  pub ids-update_where :
      (rows : List TaskRow)
      → ((r : TaskRow) → (set r).id ≡ r.id)
      → ids (update_where test set rows) ≡ ids rows
  unfolding update_where
  ids-update_where [] h = refl
  ids-update_where (r ∷ rows) h = ground (arith, h r, ids-update_where rows h)

  pub all-update_where :
      (p : TaskRow → Bool) (rows : List TaskRow)
      → ((r : TaskRow) → p r ≡ true → p (set r) ≡ true)
      → all p rows ≡ true
      → all p (update_where test set rows) ≡ true
  unfolding update_where
  all-update_where p [] h k = refl
  all-update_where p (r ∷ rows) h k = ground (arith, h r, all-update_where p rows h)

pub contains-ids-append :
    (rows more : List TaskRow) (a : Text)
    → contains (ids rows) a ≡ true
    → contains (ids (rows ++ more)) a ≡ true
contains-ids-append rows more a h =
    rw (map-append (λ (r : TaskRow). r.id) rows more)
      (ground (arith, contains-append (ids rows) (ids more) a))

-- An id of the table is among the rows that pass a test or among those that do not.
pub contains-ids-filter-not :
    (test : TaskRow → Bool) (rows : List TaskRow) (a : Text)
    → contains (ids rows) a ≡ true
    → contains (ids (filter test rows)) a ≡ false
    → contains (ids (filter (λ r. not (test r)) rows)) a ≡ true
unfolding contains
contains-ids-filter-not test [] a h k = h
contains-ids-filter-not test (r ∷ rows) a h k = ground (arith, contains-ids-filter-not test rows a)

contains-ids-filter :
    (test : TaskRow → Bool) (rows : List TaskRow) (a : Text)
    → contains (ids (filter test rows)) a ≡ true
    → contains (ids rows) a ≡ true
unfolding contains
contains-ids-filter test [] a h = h
contains-ids-filter test (r ∷ rows) a h = ground (arith, contains-ids-filter test rows a)

pub distinct-ids-filter :
    (test : TaskRow → Bool) (rows : List TaskRow)
    → distinct (ids rows) ≡ true
    → distinct (ids (filter test rows)) ≡ true
unfolding distinct
distinct-ids-filter test [] h = h
distinct-ids-filter test (r ∷ rows) h =
    ground (arith, distinct-ids-filter test rows, contains-ids-filter test rows r.id)
