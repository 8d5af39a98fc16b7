-- ===== src/Store/Lifecycle/Reopened.antt =====
-- Reopening: when it succeeds, and what the tasks are afterwards.
use grns.Base.{
  ◌≡◌, refl, ap, sym, ◌∙◌, Bool, true, false, not, ◌&&◌, ◌||◌, List, [], ◌∷◌, Option, none, some,
  arith, ◌==◌, all, filter, eq_refl,
}
use grns.Base.Text.{Text, text_eq}
use grns.Errors.{ok}
use grns.Models.{Time}
use grns.Models.Domain.{status_open}
use grns.Store.Project.{normalize_project}
use grns.Store.Tables.{Db, TaskRow, ids, update_where}
use grns.Store.Tasks.{is_in, reopen_tasks, reopened_row}
use grns.Store.Invariant.{IsWellFormed}
use grns.Store.Lifecycle.{is_known, update_known, set_all_exact}

abbrev pub is_null {ℓ} : {A : Type ℓ} → Option A → Bool
is_null none = true
is_null (some a) = false

-- A row that was asked for is open without a closing time.
abbrev pub is_open_if_in : Text → List Text → TaskRow → Bool
is_open_if_in project wanted r =
    not (is_in project wanted r) || ((r.status == status_open) && is_null r.closed_at)

-- The rows that were not asked for.
abbrev pub untouched : Text → List Text → List TaskRow → List TaskRow
untouched project wanted rows = filter (λ r. not (is_in project wanted r)) rows

reopened_open :
    (project : Text) (wanted : List Text) (t : Time) (rows : List TaskRow)
    → all (is_open_if_in project wanted) (update_where (is_in project wanted) (reopened_row t) rows)
      ≡ true
unfolding update_where reopened_row
reopened_open project wanted t [] = refl
reopened_open project wanted t (r ∷ rows) =
    ground (arith, reopened_open project wanted t rows, eq_refl status_open)

reopened_others :
    (project : Text) (wanted : List Text) (t : Time) (rows : List TaskRow)
    → untouched project wanted (update_where (is_in project wanted) (reopened_row t) rows)
      ≡ untouched project wanted rows
unfolding update_where reopened_row
reopened_others project wanted t [] = refl
reopened_others project wanted t (r ∷ rows) = ground (arith, reopened_others project wanted t rows)

reopened_ids :
    (project : Text) (wanted : List Text) (t : Time) (rows : List TaskRow)
    → ids (update_where (is_in project wanted) (reopened_row t) rows) ≡ ids rows
unfolding update_where reopened_row
reopened_ids project wanted t [] = refl
reopened_ids project wanted t (r ∷ rows) = ground (arith, reopened_ids project wanted t rows)

-- What `update_known` gives when it succeeds.
update_known_parts :
    (project : Text) (wanted : List Text) (set : TaskRow → TaskRow) (db db' : Db)
    → update_known project wanted set db ≡ ok db'
    → (all (is_known project db.tasks) wanted ≡ true)
      × (db'.tasks ≡ update_where (is_in project wanted) set db.tasks)
update_known_parts project wanted set db db' h = (ground arith, ground arith)

pub reopen_tasks-reopens :
    (project : Text) (wanted : List Text) (t : Time) (db db' : Db)
    → IsWellFormed db
    → reopen_tasks project wanted t db ≡ ok db'
    → (all (is_known (normalize_project project) db.tasks) wanted ≡ true)
      × (all (is_open_if_in (normalize_project project) wanted) db'.tasks ≡ true)
      × (untouched (normalize_project project) wanted db'.tasks
          ≡ untouched (normalize_project project) wanted db.tasks)
      × (ids db'.tasks ≡ ids db.tasks)
unfolding reopen_tasks
reopen_tasks-reopens project wanted t db db' w h =
    let normal = normalize_project project in
    let (known, tasks) =
      update_known_parts normal wanted (reopened_row t) db db'
        (sym (set_all_exact project wanted (reopened_row t) db w) ∙ h) in
    (
      known,
      ap (all (is_open_if_in normal wanted)) tasks ∙ reopened_open normal wanted t db.tasks,
      ap (untouched normal wanted) tasks ∙ reopened_others normal wanted t db.tasks,
      ap ids tasks ∙ reopened_ids normal wanted t db.tasks,
    )
