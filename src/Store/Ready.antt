-- ===== src/Store/Ready.antt =====
-- Closing the blockers of a task puts the task on the ready queue.
pub mod Scans
pub mod Queue
pub mod Ordered
use grns.Base.{
  some, ◌≡◌, refl, ap, ◌∙◌, sym, subst, Bool, true, false, not, ◌||◌, List, [], ◌∷◌, arith,
  if◌then◌else◌, ◌==◌, all, any, contains, filter, Bool-cases, inl, inr, eq_refl, list_beq,
}
use mathlib.Core.List.{Perm, Mem, Memᴰ}
use mathlib.Core.List.Perm
use grns.Store.Ready.Queue.{ready_rows-perm, ready_rows-scannable}
use grns.Store.Ready.Scans.{listed_row, is_scannable}
use mathlib.Core.Logic.{∥∥₁_map}
use grns.Base.Text.{Text, text_eq, codes}
use grns.Errors.{ok}
use grns.Models.{Time, Task}
use grns.Models.Domain.{status_closed, ready_task_statuses}
use grns.Store.Project.{normalize_project}
use grns.Store.Tables.{Db, TaskRow, DepRow, update_where}
use grns.Store.Tasks.{is_in, close_tasks, closed_row}
use grns.Store.Queries.{blocks, has_open_blocker, is_ready, ready_rows, list_ready_tasks, scan_task}
use grns.Store.Invariant.{IsWellFormed}
use grns.Store.Lifecycle.{update_known, close_tasks_exact}

closed_is_not_ready : contains ready_task_statuses status_closed ≡ false
unfolding contains codes list_beq
closed_is_not_ready = refl

-- After the update a row that it meant is closed.
abbrev closed_if_in : Text → List Text → TaskRow → Bool
closed_if_in project wanted r = not (is_in project wanted r) || (r.status == status_closed)

all-closed :
    (project : Text) (wanted : List Text) (t : Time) (rows : List TaskRow)
    → all (closed_if_in project wanted) (update_where (is_in project wanted) (closed_row t) rows)
      ≡ true
unfolding update_where closed_row
all-closed project wanted t [] = refl
all-closed project wanted t (r ∷ rows) =
    ground (arith, all-closed project wanted t rows, eq_refl status_closed)

closed_blocks_nothing :
    (project : Text) (wanted : List Text) (t p : TaskRow) (d : DepRow)
    → t.project_id ≡ project
    → (not (d.child_id == t.id) || contains wanted d.parent_id) ≡ true
    → closed_if_in project wanted p ≡ true
    → blocks t d p ≡ false
unfolding blocks
closed_blocks_nothing project wanted t p d same covered closed = ground (
  arith,
  text_eq.beq_iff p.id d.parent_id,
  text_eq.beq_iff p.project_id t.project_id,
  text_eq.beq_iff p.project_id project,
  text_eq.beq_iff p.status status_closed,
  closed_is_not_ready,
)

none_of {ℓ} :
    {A : Type ℓ} (p q : A → Bool) (xs : List A)
    → ((a : A) → q a ≡ true → p a ≡ false)
    → all q xs ≡ true
    → any p xs ≡ false
none_of p q [] h k = refl
none_of p q (x ∷ xs) h k = ground (arith, h x, none_of p q xs h)

kept_row :
    (test : TaskRow → Bool) (set : TaskRow → TaskRow) (t : TaskRow) (rows : List TaskRow)
    → test t ≡ false
    → Memᴰ t rows
    → Memᴰ t (update_where test set rows)
unfolding update_where
kept_row test set t [] h m = elim m [ ]
kept_row test set t (r ∷ rows) h (Memᴰ.head e) =
    Memᴰ.head (e ∙ sym (ap (λ b. if b then set r else r) (subst (λ x. test x ≡ false) e h)))
kept_row test set t (r ∷ rows) h (Memᴰ.tail m) = Memᴰ.tail (kept_row test set t rows h m)

found_row :
    (p : TaskRow → Bool) (t : TaskRow) (rows : List TaskRow)
    → p t ≡ true
    → Memᴰ t rows
    → Memᴰ t (filter p rows)
found_row p t [] h m = elim m [ ]
found_row p t (r ∷ rows) h (Memᴰ.head e) = rw (subst (λ x. p x ≡ true) e h) (Memᴰ.head e)
found_row p t (r ∷ rows) h (Memᴰ.tail m) = elim (Bool-cases (p r)) [
  | inl e ↦ rw e (Memᴰ.tail (found_row p t rows h m))
  | inr e ↦ rw e (found_row p t rows h m)
]

-- What `update_known` gives when it succeeds.
update_known-ok :
    (project : Text) (wanted : List Text) (set : TaskRow → TaskRow) (db db' : Db)
    → update_known project wanted set db ≡ ok db'
    → (db'.tasks ≡ update_where (is_in project wanted) set db.tasks) × (db'.deps ≡ db.deps)
update_known-ok project wanted set db db' h = ground arith

unblocked :
    (project : Text) (wanted : List Text) (now : Time) (db : Db) (t : TaskRow)
    → t.project_id ≡ project
    → all (λ d. not (d.child_id == t.id) || contains wanted d.parent_id) db.deps ≡ true
    → any
        (λ d. any (blocks t d) (update_where (is_in project wanted) (closed_row now) db.tasks))
        db.deps
      ≡ false
unblocked project wanted now db t same covered =
    none_of _ (λ d. not (d.child_id == t.id) || contains wanted d.parent_id) db.deps
      (λ d c.
        none_of (blocks t d) (closed_if_in project wanted) _
          (λ p closed. closed_blocks_nothing project wanted t p d same c closed)
          (all-closed project wanted now db.tasks))
      covered

waiting_row :
    (project : Text) (wanted : List Text) (now : Time) (db db' : Db) (t : TaskRow)
    → IsWellFormed db
    → close_tasks project wanted now db ≡ ok db'
    → Mem t db.tasks
    → t.project_id ≡ normalize_project project
    → contains ready_task_statuses t.status ≡ true
    → contains wanted t.id ≡ false
    → all (λ d. not (d.child_id == t.id) || contains wanted d.parent_id) db.deps ≡ true
    → Mem t (ready_rows project 0 db')
unfolding is_ready has_open_blocker
waiting_row project wanted now db db' t w h m same ready not_closed covered =
    let normal = normalize_project project in
    let (tasks, deps) =
      update_known-ok normal wanted (closed_row now) db db'
        (sym (close_tasks_exact project wanted now db w) ∙ h) in
    let free = unblocked normal wanted now db t same covered in
    let is_on : is_ready db' normal t ≡ true =
      rw (tasks, deps)
        (ground (arith, free, eq_refl normal, text_eq.beq_iff t.project_id normal)) in
    (Perm.mem_iff (ready_rows-perm project db')).1 (
      ∥∥₁_map m (λ d.
        found_row (is_ready db' normal) t db'.tasks is_on
          (rw tasks (kept_row (is_in normal wanted) (closed_row now) t db.tasks (ground arith) d))))

pub close_unblocks :
    (project : Text) (wanted : List Text) (now : Time) (db db' : Db) (t : TaskRow)
    → IsWellFormed db
    → close_tasks project wanted now db ≡ ok db'
    → Mem t db.tasks
    → t.project_id ≡ normalize_project project
    → contains ready_task_statuses t.status ≡ true
    → contains wanted t.id ≡ false
    → all (λ d. not (d.child_id == t.id) || contains wanted d.parent_id) db.deps ≡ true
    → all is_scannable db'.tasks ≡ true
    → (tasks : List Task) × (task : Task) × (list_ready_tasks project 0 db' ≡ some tasks)
      × (scan_task t ≡ some task)
      × Mem task tasks
unfolding list_ready_tasks
close_unblocks project wanted now db db' t w h m same ready not_closed covered readable =
    listed_row t (ready_rows project 0 db')
      (waiting_row project wanted now db db' t w h m same ready not_closed covered)
      (ready_rows-scannable project db' readable)
