-- ===== src/Store/Ready/Queue.antt =====
-- The ready queue: which tasks are on it, and when it is refused.
use grns.Base.{
  ◌≡◌, refl, ap, ◌∙◌, subst, Bool, true, not, ◌&&◌, ◌||◌, List, [], ◌∷◌, arith, if◌then◌else◌, ◌==◌,
  all, any, contains, filter, all-filter, Bool-cases, inl, inr,
}
use mathlib.Core.List.{Perm}
use mathlib.Core.List.Perm
use grns.Base.Text.{Text, text_eq}
use grns.Models.Domain.{ready_task_statuses, dependency_blocks}
use grns.Store.Project.{normalize_project}
use grns.Store.Tables.{Db, TaskRow, DepRow, ids}
use grns.Store.Auth.Readable.{is_some}
use grns.Store.Ready.Scans.{is_scannable, listed_ids, scan_rows-some, scan_rows-ids}
use grns.Store.Queries.{
  blocks, has_open_blocker, is_ready, ready_rows, list_ready_tasks, scan_rows, order_by, insert_by,
}

insert_by-perm {ℓ} :
    {A : Type ℓ} (before : A → A → Bool) (a : A) (bs : List A)
    → Perm (insert_by before a bs) (a ∷ bs)
unfolding insert_by
insert_by-perm before a [] = Perm.refl (a ∷ [])
insert_by-perm before a (b ∷ bs) = elim (Bool-cases (before b a)) [
  | inl e ↦ rw e (Perm.trans (Perm.cons b (insert_by-perm before a bs)) (Perm.swap a b bs))
  | inr e ↦ rw e (Perm.refl (a ∷ b ∷ bs))
]

order_by-perm {ℓ} :
    {A : Type ℓ} (before : A → A → Bool) (as' : List A) → Perm (order_by before as') as'
unfolding order_by
order_by-perm before [] = Perm.nil
order_by-perm before (a ∷ more) =
    Perm.trans (insert_by-perm before a (order_by before more))
      (Perm.cons a (order_by-perm before more))

-- Without a limit the rows of the query are those that pass its test, in some order.
pub ready_rows-perm :
    (project : Text) (db : Db)
    → Perm (ready_rows project 0 db) (filter (is_ready db (normalize_project project)) db.tasks)
unfolding ready_rows
ready_rows-perm project db = order_by-perm _ _

-- A dependency and a task that do not keep `t` waiting.
abbrev pub is_harmless : TaskRow → DepRow → TaskRow → Bool
is_harmless t d p =
    not (d.child_id == t.id)
    || not (d.parent_id == p.id)
    || not (t.project_id == p.project_id)
    || not (d.kind == dependency_blocks)
    || not (contains ready_task_statuses p.status)

-- A task of the project in a ready status for which every dependency on every task is harmless.
unfoldable pub waits_for_nothing : Db → Text → TaskRow → Bool
waits_for_nothing db project t =
    contains ready_task_statuses t.status
    && (project == t.project_id)
    && all (λ d. all (is_harmless t d) db.tasks) db.deps

text_beq_comm : (s t : Text) → (s == t) ≡ (t == s)
text_beq_comm s t = ground (arith, text_eq.beq_iff s t, text_eq.beq_iff t s)

harmless_blocks : (t : TaskRow) (d : DepRow) (p : TaskRow) → not (blocks t d p) ≡ is_harmless t d p
unfolding blocks
harmless_blocks t d p =
    ground (arith, text_beq_comm p.id d.parent_id, text_beq_comm p.project_id t.project_id)

not-any {ℓ} :
    {A : Type ℓ} (p q : A → Bool) (xs : List A)
    → ((a : A) → not (p a) ≡ q a)
    → not (any p xs) ≡ all q xs
not-any p q [] h = refl
not-any p q (x ∷ xs) h = ground (arith, h x, not-any p q xs h)

is_ready-waits_for_nothing :
    (db : Db) (project : Text) (t : TaskRow)
    → is_ready db project t ≡ waits_for_nothing db project t
unfolding is_ready waits_for_nothing has_open_blocker
is_ready-waits_for_nothing db project t = ground (
  arith,
  text_beq_comm t.project_id project,
  not-any (λ d. any (blocks t d) db.tasks) (λ d. all (is_harmless t d) db.tasks) db.deps
      λ d. not-any (blocks t d) (is_harmless t d) db.tasks (harmless_blocks t d),
)

filter_same {ℓ} :
    {A : Type ℓ} (p q : A → Bool) (xs : List A) → ((a : A) → p a ≡ q a) → filter p xs ≡ filter q xs
filter_same p q [] h = refl
filter_same p q (x ∷ xs) h = ground (arith, h x, filter_same p q xs h)

insert_by-all {ℓ} :
    {A : Type ℓ} (p : A → Bool) (before : A → A → Bool) (a : A) (bs : List A)
    → all p (insert_by before a bs) ≡ (p a && all p bs)
unfolding insert_by
insert_by-all p before a [] = refl
insert_by-all p before a (b ∷ bs) = ground (arith, insert_by-all p before a bs)

order_by-all {ℓ} :
    {A : Type ℓ} (p : A → Bool) (before : A → A → Bool) (as' : List A)
    → all p (order_by before as') ≡ all p as'
unfolding order_by
order_by-all p before [] = refl
order_by-all p before (a ∷ more) =
    insert_by-all p before a (order_by before more)
    ∙ ap (λ b. p a && b) (order_by-all p before more)

ready_rows-all :
    (project : Text) (db : Db)
    → all is_scannable (ready_rows project 0 db)
      ≡ all is_scannable (filter (is_ready db (normalize_project project)) db.tasks)
unfolding ready_rows
ready_rows-all project db =
    order_by-all is_scannable _ (filter (is_ready db (normalize_project project)) db.tasks)

-- The rows of the query can be read if all rows of the table can.
pub ready_rows-scannable :
    (project : Text) (db : Db)
    → all is_scannable db.tasks ≡ true
    → all is_scannable (ready_rows project 0 db) ≡ true
ready_rows-scannable project db h =
    ready_rows-all project db
    ∙ all-filter is_scannable (is_ready db (normalize_project project)) db.tasks h

queue_ids :
    (project : Text) (db : Db)
    → Perm (listed_ids (scan_rows (ready_rows project 0 db))) (
        if all is_scannable (filter (is_ready db (normalize_project project)) db.tasks)
        then ids (filter (is_ready db (normalize_project project)) db.tasks)
        else [])
queue_ids project db =
    let passed = filter (is_ready db (normalize_project project)) db.tasks in
    rw (scan_rows-ids (ready_rows project 0 db), ready_rows-all project db)
      (elim (Bool-cases (all is_scannable passed)) [
        | inl e ↦ rw e (Perm.map (λ r. r.id) (ready_rows-perm project db))
        | inr e ↦ rw e (Perm.refl [])
      ])

pub list_ready_tasks_exact :
    (project : Text) (db : Db)
    → (is_some (list_ready_tasks project 0 db)
        ≡ all is_scannable (filter (waits_for_nothing db (normalize_project project)) db.tasks))
      × Perm (listed_ids (list_ready_tasks project 0 db)) (
          if all is_scannable (filter (waits_for_nothing db (normalize_project project)) db.tasks)
          then ids (filter (waits_for_nothing db (normalize_project project)) db.tasks)
          else [])
unfolding list_ready_tasks
list_ready_tasks_exact project db =
    let normal = normalize_project project in
    let same =
      filter_same (is_ready db normal) (waits_for_nothing db normal) db.tasks
        (is_ready-waits_for_nothing db normal) in
    (
      scan_rows-some (ready_rows project 0 db)
          ∙ ready_rows-all project db
          ∙ ap (all is_scannable) same,
      subst
          (λ rows.
            Perm (listed_ids (scan_rows (ready_rows project 0 db)))
              (if all is_scannable rows then ids rows else []))
          same (queue_ids project db),
    )
