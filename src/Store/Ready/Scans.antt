-- ===== src/Store/Ready/Scans.antt =====
-- Reading the rows of a query into tasks: when it succeeds, and what it gives.
use grns.Base.{
  ◌≡◌, refl, ap, ◌∙◌, sym, subst, Bool, true, List, [], ◌∷◌, Option, none, some, arith,
  if◌then◌else◌, all, map,
}
use mathlib.Core.List.{Mem, Memᴰ}
use mathlib.Core.Logic.{∥∥₁_map, ∥∥₁_elim}
use mathlib.Core.Option
use grns.Base.Text.{Text, text_eq}
use grns.Models.{Task}
use grns.Store.Tables.{TaskRow, ids}
use grns.Store.Auth.Readable.{is_some}
use grns.Store.Queries.{scan_task, scan_rows}

-- The row can be read.
abbrev pub is_scannable : TaskRow → Bool
is_scannable r = is_some (scan_task r)

abbrev pub listed_ids : Option (List Task) → List Text
listed_ids none = []
listed_ids (some tasks) = map (λ t. t.id) tasks

is_scannable-some : (r : TaskRow) (t : Task) → scan_task r ≡ some t → is_scannable r ≡ true
is_scannable-some r t e = rw e refl

scan_task_id : (r : TaskRow) (t : Task) → scan_task r ≡ some t → t.id ≡ r.id
unfolding scan_task Option.bind
scan_task_id r t h = ground arith

pub scan_rows-some : (rows : List TaskRow) → is_some (scan_rows rows) ≡ all is_scannable rows
unfolding scan_rows Option.bind
scan_rows-some [] = refl
scan_rows-some (r ∷ rows) = ground (arith, scan_rows-some rows)

pub scan_rows-ids :
    (rows : List TaskRow)
    → listed_ids (scan_rows rows) ≡ (if all is_scannable rows then ids rows else [])
unfolding scan_rows Option.bind
scan_rows-ids [] = refl
scan_rows-ids (r ∷ rows) = ground (arith, scan_rows-some rows, scan_rows-ids rows, scan_task_id r)

some_of {ℓ} : {A : Type ℓ} (o : Option A) → is_some o ≡ true → (a : A) × (o ≡ some a)
some_of none h = absurd (cc h)
some_of (some a) h = (a, refl)

all-member {ℓ} :
    {A : Type ℓ} (p : A → Bool) (a : A) (xs : List A) → Memᴰ a xs → all p xs ≡ true → p a ≡ true
all-member p a [] m h = elim m [ ]
all-member p a (x ∷ xs) (Memᴰ.head e) h = ap p e ∙ ground arith
all-member p a (x ∷ xs) (Memᴰ.tail m) h = all-member p a xs m (ground arith)

-- Both reads succeeded if their results were put together.
both_read :
    (o : Option Task) (rest : Option (List Task)) (tasks : List Task)
    → Option.bind o (λ t. Option.bind rest (λ ts. some (t ∷ ts))) ≡ some tasks
    → (a : Task) × (as' : List Task) × (o ≡ some a) × (rest ≡ some as') × (tasks ≡ a ∷ as')
unfolding Option.bind
both_read none rest tasks h = absurd (cc h)
both_read (some a) none tasks h = absurd (cc h)
both_read (some a) (some as') tasks h = (a, as', refl, refl, cc h)

same_some {ℓ} : {A : Type ℓ} {a b : A} → some a ≡ some b → a ≡ b
same_some e = cc

scanned_member :
    (t : TaskRow) (task : Task) (rows : List TaskRow) (tasks : List Task)
    → scan_task t ≡ some task
    → scan_rows rows ≡ some tasks
    → Memᴰ t rows
    → Memᴰ task tasks
unfolding scan_rows Option.bind
scanned_member t task [] tasks e h m = elim m [ ]
scanned_member t task (r ∷ rows) tasks e h m =
    let read = both_read (scan_task r) (scan_rows rows) tasks h in
    subst (Memᴰ task) (sym read.4)
      (member read.0 read.1 read.2 (λ d. scanned_member t task rows read.1 e read.3 d) m)
  where
    member :
        (a : Task) (rest : List Task)
        → scan_task r ≡ some a
        → (Memᴰ t rows → Memᴰ task rest)
        → Memᴰ t (r ∷ rows)
        → Memᴰ task (a ∷ rest)
    member a rest ea again (Memᴰ.head d) = Memᴰ.head (same_some (sym e ∙ ap scan_task d ∙ ea))
    member a rest ea again (Memᴰ.tail d) = Memᴰ.tail (again d)

-- A row among readable ones is scanned into a task of the result.
pub listed_row :
    (t : TaskRow) (rows : List TaskRow)
    → Mem t rows
    → all is_scannable rows ≡ true
    → (tasks : List Task) × (task : Task) × (scan_rows rows ≡ some tasks)
      × (scan_task t ≡ some task)
      × Mem task tasks
listed_row t rows m h =
    let scanned = some_of (scan_rows rows) (scan_rows-some rows ∙ h) in
    let readable : is_scannable t ≡ true =
      ∥∥₁_elim m (hlevel) (λ d. all-member is_scannable t rows d h) in
    let own = some_of (scan_task t) readable in
    (
      scanned.0,
      own.0,
      scanned.1,
      own.1,
      ∥∥₁_map m (λ d. scanned_member t own.0 rows scanned.0 own.1 scanned.1 d),
    )
