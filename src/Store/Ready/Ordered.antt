-- ===== src/Store/Ready/Ordered.antt =====
-- The order of the ready and the stale tasks, and their limit.
use grns.Base.{
  ℕ, zero, suc, ◌≡◌, refl, Bool, true, false, not, ◌&&◌, List, [], ◌∷◌, arith, nat_eq, filter, take,
}
use grns.Base.Text.{Text, text_ltb}
use grns.Models.{Time}
use grns.Store.Time.{DbTime, blank, stamp, db_before}
use grns.Store.Project.{normalize_project}
use grns.Store.Tables.{Db, TaskRow}
use grns.Store.Queries.{ready_rows, stale_rows, is_ready, is_stale, order_by, insert_by, limited}

-- No item is followed directly by one that belongs before it.
abbrev pub is_ordered {ℓ} : {A : Type ℓ} → (A → A → Bool) → List A → Bool
is_ordered before [] = true
is_ordered before (a ∷ []) = true
is_ordered before (a ∷ b ∷ more) = not (before b a) && is_ordered before (b ∷ more)

-- Of two items at most one belongs before the other.
abbrev IsAsymmetric {ℓ} : {A : Type ℓ} → (A → A → Bool) → Type ℓ
IsAsymmetric {A = A} before = (a b : A) → before a b ≡ true → before b a ≡ false

insert_by-is_ordered {ℓ} :
    {A : Type ℓ} (before : A → A → Bool) (a : A) (bs : List A)
    → IsAsymmetric before
    → is_ordered before bs ≡ true
    → is_ordered before (insert_by before a bs) ≡ true
unfolding insert_by
insert_by-is_ordered before a [] s h = refl
insert_by-is_ordered before a (b ∷ []) s h = ground (arith, s b a)
insert_by-is_ordered before a (b ∷ c ∷ bs) s h =
    ground (arith, s b a, insert_by-is_ordered before a (c ∷ bs) s)

order_by-is_ordered {ℓ} :
    {A : Type ℓ} (before : A → A → Bool) (as' : List A)
    → IsAsymmetric before
    → is_ordered before (order_by before as') ≡ true
unfolding order_by
order_by-is_ordered before [] s = refl
order_by-is_ordered before (a ∷ more) s =
    insert_by-is_ordered before a (order_by before more) s (order_by-is_ordered before more s)

take-is_ordered {ℓ} :
    {A : Type ℓ} (before : A → A → Bool) (n : ℕ) (xs : List A)
    → is_ordered before xs ≡ true
    → is_ordered before (take n xs) ≡ true
take-is_ordered before zero xs h = refl
take-is_ordered before (suc n) [] h = refl
take-is_ordered before (suc zero) (x ∷ xs) h = refl
take-is_ordered before (suc (suc n)) (x ∷ []) h = refl
take-is_ordered before (suc (suc n)) (x ∷ y ∷ xs) h =
    ground (arith, take-is_ordered before (suc n) (y ∷ xs))

text_ltb_asym : (s t : Text) → text_ltb s t ≡ true → text_ltb t s ≡ false
unfolding text_ltb
text_ltb_asym [] [] h = refl
text_ltb_asym [] (d ∷ t) h = refl
text_ltb_asym (c ∷ s) [] h = cc
text_ltb_asym (c ∷ s) (d ∷ t) h = ground (arith, text_ltb_asym s t)

db_before_asym : (a b : DbTime) → db_before a b ≡ true → db_before b a ≡ false
unfolding db_before
db_before_asym blank blank h = refl
db_before_asym blank (stamp y m d c f) h = refl
db_before_asym (stamp y m d c f) blank h = cc
db_before_asym (stamp y m d c f) (stamp y' m' d' c' f') h = ground (arith, text_ltb_asym f f')

limited-is_ordered {ℓ} :
    {A : Type ℓ} (before : A → A → Bool) (limit : ℕ) (xs : List A)
    → IsAsymmetric before
    → is_ordered before (limited limit (order_by before xs)) ≡ true
unfolding limited
limited-is_ordered before zero xs s = order_by-is_ordered before xs s
limited-is_ordered before (suc n) xs s =
    take-is_ordered before (suc n) (order_by before xs) (order_by-is_ordered before xs s)

-- By the texts of the times at which they were updated.
abbrev pub newer : TaskRow → TaskRow → Bool
newer a b = db_before b.updated_at a.updated_at

abbrev pub older : TaskRow → TaskRow → Bool
older a b = db_before a.updated_at b.updated_at

pub rows-is_ordered :
    (project : Text) (cutoff : Time) (statuses : List Text) (limit : ℕ) (db : Db)
    → (is_ordered newer (ready_rows project limit db) ≡ true)
      × (is_ordered older (stale_rows project cutoff statuses limit db) ≡ true)
unfolding ready_rows stale_rows
rows-is_ordered project cutoff statuses limit db = (
  limited-is_ordered newer limit (filter (is_ready db (normalize_project project)) db.tasks)
      (λ a b. db_before_asym b.updated_at a.updated_at),
  limited-is_ordered older limit
      (filter (is_stale (normalize_project project) cutoff statuses) db.tasks)
      (λ a b. db_before_asym a.updated_at b.updated_at),
)
