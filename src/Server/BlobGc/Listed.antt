-- ===== src/Server/BlobGc/Listed.antt =====
-- The blobs that the sweep is given: rows of the table that no attachment references.
use grns.Base.{
  ℕ, zero, suc, ◌<◌, ◌≡◌, refl, Bool, true, false, not, ◌&&◌, List, [], ◌∷◌, map, ◌==◌, nat_eq,
  is_empty, length, all, filter, contains, arith, take, all_mono, all-filter_and, filter-length-le,
  eq_refl,
}
use grns.Base.Text.{Text, text_eq}
use grns.Store.Blobs.{BlobRow, BlobDb, is_referenced, list_unreferenced_blobs}
use grns.Store.Queries.{order_by, insert_by, limited}

all-insert_by {ℓ} :
    {A : Type ℓ} (p : A → Bool) (before : A → A → Bool) (a : A) (l : List A)
    → p a ≡ true
    → all p l ≡ true
    → all p (insert_by before a l) ≡ true
unfolding insert_by
all-insert_by p before a [] h k = ground arith
all-insert_by p before a (b ∷ l) h k = ground (arith, all-insert_by p before a l)

all-order_by {ℓ} :
    {A : Type ℓ} (p : A → Bool) (before : A → A → Bool) (l : List A)
    → all p l ≡ true
    → all p (order_by before l) ≡ true
unfolding order_by
all-order_by p before [] h = refl
all-order_by p before (a ∷ l) h =
    all-insert_by p before a (order_by before l) (ground arith)
      (all-order_by p before l (ground arith))

all-take {ℓ} :
    {A : Type ℓ} (p : A → Bool) (n : ℕ) (l : List A) → all p l ≡ true → all p (take n l) ≡ true
all-take p zero l h = refl
all-take p (suc n) [] h = refl
all-take p (suc n) (a ∷ l) h = ground (arith, all-take p n l)

all-limited {ℓ} :
    {A : Type ℓ} (p : A → Bool) (n : ℕ) (l : List A) → all p l ≡ true → all p (limited n l) ≡ true
unfolding limited
all-limited p zero l h = h
all-limited p (suc n) l h = all-take p (suc n) l h

is_empty-insert_by {ℓ} :
    {A : Type ℓ} (before : A → A → Bool) (a : A) (l : List A)
    → is_empty (insert_by before a l) ≡ false
unfolding insert_by
is_empty-insert_by before a [] = refl
is_empty-insert_by before a (b ∷ l) = ground arith

nonempty-limited {ℓ} :
    {A : Type ℓ} (n : ℕ) (l : List A) → is_empty l ≡ false → is_empty (limited n l) ≡ false
unfolding limited
nonempty-limited zero l h = h
nonempty-limited (suc n) [] h = h
nonempty-limited (suc n) (a ∷ l) h = refl

-- Nothing is listed only if there is nothing to list.
is_empty-listed {ℓ} :
    {A : Type ℓ} (before : A → A → Bool) (n : ℕ) (l : List A)
    → is_empty (limited n (order_by before l)) ≡ true
    → l ≡ []
unfolding order_by
is_empty-listed before n [] h = refl
is_empty-listed before n (a ∷ l) h = absurd (
    cc (
      h,
      nonempty-limited n (insert_by before a (order_by before l))
          (is_empty-insert_by before a (order_by before l)),
    ))

own_ids : (blobs : List BlobRow) → all (λ b. contains (map (λ k. k.id) blobs) b.id) blobs ≡ true
unfolding contains
own_ids [] = refl
own_ids (b ∷ bs) = rw (eq_refl b.id) (
    all_mono (λ k. contains (map (λ k. k.id) bs) k.id)
      (λ k. contains (map (λ k. k.id) (b ∷ bs)) k.id) bs (λ k h. ground arith) (own_ids bs))

-- A row of the table, free to be deleted.
abbrev pub is_free : BlobDb → BlobRow → Bool
is_free db b = contains (map (λ k. k.id) db.blobs) b.id && not (is_referenced db.attachments b.id)

pub list_unreferenced_blobs-free :
    (limit : ℕ) (db : BlobDb) → all (is_free db) (list_unreferenced_blobs limit db) ≡ true
unfolding list_unreferenced_blobs
list_unreferenced_blobs-free limit db = all-limited (is_free db) limit _ (
    all-order_by (is_free db) _ _ (
      all-filter_and (λ b. contains (map (λ k. k.id) db.blobs) b.id)
        (λ b. not (is_referenced db.attachments b.id)) (is_free db) db.blobs (λ b h k. ground arith)
        (own_ids db.blobs)))

pub list_unreferenced_blobs-none :
    (limit : ℕ) (db : BlobDb)
    → is_empty (list_unreferenced_blobs limit db) ≡ true
    → filter (λ b. not (is_referenced db.attachments b.id)) db.blobs ≡ []
unfolding list_unreferenced_blobs
list_unreferenced_blobs-none limit db h = is_empty-listed _ limit _ h

-- To drop a row of the table makes it shorter.
pub without-shorter :
    (id : Text) (blobs : List BlobRow)
    → contains (map (λ k. k.id) blobs) id ≡ true
    → length (filter (λ b. not (b.id == id)) blobs) < length blobs
unfolding contains
without-shorter id [] h = absurd (cc h)
without-shorter id (b ∷ bs) h =
    ground (arith, without-shorter id bs, filter-length-le (λ b. not (b.id == id)) bs)
