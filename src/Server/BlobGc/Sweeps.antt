-- ===== src/Server/BlobGc/Sweeps.antt =====
-- What a round of the sweep can do to the rows: drop blobs that no attachment references.
use grns.Base.{
  ℕ, suc, ◌≤◌, ◌≡◌, refl, sym, ap, ◌∙◌, subst, ◌⊎◌, inl, inr, Bool, false, not, List, [], ◌∷◌, ◌==◌,
  nat_eq, length, filter, arith, Bool-cases, filter-length-le,
}
use grns.Base.Text.{Text, text_eq}
use grns.Errors.{Result}
use grns.Errors.Laws.{Result-cases}
use grns.Store.Blobs.{BlobRow, BlobDb, is_referenced, delete_blob}
use grns.Server.BlobGc.{Gc, gc_step, delete_row, sweep}

abbrev pub without : Text → BlobDb → BlobDb
without id db = record db { blobs = filter (λ b. not (b.id == id)) db.blobs }

-- The rows that are left after any number of unreferenced blobs were dropped.
pub data Collects (db : BlobDb) : BlobDb → Type 0 where
  same : Collects db db
  drop :
      {mid : BlobDb} (id : Text)
      → Collects db mid
      → is_referenced mid.attachments id ≡ false
      → Collects db (without id mid)

pub Collects-trans : {a b c : BlobDb} → Collects a b → Collects b c → Collects a c
Collects-trans ab same = ab
Collects-trans ab (drop id bc u) = drop id (Collects-trans ab bc) u

pub Collects-attachments : {a b : BlobDb} → Collects a b → b.attachments ≡ a.attachments
Collects-attachments same = refl
Collects-attachments (drop id c u) = Collects-attachments c

pub Collects-length : {a b : BlobDb} → Collects a b → length b.blobs ≤ length a.blobs
Collects-length same = omega arith
Collects-length (drop {mid} id c u) =
    omega (arith, Collects-length c, filter-length-le (λ b. not (b.id == id)) mid.blobs)

filter-kept :
    (p : Text → Bool) (id : Text) (blobs : List BlobRow)
    → p id ≡ false
    → filter (λ b. p b.id) (filter (λ b. not (b.id == id)) blobs) ≡ filter (λ b. p b.id) blobs
filter-kept p id [] h = refl
filter-kept p id (b ∷ bs) h = elim (Bool-cases (b.id == id)) [
  | inl e ↦
      let gone : p b.id ≡ false = ap p ((text_eq.beq_iff b.id id).0 e) ∙ h in
      ground (arith, e, gone, filter-kept p id bs h)
  | inr e ↦ ground (arith, e, filter-kept p id bs h)
]

-- The referenced blobs are all kept, in their order.
pub Collects-referenced :
    {a b : BlobDb}
    → Collects a b
    → filter (λ r. is_referenced a.attachments r.id) b.blobs
      ≡ filter (λ r. is_referenced a.attachments r.id) a.blobs
Collects-referenced same = refl
Collects-referenced {a} (drop {mid} id c u) =
    filter-kept (is_referenced a.attachments) id mid.blobs
      (ap (λ l. is_referenced l id) (sym (Collects-attachments c)) ∙ u)
    ∙ Collects-referenced c

module _ {ℓ} {F : Type ℓ} (delete : Text → F → Result F) where
  -- Either nothing is dropped nor counted, or the blob is.
  abbrev pub StepCases : BlobRow → ℕ × Gc F → ℕ × Gc F → Type 0
  StepCases blob s t =
      ((t.0 ≡ s.0) × (t.1.db ≡ s.1.db))
      ⊎ ((t.0 ≡ suc s.0)
          × (is_referenced s.1.db.attachments blob.id ≡ false)
          × (t.1.db ≡ without blob.id s.1.db))

  delete_row-cases :
      (blob : BlobRow) (files : F) (n : ℕ) (gc : Gc F)
      → StepCases blob (n, gc) (delete_row blob files (n, gc))
  unfolding delete_row delete_blob
  delete_row-cases blob files n gc = elim (Bool-cases (is_referenced gc.db.attachments blob.id)) [
    | inl e ↦ rw (e, delete_row, delete_blob) (inl (refl, refl))
    | inr e ↦ rw (e, delete_row, delete_blob) (inr (refl, refl, refl))
  ]

  pub gc_step-cases :
      (blob : BlobRow) (n : ℕ) (gc : Gc F) → StepCases blob (n, gc) (gc_step delete blob (n, gc))
  unfolding gc_step
  gc_step-cases blob n gc = elim (Result-cases (delete blob.blob_key gc.files)) [
    | inl (f, e) ↦ rw (e, gc_step) (inl (refl, refl))
    | inr (files, e) ↦ rw (e, gc_step) (delete_row-cases blob files n gc)
  ]

  pub sweep-Collects :
      (blobs : List BlobRow) (n : ℕ) (gc : Gc F)
      → Collects gc.db (sweep delete blobs (n, gc)).1.db × (n ≤ (sweep delete blobs (n, gc)).0)
  unfolding sweep
  sweep-Collects [] n gc = (same, omega arith)
  sweep-Collects (b ∷ bs) n gc =
      let next = gc_step delete b (n, gc) in
      let rest = sweep-Collects bs next.0 next.1 in
      elim (gc_step-cases b n gc) [
        | inl (count, db) ↦ (
          subst (λ d. Collects d (sweep delete bs next).1.db) db rest.0,
          omega (arith, rest.1, count),
        )
        | inr (count, free, db) ↦ (
          Collects-trans (subst (λ d. Collects gc.db d) (sym db) (drop b.id same free)) rest.0,
          omega (arith, rest.1, count),
        )
      ]
