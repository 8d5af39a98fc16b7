-- ===== src/Server/BlobGc/Starves.antt =====
-- A batch whose deletions all fail ends the sweep.
use grns.Base.{
  ℕ, ◌≡◌, refl, inl, inr, Bool, true, false, List, [], ◌∷◌, some, is_empty, length, all, arith,
  Bool-cases,
}
use grns.Base.Text.{Text}
use grns.Errors.{Result, ok, err}
use grns.Errors.Laws.{Result-cases}
use grns.Store.Blobs.{BlobRow, BlobDb, list_unreferenced_blobs}
use grns.Server.BlobGc.{Gc, gc_step, sweep, start_round, gc_blobs, gc_batch_size, no_result}
use grns.Server.BlobGc.Rounds.{round, loop-empty, loop-stuck}

abbrev pub is_refused {ℓ} : {F : Type ℓ} → Result F → Bool
is_refused (ok files) = false
is_refused (err e) = true

module _ {ℓ} {F : Type ℓ} (delete : Text → F → Result F) where
  -- Nothing was counted as deleted, and neither the rows nor the bytes have changed.
  abbrev Unmoved : BlobDb → F → ℕ × Gc F → Type ℓ
  Unmoved db files s = (s.0 ≡ 0) × (s.1.db ≡ db) × (s.1.files ≡ files)

  gc_step-refused :
      (b : BlobRow) (db : BlobDb) (files : F) (s : ℕ × Gc F)
      → is_refused (delete b.blob_key files) ≡ true
      → Unmoved db files s
      → Unmoved db files (gc_step delete b s)
  unfolding gc_step
  gc_step-refused b db files (n, gc) h u = elim (Result-cases (delete b.blob_key gc.files)) [
    | inl (f, e) ↦ rw (e, gc_step) u
    | inr (g, e) ↦ absurd (refused_not_ok (delete b.blob_key gc.files) g e (rw u.2 h))
  ]
    where
      refused_not_ok : (r : Result F) (g : F) → r ≡ ok g → is_refused r ≡ true → ⊥
      refused_not_ok (ok f) g e h = cc h
      refused_not_ok (err f) g e h = cc e

  sweep-refused :
      (blobs : List BlobRow) (db : BlobDb) (files : F) (s : ℕ × Gc F)
      → all (λ b. is_refused (delete b.blob_key files)) blobs ≡ true
      → Unmoved db files s
      → Unmoved db files (sweep delete blobs s)
  unfolding sweep
  sweep-refused [] db files s h u = u
  sweep-refused (b ∷ bs) db files s h u =
      sweep-refused bs db files (gc_step delete b s) (ground arith)
        (gc_step-refused b db files s (ground arith) u)

  -- If the deletions of the first batch fail, all of them, then the sweep ends with the tables and
  -- the bytes as they were, also if there are more blobs behind that batch that no attachment
  -- references and whose deletion would work.
  pub gc_blobs_starves :
      (configured requested : ℕ) (db : BlobDb) (files : F)
      → all
          (λ b. is_refused (delete b.blob_key files))
          (list_unreferenced_blobs (gc_batch_size requested configured) db)
        ≡ true
      → (end : Gc F) × (gc_blobs delete configured requested true db files ≡ some end)
        × (end.db ≡ db)
        × (end.files ≡ files)
  unfolding gc_blobs round
  gc_blobs_starves configured requested db files h =
      let batch = gc_batch_size requested configured in
      let gc : Gc F = record { result = no_result false; db = db; files = files } in
      let listed = list_unreferenced_blobs batch db in
      let swept =
        sweep-refused listed db files (start_round (length listed) gc) h (refl, refl, refl) in
      elim (Bool-cases (is_empty listed)) [
        | inl e ↦ (gc, loop-empty delete batch (length db.blobs) gc e, refl, refl)
        | inr e ↦ (
          (round delete batch gc).1,
          loop-stuck delete batch (length db.blobs) gc e (ground (arith, swept.0)),
          swept.1,
          swept.2,
        )
      ]
