-- ===== src/Server/BlobGc/Rounds.antt =====
-- The rounds of the sweep, one by one.
use grns.Base.{
  ℕ, suc, ◌<◌, ◌≡◌, refl, ap, inl, inr, true, false, List, [], ◌∷◌, some, ◌==◌, nat_eq, is_empty,
  length, all, arith,
}
use grns.Base.Text.{Text, text_eq}
use grns.Errors.{Result, ok}
use grns.Store.Blobs.{BlobRow, BlobDb, is_referenced, list_unreferenced_blobs, delete_blob}
use grns.Server.BlobGc.{Gc, gc_step, delete_row, sweep, start_round, gc_loop}
use grns.Server.BlobGc.Sweeps.{Collects-length, gc_step-cases, sweep-Collects}
use grns.Server.BlobGc.Listed.{is_free, without-shorter}

module _ {ℓ} {F : Type ℓ} (delete : Text → F → Result F) where
  -- A round that deletes anything leaves fewer rows.
  pub sweep-shorter :
      (blobs : List BlobRow) (n : ℕ) (gc : Gc F)
      → all (is_free gc.db) blobs ≡ true
      → n < (sweep delete blobs (n, gc)).0
      → length (sweep delete blobs (n, gc)).1.db.blobs < length gc.db.blobs
  unfolding sweep
  sweep-shorter [] n gc h more = absurd (omega (arith, more))
  sweep-shorter (b ∷ bs) n gc h more =
      let next = gc_step delete b (n, gc) in
      elim (gc_step-cases delete b n gc) [
        | inl (count, db) ↦
            let free_rest : all (is_free next.1.db) bs ≡ true = rw db (ground arith) in
            let shorter = sweep-shorter bs next.0 next.1 free_rest (omega (arith, more, count)) in
            let as_long = ap (λ (d : BlobDb). length d.blobs) db in omega (arith, shorter, as_long)
        | inr (count, free, db) ↦
            let rest = Collects-length (sweep-Collects delete bs next.0 next.1).0 in
            let shorter = without-shorter b.id gc.db.blobs (ground arith) in
            let as_long = ap (λ (d : BlobDb). length d.blobs) db in
            omega (arith, rest, shorter, as_long)
      ]

  -- A deletion that works is counted.
  pub gc_step-ok :
      (blob : BlobRow) (n : ℕ) (gc : Gc F) (files : F)
      → delete blob.blob_key gc.files ≡ ok files
      → is_referenced gc.db.attachments blob.id ≡ false
      → (gc_step delete blob (n, gc)).0 ≡ suc n
  unfolding gc_step
  gc_step-ok blob n gc files e free = rw (e, gc_step) (delete_row-free blob files n gc free)
    where
      delete_row-free :
          (blob : BlobRow) (files : F) (n : ℕ) (gc : Gc F)
          → is_referenced gc.db.attachments blob.id ≡ false
          → (delete_row blob files (n, gc)).0 ≡ suc n
      delete_row-free blob files n gc free = rw (free, delete_row, delete_blob) refl

  unfoldable pub round : ℕ → Gc F → ℕ × Gc F
  round batch gc =
      sweep delete (list_unreferenced_blobs batch gc.db)
        (start_round (length (list_unreferenced_blobs batch gc.db)) gc)

  module _ (batch : ℕ) where
    pub loop-empty :
        (fuel : ℕ) (gc : Gc F)
        → is_empty (list_unreferenced_blobs batch gc.db) ≡ true
        → gc_loop delete batch (suc fuel) gc ≡ some gc
    unfolding gc_loop
    loop-empty fuel gc e = rw (e, gc_loop) refl

    pub loop-stuck :
        (fuel : ℕ) (gc : Gc F)
        → is_empty (list_unreferenced_blobs batch gc.db) ≡ false
        → ((round batch gc).0 == 0) ≡ true
        → gc_loop delete batch (suc fuel) gc ≡ some (round batch gc).1
    unfolding gc_loop round
    loop-stuck fuel gc e z = rw (e, gc_loop) (rw z refl)

    pub loop-more :
        (fuel : ℕ) (gc : Gc F)
        → is_empty (list_unreferenced_blobs batch gc.db) ≡ false
        → ((round batch gc).0 == 0) ≡ false
        → gc_loop delete batch (suc fuel) gc ≡ gc_loop delete batch fuel (round batch gc).1
    unfolding gc_loop round
    loop-more fuel gc e z = rw (e, gc_loop) (rw z refl)
