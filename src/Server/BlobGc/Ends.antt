-- ===== src/Server/BlobGc/Ends.antt =====
-- The sweep ends, keeps what is referenced, and collects the rest unless a deletion fails.
use grns.Base.{
  ℕ, zero, suc, ◌<◌, ◌≡◌, refl, sym, ap, ◌∙◌, ◌⊎◌, inl, inr, Bool, true, false, not, List, [], ◌∷◌,
  some, ◌==◌, nat_eq, is_empty, length, all, filter, arith, Bool-cases,
}
use grns.Base.Text.{Text, text_eq}
use grns.Errors.{Result, ok}
use grns.Store.Blobs.{BlobRow, AttachmentRow, BlobDb, is_referenced, list_unreferenced_blobs}
use grns.Server.BlobGc.{
  Gc, gc_step, sweep, start_round, gc_loop, gc_blobs, gc_batch_size, no_result,
}
use grns.Server.BlobGc.Sweeps.{
  Collects, same, Collects-trans, Collects-referenced, Collects-attachments, sweep-Collects,
}
use grns.Server.BlobGc.Listed.{is_free, list_unreferenced_blobs-free, list_unreferenced_blobs-none}
use grns.Server.BlobGc.Rounds.{round, sweep-shorter, gc_step-ok, loop-empty, loop-stuck, loop-more}

module _ {ℓ} {F : Type ℓ} (delete : Text → F → Result F) (batch : ℕ) where
  -- How the loop ends: with nothing left to list, or after a round that deleted nothing.
  abbrev IsOver : Gc F → Type ℓ
  IsOver end =
      (is_empty (list_unreferenced_blobs batch end.db) ≡ true)
      ⊎ ((last : Gc F) × (is_empty (list_unreferenced_blobs batch last.db) ≡ false)
          × ((round delete batch last).0 ≡ 0))

  gc_loop-ends :
      (fuel : ℕ) (gc : Gc F)
      → length gc.db.blobs < fuel
      → (end : Gc F) × (gc_loop delete batch fuel gc ≡ some end)
        × Collects gc.db end.db
        × IsOver end
  unfolding round
  gc_loop-ends zero gc h = absurd (omega arith)
  gc_loop-ends (suc fuel) gc h =
      let listed = list_unreferenced_blobs batch gc.db in
      let next = round delete batch gc in
      let collects = (sweep-Collects delete listed 0 (start_round (length listed) gc).1).0 in
      elim (Bool-cases (is_empty listed)) [
        | inl e ↦ (gc, loop-empty delete batch fuel gc e, same, inl e)
        | inr e ↦ elim (Bool-cases (next.0 == 0)) [
          | inl z ↦ (
            next.1,
            loop-stuck delete batch fuel gc e z,
            collects,
            inr (gc, e, (nat_eq.beq_iff next.0 0).0 z),
          )
          | inr z ↦
              let shorter =
                sweep-shorter delete listed 0 (start_round (length listed) gc).1
                  (list_unreferenced_blobs-free batch gc.db) (ground arith) in
              let rest = gc_loop-ends fuel next.1 (omega (arith, shorter, h)) in
              (
                rest.0,
                loop-more delete batch fuel gc e z ∙ rest.1,
                Collects-trans collects rest.2,
                rest.3,
              )
        ]
      ]

  -- A round over a free blob whose deletion works counts one.
  sweep-advances :
      ((key : Text) (f : F) → (g : F) × (delete key f ≡ ok g))
      → (db : BlobDb) (blobs : List BlobRow) (gc : Gc F) → gc.db ≡ db
      → is_empty blobs ≡ false
      → all (is_free db) blobs ≡ true
      → 0 < (sweep delete blobs (0, gc)).0
  unfolding sweep
  sweep-advances works db [] gc e n h = absurd (cc n)
  sweep-advances works db (b ∷ bs) gc e n h =
      let done = works b.blob_key gc.files in
      let free : is_referenced gc.db.attachments b.id ≡ false = rw e (ground arith) in
      let first = gc_step-ok delete b 0 gc done.0 done.1 free in
      let next = gc_step delete b (0, gc) in
      let rest = (sweep-Collects delete bs next.0 next.1).1 in omega (arith, first, rest)

  gc_loop-clears :
      ((key : Text) (f : F) → (g : F) × (delete key f ≡ ok g))
      → (end : Gc F) → IsOver end
      → is_empty (list_unreferenced_blobs batch end.db) ≡ true
  unfolding round
  gc_loop-clears works end (inl e) = e
  gc_loop-clears works end (inr (last, e, z)) =
      let listed = list_unreferenced_blobs batch last.db in
      absurd (
        omega (
          arith,
          z,
          sweep-advances works last.db listed (start_round (length listed) last).1 refl e
              (list_unreferenced_blobs-free batch last.db),
        ))

filter-not {ℓ} :
    {A : Type ℓ} (p : A → Bool) (l : List A) → filter (λ a. not (p a)) l ≡ [] → filter p l ≡ l
filter-not p [] h = refl
filter-not p (a ∷ l) h = ground (arith, filter-not p l)

module _ {ℓ} {F : Type ℓ} (delete : Text → F → Result F) (configured requested : ℕ) (db : BlobDb)
    (files : F) where
  -- For every batch size and every store of bytes, also one whose deletions fail, the sweep ends,
  -- dry or not. It leaves the attachments as they are, and of the blobs every one that an
  -- attachment references, in their order; a dry run leaves the tables and the bytes as they are.
  pub gc_blobs_ends :
      (apply : Bool)
      → (end : Gc F) × (gc_blobs delete configured requested apply db files ≡ some end)
        × (end.db.attachments ≡ db.attachments)
        × (filter (λ b. is_referenced db.attachments b.id) end.db.blobs
            ≡ filter (λ b. is_referenced db.attachments b.id) db.blobs)
        × (apply ≡ false → (end.db ≡ db) × (end.files ≡ files))
  unfolding gc_blobs
  gc_blobs_ends false = (_, refl, refl, refl, λ _. (refl, refl))
  gc_blobs_ends true =
      let ends =
        gc_loop-ends delete (gc_batch_size requested configured) (suc (length db.blobs))
          (record { result = no_result false; db = db; files = files }) (omega arith) in
      (ends.0, ends.1, Collects-attachments ends.2, Collects-referenced ends.2, λ e. absurd (cc e))

  -- If no deletion of bytes fails, the sweep leaves exactly the blobs that attachments reference.
  pub gc_blobs_collects :
      ((key : Text) (f : F) → (g : F) × (delete key f ≡ ok g))
      → (end : Gc F) × (gc_blobs delete configured requested true db files ≡ some end)
        × (end.db.blobs ≡ filter (λ b. is_referenced db.attachments b.id) db.blobs)
  unfolding gc_blobs
  gc_blobs_collects works =
      let batch = gc_batch_size requested configured in
      let ends =
        gc_loop-ends delete batch (suc (length db.blobs))
          (record { result = no_result false; db = db; files = files }) (omega arith) in
      let none_left =
        list_unreferenced_blobs-none batch ends.0.db
          (gc_loop-clears delete batch works ends.0 ends.3) in
      (
        ends.0,
        ends.1,
        sym (filter-not (λ b. is_referenced ends.0.db.attachments b.id) ends.0.db.blobs none_left)
            ∙ ap (λ (l : List AttachmentRow). filter (λ b. is_referenced l b.id) ends.0.db.blobs)
                (Collects-attachments ends.2)
            ∙ Collects-referenced ends.2,
      )
