-- ===== src/Server/BlobGc.antt =====
-- internal/server/attachment_service.go, GCBlobs: the sweep over the blobs that no attachment
-- references. The store of the bytes is an interface of the code (internal/blobstore); here it is
-- a type of its states with its deletion, which fails or gives the next state. The loop runs on
-- fuel: each round that is not the last deletes a row, so that one round more than there are rows
-- is enough.
pub mod Sweeps
pub mod Listed
pub mod Rounds
pub mod Ends
pub mod Starves
use grns.Base.{
  ℕ, zero, suc, ◌+◌, Bool, true, false, not, List, [], ◌∷◌, Option, none, some, if◌then◌else◌, ◌==◌,
  nat_eq, is_empty, length,
}
use grns.Base.Text.{Text}
use grns.Errors.{Result, ok, err}
use grns.Store.Blobs.{BlobRow, BlobDb, list_unreferenced_blobs, delete_blob}

pub record BlobGcResult : Type 0 where
  pub candidate_count : ℕ
  pub deleted_count : ℕ
  pub failed_count : ℕ
  pub reclaimed_bytes : ℕ
  pub dry_run : Bool

abbrev pub default_blob_gc_batch_size : ℕ
default_blob_gc_batch_size = 500

-- The result so far, the tables and the store of the bytes.
pub record Gc {ℓ} (F : Type ℓ) : Type ℓ where
  pub result : BlobGcResult
  pub db : BlobDb
  pub files : F

abbrev pub no_result : Bool → BlobGcResult
no_result dry_run = record {
  candidate_count = 0;
  deleted_count = 0;
  failed_count = 0;
  reclaimed_bytes = 0;
  dry_run = dry_run;
}

unfoldable pub total_size : List BlobRow → ℕ
total_size [] = 0
total_size (b ∷ bs) = b.size_bytes + total_size bs

abbrev pub count_failed : BlobGcResult → BlobGcResult
count_failed r = record r { failed_count = r.failed_count + 1 }

abbrev pub count_deleted : BlobRow → BlobGcResult → BlobGcResult
count_deleted b r = record r {
  deleted_count = r.deleted_count + 1;
  reclaimed_bytes = r.reclaimed_bytes + b.size_bytes;
}

abbrev pub count_candidates : ℕ → BlobGcResult → BlobGcResult
count_candidates n r = record r { candidate_count = r.candidate_count + n }

-- GCBlobs' choice of the batch size; the limits of the caller and of the service, 0 for none.
unfoldable pub gc_batch_size : ℕ → ℕ → ℕ
gc_batch_size requested configured =
    if requested == 0
    then (if configured == 0 then default_blob_gc_batch_size else configured)
    else requested

module _ {ℓ} {F : Type ℓ} where
  -- The row goes after the bytes: the number deleted in this round, and the state.
  unfoldable pub delete_row : BlobRow → F → ℕ × Gc F → ℕ × Gc F
  unfolding delete_blob
  delete_row blob files (n, gc) = elim (delete_blob blob.id gc.db) [
    | err e ↦ (n, record gc { result = count_failed gc.result; files = files })
    | ok db ↦ (suc n, record { result = count_deleted blob gc.result; db = db; files = files })
  ]

  unfoldable pub gc_step : (Text → F → Result F) → BlobRow → ℕ × Gc F → ℕ × Gc F
  unfolding delete_row
  gc_step delete blob (n, gc) = elim (delete blob.blob_key gc.files) [
    | err e ↦ (n, record gc { result = count_failed gc.result })
    | ok files ↦ delete_row blob files (n, gc)
  ]

  -- One round.
  unfoldable pub sweep : (Text → F → Result F) → List BlobRow → ℕ × Gc F → ℕ × Gc F
  unfolding gc_step
  sweep delete [] s = s
  sweep delete (blob ∷ blobs) s = sweep delete blobs (gc_step delete blob s)

  abbrev pub start_round : ℕ → Gc F → ℕ × Gc F
  start_round n gc = (0, record gc { result = count_candidates n gc.result })

  unfoldable pub gc_loop : (Text → F → Result F) → ℕ → ℕ → Gc F → Option (Gc F)
  unfolding sweep list_unreferenced_blobs
  gc_loop delete batch zero gc = none
  gc_loop delete batch (suc fuel) gc =
      let blobs = list_unreferenced_blobs batch gc.db in
      let round = sweep delete blobs (start_round (length blobs) gc) in
      elim (is_empty blobs) [
        | true ↦ some gc
        | false ↦ elim (round.0 == 0) [
          | true ↦ some round.1
          | false ↦ gc_loop delete batch fuel round.1
        ]
      ]

  unfoldable pub gc_blobs : (Text → F → Result F) → ℕ → ℕ → Bool → BlobDb → F → Option (Gc F)
  unfolding gc_loop gc_batch_size list_unreferenced_blobs total_size
  gc_blobs delete configured requested apply db files =
      if not apply
      then (let blobs = list_unreferenced_blobs 0 db in
          some (record {
            result = record (no_result true) {
              candidate_count = length blobs;
              reclaimed_bytes = total_size blobs;
            };
            db = db;
            files = files;
          }))
      else gc_loop delete (gc_batch_size requested configured) (suc (length db.blobs))
          (record { result = no_result false; db = db; files = files })
