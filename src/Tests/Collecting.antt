-- ===== src/Tests/Collecting.antt =====
-- Examples of the theorems on the collection of blobs.
use grns.Base.{
  String, ℕ, ◌≡◌, refl, true, false, ◌==◌, nat_eq, List, [], ◌∷◌, some, filter, list_beq,
  if◌then◌else◌,
}
use grns.Base.Text.{Text, text_eq, codes}
use grns.Errors.{Result, ok, err, plain, other}
use grns.Store.Time.{db_format_time, db_before}
use grns.Store.Blobs.{BlobRow, BlobDb, is_referenced, list_unreferenced_blobs}
use grns.Server.BlobGc.{Gc, gc_blobs, gc_batch_size}
use grns.Server.BlobGc.Ends.{gc_blobs_ends, gc_blobs_collects}
use grns.Server.BlobGc.Starves.{gc_blobs_starves}

abbrev sample_blob : String → ℕ → BlobRow
sample_blob id at = record {
  id = codes id;
  sha256 = codes id;
  size_bytes = 3;
  storage_backend = codes "local_cas";
  blob_key = codes id;
  created_at = db_format_time at;
}

-- Three blobs, of which the second is referenced.
abbrev sample_blobs : BlobDb
sample_blobs = record {
  blobs = sample_blob "bl-1" 1 ∷ sample_blob "bl-2" 2 ∷ sample_blob "bl-3" 3 ∷ [];
  attachments = record { id = codes "at-1"; blob_id = some (codes "bl-2") } ∷ [];
}

-- The store of bytes is the list of the keys that were deleted.
abbrev delete_all : Text → List Text → Result (List Text)
delete_all key gone = ok (key ∷ gone)

-- The bytes of the oldest blob cannot be deleted.
abbrev delete_but_oldest : Text → List Text → Result (List Text)
delete_but_oldest key gone = if key == codes "bl-1" then err (plain other) else ok (key ∷ gone)

gc_blobs_ends_example :
    (end : Gc (List Text)) × (gc_blobs delete_but_oldest 500 0 true sample_blobs [] ≡ some end)
    × (end.db.attachments ≡ sample_blobs.attachments)
    × (filter (λ b. is_referenced sample_blobs.attachments b.id) end.db.blobs
        ≡ filter (λ b. is_referenced sample_blobs.attachments b.id) sample_blobs.blobs)
    × (true ≡ false → (end.db ≡ sample_blobs) × (end.files ≡ []))
gc_blobs_ends_example = gc_blobs_ends delete_but_oldest 500 0 sample_blobs [] true

gc_blobs_collects_example :
    (end : Gc (List Text)) × (gc_blobs delete_all 500 0 true sample_blobs [] ≡ some end)
    × (end.db.blobs ≡ filter (λ b. is_referenced sample_blobs.attachments b.id) sample_blobs.blobs)
gc_blobs_collects_example =
    gc_blobs_collects delete_all 500 0 sample_blobs [] (λ key f. (key ∷ f, refl))

gc_blobs_starves_example :
    (end : Gc (List Text)) × (gc_blobs delete_but_oldest 500 1 true sample_blobs [] ≡ some end)
    × (end.db ≡ sample_blobs)
    × (end.files ≡ [])
unfolding list_unreferenced_blobs gc_batch_size list_beq codes db_before db_format_time
gc_blobs_starves_example = gc_blobs_starves delete_but_oldest 500 1 sample_blobs [] refl
