-- ===== src/Store/Blobs.antt =====
-- internal/store/attachments.go, the statements on the table blobs that the garbage collection
-- runs. Of an attachment the model keeps its id and the blob that it references. A stored time that
-- cannot be read, upon which the scan of a row fails, is not modelled.
use grns.Base.{ℕ, Bool, false, not, List, Option, none, some, if◌then◌else◌, ◌==◌, any, filter}
use grns.Base.Text.{Text, text_eq}
use grns.Errors.{Result, ok, err, plain, foreign_key_constraint}
use grns.Store.Time.{DbTime, db_before}
use grns.Store.Queries.{order_by, limited}

-- A row of blobs.
pub record BlobRow : Type 0 where
  pub id : Text
  pub sha256 : Text
  pub size_bytes : ℕ
  pub storage_backend : Text
  pub blob_key : Text
  pub created_at : DbTime

-- A row of attachments.
pub record AttachmentRow : Type 0 where
  pub id : Text
  pub blob_id : Option Text

pub record BlobDb : Type 0 where
  pub blobs : List BlobRow
  pub attachments : List AttachmentRow

abbrev pub references : Text → Option Text → Bool
references id none = false
references id (some blob_id) = blob_id == id

unfoldable pub is_referenced : List AttachmentRow → Text → Bool
is_referenced attachments id = any (λ a. references id a.blob_id) attachments

-- The outer join in which no attachment was found, oldest first.
unfoldable pub list_unreferenced_blobs : ℕ → BlobDb → List BlobRow
unfolding is_referenced order_by limited
list_unreferenced_blobs limit db = limited limit (
    order_by (λ a b. db_before a.created_at b.created_at)
      (filter (λ b. not (is_referenced db.attachments b.id)) db.blobs))

-- A blob that an attachment references stays (ON DELETE RESTRICT).
unfoldable pub delete_blob : Text → BlobDb → Result BlobDb
unfolding is_referenced
delete_blob id db =
    if is_referenced db.attachments id
    then err (plain foreign_key_constraint)
    else ok (record db { blobs = filter (λ b. not (b.id == id)) db.blobs })
