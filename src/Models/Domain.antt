-- ===== src/Models/Domain.antt =====
-- internal/models/domain.go, git_ref.go and attachment.go: the closed vocabularies and how text is
-- read as one of their words.
pub mod Laws
use grns.Base.{Bool, List, [], ◌∷◌, if◌then◌else◌, contains, is_empty, not, ◌&&◌}
use grns.Base.Text.{Text, text_eq, codes, trim_space, to_lower}
use grns.Base.Int.{ℤ, pos, ◌≤ℤ?◌}
use grns.Errors.{Result, ok, err, plain, value_required, value_invalid}

abbrev pub status_open : Text
status_open = codes "open"

abbrev pub status_in_progress : Text
status_in_progress = codes "in_progress"

abbrev pub status_blocked : Text
status_blocked = codes "blocked"

abbrev pub status_deferred : Text
status_deferred = codes "deferred"

abbrev pub status_closed : Text
status_closed = codes "closed"

abbrev pub status_tombstone : Text
status_tombstone = codes "tombstone"

abbrev pub status_pinned : Text
status_pinned = codes "pinned"

abbrev pub type_task : Text
type_task = codes "task"

abbrev pub dependency_blocks : Text
dependency_blocks = codes "blocks"

abbrev pub valid_task_statuses : List Text
valid_task_statuses =
    status_open ∷ status_in_progress ∷ status_blocked ∷ status_deferred ∷ status_closed
    ∷ status_tombstone ∷ status_pinned ∷ []

abbrev pub valid_task_types : List Text
valid_task_types = codes "bug" ∷ codes "feature" ∷ type_task ∷ codes "epic" ∷ codes "chore" ∷ []

abbrev pub ready_task_statuses : List Text
ready_task_statuses =
    status_open ∷ status_in_progress ∷ status_blocked ∷ status_deferred ∷ status_pinned ∷ []

abbrev pub stale_default_excluded_statuses : List Text
stale_default_excluded_statuses = status_closed ∷ status_tombstone ∷ []

abbrev pub valid_git_object_types : List Text
valid_git_object_types =
    codes "commit" ∷ codes "tag" ∷ codes "branch" ∷ codes "path" ∷ codes "blob" ∷ codes "tree" ∷ []

abbrev pub valid_attachment_kinds : List Text
valid_attachment_kinds =
    codes "spec"
    ∷ codes "diagram"
    ∷ codes "artifact"
    ∷ codes "diagnostic"
    ∷ codes "archive"
    ∷ codes "other"
    ∷ []

abbrev pub valid_attachment_source_types : List Text
valid_attachment_source_types = codes "managed_blob" ∷ codes "external_url" ∷ codes "repo_path" ∷ []

abbrev pub valid_media_type_sources : List Text
valid_media_type_sources =
    codes "sniffed" ∷ codes "declared" ∷ codes "inferred" ∷ codes "unknown" ∷ []

unfoldable pub is_valid_task_status : Text → Bool
is_valid_task_status s = contains valid_task_statuses s

unfoldable pub is_valid_task_type : Text → Bool
is_valid_task_type t = contains valid_task_types t

-- The body that the Parse functions of the package share, at each one's vocabulary.
unfoldable pub parse_word : List Text → Text → Result Text
parse_word valid raw =
    let value = to_lower (trim_space raw) in
    if is_empty value
    then err (plain value_required)
    else if contains valid value
    then ok value
    else err (plain value_invalid)

unfoldable pub parse_task_status : Text → Result Text
unfolding parse_word
parse_task_status raw = parse_word valid_task_statuses raw

unfoldable pub parse_task_type : Text → Result Text
unfolding parse_word
parse_task_type raw = parse_word valid_task_types raw

unfoldable pub parse_git_object_type : Text → Result Text
unfolding parse_word
parse_git_object_type raw = parse_word valid_git_object_types raw

unfoldable pub parse_attachment_kind : Text → Result Text
unfolding parse_word
parse_attachment_kind raw = parse_word valid_attachment_kinds raw

unfoldable pub parse_attachment_source_type : Text → Result Text
unfolding parse_word
parse_attachment_source_type raw = parse_word valid_attachment_source_types raw

unfoldable pub parse_attachment_media_type_source : Text → Result Text
unfolding parse_word
parse_attachment_media_type_source raw = parse_word valid_media_type_sources raw

abbrev pub default_priority : ℤ
default_priority = pos 2

unfoldable pub is_valid_priority : ℤ → Bool
is_valid_priority value = (pos 0 ≤ℤ? value) && (value ≤ℤ? pos 4)
