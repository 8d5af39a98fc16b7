-- ===== src/Server/Validation.antt =====
-- internal/server/validation.go, with `taskIDBelongsToProject` of task_service.go and the helpers
-- of handlers.go that take apart lists of values.
pub mod Labels
pub mod Canonical
pub mod Ids
use grns.Base.{
  ℕ, Bool, true, false, List, [], ◌∷◌, ◌++◌, map, if◌then◌else◌, ◌==◌, nat_eq, ◌&&◌, ◌||◌, ltb,
  contains, append_new, unique_strings, is_empty, all, not, Option, none, some,
}
use grns.Base.Text.{
  Text, text_eq, codes, trim_space, to_lower, is_space, byte_len, has_prefix, split,
  matches_classes, text_ltb, is_lower_letter, is_digit,
}
use grns.Errors.{
  Result, ok, err, plain, value_required, value_invalid, bad_request_code, map_err, ◌>>=◌,
  code_invalid_status, code_invalid_type, code_missing_required, code_invalid_label,
  code_invalid_id,
}
use grns.Models.Domain.{parse_task_status, parse_task_type}

abbrev pub is_base36 : ℕ → Bool
is_base36 c = is_digit c || is_lower_letter c

abbrev pub is_dash : ℕ → Bool
is_dash c = c == b'-'

-- The four characters behind the dash.
abbrev pub id_suffix : List (ℕ → Bool)
id_suffix = is_base36 ∷ is_base36 ∷ is_base36 ∷ is_base36 ∷ []

-- idRegex
unfoldable pub validate_id : Text → Bool
unfolding matches_classes
validate_id id = matches_classes (is_lower_letter ∷ is_lower_letter ∷ is_dash ∷ id_suffix) id

-- A regular expression whose two letters are fixed, as ^at-[0-9a-z]{4}$.
unfoldable pub validate_prefixed_id : ℕ → ℕ → Text → Bool
unfolding matches_classes
validate_prefixed_id a b id =
    matches_classes ((λ c. c == a) ∷ (λ c. c == b) ∷ is_dash ∷ id_suffix) id

unfoldable pub validate_attachment_id : Text → Bool
unfolding validate_prefixed_id
validate_attachment_id id = validate_prefixed_id b'a' b't' id

unfoldable pub validate_blob_id : Text → Bool
unfolding validate_prefixed_id
validate_blob_id id = validate_prefixed_id b'b' b'l' id

unfoldable pub validate_git_repo_id : Text → Bool
unfolding validate_prefixed_id
validate_git_repo_id id = validate_prefixed_id b'r' b'p' id

unfoldable pub validate_git_ref_id : Text → Bool
unfolding validate_prefixed_id
validate_git_ref_id id = validate_prefixed_id b'g' b'f' id

unfoldable pub normalize_status : Text → Result Text
normalize_status value =
    map_err (λ e. bad_request_code e code_invalid_status) (parse_task_status value)

unfoldable pub normalize_type : Text → Result Text
normalize_type value = map_err (λ e. bad_request_code e code_invalid_type) (parse_task_type value)

-- The test of the loop over a label's runes.
unfoldable pub label_rune : ℕ → Bool
label_rune r = not (ltb 127 r || is_space r)

unfoldable pub normalize_label : Text → Result Text
normalize_label raw =
    let value = trim_space raw in
    if is_empty value
    then err (bad_request_code (plain value_required) code_missing_required)
    else if all label_rune value
    then ok (to_lower value)
    else err (bad_request_code (plain value_invalid) code_invalid_label)

-- The insertion by which the model sorts (`sort.Strings`).
unfoldable pub insert_sorted : Text → List Text → List Text
insert_sorted l [] = l ∷ []
insert_sorted l (m ∷ ms) = if text_ltb m l then m ∷ insert_sorted l ms else l ∷ m ∷ ms

unfoldable pub sort_strings : List Text → List Text
unfolding insert_sorted
sort_strings [] = []
sort_strings (l ∷ ls) = insert_sorted l (sort_strings ls)

-- The loop of `normalizeLabels`, over the labels seen so far; `labels` is in order of arrival.
unfoldable pub collect_labels : List Text → List Text → Result (List Text)
collect_labels labels [] = ok labels
collect_labels labels (value ∷ values) = do
  label ← normalize_label value
  collect_labels (append_new labels label) values

unfoldable pub normalize_labels : List Text → Result (List Text)
unfolding collect_labels
normalize_labels values = do labels ← collect_labels [] values; ok (sort_strings labels)

unfoldable pub normalize_prefix : Text → Result Text
normalize_prefix raw =
    let prefix = to_lower (trim_space raw) in
    if not (byte_len prefix == 2)
    then err (plain value_invalid)
    else if all is_lower_letter prefix
    then ok prefix
    else err (plain value_invalid)

unfoldable pub task_id_belongs_to_project : Text → Text → Bool
task_id_belongs_to_project raw_id raw_project =
    let id = trim_space (to_lower raw_id) in
    let project = trim_space (to_lower raw_project) in
    if not (byte_len project == 2) then false else has_prefix id (project ++ b'-' ∷ [])

keep_parts : List Text → List Text
keep_parts [] = []
keep_parts (part ∷ parts) =
    let rest = keep_parts parts in
    if is_empty (trim_space part) then rest else trim_space part ∷ rest

-- handlers.go
unfoldable pub split_csv : Text → List Text
unfolding keep_parts split
split_csv raw =
    let value = trim_space raw in
    if is_empty value then [] else (let parts = split b',' value in keep_parts (parts.0 ∷ parts.1))

unfoldable pub require_ids : List Text → Result (Unit {0})
require_ids ids =
    if is_empty ids
    then err (bad_request_code (plain value_required) code_missing_required)
    else if all validate_id ids
    then ok tt
    else err (bad_request_code (plain value_invalid) code_invalid_id)
