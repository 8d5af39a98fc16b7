-- ===== src/Server/GitRefs.antt =====
-- internal/server/task_git_ref_service.go, the values of a reference: its relation, object type,
-- object, commit and repository; and validateWorkspaceRelativePath of attachment_service.go and
-- closeRepoValidationError of task_service.go, which they share with other services.
-- url.Parse and filepath.Clean are arguments; the separator of paths is '/'.
pub mod Slugs
pub mod Objects
use grns.Base.{
  ℕ, Bool, true, false, not, ◌&&◌, ◌||◌, List, [], ◌∷◌, ◌++◌, Option, none, some, if◌then◌else◌,
  ◌==◌, nat_eq, leb, all, any, length, is_empty, contains,
}
use grns.Base.Text.{
  Text, text_eq, codes, trim_space, to_lower, split, has_prefix, is_lower_letter, is_digit,
}
use grns.Errors.{
  Error, Failure, Result, ok, err, ◌>>=◌, plain, root, value_required, value_invalid,
  bad_request_code, code_invalid_argument, code_missing_required,
}

abbrev pub is_hex : ℕ → Bool
is_hex c = is_digit c || (leb b'a' c && leb c b'f')

-- gitHashRegex
unfoldable pub is_git_hash : Text → Bool
is_git_hash s = (length s == 40) && all is_hex s

abbrev pub is_relation_rune : ℕ → Bool
is_relation_rune c = is_lower_letter c || is_digit c || (c == b'_') || (c == b'-')

-- gitRelationRegex
unfoldable pub matches_relation : Text → Bool
matches_relation [] = false
matches_relation (c ∷ s) = is_lower_letter c && all is_relation_rune s

abbrev pub git_builtin_relations : List Text
git_builtin_relations =
    codes "design_doc"
    ∷ codes "implements"
    ∷ codes "fix_commit"
    ∷ codes "closed_by"
    ∷ codes "introduced_by"
    ∷ codes "related"
    ∷ []

abbrev pub invalid_argument : Error
invalid_argument = bad_request_code (plain value_invalid) code_invalid_argument

abbrev pub missing_required : Error
missing_required = bad_request_code (plain value_required) code_missing_required

unfoldable pub normalize_git_relation : Text → Result Text
normalize_git_relation raw =
    let relation = to_lower (trim_space raw) in
    if is_empty relation
    then err missing_required
    else if not (matches_relation relation)
    then err invalid_argument
    else if contains git_builtin_relations relation
    then ok relation
    else if has_prefix relation (codes "x-")
    then ok relation
    else err invalid_argument

unfoldable pub normalize_git_hash : Text → Result Text
normalize_git_hash raw =
    let value = to_lower (trim_space raw) in
    if is_empty value then ok [] else if is_git_hash value then ok value else err invalid_argument

-- Whether a cleaned path leaves the directory it starts from, or is that directory.
unfoldable pub escapes : Text → Bool
escapes path = (path == codes ".") || (path == codes "..") || has_prefix path (codes "../")

-- validateWorkspaceRelativePath: whether it returns no error.
unfoldable pub validate_workspace_relative_path : (Text → Text) → Text → Bool
validate_workspace_relative_path clean raw =
    let path = trim_space raw in
    if is_empty path
    then false
    else if has_prefix path (codes "/")
    then false
    else not (escapes (clean path))

abbrev pub is_blank : ℕ → Bool
is_blank c = (c == 9) || (c == 10) || (c == 13) || (c == 32)

-- The types whose object is a hash, and those whose object is a name.
abbrev pub hash_types : List Text
hash_types = codes "commit" ∷ codes "blob" ∷ codes "tree" ∷ []

abbrev pub name_types : List Text
name_types = codes "branch" ∷ codes "tag" ∷ []

unfoldable pub normalize_git_object_value : (Text → Text) → Text → Text → Result Text
normalize_git_object_value clean object_type raw =
    let value = trim_space raw in
    if is_empty value
    then err missing_required
    else if contains hash_types object_type
    then normalize_git_hash value
    else if object_type == codes "path"
    then if not (validate_workspace_relative_path clean value)
      then err invalid_argument
      else if clean value == codes "."
      then err invalid_argument
      else ok (clean value)
    else if contains name_types object_type
    then if any is_blank value then err invalid_argument else ok value
    else err invalid_argument

-- strings.Contains
unfoldable pub contains_text : Text → Text → Bool
contains_text [] part = is_empty part
contains_text (c ∷ s) part = has_prefix (c ∷ s) part || contains_text s part

unfoldable pub trim_slashes_left : Text → Text
trim_slashes_left [] = []
trim_slashes_left (c ∷ s) = if c == b'/' then trim_slashes_left s else c ∷ s

unfoldable pub trim_slashes_right : Text → Text
trim_slashes_right [] = []
trim_slashes_right (c ∷ s) =
    let r = trim_slashes_right s in if is_empty r && (c == b'/') then [] else c ∷ r

-- strings.Trim with the cutset "/".
unfoldable pub trim_slashes : Text → Text
trim_slashes s = trim_slashes_right (trim_slashes_left s)

-- strings.TrimSuffix, with the suffix second.
unfoldable pub trim_suffix : Text → Text → Text
trim_suffix [] suffix = []
trim_suffix (c ∷ s) suffix = if (c ∷ s) == suffix then [] else c ∷ trim_suffix s suffix

-- strings.SplitN at the first `d`, which the text contains.
unfoldable pub cut : ℕ → Text → Text × Text
cut d [] = ([], [])
cut d (c ∷ s) = let rest = cut d s in if c == d then ([], s) else (c ∷ rest.0, rest.1)

-- The text behind the last `d`, the whole text if there is none.
unfoldable pub after_last : ℕ → Text → Text
after_last d [] = []
after_last d (c ∷ s) = if any (λ x. x == d) s then after_last d s else if c == d then s else c ∷ s

abbrev pub host_and_path : Text → Text → Text
host_and_path host path = trim_space host ++ b'/' ∷ trim_slashes (trim_space path)

unfoldable pub from_url : Option (Text × Text) → Result Text
from_url none = err (plain value_invalid)
from_url (some (host, path)) =
    if is_empty (trim_space host) then err (plain value_invalid) else ok (host_and_path host path)

-- The host and the path of a repository: of a URL, of user@host:path, or as they are written.
unfoldable pub repo_location : (Text → Option (Text × Text)) → Text → Result Text
repo_location parse_url value =
    if contains_text value (codes "://")
    then from_url (parse_url value)
    else if any (λ c. c == b'@') value && any (λ c. c == b':') value
    then ok (host_and_path (after_last b'@' (cut b':' value).0) (cut b':' value).1)
    else ok value

-- Whether a part of a slug is refused.
unfoldable pub is_bad_part : Text → Bool
is_bad_part part = is_empty (trim_space part) || any is_blank part

unfoldable pub join_parts : Text × List Text → Result Text
join_parts (host, owner ∷ name ∷ []) =
    if any is_bad_part (host ∷ owner ∷ name ∷ [])
    then err (plain value_invalid)
    else ok (host ++ b'/' ∷ owner ++ b'/' ∷ name)
join_parts _ = err (plain value_invalid)

-- Of what stands for a repository, the text that is split into the parts of its slug.
abbrev pub slug_text : Text → Text
slug_text value = trim_slashes (trim_suffix (to_lower (trim_space value)) (codes ".git"))

unfoldable pub canonical_git_repo_slug : (Text → Option (Text × Text)) → Text → Result Text
canonical_git_repo_slug parse_url raw =
    if is_empty (trim_space raw) then err (plain value_required) else do
      value ← repo_location parse_url (trim_space raw)
      join_parts (split b'/' (slug_text value))

-- The code asks whether the message has the word "required", which it has for a missing value only.
unfoldable pub repo_error_code : Option Failure → ℕ
repo_error_code (some value_required) = code_missing_required
repo_error_code _ = code_invalid_argument

unfoldable pub close_repo_validation_error : Error → Error
close_repo_validation_error e = bad_request_code e (repo_error_code (root e))
