-- ===== src/Store/Project.antt =====
-- internal/store/tasks.go and id.go: the project that an id names, and new ids.
pub mod Laws
pub mod NewIds
use grns.Base.{
  ℕ, zero, suc, ◌+◌, ◌-◌, ◌%◌, Bool, true, false, not, ◌&&◌, List, [], ◌∷◌, ◌++◌, Option, none,
  some, map, if◌then◌else◌, ◌==◌, nat_eq, is_empty, all, ltb,
}
use grns.Base.Text.{Text, text_eq, trim_space, to_lower, byte_len, split, is_lower_letter}
use grns.Errors.{Result, ok, err, plain, prefix_required, no_unique_id, ◌>>=◌}

prefix_of_parts : Text × List Text → Text
prefix_of_parts (first, []) = []
prefix_of_parts (first, part ∷ parts) =
    let prefix = trim_space first in
    if not (byte_len prefix == 2) then [] else if all is_lower_letter prefix then prefix else []

unfoldable pub project_from_task_id : Text → Text
unfolding prefix_of_parts split
project_from_task_id id = prefix_of_parts (split b'-' (trim_space (to_lower id)))

-- Each of its three returns gives the text that was trimmed.
unfoldable pub normalize_project : Text → Text
normalize_project project = trim_space (to_lower project)

unfoldable pub same_task_project : Text → Text → Bool
same_task_project child_id parent_id =
    not (is_empty (project_from_task_id child_id))
    && (project_from_task_id child_id == project_from_task_id parent_id)

-- base36Alphabet, indexed.
unfoldable pub base36_char : ℕ → ℕ
base36_char i = if ltb i 10 then b'0' + i else b'a' + (i - 10)

-- randomBase36, from the bytes that rand.Read put into its buffer.
unfoldable pub random_base36 : List ℕ → Text
unfolding base36_char
random_base36 bytes = map (λ b. base36_char (b % 36)) bytes

-- The loop of `GenerateID` with the number of attempts left. The n-th attempt reads `draw n` from
-- crypto/rand, which may fail; `exists` is none where the caller passes nil.
unfoldable pub generate_from :
    Text → Option (Text → Result Bool) → (ℕ → Result (List ℕ)) → ℕ → ℕ → Result Text
unfolding random_base36
generate_from prefix exists draw zero n = err (plain no_unique_id)
generate_from prefix none draw (suc left) n = do
  bytes ← draw n
  ok (prefix ++ b'-' ∷ random_base36 bytes)
generate_from prefix (some exists) draw (suc left) n = do
  bytes ← draw n
  let id = prefix ++ b'-' ∷ random_base36 bytes
  found ← exists id
  let again = generate_from prefix (some exists) draw left (suc n)
  if found then again else ok id

abbrev pub id_max_attempts : ℕ
id_max_attempts = 20

unfoldable pub generate_id :
    Text → Option (Text → Result Bool) → (ℕ → Result (List ℕ)) → Result Text
unfolding generate_from
generate_id prefix exists draw =
    if is_empty prefix
    then err (plain prefix_required)
    else generate_from prefix exists draw id_max_attempts 0
