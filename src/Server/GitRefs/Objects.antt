-- ===== src/Server/GitRefs/Objects.antt =====
-- The relation and the object of a reference: what accepted ones look like.
use grns.Base.{
  ◌≡◌, refl, Bool, true, false, not, ◌&&◌, ◌||◌, [], ◌∷◌, if◌then◌else◌, ◌==◌, nat_eq, arith, any,
  is_empty, contains,
}
use grns.Base.Text.{Text, text_eq, codes, trim_space, to_lower, has_prefix}
use grns.Base.Text.Laws.{trim_space_idem, to_lower-trim_space_idem}
use grns.Errors.{ok}
use grns.Server.GitRefs.{
  is_git_hash, matches_relation, git_builtin_relations, normalize_git_relation, normalize_git_hash,
  escapes, validate_workspace_relative_path, is_blank, hash_types, name_types,
  normalize_git_object_value,
}

-- Of a relation: one of the six, or one of the program's users.
abbrev pub is_known_relation : Text → Bool
is_known_relation relation =
    matches_relation relation
    && (contains git_builtin_relations relation || has_prefix relation (codes "x-"))

-- A relation is accepted as its lower case without white space around it, which has the form of a
-- relation and is one of the six or begins with "x-"; and it is accepted again as itself.
pub normalize_git_relation_again :
    (raw relation : Text)
    → normalize_git_relation raw ≡ ok relation
    → (relation ≡ to_lower (trim_space raw))
      × (is_known_relation relation ≡ true)
      × (normalize_git_relation relation ≡ ok relation)
unfolding normalize_git_relation
normalize_git_relation_again raw relation h =
    (ground arith, ground arith, ground (arith, to_lower-trim_space_idem raw))

-- What the object of a type must be: a hash of forty digits, a relative path that is not the
-- directory it starts from and does not leave it, or a name without blanks.
unfoldable pub is_sound_object : Text → Text → Bool
is_sound_object object_type value =
    if contains hash_types object_type
    then is_git_hash value
    else if object_type == codes "path"
    then not (escapes value) && not (has_prefix value (codes "/"))
    else contains name_types object_type && not (is_empty value) && not (any is_blank value)

is_empty-to_lower : (s : Text) → is_empty (to_lower s) ≡ is_empty s
unfolding to_lower
is_empty-to_lower [] = refl
is_empty-to_lower (c ∷ s) = refl

normalize_git_hash_lem :
    (value hash : Text)
    → is_empty (trim_space value) ≡ false
    → normalize_git_hash value ≡ ok hash
    → is_git_hash hash ≡ true
unfolding normalize_git_hash
normalize_git_hash_lem value hash n h = ground (arith, is_empty-to_lower (trim_space value))

relative_path :
    (clean : Text → Text) (raw : Text)
    → validate_workspace_relative_path clean (trim_space raw) ≡ true
    → (escapes (clean (trim_space raw)) ≡ false) × (has_prefix (trim_space raw) (codes "/") ≡ false)
unfolding validate_workspace_relative_path
relative_path clean raw h =
    (ground (arith, trim_space_idem raw), ground (arith, trim_space_idem raw))

-- What filepath.Clean is relied upon for: it leaves a relative path relative.
abbrev pub KeepsRelative : (Text → Text) → Type 0
KeepsRelative clean =
    (s : Text) → has_prefix s (codes "/") ≡ false → has_prefix (clean s) (codes "/") ≡ false

pub normalize_git_object_value-is_sound_object :
    (clean : Text → Text) (object_type raw value : Text)
    → KeepsRelative clean
    → normalize_git_object_value clean object_type raw ≡ ok value
    → is_sound_object object_type value ≡ true
unfolding normalize_git_object_value is_sound_object
normalize_git_object_value-is_sound_object clean object_type raw value relative h = ground (
  arith,
  trim_space_idem raw,
  relative_path clean raw,
  relative (trim_space raw),
  normalize_git_hash_lem (trim_space raw) value,
)
