-- ===== src/Auth.antt =====
-- internal/auth/password.go: names and passwords of the local users. bcrypt is the parameter
-- `Bcrypt`: its hash, which can fail, and its comparison.
use grns.Base.{ℕ, Bool, false, not, ◌&&◌, ◌||◌, [], ◌∷◌, if◌then◌else◌, ◌==◌, nat_eq, ltb, is_empty}
use grns.Base.Text.{Text, trim_space, to_lower, byte_len, is_lower_letter, is_digit}
use grns.Errors.{Result, ok, err, plain, value_required, value_invalid}

pub record Bcrypt : Type 0 where
  pub generate_from_password : Text → Result Text
  pub compare_hash_and_password : Text → Text → Bool

abbrev pub min_password_length : ℕ
min_password_length = 8

abbrev pub max_username_length : ℕ
max_username_length = 32

unfoldable pub is_name_end : ℕ → Bool
is_name_end c = is_lower_letter c || is_digit c

unfoldable pub is_name_inner : ℕ → Bool
unfolding is_name_end
is_name_inner c = is_name_end c || (c == b'.') || (c == b'_') || (c == b'-')

-- [a-z0-9._-]*[a-z0-9] to the end of the text.
unfoldable pub name_rest : Text → Bool
unfolding is_name_end is_name_inner
name_rest [] = false
name_rest (c ∷ s) =
    let rest = name_rest s in if is_empty s then is_name_end c else is_name_inner c && rest

-- ^[a-z0-9](?:[a-z0-9._-]*[a-z0-9])?$
unfoldable pub username_pattern : Text → Bool
unfolding is_name_end name_rest
username_pattern [] = false
username_pattern (c ∷ s) = is_name_end c && (is_empty s || name_rest s)

unfoldable pub normalize_username : Text → Result Text
unfolding username_pattern
normalize_username raw =
    let username = trim_space (to_lower raw) in
    if is_empty username
    then err (plain value_required)
    else if ltb max_username_length (byte_len username)
    then err (plain value_invalid)
    else if not (username_pattern username)
    then err (plain value_invalid)
    else ok username

unfoldable pub validate_password : Text → Bool
validate_password password = not (ltb (byte_len password) min_password_length)

unfoldable pub hash_password : Bcrypt → Text → Result Text
unfolding validate_password
hash_password bcrypt password =
    if validate_password password
    then bcrypt.generate_from_password password
    else err (plain value_invalid)

unfoldable pub verify_password : Bcrypt → Text → Text → Bool
verify_password bcrypt password_hash candidate =
    if is_empty (trim_space password_hash)
    then false
    else bcrypt.compare_hash_and_password password_hash candidate
