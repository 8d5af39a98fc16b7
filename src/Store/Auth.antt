-- ===== src/Store/Auth.antt =====
-- internal/store/auth.go, with the tables users and sessions of internal/store/migrations.go: their
-- keys, the reference from a session to its user and its check of the times. The bytes that
-- crypto/rand returns are an argument.
pub mod Rows
pub mod Readable
use grns.Base.{
  ℕ, ◌+◌, ◌/◌, ◌%◌, Bool, true, false, not, ◌&&◌, ◌||◌, List, [], ◌∷◌, ◌++◌, Option, none, some,
  map, if◌then◌else◌, ◌==◌, nat_eq, ltb, is_empty, any, filter, contains, length,
}
use grns.Base.Text.{Text, text_eq, codes, trim_space, to_lower, text_ltb}
use grns.Errors.{
  Result, ok, err, plain, value_required, value_invalid, unique_constraint, foreign_key_constraint,
  check_constraint, ◌>>=◌,
}
use grns.Models.{Time}
use grns.Store.Time.{DbTime, db_format_time, db_parse_time, db_before}
use grns.Store.Queries.{order_by}

pub record AuthUser : Type 0 where
  pub id : Text
  pub username : Text
  pub password_hash : Text
  pub role : Text
  pub disabled : Bool
  pub created_at : Time
  pub updated_at : Time

pub record UserRow : Type 0 where
  pub id : Text
  pub username : Text
  pub password_hash : Text
  pub role : Text
  pub disabled : Bool
  pub created_at : DbTime
  pub updated_at : DbTime

pub record SessionRow : Type 0 where
  pub id : Text
  pub user_id : Text
  pub token_hash : Text
  pub expires_at : DbTime
  pub revoked_at : Option DbTime
  pub created_at : DbTime

pub record AuthDb : Type 0 where
  pub users : List UserRow
  pub sessions : List SessionRow

abbrev pub user_role_admin : Text
user_role_admin = codes "admin"

unfoldable pub hex_digit : ℕ → ℕ
hex_digit n = if ltb n 10 then b'0' + n else b'a' + n % 10

-- hex.EncodeToString
unfoldable pub hex_encode : List ℕ → Text
unfolding hex_digit
hex_encode [] = []
hex_encode (b ∷ bs) = hex_digit (b / 16) ∷ hex_digit (b % 16) ∷ hex_encode bs

unfoldable pub generate_auth_id : Text → Result (List ℕ) → Result Text
unfolding hex_encode
generate_auth_id prefix random = random >>= λ buf. ok (prefix ++ b'-' ∷ hex_encode buf)

unfoldable pub normalize_auth_username : Text → Text
normalize_auth_username username = trim_space (to_lower username)

unfoldable pub find_first {ℓ} : {A : Type ℓ} → (A → Bool) → List A → Option A
find_first p [] = none
find_first p (a ∷ more) = let rest = find_first p more in if p a then some a else rest

unfoldable pub parsed {ℓ} : {A : Type ℓ} → Option A → Result A
parsed none = err (plain value_invalid)
parsed (some a) = ok a

unfoldable pub scan_user_row : UserRow → Result AuthUser
unfolding parsed
scan_user_row row = do
  created ← parsed (db_parse_time row.created_at)
  updated ← parsed (db_parse_time row.updated_at)
  ok (record {
    id = row.id;
    username = row.username;
    password_hash = row.password_hash;
    role = row.role;
    disabled = row.disabled;
    created_at = created;
    updated_at = updated;
  })

-- No row is no user, and no error.
unfoldable pub scan_auth_user : Option UserRow → Result (Option AuthUser)
unfolding scan_user_row
scan_auth_user none = ok none
scan_auth_user (some row) = scan_user_row row >>= λ user. ok (some user)

unfoldable pub count_enabled_users : AuthDb → ℕ
count_enabled_users db = length (filter (λ u. not u.disabled) db.users)

-- INSERT INTO users: both keys.
unfoldable pub insert_user : UserRow → AuthDb → Result AuthDb
insert_user row db =
    if contains (map (λ u. u.id) db.users) row.id
      || contains (map (λ u. u.username) db.users) row.username
    then err (plain unique_constraint)
    else ok (record db { users = db.users ++ row ∷ [] })

abbrev pub new_user_row : Text → Text → Text → Time → UserRow
new_user_row id username password_hash now = record {
  id = id;
  username = username;
  password_hash = password_hash;
  role = user_role_admin;
  disabled = false;
  created_at = db_format_time now;
  updated_at = db_format_time now;
}

abbrev pub new_user : Text → Text → Text → Time → AuthUser
new_user id username password_hash now = record {
  id = id;
  username = username;
  password_hash = password_hash;
  role = user_role_admin;
  disabled = false;
  created_at = now;
  updated_at = now;
}

unfoldable pub create_admin_user_row :
    Result (List ℕ) → Text → Text → Time → AuthDb → Result (AuthUser × AuthDb)
unfolding normalize_auth_username generate_auth_id insert_user
create_admin_user_row random username password_hash now db =
    let name = normalize_auth_username username in
    if is_empty name || is_empty (trim_space password_hash)
    then err (plain value_required)
    else (generate_auth_id (codes "au") random >>= λ id.
        insert_user (new_user_row id name password_hash now) db >>= λ next.
        ok (new_user id name password_hash now, next))

unfoldable pub get_user_by_username : Text → AuthDb → Result (Option AuthUser)
unfolding normalize_auth_username scan_auth_user find_first
get_user_by_username username db =
    let name = normalize_auth_username username in
    if is_empty name
    then ok none
    else scan_auth_user (find_first (λ u. u.username == name) db.users)

unfoldable pub get_user_by_id : Text → AuthDb → Result (Option AuthUser)
unfolding scan_auth_user find_first
get_user_by_id id db =
    let key = trim_space id in
    if is_empty key then ok none else scan_auth_user (find_first (λ u. u.id == key) db.users)

unfoldable pub scan_all : List UserRow → Result (List AuthUser)
unfolding scan_user_row
scan_all [] = ok []
scan_all (row ∷ rows) = do user ← scan_user_row row; rest ← scan_all rows; ok (user ∷ rest)

unfoldable pub list_users_rows : AuthDb → Result (List AuthUser)
unfolding scan_all
list_users_rows db = scan_all (order_by (λ a b. text_ltb a.username b.username) db.users)

unfoldable pub set_disabled : Text → Bool → Time → List UserRow → List UserRow
set_disabled name disabled now [] = []
set_disabled name disabled now (u ∷ us) =
    (if u.username == name
      then record u { disabled = disabled; updated_at = db_format_time now }
      else u)
    ∷ set_disabled name disabled now us

-- The statement has run when the row is read back, so the tables are returned beside an error.
unfoldable pub set_user_disabled_row :
    Text → Bool → Time → AuthDb → Result (Option AuthUser) × AuthDb
unfolding normalize_auth_username set_disabled get_user_by_username
set_user_disabled_row username disabled now db =
    let name = normalize_auth_username username in
    let next = record db { users = set_disabled name disabled now db.users } in
    if is_empty name
    then (err (plain value_required), db)
    else if any (λ u. u.username == name) db.users
    then (get_user_by_username name next, next)
    else (ok none, db)

-- DELETE FROM users: the sessions of the deleted go with them (ON DELETE CASCADE).
unfoldable pub delete_user_row : Text → AuthDb → Result Bool × AuthDb
unfolding normalize_auth_username
delete_user_row username db =
    let name = normalize_auth_username username in
    let gone = map (λ u. u.id) (filter (λ u. u.username == name) db.users) in
    if is_empty name then (err (plain value_required), db) else (
      ok (any (λ u. u.username == name) db.users),
      record {
        users = filter (λ u. not (u.username == name)) db.users;
        sessions = filter (λ s. not (contains gone s.user_id)) db.sessions;
      },
    )
