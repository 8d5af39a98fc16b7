-- ===== src/Server/AuthService.antt =====
-- internal/server/auth_service.go: the service of local users and browser sessions, with its cached
-- answer whether there is an enabled user. The mutex covers the cache alone; the model takes each
-- method as one step. Durations are nanoseconds. SHA-256, bcrypt and the bytes of crypto/rand are
-- arguments. The nil service, which answers without a store, is not modelled.
pub mod Histories
pub mod Users
pub mod Barred
pub mod LockOut
pub mod StaysOut
pub mod Revoked
pub mod LogOut
pub mod Cache
pub mod Required
pub mod Tokens
pub mod Lookups
pub mod NewSession
use grns.Base.{
  ℕ, ◌+◌, ◌-◌, ◌*◌, ◌/◌, ◌%◌, Bool, true, false, not, ◌&&◌, ◌||◌, List, [], ◌∷◌, ◌++◌, Option, none,
  some, if◌then◌else◌, ◌==◌, nat_eq, ltb, is_empty,
}
use grns.Base.Text.{Text, trim_space}
use grns.Errors.{Error, Result, ok, err, plain, value_required, invalid_credentials, ◌>>=◌}
use grns.Models.{Time}
use grns.Auth.{Bcrypt, normalize_username, hash_password, verify_password}
use grns.Server.SessionTokens.{Crypto, hash_session_token, generate_session_token}
use grns.Store.Auth.{
  AuthUser, AuthDb, hex_encode, count_enabled_users, create_admin_user_row, get_user_by_username,
  list_users_rows, set_user_disabled_row, delete_user_row,
}
use grns.Store.Sessions.{
  create_session, get_user_by_session_token_hash, revoke_session_by_token_hash,
}

-- AuthService, with the tables of its store.
pub record AuthService : Type 0 where
  pub db : AuthDb
  pub session_ttl : ℕ
  pub enabled_users_cache_ttl : ℕ
  pub enabled_users_cached : Bool
  pub enabled_users_value : Bool
  pub enabled_users_cached_at : Time

-- authLoginResult
pub record LoginResult : Type 0 where
  pub user : AuthUser
  pub token : Text
  pub expires_at : Time

abbrev pub default_session_ttl : ℕ
default_session_ttl = 86400000000000

abbrev pub default_enabled_users_cache_ttl : ℕ
default_enabled_users_cache_ttl = 5000000000

unfoldable pub new_auth_service : AuthDb → AuthService
new_auth_service db = record {
  db = db;
  session_ttl = default_session_ttl;
  enabled_users_cache_ttl = default_enabled_users_cache_ttl;
  enabled_users_cached = false;
  enabled_users_value = false;
  enabled_users_cached_at = 0;
}

unfoldable pub cached_enabled_users : Time → AuthService → Option Bool × AuthService
cached_enabled_users now a =
    if a.enabled_users_cache_ttl == 0
    then (none, a)
    else if not a.enabled_users_cached
    then (none, a)
    else if ltb a.enabled_users_cache_ttl (now - a.enabled_users_cached_at)
    then (none, record a { enabled_users_cached = false })
    else (some a.enabled_users_value, a)

unfoldable pub set_cached_enabled_users : Time → Bool → AuthService → AuthService
set_cached_enabled_users now value a = if a.enabled_users_cache_ttl == 0 then a else record a {
  enabled_users_cached = true;
  enabled_users_value = value;
  enabled_users_cached_at = now;
}

unfoldable pub invalidate_auth_required_cache : AuthService → AuthService
invalidate_auth_required_cache a = record a {
  enabled_users_cached = false;
  enabled_users_value = false;
  enabled_users_cached_at = 0;
}

-- The answer of the cache, or else the count.
pub answer_required : Time → Option Bool × AuthService → Bool × AuthService
unfolding set_cached_enabled_users count_enabled_users
answer_required now (some value, a) = (value, a)
answer_required now (none, a) =
    let value = ltb 0 (count_enabled_users a.db) in (value, set_cached_enabled_users now value a)

unfoldable pub auth_required : Bool → Bool → Time → AuthService → Bool × AuthService
unfolding answer_required cached_enabled_users
auth_required api_token_configured require_auth_with_users now a =
    if api_token_configured
    then (true, a)
    else if not require_auth_with_users
    then (false, a)
    else answer_required now (cached_enabled_users now a)

-- The user of the name, if it may log in with the password.
unfoldable pub accepted_user : Crypto → Text → Option AuthUser → Result AuthUser
unfolding verify_password
accepted_user crypto password none = err (plain invalid_credentials)
accepted_user crypto password (some user) =
    if user.disabled || not (verify_password crypto.bcrypt user.password_hash password)
    then err (plain invalid_credentials)
    else ok user

-- Two draws: the token's 32 bytes, and the 10 of the session's id.
unfoldable pub open_session :
    Crypto
    → Result (List ℕ)
    → Result (List ℕ)
    → AuthUser
    → Time
    → AuthService
    → Result (LoginResult × AuthService)
unfolding generate_session_token hash_session_token create_session
open_session crypto random id_random user now a = do
  token ← generate_session_token random
  db ←
      create_session id_random user.id (hash_session_token crypto token) (now + a.session_ttl) now
        a.db
  ok (record { user = user; token = token; expires_at = now + a.session_ttl }, record a { db = db })

unfoldable pub login :
    Crypto
    → Result (List ℕ)
    → Result (List ℕ)
    → Text
    → Text
    → Time
    → AuthService
    → Result (LoginResult × AuthService)
unfolding normalize_username get_user_by_username accepted_user open_session
login crypto random id_random username password now a =
    normalize_username username >>= λ normalized.
    if is_empty (trim_space password)
    then err (plain value_required)
    else (get_user_by_username normalized a.db >>= λ found.
        accepted_user crypto password found >>= λ user.
        open_session crypto random id_random user now a)

unfoldable pub authenticate_session_token :
    Crypto → Text → Time → AuthService → Result (Option AuthUser)
unfolding get_user_by_session_token_hash hash_session_token
authenticate_session_token crypto raw now a =
    let token = trim_space raw in
    if is_empty token
    then ok none
    else get_user_by_session_token_hash (hash_session_token crypto token) now a.db

unfoldable pub revoke_session_token : Crypto → Text → Time → AuthService → AuthService
unfolding revoke_session_by_token_hash hash_session_token
revoke_session_token crypto raw now a =
    let token = trim_space raw in
    if is_empty token
    then a
    else record a { db = revoke_session_by_token_hash (hash_session_token crypto token) now a.db }

unfoldable pub create_admin_user :
    Crypto → Result (List ℕ) → Text → Text → Time → AuthService → Result (AuthUser × AuthService)
unfolding normalize_username hash_password create_admin_user_row invalidate_auth_required_cache
create_admin_user crypto random username password now a = do
  normalized ← normalize_username username
  password_hash ← hash_password crypto.bcrypt password
  created ← create_admin_user_row random normalized password_hash now a.db
  ok (created.0, invalidate_auth_required_cache (record a { db = created.1 }))

unfoldable pub list_users : AuthService → Result (List AuthUser)
unfolding list_users_rows
list_users a = list_users_rows a.db

-- After the statement: the cache is dropped if a user came back.
unfoldable pub after_set_disabled :
    AuthService → Result (Option AuthUser) → Result (Option AuthUser) × AuthService
unfolding invalidate_auth_required_cache
after_set_disabled a (err e) = (err e, a)
after_set_disabled a (ok none) = (ok none, a)
after_set_disabled a (ok (some user)) = (ok (some user), invalidate_auth_required_cache a)

unfoldable pub set_user_disabled :
    Text → Bool → Time → AuthService → Result (Option AuthUser) × AuthService
unfolding normalize_username set_user_disabled_row after_set_disabled
set_user_disabled username disabled now a = elim (normalize_username username) [
  | err e ↦ (err e, a)
  | ok normalized ↦
      let done = set_user_disabled_row normalized disabled now a.db in
      after_set_disabled (record a { db = done.1 }) done.0
]

unfoldable pub after_delete : AuthService → Result Bool → Result Bool × AuthService
unfolding invalidate_auth_required_cache
after_delete a (err e) = (err e, a)
after_delete a (ok deleted) = (ok deleted, if deleted then invalidate_auth_required_cache a else a)

unfoldable pub delete_user : Text → AuthService → Result Bool × AuthService
unfolding normalize_username delete_user_row after_delete
delete_user username a = elim (normalize_username username) [
  | err e ↦ (err e, a)
  | ok normalized ↦
      let done = delete_user_row normalized a.db in after_delete (record a { db = done.1 }) done.0
]
