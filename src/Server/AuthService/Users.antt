-- ===== src/Server/AuthService/Users.antt =====
-- Which users the methods of the auth service leave in the table.
use grns.Base.{
  ℕ, ◌≡◌, refl, ◌∙◌, Bool, true, false, not, List, Option, none, some, nat_eq, is_empty, arith, ltb,
}
use grns.Base.Text.{Text, text_eq, trim_space, to_lower, byte_len}
use grns.Errors.{Result, IfOk}
use grns.Errors.Laws.{IfOk-refuse, IfOk-after, IfOk-bind, IfOk-mono}
use grns.Models.{Time}
use grns.Auth.{normalize_username, username_pattern}
use grns.Store.Auth.{AuthUser, AuthDb, normalize_auth_username, get_user_by_username}
use grns.Store.Auth.Rows.{normalize_auth_username_idem, create_session-users}
use grns.Server.AuthService.{
  AuthService, LoginResult, login, auth_required, answer_required, cached_enabled_users,
  set_cached_enabled_users, open_session, accepted_user,
}
use grns.Server.SessionTokens.{Crypto, generate_session_token, hash_session_token}

-- What NormalizeUsername accepts is what the store normalizes a name to.
pub normalize_username-value :
    (raw : Text) → IfOk (λ name. name ≡ normalize_auth_username raw) (normalize_username raw)
unfolding normalize_username normalize_auth_username
normalize_username-value raw =
    IfOk-refuse (λ name. name ≡ normalize_auth_username raw) (is_empty (trim_space (to_lower raw)))
      _ _
      λ _.
        IfOk-refuse (λ name. name ≡ normalize_auth_username raw)
          (ltb 32 (byte_len (trim_space (to_lower raw)))) _ _
          λ _.
            IfOk-refuse (λ name. name ≡ normalize_auth_username raw)
              (not (username_pattern (trim_space (to_lower raw)))) _ _ λ _. refl

pub normalize_username-fixed :
    (raw : Text)
    → IfOk
        (λ name. normalize_auth_username name ≡ normalize_auth_username raw)
        (normalize_username raw)
normalize_username-fixed raw =
    IfOk-mono _ _ (normalize_username raw) (normalize_username-value raw)
      λ name e. rw e (normalize_auth_username_idem raw)

-- Such a name is its own normal form, and not empty.
pub normalize_username-canonical :
    (raw : Text)
    → IfOk
        (λ name. (normalize_auth_username name ≡ name) × (is_empty name ≡ false))
        (normalize_username raw)
unfolding normalize_username normalize_auth_username
normalize_username-canonical raw =
    let Canonical =
      λ (name : Text). (normalize_auth_username name ≡ name) × (is_empty name ≡ false) in
    let name = trim_space (to_lower raw) in
    IfOk-refuse Canonical (is_empty name) _ _ λ filled.
      IfOk-refuse Canonical (ltb 32 (byte_len name)) _ _
        λ _. IfOk-refuse Canonical (not (username_pattern name)) _ _ λ _. (fixed raw, filled)
  where
    fixed : (s : Text) → normalize_auth_username (trim_space (to_lower s)) ≡ trim_space (to_lower s)
    fixed s = normalize_auth_username_idem s

-- A login leaves the users and the cached answer as they are.
abbrev pub SameUsers : AuthService → LoginResult × AuthService → Type 0
SameUsers a done =
    (done.1.db.users ≡ a.db.users)
    × (done.1.enabled_users_cached ≡ a.enabled_users_cached)
    × (done.1.enabled_users_value ≡ a.enabled_users_value)

open_session-users :
    (crypto : Crypto) (random id_random : Result (List ℕ)) (user : AuthUser) (now : Time)
    (a : AuthService)
    → IfOk (SameUsers a) (open_session crypto random id_random user now a)
unfolding open_session
open_session-users crypto random id_random user now a =
    IfOk-after (SameUsers a) (generate_session_token random) _ λ token.
      IfOk-bind (λ (d : AuthDb). d.users ≡ a.db.users) (SameUsers a) _ _
        (create_session-users id_random user.id (hash_session_token crypto token) _ now a.db)
        λ db e. (e, refl, refl)

pub login-users :
    (crypto : Crypto) (random id_random : Result (List ℕ)) (username password : Text) (now : Time)
    (a : AuthService)
    → IfOk (SameUsers a) (login crypto random id_random username password now a)
unfolding login
login-users crypto random id_random username password now a =
    IfOk-after (SameUsers a) (normalize_username username) _ λ normalized.
      IfOk-refuse (SameUsers a) (is_empty (trim_space password)) _ _ λ _.
        IfOk-after (SameUsers a) (get_user_by_username normalized a.db) _ λ found.
          IfOk-after (SameUsers a) (accepted_user crypto password found) _
            λ user. open_session-users crypto random id_random user now a

set_cached-db :
    (now : Time) (value : Bool) (a : AuthService) → (set_cached_enabled_users now value a).db ≡ a.db
unfolding set_cached_enabled_users
set_cached-db now value a = ground arith

cached-db : (now : Time) (a : AuthService) → (cached_enabled_users now a).1.db ≡ a.db
unfolding cached_enabled_users
cached-db now a = ground arith

answer-db :
    (now : Time) (o : Option Bool) (a : AuthService) → (answer_required now (o, a)).1.db ≡ a.db
unfolding answer_required
answer-db now none a = set_cached-db now _ a
answer-db now (some value) a = refl

pub auth_required-db :
    (api_token users : Bool) (now : Time) (a : AuthService)
    → (auth_required api_token users now a).1.db ≡ a.db
unfolding auth_required
auth_required-db true users now a = refl
auth_required-db false false now a = refl
auth_required-db false true now a = answer-db now _ (cached_enabled_users now a).1 ∙ cached-db now a
