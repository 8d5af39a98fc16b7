-- ===== src/Server/AuthService/Revoked.antt =====
-- Rows of revoked sessions, through the statements, and the tokens that a login draws.
use grns.Base.{
  ℕ, ◌≡◌, refl, Bool, true, false, not, ◌||◌, List, [], ◌∷◌, Option, all, all-append, all-filter,
  ◌==◌, nat_eq, is_empty, any, arith, if-both, map,
}
use grns.Base.Text.{Text, text_eq, trim_space}
use grns.Errors.{Result, ok, err, IfOk}
use grns.Errors.Laws.{IfOk-refuse, IfOk-after}
use grns.Models.{Time}
use grns.Store.Auth.{
  AuthUser, UserRow, SessionRow, AuthDb, generate_auth_id, set_user_disabled_row, delete_user_row,
  insert_user, normalize_auth_username,
}
use grns.Store.Sessions.{
  is_revoked, is_active, revoke_session, create_session, insert_session, session_users,
}
use grns.Server.SessionTokens.{Crypto, hash_session_token, generate_session_token}
use grns.Server.AuthService.Histories.{
  Request, log_in, log_out, check_required, add_user, switch_user, remove_user,
}

-- The session is another one, or is revoked.
unfoldable pub is_dead : Text → SessionRow → Bool
is_dead hash s = not (s.token_hash == hash) || is_revoked s

pub revoke_session-dead :
    (hash other : Text) (now : Time) (sessions : List SessionRow)
    → all (is_dead hash) sessions ≡ true
    → all (is_dead hash) (map (revoke_session other now) sessions) ≡ true
unfolding is_dead revoke_session is_revoked
revoke_session-dead hash other now [] h = refl
revoke_session-dead hash other now (s ∷ ss) h =
    ground (arith, revoke_session-dead hash other now ss)

pub revoke_session-kills :
    (hash : Text) (now : Time) (sessions : List SessionRow)
    → all (is_dead hash) (map (revoke_session hash now) sessions) ≡ true
unfolding is_dead revoke_session is_revoked
revoke_session-kills hash now [] = refl
revoke_session-kills hash now (s ∷ ss) = ground (arith, revoke_session-kills hash now ss)

pub session_users-dead :
    (hash : Text) (now : Time) (sessions : List SessionRow) (users : List UserRow)
    → all (is_dead hash) sessions ≡ true
    → session_users hash now sessions users ≡ []
unfolding is_dead session_users is_active
session_users-dead hash now [] users h = refl
session_users-dead hash now (s ∷ ss) users h = ground (arith, session_users-dead hash now ss users)

insert_session-dead :
    (hash : Text) (row : SessionRow) (db : AuthDb)
    → (row.token_hash == hash) ≡ false
    → all (is_dead hash) db.sessions ≡ true
    → IfOk (λ d. all (is_dead hash) d.sessions ≡ true) (insert_session row db)
unfolding insert_session is_dead
insert_session-dead hash row db h b =
    ground (arith, all-append (is_dead hash) db.sessions (row ∷ []))

pub insert_user-sessions :
    (row : UserRow) (db : AuthDb) → IfOk (λ d. d.sessions ≡ db.sessions) (insert_user row db)
unfolding insert_user
insert_user-sessions row db = ground arith

pub set_user_disabled_row-sessions :
    (username : Text) (disabled : Bool) (now : Time) (db : AuthDb)
    → (set_user_disabled_row username disabled now db).1.sessions ≡ db.sessions
unfolding set_user_disabled_row
set_user_disabled_row-sessions username disabled now db =
    let Same = λ (r : Result (Option AuthUser) × AuthDb). r.1.sessions ≡ db.sessions in
    if-both Same (is_empty (normalize_auth_username username)) _ _ (λ _. refl)
      λ _.
        if-both Same (any (λ u. u.username == normalize_auth_username username) db.users) _ _
          (λ _. refl) λ _. refl

pub delete_user_row-dead :
    (hash username : Text) (db : AuthDb)
    → all (is_dead hash) db.sessions ≡ true
    → all (is_dead hash) (delete_user_row username db).1.sessions ≡ true
unfolding delete_user_row
delete_user_row-dead hash username db h =
    if-both (λ (r : Result Bool × AuthDb). all (is_dead hash) r.1.sessions ≡ true)
      (is_empty (normalize_auth_username username)) _ _ (λ _. h)
      λ _. all-filter (is_dead hash) _ db.sessions h

pub hashes_to : Crypto → Text → Result Text → Bool
hashes_to crypto hash (ok token) = trim_space (hash_session_token crypto token) == hash
hashes_to crypto hash (err e) = false

pub hashes_to-false :
    (crypto : Crypto) (hash : Text) (r : Result Text)
    → hashes_to crypto hash r ≡ false
    → IfOk (λ token. (trim_space (hash_session_token crypto token) == hash) ≡ false) r
unfolding hashes_to
hashes_to-false crypto hash (ok token) h = h
hashes_to-false crypto hash (err e) h = tt

-- The bytes that are drawn for a token make one with the hash.
unfoldable pub draws : Crypto → Text → Result (List ℕ) → Bool
unfolding hashes_to
draws crypto hash random = hashes_to crypto hash (generate_session_token random)

unfoldable pub issues : Crypto → Text → Request → Bool
unfolding draws
issues crypto hash (log_in random id_random username password now) = draws crypto hash random
issues crypto hash (log_out token now) = false
issues crypto hash (check_required api_token users now) = false
issues crypto hash (add_user random username password now) = false
issues crypto hash (switch_user username disabled now) = false
issues crypto hash (remove_user username) = false

pub create_session-dead :
    (hash : Text) (random : Result (List ℕ)) (user_id token_hash : Text)
    (expires_at created_at : Time) (db : AuthDb)
    → (trim_space token_hash == hash) ≡ false
    → all (is_dead hash) db.sessions ≡ true
    → IfOk
        (λ d. all (is_dead hash) d.sessions ≡ true)
        (create_session random user_id token_hash expires_at created_at db)
unfolding create_session
create_session-dead hash random user_id token_hash expires_at created_at db h b =
    let Dead = λ (d : AuthDb). all (is_dead hash) d.sessions ≡ true in
    IfOk-refuse Dead (is_empty (trim_space user_id) || is_empty (trim_space token_hash)) _ _
      λ _. IfOk-after Dead (generate_auth_id _ random) _ λ id. insert_session-dead hash _ db h b
