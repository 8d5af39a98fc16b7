-- ===== src/Server/AuthService/LogOut.antt =====
-- A session token that was revoked never authenticates again.
use grns.Base.{
  ℕ, ◌≡◌, refl, sym, ap, ◌∙◌, Bool, true, false, not, ◌||◌, List, Option, none, all, nat_eq,
  is_empty, arith, inl, inr, if-both,
}
use grns.Base.Text.{Text, text_eq, trim_space}
use grns.Errors.{Result, ok, IfOk}
use grns.Errors.Laws.{IfOk-refuse, IfOk-after, IfOk-bind, Result-cases}
use grns.Models.{Time}
use grns.Auth.{normalize_username, hash_password}
use grns.Store.Auth.{
  AuthUser, AuthDb, generate_auth_id, create_admin_user_row, scan_auth_user, get_user_by_username,
  normalize_auth_username,
}
use grns.Store.Sessions.{revoke_session_by_token_hash, first_row, get_user_by_session_token_hash}
use grns.Server.AuthService.{
  AuthService, LoginResult, login, set_user_disabled, delete_user, create_admin_user,
  revoke_session_token, authenticate_session_token, open_session, accepted_user,
}
use grns.Server.SessionTokens.{Crypto, hash_session_token, generate_session_token}
use grns.Server.AuthService.Users.{auth_required-db}
use grns.Server.AuthService.LockOut.{
  set_user_disabled-db, delete_user-db, set_user_disabled-err, delete_user-err,
}
use grns.Server.AuthService.Histories.{
  Request, log_in, log_out, check_required, add_user, switch_user, remove_user, serve, serve_all,
  serve_all-keeps, state_or-keeps,
}
use grns.Server.AuthService.Revoked.{
  revoke_session-dead, revoke_session-kills, session_users-dead, create_session-dead,
  insert_user-sessions, set_user_disabled_row-sessions, delete_user_row-dead, hashes_to-false,
  is_dead, draws, issues,
}

module _ (crypto : Crypto) (hash : Text) where
  unfoldable IsDead : AuthService → Type 0
  IsDead a = all (is_dead hash) a.db.sessions ≡ true

  same_sessions : (a b : AuthService) → b.db.sessions ≡ a.db.sessions → IsDead a → IsDead b
  unfolding IsDead
  same_sessions a b e h = ap (all (is_dead hash)) e ∙ h

  open_session-IsDead :
      (random id_random : Result (List ℕ)) (user : AuthUser) (now : Time) (a : AuthService)
      → draws crypto hash random ≡ false
      → IsDead a
      → IfOk (λ d. IsDead d.1) (open_session crypto random id_random user now a)
  unfolding open_session IsDead draws
  open_session-IsDead random id_random user now a d h =
      let Dead = λ (d : LoginResult × AuthService). IsDead d.1 in
      IfOk-bind _ Dead (generate_session_token random) _ (hashes_to-false crypto hash _ d)
        λ token new.
          IfOk-bind (λ (d : AuthDb). all (is_dead hash) d.sessions ≡ true) Dead _ _
            (create_session-dead hash id_random user.id (hash_session_token crypto token) _ now a.db
              new h)
            λ db kept. kept

  login-IsDead :
      (random id_random : Result (List ℕ)) (username password : Text) (now : Time) (a : AuthService)
      → draws crypto hash random ≡ false
      → IsDead a
      → IfOk (λ d. IsDead d.1) (login crypto random id_random username password now a)
  unfolding login
  login-IsDead random id_random username password now a d h =
      let Dead = λ (d : LoginResult × AuthService). IsDead d.1 in
      IfOk-after Dead (normalize_username username) _ λ normalized.
        IfOk-refuse Dead (is_empty (trim_space password)) _ _ λ _.
          IfOk-after Dead (get_user_by_username normalized a.db) _ λ found.
            IfOk-after Dead (accepted_user crypto password found) _
              λ user. open_session-IsDead random id_random user now a d h

  create_admin_user-IsDead :
      (random : Result (List ℕ)) (username password : Text) (now : Time) (a : AuthService)
      → IsDead a
      → IfOk (λ d. IsDead d.1) (create_admin_user crypto random username password now a)
  unfolding create_admin_user create_admin_user_row IsDead
  create_admin_user-IsDead random username password now a h =
      let Dead = λ (d : AuthUser × AuthService). IsDead d.1 in
      let Same = λ (d : AuthUser × AuthDb). d.1.sessions ≡ a.db.sessions in
      IfOk-after Dead (normalize_username username) _ λ n.
        IfOk-after Dead (hash_password crypto.bcrypt password) _ λ password_hash.
          IfOk-bind Same Dead (create_admin_user_row random n password_hash now a.db) _
            (IfOk-refuse Same
              (is_empty (normalize_auth_username n) || is_empty (trim_space password_hash)) _ _
              λ _. IfOk-after Same (generate_auth_id _ random) _ λ id.
                IfOk-bind (λ (d : AuthDb). d.sessions ≡ a.db.sessions) Same _ _
                  (insert_user-sessions _ a.db) λ next e. e)
            λ created e. ap (all (is_dead hash)) e ∙ h

  switch-IsDead :
      (username : Text) (disabled : Bool) (now : Time) (a : AuthService)
      → IsDead a
      → IsDead (set_user_disabled username disabled now a).1
  switch-IsDead username disabled now a h = elim (Result-cases (normalize_username username)) [
    | inr (n, e) ↦
        same_sessions a _
          (ap (λ (d : AuthDb). d.sessions) (set_user_disabled-db username n disabled now a e)
            ∙ set_user_disabled_row-sessions n disabled now a.db)
          h
    | inl (f, e) ↦ rw (set_user_disabled-err username disabled now a f e) h
  ]

  remove-IsDead : (username : Text) (a : AuthService) → IsDead a → IsDead (delete_user username a).1
  unfolding IsDead
  remove-IsDead username a h = elim (Result-cases (normalize_username username)) [
    | inr (n, e) ↦ rw (delete_user-db username n a e) (delete_user_row-dead hash n a.db h)
    | inl (f, e) ↦ rw (delete_user-err username a f e) h
  ]

  log_out-IsDead :
      (token : Text) (now : Time) (a : AuthService)
      → IsDead a
      → IsDead (revoke_session_token crypto token now a)
  unfolding IsDead revoke_session_token revoke_session_by_token_hash
  log_out-IsDead token now a h =
      let other = trim_space (hash_session_token crypto (trim_space token)) in
      if-both IsDead (is_empty (trim_space token)) _ _ (λ _. h)
        λ _.
          if-both (λ (d : AuthDb). all (is_dead hash) d.sessions ≡ true) (is_empty other) _ _
            (λ _. h) λ _. revoke_session-dead hash other now a.db.sessions h

  serve-IsDead :
      (a : AuthService) (r : Request)
      → not (issues crypto hash r) ≡ true
      → IsDead a
      → IsDead (serve crypto a r)
  unfolding serve issues
  serve-IsDead a (log_in random id_random username password now) d h =
      state_or-keeps IsDead a _
        (login-IsDead random id_random username password now a (ground arith) h) h
  serve-IsDead a (log_out token now) d h = log_out-IsDead token now a h
  serve-IsDead a (check_required api_token users now) d h =
      same_sessions a _ (ap (λ (d : AuthDb). d.sessions) (auth_required-db api_token users now a)) h
  serve-IsDead a (add_user random username password now) d h =
      state_or-keeps IsDead a _ (create_admin_user-IsDead random username password now a h) h
  serve-IsDead a (switch_user username disabled now) d h = switch-IsDead username disabled now a h
  serve-IsDead a (remove_user username) d h = remove-IsDead username a h

  revoke-kills :
      (token : Text) (now : Time) (a : AuthService)
      → trim_space (hash_session_token crypto (trim_space token)) ≡ hash
      → is_empty (trim_space token) ≡ false
      → is_empty hash ≡ false
      → IsDead (revoke_session_token crypto token now a)
  unfolding IsDead revoke_session_token revoke_session_by_token_hash
  revoke-kills token now a e t h =
      if-both IsDead (is_empty (trim_space token)) _ _ (λ b. absurd (cc (b, t)))
        λ _.
          if-both (λ (d : AuthDb). all (is_dead hash) d.sessions ≡ true)
            (is_empty (trim_space (hash_session_token crypto (trim_space token)))) _ _
            (λ b. absurd (cc (b, h, e))) λ _. rw e (revoke_session-kills hash now a.db.sessions)

  authenticate-dead :
      (token : Text) (now : Time) (a : AuthService)
      → trim_space (hash_session_token crypto (trim_space token)) ≡ hash
      → (is_empty (trim_space token) ≡ false → is_empty hash ≡ false → IsDead a)
      → authenticate_session_token crypto token now a ≡ ok none
  unfolding IsDead authenticate_session_token get_user_by_session_token_hash scan_auth_user
      first_row
  authenticate-dead token now a e h =
      let IsNone = λ (r : Result (Option AuthUser)). r ≡ ok none in
      if-both IsNone (is_empty (trim_space token)) _ _ (λ _. refl)
        λ t.
          if-both IsNone (is_empty (trim_space (hash_session_token crypto (trim_space token)))) _ _
            (λ _. refl)
            λ b. rw e (
              ap (λ l. scan_auth_user (first_row l))
                (session_users-dead hash now a.db.sessions a.db.users
                  (h t (ap is_empty (sym e) ∙ b))))

-- Once a session token was revoked, it authenticates nobody, whatever requests are served in
-- between, as long as no login of them draws a token with the same SHA-256.
pub revoked_stays_revoked :
    (crypto : Crypto) (token : Text) (at now : Time) (requests : List Request) (a : AuthService)
    → all
        (λ r. not (issues crypto (trim_space (hash_session_token crypto (trim_space token))) r))
        requests
      ≡ true
    → authenticate_session_token crypto token now
        (serve_all crypto requests (revoke_session_token crypto token at a))
      ≡ ok none
revoked_stays_revoked crypto token at now requests a quiet =
    let hash = trim_space (hash_session_token crypto (trim_space token)) in
    authenticate-dead crypto hash token now _ refl λ t b.
      serve_all-keeps crypto (IsDead crypto hash) (λ r. not (issues crypto hash r))
        (serve-IsDead crypto hash) requests (revoke_session_token crypto token at a) quiet
        (revoke-kills crypto hash token at a refl t b)
