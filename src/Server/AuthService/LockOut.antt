-- ===== src/Server/AuthService/LockOut.antt =====
-- A user who was disabled or deleted stays out.
use grns.Base.{
  ◌≡◌, refl, ap, ◌∙◌, Bool, true, false, not, ◌&&◌, Option, none, some, all, ◌==◌, nat_eq, arith,
  inl, inr,
}
use grns.Base.Text.{Text, text_eq}
use grns.Errors.{Result, Error, ok, err}
use grns.Errors.Laws.{IfOk-mono, IfOk-apply, Result-cases}
use grns.Models.{Time}
use grns.Auth.{normalize_username}
use grns.Store.Auth.{
  AuthUser, AuthDb, normalize_auth_username, set_user_disabled_row, delete_user_row,
}
use grns.Store.Sessions.{revoke_session_by_token_hash}
use grns.Store.Auth.Rows.{is_barred}
use grns.Server.AuthService.{
  AuthService, LoginResult, revoke_session_token, set_user_disabled, delete_user,
  after_set_disabled, after_delete,
}
use grns.Server.SessionTokens.{Crypto}
use grns.Server.AuthService.Users.{
  normalize_username-fixed, SameUsers, login-users, auth_required-db,
}
use grns.Server.AuthService.Barred.{
  admits, IsBarred, create_admin_user-IsBarred, set_user_disabled_row-barred,
  delete_user_row-barred,
}
use grns.Server.AuthService.Histories.{
  Request, log_in, log_out, check_required, add_user, switch_user, remove_user, serve,
  state_or-keeps,
}

after_set_disabled-db :
    (a : AuthService) (r : Result (Option AuthUser)) → (after_set_disabled a r).1.db ≡ a.db
unfolding after_set_disabled
after_set_disabled-db a (err e) = refl
after_set_disabled-db a (ok none) = refl
after_set_disabled-db a (ok (some user)) = refl

after_delete-db : (a : AuthService) (r : Result Bool) → (after_delete a r).1.db ≡ a.db
unfolding after_delete
after_delete-db a (err e) = refl
after_delete-db a (ok true) = refl
after_delete-db a (ok false) = refl

-- The two methods on a name that is accepted.
pub set_user_disabled-ok :
    (username name : Text) (disabled : Bool) (now : Time) (a : AuthService)
    → normalize_username username ≡ ok name
    → (set_user_disabled username disabled now a).1
      ≡ (after_set_disabled
          (record a { db = (set_user_disabled_row name disabled now a.db).1 })
          (set_user_disabled_row name disabled now a.db).0).1
unfolding set_user_disabled
set_user_disabled-ok username name disabled now a h = rw (h, set_user_disabled) refl

pub delete_user-ok :
    (username name : Text) (a : AuthService)
    → normalize_username username ≡ ok name
    → (delete_user username a).1
      ≡ (after_delete
          (record a { db = (delete_user_row name a.db).1 })
          (delete_user_row name a.db).0).1
unfolding delete_user
delete_user-ok username name a h = rw (h, delete_user) refl

-- The tables after the two methods that take a user's access away, or give it back.
pub set_user_disabled-db :
    (username name : Text) (disabled : Bool) (now : Time) (a : AuthService)
    → normalize_username username ≡ ok name
    → (set_user_disabled username disabled now a).1.db
      ≡ (set_user_disabled_row name disabled now a.db).1
unfolding set_user_disabled
set_user_disabled-db username name disabled now a h =
    rw (h, set_user_disabled) (after_set_disabled-db _ _)

pub delete_user-db :
    (username name : Text) (a : AuthService)
    → normalize_username username ≡ ok name
    → (delete_user username a).1.db ≡ (delete_user_row name a.db).1
unfolding delete_user
delete_user-db username name a h = rw (h, delete_user) (after_delete-db _ _)

pub set_user_disabled-err :
    (username : Text) (disabled : Bool) (now : Time) (a : AuthService) (e : Error)
    → normalize_username username ≡ err e
    → (set_user_disabled username disabled now a).1 ≡ a
unfolding set_user_disabled
set_user_disabled-err username disabled now a e h = rw (h, set_user_disabled) refl

pub delete_user-err :
    (username : Text) (a : AuthService) (e : Error)
    → normalize_username username ≡ err e
    → (delete_user username a).1 ≡ a
unfolding delete_user
delete_user-err username a e h = rw (h, delete_user) refl

revoke_session_token-users :
    (crypto : Crypto) (token : Text) (now : Time) (a : AuthService)
    → (revoke_session_token crypto token now a).db.users ≡ a.db.users
unfolding revoke_session_token revoke_session_by_token_hash
revoke_session_token-users crypto token now a = ground arith

module _ (name : Text) where
  same_users : (a b : AuthService) → b.db.users ≡ a.db.users → IsBarred name a → IsBarred name b
  unfolding IsBarred
  same_users a b e h = ap (all (is_barred name)) e ∙ h

  switch-IsBarred :
      (username : Text) (disabled : Bool) (now : Time) (a : AuthService)
      → (not disabled && (normalize_auth_username username == name)) ≡ false
      → IsBarred name a
      → IsBarred name (set_user_disabled username disabled now a).1
  unfolding IsBarred
  switch-IsBarred username disabled now a h b = elim (Result-cases (normalize_username username)) [
    | inr (n, e) ↦
        let same =
          IfOk-apply _ (normalize_username username) n e (normalize_username-fixed username) in
        rw (set_user_disabled-db username n disabled now a e)
          (set_user_disabled_row-barred name n disabled now a.db (rw same h) b)
    | inl (f, e) ↦ rw (set_user_disabled-err username disabled now a f e) b
  ]

  remove-IsBarred :
      (username : Text) (a : AuthService)
      → IsBarred name a
      → IsBarred name (delete_user username a).1
  unfolding IsBarred
  remove-IsBarred username a b = elim (Result-cases (normalize_username username)) [
    | inr (n, e) ↦ rw (delete_user-db username n a e) (delete_user_row-barred name n a.db b)
    | inl (f, e) ↦ rw (delete_user-err username a f e) b
  ]

  pub serve-IsBarred :
      (crypto : Crypto) (a : AuthService) (r : Request)
      → not (admits name r) ≡ true
      → IsBarred name a
      → IsBarred name (serve crypto a r)
  unfolding serve admits
  serve-IsBarred crypto a (log_in random id_random username password now) h b =
      state_or-keeps (IsBarred name) a _
        (IfOk-mono (SameUsers a) _ _ (login-users crypto random id_random username password now a)
          λ (d : LoginResult × AuthService) e. same_users a d.1 e.0 b)
        b
  serve-IsBarred crypto a (log_out token now) h b =
      same_users a _ (revoke_session_token-users crypto token now a) b
  serve-IsBarred crypto a (check_required api_token users now) h b =
      same_users a _ (ap (λ (d : AuthDb). d.users) (auth_required-db api_token users now a)) b
  serve-IsBarred crypto a (add_user random username password now) h b =
      state_or-keeps (IsBarred name) a _
        (create_admin_user-IsBarred crypto name random username password now a (ground arith) b) b
  serve-IsBarred crypto a (switch_user username disabled now) h b =
      switch-IsBarred username disabled now a (ground arith) b
  serve-IsBarred crypto a (remove_user username) h b = remove-IsBarred username a b
