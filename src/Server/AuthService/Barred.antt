-- ===== src/Server/AuthService/Barred.antt =====
-- The requests that keep a name barred: no enabled user has it.
use grns.Base.{
  ℕ, ◌≡◌, refl, Bool, true, false, not, ◌&&◌, ◌||◌, List, [], ◌∷◌, Option, all, all-append,
  all-filter, ◌==◌, nat_eq, is_empty, any, arith, if-both,
}
use grns.Base.Text.{Text, text_eq, trim_space}
use grns.Errors.{Result, IfOk}
use grns.Errors.Laws.{IfOk-refuse, IfOk-after, IfOk-bind}
use grns.Models.{Time}
use grns.Auth.{normalize_username, hash_password}
use grns.Store.Auth.{
  AuthUser, UserRow, AuthDb, normalize_auth_username, create_admin_user_row, set_user_disabled_row,
  delete_user_row, insert_user, generate_auth_id,
}
use grns.Store.Auth.Rows.{is_barred, all-set_disabled-barred, set_disabled-barred, delete-barred}
use grns.Server.AuthService.{AuthService, create_admin_user}
use grns.Server.SessionTokens.{Crypto}
use grns.Server.AuthService.Users.{normalize_username-fixed}
use grns.Server.AuthService.Histories.{
  Request, log_in, log_out, check_required, add_user, switch_user, remove_user,
}

-- The request would let a user of the name in: it creates or enables one.
unfoldable pub admits : Text → Request → Bool
admits name (add_user random username password now) = normalize_auth_username username == name
admits name (switch_user username disabled now) =
    not disabled && (normalize_auth_username username == name)
admits name (log_in random id_random username password now) = false
admits name (log_out token now) = false
admits name (check_required api_token users now) = false
admits name (remove_user username) = false

-- No enabled user has the name.
unfoldable pub IsBarred : Text → AuthService → Type 0
IsBarred name a = all (is_barred name) a.db.users ≡ true

insert_user-barred :
    (name : Text) (row : UserRow) (db : AuthDb)
    → (row.username == name) ≡ false
    → all (is_barred name) db.users ≡ true
    → IfOk (λ d. all (is_barred name) d.users ≡ true) (insert_user row db)
unfolding insert_user is_barred
insert_user-barred name row db h b = ground (arith, all-append (is_barred name) db.users (row ∷ []))

create_admin_user_row-barred :
    (name : Text) (random : Result (List ℕ)) (username password_hash : Text) (now : Time)
    (db : AuthDb)
    → (normalize_auth_username username == name) ≡ false
    → all (is_barred name) db.users ≡ true
    → IfOk
        (λ d. all (is_barred name) d.1.users ≡ true)
        (create_admin_user_row random username password_hash now db)
unfolding create_admin_user_row
create_admin_user_row-barred name random username password_hash now db h b =
    let Barred = λ (d : AuthUser × AuthDb). all (is_barred name) d.1.users ≡ true in
    IfOk-refuse Barred
      (is_empty (normalize_auth_username username) || is_empty (trim_space password_hash)) _ _
      λ _. IfOk-after Barred (generate_auth_id _ random) _ λ id.
        IfOk-bind (λ (d : AuthDb). all (is_barred name) d.users ≡ true) Barred _ _
          (insert_user-barred name _ db h b) λ next kept. kept

pub create_admin_user-IsBarred :
    (crypto : Crypto) (name : Text) (random : Result (List ℕ)) (username password : Text)
    (now : Time) (a : AuthService)
    → (normalize_auth_username username == name) ≡ false
    → IsBarred name a
    → IfOk (λ d. IsBarred name d.1) (create_admin_user crypto random username password now a)
unfolding create_admin_user IsBarred
create_admin_user-IsBarred crypto name random username password now a h b =
    IfOk-bind (λ n. normalize_auth_username n ≡ normalize_auth_username username)
      (λ (d : AuthUser × AuthService). IsBarred name d.1) (normalize_username username) _
      (normalize_username-fixed username)
      λ n same.
        IfOk-after (λ (d : AuthUser × AuthService). IsBarred name d.1)
          (hash_password crypto.bcrypt password) _
          λ hash.
            IfOk-bind (λ (d : AuthUser × AuthDb). all (is_barred name) d.1.users ≡ true)
              (λ (d : AuthUser × AuthService). IsBarred name d.1) _ _
              (create_admin_user_row-barred name random n hash now a.db (rw same h) b)
              λ created kept. kept

pub set_user_disabled_row-barred :
    (name username : Text) (disabled : Bool) (now : Time) (db : AuthDb)
    → (not disabled && (normalize_auth_username username == name)) ≡ false
    → all (is_barred name) db.users ≡ true
    → all (is_barred name) (set_user_disabled_row username disabled now db).1.users ≡ true
unfolding set_user_disabled_row
set_user_disabled_row-barred name username disabled now db h b =
    let Barred = λ (r : Result (Option AuthUser) × AuthDb). all (is_barred name) r.1.users ≡ true in
    if-both Barred (is_empty (normalize_auth_username username)) _ _ (λ _. b)
      λ _.
        if-both Barred (any (λ u. u.username == normalize_auth_username username) db.users) _ _
          (λ _.
            set_disabled-barred name (normalize_auth_username username) disabled now db.users h b)
          λ _. b

absent-barred :
    (name : Text) (users : List UserRow)
    → any (λ u. u.username == name) users ≡ false
    → all (is_barred name) users ≡ true
unfolding is_barred
absent-barred name [] h = refl
absent-barred name (u ∷ us) h = ground (arith, absent-barred name us)

pub set_user_disabled_row-bars :
    (username : Text) (now : Time) (db : AuthDb)
    → is_empty (normalize_auth_username username) ≡ false
    → all
        (is_barred (normalize_auth_username username))
        (set_user_disabled_row username true now db).1.users
      ≡ true
unfolding set_user_disabled_row
set_user_disabled_row-bars username now db h =
    let name = normalize_auth_username username in
    let Barred = λ (r : Result (Option AuthUser) × AuthDb). all (is_barred name) r.1.users ≡ true in
    if-both Barred (is_empty name) _ _ (λ e. absurd (cc (e, h)))
      λ _.
        if-both Barred (any (λ u. u.username == name) db.users) _ _
          (λ _. all-set_disabled-barred name now db.users) λ e. absent-barred name db.users e

pub delete_user_row-barred :
    (name username : Text) (db : AuthDb)
    → all (is_barred name) db.users ≡ true
    → all (is_barred name) (delete_user_row username db).1.users ≡ true
unfolding delete_user_row
delete_user_row-barred name username db b =
    if-both (λ (r : Result Bool × AuthDb). all (is_barred name) r.1.users ≡ true)
      (is_empty (normalize_auth_username username)) _ _ (λ _. b)
      λ _. all-filter (is_barred name) _ db.users b

pub delete_user_row-bars :
    (username : Text) (db : AuthDb)
    → is_empty (normalize_auth_username username) ≡ false
    → all (is_barred (normalize_auth_username username)) (delete_user_row username db).1.users
      ≡ true
unfolding delete_user_row
delete_user_row-bars username db h =
    let name = normalize_auth_username username in
    if-both (λ (r : Result Bool × AuthDb). all (is_barred name) r.1.users ≡ true) (is_empty name) _
      _ (λ e. absurd (cc (e, h))) λ _. delete-barred name db.users
