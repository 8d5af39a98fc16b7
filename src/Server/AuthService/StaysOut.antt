-- ===== src/Server/AuthService/StaysOut.antt =====
-- A user who was disabled or deleted stays out.
use grns.Base.{
  ℕ, ◌≡◌, refl, sym, ap, ◌∙◌, Bool, true, false, not, ◌&&◌, ◌||◌, List, [], ◌∷◌, Option, none, some,
  all, ◌==◌, nat_eq, is_empty, arith, if-both,
}
use grns.Base.Text.{Text, text_eq, trim_space}
use grns.Errors.{Result, ok, IfOk}
use grns.Errors.Laws.{IfOk-refuse, IfOk-after, IfOk-bind, IfOk-mono, IfOk-apply}
use grns.Models.{Time}
use grns.Auth.{normalize_username}
use grns.Store.Auth.{
  AuthUser, UserRow, normalize_auth_username, scan_auth_user, scan_user_row, get_user_by_username,
  find_first,
}
use grns.Store.Sessions.{first_row, session_users, get_user_by_session_token_hash, create_session}
use grns.Store.Auth.Rows.{is_barred, scan_user_row-fields, session_users-all}
use grns.Server.AuthService.{
  AuthService, LoginResult, login, set_user_disabled, delete_user, authenticate_session_token,
  open_session, accepted_user,
}
use grns.Server.SessionTokens.{Crypto, hash_session_token, generate_session_token}
use grns.Server.AuthService.Users.{normalize_username-canonical}
use grns.Server.AuthService.Barred.{
  admits, IsBarred, set_user_disabled_row-bars, delete_user_row-bars,
}
use grns.Server.AuthService.LockOut.{set_user_disabled-db, delete_user-db, serve-IsBarred}
use grns.Server.AuthService.Histories.{Request, serve_all, serve_all-keeps}

abbrev fits {ℓ} : {A : Type ℓ} → (A → Bool) → Option A → Bool
fits p none = true
fits p (some a) = p a

first_row-fits {ℓ} :
    {A : Type ℓ} (p : A → Bool) (l : List A) → all p l ≡ true → fits p (first_row l) ≡ true
unfolding first_row
first_row-fits p [] h = refl
first_row-fits p (a ∷ l) h = ground arith

find_first-fits {ℓ} :
    {A : Type ℓ} (p q : A → Bool) (l : List A) → all p l ≡ true → fits p (find_first q l) ≡ true
unfolding find_first
find_first-fits p q [] h = refl
find_first-fits p q (a ∷ l) h = ground (arith, find_first-fits p q l)

-- What holds of the name and the state of a row, holds of what is scanned from it.
scan_auth_user-fits :
    (p : Text → Bool → Bool) (row : Option UserRow)
    → fits (λ (r : UserRow). p r.username r.disabled) row ≡ true
    → IfOk (λ o. fits (λ (u : AuthUser). p u.username u.disabled) o ≡ true) (scan_auth_user row)
unfolding scan_auth_user
scan_auth_user-fits p none h = refl
scan_auth_user-fits p (some row) h =
    IfOk-bind (λ (u : AuthUser). (u.username ≡ row.username) × (u.disabled ≡ row.disabled)) _
      (scan_user_row row) _ (scan_user_row-fields row) λ u same. rw same.0 (rw same.1 h)

accepted_user-out :
    (crypto : Crypto) (password name : Text) (o : Option AuthUser)
    → fits (λ u. not (u.username == name) || u.disabled) o ≡ true
    → IfOk (λ u. (u.username == name) ≡ false) (accepted_user crypto password o)
unfolding accepted_user
accepted_user-out crypto password name none h = tt
accepted_user-out crypto password name (some u) h = ground arith

pub open_session-user :
    (crypto : Crypto) (random id_random : Result (List ℕ)) (user : AuthUser) (now : Time)
    (a : AuthService)
    → IfOk (λ d. d.0.user ≡ user) (open_session crypto random id_random user now a)
unfolding open_session
open_session-user crypto random id_random user now a =
    let Own = λ (d : LoginResult × AuthService). d.0.user ≡ user in
    IfOk-after Own (generate_session_token random) _ λ token.
      IfOk-after Own (create_session id_random user.id (hash_session_token crypto token) _ now a.db)
        _ λ db. refl

-- No user of the name.
abbrev pub IsOther : Text → Option AuthUser → Type 0
IsOther name o = fits (λ u. not (u.username == name)) o ≡ true

module _ (crypto : Crypto) (name : Text) (a : AuthService) (b : IsBarred name a) where
  authenticate-out :
      (token : Text) (now : Time)
      → IfOk (IsOther name) (authenticate_session_token crypto token now a)
  unfolding authenticate_session_token get_user_by_session_token_hash IsBarred is_barred
  authenticate-out token now =
      let hash = hash_session_token crypto (trim_space token) in
      let rows = session_users (trim_space hash) now a.db.sessions a.db.users in
      if-both (IfOk (IsOther name)) (is_empty (trim_space token)) _ _ (λ _. refl)
        λ _.
          if-both (IfOk (IsOther name)) (is_empty (trim_space hash)) _ _ (λ _. refl)
            λ _.
              IfOk-mono _ _ (scan_auth_user (first_row rows))
                (scan_auth_user-fits (λ x d. (not (x == name) || d) && not d) (first_row rows)
                  (first_row-fits _ rows (
                    session_users-all (is_barred name) (trim_space hash) now a.db.sessions
                      a.db.users b)))
                other
    where
      other :
          (o : Option AuthUser)
          → fits (λ (u : AuthUser). (not (u.username == name) || u.disabled) && not u.disabled) o
            ≡ true
          → IsOther name o
      other none h = refl
      other (some u) h = ground arith

  get_user_by_username-out :
      (username : Text)
      → IfOk
          (λ o. fits (λ u. not (u.username == name) || u.disabled) o ≡ true)
          (get_user_by_username username a.db)
  unfolding get_user_by_username IsBarred is_barred
  get_user_by_username-out username =
      if-both
        (IfOk
          (λ (o : Option AuthUser). fits (λ u. not (u.username == name) || u.disabled) o ≡ true))
        (is_empty (normalize_auth_username username)) _ _ (λ _. refl)
        λ _.
          scan_auth_user-fits (λ x d. not (x == name) || d) _
            (find_first-fits (is_barred name) _ a.db.users b)

  login-out :
      (random id_random : Result (List ℕ)) (username password : Text) (now : Time)
      → IfOk
          (λ d. (d.0.user.username == name) ≡ false)
          (login crypto random id_random username password now a)
  unfolding login
  login-out random id_random username password now =
      let Other = λ (d : LoginResult × AuthService). (d.0.user.username == name) ≡ false in
      IfOk-after Other (normalize_username username) _ λ normalized.
        IfOk-refuse Other (is_empty (trim_space password)) _ _ λ _.
          IfOk-bind _ Other (get_user_by_username normalized a.db) _
            (get_user_by_username-out normalized)
            λ found fit.
              IfOk-bind _ Other (accepted_user crypto password found) _
                (accepted_user-out crypto password name found fit)
                λ user out.
                  IfOk-mono _ _ (open_session crypto random id_random user now a)
                    (open_session-user crypto random id_random user now a)
                    λ (d : LoginResult × AuthService) own. rw own out

-- The two ways in which an administrator takes a user's access away.
pub data Removal : Type 0 where
  by_disabling : Time → Removal
  by_deleting : Removal

unfoldable pub removed : Removal → Text → AuthService → AuthService
removed (by_disabling now) username a = (set_user_disabled username true now a).1
removed by_deleting username a = (delete_user username a).1

bars_itself :
    (name : Text) (users : List UserRow)
    → (normalize_auth_username name ≡ name) × (is_empty name ≡ false)
    → (is_empty (normalize_auth_username name) ≡ false
        → all (is_barred (normalize_auth_username name)) users ≡ true)
    → all (is_barred name) users ≡ true
bars_itself name users fixed h =
    ap (λ n. all (is_barred n) users) (sym fixed.0) ∙ h (ap is_empty fixed.0 ∙ fixed.1)

removed-IsBarred :
    (how : Removal) (raw name : Text) (a : AuthService)
    → normalize_username raw ≡ ok name
    → IsBarred name (removed how raw a)
unfolding removed IsBarred
removed-IsBarred (by_disabling now) raw name a h =
    let fixed = IfOk-apply _ (normalize_username raw) name h (normalize_username-canonical raw) in
    rw (set_user_disabled-db raw name true now a h)
      (bars_itself name _ fixed (set_user_disabled_row-bars name now a.db))
removed-IsBarred by_deleting raw name a h =
    let fixed = IfOk-apply _ (normalize_username raw) name h (normalize_username-canonical raw) in
    rw (delete_user-db raw name a h) (bars_itself name _ fixed (delete_user_row-bars name a.db))

-- After a user was disabled or deleted, and whatever requests are served then, unless one of them
-- creates or enables a user of the same name: no session token gives a user of that name, and no
-- login returns one.
pub removed_stays_out :
    (crypto : Crypto) (how : Removal) (raw name : Text) (requests : List Request) (a : AuthService)
    (token : Text) (random id_random : Result (List ℕ)) (username password : Text) (now : Time)
    → normalize_username raw ≡ ok name
    → all (λ r. not (admits name r)) requests ≡ true
    → IfOk (IsOther name) (
        authenticate_session_token crypto token now (serve_all crypto requests (removed how raw a)))
      × IfOk
          (λ d. (d.0.user.username == name) ≡ false)
          (login crypto random id_random username password now
            (serve_all crypto requests (removed how raw a)))
removed_stays_out crypto how raw name requests a token random id_random username password now h
      quiet =
    let barred =
      serve_all-keeps crypto (IsBarred name) (λ r. not (admits name r)) (serve-IsBarred name crypto)
        requests (removed how raw a) quiet (removed-IsBarred how raw name a h) in
    (
      authenticate-out crypto name _ barred token now,
      login-out crypto name _ barred random id_random username password now,
    )
