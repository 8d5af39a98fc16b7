-- ===== src/Server/AuthService/NewSession.antt =====
-- A login, and the authentication of the token that it returned.
use grns.Base.{
  ℕ, ◌+◌, ◌/◌, ◌^◌, ◌<◌, ◌≡◌, refl, sym, ap, ◌∙◌, Bool, true, false, not, ◌&&◌, List, [], ◌∷◌, some,
  all, filter, ◌==◌, nat_eq, is_empty, arith, map, distinct, eq_refl,
}
use grns.Base.Text.{Text, text_eq, trim_space}
use grns.Errors.{Result, ok, IfOk}
use grns.Errors.Laws.{IfOk-refuse, IfOk-after, IfOk-bind, IfOk-apply}
use grns.Models.{Time}
use grns.Auth.{normalize_username}
use grns.Store.Time.Order.{db_before_seconds}
use grns.Store.Auth.{
  AuthUser, UserRow, AuthDb, find_first, scan_user_row, scan_auth_user, get_user_by_username,
}
use grns.Store.Sessions.{
  first_row, session_users, is_active, is_revoked, new_session_row, get_user_by_session_token_hash,
}
use grns.Server.AuthService.Tokens.{trim_space-dense, base64_url-dense, base64_url-filled}
use grns.Server.AuthService.{
  AuthService, LoginResult, login, open_session, accepted_user, authenticate_session_token,
}
use grns.Server.SessionTokens.{Crypto, base64_url, generate_session_token, hash_session_token}
use grns.Server.AuthService.Lookups.{
  session_users-new, filter-id, scan_user_row-id, get_user_by_username-from_row,
  accepted_user-FromRow, create_session-Opened, FromRow, AnyFromRow, Opened,
}

-- User ids are distinct, and none has spaces around it.
abbrev pub IsKeyed : List UserRow → Type 0
IsKeyed users =
    (distinct (map (λ u. u.id) users) ≡ true) × (all (λ u. trim_space u.id == u.id) users ≡ true)

find_first-trimmed :
    (users : List UserRow) (q : UserRow → Bool) (row : UserRow)
    → all (λ u. trim_space u.id == u.id) users ≡ true
    → find_first q users ≡ some row
    → trim_space row.id ≡ row.id
unfolding find_first
find_first-trimmed [] q row h f = absurd (cc f)
find_first-trimmed (u ∷ users) q row h f =
    ground (arith, find_first-trimmed users q row, text_eq.beq_iff (trim_space u.id) u.id)

is_active-new :
    (id user_id hash : Text) (expires_at created_at now : Time)
    → now / 10 ^ 9 < expires_at / 10 ^ 9
    → is_active hash now (new_session_row id user_id hash expires_at created_at) ≡ true
unfolding is_active is_revoked
is_active-new id user_id hash expires_at created_at now h =
    rw (eq_refl hash) (db_before_seconds now expires_at h).0

module _ (db next : AuthDb) (user : AuthUser) (hash : Text) (expires_at created_at now : Time)
    (keyed : IsKeyed db.users) (from_row : FromRow db user) (enabled : user.disabled ≡ false)
    (opened : Opened (trim_space user.id) hash expires_at created_at db next)
    (live : now / 10 ^ 9 < expires_at / 10 ^ 9) where
  -- The join finds the row of the user alone.
  joined : first_row (session_users hash now next.sessions next.users) ≡ some from_row.0
  joined =
      let row = from_row.0 in
      let same = IfOk-apply _ (scan_user_row row) user from_row.3 (scan_user_row-id row) in
      let trimmed = find_first-trimmed db.users from_row.1 row keyed.1 from_row.2 in
      let added = new_session_row opened.0 (trim_space user.id) hash expires_at created_at in
      rw opened.1 (
        ap (λ (l : List UserRow). first_row l)
          (session_users-new hash now db.sessions added db.users opened.2
            (is_active-new opened.0 (trim_space user.id) hash expires_at created_at now live))
        ∙ ap (λ (i : Text). first_row (filter (λ u. (u.id == i) && not u.disabled) db.users))
            (ap trim_space same.0 ∙ trimmed)
        ∙ filter-id db.users from_row.1 row keyed.0 from_row.2 (sym same.1 ∙ enabled))

  found_again :
      (token_hash : Text)
      → trim_space token_hash ≡ hash
      → get_user_by_session_token_hash token_hash now next ≡ ok (some user)
  unfolding get_user_by_session_token_hash scan_auth_user
  found_again token_hash e = rw e (rw opened.3 (rw joined (rw from_row.3 refl)))

module _ (crypto : Crypto) (b : ℕ) (bytes : List ℕ) (a : AuthService)
    (keyed : IsKeyed a.db.users) where
  abbrev Found : Time → LoginResult × AuthService → Type 0
  Found later d = authenticate_session_token crypto d.0.token later d.1 ≡ ok (some d.0.user)

  open_session-Found :
      (id_random : Result (List ℕ)) (user : AuthUser) (now later : Time)
      → later / 10 ^ 9 < (now + a.session_ttl) / 10 ^ 9
      → FromRow a.db user × (user.disabled ≡ false)
      → IfOk (Found later) (open_session crypto (ok (b ∷ bytes)) id_random user now a)
  unfolding open_session generate_session_token authenticate_session_token
  open_session-Found id_random user now later live known =
      let token = base64_url (b ∷ bytes) in
      IfOk-bind
        (Opened (trim_space user.id) (trim_space (hash_session_token crypto token))
          (now + a.session_ttl) now a.db)
        (Found later) _ _
        (create_session-Opened id_random user.id (hash_session_token crypto token)
          (now + a.session_ttl) now a.db)
        λ next opened. rw (trim_space-dense token (base64_url-dense (b ∷ bytes))) (
          rw (base64_url-filled b bytes) (
            found_again a.db next user (trim_space (hash_session_token crypto token))
              (now + a.session_ttl) now later keyed known.0 known.1 opened live
              (hash_session_token crypto token) refl))

  login-Found :
      (id_random : Result (List ℕ)) (username password : Text) (now later : Time)
      → later / 10 ^ 9 < (now + a.session_ttl) / 10 ^ 9
      → IfOk (Found later) (login crypto (ok (b ∷ bytes)) id_random username password now a)
  unfolding login
  login-Found id_random username password now later live =
      IfOk-after (Found later) (normalize_username username) _ λ normalized.
        IfOk-refuse (Found later) (is_empty (trim_space password)) _ _ λ _.
          IfOk-bind (AnyFromRow a.db) (Found later) (get_user_by_username normalized a.db) _
            (get_user_by_username-from_row normalized a.db)
            λ found from_row.
              IfOk-bind (λ user. FromRow a.db user × (user.disabled ≡ false)) (Found later)
                (accepted_user crypto password found) _
                (accepted_user-FromRow crypto password a.db found from_row)
                λ user known. open_session-Found id_random user now later live known

-- A login that succeeds returns a token that from then on, until the second in which the session
-- expires, authenticates exactly the user who logged in, if the ids of the users are distinct and
-- without spaces around them and some bytes were drawn for the token.
pub login-authenticates :
    (crypto : Crypto) (b : ℕ) (bytes : List ℕ) (id_random : Result (List ℕ))
    (username password : Text) (now later : Time) (a after : AuthService) (result : LoginResult)
    → IsKeyed a.db.users
    → later / 10 ^ 9 < (now + a.session_ttl) / 10 ^ 9
    → login crypto (ok (b ∷ bytes)) id_random username password now a ≡ ok (result, after)
    → authenticate_session_token crypto result.token later after ≡ ok (some result.user)
login-authenticates crypto b bytes id_random username password now later a after result keyed live
      e =
    IfOk-apply _ _ (result, after) e
      (login-Found crypto b bytes a keyed id_random username password now later live)
