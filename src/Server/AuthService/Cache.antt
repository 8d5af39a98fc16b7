-- ===== src/Server/AuthService/Cache.antt =====
-- The cached answer whether there is an enabled user agrees with the table.
use grns.Base.{
  ℕ, ◌-◌, ◌≡◌, refl, sym, ap, ◌∙◌, ◌⊎◌, Bool, true, false, not, ◌||◌, List, Option, none, some, all,
  ◌==◌, nat_eq, is_empty, any, Bool-cases, inl, inr, if-both, ltb,
}
use grns.Base.Text.{Text, text_eq, trim_space}
use grns.Errors.{Result, ok, err, IfOk}
use grns.Errors.Laws.{IfOk-refuse, IfOk-after, IfOk-bind, IfOk-mono, IfOk-apply, Result-cases}
use grns.Models.{Time}
use grns.Auth.{normalize_username, hash_password}
use grns.Store.Auth.{
  AuthUser, UserRow, AuthDb, count_enabled_users, generate_auth_id, set_user_disabled_row,
  delete_user_row, create_admin_user_row, normalize_auth_username,
}
use grns.Store.Time.Order.{is_dated}
use grns.Store.Sessions.{revoke_session_by_token_hash}
use grns.Store.Auth.Readable.{
  is_readable, set_disabled-readable, get-set_disabled, filter-absent, insert_user-readable,
  delete_user_row-readable,
}
use grns.Server.AuthService.{
  AuthService, LoginResult, auth_required, answer_required, cached_enabled_users,
  set_cached_enabled_users, invalidate_auth_required_cache, after_set_disabled, after_delete,
  set_user_disabled, delete_user, create_admin_user, revoke_session_token,
}
use grns.Server.SessionTokens.{Crypto}
use grns.Server.AuthService.Users.{login-users, SameUsers, normalize_username-canonical}
use grns.Server.AuthService.LockOut.{
  set_user_disabled-ok, delete_user-ok, set_user_disabled-err, delete_user-err,
}
use grns.Server.AuthService.Histories.{
  Request, log_in, log_out, check_required, add_user, switch_user, remove_user, serve,
  state_or-keeps,
}

-- The invariant: every row is readable, and a cached answer is the one that a count would give.
unfoldable pub IsFresh : AuthService → Type 0
IsFresh a =
    (all is_readable a.db.users ≡ true)
    × (a.enabled_users_cached ≡ true → a.enabled_users_value ≡ ltb 0 (count_enabled_users a.db))

set_cached-IsFresh :
    (now : Time) (a : AuthService)
    → IsFresh a
    → IsFresh (set_cached_enabled_users now (ltb 0 (count_enabled_users a.db)) a)
unfolding IsFresh set_cached_enabled_users
set_cached-IsFresh now a h =
    if-both IsFresh (a.enabled_users_cache_ttl == 0) _ _ (λ _. h) λ _. (h.0, λ _. refl)

cached-IsFresh : (now : Time) (a : AuthService) → IsFresh a → IsFresh (cached_enabled_users now a).1
unfolding cached_enabled_users IsFresh
cached-IsFresh now a h =
    let Fresh = λ (r : Option Bool × AuthService). IsFresh r.1 in
    if-both Fresh (a.enabled_users_cache_ttl == 0) _ _ (λ _. h)
      λ _.
        if-both Fresh (not a.enabled_users_cached) _ _ (λ _. h)
          λ _.
            if-both Fresh (ltb a.enabled_users_cache_ttl (now - a.enabled_users_cached_at)) _ _
              (λ _. (h.0, λ e. absurd (cc e))) λ _. h

answer-IsFresh :
    (now : Time) (o : Option Bool) (a : AuthService)
    → IsFresh a
    → IsFresh (answer_required now (o, a)).1
unfolding answer_required
answer-IsFresh now none a h = set_cached-IsFresh now a h
answer-IsFresh now (some value) a h = h

auth_required-IsFresh :
    (api_token users : Bool) (now : Time) (a : AuthService)
    → IsFresh a
    → IsFresh (auth_required api_token users now a).1
unfolding auth_required
auth_required-IsFresh true users now a h = h
auth_required-IsFresh false false now a h = h
auth_required-IsFresh false true now a h =
    answer-IsFresh now (cached_enabled_users now a).0 (cached_enabled_users now a).1
      (cached-IsFresh now a h)

create_admin_user-IsFresh :
    (crypto : Crypto) (random : Result (List ℕ)) (username password : Text) (now : Time)
    (a : AuthService)
    → is_dated now ≡ true
    → IsFresh a
    → IfOk (λ d. IsFresh d.1) (create_admin_user crypto random username password now a)
unfolding create_admin_user create_admin_user_row IsFresh invalidate_auth_required_cache
create_admin_user-IsFresh crypto random username password now a dated h =
    let Fresh = λ (d : AuthUser × AuthService). IsFresh d.1 in
    let Readable = λ (d : AuthUser × AuthDb). all is_readable d.1.users ≡ true in
    IfOk-after Fresh (normalize_username username) _ λ n.
      IfOk-after Fresh (hash_password crypto.bcrypt password) _ λ password_hash.
        IfOk-bind Readable Fresh (create_admin_user_row random n password_hash now a.db) _
          (IfOk-refuse Readable
            (is_empty (normalize_auth_username n) || is_empty (trim_space password_hash)) _ _
            λ _. IfOk-after Readable (generate_auth_id _ random) _ λ id.
              IfOk-bind (λ (d : AuthDb). all is_readable d.users ≡ true) Readable _ _
                (insert_user-readable id (normalize_auth_username n) password_hash now a.db dated
                  h.0)
                λ next r. r)
          λ created r. (r, λ e. absurd (cc e))

revoke_session_token-IsFresh :
    (crypto : Crypto) (token : Text) (now : Time) (a : AuthService)
    → IsFresh a
    → IsFresh (revoke_session_token crypto token now a)
unfolding revoke_session_token revoke_session_by_token_hash IsFresh count_enabled_users
revoke_session_token-IsFresh crypto token now a h =
    if-both IsFresh (is_empty (trim_space token)) _ _ (λ _. h)
      λ _.
        if-both (λ (d : AuthDb). IsFresh (record a { db = d })) (is_empty (trim_space _)) _ _
          (λ _. h) λ _. h

-- The statement changed nothing of the users, or gave the answer upon which the cache is dropped.
set_user_disabled_row-outcome :
    (name : Text) (disabled : Bool) (now : Time) (db : AuthDb)
    → (normalize_auth_username name ≡ name) × (is_empty name ≡ false)
    → is_dated now ≡ true
    → all is_readable db.users ≡ true
    → (all is_readable (set_user_disabled_row name disabled now db).1.users ≡ true)
      × (((set_user_disabled_row name disabled now db).1.users ≡ db.users)
          ⊎ ((user : AuthUser) × ((set_user_disabled_row name disabled now db).0 ≡ ok (some user))))
unfolding set_user_disabled_row
set_user_disabled_row-outcome name disabled now db fixed dated h =
    let Outcome = λ (r : Result (Option AuthUser) × AuthDb).
      (all is_readable r.1.users ≡ true)
      × ((r.1.users ≡ db.users) ⊎ ((user : AuthUser) × (r.0 ≡ ok (some user)))) in
    if-both Outcome (is_empty (normalize_auth_username name)) _ _ (λ _. (h, inl refl))
      λ _.
        if-both Outcome (any (λ u. u.username == normalize_auth_username name) db.users) _ _
          (λ e. rw fixed.0 (
            set_disabled-readable name disabled now db.users dated h,
            inr (
                get-set_disabled name disabled now db fixed
                  (ap (λ n. any (λ (u : UserRow). u.username == n) db.users) (sym fixed.0) ∙ e)
                  dated h),
          ))
          λ _. (h, inl refl)

delete_user_row-outcome :
    (name : Text) (db : AuthDb)
    → ((delete_user_row name db).1.users ≡ db.users) ⊎ ((delete_user_row name db).0 ≡ ok true)
unfolding delete_user_row
delete_user_row-outcome name db =
    let key = normalize_auth_username name in
    if-both (λ (r : Result Bool × AuthDb). (r.1.users ≡ db.users) ⊎ (r.0 ≡ ok true)) (is_empty key)
      _ _ (λ _. inl refl)
      λ _. elim (Bool-cases (any (λ u. u.username == key) db.users)) [
        | inl e ↦ inr (ap ok e)
        | inr e ↦ inl (filter-absent key db.users e)
      ]

module _ (a : AuthService) (h : IsFresh a) where
  same_users-IsFresh : (db : AuthDb) → db.users ≡ a.db.users → IsFresh (record a { db = db })
  unfolding IsFresh count_enabled_users
  same_users-IsFresh db e = (ap (all is_readable) e ∙ h.0, λ c. h.1 c ∙ rw e refl)

  dropped-IsFresh :
      (db : AuthDb)
      → all is_readable db.users ≡ true
      → IsFresh (invalidate_auth_required_cache (record a { db = db }))
  unfolding IsFresh invalidate_auth_required_cache
  dropped-IsFresh db r = (r, λ c. absurd (cc c))

  after_set_disabled-IsFresh :
      (db : AuthDb) (r : Result (Option AuthUser))
      → all is_readable db.users ≡ true
      → (db.users ≡ a.db.users) ⊎ ((user : AuthUser) × (r ≡ ok (some user)))
      → IsFresh (after_set_disabled (record a { db = db }) r).1
  unfolding after_set_disabled
  after_set_disabled-IsFresh db (err f) d (inl e) = same_users-IsFresh db e
  after_set_disabled-IsFresh db (err f) d (inr (user, e)) = absurd (cc e)
  after_set_disabled-IsFresh db (ok none) d (inl e) = same_users-IsFresh db e
  after_set_disabled-IsFresh db (ok none) d (inr (user, e)) = absurd (cc e)
  after_set_disabled-IsFresh db (ok (some user)) d o = dropped-IsFresh db d

  after_delete-IsFresh :
      (db : AuthDb) (r : Result Bool)
      → all is_readable db.users ≡ true
      → (db.users ≡ a.db.users) ⊎ (r ≡ ok true)
      → IsFresh (after_delete (record a { db = db }) r).1
  unfolding after_delete
  after_delete-IsFresh db (err f) d (inl e) = same_users-IsFresh db e
  after_delete-IsFresh db (err f) d (inr e) = absurd (cc e)
  after_delete-IsFresh db (ok false) d (inl e) = same_users-IsFresh db e
  after_delete-IsFresh db (ok false) d (inr e) = absurd (cc e)
  after_delete-IsFresh db (ok true) d o = dropped-IsFresh db d

  switch-IsFresh :
      (username : Text) (disabled : Bool) (now : Time)
      → is_dated now ≡ true
      → IsFresh (set_user_disabled username disabled now a).1
  unfolding IsFresh
  switch-IsFresh username disabled now dated = elim (Result-cases (normalize_username username)) [
    | inr (n, e) ↦
        let fixed =
          IfOk-apply _ (normalize_username username) n e (normalize_username-canonical username) in
        let outcome = set_user_disabled_row-outcome n disabled now a.db fixed dated h.0 in
        rw (set_user_disabled-ok username n disabled now a e)
          (after_set_disabled-IsFresh _ _ outcome.0 outcome.1)
    | inl (f, e) ↦ rw (set_user_disabled-err username disabled now a f e) h
  ]

  remove-IsFresh : (username : Text) → IsFresh (delete_user username a).1
  unfolding IsFresh
  remove-IsFresh username = elim (Result-cases (normalize_username username)) [
    | inr (n, e) ↦ rw (delete_user-ok username n a e) (
        after_delete-IsFresh _ _ (delete_user_row-readable n a.db h.0)
          (delete_user_row-outcome n a.db))
    | inl (f, e) ↦ rw (delete_user-err username a f e) h
  ]

-- A request that writes a time into a row of a user has a time before the year 10000.
abbrev pub is_timely : Request → Bool
is_timely (log_in random id_random username password now) = true
is_timely (log_out token now) = true
is_timely (check_required api_token users now) = true
is_timely (add_user random username password now) = is_dated now
is_timely (switch_user username disabled now) = is_dated now
is_timely (remove_user username) = true

pub serve-IsFresh :
    (crypto : Crypto) (a : AuthService) (r : Request)
    → is_timely r ≡ true
    → IsFresh a
    → IsFresh (serve crypto a r)
unfolding serve IsFresh count_enabled_users
serve-IsFresh crypto a (log_in random id_random username password now) timely h =
    state_or-keeps IsFresh a _
      (IfOk-mono (SameUsers a) _ _ (login-users crypto random id_random username password now a)
        λ (d : LoginResult × AuthService) e.
          (ap (all is_readable) e.0 ∙ h.0, λ c. e.2 ∙ h.1 (sym e.1 ∙ c) ∙ rw e.0 refl))
      h
serve-IsFresh crypto a (log_out token now) timely h =
    revoke_session_token-IsFresh crypto token now a h
serve-IsFresh crypto a (check_required api_token users now) timely h =
    auth_required-IsFresh api_token users now a h
serve-IsFresh crypto a (add_user random username password now) timely h =
    state_or-keeps IsFresh a _
      (create_admin_user-IsFresh crypto random username password now a timely h) h
serve-IsFresh crypto a (switch_user username disabled now) timely h =
    switch-IsFresh a h username disabled now timely
serve-IsFresh crypto a (remove_user username) timely h = remove-IsFresh a h username
