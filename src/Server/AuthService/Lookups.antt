-- ===== src/Server/AuthService/Lookups.antt =====
-- What the lookups of a login found, what it inserted, and that the join finds its row alone.
use grns.Base.{
  ℕ, ◌≡◌, refl, Bool, true, false, not, ◌&&◌, ◌||◌, List, [], ◌∷◌, ◌++◌, Option, none, some, filter,
  ◌==◌, nat_eq, is_empty, arith, Bool-cases, inl, inr, if-both, map, contains, distinct, eq_refl,
}
use mathlib.Core.List.{append-nil}
use grns.Base.Text.{Text, text_eq, trim_space}
use grns.Errors.{Result, ok, IfOk}
use grns.Errors.Laws.{IfOk-refuse, IfOk-after, IfOk-bind, IfOk-self}
use grns.Models.{Time}
use grns.Auth.{verify_password}
use grns.Store.Time.{db_format_time, db_parse_time, db_before}
use grns.Store.Auth.{
  AuthUser, UserRow, SessionRow, AuthDb, parsed, normalize_auth_username, find_first, scan_user_row,
  scan_auth_user, generate_auth_id, get_user_by_username,
}
use grns.Store.Sessions.{
  first_row, session_users, is_active, create_session, insert_session, new_session_row,
}
use grns.Server.AuthService.{accepted_user}
use grns.Server.SessionTokens.{Crypto}

is_active-other :
    (hash : Text) (now : Time) (k : SessionRow)
    → (k.token_hash == hash) ≡ false
    → is_active hash now k ≡ false
unfolding is_active
is_active-other hash now k e = rw e refl

pub session_users-new :
    (hash : Text) (now : Time) (sessions : List SessionRow) (s : SessionRow) (users : List UserRow)
    → contains (map (λ s. s.token_hash) sessions) hash ≡ false
    → is_active hash now s ≡ true
    → session_users hash now (sessions ++ s ∷ []) users
      ≡ filter (λ u. (u.id == s.user_id) && not u.disabled) users
unfolding session_users contains
session_users-new hash now [] s users c a = rw a (append-nil _)
session_users-new hash now (k ∷ sessions) s users c a =
    rw (is_active-other hash now k (ground arith))
      (session_users-new hash now sessions s users (ground arith) a)

find_first-contains :
    (users : List UserRow) (q : UserRow → Bool) (row : UserRow)
    → find_first q users ≡ some row
    → contains (map (λ u. u.id) users) row.id ≡ true
unfolding find_first contains
find_first-contains [] q row f = absurd (cc f)
find_first-contains (u ∷ users) q row f =
    ground (arith, find_first-contains users q row, eq_refl u.id)

-- The first row of a name is the only one with its id.
pub filter-id :
    (users : List UserRow) (q : UserRow → Bool) (row : UserRow)
    → distinct (map (λ u. u.id) users) ≡ true
    → find_first q users ≡ some row
    → row.disabled ≡ false
    → first_row (filter (λ u. (u.id == row.id) && not u.disabled) users) ≡ some row
unfolding distinct find_first first_row
filter-id [] q row d f e = absurd (cc f)
filter-id (u ∷ users) q row d f e = elim (Bool-cases (q u)) [
  | inl t ↦ ground (arith, t, eq_refl u.id)
  | inr t ↦
      let found = find_first-contains users q row (ground arith) in
      ground (arith, t, found, text_eq.beq_iff u.id row.id, filter-id users q row)
]

pub scan_user_row-id :
    (row : UserRow) → IfOk (λ u. (u.id ≡ row.id) × (u.disabled ≡ row.disabled)) (scan_user_row row)
unfolding scan_user_row
scan_user_row-id row =
    IfOk-after _ (parsed (db_parse_time row.created_at)) _
      λ created. IfOk-after _ (parsed (db_parse_time row.updated_at)) _ λ updated. (refl, refl)

-- The user is what a row of the table was scanned to.
abbrev pub FromRow : AuthDb → AuthUser → Type 0
FromRow db user =
    (row : UserRow) × (q : UserRow → Bool) × (find_first q db.users ≡ some row)
    × (scan_user_row row ≡ ok user)

abbrev pub AnyFromRow : AuthDb → Option AuthUser → Type 0
AnyFromRow db none = Unit
AnyFromRow db (some user) = FromRow db user

scan_auth_user-from_row :
    (db : AuthDb) (q : UserRow → Bool) (o : Option UserRow)
    → find_first q db.users ≡ o
    → IfOk (AnyFromRow db) (scan_auth_user o)
unfolding scan_auth_user
scan_auth_user-from_row db q none f = tt
scan_auth_user-from_row db q (some row) f =
    IfOk-bind (λ user. scan_user_row row ≡ ok user) (AnyFromRow db) (scan_user_row row) _
      (IfOk-self (scan_user_row row)) λ user e. (row, q, f, e)

pub get_user_by_username-from_row :
    (name : Text) (db : AuthDb) → IfOk (AnyFromRow db) (get_user_by_username name db)
unfolding get_user_by_username
get_user_by_username-from_row name db =
    if-both (IfOk (AnyFromRow db)) (is_empty (normalize_auth_username name)) _ _ (λ _. tt)
      λ _. scan_auth_user-from_row db _ _ refl

pub accepted_user-FromRow :
    (crypto : Crypto) (password : Text) (db : AuthDb) (o : Option AuthUser)
    → AnyFromRow db o
    → IfOk (λ user. FromRow db user × (user.disabled ≡ false)) (accepted_user crypto password o)
unfolding accepted_user
accepted_user-FromRow crypto password db none h = tt
accepted_user-FromRow crypto password db (some user) h =
    IfOk-refuse (λ user. FromRow db user × (user.disabled ≡ false))
      (user.disabled || not (verify_password crypto.bcrypt user.password_hash password)) _ _
      λ e. (h, ground arith)

-- What the statement inserted, if it did.
abbrev pub Opened : Text → Text → Time → Time → AuthDb → AuthDb → Type 0
Opened user_id hash expires_at created_at db next =
    (id : Text) × (next ≡ record db {
      sessions = db.sessions ++ new_session_row id user_id hash expires_at created_at ∷ [];
    })
    × (contains (map (λ s. s.token_hash) db.sessions) hash ≡ false)
    × (is_empty hash ≡ false)

pub create_session-Opened :
    (random : Result (List ℕ)) (user_id token_hash : Text) (expires_at created_at : Time)
    (db : AuthDb)
    → IfOk
        (Opened (trim_space user_id) (trim_space token_hash) expires_at created_at db)
        (create_session random user_id token_hash expires_at created_at db)
unfolding create_session insert_session
create_session-Opened random user_id token_hash expires_at created_at db =
    let hash = trim_space token_hash in
    let Open = Opened (trim_space user_id) hash expires_at created_at db in
    IfOk-refuse Open (is_empty (trim_space user_id) || is_empty hash) _ _ λ filled.
      IfOk-after Open (generate_auth_id _ random) _ λ id.
        IfOk-refuse Open
          (contains (map (λ s. s.id) db.sessions) id
            || contains (map (λ s. s.token_hash) db.sessions) hash)
          _ _
          λ new.
            IfOk-refuse Open (not (contains (map (λ u. u.id) db.users) (trim_space user_id))) _ _
              λ _.
                IfOk-refuse Open (db_before (db_format_time expires_at) (db_format_time created_at))
                  _ _ λ _. (id, refl, ground (arith, new), ground (arith, filled))
