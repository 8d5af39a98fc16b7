-- ===== src/Store/Sessions.antt =====
-- internal/store/auth.go, the statements on the table sessions.
use grns.Base.{
  ℕ, Bool, true, false, not, ◌&&◌, ◌||◌, List, [], ◌∷◌, ◌++◌, Option, none, some, map,
  if◌then◌else◌, ◌==◌, nat_eq, is_empty, filter, contains,
}
use grns.Base.Text.{Text, text_eq, codes, trim_space}
use grns.Errors.{
  Result, ok, err, plain, value_required, unique_constraint, foreign_key_constraint,
  check_constraint, ◌>>=◌,
}
use grns.Models.{Time}
use grns.Store.Time.{db_format_time, db_before}
use grns.Store.Auth.{AuthDb, AuthUser, SessionRow, UserRow, generate_auth_id, scan_auth_user}

-- INSERT INTO sessions: both keys, the reference and the check.
unfoldable pub insert_session : SessionRow → AuthDb → Result AuthDb
insert_session row db =
    if contains (map (λ s. s.id) db.sessions) row.id
      || contains (map (λ s. s.token_hash) db.sessions) row.token_hash
    then err (plain unique_constraint)
    else if not (contains (map (λ u. u.id) db.users) row.user_id)
    then err (plain foreign_key_constraint)
    else if db_before row.expires_at row.created_at
    then err (plain check_constraint)
    else ok (record db { sessions = db.sessions ++ row ∷ [] })

abbrev pub new_session_row : Text → Text → Text → Time → Time → SessionRow
new_session_row id user_id token_hash expires_at created_at = record {
  id = id;
  user_id = user_id;
  token_hash = token_hash;
  expires_at = db_format_time expires_at;
  revoked_at = none;
  created_at = db_format_time created_at;
}

unfoldable pub create_session : Result (List ℕ) → Text → Text → Time → Time → AuthDb → Result AuthDb
unfolding generate_auth_id insert_session
create_session random user_id token_hash expires_at created_at db =
    let user = trim_space user_id in
    let hash = trim_space token_hash in
    if is_empty user || is_empty hash
    then err (plain value_required)
    else (generate_auth_id (codes "as") random >>= λ id.
        insert_session (new_session_row id user hash expires_at created_at) db)

unfoldable pub is_revoked : SessionRow → Bool
is_revoked s = elim s.revoked_at [ none ↦ false | some t ↦ true ]

unfoldable pub is_active : Text → Time → SessionRow → Bool
unfolding is_revoked
is_active hash now s =
    (s.token_hash == hash) && not (is_revoked s) && db_before (db_format_time now) s.expires_at

-- The join of active sessions with their enabled users.
unfoldable pub session_users : Text → Time → List SessionRow → List UserRow → List UserRow
unfolding is_active
session_users hash now [] users = []
session_users hash now (s ∷ sessions) users =
    let rest = session_users hash now sessions users in
    if is_active hash now s
    then filter (λ u. (u.id == s.user_id) && not u.disabled) users ++ rest
    else rest

unfoldable pub first_row {ℓ} : {A : Type ℓ} → List A → Option A
first_row [] = none
first_row (a ∷ more) = some a

unfoldable pub get_user_by_session_token_hash : Text → Time → AuthDb → Result (Option AuthUser)
unfolding session_users first_row scan_auth_user
get_user_by_session_token_hash token_hash now db =
    let hash = trim_space token_hash in
    if is_empty hash
    then ok none
    else scan_auth_user (first_row (session_users hash now db.sessions db.users))

unfoldable pub revoke_session : Text → Time → SessionRow → SessionRow
unfolding is_revoked
revoke_session hash now s =
    if (s.token_hash == hash) && not (is_revoked s)
    then record s { revoked_at = some (db_format_time now) }
    else s

unfoldable pub revoke_session_by_token_hash : Text → Time → AuthDb → AuthDb
unfolding revoke_session
revoke_session_by_token_hash token_hash revoked_at db =
    let hash = trim_space token_hash in
    if is_empty hash
    then db
    else record db { sessions = map (revoke_session hash revoked_at) db.sessions }
