-- ===== src/Store/Auth/Rows.antt =====
-- What the statements on users and sessions keep of the rows.
use grns.Base.{
  ℕ, Bool, true, false, not, ◌&&◌, ◌||◌, List, [], ◌∷◌, ◌==◌, nat_eq, is_empty, all, all-append,
  all-filter_and, filter, ◌≡◌, refl, arith, ap, ◌∙◌, sym,
}
use grns.Base.Text.{Text, text_eq, codes, trim_space, to_lower}
use grns.Base.Text.Laws.{to_lower-trim_space_idem, trim_space-to_lower}
use grns.Errors.{Result, IfOk}
use grns.Errors.Laws.{IfOk-refuse, IfOk-after}
use grns.Store.Time.{db_parse_time}
use grns.Models.{Time}
use grns.Store.Auth.{
  UserRow, parsed, SessionRow, AuthDb, normalize_auth_username, scan_user_row, set_disabled,
  generate_auth_id,
}
use grns.Store.Sessions.{insert_session, create_session, session_users}

pub normalize_auth_username_idem :
    (s : Text) → normalize_auth_username (normalize_auth_username s) ≡ normalize_auth_username s
unfolding normalize_auth_username
normalize_auth_username_idem s =
    ap (λ t. trim_space (to_lower t)) (trim_space-to_lower s)
    ∙ trim_space-to_lower (to_lower (trim_space s))
    ∙ to_lower-trim_space_idem s
    ∙ sym (trim_space-to_lower s)

-- A session is added beside the users.
pub insert_session-users :
    (row : SessionRow) (db : AuthDb) → IfOk (λ d. d.users ≡ db.users) (insert_session row db)
unfolding insert_session
insert_session-users row db = ground arith

pub create_session-users :
    (random : Result (List ℕ)) (user_id token_hash : Text) (expires_at created_at : Time)
    (db : AuthDb)
    → IfOk
        (λ d. d.users ≡ db.users)
        (create_session random user_id token_hash expires_at created_at db)
unfolding create_session
create_session-users random user_id token_hash expires_at created_at db =
    IfOk-refuse (λ d. d.users ≡ db.users)
      (is_empty (trim_space user_id) || is_empty (trim_space token_hash)) _ _
      λ _.
        IfOk-after (λ d. d.users ≡ db.users) (generate_auth_id (codes "as") random) _
          λ id. insert_session-users _ db

-- No enabled user has the name.
unfoldable pub is_barred : Text → UserRow → Bool
is_barred name u = not (u.username == name) || u.disabled

pub all-set_disabled-barred :
    (name : Text) (now : Time) (users : List UserRow)
    → all (is_barred name) (set_disabled name true now users) ≡ true
unfolding set_disabled is_barred
all-set_disabled-barred name now [] = refl
all-set_disabled-barred name now (u ∷ us) = ground (arith, all-set_disabled-barred name now us)

-- To disable anyone, or to enable another, leaves the name barred.
pub set_disabled-barred :
    (name other : Text) (disabled : Bool) (now : Time) (users : List UserRow)
    → (not disabled && (other == name)) ≡ false
    → all (is_barred name) users ≡ true
    → all (is_barred name) (set_disabled other disabled now users) ≡ true
unfolding set_disabled is_barred
set_disabled-barred name other disabled now [] h b = refl
set_disabled-barred name other disabled now (u ∷ us) h b =
    ground (arith, set_disabled-barred name other disabled now us, text_eq.beq_iff u.username other)

pub delete-barred :
    (name : Text) (users : List UserRow)
    → all (is_barred name) (filter (λ u. not (u.username == name)) users) ≡ true
unfolding is_barred
delete-barred name [] = refl
delete-barred name (u ∷ us) = ground (arith, delete-barred name us)

-- What scanning a row gives has the row's name and state.
pub scan_user_row-fields :
    (row : UserRow)
    → IfOk (λ u. (u.username ≡ row.username) × (u.disabled ≡ row.disabled)) (scan_user_row row)
unfolding scan_user_row
scan_user_row-fields row =
    IfOk-after _ (parsed (db_parse_time row.created_at)) _
      λ created. IfOk-after _ (parsed (db_parse_time row.updated_at)) _ λ updated. (refl, refl)

-- The users that the join gives are enabled rows of the table.
pub session_users-all :
    (p : UserRow → Bool) (hash : Text) (now : Time) (sessions : List SessionRow)
    (users : List UserRow)
    → all p users ≡ true
    → all (λ u. p u && not u.disabled) (session_users hash now sessions users) ≡ true
unfolding session_users
session_users-all p hash now [] users h = refl
session_users-all p hash now (s ∷ sessions) users h =
    let own = λ (u : UserRow). (u.id == s.user_id) && not u.disabled in
    let kept =
      all-filter_and p own (λ u. p u && not u.disabled) users (λ u hp hq. ground arith) h in
    ground (
      arith,
      all-append (λ u. p u && not u.disabled) (filter own users)
          (session_users hash now sessions users),
      session_users-all p hash now sessions users h,
    )
