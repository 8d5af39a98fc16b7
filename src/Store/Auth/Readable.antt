-- ===== src/Store/Auth/Readable.antt =====
-- Rows of users whose times can be read, and what is read of them.
use grns.Base.{
  ◌≡◌, refl, ◌∙◌, Bool, true, false, not, ◌&&◌, List, [], ◌∷◌, Option, none, some, all, all-append,
  all-filter, filter, ◌==◌, nat_eq, is_empty, any, arith, Bool-cases, inl, inr, if-both,
}
use grns.Base.Text.{Text, text_eq}
use grns.Errors.{Result, ok, IfOk}
use grns.Models.{Time}
use grns.Store.Time.{db_format_time, db_parse_time}
use grns.Store.Time.Order.{db_parse_time-db_format_time, is_dated}
use grns.Store.Auth.{
  AuthUser, UserRow, AuthDb, parsed, find_first, scan_user_row, scan_auth_user, set_disabled,
  delete_user_row, insert_user, new_user_row, get_user_by_username, normalize_auth_username,
}

abbrev pub is_some {ℓ} : {A : Type ℓ} → Option A → Bool
is_some none = false
is_some (some a) = true

-- The times of the row are in the store's format.
unfoldable pub is_readable : UserRow → Bool
is_readable u = is_some (db_parse_time u.created_at) && is_some (db_parse_time u.updated_at)

pub is_some-written :
    (t : Time) → is_dated t ≡ true → is_some (db_parse_time (db_format_time t)) ≡ true
is_some-written t d = rw (db_parse_time-db_format_time t, d) refl

pub set_disabled-readable :
    (name : Text) (disabled : Bool) (now : Time) (users : List UserRow)
    → is_dated now ≡ true
    → all is_readable users ≡ true
    → all is_readable (set_disabled name disabled now users) ≡ true
unfolding set_disabled is_readable
set_disabled-readable name disabled now [] d h = refl
set_disabled-readable name disabled now (u ∷ us) d h =
    ground (arith, set_disabled-readable name disabled now us d, is_some-written now d)

find_first-found {ℓ} :
    {A : Type ℓ} (p q : A → Bool) (l : List A)
    → any q l ≡ true
    → all p l ≡ true
    → (a : A) × (find_first q l ≡ some a) × (p a ≡ true)
unfolding find_first
find_first-found p q [] h r = absurd (cc h)
find_first-found p q (a ∷ l) h r = elim (Bool-cases (q a)) [
  | inl e ↦ (a, ground (arith, e), ground arith)
  | inr e ↦
      let rest = find_first-found p q l (ground arith) (ground arith) in
      (rest.0, ground (arith, rest.1), rest.2)
]

any-set_disabled :
    (name : Text) (disabled : Bool) (now : Time) (users : List UserRow)
    → any (λ u. u.username == name) (set_disabled name disabled now users)
      ≡ any (λ u. u.username == name) users
unfolding set_disabled
any-set_disabled name disabled now [] = refl
any-set_disabled name disabled now (u ∷ us) = ground (arith, any-set_disabled name disabled now us)

is_some-eq {ℓ} : {A : Type ℓ} (o : Option A) → is_some o ≡ true → (a : A) × (o ≡ some a)
is_some-eq none h = absurd (cc h)
is_some-eq (some a) h = (a, refl)

scan_user_row-readable :
    (row : UserRow) → is_readable row ≡ true → (user : AuthUser) × (scan_user_row row ≡ ok user)
unfolding scan_user_row is_readable parsed
scan_user_row-readable row h =
    let created = is_some-eq (db_parse_time row.created_at) (ground arith) in
    let updated = is_some-eq (db_parse_time row.updated_at) (ground arith) in
    rw created.1 (rw updated.1 (_, refl))

-- What is found again after the update is scanned without an error.
pub get-set_disabled :
    (name : Text) (disabled : Bool) (now : Time) (db : AuthDb)
    → (normalize_auth_username name ≡ name) × (is_empty name ≡ false)
    → any (λ u. u.username == name) db.users ≡ true
    → is_dated now ≡ true
    → all is_readable db.users ≡ true
    → (user : AuthUser) × (get_user_by_username name
          (record db { users = set_disabled name disabled now db.users })
        ≡ ok (some user))
unfolding get_user_by_username scan_auth_user
get-set_disabled name disabled now db fixed h d r =
    let found =
      find_first-found is_readable (λ u. u.username == name)
        (set_disabled name disabled now db.users) (any-set_disabled name disabled now db.users ∙ h)
        (set_disabled-readable name disabled now db.users d r) in
    let scanned = scan_user_row-readable found.0 found.2 in
    rw fixed.0 (rw fixed.1 (rw found.1 (rw scanned.1 (_, refl))))

pub filter-absent :
    (name : Text) (users : List UserRow)
    → any (λ u. u.username == name) users ≡ false
    → filter (λ u. not (u.username == name)) users ≡ users
filter-absent name [] h = refl
filter-absent name (u ∷ us) h = ground (arith, filter-absent name us)

-- A new user's row is readable.
pub insert_user-readable :
    (id username password_hash : Text) (now : Time) (db : AuthDb)
    → is_dated now ≡ true
    → all is_readable db.users ≡ true
    → IfOk
        (λ d. all is_readable d.users ≡ true)
        (insert_user (new_user_row id username password_hash now) db)
unfolding insert_user is_readable
insert_user-readable id username password_hash now db d h = ground (
  arith,
  is_some-written now d,
  all-append is_readable db.users (new_user_row id username password_hash now ∷ []),
)

pub delete_user_row-readable :
    (username : Text) (db : AuthDb)
    → all is_readable db.users ≡ true
    → all is_readable (delete_user_row username db).1.users ≡ true
unfolding delete_user_row
delete_user_row-readable username db h =
    if-both (λ (r : Result Bool × AuthDb). all is_readable r.1.users ≡ true)
      (is_empty (normalize_auth_username username)) _ _ (λ _. h)
      λ _. all-filter is_readable _ db.users h
