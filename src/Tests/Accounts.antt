-- ===== src/Tests/Accounts.antt =====
-- Examples of the theorems on migrations, users and sessions.
use grns.Base.{
  ℕ, ◌≡◌, refl, Bool, true, false, ◌&&◌, ◌||◌, ◌==◌, nat_eq, List, [], ◌∷◌, ◌++◌, none, some, map,
  ◌+◌, if◌then◌else◌, not, ltb, list_beq, contains, distinct, arith, list_eq, all,
}
use grns.Base.Text.{codes, trim_space, to_lower, byte_len}
use grns.Errors.{Result, ok, err, plain, other, IfOk}
use grns.Auth.{Bcrypt, normalize_username}
use grns.Store.Migrations.{
  Migration, migrations, DbFile, MigrationStatus, run_migrations, migration_plan, versions_of,
  sort_by_version, detect_pre_migration, plan_of,
}
use grns.Store.Migrations.Order.{IsNumbered}
use grns.Store.Migrations.Resume.{Refines, as_file}
use grns.Store.Migrations.Runs.{run_migrations_resume, run_migrations-stamped}
use grns.Store.Migrations.Plan.{starts_with, migration_plan_predicts, run_migrations-migration_plan}
use grns.Store.Time.{db_parse_time, db_format_time, db_before}
use grns.Store.Auth.{hex_encode, new_user, AuthDb, new_user_row, count_enabled_users}
use grns.Store.Sessions.{new_session_row}
use grns.Store.Auth.Readable.{is_readable}
use grns.Server.AuthService.{
  AuthService, LoginResult, new_auth_service, auth_required, login, authenticate_session_token,
  revoke_session_token,
}
use grns.Server.SessionTokens.{Crypto, generate_session_token, hash_session_token}
use grns.Server.AuthService.Histories.{Request, log_in, log_out, check_required, serve_all}
use grns.Server.AuthService.Barred.{admits}
use grns.Server.AuthService.StaysOut.{IsOther, by_disabling, removed, removed_stays_out}
use grns.Server.AuthService.Revoked.{issues}
use grns.Server.AuthService.LogOut.{revoked_stays_revoked}
use grns.Server.AuthService.Required.{auth_required_exact}
use grns.Server.AuthService.NewSession.{IsKeyed, login-authenticates}

numbered : IsNumbered migrations
unfolding distinct contains
numbered = (refl, refl)

-- A schema is the number of its tables; the fifth migration fails.
abbrev has_tables : ℕ → Bool
has_tables n = ltb 0 n

abbrev stops_at_5 : Migration → ℕ → Result ℕ
stops_at_5 m n = if m.version == 5 then err (plain other) else ok (n + m.version)

abbrev mended : Migration → ℕ → Result ℕ
mended m n = ok (n + m.version)

mended-Refines : Refines stops_at_5 mended
mended-Refines m s t h = ground (arith, h)

abbrev new_file : DbFile ℕ
new_file = as_file 0 none

run_migrations_resume_example :
    run_migrations has_tables mended migrations
      (run_migrations has_tables stops_at_5 migrations new_file).1
    ≡ run_migrations has_tables mended migrations new_file
run_migrations_resume_example =
    run_migrations_resume has_tables migrations numbered stops_at_5 mended new_file mended-Refines

-- A file from before the migrations: tables, but no versions.
abbrev old_file : DbFile ℕ
old_file = as_file 1 none

abbrev old_plan : MigrationStatus
old_plan = plan_of true 0 migrations

abbrev old_file_after : DbFile ℕ
old_file_after = as_file 36 (some (1 ∷ 2 ∷ 3 ∷ 4 ∷ 5 ∷ 6 ∷ 7 ∷ 8 ∷ []))

old_file_planned : (migration_plan has_tables migrations old_file).0 ≡ ok old_plan
unfolding migration_plan
old_file_planned = refl

old_file_run : run_migrations has_tables mended migrations old_file ≡ (none, old_file_after)
unfolding run_migrations
old_file_run = refl

migration_plan_predicts_example :
    versions_of old_file_after.recorded
    ≡ starts_with (detect_pre_migration has_tables old_file) old_file.recorded
      ++ map (λ i. i.version) old_plan.pending
migration_plan_predicts_example =
    migration_plan_predicts has_tables migrations numbered mended old_file old_file_after old_plan
      old_file_planned old_file_run

run_migrations-migration_plan_example :
    run_migrations has_tables mended migrations (migration_plan has_tables migrations old_file).1
    ≡ run_migrations has_tables mended migrations old_file
run_migrations-migration_plan_example =
    run_migrations-migration_plan has_tables migrations numbered mended old_file

run_migrations-stamped_example :
    run_migrations has_tables mended migrations (as_file 1 none)
    ≡ run_migrations has_tables mended migrations (as_file 0 none)
unfolding sort_by_version
run_migrations-stamped_example =
    run_migrations-stamped has_tables migrations numbered mended _ _ 0 1 refl refl refl refl refl

-- SHA-256 and bcrypt stand for functions that give back what they are given.
abbrev sample_bcrypt : Bcrypt
sample_bcrypt = record {
  generate_from_password = λ password. ok password;
  compare_hash_and_password = λ hash password. hash == password;
}

abbrev sample_crypto : Crypto
sample_crypto = record { sha256 = λ token. token; bcrypt = sample_bcrypt }

abbrev sample_users : AuthDb
sample_users = record {
  users = new_user_row (codes "au-01") (codes "alice") (codes "pw123456") 7 ∷ [];
  sessions = [];
}

abbrev sample_service : AuthService
sample_service = new_auth_service sample_users

abbrev alice_logs_in : Request
alice_logs_in = log_in (ok (1 ∷ 2 ∷ 3 ∷ [])) (ok (9 ∷ [])) (codes " Alice") (codes "pw123456") 100

abbrev sample_requests : List Request
sample_requests = alice_logs_in ∷ check_required false true 200 ∷ log_out (codes "else") 300 ∷ []

alice_normal : normalize_username (codes " Alice") ≡ ok (codes "alice")
unfolding normalize_username codes to_lower trim_space byte_len
alice_normal = refl

removed_stays_out_example :
    IfOk (IsOther (codes "alice")) (
      authenticate_session_token sample_crypto (codes "AQID") 500 (
        serve_all sample_crypto sample_requests
          (removed (by_disabling 50) (codes " Alice") sample_service)))
    × IfOk
        (λ d. (d.0.user.username == codes "alice") ≡ false)
        (login sample_crypto (ok (4 ∷ [])) (ok (5 ∷ [])) (codes "alice") (codes "pw123456") 500 (
          serve_all sample_crypto sample_requests
            (removed (by_disabling 50) (codes " Alice") sample_service)))
unfolding admits
removed_stays_out_example =
    removed_stays_out sample_crypto (by_disabling 50) (codes " Alice") (codes "alice")
      sample_requests sample_service (codes "AQID") (ok (4 ∷ [])) (ok (5 ∷ [])) (codes "alice")
      (codes "pw123456") 500 alice_normal refl

none_draws :
    all
      (λ r. not (
        issues sample_crypto
          (trim_space (hash_session_token sample_crypto (trim_space (codes "XYZ"))))
          r))
      sample_requests
    ≡ true
unfolding issues hash_session_token trim_space codes list_beq generate_session_token hex_encode
none_draws = refl

revoked_stays_revoked_example :
    authenticate_session_token sample_crypto (codes "XYZ") 900 (
      serve_all sample_crypto sample_requests
        (revoke_session_token sample_crypto (codes "XYZ") 800 sample_service))
    ≡ ok none
revoked_stays_revoked_example =
    revoked_stays_revoked sample_crypto (codes "XYZ") 800 900 sample_requests sample_service
      none_draws

users_readable : all is_readable sample_users.users ≡ true
unfolding is_readable db_parse_time db_format_time
users_readable = refl

auth_required_exact_example :
    (auth_required false true 400
      (serve_all sample_crypto sample_requests (new_auth_service sample_users))).0
    ≡ (false
        || (true
            && ltb 0 (
                count_enabled_users
                  (serve_all sample_crypto sample_requests (new_auth_service sample_users)).db)))
auth_required_exact_example =
    auth_required_exact sample_crypto sample_requests sample_users false true 400 users_readable
      refl

users-IsKeyed : IsKeyed sample_users.users
unfolding distinct contains codes trim_space list_beq
users-IsKeyed = (refl, refl)

abbrev alice_session : LoginResult
alice_session = record {
  user = new_user (codes "au-01") (codes "alice") (codes "pw123456") 7;
  token = codes "AQID";
  expires_at = 86400000000100;
}

abbrev service_with_session : AuthService
service_with_session = record sample_service {
  db = record sample_users {
    sessions =
        new_session_row (codes "as-09") (codes "au-01") (codes "41514944") 86400000000100 100 ∷ [];
  };
}

alice_in :
    login sample_crypto
      (ok (1 ∷ 2 ∷ 3 ∷ []))
      (ok (9 ∷ []))
      (codes " Alice")
      (codes "pw123456")
      100
      sample_service
    ≡ ok (alice_session, service_with_session)
unfolding login codes trim_space to_lower byte_len new_auth_service list_beq db_parse_time
    db_format_time contains db_before
alice_in = refl

login-authenticates_example :
    authenticate_session_token sample_crypto (codes "AQID") 86399000000000 service_with_session
    ≡ ok (some alice_session.user)
unfolding new_auth_service list_beq
login-authenticates_example =
    login-authenticates sample_crypto 1 (2 ∷ 3 ∷ []) (ok (9 ∷ [])) (codes " Alice")
      (codes "pw123456") 100 86399000000000 sample_service service_with_session alice_session
      users-IsKeyed (omega arith) alice_in
