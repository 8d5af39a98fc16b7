-- ===== src/Server/AuthService/Required.antt =====
-- Whether authentication is required, after every history.
use grns.Base.{
  ◌-◌, ◌≡◌, refl, Bool, true, false, not, ◌&&◌, ◌||◌, List, Option, all, nat_eq, ◌==◌, arith,
  if-both, ltb,
}
use grns.Models.{Time}
use grns.Store.Auth.{AuthDb, count_enabled_users}
use grns.Store.Auth.Readable.{is_readable}
use grns.Server.AuthService.{
  AuthService, new_auth_service, auth_required, answer_required, cached_enabled_users,
}
use grns.Server.SessionTokens.{Crypto}
use grns.Server.AuthService.Cache.{IsFresh, is_timely, serve-IsFresh}
use grns.Server.AuthService.Histories.{Request, serve_all, serve_all-keeps}

auth_required-fresh_answer :
    (api_token users : Bool) (now : Time) (a : AuthService)
    → IsFresh a
    → (auth_required api_token users now a).0
      ≡ (api_token || (users && ltb 0 (count_enabled_users a.db)))
unfolding auth_required answer_required cached_enabled_users IsFresh
auth_required-fresh_answer true users now a h = refl
auth_required-fresh_answer false false now a h = refl
auth_required-fresh_answer false true now a h =
    let Exact = λ (r : Option Bool × AuthService).
      (answer_required now r).0 ≡ ltb 0 (count_enabled_users a.db) in
    if-both Exact (a.enabled_users_cache_ttl == 0) _ _ (λ _. refl)
      λ _.
        if-both Exact (not a.enabled_users_cached) _ _ (λ _. refl)
          λ cached.
            if-both Exact (ltb a.enabled_users_cache_ttl (now - a.enabled_users_cached_at)) _ _
              (λ _. refl) λ _. h.1 (ground arith)

new_auth_service-IsFresh :
    (db : AuthDb) → all is_readable db.users ≡ true → IsFresh (new_auth_service db)
unfolding new_auth_service IsFresh
new_auth_service-IsFresh db h = (h, λ c. absurd (cc c))

-- From tables whose times can be read, and after every history of requests, each served as one
-- step, of which those that create or switch a user come before the year 10000: authentication is
-- required exactly if an API token is configured, or if users are to be asked for and at that
-- moment an enabled one is in the table. A cached answer is never stale.
pub auth_required_exact :
    (crypto : Crypto) (requests : List Request) (db : AuthDb) (api_token users : Bool) (now : Time)
    → all is_readable db.users ≡ true
    → all is_timely requests ≡ true
    → (auth_required api_token users now (serve_all crypto requests (new_auth_service db))).0 ≡ (
        api_token
        || (users
            && ltb 0 (count_enabled_users (serve_all crypto requests (new_auth_service db)).db)))
auth_required_exact crypto requests db api_token users now h timely =
    auth_required-fresh_answer api_token users now _ (
      serve_all-keeps crypto IsFresh is_timely (λ a r t. serve-IsFresh crypto a r t) requests
        (new_auth_service db) timely (new_auth_service-IsFresh db h))
