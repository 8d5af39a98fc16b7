-- ===== src/Server/AuthService/Histories.antt =====
-- Histories of the auth service: its methods as requests, served one after the other.
use grns.Base.{ℕ, ◌≡◌, arith, Bool, true, all, List, [], ◌∷◌}
use grns.Base.Text.{Text}
use grns.Errors.{Result, ok, err, IfOk}
use grns.Models.{Time}
use grns.Server.AuthService.{
  AuthService, login, auth_required, revoke_session_token, create_admin_user, set_user_disabled,
  delete_user,
}
use grns.Server.SessionTokens.{Crypto}

-- The reads change nothing, so no request stands for AuthenticateSessionToken and ListUsers.
pub data Request : Type 0 where
  log_in : Result (List ℕ) → Result (List ℕ) → Text → Text → Time → Request
  log_out : Text → Time → Request
  check_required : Bool → Bool → Time → Request
  add_user : Result (List ℕ) → Text → Text → Time → Request
  switch_user : Text → Bool → Time → Request
  remove_user : Text → Request

-- A method that returns an error leaves the service as it was.
pub state_or {ℓ} : {A : Type ℓ} → AuthService → Result (A × AuthService) → AuthService
state_or a (ok done) = done.1
state_or a (err e) = a

unfoldable pub serve : Crypto → AuthService → Request → AuthService
unfolding state_or
serve crypto a (log_in random id_random username password now) =
    state_or a (login crypto random id_random username password now a)
serve crypto a (log_out token now) = revoke_session_token crypto token now a
serve crypto a (check_required api_token users now) = (auth_required api_token users now a).1
serve crypto a (add_user random username password now) =
    state_or a (create_admin_user crypto random username password now a)
serve crypto a (switch_user username disabled now) = (set_user_disabled username disabled now a).1
serve crypto a (remove_user username) = (delete_user username a).1

unfoldable pub serve_all : Crypto → List Request → AuthService → AuthService
unfolding serve
serve_all crypto [] a = a
serve_all crypto (r ∷ rs) a = serve_all crypto rs (serve crypto a r)

-- An invariant of every request that a test lets pass holds after every history of such requests.
pub serve_all-keeps {κ} :
    (crypto : Crypto) (P : AuthService → Type κ) (test : Request → Bool)
    → ((a : AuthService) (r : Request) → test r ≡ true → P a → P (serve crypto a r))
    → (rs : List Request) (a : AuthService) → all test rs ≡ true
    → P a
    → P (serve_all crypto rs a)
unfolding serve_all
serve_all-keeps crypto P test keep [] a h p = p
serve_all-keeps crypto P test keep (r ∷ rs) a h p =
    serve_all-keeps crypto P test keep rs (serve crypto a r) (ground arith)
      (keep a r (ground arith) p)

pub state_or-keeps {ℓ κ} :
    {A : Type ℓ} (P : AuthService → Type κ) (a : AuthService) (r : Result (A × AuthService))
    → IfOk (λ d. P d.1) r
    → P a
    → P (state_or a r)
unfolding state_or
state_or-keeps P a (ok done) h p = h
state_or-keeps P a (err e) h p = p
