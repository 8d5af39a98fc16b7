-- ===== src/Server/SessionTokens.antt =====
-- internal/server/auth_service.go: drawing and hashing the tokens of sessions.
use grns.Base.{ℕ, ◌+◌, ◌-◌, ◌*◌, ◌/◌, ◌%◌, List, [], ◌∷◌, if◌then◌else◌, ◌==◌, nat_eq, ltb}
use grns.Base.Text.{Text}
use grns.Errors.{Result, ok, ◌>>=◌}
use grns.Auth.{Bcrypt}
use grns.Store.Auth.{hex_encode}

-- What the service calls: SHA-256 of a text's bytes, and bcrypt.
pub record Crypto : Type 0 where
  pub sha256 : Text → List ℕ
  pub bcrypt : Bcrypt

unfoldable pub hash_session_token : Crypto → Text → Text
hash_session_token crypto token = hex_encode (crypto.sha256 token)

abbrev pub base64_url_rune : ℕ → ℕ
base64_url_rune n =
    if ltb n 26
    then b'A' + n
    else if ltb n 52
    then b'a' + (n - 26)
    else if ltb n 62
    then b'0' + (n - 52)
    else if n == 62
    then b'-'
    else b'_'

-- base64.RawURLEncoding.EncodeToString
unfoldable pub base64_url : List ℕ → Text
base64_url [] = []
base64_url (a ∷ []) = base64_url_rune (a / 4) ∷ base64_url_rune (a % 4 * 16) ∷ []
base64_url (a ∷ b ∷ []) =
    base64_url_rune (a / 4)
    ∷ base64_url_rune (a % 4 * 16 + b / 16)
    ∷ base64_url_rune (b % 16 * 4)
    ∷ []
base64_url (a ∷ b ∷ c ∷ bytes) =
    base64_url_rune (a / 4)
    ∷ base64_url_rune (a % 4 * 16 + b / 16)
    ∷ base64_url_rune (b % 16 * 4 + c / 64)
    ∷ base64_url_rune (c % 64)
    ∷ base64_url bytes

unfoldable pub generate_session_token : Result (List ℕ) → Result Text
unfolding base64_url
generate_session_token random = random >>= λ buf. ok (base64_url buf)
