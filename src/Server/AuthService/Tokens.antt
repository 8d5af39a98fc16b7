-- ===== src/Server/AuthService/Tokens.antt =====
-- Session tokens have no spaces, so that trimming leaves them as they are.
use grns.Base.{
  ℕ, ◌+◌, ◌*◌, ◌/◌, ◌%◌, ◌≡◌, refl, ap, Bool, true, false, not, ◌&&◌, List, [], ◌∷◌, all,
  if◌then◌else◌, nat_eq, is_empty, arith,
}
use grns.Base.Text.{Text, text_eq, trim_space, trim_left, trim_right, is_space}
use grns.Server.SessionTokens.{base64_url, base64_url_rune}

abbrev pub is_dense : Text → Bool
is_dense s = all (λ c. not (is_space c)) s

dense-tail :
    (c : ℕ) (s : Text) → is_dense (c ∷ s) ≡ true → (is_space c ≡ false) × (is_dense s ≡ true)
dense-tail c s h = (ground arith, ground arith)

keep-last :
    (b : Bool) (c : ℕ) (r s : Text)
    → b ≡ false
    → r ≡ s
    → (if is_empty r && b then [] else c ∷ r) ≡ c ∷ s
keep-last true c r s h e = absurd (cc h)
keep-last false c [] s h e = ap (λ t. c ∷ t) e
keep-last false c (d ∷ r) s h e = ap (λ t. c ∷ t) e

-- A text without spaces is not trimmed.
trim_right-dense : (s : Text) → is_dense s ≡ true → trim_right s ≡ s
unfolding trim_right
trim_right-dense [] h = refl
trim_right-dense (c ∷ s) h =
    keep-last (is_space c) c (trim_right s) s (dense-tail c s h).0
      (trim_right-dense s (dense-tail c s h).1)

trim_left-dense : (s : Text) → is_dense s ≡ true → trim_left s ≡ s
unfolding trim_left
trim_left-dense [] h = refl
trim_left-dense (c ∷ s) h = rw (dense-tail c s h).0 refl

pub trim_space-dense : (s : Text) → is_dense s ≡ true → trim_space s ≡ s
unfolding trim_space
trim_space-dense s h = rw (trim_left-dense s h) (trim_right-dense s h)

base64_url_rune-dense : (n : ℕ) → is_space (base64_url_rune n) ≡ false
unfolding is_space
base64_url_rune-dense n = ground arith

dense-cons : (n : ℕ) (s : Text) → is_dense s ≡ true → is_dense (base64_url_rune n ∷ s) ≡ true
dense-cons n s h = rw (base64_url_rune-dense n) h

pub base64_url-dense : (bytes : List ℕ) → is_dense (base64_url bytes) ≡ true
unfolding base64_url
base64_url-dense [] = refl
base64_url-dense (a ∷ []) =
    dense-cons (a / 4) (base64_url_rune (a % 4 * 16) ∷ []) (dense-cons (a % 4 * 16) [] refl)
base64_url-dense (a ∷ b ∷ []) =
    let third = base64_url_rune (b % 16 * 4) ∷ [] in
    let second = base64_url_rune (a % 4 * 16 + b / 16) ∷ third in
    dense-cons (a / 4) second
      (dense-cons (a % 4 * 16 + b / 16) third (dense-cons (b % 16 * 4) [] refl))
base64_url-dense (a ∷ b ∷ c ∷ bytes) =
    let fourth = base64_url_rune (c % 64) ∷ base64_url bytes in
    let third = base64_url_rune (b % 16 * 4 + c / 64) ∷ fourth in
    let second = base64_url_rune (a % 4 * 16 + b / 16) ∷ third in
    dense-cons (a / 4) second (
      dense-cons (a % 4 * 16 + b / 16) third (
        dense-cons (b % 16 * 4 + c / 64) fourth
          (dense-cons (c % 64) (base64_url bytes) (base64_url-dense bytes))))

pub base64_url-filled : (b : ℕ) (bytes : List ℕ) → is_empty (base64_url (b ∷ bytes)) ≡ false
unfolding base64_url
base64_url-filled a [] = refl
base64_url-filled a (b ∷ []) = refl
base64_url-filled a (b ∷ c ∷ bytes) = refl
