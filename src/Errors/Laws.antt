-- ===== src/Errors/Laws.antt =====
-- What reaches the client of an error that passes through the wrappers.
use grns.Base.{
  ◌≡◌, refl, ◌⊎◌, inl, inr, ℕ, arith, ◌<◌, Bool, true, false, subst, if◌then◌else◌, String,
}
use grns.Errors.{
  Error, Result, ok, err, api, plain, wrap, make_api_error, write_service_error, ◌>>=◌, IfOk,
  map_err,
}

-- A chain that returned a value had one at its first step.
pub >>=-eq-ok {ℓ μ} :
    {T : Type ℓ} {U : Type μ} (r : Result T) (next : T → Result U) {u : U}
    → (r >>= next) ≡ ok u
    → (t : T) × (r ≡ ok t) × (next t ≡ ok u)
>>=-eq-ok (ok t) next h = (t, refl, h)
>>=-eq-ok (err failure) next h = cc

pub Result-cases {ℓ} :
    {A : Type ℓ} (r : Result A) → ((e : Error) × (r ≡ err e)) ⊎ ((a : A) × (r ≡ ok a))
Result-cases (ok a) = inr (a, refl)
Result-cases (err e) = inl (e, refl)

module _ {ℓ κ} {A : Type ℓ} (P : A → Type κ) where
  pub IfOk-apply : (r : Result A) (a : A) → r ≡ ok a → IfOk P r → P a
  IfOk-apply (ok b) a e p = subst P (ok_inj e) p
    where
      ok_inj : ok b ≡ ok a → b ≡ a
      ok_inj e = cc
  IfOk-apply (err x) a e p = cc

  pub IfOk-refuse :
      (b : Bool) (e : Error) (m : Result A)
      → (b ≡ false → IfOk P m)
      → IfOk P (if b then err e else m)
  IfOk-refuse true e m h = tt
  IfOk-refuse false e m h = h refl

  pub IfOk-require :
      (b : Bool) (e : Error) (m : Result A)
      → (b ≡ true → IfOk P m)
      → IfOk P (if b then m else err e)
  IfOk-require true e m h = h refl
  IfOk-require false e m h = tt

  pub IfOk-if :
      (b : Bool) (m n : Result A)
      → (b ≡ true → IfOk P m)
      → (b ≡ false → IfOk P n)
      → IfOk P (if b then m else n)
  IfOk-if true m n h k = h refl
  IfOk-if false m n h k = k refl

module _ {ℓ κ} {A B : Type ℓ} (P : A → Type κ) (Q : B → Type κ) where
  pub IfOk-bind :
      (m : Result A) (f : A → Result B)
      → IfOk P m
      → ((a : A) → P a → IfOk Q (f a))
      → IfOk Q (m >>= f)
  IfOk-bind (ok a) f p k = k a p
  IfOk-bind (err e) f p k = tt

pub IfOk-self {ℓ} : {A : Type ℓ} (r : Result A) → IfOk (λ a. r ≡ ok a) r
IfOk-self (ok a) = refl
IfOk-self (err e) = tt

-- The innermost classification wins: once an error has a status, every further wrapper, also one
-- by `fmt.Errorf` with %w, leaves the status and the numeric code of the response as they were,
-- and an error without one gets those of the first wrapper.
pub make_api_error_keeps :
    (status status' : ℕ) (code code' : String) (n n' : ℕ) (e : Error)
    → 0 < status
    → write_service_error (make_api_error status' code' n' (wrap (make_api_error status code n e)))
      ≡ write_service_error (make_api_error status code n e)
unfolding write_service_error make_api_error
make_api_error_keeps status status' code code' n n' (plain f) h = ground arith
make_api_error_keeps status status' code code' n n' (api x) h = ground arith
make_api_error_keeps status status' code code' n n' (wrap x) h = ground arith

-- A bind of which nothing is asked but its last step.
pub IfOk-after {ℓ κ μ} :
    {A : Type ℓ} {B : Type κ} (Q : B → Type μ) (m : Result A) (f : A → Result B)
    → ((a : A) → IfOk Q (f a))
    → IfOk Q (m >>= f)
IfOk-after Q (ok a) f h = h a
IfOk-after Q (err e) f h = tt

pub IfOk-map_err {ℓ κ} :
    {A : Type ℓ} (P : A → Type κ) (f : Error → Error) (m : Result A)
    → IfOk P m
    → IfOk P (map_err f m)
IfOk-map_err P f (ok a) h = h
IfOk-map_err P f (err e) h = tt

pub IfOk-mono {ℓ κ} :
    {A : Type ℓ} (P Q : A → Type κ) (m : Result A) → IfOk P m → ((a : A) → P a → Q a) → IfOk Q m
IfOk-mono P Q (ok a) h k = k a h
IfOk-mono P Q (err e) h k = tt
