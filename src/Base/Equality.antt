-- ===== src/Base/Equality.antt =====
-- Boolean equality as an interface: the numbers and the lists of a type that has one.
use Prim.Native.Nat.{ℕ, compare, Ordering}
use mathlib.Core.Path.{◌≡◌, refl}
use mathlib.Core.Logic.{◌↔◌}
use mathlib.Core.Bool.{Bool, true, false, ◌&&◌}
use mathlib.Core.List.{List, [], ◌∷◌}
use native.Mathlib.Omega.{arith}

abbrev nat_beq : ℕ → ℕ → Bool
nat_beq m n = elim (compare m n) [ Ordering.eq ↦ true | _ ↦ false ]

pub nat_beq_iff : (m n : ℕ) → (nat_beq m n ≡ true) ↔ (m ≡ n)
nat_beq_iff m n = ground arith

pub record Eq {ℓ} (T : Type ℓ) : Type ℓ where
  pub beq : T → T → Bool
  pub beq_iff : (x y : T) → (beq x y ≡ true) ↔ (x ≡ y)

instance abbrev pub nat_eq : Eq ℕ
nat_eq = record { beq = nat_beq; beq_iff = nat_beq_iff }

-- The test of the instance, written as an operator.
infix 50 ◌==◌
abbrev pub ◌==◌ {ℓ} : {T : Type ℓ} ⦃eq : Eq T⦄ → T → T → Bool
◌==◌ ⦃eq⦄ = eq.beq

module _ {ℓ} {A : Type ℓ} ⦃e : Eq A⦄ where
  -- Shut: a proof reads a test of lists by `list_beq_iff`.
  unfoldable pub list_beq : List A → List A → Bool
  list_beq [] [] = true
  list_beq [] (y ∷ ys) = false
  list_beq (x ∷ xs) [] = false
  list_beq (x ∷ xs) (y ∷ ys) = (x == y) && list_beq xs ys

  pub list_beq_iff : (xs ys : List A) → (list_beq xs ys ≡ true) ↔ (xs ≡ ys)
  unfolding list_beq
  list_beq_iff [] [] = (λ _. refl, λ _. refl)
  list_beq_iff [] (y ∷ ys) = (λ h. cc, λ h. cc)
  list_beq_iff (x ∷ xs) [] = (λ h. cc, λ h. cc)
  list_beq_iff (x ∷ xs) (y ∷ ys) = ground (arith, e.beq_iff x y, list_beq_iff xs ys)

instance abbrev pub list_eq {ℓ} : {A : Type ℓ} ⦃e : Eq A⦄ → Eq (List A)
list_eq = record { beq = list_beq; beq_iff = list_beq_iff }

module _ {ℓ} {A : Type ℓ} ⦃e : Eq A⦄ where
  pub eq_refl : (a : A) → (a == a) ≡ true
  eq_refl a = (e.beq_iff a a).1 refl

  pub eq_of : (a b : A) → (a == b) ≡ true → a ≡ b
  eq_of a b = (e.beq_iff a b).0

  pub eq_symm : (a b : A) → (a == b) ≡ (b == a)
  eq_symm a b = ground (arith, e.beq_iff a b, e.beq_iff b a)
