-- ===== src/Base/Filters.antt =====
-- What `all`, `contains` and `distinct` say of filtered lists, and of a predicate by another.
use mathlib.Core.Path.{◌≡◌, refl}
use mathlib.Core.Bool.{Bool, true, ◌&&◌}
use mathlib.Core.List.{List, [], ◌∷◌}
use Prim.Native.Nat.{◌≤◌}
use native.Mathlib.Omega.{arith}
use grns.Base.Equality.{Eq}
use grns.Base.Lists.{
  all, any, filter, contains, distinct, append_new, length, unique_from, unique_strings,
}

module _ {ℓ} {A : Type ℓ} where
  pub all_mono :
      (p q : A → Bool) (xs : List A)
      → ((a : A) → p a ≡ true → q a ≡ true)
      → all p xs ≡ true
      → all q xs ≡ true
  all_mono p q [] h k = refl
  all_mono p q (x ∷ xs) h k = ground (arith, h x, all_mono p q xs h)

  pub all-filter : (p q : A → Bool) (xs : List A) → all p xs ≡ true → all p (filter q xs) ≡ true
  all-filter p q [] h = refl
  all-filter p q (x ∷ xs) h = ground (arith, all-filter p q xs)

  -- What is left passes both tests.
  pub all-filter_and :
      (p q r : A → Bool) (xs : List A)
      → ((a : A) → p a ≡ true → q a ≡ true → r a ≡ true)
      → all p xs ≡ true
      → all r (filter q xs) ≡ true
  all-filter_and p q r [] h k = refl
  all-filter_and p q r (x ∷ xs) h k = ground (arith, h x, all-filter_and p q r xs h)

  pub filter-length-le : (p : A → Bool) (xs : List A) → length (filter p xs) ≤ length xs
  filter-length-le p [] = omega arith
  filter-length-le p (x ∷ xs) = ground (arith, filter-length-le p xs)

module _ {ℓ} {A : Type ℓ} ⦃e : Eq A⦄ where
  pub contains-filter :
      (q : A → Bool) (xs : List A) (a : A) → contains (filter q xs) a ≡ true → contains xs a ≡ true
  unfolding contains
  contains-filter q [] a h = h
  contains-filter q (x ∷ xs) a h = ground (arith, contains-filter q xs a)

  pub distinct-filter :
      (q : A → Bool) (xs : List A) → distinct xs ≡ true → distinct (filter q xs) ≡ true
  unfolding distinct
  distinct-filter q [] h = h
  distinct-filter q (x ∷ xs) h = ground (arith, distinct-filter q xs, contains-filter q xs x)

  pub all-contains :
      (p : A → Bool) (xs : List A) (a : A) → all p xs ≡ true → contains xs a ≡ true → p a ≡ true
  unfolding contains
  all-contains p [] a h k = cc
  all-contains p (x ∷ xs) a h k = ground (arith, all-contains p xs a, e.beq_iff x a)

  pub any-contains :
      (p : A → Bool) (xs : List A) (a : A) → contains xs a ≡ true → p a ≡ true → any p xs ≡ true
  unfolding contains
  any-contains p [] a h k = cc
  any-contains p (x ∷ xs) a h k = ground (arith, any-contains p xs a, e.beq_iff x a)

  pub all-append_new :
      (p : A → Bool) (xs : List A) (a : A)
      → all p xs ≡ true
      → p a ≡ true
      → all p (append_new xs a) ≡ true
  unfolding append_new
  all-append_new p xs a h k = ground (arith, grns.Base.Lists.all-append p xs (a ∷ []))

  pub all-append_new_eq :
      (p : A → Bool) (out : List A) (a : A) → all p (append_new out a) ≡ (all p out && p a)
  unfolding append_new
  all-append_new_eq p out a =
      ground (arith, all-contains p out a, grns.Base.Lists.all-append p out (a ∷ []))

  all-unique_from :
      (p : A → Bool) (out xs : List A) → all p (unique_from out xs) ≡ (all p out && all p xs)
  unfolding unique_from
  all-unique_from p out [] = ground arith
  all-unique_from p out (x ∷ xs) =
      ground (arith, all-unique_from p (append_new out x) xs, all-append_new_eq p out x)

  pub all-unique_strings : (p : A → Bool) (xs : List A) → all p (unique_strings xs) ≡ all p xs
  unfolding unique_strings
  all-unique_strings p xs = all-unique_from p [] xs
