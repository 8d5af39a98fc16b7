-- ===== src/Base/Lists.antt =====
-- Lists measured by native numbers, tests over lists, and the Boolean membership test.
use Prim.Native.Nat.{ℕ, zero, suc, ◌+◌}
use mathlib.Core.Path.{◌≡◌, refl}
use mathlib.Core.Bool.{Bool, true, false, ◌&&◌, ◌||◌}
use mathlib.Core.List.{List, [], ◌∷◌, ◌++◌, map}
use native.Mathlib.Omega.{arith}
use grns.Base.Tests.{if◌then◌else◌}
use grns.Base.Equality.{Eq, ◌==◌}

module _ {ℓ} {A : Type ℓ} where
  abbrev pub length : List A → ℕ
  length [] = 0
  length (x ∷ xs) = suc (length xs)

  abbrev pub take : ℕ → List A → List A
  take zero xs = []
  take (suc n) [] = []
  take (suc n) (x ∷ xs) = x ∷ take n xs

  abbrev pub drop : ℕ → List A → List A
  drop zero xs = xs
  drop (suc n) [] = []
  drop (suc n) (x ∷ xs) = drop n xs

  abbrev pub all : (A → Bool) → List A → Bool
  all p [] = true
  all p (x ∷ xs) = p x && all p xs

  abbrev pub any : (A → Bool) → List A → Bool
  any p [] = false
  any p (x ∷ xs) = p x || any p xs

  -- The rows that pass a Boolean test.
  abbrev pub filter : (A → Bool) → List A → List A
  filter p [] = []
  filter p (x ∷ xs) = let rest = filter p xs in if p x then x ∷ rest else rest

  abbrev pub is_empty : List A → Bool
  is_empty [] = true
  is_empty (x ∷ xs) = false

  pub length-append : (xs ys : List A) → length (xs ++ ys) ≡ length xs + length ys
  length-append [] ys = omega arith
  length-append (x ∷ xs) ys = omega (arith, length-append xs ys)

  pub all-append : (p : A → Bool) (xs ys : List A) → all p (xs ++ ys) ≡ (all p xs && all p ys)
  all-append p [] ys = refl
  all-append p (x ∷ xs) ys = ground (arith, all-append p xs ys)

module _ {ℓ κ} {A : Type ℓ} {B : Type κ} where
  pub length-map : (xs : List A) (f : A → B) → length (map f xs) ≡ length xs
  length-map [] f = refl
  length-map (x ∷ xs) f = omega (arith, length-map xs f)

module _ {ℓ} {A : Type ℓ} ⦃e : Eq A⦄ where
  unfoldable pub contains : List A → A → Bool
  contains [] a = false
  contains (x ∷ xs) a = (x == a) || contains xs a

  -- Every element of the list occurs once.
  unfoldable pub distinct : List A → Bool
  unfolding contains
  distinct [] = true
  distinct (x ∷ xs) = if contains xs x then false else distinct xs

  pub contains-append :
      (xs ys : List A) (a : A) → contains (xs ++ ys) a ≡ (contains xs a || contains ys a)
  unfolding contains
  contains-append [] ys a = refl
  contains-append (x ∷ xs) ys a = ground (arith, contains-append xs ys a)

  -- `if seen[value] { continue }`, then append: the list stands for the set `seen` too.
  unfoldable pub append_new : List A → A → List A
  unfolding contains
  append_new out value = if contains out value then out else out ++ value ∷ []

  unfoldable pub unique_from : List A → List A → List A
  unfolding append_new
  unique_from out [] = out
  unique_from out (value ∷ values) = unique_from (append_new out value) values

  -- `uniqueStrings` of the packages server and store: the first of each value, in order.
  unfoldable pub unique_strings : List A → List A
  unfolding unique_from
  unique_strings values = unique_from [] values

  pub distinct-append_one :
      (ls : List A) (a : A)
      → distinct ls ≡ true
      → contains ls a ≡ false
      → distinct (ls ++ a ∷ []) ≡ true
  unfolding distinct contains
  distinct-append_one [] a d n = refl
  distinct-append_one (l ∷ ls) a d n =
      ground (
        arith,
        distinct-append_one ls a,
        contains-append ls (a ∷ []) l,
        e.beq_iff l a,
        e.beq_iff a l,
      )

  pub append_new-distinct :
      (acc : List A) (a : A) → distinct acc ≡ true → distinct (append_new acc a) ≡ true
  unfolding append_new
  append_new-distinct acc a d = ground (arith, distinct-append_one acc a d)

  pub contains-append_new :
      (acc : List A) (a b : A) → contains (append_new acc a) b ≡ (contains acc b || (a == b))
  unfolding append_new contains
  contains-append_new acc a b = ground (arith, contains-append acc (a ∷ []) b, e.beq_iff a b)

  unique_from-distinct :
      (out values : List A) → distinct out ≡ true → distinct (unique_from out values) ≡ true
  unfolding unique_from
  unique_from-distinct out [] d = d
  unique_from-distinct out (v ∷ vs) d =
      unique_from-distinct (append_new out v) vs (append_new-distinct out v d)

  contains-unique_from :
      (out values : List A) (a : A)
      → contains (unique_from out values) a ≡ (contains out a || contains values a)
  unfolding unique_from contains
  contains-unique_from out [] a = ground arith
  contains-unique_from out (v ∷ vs) a =
      ground (arith, contains-unique_from (append_new out v) vs a, contains-append_new out v a)

  pub unique_strings-distinct : (values : List A) → distinct (unique_strings values) ≡ true
  unfolding unique_strings distinct
  unique_strings-distinct values = unique_from-distinct [] values refl

  pub contains-unique_strings :
      (values : List A) (a : A) → contains (unique_strings values) a ≡ contains values a
  unfolding unique_strings contains
  contains-unique_strings values a = contains-unique_from [] values a
