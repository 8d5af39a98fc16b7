-- ===== src/Base/Text/Laws.antt =====
-- Trimming and lower case: each is idempotent, and lower case keeps what is trimmed trimmed.
use mathlib.Core.Logic.{inl, inr}
use grns.Base.Tests.{Bool-cases}
use grns.Base.Lists.{length}
use grns.Base.Text.{
  Text, is_space, trim_left, trim_right, trim_space, lower_rune, to_lower, has_prefix,
}
use Prim.Native.Nat.{ℕ, ◌≤◌}
use mathlib.Core.Path.{◌≡◌, refl, ap, ◌∙◌}
use mathlib.Core.Bool.{true}
use mathlib.Core.List.{[], ◌∷◌, ◌++◌}
use native.Mathlib.Omega.{arith}

pub lower_rune_idem : (c : ℕ) → lower_rune (lower_rune c) ≡ lower_rune c
unfolding lower_rune
lower_rune_idem c = ground arith

pub is_space-lower_rune : (c : ℕ) → is_space (lower_rune c) ≡ is_space c
unfolding lower_rune is_space
is_space-lower_rune c = ground arith

pub to_lower_idem : (s : Text) → to_lower (to_lower s) ≡ to_lower s
unfolding to_lower
to_lower_idem [] = refl
to_lower_idem (c ∷ s) = cc (lower_rune_idem c, to_lower_idem s)

length-trim_left-le : (s : Text) → length (trim_left s) ≤ length s
unfolding trim_left
length-trim_left-le [] = omega arith
length-trim_left-le (c ∷ s) = ground (arith, length-trim_left-le s)

trim_left_idem : (s : Text) → trim_left (trim_left s) ≡ trim_left s
unfolding trim_left
trim_left_idem [] = refl
trim_left_idem (c ∷ s) = elim (Bool-cases (is_space c)) [
  | inl e ↦ rw e (trim_left_idem s)
  | inr e ↦ rw e (rw e refl)
]

trim_right_idem : (s : Text) → trim_right (trim_right s) ≡ trim_right s
unfolding trim_right
trim_right_idem [] = refl
trim_right_idem (c ∷ s) = ground (arith, trim_right_idem s)

-- What starts with no space still does after trimming on the right.
trim_left-trim_right : (s : Text) → trim_left s ≡ s → trim_left (trim_right s) ≡ trim_right s
unfolding trim_left trim_right
trim_left-trim_right [] h = refl
trim_left-trim_right (c ∷ s) h = elim (Bool-cases (is_space c)) [
  | inl e ↦ absurd (omega (arith, length-trim_left-le s, ap length (rw e at h)))
  | inr e ↦ ground (arith, e)
]

pub trim_space_idem : (s : Text) → trim_space (trim_space s) ≡ trim_space s
unfolding trim_space
trim_space_idem s =
    ap trim_right (trim_left-trim_right (trim_left s) (trim_left_idem s))
    ∙ trim_right_idem (trim_left s)

trim_left-to_lower : (s : Text) → trim_left (to_lower s) ≡ to_lower (trim_left s)
unfolding trim_left to_lower
trim_left-to_lower [] = refl
trim_left-to_lower (c ∷ s) = ground (arith, trim_left-to_lower s, is_space-lower_rune c)

trim_right-to_lower : (s : Text) → trim_right (to_lower s) ≡ to_lower (trim_right s)
unfolding trim_right to_lower
trim_right-to_lower [] = refl
trim_right-to_lower (c ∷ s) = ground (arith, trim_right-to_lower s, is_space-lower_rune c)

pub trim_space-to_lower : (s : Text) → trim_space (to_lower s) ≡ to_lower (trim_space s)
unfolding trim_space
trim_space-to_lower s = ap trim_right (trim_left-to_lower s) ∙ trim_right-to_lower (trim_left s)

-- strings.ToLower of strings.TrimSpace, by which names are put in canonical form, done twice.
pub to_lower-trim_space_idem :
    (s : Text) → to_lower (trim_space (to_lower (trim_space s))) ≡ to_lower (trim_space s)
to_lower-trim_space_idem s =
    ap to_lower (trim_space-to_lower (trim_space s) ∙ ap to_lower (trim_space_idem s))
    ∙ to_lower_idem (trim_space s)

pub has_prefix-append : (s t : Text) → has_prefix (s ++ t) s ≡ true
unfolding has_prefix
has_prefix-append [] t = refl
has_prefix-append (c ∷ s) t = ground (arith, has_prefix-append s t)
