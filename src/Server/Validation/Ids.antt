-- ===== src/Server/Validation/Ids.antt =====
-- Identifiers: the shapes that the regular expressions accept, and the project an id belongs to.
use grns.Base.{ℕ, ◌≡◌, refl, Bool, true, false, ◌||◌, [], ◌∷◌, arith, nat_eq, all, length}
use grns.Base.Text.{
  Text, text_eq, trim_space, trim_left, trim_right, to_lower, is_space, lower_rune, is_lower_letter,
}
use grns.Server.Validation.{validate_id, is_base36, is_dash}

-- The characters of an id are neither white space nor upper case.
abbrev pub is_id_rune : ℕ → Bool
is_id_rune c = is_base36 c || is_dash c

id_rune_plain : (c : ℕ) → is_id_rune c ≡ true → (is_space c ≡ false) × (lower_rune c ≡ c)
unfolding is_space lower_rune
id_rune_plain c h = ground arith

-- An accepted id is two letters, a dash and four base 36 characters.
pub validate_id-shape :
    (id : Text)
    → validate_id id ≡ true
    → (a : ℕ) × (b : ℕ) × (rest : Text) × (id ≡ a ∷ b ∷ b'-' ∷ rest)
      × (is_lower_letter a ≡ true)
      × (is_lower_letter b ≡ true)
      × (all is_base36 rest ≡ true)
      × (length rest ≡ 4)
unfolding validate_id
validate_id-shape (a ∷ b ∷ d ∷ e ∷ f ∷ g ∷ h ∷ []) v =
    (a, b, e ∷ f ∷ g ∷ h ∷ [], ground arith, ground arith, ground arith, ground arith, refl)
validate_id-shape _ v = ground arith

pub to_lower_plain : (s : Text) → all is_id_rune s ≡ true → to_lower s ≡ s
unfolding to_lower
to_lower_plain [] h = refl
to_lower_plain (c ∷ s) h = ground (arith, id_rune_plain c, to_lower_plain s)

trim_right_plain : (s : Text) → all is_id_rune s ≡ true → trim_right s ≡ s
unfolding trim_right
trim_right_plain [] h = refl
trim_right_plain (c ∷ s) h = ground (arith, id_rune_plain c, trim_right_plain s)

pub trim_space_plain : (s : Text) → all is_id_rune s ≡ true → trim_space s ≡ s
unfolding trim_space trim_left
trim_space_plain [] h = refl
trim_space_plain (c ∷ s) h = ground (arith, id_rune_plain c, trim_right_plain (c ∷ s))
