-- ===== src/Base/Text.antt =====
-- Go strings as lists of code points, and the functions of package strings that the program calls.
-- `to_lower` maps the ASCII letters and the two code points beyond ASCII whose lower case is an
-- ASCII letter (U+0130 and U+212A); it leaves other code points as they are.
pub mod Laws
use Prim.Native.Nat.{ℕ, zero, suc, ◌+◌}
use Prim.Native.Char.{code}
use Prim.Native.String.{String}
use mathlib.Core.Path.{◌≡◌, refl}
use mathlib.Core.Bool.{Bool, true, false, ◌&&◌, ◌||◌}
use mathlib.Core.List.{List, [], ◌∷◌, ◌++◌, map}
use grns.Base.Tests.{leb, ltb, if◌then◌else◌}
use grns.Base.Equality.{Eq, nat_eq, list_eq, ◌==◌}
use grns.Base.Lists.{is_empty}

abbrev pub Text : Type 0
Text = List ℕ

instance abbrev pub text_eq : Eq Text
text_eq = list_eq

-- The code points of a literal.
unfoldable pub codes : String → Text
codes String.[] = []
codes (String.◌∷◌ c s) = code c ∷ codes s

-- unicode.IsSpace
unfoldable pub is_space : ℕ → Bool
is_space c =
    (leb 9 c && leb c 13)
    || (c == 32)
    || (c == 0x85)
    || (c == 0xa0)
    || (c == 0x1680)
    || (leb 0x2000 c && leb c 0x200a)
    || (c == 0x2028)
    || (c == 0x2029)
    || (c == 0x202f)
    || (c == 0x205f)
    || (c == 0x3000)

unfoldable pub trim_left : Text → Text
unfolding is_space
trim_left [] = []
trim_left (c ∷ s) = if is_space c then trim_left s else c ∷ s

unfoldable pub trim_right : Text → Text
unfolding is_space
trim_right [] = []
trim_right (c ∷ s) = let r = trim_right s in if is_empty r && is_space c then [] else c ∷ r

-- strings.TrimSpace
unfoldable pub trim_space : Text → Text
unfolding trim_left trim_right
trim_space s = trim_right (trim_left s)

-- unicode.ToLower
unfoldable pub lower_rune : ℕ → ℕ
lower_rune c =
    if leb b'A' c && leb c b'Z'
    then c + 32
    else if c == 0x130
    then b'i'
    else if c == 0x212a
    then b'k'
    else c

-- strings.ToLower
unfoldable pub to_lower : Text → Text
unfolding lower_rune
to_lower s = map lower_rune s

-- len of a string: its bytes in UTF-8.
unfoldable pub byte_len : Text → ℕ
byte_len [] = 0
byte_len (c ∷ s) =
    (if ltb c 0x80 then 1 else if ltb c 0x800 then 2 else if ltb c 0x10000 then 3 else 4)
    + byte_len s

-- strings.HasPrefix s t, with the prefix second.
unfoldable pub has_prefix : Text → Text → Bool
has_prefix s [] = true
has_prefix [] (d ∷ t) = false
has_prefix (c ∷ s) (d ∷ t) = (c == d) && has_prefix s t

-- The order of Go strings, which is also that of SQLite's BINARY collation.
unfoldable pub text_ltb : Text → Text → Bool
text_ltb [] [] = false
text_ltb [] (d ∷ t) = true
text_ltb (c ∷ s) [] = false
text_ltb (c ∷ s) (d ∷ t) = ltb c d || ((c == d) && text_ltb s t)

-- strings.Split at one code point: always at least one part.
unfoldable pub split : ℕ → Text → Text × List Text
split d [] = ([], [])
split d (c ∷ s) =
    let rest = split d s in if c == d then ([], rest.0 ∷ rest.1) else (c ∷ rest.0, rest.1)

-- A regular expression that fixes the class of each code point, as ^[a-z]{2}-[0-9a-z]{4}$.
unfoldable pub matches_classes : List (ℕ → Bool) → Text → Bool
matches_classes [] [] = true
matches_classes [] (c ∷ s) = false
matches_classes (p ∷ ps) [] = false
matches_classes (p ∷ ps) (c ∷ s) = p c && matches_classes ps s

abbrev pub is_lower_letter : ℕ → Bool
is_lower_letter c = leb b'a' c && leb c b'z'

abbrev pub is_digit : ℕ → Bool
is_digit c = leb b'0' c && leb c b'9'
