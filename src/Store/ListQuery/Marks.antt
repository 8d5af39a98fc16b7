-- ===== src/Store/ListQuery/Marks.antt =====
-- The placeholders in the text of the list query, counted.
use grns.Base.{
  ℕ, zero, suc, ◌+◌, ◌/◌, ◌%◌, ◌≡◌, refl, ◌∙◌, List, [], ◌∷◌, ◌++◌, if◌then◌else◌, ◌==◌, nat_eq,
  arith,
}
use grns.Base.Text.{Text}
use grns.Store.ListQuery.Parts.{repeat_text, trim_right_rune, placeholders, decimal_from}

-- How often a question mark stands in the text.
unfoldable pub marks : Text → ℕ
marks [] = 0
marks (c ∷ s) = (if c == b'?' then 1 else 0) + marks s

pub marks-append : (s t : Text) → marks (s ++ t) ≡ marks s + marks t
unfolding marks
marks-append [] t = omega arith
marks-append (c ∷ s) t = omega (arith, marks-append s t)

unfoldable pub marks_all : List Text → ℕ
marks_all [] = 0
marks_all (s ∷ ss) = marks s + marks_all ss

pub marks_all-append : (ss ts : List Text) → marks_all (ss ++ ts) ≡ marks_all ss + marks_all ts
unfolding marks_all
marks_all-append [] ts = omega arith
marks_all-append (s ∷ ss) ts = omega (arith, marks_all-append ss ts)

marks-repeat_text : (n : ℕ) → marks (repeat_text n (b'?' ∷ b',' ∷ [])) ≡ n
unfolding marks repeat_text
marks-repeat_text zero = refl
marks-repeat_text (suc n) = omega (arith, marks-repeat_text n)

marks-trim_right_rune : (s : Text) → marks (trim_right_rune b',' s) ≡ marks s
unfolding marks trim_right_rune
marks-trim_right_rune [] = refl
marks-trim_right_rune (c ∷ s) = ground (arith, marks-trim_right_rune s)

-- One mark for each value.
pub marks-placeholders : (n : ℕ) → marks (placeholders n) ≡ n
unfolding placeholders
marks-placeholders n =
    marks-trim_right_rune (repeat_text n (b'?' ∷ b',' ∷ [])) ∙ marks-repeat_text n

pub marks-decimal_from : (fuel n : ℕ) → marks (decimal_from fuel n) ≡ 0
unfolding marks decimal_from
marks-decimal_from zero n = refl
marks-decimal_from (suc fuel) n = ground (
  arith,
  marks-decimal_from fuel (n / 10),
  marks-append (decimal_from fuel (n / 10)) ((b'0' + n % 10) ∷ []),
)
