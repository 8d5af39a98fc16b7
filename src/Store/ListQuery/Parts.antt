-- ===== src/Store/ListQuery/Parts.antt =====
-- internal/store/tasks_query_builder.go: the builder, and the helpers that write its text.
-- A limit or an offset below zero is taken like zero by the code; here they are natural numbers.
use grns.Base.{
  ℕ, zero, suc, ◌+◌, ◌/◌, ◌%◌, Bool, not, ◌&&◌, List, [], ◌∷◌, ◌++◌, Option, none, some, map,
  if◌then◌else◌, ◌==◌, nat_eq, ltb, is_empty, length, String,
}
use grns.Base.Text.{Text, codes}
use grns.Base.Int.{ℤ}
use grns.Models.{Time}
use grns.Store.Time.{DbTime}

-- store.ListFilter
pub record ListFilter : Type 0 where
  pub project : Text
  pub statuses : List Text
  pub types : List Text
  pub priority : Option ℤ
  pub priority_min : Option ℤ
  pub priority_max : Option ℤ
  pub parent_id : Text
  pub labels : List Text
  pub labels_any : List Text
  pub spec_regex : Text
  pub assignee : Text
  pub no_assignee : Bool
  pub ids : List Text
  pub title_contains : Text
  pub desc_contains : Text
  pub notes_contains : Text
  pub created_after : Option Time
  pub created_before : Option Time
  pub updated_after : Option Time
  pub updated_before : Option Time
  pub closed_after : Option Time
  pub closed_before : Option Time
  pub empty_description : Bool
  pub no_labels : Bool
  pub search_query : Text
  pub limit : ℕ
  pub offset : ℕ

-- An argument of the prepared statement.
pub data Arg : Type 0 where
  text : Text → Arg
  int : ℤ → Arg
  count : ℕ → Arg
  time : DbTime → Arg

pub record Builder : Type 0 where
  pub query : Text
  pub args : List Arg
  pub clauses : List Text

-- strings.Repeat, and strings.TrimRight at one code point.
unfoldable pub repeat_text : ℕ → Text → Text
repeat_text zero s = []
repeat_text (suc n) s = s ++ repeat_text n s

unfoldable pub trim_right_rune : ℕ → Text → Text
trim_right_rune d [] = []
trim_right_rune d (c ∷ s) =
    let rest = trim_right_rune d s in if is_empty rest && (c == d) then [] else c ∷ rest

unfoldable pub placeholders : ℕ → Text
unfolding repeat_text trim_right_rune
placeholders n = trim_right_rune b',' (repeat_text n (b'?' ∷ b',' ∷ []))

-- %d: the decimal digits, by at most `fuel` divisions.
unfoldable pub decimal_from : ℕ → ℕ → Text
decimal_from zero n = []
decimal_from (suc fuel) n =
    let rest = decimal_from fuel (n / 10) in
    if ltb n 10 then (b'0' + n) ∷ [] else rest ++ (b'0' + n % 10) ∷ []

unfoldable pub decimal : ℕ → Text
unfolding decimal_from
decimal n = decimal_from (suc n) n

-- One condition with the arguments of its placeholders.
unfoldable pub append_clause : Text → List Arg → Builder → Builder
append_clause clause args b = record b { args = b.args ++ args; clauses = b.clauses ++ clause ∷ [] }

unfoldable pub append_when : Bool → Text → List Arg → Builder → Builder
unfolding append_clause
append_when test clause args b = if test then append_clause clause args b else b

unfoldable pub append_some {ℓ} : {A : Type ℓ} → (A → Arg) → Text → Option A → Builder → Builder
unfolding append_clause
append_some arg clause none b = b
append_some arg clause (some a) b = append_clause clause (arg a ∷ []) b

-- head, placeholders for the values, tail.
unfoldable pub append_in : String → List Text → Text → Builder → Builder
unfolding append_when placeholders
append_in head values tail b =
    append_when (not (is_empty values)) (codes head ++ placeholders (length values) ++ tail)
      (map text values) b
