-- ===== src/Server/ListParams.antt =====
-- internal/server/list_query.go, and queryInt and parseFlexibleTime of handlers.go: the list
-- parameters of a request as a filter. `get` gives the value of a parameter, empty if there is none.
-- The two layouts of time.Parse and whether regexp.Compile takes a pattern are arguments.
pub mod Filter
pub mod Sound
pub mod Accepted
use grns.Base.{
  ℕ, zero, suc, ◌+◌, ◌-◌, ◌*◌, ◌^◌, Bool, true, false, not, ◌&&◌, ◌||◌, List, [], ◌∷◌, ◌++◌, Option,
  none, some, String, if◌then◌else◌, ◌==◌, nat_eq, ltb, is_empty,
}
use grns.Base.Text.{Text, text_eq, codes, trim_space, is_digit}
use grns.Base.Int.{ℤ, pos, negsuc, ◌≤ℤ?◌}
use grns.Errors.{
  Error, Result, ok, err, plain, wrap, value_invalid, bad_request_code, map_err, guard, ◌>>=◌, ◌>>◌,
  code_invalid_query, code_invalid_priority, code_invalid_parent_id, code_invalid_time_filter,
}
use grns.Models.{Time}
use grns.Models.Domain.{is_valid_priority}
use grns.Server.TaskContracts.{TaskListFilter}
use grns.Server.Validation.{
  normalize_status, normalize_type, normalize_labels, validate_id, split_csv,
}

-- The value of atoi_digits digits, of which there is at least one.
unfoldable pub atoi_rest : ℕ → Text → Option ℕ
atoi_rest value [] = some value
atoi_rest value (c ∷ s) =
    let rest = atoi_rest (value * 10 + (c - b'0')) s in if is_digit c then rest else none

unfoldable pub atoi_digits : Text → Option ℕ
unfolding atoi_rest
atoi_digits [] = none
atoi_digits (c ∷ s) = atoi_rest 0 (c ∷ s)

unfoldable pub in_int64 : Option ℕ → Option ℤ
in_int64 none = none
in_int64 (some n) = if ltb n (2 ^ 63) then some (pos n) else none

negated : Option ℕ → Option ℤ
negated none = none
negated (some zero) = some (pos zero)
negated (some (suc n)) = if ltb n (2 ^ 63) then some (negsuc n) else none

-- strconv.Atoi: an optional sign, digits, and the range of a 64-bit int.
unfoldable pub atoi : Text → Option ℤ
unfolding atoi_digits in_int64 negated
atoi [] = none
atoi (c ∷ s) =
    if c == b'-'
    then negated (atoi_digits s)
    else if c == b'+'
    then in_int64 (atoi_digits s)
    else in_int64 (atoi_digits (c ∷ s))

unfoldable pub natural_or : Error → Option ℤ → Result ℕ
natural_or e none = err e
natural_or e (some (pos n)) = ok n
natural_or e (some (negsuc n)) = err e

unfoldable pub query_int : (String → Text) → String → Result ℕ
unfolding atoi natural_or
query_int get key =
    let value = trim_space (get key) in
    if is_empty value
    then ok 0
    else natural_or (bad_request_code (plain value_invalid) code_invalid_query) (atoi value)

unfoldable pub checked_priority : Option ℤ → Result (Option ℤ)
checked_priority none = err (bad_request_code (plain value_invalid) code_invalid_priority)
checked_priority (some value) =
    if is_valid_priority value
    then ok (some value)
    else err (bad_request_code (plain value_invalid) code_invalid_priority)

unfoldable pub parse_priority_query : Text → Result (Option ℤ)
unfolding atoi checked_priority
parse_priority_query raw = if is_empty raw then ok none else checked_priority (atoi raw)

-- The loop over the values of a list parameter.
unfoldable pub each : (Text → Result Text) → List Text → Result (List Text)
each check [] = ok []
each check (value ∷ values) = do first ← check value; rest ← each check values; ok (first ∷ rest)

abbrev pub checked_labels : List Text → Result (List Text)
checked_labels values = if is_empty values then ok values else normalize_labels values

-- What the packages time and regexp say of a text.
pub record Parsers : Type 0 where
  pub rfc3339 : Text → Option Time
  pub date : Text → Option Time
  pub compiles : Text → Bool

unfoldable pub first_time : Option Time → Option Time → Result Time
first_time (some t) other = ok t
first_time none (some t) = ok t
first_time none none = err (bad_request_code (plain value_invalid) code_invalid_time_filter)

unfoldable pub parse_flexible_time : Parsers → Text → Result Time
unfolding first_time
parse_flexible_time parsers raw =
    let value = trim_space raw in first_time (parsers.rfc3339 value) (parsers.date value)

-- parseTimeFilter, with the wrapping of its error.
unfoldable pub parse_time_filter : Parsers → Text → Result (Option Time)
unfolding parse_flexible_time
parse_time_filter parsers value =
    if is_empty value
    then ok none
    else (map_err wrap (parse_flexible_time parsers value) >>= λ t. ok (some t))

unfoldable pub parse_spec : Parsers → Text → Result Text
parse_spec parsers spec =
    if is_empty spec
    then ok []
    else if parsers.compiles (codes "(?i)" ++ spec)
    then ok (codes "(?i)" ++ spec)
    else err (bad_request_code (plain value_invalid) code_invalid_query)

abbrev pub in_order : Option ℤ → Option ℤ → Bool
in_order (some low) (some high) = low ≤ℤ? high
in_order none high = true
in_order (some low) none = true

-- The parameters that name vocabularies, in the order in which they are checked.
pub record Words : Type 0 where
  pub parent_id : Text
  pub statuses : List Text
  pub types : List Text
  pub labels : List Text
  pub labels_any : List Text

unfoldable pub parse_words : (String → Text) → Result Words
unfolding each split_csv
parse_words get = do
  let parent_id = trim_space (get "parent_id")
  guard (is_empty parent_id || validate_id parent_id)
      (bad_request_code (plain value_invalid) code_invalid_parent_id)
  statuses ← each normalize_status (split_csv (get "status"))
  types ← each normalize_type (split_csv (get "type"))
  labels ← checked_labels (split_csv (get "label"))
  labels_any ← checked_labels (split_csv (get "label_any"))
  ok (record {
    parent_id = parent_id;
    statuses = statuses;
    types = types;
    labels = labels;
    labels_any = labels_any;
  })

pub record Priorities : Type 0 where
  pub priority : Option ℤ
  pub priority_min : Option ℤ
  pub priority_max : Option ℤ

unfoldable pub parse_priorities : (String → Text) → Result Priorities
unfolding parse_priority_query
parse_priorities get = do
  priority ← parse_priority_query (get "priority")
  priority_min ← parse_priority_query (get "priority_min")
  priority_max ← parse_priority_query (get "priority_max")
  guard (in_order priority_min priority_max)
      (bad_request_code (plain value_invalid) code_invalid_priority)
  ok (record { priority = priority; priority_min = priority_min; priority_max = priority_max })

pub record Times : Type 0 where
  pub created_after : Option Time
  pub created_before : Option Time
  pub updated_after : Option Time
  pub updated_before : Option Time
  pub closed_after : Option Time
  pub closed_before : Option Time

unfoldable pub parse_times : Parsers → (String → Text) → Result Times
unfolding parse_time_filter
parse_times parsers get = do
  created_after ← parse_time_filter parsers (get "created_after")
  created_before ← parse_time_filter parsers (get "created_before")
  updated_after ← parse_time_filter parsers (get "updated_after")
  updated_before ← parse_time_filter parsers (get "updated_before")
  closed_after ← parse_time_filter parsers (get "closed_after")
  closed_before ← parse_time_filter parsers (get "closed_before")
  ok (record {
    created_after = created_after;
    created_before = created_before;
    updated_after = updated_after;
    updated_before = updated_before;
    closed_after = closed_after;
    closed_before = closed_before;
  })
