-- ===== src/Server/ListParams/Sound.antt =====
-- What the parts of an accepted filter are sure to be.
use grns.Base.{
  ℕ, zero, suc, ◌<◌, ◌^◌, ◌≡◌, refl, Bool, true, false, ◌||◌, List, [], ◌∷◌, Option, none, some,
  String, ◌==◌, all, is_empty, arith, if-both, nat_eq, ltb, ltb→lt, contains,
}
use grns.Base.Text.{Text, text_eq, trim_space}
use grns.Base.Int.{ℤ, pos, negsuc}
use grns.Errors.{
  Error, Result, ok, ◌>>◌, IfOk, guard, bad_request_code, code_invalid_status, code_invalid_type,
}
use grns.Errors.Laws.{IfOk-require, IfOk-bind, IfOk-self, IfOk-mono, IfOk-map_err}
use grns.Models.Domain.{
  is_valid_task_status, is_valid_task_type, is_valid_priority, parse_word, parse_task_status,
  parse_task_type, valid_task_statuses, valid_task_types,
}
use grns.Models.Domain.Laws.{parse_word-ok}
use grns.Server.Validation.{
  normalize_status, normalize_type, normalize_labels, validate_id, split_csv,
}
use grns.Server.Validation.Labels.{IsStrictlySorted}
use grns.Server.Validation.Canonical.{AllCanonical, normalize_labels_canonical}
use grns.Server.ListParams.{
  Words, Priorities, query_int, atoi, natural_or, in_int64, negated, atoi_digits, checked_priority,
  parse_priority_query, each, checked_labels, in_order, parse_words, parse_priorities,
}

guard_then {ℓ κ} :
    {A : Type ℓ} (P : A → Type κ) (b : Bool) (e : Error) (m : Result A)
    → (b ≡ true → IfOk P m)
    → IfOk P (guard b e >> m)
guard_then P true e m h = h refl
guard_then P false e m h = tt

IsInt64 : ℤ → Type 0
IsInt64 (pos n) = n < 2 ^ 63
IsInt64 (negsuc n) = n < 2 ^ 63

abbrev EveryInt64 : Option ℤ → Type 0
EveryInt64 none = Unit
EveryInt64 (some z) = IsInt64 z

in_int64-EveryInt64 : (o : Option ℕ) → EveryInt64 (in_int64 o)
unfolding in_int64 IsInt64
in_int64-EveryInt64 none = tt
in_int64-EveryInt64 (some n) =
    if-both EveryInt64 (ltb n (2 ^ 63)) _ _ (λ h. ltb→lt n (2 ^ 63) h) λ _. tt

negated-EveryInt64 : (o : Option ℕ) → EveryInt64 (negated o)
unfolding negated IsInt64
negated-EveryInt64 none = tt
negated-EveryInt64 (some zero) = omega arith
negated-EveryInt64 (some (suc n)) =
    if-both EveryInt64 (ltb n (2 ^ 63)) _ _ (λ h. ltb→lt n (2 ^ 63) h) λ _. tt

atoi-EveryInt64 : (s : Text) → EveryInt64 (atoi s)
unfolding atoi
atoi-EveryInt64 [] = tt
atoi-EveryInt64 (c ∷ s) =
    if-both EveryInt64 (c == b'-') _ _ (λ _. negated-EveryInt64 (atoi_digits s))
      λ _.
        if-both EveryInt64 (c == b'+') _ _ (λ _. in_int64-EveryInt64 (atoi_digits s))
          λ _. in_int64-EveryInt64 (atoi_digits (c ∷ s))

natural_or_lt : (e : Error) (o : Option ℤ) → EveryInt64 o → IfOk (λ n. n < 2 ^ 63) (natural_or e o)
unfolding natural_or IsInt64
natural_or_lt e none h = tt
natural_or_lt e (some (pos n)) h = h
natural_or_lt e (some (negsuc n)) h = tt

pub query_int_lt : (get : String → Text) (key : String) → IfOk (λ n. n < 2 ^ 63) (query_int get key)
unfolding query_int
query_int_lt get key =
    if-both (IfOk (λ n. n < 2 ^ 63)) (is_empty (trim_space (get key))) _ _ (λ _. omega arith)
      λ _. natural_or_lt _ (atoi (trim_space (get key))) (atoi-EveryInt64 (trim_space (get key)))

each-all :
    (check : Text → Result Text) (p : Text → Bool)
    → ((s : Text) → IfOk (λ v. p v ≡ true) (check s))
    → (values : List Text) → IfOk (λ vs. all p vs ≡ true) (each check values)
unfolding each
each-all check p h [] = refl
each-all check p h (s ∷ values) =
    IfOk-bind (λ v. p v ≡ true) (λ vs. all p vs ≡ true) (check s) _ (h s)
      λ v pv.
        IfOk-bind (λ vs. all p vs ≡ true) (λ vs. all p vs ≡ true) (each check values) _
          (each-all check p h values) λ vs pvs. ground arith

normalize_status_valid : (s : Text) → IfOk (λ v. is_valid_task_status v ≡ true) (normalize_status s)
unfolding normalize_status parse_task_status is_valid_task_status
normalize_status_valid s =
    IfOk-map_err (λ v. contains valid_task_statuses v ≡ true)
      (λ e. bad_request_code e code_invalid_status) (parse_word valid_task_statuses s)
      (IfOk-mono (λ v. parse_word valid_task_statuses s ≡ ok v)
        (λ v. contains valid_task_statuses v ≡ true) (parse_word valid_task_statuses s)
        (IfOk-self (parse_word valid_task_statuses s))
        λ v e. (parse_word-ok valid_task_statuses s v e).1)

normalize_type_valid : (s : Text) → IfOk (λ v. is_valid_task_type v ≡ true) (normalize_type s)
unfolding normalize_type parse_task_type is_valid_task_type
normalize_type_valid s =
    IfOk-map_err (λ v. contains valid_task_types v ≡ true)
      (λ e. bad_request_code e code_invalid_type) (parse_word valid_task_types s)
      (IfOk-mono (λ v. parse_word valid_task_types s ≡ ok v)
        (λ v. contains valid_task_types v ≡ true) (parse_word valid_task_types s)
        (IfOk-self (parse_word valid_task_types s)) λ v e. (parse_word-ok valid_task_types s v e).1)

checked_labels_sorted :
    (values : List Text)
    → IfOk (λ ls. IsStrictlySorted ls × AllCanonical ls) (checked_labels values)
checked_labels_sorted [] = (tt, tt)
checked_labels_sorted (v ∷ values) =
    IfOk-mono (λ ls. normalize_labels (v ∷ values) ≡ ok ls)
      (λ ls. IsStrictlySorted ls × AllCanonical ls) (normalize_labels (v ∷ values))
      (IfOk-self (normalize_labels (v ∷ values)))
      λ ls e. let facts = normalize_labels_canonical (v ∷ values) ls e in (facts.0, facts.1)

-- The vocabularies: a valid parent or none, valid statuses and types, labels in canonical form.
unfoldable pub IsSoundWords : Words → Type 0
IsSoundWords w =
    ((is_empty w.parent_id || validate_id w.parent_id) ≡ true)
    × (all is_valid_task_status w.statuses ≡ true)
    × (all is_valid_task_type w.types ≡ true)
    × (IsStrictlySorted w.labels × AllCanonical w.labels)
    × (IsStrictlySorted w.labels_any × AllCanonical w.labels_any)

pub parse_words-IsSoundWords : (get : String → Text) → IfOk IsSoundWords (parse_words get)
unfolding parse_words IsSoundWords
parse_words-IsSoundWords get =
    let parent_id = trim_space (get "parent_id") in
    guard_then IsSoundWords (is_empty parent_id || validate_id parent_id) _ _ λ valid.
      IfOk-bind (λ vs. all is_valid_task_status vs ≡ true) IsSoundWords
        (each normalize_status (split_csv (get "status"))) _
        (each-all normalize_status is_valid_task_status normalize_status_valid
          (split_csv (get "status")))
        λ statuses s.
          IfOk-bind (λ vs. all is_valid_task_type vs ≡ true) IsSoundWords
            (each normalize_type (split_csv (get "type"))) _
            (each-all normalize_type is_valid_task_type normalize_type_valid
              (split_csv (get "type")))
            λ types t.
              IfOk-bind (λ ls. IsStrictlySorted ls × AllCanonical ls) IsSoundWords
                (checked_labels (split_csv (get "label"))) _
                (checked_labels_sorted (split_csv (get "label")))
                λ labels l.
                  IfOk-bind (λ ls. IsStrictlySorted ls × AllCanonical ls) IsSoundWords
                    (checked_labels (split_csv (get "label_any"))) _
                    (checked_labels_sorted (split_csv (get "label_any")))
                    λ labels_any k. (valid, s, t, l, k)

abbrev pub is_every_priority : Option ℤ → Bool
is_every_priority none = true
is_every_priority (some p) = is_valid_priority p

unfoldable pub IsSoundPriorities : Priorities → Type 0
IsSoundPriorities p =
    (is_every_priority p.priority ≡ true)
    × (is_every_priority p.priority_min ≡ true)
    × (is_every_priority p.priority_max ≡ true)
    × (in_order p.priority_min p.priority_max ≡ true)

parse_priority_query_valid :
    (raw : Text) → IfOk (λ p. is_every_priority p ≡ true) (parse_priority_query raw)
unfolding parse_priority_query
parse_priority_query_valid raw =
    if-both (IfOk (λ p. is_every_priority p ≡ true)) (is_empty raw) _ _ (λ _. refl)
      λ _. checked (atoi raw)
  where
    checked : (o : Option ℤ) → IfOk (λ p. is_every_priority p ≡ true) (checked_priority o)
    checked none = tt
    checked (some v) =
        IfOk-require (λ (p : Option ℤ). is_every_priority p ≡ true) (is_valid_priority v) _ _ λ h. h

pub parse_priorities-IsSoundPriorities :
    (get : String → Text) → IfOk IsSoundPriorities (parse_priorities get)
unfolding parse_priorities IsSoundPriorities
parse_priorities-IsSoundPriorities get =
    let Valid = λ (p : Option ℤ). is_every_priority p ≡ true in
    IfOk-bind Valid IsSoundPriorities (parse_priority_query (get "priority")) _
      (parse_priority_query_valid (get "priority"))
      λ priority p.
        IfOk-bind Valid IsSoundPriorities (parse_priority_query (get "priority_min")) _
          (parse_priority_query_valid (get "priority_min"))
          λ low l.
            IfOk-bind Valid IsSoundPriorities (parse_priority_query (get "priority_max")) _
              (parse_priority_query_valid (get "priority_max"))
              λ high h. guard_then IsSoundPriorities (in_order low high) _ _ λ o. (p, l, h, o)
