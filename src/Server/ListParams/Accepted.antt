-- ===== src/Server/ListParams/Accepted.antt =====
-- What an accepted filter is sure to be.
use grns.Base.{◌<◌, ◌^◌, ◌≡◌, refl, Bool, true, ◌||◌, ◌++◌, String, all, is_empty, if-both}
use grns.Base.Text.{Text, codes, trim_space}
use grns.Errors.{ok, IfOk}
use grns.Errors.Laws.{IfOk-apply, IfOk-after, IfOk-bind, IfOk-require}
use grns.Models.Domain.{is_valid_task_status, is_valid_task_type}
use grns.Server.TaskContracts.{TaskListFilter}
use grns.Server.Validation.{validate_id}
use grns.Server.Validation.Labels.{IsStrictlySorted}
use grns.Server.Validation.Canonical.{AllCanonical}
use grns.Server.ListParams.{
  Parsers, query_int, in_order, parse_words, parse_priorities, parse_times, parse_spec,
}
use grns.Server.ListParams.Filter.{filter_of, parse_list_filter}
use grns.Server.ListParams.Sound.{
  IsSoundWords, IsSoundPriorities, is_every_priority, query_int_lt, parse_words-IsSoundWords,
  parse_priorities-IsSoundPriorities,
}

abbrev is_pattern : Parsers → Text → Bool
is_pattern parsers spec = is_empty spec || parsers.compiles spec

parse_spec_pattern :
    (parsers : Parsers) (spec : Text)
    → IfOk (λ s. is_pattern parsers s ≡ true) (parse_spec parsers spec)
unfolding parse_spec codes
parse_spec_pattern parsers spec =
    let Pattern = λ (s : Text). is_pattern parsers s ≡ true in
    if-both (IfOk Pattern) (is_empty spec) _ _ (λ _. refl)
      λ _. IfOk-require Pattern (parsers.compiles (codes "(?i)" ++ spec)) _ _ λ h. h

-- The parent is none or valid, the statuses and types are of the vocabularies, the labels are
-- canonical and sorted, the priorities are valid and in order, the limit and the offset are below
-- 2 ^ 63, and the pattern is none or compiles.
unfoldable pub IsSoundFilter : Parsers → TaskListFilter → Type 0
IsSoundFilter parsers f =
    ((is_empty f.parent_id || validate_id f.parent_id) ≡ true)
    × (all is_valid_task_status f.statuses ≡ true)
    × (all is_valid_task_type f.types ≡ true)
    × (IsStrictlySorted f.labels × AllCanonical f.labels)
    × (IsStrictlySorted f.labels_any × AllCanonical f.labels_any)
    × (is_every_priority f.priority ≡ true)
    × (is_every_priority f.priority_min ≡ true)
    × (is_every_priority f.priority_max ≡ true)
    × (in_order f.priority_min f.priority_max ≡ true)
    × (f.limit < 2 ^ 63)
    × (f.offset < 2 ^ 63)
    × ((is_empty f.spec_regex || parsers.compiles f.spec_regex) ≡ true)

parse_list_filter-IsSoundFilter :
    (parsers : Parsers) (get : String → Text)
    → IfOk (IsSoundFilter parsers) (parse_list_filter parsers get)
unfolding parse_list_filter IsSoundFilter IsSoundWords IsSoundPriorities filter_of
parse_list_filter-IsSoundFilter parsers get =
    let Sound = IsSoundFilter parsers in
    IfOk-bind (λ n. n < 2 ^ 63) Sound (query_int get "limit") _ (query_int_lt get "limit")
      λ limit m.
        IfOk-bind (λ n. n < 2 ^ 63) Sound (query_int get "offset") _ (query_int_lt get "offset")
          λ offset o.
            IfOk-bind IsSoundWords Sound (parse_words get) _ (parse_words-IsSoundWords get)
              λ words w.
                IfOk-bind IsSoundPriorities Sound (parse_priorities get) _
                  (parse_priorities-IsSoundPriorities get)
                  λ priorities p. IfOk-after Sound (parse_times parsers get) _ λ times.
                    IfOk-bind (λ s. is_pattern parsers s ≡ true) Sound
                      (parse_spec parsers (trim_space (get "spec"))) _
                      (parse_spec_pattern parsers (trim_space (get "spec")))
                      λ spec s. (w.0, w.1, w.2, w.3, w.4, p.0, p.1, p.2, p.3, m, o, s)

-- A filter that the list parameters are accepted as has no parent or one with a valid id, statuses
-- and types of the vocabularies, labels in canonical form and sorted, priorities from 0 to 4 with
-- the lower bound not above the upper, a limit and an offset below 2 ^ 63, and no pattern or one
-- that compiles.
pub parse_list_filter_sound :
    (parsers : Parsers) (get : String → Text) (f : TaskListFilter)
    → parse_list_filter parsers get ≡ ok f
    → IsSoundFilter parsers f
parse_list_filter_sound parsers get f e =
    IfOk-apply (IsSoundFilter parsers) (parse_list_filter parsers get) f e
      (parse_list_filter-IsSoundFilter parsers get)
