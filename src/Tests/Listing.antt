-- ===== src/Tests/Listing.antt =====
-- Examples of the theorem on the list parameters.
use grns.Base.{
  ◌≡◌, refl, true, false, ◌==◌, nat_eq, [], ◌∷◌, none, some, String, list_beq, if◌then◌else◌,
  contains, append_new,
}
use grns.Base.Text.{Text, text_eq, codes, trim_space, to_lower, split, text_ltb}
use grns.Base.Int.{pos}
use grns.Errors.{ok}
use grns.Models.Domain.{parse_task_status, is_valid_priority}
use grns.Server.TaskContracts.{TaskListFilter}
use grns.Server.Validation.{
  split_csv, normalize_status, normalize_labels, normalize_label, label_rune, sort_strings,
}
use grns.Server.ListParams.{Parsers}
use grns.Server.ListParams.Filter.{parse_list_filter}
use grns.Server.ListParams.Accepted.{IsSoundFilter, parse_list_filter_sound}

-- Every pattern compiles, and no text is a time.
abbrev sample_parsers : Parsers
sample_parsers = record { rfc3339 = λ s. none; date = λ s. none; compiles = λ s. true }

sample_query : String → Text
sample_query key =
    let k = codes key in
    if k == codes "status"
    then codes "Open, closed"
    else if k == codes "label"
    then codes "ui,Bug"
    else if k == codes "priority_min"
    then codes "1"
    else if k == codes "limit"
    then codes "20"
    else if k == codes "spec"
    then codes "auth"
    else []

abbrev sample_list_filter : TaskListFilter
sample_list_filter = record {
  project = [];
  statuses = codes "open" ∷ codes "closed" ∷ [];
  types = [];
  priority = none;
  priority_min = some (pos 1);
  priority_max = none;
  parent_id = [];
  labels = codes "bug" ∷ codes "ui" ∷ [];
  labels_any = [];
  spec_regex = codes "(?i)auth";
  assignee = [];
  no_assignee = false;
  ids = [];
  title_contains = [];
  desc_contains = [];
  notes_contains = [];
  created_after = none;
  created_before = none;
  updated_after = none;
  updated_before = none;
  closed_after = none;
  closed_before = none;
  empty_description = false;
  no_labels = false;
  search_query = [];
  limit = 20;
  offset = 0;
}

sample_query_accepted : parse_list_filter sample_parsers sample_query ≡ ok sample_list_filter
unfolding parse_list_filter sample_query codes list_beq trim_space split_csv split normalize_status
    parse_task_status is_valid_priority normalize_labels normalize_label label_rune sort_strings
    to_lower text_ltb contains append_new
sample_query_accepted = refl

parse_list_filter_sound_example : IsSoundFilter sample_parsers sample_list_filter
parse_list_filter_sound_example =
    parse_list_filter_sound sample_parsers sample_query sample_list_filter sample_query_accepted
