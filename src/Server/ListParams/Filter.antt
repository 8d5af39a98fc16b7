-- ===== src/Server/ListParams/Filter.antt =====
-- internal/server/list_query.go, parseListFilter: all parameters, in the order of the source.
use grns.Base.{ℕ, [], String, ◌==◌}
use grns.Base.Text.{Text, text_eq, codes, trim_space}
use grns.Errors.{Result, ok, ◌>>=◌}
use grns.Server.TaskContracts.{TaskListFilter}
use grns.Server.Validation.{split_csv}
use grns.Server.ListParams.{
  Parsers, Words, Priorities, Times, query_int, parse_words, parse_priorities, parse_times,
  parse_spec,
}

-- The filter with the parameters that are taken as they are; the project is set by the service.
unfoldable pub filter_of :
    (String → Text) → ℕ → ℕ → Words → Priorities → Times → Text → TaskListFilter
unfolding split_csv
filter_of get limit offset words priorities times spec = record {
  project = [];
  statuses = words.statuses;
  types = words.types;
  priority = priorities.priority;
  priority_min = priorities.priority_min;
  priority_max = priorities.priority_max;
  parent_id = words.parent_id;
  labels = words.labels;
  labels_any = words.labels_any;
  spec_regex = spec;
  assignee = trim_space (get "assignee");
  no_assignee = get "no_assignee" == codes "true";
  ids = split_csv (get "id");
  title_contains = trim_space (get "title_contains");
  desc_contains = trim_space (get "desc_contains");
  notes_contains = trim_space (get "notes_contains");
  created_after = times.created_after;
  created_before = times.created_before;
  updated_after = times.updated_after;
  updated_before = times.updated_before;
  closed_after = times.closed_after;
  closed_before = times.closed_before;
  empty_description = get "empty_description" == codes "true";
  no_labels = get "no_labels" == codes "true";
  search_query = trim_space (get "search");
  limit = limit;
  offset = offset;
}

unfoldable pub parse_list_filter : Parsers → (String → Text) → Result TaskListFilter
unfolding query_int parse_words parse_priorities parse_times parse_spec filter_of
parse_list_filter parsers get = do
  limit ← query_int get "limit"
  offset ← query_int get "offset"
  words ← parse_words get
  priorities ← parse_priorities get
  times ← parse_times parsers get
  spec ← parse_spec parsers (trim_space (get "spec"))
  ok (filter_of get limit offset words priorities times spec)
