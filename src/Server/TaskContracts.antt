-- ===== src/Server/TaskContracts.antt =====
-- internal/server/task_contracts.go: the records that the service layer hands to the store.
use grns.Base.{ℕ, Bool, List, Option}
use grns.Base.Text.{Text}
use grns.Base.Int.{ℤ}
use grns.Models.{Time, Custom}
use grns.Store.Tasks.{TaskUpdate}
use grns.Store.ListQuery.Parts.{ListFilter}

-- taskListFilter
pub record TaskListFilter : Type 0 where
  pub project : Text
  pub statuses : List Text
  pub types : List Text
  pub priority : Option ℤ
  pub priority_min : Option ℤ
  pub priority_max : Option ℤ
  pub parent_id : Text
  pub labels : List Text
  pub labels_any : List Text
  pub spec_regex : Text
  pub assignee : Text
  pub no_assignee : Bool
  pub ids : List Text
  pub title_contains : Text
  pub desc_contains : Text
  pub notes_contains : Text
  pub created_after : Option Time
  pub created_before : Option Time
  pub updated_after : Option Time
  pub updated_before : Option Time
  pub closed_after : Option Time
  pub closed_before : Option Time
  pub empty_description : Bool
  pub no_labels : Bool
  pub search_query : Text
  pub limit : ℕ
  pub offset : ℕ

unfoldable pub to_store_list_filter : TaskListFilter → ListFilter
to_store_list_filter f = record {
  project = f.project;
  statuses = f.statuses;
  types = f.types;
  priority = f.priority;
  priority_min = f.priority_min;
  priority_max = f.priority_max;
  parent_id = f.parent_id;
  labels = f.labels;
  labels_any = f.labels_any;
  spec_regex = f.spec_regex;
  assignee = f.assignee;
  no_assignee = f.no_assignee;
  ids = f.ids;
  title_contains = f.title_contains;
  desc_contains = f.desc_contains;
  notes_contains = f.notes_contains;
  created_after = f.created_after;
  created_before = f.created_before;
  updated_after = f.updated_after;
  updated_before = f.updated_before;
  closed_after = f.closed_after;
  closed_before = f.closed_before;
  empty_description = f.empty_description;
  no_labels = f.no_labels;
  search_query = f.search_query;
  limit = f.limit;
  offset = f.offset;
}

-- taskUpdatePatch; `kind` is its field Type.
pub record TaskUpdatePatch : Type 0 where
  pub title : Option Text
  pub status : Option Text
  pub kind : Option Text
  pub priority : Option ℤ
  pub description : Option Text
  pub spec_id : Option Text
  pub parent_id : Option Text
  pub assignee : Option Text
  pub notes : Option Text
  pub design : Option Text
  pub acceptance_criteria : Option Text
  pub source_repo : Option Text
  pub closed_at : Option Time
  pub custom : Option Custom
  pub updated_at : Time

unfoldable pub to_store_task_update : TaskUpdatePatch → TaskUpdate
to_store_task_update p = record {
  title = p.title;
  status = p.status;
  kind = p.kind;
  priority = p.priority;
  description = p.description;
  spec_id = p.spec_id;
  parent_id = p.parent_id;
  assignee = p.assignee;
  notes = p.notes;
  design = p.design;
  acceptance_criteria = p.acceptance_criteria;
  source_repo = p.source_repo;
  closed_at = p.closed_at;
  custom = p.custom;
  updated_at = p.updated_at;
}
