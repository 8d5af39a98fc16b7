-- ===== src/Tests/Samples.antt =====
-- The tasks, requests and databases that the examples share.
use grns.Base.{String, Bool, true, false, List, [], ◌∷◌, none, some}
use grns.Base.Text.{codes}
use grns.Base.Int.{pos}
use grns.Errors.{ok}
use grns.Models.{Task, Dependency}
use grns.Models.Domain.{type_task, dependency_blocks}
use grns.Server.Importer.{ImportRequest}
use grns.Server.TaskMapper.{TaskImportRecord}
use grns.Server.TaskService.{Call, TaskCreateRequest}
use grns.Store.Invariant.Histories.{Op, creates}
use grns.Store.ListQuery.Parts.{ListFilter}

abbrev pub sample_task : String → String → Task
sample_task id status = record {
  project = codes "gr";
  id = codes id;
  title = codes "a title";
  status = codes status;
  kind = type_task;
  priority = pos 2;
  description = [];
  spec_id = codes "spec-1";
  parent_id = [];
  assignee = [];
  notes = [];
  design = [];
  acceptance_criteria = [];
  source_repo = [];
  created_at = 7;
  updated_at = 7;
  closed_at = none;
  custom = [];
}

abbrev pub sample_dep : String → Dependency
sample_dep parent = record { parent_id = codes parent; kind = dependency_blocks }

-- Two open tasks, of which the second waits for the first.
abbrev pub sample_ops : List Op
sample_ops =
    creates (
      record { task = sample_task "gr-aaaa" "open"; labels = codes "ui" ∷ []; deps = [] }
      ∷ record {
        task = sample_task "gr-bbbb" "open";
        labels = [];
        deps = sample_dep "gr-aaaa" ∷ [];
      }
      ∷ [])
    ∷ []

-- A record that asks for a dependency on a task that does not exist.
abbrev pub orphan_record : TaskImportRecord
orphan_record = record {
  task = sample_task "gr-cccc" "open";
  has_custom = false;
  labels = none;
  deps = some (sample_dep "gr-zzzz" ∷ []);
}

abbrev pub sample_import : Bool → Bool → ImportRequest
sample_import dry_run atomic = record {
  tasks = orphan_record ∷ [];
  dry_run = dry_run;
  dedupe = [];
  orphan_handling = [];
  atomic = atomic;
}

abbrev pub sample_call : Call
sample_call = record {
  context_project = some (codes "gr");
  project_prefix = codes "gr";
  clock = λ n. 5;
  draw = λ i n. ok (1 ∷ 2 ∷ 3 ∷ 40 ∷ []);
}

abbrev pub sample_request : TaskCreateRequest
sample_request = record {
  id = [];
  title = codes " fix it ";
  status = some (codes "Closed");
  kind = none;
  priority = none;
  description = none;
  spec_id = none;
  parent_id = none;
  assignee = none;
  notes = none;
  design = none;
  acceptance_criteria = none;
  source_repo = none;
  custom = [];
  labels = codes "Bug" ∷ [];
  deps = [];
}

abbrev pub sample_filter : ListFilter
sample_filter = record {
  project = codes "gr";
  statuses = codes "open" ∷ codes "closed" ∷ [];
  types = [];
  priority = none;
  priority_min = some (pos 1);
  priority_max = none;
  parent_id = [];
  labels = codes "ui" ∷ [];
  labels_any = [];
  spec_regex = [];
  assignee = [];
  no_assignee = true;
  ids = [];
  title_contains = codes "fix";
  desc_contains = [];
  notes_contains = [];
  created_after = some 3;
  created_before = none;
  updated_after = none;
  updated_before = none;
  closed_after = none;
  closed_before = none;
  empty_description = false;
  no_labels = false;
  search_query = codes "login";
  limit = 0;
  offset = 20;
}
