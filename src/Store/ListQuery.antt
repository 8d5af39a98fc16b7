-- ===== src/Store/ListQuery.antt =====
-- internal/store/tasks_query_builder.go: the text of the list query and its arguments.
pub mod Parts
pub mod Marks
pub mod Conditions
pub mod Balance
use grns.Base.{
  ℕ, zero, suc, ◌+◌, ◌/◌, ◌%◌, Bool, true, false, not, ◌&&◌, List, [], ◌∷◌, ◌++◌, Option, none,
  some, map, if◌then◌else◌, ◌==◌, nat_eq, ltb, is_empty, length, String,
}
use grns.Base.Text.{Text, codes}
use grns.Base.Int.{ℤ}
use grns.Models.{Time}
use grns.Store.Time.{DbTime, db_format_time}
use grns.Store.Project.{normalize_project}
use grns.Store.ListQuery.Parts.{
  ListFilter, Arg, text, int, count, time, Builder, append_when, append_some, append_in, decimal,
}

abbrev pub task_columns : String
task_columns =
    "id, title, status, type, priority, description, spec_id, parent_id, assignee, notes, design, acceptance_criteria, source_repo, created_at, updated_at, closed_at, custom"

abbrev pub qualified_task_columns : String
qualified_task_columns =
    "tasks.id, tasks.title, tasks.status, tasks.type, tasks.priority, tasks.description, tasks.spec_id, tasks.parent_id, tasks.assignee, tasks.notes, tasks.design, tasks.acceptance_criteria, tasks.source_repo, tasks.created_at, tasks.updated_at, tasks.closed_at, tasks.custom"

unfoldable pub build_select : ListFilter → Builder
build_select f =
    if is_empty f.search_query
    then record {
      query = codes "SELECT " ++ codes task_columns ++ codes " FROM tasks";
      args = [];
      clauses = [];
    }
    else record {
      query =
          codes "SELECT "
          ++ codes qualified_task_columns
          ++ codes
              " FROM tasks JOIN tasks_fts ON tasks.id = tasks_fts.task_id AND tasks_fts MATCH ?";
      args = text f.search_query ∷ [];
      clauses = [];
    }

unfoldable pub append_project : ListFilter → Builder → Builder
append_project f b =
    append_when (not (is_empty f.project)) (codes "tasks.project_id = ?")
      (text (normalize_project f.project) ∷ []) b

unfoldable pub append_statuses : ListFilter → Builder → Builder
append_statuses f b = append_in "status IN (" f.statuses (codes ")") b

unfoldable pub append_types : ListFilter → Builder → Builder
append_types f b = append_in "type IN (" f.types (codes ")") b

unfoldable pub append_priority : ListFilter → Builder → Builder
append_priority f b = append_some int (codes "priority <= ?") f.priority_max (
    append_some int (codes "priority >= ?") f.priority_min
      (append_some int (codes "priority = ?") f.priority b))

unfoldable pub append_parent_id : ListFilter → Builder → Builder
append_parent_id f b =
    append_when (not (is_empty f.parent_id)) (codes "parent_id = ?") (text f.parent_id ∷ []) b

unfoldable pub append_labels : ListFilter → Builder → Builder
append_labels f b =
    append_in "id IN (SELECT task_id FROM task_labels WHERE label IN (" f.labels_any (codes "))") (
      append_in "id IN (SELECT task_id FROM task_labels WHERE label IN (" f.labels
        (codes ") GROUP BY task_id HAVING COUNT(DISTINCT label) = "
          ++ decimal (length f.labels)
          ++ codes ")")
        b)

unfoldable pub append_assignee : ListFilter → Builder → Builder
append_assignee f b =
    append_when f.no_assignee (codes "(assignee IS NULL OR assignee = '')") []
      (append_when (not (is_empty f.assignee)) (codes "assignee = ?") (text f.assignee ∷ []) b)

unfoldable pub append_ids : ListFilter → Builder → Builder
append_ids f b = append_in "id IN (" f.ids (codes ")") b

unfoldable pub append_contains_filters : ListFilter → Builder → Builder
append_contains_filters f b =
    append_when (not (is_empty f.notes_contains)) (codes "tasks.notes LIKE '%' || ? || '%'")
      (text f.notes_contains ∷ [])
      (append_when (not (is_empty f.desc_contains)) (codes "tasks.description LIKE '%' || ? || '%'")
        (text f.desc_contains ∷ [])
        (append_when (not (is_empty f.title_contains)) (codes "tasks.title LIKE '%' || ? || '%'")
          (text f.title_contains ∷ []) b))

abbrev pub time_arg : Time → Arg
time_arg t = time (db_format_time t)

unfoldable pub append_time_filters : ListFilter → Builder → Builder
append_time_filters f b0 =
    let b1 = append_some time_arg (codes "created_at > ?") f.created_after b0 in
    let b2 = append_some time_arg (codes "created_at < ?") f.created_before b1 in
    let b3 = append_some time_arg (codes "updated_at > ?") f.updated_after b2 in
    let b4 = append_some time_arg (codes "updated_at < ?") f.updated_before b3 in
    let b5 = append_some time_arg (codes "closed_at > ?") f.closed_after b4 in
    append_some time_arg (codes "closed_at < ?") f.closed_before b5

unfoldable pub append_empty_description : ListFilter → Builder → Builder
append_empty_description f b =
    append_when f.empty_description (codes "(tasks.description IS NULL OR tasks.description = '')")
      [] b

unfoldable pub append_no_labels : ListFilter → Builder → Builder
append_no_labels f b =
    append_when f.no_labels (codes "id NOT IN (SELECT task_id FROM task_labels)") [] b

-- strings.Join
unfoldable pub join : Text → List Text → Text
join sep [] = []
join sep (s ∷ []) = s
join sep (s ∷ t ∷ ts) = s ++ sep ++ join sep (t ∷ ts)

-- The twelve appends of `buildWhere`, in its order.
unfoldable pub append_conditions : ListFilter → Builder → Builder
append_conditions f b0 =
    let b1 = append_project f b0 in
    let b2 = append_statuses f b1 in
    let b3 = append_types f b2 in
    let b4 = append_priority f b3 in
    let b5 = append_parent_id f b4 in
    let b6 = append_labels f b5 in
    let b7 = append_assignee f b6 in
    let b8 = append_ids f b7 in
    let b9 = append_contains_filters f b8 in
    let b10 = append_time_filters f b9 in
    let b11 = append_empty_description f b10 in append_no_labels f b11

-- The conditions move into the text.
unfoldable pub write_where : Builder → Builder
write_where b = if is_empty b.clauses then b else record b {
  query = b.query ++ codes " WHERE " ++ join (codes " AND ") b.clauses;
  clauses = [];
}

unfoldable pub build_order : ListFilter → Builder → Builder
build_order f b =
    if is_empty f.search_query
    then record b { query = b.query ++ codes " ORDER BY updated_at DESC" }
    else record b { query = b.query ++ codes " ORDER BY tasks_fts.rank" }

add_limit : ListFilter → Builder → Builder
add_limit f b =
    if ltb 0 f.limit
    then record b { query = b.query ++ codes " LIMIT ?"; args = b.args ++ count f.limit ∷ [] }
    else b

add_offset : ListFilter → Builder → Builder
add_offset f b =
    if ltb 0 f.offset
    then record b {
      query = b.query ++ (if ltb 0 f.limit then [] else codes " LIMIT -1") ++ codes " OFFSET ?";
      args = b.args ++ count f.offset ∷ [];
    }
    else b

unfoldable pub build_pagination : ListFilter → Builder → Builder
unfolding add_limit add_offset
build_pagination f b = if is_empty f.spec_regex then add_offset f (add_limit f b) else b

unfoldable pub build_list_query : ListFilter → Text × List Arg
build_list_query f =
    let b =
      build_pagination f (build_order f (write_where (append_conditions f (build_select f)))) in
    (b.query, b.args)
