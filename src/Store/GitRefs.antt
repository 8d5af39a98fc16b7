-- ===== src/Store/GitRefs.antt =====
-- internal/store/git_refs.go, closing with references, and the tables git_repos and task_git_refs
-- of internal/store/migrations.go: keys, the index against duplicates and checks. The bytes that
-- crypto/rand returns and the clock are arguments. Of the metadata the JSON text is kept. A stored
-- time of a repository that cannot be read, upon which its scan fails, is not modelled.
pub mod Inserts
pub mod Annotations
pub mod Closing
use grns.Base.{
  ℕ, ◌+◌, Bool, true, false, not, ◌&&◌, ◌||◌, List, [], ◌∷◌, ◌++◌, Option, none, some,
  if◌then◌else◌, ◌==◌, nat_eq, leb, any, all, is_empty, length, contains, unique_strings,
}
use grns.Base.Text.{Text, text_eq, codes, trim_space, to_lower, lower_rune, is_digit}
use grns.Errors.{
  Error, Result, ok, err, plain, guard, ◌>>=◌, ◌>>◌, value_required, task_not_found,
  project_mismatch, unique_constraint, foreign_key_constraint, check_constraint, other,
}
use grns.Models.{Time}
use grns.Models.Domain.{valid_git_object_types}
use grns.Store.Time.{DbTime, db_format_time}
use grns.Store.Project.{generate_id, normalize_project, project_from_task_id}
use grns.Store.Auth.{find_first}
use grns.Store.Tables.{Db, TaskRow, ids, update_where}
use grns.Store.Tasks.{is_in, closed_row, count_existing_tasks_in_project, null_if_empty}

-- A row of git_repos.
pub record GitRepoRow : Type 0 where
  pub id : Text
  pub slug : Text
  pub default_branch : Option Text
  pub created_at : DbTime
  pub updated_at : DbTime

-- A row of task_git_refs.
pub record TaskGitRefRow : Type 0 where
  pub id : Text
  pub task_id : Text
  pub repo_id : Text
  pub relation : Text
  pub object_type : Text
  pub object_value : Text
  pub resolved_commit : Option Text
  pub note : Option Text
  pub meta_json : Option Text
  pub created_at : DbTime
  pub updated_at : DbTime

pub record GitDb : Type 0 where
  pub db : Db
  pub repos : List GitRepoRow
  pub refs : List TaskGitRefRow

pub record CloseTaskGitRefInput : Type 0 where
  pub task_id : Text
  pub repo_slug : Text
  pub relation : Text
  pub object_type : Text
  pub object_value : Text
  pub resolved_commit : Text
  pub note : Text
  pub meta : Option Text

-- What is drawn from crypto/rand for the task of an id, at each attempt, and the time.
pub record Outside : Type 0 where
  pub repo_draw : Text → ℕ → Result (List ℕ)
  pub ref_draw : Text → ℕ → Result (List ℕ)
  pub now : Time

abbrev pub or_text : Option Text → Text
or_text none = []
or_text (some s) = s

-- The key of uq_task_git_refs_dedupe.
abbrev pub same_reference : TaskGitRefRow → TaskGitRefRow → Bool
same_reference a b =
    (a.task_id == b.task_id)
    && (a.repo_id == b.repo_id)
    && (a.relation == b.relation)
    && (a.object_type == b.object_type)
    && (a.object_value == b.object_value)
    && (or_text a.resolved_commit == or_text b.resolved_commit)

abbrev pub is_hex_first : Text → Bool
is_hex_first [] = false
is_hex_first (c ∷ s) = is_digit c || (leb b'a' c && leb c b'f')

abbrev pub is_upper : ℕ → Bool
is_upper c = leb b'A' c && leb c b'Z'

abbrev pub commit_checks : Option Text → Bool
commit_checks none = true
commit_checks (some s) = (length s == 40) && not (any is_upper s) && is_hex_first s

-- The three checks of the table.
unfoldable pub ref_checks : TaskGitRefRow → Bool
ref_checks r =
    contains valid_git_object_types r.object_type
    && any (λ c. not (c == b' ')) r.object_value
    && commit_checks r.resolved_commit

abbrev pub ref_ids : List TaskGitRefRow → Text → Bool
ref_ids refs id = any (λ r. r.id == id) refs

abbrev pub repo_ids : List GitRepoRow → Text → Bool
repo_ids repos id = any (λ r. r.id == id) repos

-- The INSERT of a reference.
unfoldable pub insert_ref : TaskGitRefRow → GitDb → Result GitDb
unfolding ref_checks
insert_ref row g =
    if not (ref_checks row)
    then err (plain check_constraint)
    else if ref_ids g.refs row.id || any (same_reference row) g.refs
    then err (plain unique_constraint)
    else if any (λ t. t.id == row.task_id) g.db.tasks && repo_ids g.repos row.repo_id
    then ok (record g { refs = g.refs ++ row ∷ [] })
    else err (plain foreign_key_constraint)

unfoldable pub touch_repo : Text → DbTime → List GitRepoRow → List GitRepoRow
touch_repo slug at [] = []
touch_repo slug at (r ∷ repos) =
    let rest = touch_repo slug at repos in
    if r.slug == slug then record r { updated_at = at } ∷ rest else r ∷ rest

abbrev pub found_repo : GitDb → Option GitRepoRow → Result (GitRepoRow × GitDb)
found_repo g none = err (plain other)
found_repo g (some r) = ok (r, g)

-- The INSERT with ON CONFLICT(slug), for a repository of which only the slug is given.
unfoldable pub insert_repo : Text → Text → DbTime → GitDb → Result GitDb
insert_repo id slug at g =
    if any (λ r. r.slug == slug) g.repos
    then ok (record g { repos = touch_repo slug at g.repos })
    else if repo_ids g.repos id
    then err (plain unique_constraint)
    else ok (record g {
      repos =
          g.repos
          ++ record {
            id = id;
            slug = slug;
            default_branch = none;
            created_at = at;
            updated_at = at;
          }
            ∷ [];
    })

-- upsertGitRepoTx, with the test of its caller that the row was found.
unfoldable pub upsert_git_repo_tx :
    (ℕ → Result (List ℕ)) → Time → Text → GitDb → Result (GitRepoRow × GitDb)
unfolding insert_repo find_first
upsert_git_repo_tx draw now raw g = do
  let slug = to_lower (trim_space raw)
  guard (not (is_empty slug)) (plain value_required)
  id ← generate_id (codes "rp") (some (λ id. ok (repo_ids g.repos id))) draw
  next ← insert_repo id slug (db_format_time now) g
  found_repo next (find_first (λ r. r.slug == slug) next.repos)

unfoldable pub ref_row : Text → Text → Text → Time → CloseTaskGitRefInput → TaskGitRefRow
ref_row id task_id repo_id at input = record {
  id = id;
  task_id = task_id;
  repo_id = repo_id;
  relation = input.relation;
  object_type = input.object_type;
  object_value = input.object_value;
  resolved_commit = null_if_empty (trim_space input.resolved_commit);
  note = null_if_empty (trim_space input.note);
  meta_json = input.meta;
  created_at = db_format_time at;
  updated_at = db_format_time at;
}

-- A duplicate is passed over, any other error ends the loop.
abbrev pub skip_duplicate : GitDb → Result GitDb → Result (ℕ × GitDb)
skip_duplicate g (ok next) = ok (1, next)
skip_duplicate g (err (plain unique_constraint)) = ok (0, g)
skip_duplicate g (err e) = err e

-- The body of the loop over the tasks.
unfoldable pub annotate : Outside → Time → Text → CloseTaskGitRefInput → GitDb → Result (ℕ × GitDb)
unfolding insert_ref upsert_git_repo_tx ref_row
annotate out at task_id input g = do
  found ← upsert_git_repo_tx (out.repo_draw task_id) out.now input.repo_slug g
  id ← generate_id (codes "gf") (some (λ id. ok (ref_ids found.1.refs id))) (out.ref_draw task_id)
  skip_duplicate found.1 (insert_ref (ref_row id task_id found.0.id at input) found.1)

abbrev pub later_or :
    Option CloseTaskGitRefInput → Option CloseTaskGitRefInput → Option CloseTaskGitRefInput
later_or earlier (some input) = some input
later_or earlier none = earlier

-- refsByTask: the last input for a task.
unfoldable pub input_for : List CloseTaskGitRefInput → Text → Option CloseTaskGitRefInput
input_for [] id = none
input_for (r ∷ inputs) id =
    later_or (if r.task_id == id then some r else none) (input_for inputs id)

abbrev pub is_given : Option CloseTaskGitRefInput → Bool
is_given none = false
is_given (some input) = true

abbrev pub annotate_with :
    Outside → Time → Text → Option CloseTaskGitRefInput → GitDb → Result (ℕ × GitDb)
annotate_with out at id none g = err (plain value_required)
annotate_with out at id (some input) g = annotate out at id input g

unfoldable pub annotate_all :
    Outside → Time → List CloseTaskGitRefInput → List Text → GitDb → Result (ℕ × GitDb)
unfolding annotate input_for
annotate_all out at inputs [] g = ok (0, g)
annotate_all out at inputs (id ∷ once) g = do
  first ← annotate_with out at id (input_for inputs id) g
  rest ← annotate_all out at inputs once first.1
  ok (first.0 + rest.0, rest.1)

abbrev pub project_of : Text → List Text → Text
project_of project [] = project
project_of project (id ∷ once) = if is_empty project then project_from_task_id id else project

abbrev pub close_in : Time → Text → List Text → GitDb → GitDb
close_in at project once g = record g {
  db = record g.db { tasks = update_where (is_in project once) (closed_row at) g.db.tasks };
}

-- The transaction of CloseTasksWithGitRefs.
unfoldable pub close_in_project :
    Outside → Text → List Text → Time → List CloseTaskGitRefInput → GitDb → Result (ℕ × GitDb)
unfolding annotate_all
close_in_project out project once at inputs g =
    if not (all (λ id. project_from_task_id id == project) once)
    then err (plain project_mismatch)
    else if count_existing_tasks_in_project project once g.db == length once
    then annotate_all out at inputs once (close_in at project once g)
    else err (plain task_not_found)

-- CloseTasksWithGitRefs, over the number of new references and the tables.
unfoldable pub close_tasks_with_git_refs :
    Outside → Text → List Text → Time → List CloseTaskGitRefInput → GitDb → Result (ℕ × GitDb)
unfolding close_in_project input_for
close_tasks_with_git_refs out raw_project raw_ids at inputs g =
    let once = unique_strings raw_ids in
    if is_empty once
    then ok (0, g)
    else if any (λ r. is_empty (trim_space r.task_id)) inputs
    then err (plain value_required)
    else if not (all (λ id. is_given (input_for inputs id)) once)
    then err (plain value_required)
    else close_in_project out (project_of (normalize_project raw_project) once) once at inputs g
