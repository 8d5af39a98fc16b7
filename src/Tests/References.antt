-- ===== src/Tests/References.antt =====
-- Examples of the theorems on the values of git references.
use grns.Base.{◌≡◌, refl, true, Option, none, nat_eq, list_beq, contains}
use grns.Base.Text.{Text, text_eq, codes, trim_space, to_lower, split, has_prefix}
use grns.Errors.{ok}
use grns.Tests.Samples.{sample_task}
use grns.Base.{is_empty, false, List, [], ◌∷◌}
use grns.Store.Time.{db_format_time}
use grns.Store.Project.{normalize_project, project_from_task_id, generate_id}
use grns.Base.{unique_strings}
use grns.Base.Text.{byte_len}
use grns.Store.Tables.{TaskRow, update_where}
use grns.Store.Tasks.{task_row, closed_row, null_if_empty, count_existing_tasks_in_project}
use grns.Store.GitRefs.{
  GitDb, GitRepoRow, TaskGitRefRow, CloseTaskGitRefInput, Outside, ref_row,
  close_tasks_with_git_refs,
}
use grns.Store.GitRefs.Closing.{IsClosing, close_tasks_with_git_refs-IsClosing}
use grns.Server.GitRefs.{
  matches_relation, repo_location, contains_text, join_parts, trim_slashes, trim_slashes_right,
  trim_slashes_left, trim_suffix, after_last, cut, is_bad_part, normalize_git_relation,
  normalize_git_object_value, validate_workspace_relative_path, escapes, canonical_git_repo_slug,
}
use grns.Server.GitRefs.Slugs.{IsSlug, canonical_git_repo_slug-IsSlug}
use grns.Server.GitRefs.Objects.{
  is_known_relation, is_sound_object, normalize_git_relation_again,
  normalize_git_object_value-is_sound_object,
}

no_url : Text → Option (Text × Text)
no_url s = none

scp_repo_accepted :
    canonical_git_repo_slug no_url (codes " git@GitHub.com:Octo/grns.git")
    ≡ ok (codes "github.com/octo/grns")
unfolding canonical_git_repo_slug codes trim_space split repo_location contains_text has_prefix
    join_parts trim_slashes trim_slashes_right trim_slashes_left trim_suffix to_lower after_last cut
    list_beq is_bad_part
scp_repo_accepted = refl

-- The suffix stays if a slash follows it.
suffix_before_slash_stays :
    canonical_git_repo_slug no_url (codes "github.com/octo/grns.git/")
    ≡ ok (codes "github.com/octo/grns.git")
unfolding canonical_git_repo_slug codes trim_space split repo_location contains_text has_prefix
    join_parts trim_slashes trim_slashes_right trim_slashes_left trim_suffix to_lower list_beq
    is_bad_part
suffix_before_slash_stays = refl

canonical_git_repo_slug-IsSlug_example : IsSlug (codes "github.com/octo/grns")
canonical_git_repo_slug-IsSlug_example =
    canonical_git_repo_slug-IsSlug no_url (codes " git@GitHub.com:Octo/grns.git")
      (codes "github.com/octo/grns") scp_repo_accepted

relation_accepted : normalize_git_relation (codes " Fix_Commit ") ≡ ok (codes "fix_commit")
unfolding normalize_git_relation codes trim_space contains list_beq to_lower matches_relation
relation_accepted = refl

normalize_git_relation_again_example :
    (codes "fix_commit" ≡ to_lower (trim_space (codes " Fix_Commit ")))
    × (is_known_relation (codes "fix_commit") ≡ true)
    × (normalize_git_relation (codes "fix_commit") ≡ ok (codes "fix_commit"))
normalize_git_relation_again_example =
    normalize_git_relation_again (codes " Fix_Commit ") (codes "fix_commit") relation_accepted

path_accepted :
    normalize_git_object_value (λ s. s) (codes "path") (codes " a/b ") ≡ ok (codes "a/b")
unfolding normalize_git_object_value codes trim_space contains list_beq
    validate_workspace_relative_path escapes has_prefix
path_accepted = refl

normalize_git_object_value-is_sound_object_example :
    is_sound_object (codes "path") (codes "a/b") ≡ true
normalize_git_object_value-is_sound_object_example =
    normalize_git_object_value-is_sound_object (λ s. s) (codes "path") (codes " a/b ") (codes "a/b")
      (λ s h. h) path_accepted

abbrev closing_outside : Outside
closing_outside = record {
  repo_draw = λ id n. ok (1 ∷ 2 ∷ 3 ∷ 4 ∷ []);
  ref_draw = λ id n. ok (5 ∷ 6 ∷ 7 ∷ 8 ∷ []);
  now = 1000000000;
}

abbrev closing_input : CloseTaskGitRefInput
closing_input = record {
  task_id = codes "gr-aaaa";
  repo_slug = codes "h/o/n";
  relation = codes "closed_by";
  object_type = codes "commit";
  object_value = codes "abc";
  resolved_commit = [];
  note = [];
  meta = none;
}

open_row : TaskRow
open_row = task_row (codes "gr") (sample_task "gr-aaaa" "open")

with_row : TaskRow → List GitRepoRow → List TaskGitRefRow → GitDb
with_row row repos refs = record {
  db = record { tasks = row ∷ []; labels = []; deps = [] };
  repos = repos;
  refs = refs;
}

-- The repository and the reference that closing adds.
closing_repo : GitRepoRow
closing_repo = record {
  id = codes "rp-1234";
  slug = codes "h/o/n";
  default_branch = none;
  created_at = db_format_time 1000000000;
  updated_at = db_format_time 1000000000;
}

closing_ref : TaskGitRefRow
closing_ref = ref_row (codes "gf-5678") (codes "gr-aaaa") (codes "rp-1234") 2000000000 closing_input

open_git_db : GitDb
open_git_db = with_row open_row [] []

closed_git_db : GitDb
closed_git_db = with_row (closed_row 2000000000 open_row) (closing_repo ∷ []) (closing_ref ∷ [])

closing_done :
    close_tasks_with_git_refs closing_outside
      (codes "gr")
      (codes "gr-aaaa" ∷ [])
      2000000000
      (closing_input ∷ [])
      open_git_db
    ≡ ok (1, closed_git_db)
unfolding close_tasks_with_git_refs open_git_db closed_git_db with_row open_row closing_repo
    closing_ref ref_row task_row closed_row db_format_time null_if_empty unique_strings trim_space
    codes list_beq project_from_task_id to_lower byte_len normalize_project
    count_existing_tasks_in_project generate_id update_where
closing_done = refl

named_project : is_empty (normalize_project (codes "gr")) ≡ false
unfolding normalize_project codes trim_space to_lower
named_project = refl

close_tasks_with_git_refs-IsClosing_example :
    IsClosing
      (codes "gr")
      (codes "gr-aaaa" ∷ [])
      2000000000
      (closing_input ∷ [])
      open_git_db
      closed_git_db
close_tasks_with_git_refs-IsClosing_example =
    close_tasks_with_git_refs-IsClosing closing_outside (codes "gr") (codes "gr-aaaa" ∷ [])
      2000000000 (closing_input ∷ []) open_git_db closed_git_db 1 named_project closing_done
