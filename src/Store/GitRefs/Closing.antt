-- ===== src/Store/GitRefs/Closing.antt =====
-- Closing with references: the tasks are closed as by closing alone, and each has its reference.
use grns.Base.{
  ℕ, ◌≡◌, refl, ◌∙◌, ap, sym, subst, true, false, not, List, [], ◌∷◌, ◌==◌, nat_eq, arith, any, all,
  is_empty, length, unique_strings,
}
use grns.Base.Text.{Text, text_eq, trim_space}
use grns.Errors.{ok, IfOk}
use grns.Errors.Laws.{IfOk-apply, IfOk-refuse, IfOk-require, IfOk-if, IfOk-mono}
use grns.Models.{Time}
use grns.Store.Project.{normalize_project, project_from_task_id}
use grns.Store.Tasks.{close_tasks, set_all, count_existing_tasks_in_project}
use grns.Store.Lifecycle.{normalize_project_twice}
use grns.Store.GitRefs.Inserts.{Keeps}
use grns.Store.GitRefs.Annotations.{has_given, AllAnnotated, annotate_all-AllAnnotated}
use grns.Store.GitRefs.{
  GitDb, CloseTaskGitRefInput, Outside, annotate_all, input_for, is_given, project_of, close_in,
  close_in_project, close_tasks_with_git_refs,
}

-- The tasks are closed as `close_tasks` closes them, and each has the reference it is given.
abbrev pub IsClosing : Text → List Text → Time → List CloseTaskGitRefInput → GitDb → GitDb → Type 0
IsClosing project wanted at inputs g h =
    (close_tasks project wanted at g.db ≡ ok h.db)
    × (all (λ id. has_given (input_for inputs id) h.refs id) (unique_strings wanted) ≡ true)

closes_once :
    (project : Text) (wanted : List Text) (at : Time) (g : GitDb)
    → is_empty (unique_strings wanted) ≡ false
    → (count_existing_tasks_in_project (normalize_project project) (unique_strings wanted) g.db
        == length (unique_strings wanted))
      ≡ true
    → close_tasks project wanted at g.db
      ≡ ok (close_in at (normalize_project project) (unique_strings wanted) g).db
unfolding close_tasks set_all count_existing_tasks_in_project
closes_once project wanted at g n c = ground (arith, normalize_project_twice project)

IsClosing-none :
    (project : Text) (wanted : List Text) (at : Time) (inputs : List CloseTaskGitRefInput)
    (g : GitDb)
    → is_empty (unique_strings wanted) ≡ true
    → IsClosing project wanted at inputs g g
unfolding close_tasks set_all
IsClosing-none project wanted at inputs g e = (ground arith, none (unique_strings wanted) e)
  where
    none :
        (once : List Text)
        → is_empty once ≡ true
        → all (λ id. has_given (input_for inputs id) g.refs id) once ≡ true
    none [] h = refl
    none (a ∷ once) h = ground arith

project_of_named :
    (project : Text) (once : List Text)
    → is_empty project ≡ false
    → project_of project once ≡ project
project_of_named project [] h = refl
project_of_named project (a ∷ once) h = ground arith

annotate_all-IsClosing :
    (out : Outside) (project : Text) (wanted : List Text) (at : Time)
    (inputs : List CloseTaskGitRefInput) (g : GitDb)
    → is_empty (unique_strings wanted) ≡ false
    → (count_existing_tasks_in_project (normalize_project project) (unique_strings wanted) g.db
        == length (unique_strings wanted))
      ≡ true
    → IfOk
        (λ p. IsClosing project wanted at inputs g p.1)
        (annotate_all out at inputs
          (unique_strings wanted)
          (close_in at (normalize_project project) (unique_strings wanted) g))
unfolding Keeps
annotate_all-IsClosing out project wanted at inputs g n c =
    let once = unique_strings wanted in
    let closed = close_in at (normalize_project project) once g in
    IfOk-mono (λ p. AllAnnotated inputs once closed p.1)
      (λ p. IsClosing project wanted at inputs g p.1) _
      (annotate_all-AllAnnotated out at inputs once closed)
      λ p k. (closes_once project wanted at g n c ∙ ap ok (sym k.0.0), k.1)

close_in_project-IsClosing :
    (out : Outside) (project : Text) (wanted : List Text) (at : Time)
    (inputs : List CloseTaskGitRefInput) (g : GitDb)
    → is_empty (unique_strings wanted) ≡ false
    → IfOk
        (λ p. IsClosing project wanted at inputs g p.1)
        (close_in_project out (normalize_project project) (unique_strings wanted) at inputs g)
unfolding close_in_project
close_in_project-IsClosing out project wanted at inputs g n =
    let Q = λ (p : ℕ × GitDb). IsClosing project wanted at inputs g p.1 in
    let once = unique_strings wanted in
    let named = normalize_project project in
    IfOk-refuse Q (not (all (λ id. project_from_task_id id == named) once)) _ _ λ _.
      IfOk-require Q (count_existing_tasks_in_project named once g.db == length once) _ _
        λ c. annotate_all-IsClosing out project wanted at inputs g n c

close_tasks_with_git_refs-IfOk :
    (out : Outside) (project : Text) (wanted : List Text) (at : Time)
    (inputs : List CloseTaskGitRefInput) (g : GitDb)
    → is_empty (normalize_project project) ≡ false
    → IfOk
        (λ p. IsClosing project wanted at inputs g p.1)
        (close_tasks_with_git_refs out project wanted at inputs g)
unfolding close_tasks_with_git_refs
close_tasks_with_git_refs-IfOk out project wanted at inputs g named =
    let Q = λ (p : ℕ × GitDb). IsClosing project wanted at inputs g p.1 in
    let once = unique_strings wanted in
    let same = project_of_named (normalize_project project) once named in
    IfOk-if Q (is_empty once) _ _ (λ e. IsClosing-none project wanted at inputs g e)
      λ n. IfOk-refuse Q (any (λ r. is_empty (trim_space r.task_id)) inputs) _ _ λ _.
        IfOk-refuse Q (not (all (λ id. is_given (input_for inputs id)) once)) _ _ λ _.
          subst (λ q. IfOk Q (close_in_project out q once at inputs g)) (sym same)
            (close_in_project-IsClosing out project wanted at inputs g n)

-- If closing with references succeeds in a named project, the tasks are closed exactly as
-- `close_tasks` closes them, no other table of tasks changes, and each of the tasks has a reference
-- with the relation and the object of its input, be it new or there before.
pub close_tasks_with_git_refs-IsClosing :
    (out : Outside) (project : Text) (wanted : List Text) (at : Time)
    (inputs : List CloseTaskGitRefInput) (g h : GitDb) (created : ℕ)
    → is_empty (normalize_project project) ≡ false
    → close_tasks_with_git_refs out project wanted at inputs g ≡ ok (created, h)
    → IsClosing project wanted at inputs g h
close_tasks_with_git_refs-IsClosing out project wanted at inputs g h created named e =
    IfOk-apply (λ p. IsClosing project wanted at inputs g p.1) _ (created, h) e
      (close_tasks_with_git_refs-IfOk out project wanted at inputs g named)
