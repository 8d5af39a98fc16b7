-- ===== src/Store/GitRefs/Inserts.antt =====
-- What the inserts of a repository and of a reference keep and add.
use grns.Base.{
  ℕ, zero, suc, ◌≡◌, refl, ◌∙◌, ap, Bool, true, false, not, ◌&&◌, ◌||◌, List, [], ◌∷◌, ◌++◌, Option,
  none, some, ◌==◌, nat_eq, arith, any, is_empty, if-both,
}
use grns.Base.Text.{Text, text_eq, codes, trim_space, to_lower}
use grns.Errors.{Result, ok, guard, IfOk}
use grns.Errors.Laws.{IfOk-bind, IfOk-after, IfOk-refuse, IfOk-if, IfOk-self}
use grns.Models.{Time}
use grns.Store.Auth.{find_first}
use grns.Store.Time.{db_format_time}
use grns.Store.Project.{generate_id, generate_from, random_base36}
use grns.Store.GitRefs.{
  GitDb, GitRepoRow, TaskGitRefRow, or_text, same_reference, ref_checks, ref_ids, repo_ids,
  insert_ref, insert_repo, found_repo, upsert_git_repo_tx, skip_duplicate,
}

any-append_left :
    (q : TaskGitRefRow → Bool) (xs ys : List TaskGitRefRow)
    → any q xs ≡ true
    → any q (xs ++ ys) ≡ true
any-append_left q (x ∷ xs) ys h = ground (arith, any-append_left q xs ys)
any-append_left q [] ys h = ground arith

any-append_one :
    (q : TaskGitRefRow → Bool) (xs : List TaskGitRefRow) (y : TaskGitRefRow)
    → q y ≡ true
    → any q (xs ++ y ∷ []) ≡ true
any-append_one q [] y h = ground arith
any-append_one q (x ∷ xs) y h = ground (arith, any-append_one q xs y h)

pub any_mono :
    (q p : TaskGitRefRow → Bool) (xs : List TaskGitRefRow)
    → ((r : TaskGitRefRow) → q r ≡ true → p r ≡ true)
    → any q xs ≡ true
    → any p xs ≡ true
any_mono q p (x ∷ xs) f h = ground (arith, f x, any_mono q p xs f)
any_mono q p [] f h = ground arith

-- The other tables stay, and every reference stays.
unfoldable pub Keeps : GitDb → GitDb → Type 0
Keeps g h = (h.db ≡ g.db) × ((q : TaskGitRefRow → Bool) → any q g.refs ≡ true → any q h.refs ≡ true)

pub generate_from_free :
    (prefix : Text) (exists : Text → Result Bool) (draw : ℕ → Result (List ℕ)) (left n : ℕ)
    → IfOk (λ id. exists id ≡ ok false) (generate_from prefix (some exists) draw left n)
unfolding generate_from
generate_from_free prefix exists draw zero n = tt
generate_from_free prefix exists draw (suc left) n =
    let Free = λ (id : Text). exists id ≡ ok false in
    IfOk-after Free (draw n) _ λ bytes.
      let id = prefix ++ b'-' ∷ random_base36 bytes in
      IfOk-bind (λ found. exists id ≡ ok found) Free (exists id) _ (IfOk-self (exists id))
        λ found e.
          IfOk-if Free found _ _ (λ _. generate_from_free prefix exists draw left (suc n))
            λ f. e ∙ ap ok f

text_beq_refl : (s : Text) → (s == s) ≡ true
text_beq_refl s = ground (arith, text_eq.beq_iff s s)

same_reference_refl : (r : TaskGitRefRow) → same_reference r r ≡ true
same_reference_refl r = ground (
  arith,
  text_beq_refl r.task_id,
  text_beq_refl r.repo_id,
  text_beq_refl r.relation,
  text_beq_refl r.object_type,
  text_beq_refl r.object_value,
  text_beq_refl (or_text r.resolved_commit),
)

pub insert_ref-Keeps :
    (row : TaskGitRefRow) (g : GitDb)
    → ref_ids g.refs row.id ≡ false
    → IfOk
        (λ p. Keeps g p.1 × (any (same_reference row) p.1.refs ≡ true))
        (skip_duplicate g (insert_ref row g))
unfolding insert_ref Keeps
insert_ref-Keeps row g free =
    let Q = λ (p : ℕ × GitDb). Keeps g p.1 × (any (same_reference row) p.1.refs ≡ true) in
    let P = λ (r : Result GitDb). IfOk Q (skip_duplicate g r) in
    if-both P (not (ref_checks row)) _ _ (λ _. tt)
      λ _.
        if-both P (ref_ids g.refs row.id || any (same_reference row) g.refs) _ _
          (λ d. ((refl, λ q h. h), ground arith))
          λ _.
            if-both P (any (λ t. t.id == row.task_id) g.db.tasks && repo_ids g.repos row.repo_id)
              (ok (record g { refs = g.refs ++ row ∷ [] })) _
              (λ _. (
                (refl, λ q h. any-append_left q g.refs _ h),
                any-append_one (same_reference row) g.refs row (same_reference_refl row),
              ))
              λ _. tt

-- Of the repositories and references, the references and the tasks are the same.
unfoldable pub Same : GitDb → GitDb → Type 0
Same g h = (h.db ≡ g.db) × (h.refs ≡ g.refs)

insert_repo-Same :
    (id slug : Text) (now : Time) (g : GitDb)
    → IfOk (Same g) (insert_repo id slug (db_format_time now) g)
unfolding insert_repo Same
insert_repo-Same id slug now g =
    IfOk-if (Same g) (any (λ r. r.slug == slug) g.repos) _ _ (λ _. (refl, refl))
      λ _. IfOk-refuse (Same g) (repo_ids g.repos id) _ _ λ _. (refl, refl)

found_repo-Same :
    (g next : GitDb)
    → Same g next
    → (row : Option GitRepoRow) → IfOk (λ p. Same g p.1) (found_repo next row)
found_repo-Same g next same none = tt
found_repo-Same g next same (some r) = same

pub upsert_git_repo_tx-Same :
    (draw : ℕ → Result (List ℕ)) (now : Time) (raw : Text) (g : GitDb)
    → IfOk (λ p. Same g p.1) (upsert_git_repo_tx draw now raw g)
unfolding upsert_git_repo_tx
upsert_git_repo_tx-Same draw now raw g =
    let Q = λ (p : GitRepoRow × GitDb). Same g p.1 in
    let slug = to_lower (trim_space raw) in
    IfOk-after Q (guard (not (is_empty slug)) _) _ λ _.
      IfOk-after Q (generate_id (codes "rp") _ draw) _ λ id.
        IfOk-bind (Same g) Q (insert_repo id slug (db_format_time now) g) _
          (insert_repo-Same id slug now g)
          λ next same. found_repo-Same g next same (find_first (λ r. r.slug == slug) next.repos)
