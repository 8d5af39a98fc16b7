-- ===== src/Store/GitRefs/Annotations.antt =====
-- The loop over the tasks to close: it keeps what there is and gives each task its reference.
use grns.Base.{
  ℕ, ◌≡◌, refl, ◌∙◌, sym, subst, Bool, true, false, ◌&&◌, List, [], ◌∷◌, Option, none, some, ◌==◌,
  nat_eq, arith, any, all, is_empty,
}
use grns.Base.Text.{Text, text_eq, codes}
use grns.Errors.{Result, ok, IfOk}
use grns.Errors.Laws.{IfOk-bind, IfOk-refuse, IfOk-mono}
use grns.Models.{Time}
use grns.Store.Project.{generate_id}
use grns.Store.GitRefs.{
  GitDb, GitRepoRow, TaskGitRefRow, CloseTaskGitRefInput, Outside, same_reference, ref_ids,
  insert_ref, upsert_git_repo_tx, ref_row, skip_duplicate, annotate, annotate_with, annotate_all,
  input_for,
}
use grns.Store.GitRefs.Inserts.{
  any_mono, generate_from_free, insert_ref-Keeps, upsert_git_repo_tx-Same, Keeps, Same,
}

-- A reference of the task with the relation and the object of the input.
abbrev pub fits : Text → CloseTaskGitRefInput → TaskGitRefRow → Bool
fits id input r =
    (id == r.task_id)
    && (input.relation == r.relation)
    && (input.object_type == r.object_type)
    && (input.object_value == r.object_value)

generate_id_free :
    (prefix : Text) (taken : Text → Bool) (draw : ℕ → Result (List ℕ))
    → IfOk (λ id. taken id ≡ false) (generate_id prefix (some (λ id. ok (taken id))) draw)
unfolding generate_id
generate_id_free prefix taken draw =
    IfOk-refuse (λ id. taken id ≡ false) (is_empty prefix) _ _
      λ _.
        IfOk-mono (λ id. ok (taken id) ≡ ok false) (λ id. taken id ≡ false) _
          (generate_from_free prefix (λ id. ok (taken id)) draw 20 0) λ id e. unok e
  where
    unok : {a b : Bool} → ok a ≡ ok b → a ≡ b
    unok e = cc

fits_row :
    (id task_id repo_id : Text) (at : Time) (input : CloseTaskGitRefInput) (r : TaskGitRefRow)
    → same_reference (ref_row id task_id repo_id at input) r ≡ true
    → fits task_id input r ≡ true
unfolding ref_row
fits_row id task_id repo_id at input r h = ground arith

-- The loop's body keeps what was there, and the task has its reference afterwards.
IsAnnotated : Text → CloseTaskGitRefInput → GitDb → GitDb → Type 0
IsAnnotated id input g h = Keeps g h × (any (fits id input) h.refs ≡ true)

after_upsert :
    (id new : Text) (repo : GitRepoRow) (at : Time) (input : CloseTaskGitRefInput) (g next : GitDb)
    → Same g next
    → ref_ids next.refs new ≡ false
    → IfOk
        (λ p. IsAnnotated id input g p.1)
        (skip_duplicate next (insert_ref (ref_row new id repo.id at input) next))
unfolding IsAnnotated Keeps Same ref_row
after_upsert id new repo at input g next same free =
    let row = ref_row new id repo.id at input in
    IfOk-mono (λ p. Keeps next p.1 × (any (same_reference row) p.1.refs ≡ true))
      (λ p. IsAnnotated id input g p.1) (skip_duplicate next (insert_ref row next))
      (insert_ref-Keeps row next free)
      λ p k. (
        (k.0.0 ∙ same.0, λ q h. k.0.1 q (subst (λ refs. any q refs ≡ true) (sym same.1) h)),
        any_mono (same_reference row) (fits id input) p.1.refs (fits_row new id repo.id at input)
            k.1,
      )

annotate-IsAnnotated :
    (out : Outside) (at : Time) (id : Text) (input : CloseTaskGitRefInput) (g : GitDb)
    → IfOk (λ p. IsAnnotated id input g p.1) (annotate out at id input g)
unfolding annotate
annotate-IsAnnotated out at id input g =
    let Q = λ (p : ℕ × GitDb). IsAnnotated id input g p.1 in
    IfOk-bind (λ (p : GitRepoRow × GitDb). Same g p.1) Q
      (upsert_git_repo_tx (out.repo_draw id) out.now input.repo_slug g) _
      (upsert_git_repo_tx-Same (out.repo_draw id) out.now input.repo_slug g)
      λ found same.
        IfOk-bind (λ k. ref_ids found.1.refs k ≡ false) Q
          (generate_id (codes "gf") (some (λ k. ok (ref_ids found.1.refs k))) (out.ref_draw id)) _
          (generate_id_free (codes "gf") (ref_ids found.1.refs) (out.ref_draw id))
          λ new free. after_upsert id new found.0 at input g found.1 same free

-- The task has the reference that it is given.
abbrev pub has_given : Option CloseTaskGitRefInput → List TaskGitRefRow → Text → Bool
has_given none refs id = false
has_given (some input) refs id = any (fits id input) refs

abbrev pub AllAnnotated : List CloseTaskGitRefInput → List Text → GitDb → GitDb → Type 0
AllAnnotated inputs once g h =
    Keeps g h × (all (λ id. has_given (input_for inputs id) h.refs id) once ≡ true)

annotate_with-has_given :
    (out : Outside) (at : Time) (id : Text) (o : Option CloseTaskGitRefInput) (g : GitDb)
    → IfOk (λ p. Keeps g p.1 × (has_given o p.1.refs id ≡ true)) (annotate_with out at id o g)
unfolding IsAnnotated
annotate_with-has_given out at id none g = tt
annotate_with-has_given out at id (some input) g = annotate-IsAnnotated out at id input g

still_given :
    (o : Option CloseTaskGitRefInput) (id : Text) (g h : GitDb)
    → Keeps g h
    → has_given o g.refs id ≡ true
    → has_given o h.refs id ≡ true
unfolding Keeps
still_given none id g h k e = e
still_given (some input) id g h k e = k.1 (fits id input) e

pub annotate_all-AllAnnotated :
    (out : Outside) (at : Time) (inputs : List CloseTaskGitRefInput) (once : List Text) (g : GitDb)
    → IfOk (λ p. AllAnnotated inputs once g p.1) (annotate_all out at inputs once g)
unfolding annotate_all Keeps
annotate_all-AllAnnotated out at inputs [] g = ((refl, λ q h. h), refl)
annotate_all-AllAnnotated out at inputs (id ∷ once) g =
    let Q = λ (p : ℕ × GitDb). AllAnnotated inputs (id ∷ once) g p.1 in
    let o = input_for inputs id in
    IfOk-bind (λ (p : ℕ × GitDb). Keeps g p.1 × (has_given o p.1.refs id ≡ true)) Q
      (annotate_with out at id o g) _ (annotate_with-has_given out at id o g)
      λ first k.
        IfOk-bind (λ (p : ℕ × GitDb). AllAnnotated inputs once first.1 p.1) Q
          (annotate_all out at inputs once first.1) _
          (annotate_all-AllAnnotated out at inputs once first.1)
          λ rest l. (
            (l.0.0 ∙ k.0.0, λ q h. l.0.1 q (k.0.1 q h)),
            both (still_given o id first.1 rest.1 l.0 k.1) l.1,
          )
  where
    both : {a b : Bool} → a ≡ true → b ≡ true → (a && b) ≡ true
    both e f = ground arith
