-- ===== src/Store/ListQuery/Conditions.antt =====
-- internal/store/tasks_query_builder.go: each condition brings the arguments of its placeholders.
use grns.Base.{
  ℕ, suc, ◌+◌, ◌≡◌, refl, Bool, true, false, not, List, [], ◌∷◌, ◌++◌, Option, none, some, map,
  nat_eq, is_empty, length, length-append, length-map, arith, String,
}
use grns.Base.Text.{Text, codes}
use grns.Store.ListQuery.Parts.{
  ListFilter, Arg, text, int, Builder, placeholders, decimal_from, decimal, append_clause,
  append_when, append_some, append_in,
}
use grns.Store.ListQuery.{
  build_select, append_project, append_statuses, append_types, append_priority, append_parent_id,
  append_labels, append_assignee, append_ids, append_contains_filters, append_time_filters,
  append_empty_description, append_no_labels, append_conditions, time_arg,
}
use grns.Store.ListQuery.Marks.{
  marks, marks-append, marks_all, marks_all-append, marks-placeholders, marks-decimal_from,
}

-- As many marks, in the text and in the conditions that wait for it, as arguments.
abbrev pub IsBalanced : Builder → Type 0
IsBalanced b = marks b.query + marks_all b.clauses ≡ length b.args

append_clause-IsBalanced :
    (clause : Text) (args : List Arg) (b : Builder)
    → marks clause ≡ length args
    → IsBalanced b
    → IsBalanced (append_clause clause args b)
unfolding append_clause marks_all
append_clause-IsBalanced clause args b h k =
    omega (arith, marks_all-append b.clauses (clause ∷ []), length-append b.args args)

append_when-IsBalanced :
    (test : Bool) (clause : Text) (args : List Arg) (b : Builder)
    → marks clause ≡ length args
    → IsBalanced b
    → IsBalanced (append_when test clause args b)
unfolding append_when
append_when-IsBalanced true clause args b h k = append_clause-IsBalanced clause args b h k
append_when-IsBalanced false clause args b h k = k

append_some-IsBalanced {ℓ} :
    {A : Type ℓ} (arg : A → Arg) (clause : Text) (o : Option A) (b : Builder)
    → marks clause ≡ 1
    → IsBalanced b
    → IsBalanced (append_some arg clause o b)
unfolding append_some
append_some-IsBalanced arg clause none b h k = k
append_some-IsBalanced arg clause (some a) b h k =
    append_clause-IsBalanced clause (arg a ∷ []) b h k

append_in-IsBalanced :
    (head : String) (values : List Text) (tail : Text) (b : Builder)
    → marks (codes head) ≡ 0
    → marks tail ≡ 0
    → IsBalanced b
    → IsBalanced (append_in head values tail b)
unfolding append_in
append_in-IsBalanced head values tail b h t k =
    append_when-IsBalanced (not (is_empty values)) _ (map text values) b
      (omega (
        arith,
        h,
        t,
        marks-append (codes head ++ placeholders (length values)) tail,
        marks-append (codes head) (placeholders (length values)),
        marks-placeholders (length values),
        length-map values text,
      ))
      k

pub select-IsBalanced : (f : ListFilter) → IsBalanced (build_select f)
unfolding build_select marks marks_all codes
select-IsBalanced f = ground arith

label_head : marks (codes ") GROUP BY task_id HAVING COUNT(DISTINCT label) = ") ≡ 0
unfolding marks codes
label_head = refl

label_end : marks (codes ")") ≡ 0
unfolding marks codes
label_end = refl

-- The second condition on labels ends in a number.
label_tail :
    (n : ℕ)
    → marks (codes ") GROUP BY task_id HAVING COUNT(DISTINCT label) = " ++ decimal n ++ codes ")")
      ≡ 0
unfolding decimal
label_tail n = omega (
  arith,
  marks-append
      (codes ") GROUP BY task_id HAVING COUNT(DISTINCT label) = " ++ decimal_from (suc n) n)
      (codes ")"),
  marks-append (codes ") GROUP BY task_id HAVING COUNT(DISTINCT label) = ")
      (decimal_from (suc n) n),
  marks-decimal_from (suc n) n,
  label_head,
  label_end,
)

-- Each append of `buildWhere` keeps the balance.
KeepsBalance : (Builder → Builder) → Type 0
KeepsBalance step = (b : Builder) → IsBalanced b → IsBalanced (step b)

project-KeepsBalance : (f : ListFilter) → KeepsBalance (append_project f)
unfolding KeepsBalance append_project marks codes
project-KeepsBalance f b k =
    append_when-IsBalanced (not (is_empty f.project)) (codes "tasks.project_id = ?") _ b refl k

statuses-KeepsBalance : (f : ListFilter) → KeepsBalance (append_statuses f)
unfolding KeepsBalance append_statuses marks codes
statuses-KeepsBalance f b k =
    append_in-IsBalanced "status IN (" f.statuses (codes ")") b refl refl k

types-KeepsBalance : (f : ListFilter) → KeepsBalance (append_types f)
unfolding KeepsBalance append_types marks codes
types-KeepsBalance f b k = append_in-IsBalanced "type IN (" f.types (codes ")") b refl refl k

priority-KeepsBalance : (f : ListFilter) → KeepsBalance (append_priority f)
unfolding KeepsBalance append_priority marks codes
priority-KeepsBalance f b k =
    append_some-IsBalanced int (codes "priority <= ?") f.priority_max _ refl (
      append_some-IsBalanced int (codes "priority >= ?") f.priority_min _ refl
        (append_some-IsBalanced int (codes "priority = ?") f.priority b refl k))

parent_id-KeepsBalance : (f : ListFilter) → KeepsBalance (append_parent_id f)
unfolding KeepsBalance append_parent_id marks codes
parent_id-KeepsBalance f b k =
    append_when-IsBalanced (not (is_empty f.parent_id)) (codes "parent_id = ?") _ b refl k

labels_any_lem : marks (codes "id IN (SELECT task_id FROM task_labels WHERE label IN (") ≡ 0
unfolding marks codes
labels_any_lem = refl

labels_end : marks (codes "))") ≡ 0
unfolding marks codes
labels_end = refl

labels-KeepsBalance : (f : ListFilter) → KeepsBalance (append_labels f)
unfolding KeepsBalance append_labels
labels-KeepsBalance f b k =
    append_in-IsBalanced "id IN (SELECT task_id FROM task_labels WHERE label IN (" f.labels_any
      (codes "))") _ labels_any_lem labels_end
      (append_in-IsBalanced "id IN (SELECT task_id FROM task_labels WHERE label IN (" f.labels _ b
        labels_any_lem (label_tail (length f.labels)) k)

assignee-KeepsBalance : (f : ListFilter) → KeepsBalance (append_assignee f)
unfolding KeepsBalance append_assignee marks codes
assignee-KeepsBalance f b k =
    append_when-IsBalanced f.no_assignee (codes "(assignee IS NULL OR assignee = '')") [] _ refl
      (append_when-IsBalanced (not (is_empty f.assignee)) (codes "assignee = ?") _ b refl k)

ids-KeepsBalance : (f : ListFilter) → KeepsBalance (append_ids f)
unfolding KeepsBalance append_ids marks codes
ids-KeepsBalance f b k = append_in-IsBalanced "id IN (" f.ids (codes ")") b refl refl k

contains-KeepsBalance : (f : ListFilter) → KeepsBalance (append_contains_filters f)
unfolding KeepsBalance append_contains_filters marks codes
contains-KeepsBalance f b k =
    append_when-IsBalanced (not (is_empty f.notes_contains))
      (codes "tasks.notes LIKE '%' || ? || '%'") _ _ refl
      (append_when-IsBalanced (not (is_empty f.desc_contains))
        (codes "tasks.description LIKE '%' || ? || '%'") _ _ refl
        (append_when-IsBalanced (not (is_empty f.title_contains))
          (codes "tasks.title LIKE '%' || ? || '%'") _ b refl k))

time-KeepsBalance : (f : ListFilter) → KeepsBalance (append_time_filters f)
unfolding KeepsBalance append_time_filters marks codes
time-KeepsBalance f b k =
    append_some-IsBalanced time_arg (codes "closed_at < ?") f.closed_before _ refl (
      append_some-IsBalanced time_arg (codes "closed_at > ?") f.closed_after _ refl (
        append_some-IsBalanced time_arg (codes "updated_at < ?") f.updated_before _ refl (
          append_some-IsBalanced time_arg (codes "updated_at > ?") f.updated_after _ refl (
            append_some-IsBalanced time_arg (codes "created_at < ?") f.created_before _ refl (
              append_some-IsBalanced time_arg (codes "created_at > ?") f.created_after b refl k)))))

empty_description-KeepsBalance : (f : ListFilter) → KeepsBalance (append_empty_description f)
unfolding KeepsBalance append_empty_description marks codes
empty_description-KeepsBalance f b k =
    append_when-IsBalanced f.empty_description
      (codes "(tasks.description IS NULL OR tasks.description = '')") [] b refl k

no_labels-KeepsBalance : (f : ListFilter) → KeepsBalance (append_no_labels f)
unfolding KeepsBalance append_no_labels marks codes
no_labels-KeepsBalance f b k =
    append_when-IsBalanced f.no_labels (codes "id NOT IN (SELECT task_id FROM task_labels)") [] b
      refl k

pub conditions-IsBalanced :
    (f : ListFilter) (b : Builder) → IsBalanced b → IsBalanced (append_conditions f b)
unfolding append_conditions KeepsBalance
conditions-IsBalanced f b h = no_labels-KeepsBalance f _ (
    empty_description-KeepsBalance f _ (
      time-KeepsBalance f _ (
        contains-KeepsBalance f _ (
          ids-KeepsBalance f _ (
            assignee-KeepsBalance f _ (
              labels-KeepsBalance f _ (
                parent_id-KeepsBalance f _ (
                  priority-KeepsBalance f _ (
                    types-KeepsBalance f _
                      (statuses-KeepsBalance f _ (project-KeepsBalance f b h)))))))))))
