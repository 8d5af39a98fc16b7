-- ===== src/Store/RoundTrip.antt =====
-- A task that is stored and read again.
use grns.Base.{
  ℕ, subst, Bool, true, false, ◌&&◌, arith, ◌≡◌, refl, Option, none, some, [], ◌∷◌, if◌then◌else◌,
  ◌==◌, nat_eq, Bool-cases, inl, inr,
}
use mathlib.Core.Option
use grns.Base.Text.{Text}
use grns.Models.{Time, Custom, Task}
use grns.Store.Time.Order.{db_parse_time-db_format_time, is_dated}
use grns.Store.Project.{project_from_task_id}
use grns.Store.Tasks.{null_if_empty, custom_to_json, null_time, task_row}
use grns.Store.Queries.{or_empty, custom_of, scan_closed, scan_task}

or_empty-null_if_empty : (s : Text) → or_empty (null_if_empty s) ≡ s
unfolding null_if_empty
or_empty-null_if_empty [] = refl
or_empty-null_if_empty (c ∷ s) = refl

custom_of-custom_to_json : (c : Custom) → custom_of (custom_to_json c) ≡ c
unfolding custom_to_json
custom_of-custom_to_json [] = refl
custom_of-custom_to_json (c ∷ cs) = refl

-- A pointer to the zero time is stored as NULL, as a nil pointer is.
abbrev pub without_zero : Option Time → Option Time
without_zero none = none
without_zero (some t) = if t == 0 then none else some t

abbrev pub is_dated_closing : Option Time → Bool
is_dated_closing none = true
is_dated_closing (some t) = is_dated t

-- The three times of the task are before the year 10000.
abbrev pub is_dated_task : Task → Bool
is_dated_task t = is_dated t.created_at && (is_dated t.updated_at && is_dated_closing t.closed_at)

at_zero : is_dated 0 ≡ true
unfolding is_dated
at_zero = refl

zero_is_dated : (t : Time) → (t == 0) ≡ true → is_dated t ≡ true
zero_is_dated t e = subst (λ n. is_dated n ≡ true) (zero_of t e) at_zero
  where
    zero_of : (n : ℕ) → (n == 0) ≡ true → 0 ≡ n
    zero_of n h = ground arith

scan_closed-null_time :
    (c : Option Time)
    → scan_closed (null_time c) ≡ (if is_dated_closing c then some (without_zero c) else none)
unfolding scan_closed null_time
scan_closed-null_time none = refl
scan_closed-null_time (some t) = elim (Bool-cases (t == 0)) [
  | inl e ↦ rw (e, zero_is_dated t e)
  | inr e ↦ rw e (
      rw db_parse_time-db_format_time
        (elim (Bool-cases (is_dated t)) [ inl d ↦ rw d | inr d ↦ rw d ]))
]

-- Three reads in a row succeed together.
read_three :
    (a b c : Bool) (t u : Time) (v : Option Time) (f : Time → Time → Option Time → Task)
    → Option.bind (if a then some t else none) (λ created.
      Option.bind (if b then some u else none) λ updated.
        Option.bind (if c then some v else none) λ closed. some (f created updated closed))
      ≡ (if a && (b && c) then some (f t u v) else none)
unfolding Option.bind
read_three true true true t u v f = refl
read_three true true false t u v f = refl
read_three true false c t u v f = refl
read_three false b c t u v f = refl

-- A task that is stored under the project that its id names is read back as it was, every field
-- included, except that its project is the one that the id names and that a closing time which is
-- the zero time is read back as none, if its times are before the year 10000; if one of them is
-- not, the row is stored and cannot be read.
pub scan_task-task_row :
    (t : Task)
    → scan_task (task_row (project_from_task_id t.id) t) ≡ (
        if is_dated_task t
        then some
            (record t { project = project_from_task_id t.id; closed_at = without_zero t.closed_at })
        else none)
unfolding scan_task task_row
scan_task-task_row t =
    simp
      (
        db_parse_time-db_format_time, scan_closed-null_time, or_empty-null_if_empty,
        custom_of-custom_to_json,
      )
      (read_three (is_dated t.created_at) (is_dated t.updated_at) (is_dated_closing t.closed_at)
        t.created_at t.updated_at (without_zero t.closed_at) _)
