-- ===== src/Store/SpecRegex.antt =====
-- internal/store/tasks.go, `filterRowsBySpecRegex`: the pages of a list that a regular expression
-- on the spec id filters. The expression itself is a parameter: `matches` is `re.MatchString`.
use grns.Base.{
  ℕ, zero, suc, ◌-◌, ◌<◌, ◌≤◌, ◌≡◌, refl, ap, Bool, true, not, ◌&&◌, ◌||◌, List, [], ◌∷◌, ◌++◌,
  Option, some, inl, inr, Bool-cases, ◌∙◌, if◌then◌else◌, ltb, leb, is_empty, length, take, drop,
  filter, length-append, arith,
}
use mathlib.Core.Option
use mathlib.Core.List.{append-nil, append_assoc}
use grns.Base.Text.{Text}
use grns.Models.{Task}
use grns.Store.Tables.{TaskRow}
use grns.Store.Queries.{scan_task, limited}

-- What the loop does after a row: leave with the tasks found, or go on with `skipped` and `filtered`.
pub data Step : Type 0 where
  leave : List Task → Step
  next : ℕ → List Task → Step

-- The test of the first `continue`, negated.
unfoldable pub is_listed : (Text → Bool) → Task → Bool
is_listed matches t = not (is_empty t.spec_id || not (matches t.spec_id))

unfoldable pub spec_step : (Text → Bool) → ℕ → ℕ → ℕ → List Task → Task → Step
unfolding is_listed
spec_step matches limit offset skipped filtered t =
    if is_listed matches t
    then if ltb skipped offset
      then next (suc skipped) filtered
      else if ltb 0 limit && leb limit (length (filtered ++ t ∷ []))
      then leave (filtered ++ t ∷ [])
      else next skipped (filtered ++ t ∷ [])
    else next skipped filtered

-- The rest of the loop, or its end.
abbrev pub resume : (ℕ → List Task → Option (List Task)) → Step → Option (List Task)
resume go (leave found) = some found
resume go (next skipped filtered) = go skipped filtered

unfoldable pub filter_from :
    (Text → Bool) → ℕ → ℕ → ℕ → List Task → List TaskRow → Option (List Task)
unfolding scan_task spec_step
filter_from matches limit offset skipped filtered [] = some filtered
filter_from matches limit offset skipped filtered (row ∷ rows) = Option.bind (scan_task row) λ t.
    resume (λ skipped' filtered'. filter_from matches limit offset skipped' filtered' rows)
      (spec_step matches limit offset skipped filtered t)

unfoldable pub filter_rows_by_spec_regex : (Text → Bool) → ℕ → ℕ → List TaskRow → Option (List Task)
unfolding filter_from
filter_rows_by_spec_regex matches limit offset rows = filter_from matches limit offset 0 [] rows

-- The rows scan to the tasks, one by one.
pub data Scans : List TaskRow → List Task → Type 0 where
  no_rows : Scans [] []
  row_more :
      {row : TaskRow} {t : Task} {rows : List TaskRow} {ts : List Task}
      → scan_task row ≡ some t
      → Scans rows ts
      → Scans (row ∷ rows) (t ∷ ts)

-- What is still to come of a page that has `n` tasks.
rest_of : ℕ → ℕ → List Task → List Task
rest_of limit n ts = if ltb 0 limit then take (limit - n) ts else ts

drop-nothing : (k : ℕ) → drop {A = Task} k [] ≡ []
drop-nothing zero = refl
drop-nothing (suc k) = refl

take-nothing : (k : ℕ) → take {A = Task} k [] ≡ []
take-nothing zero = refl
take-nothing (suc k) = refl

rest_of-none : (limit n k : ℕ) → rest_of limit n (drop k []) ≡ []
unfolding rest_of
rest_of-none limit n k = ground (arith, drop-nothing k, take-nothing (limit - n))

drop-before :
    (k n : ℕ) (t : Task) (ts : List Task) → k < n → drop (n - k) (t ∷ ts) ≡ drop (n - suc k) ts
drop-before k n t ts h = ap (λ m. drop m (t ∷ ts)) more
  where
    more : n - k ≡ suc (n - suc k)
    more = omega (arith, h)

-- The page has room: it holds no limit, or fewer tasks than the limit.
has_room : ℕ → ℕ → Bool
has_room limit n = not (ltb 0 limit) || ltb n limit

rest_of-last :
    (limit n : ℕ) (t : Task) (ts : List Task) → limit ≡ suc n → rest_of limit n (t ∷ ts) ≡ t ∷ []
unfolding rest_of
rest_of-last limit n t ts h = ground (arith, ap (λ m. take m (t ∷ ts)) one)
  where
    one : limit - n ≡ 1
    one = omega (arith, h)

rest_of-more :
    (limit n : ℕ) (t : Task) (ts : List Task)
    → has_room limit n ≡ true
    → rest_of limit n (t ∷ ts) ≡ t ∷ rest_of limit (suc n) ts
unfolding rest_of has_room
rest_of-more limit n t ts h = ground (arith, take-more)
  where
    take-more : n < limit → take (limit - n) (t ∷ ts) ≡ t ∷ take (limit - suc n) ts
    take-more h = ap (λ m. take m (t ∷ ts)) (more h)
      where
        more : n < limit → limit - n ≡ suc (limit - suc n)
        more h = omega (arith, h)

-- One row of the loop.
filter_from-next :
    (matches : Text → Bool) (limit offset skipped : ℕ) (filtered : List Task) (row : TaskRow)
    (t : Task) (rows : List TaskRow) (s : ℕ) (out : List Task)
    → scan_task row ≡ some t
    → spec_step matches limit offset skipped filtered t ≡ next s out
    → filter_from matches limit offset skipped filtered (row ∷ rows)
      ≡ filter_from matches limit offset s out rows
unfolding filter_from Option.bind
filter_from-next matches limit offset skipped filtered row t rows s out e step =
    ap
      (λ v. Option.bind v λ t.
        resume (λ s out. filter_from matches limit offset s out rows)
          (spec_step matches limit offset skipped filtered t))
      e
    ∙ ap (resume (λ s out. filter_from matches limit offset s out rows)) step

filter_from-leave :
    (matches : Text → Bool) (limit offset skipped : ℕ) (filtered : List Task) (row : TaskRow)
    (t : Task) (rows : List TaskRow) (out : List Task)
    → scan_task row ≡ some t
    → spec_step matches limit offset skipped filtered t ≡ leave out
    → filter_from matches limit offset skipped filtered (row ∷ rows) ≡ some out
unfolding filter_from Option.bind
filter_from-leave matches limit offset skipped filtered row t rows out e step =
    ap
      (λ v. Option.bind v λ t.
        resume (λ s out. filter_from matches limit offset s out rows)
          (spec_step matches limit offset skipped filtered t))
      e
    ∙ ap (resume (λ s out. filter_from matches limit offset s out rows)) step

filter_from-rest :
    (matches : Text → Bool) (limit offset skipped : ℕ) (filtered : List Task) (rows : List TaskRow)
    (ts : List Task)
    → Scans rows ts
    → skipped ≤ offset
    → has_room limit (length filtered) ≡ true
    → filter_from matches limit offset skipped filtered rows
      ≡ some (
          filtered
          ++ rest_of limit
              (length filtered)
              (drop (offset - skipped) (filter (is_listed matches) ts)))
unfolding filter_from spec_step has_room
filter_from-rest matches limit offset skipped filtered rows ts no_rows h k =
    rw (rest_of-none limit (length filtered) (offset - skipped), append-nil filtered)
filter_from-rest matches limit offset skipped filtered (row ∷ rows) (t ∷ ts) (row_more e more) h k =
    elim (Bool-cases (is_listed matches t)) [
      | inr unlisted ↦
          filter_from-next matches limit offset skipped filtered row t rows skipped filtered e
            (ground (arith, unlisted))
          ∙ filter_from-rest matches limit offset skipped filtered rows ts more h k
          ∙ ground (arith, unlisted)
      | inl listed ↦ elim (Bool-cases (ltb skipped offset)) [
        | inl before ↦
            filter_from-next matches limit offset skipped filtered row t rows (suc skipped) filtered
              e (ground (arith, listed, before))
            ∙ filter_from-rest matches limit offset (suc skipped) filtered rows ts more
                (ground (arith, before)) k
            ∙ ground (
              arith,
              listed,
              before,
              drop-before skipped offset t (filter (is_listed matches) ts),
            )
        | inr after ↦ elim (Bool-cases (ltb 0 limit && leb limit (suc (length filtered)))) [
          | inl full ↦
              filter_from-leave matches limit offset skipped filtered row t rows
                (filtered ++ t ∷ []) e
                (ground (arith, listed, after, full, length-append filtered (t ∷ [])))
              ∙ ground (
                arith,
                listed,
                after,
                full,
                h,
                k,
                rest_of-last limit (length filtered) t (filter (is_listed matches) ts),
              )
          | inr room ↦
              filter_from-next matches limit offset skipped filtered row t rows skipped
                (filtered ++ t ∷ []) e
                (ground (arith, listed, after, room, length-append filtered (t ∷ [])))
              ∙ filter_from-rest matches limit offset skipped (filtered ++ t ∷ []) rows ts more h
                  (ground (arith, room, length-append filtered (t ∷ [])))
              ∙ ground (
                arith,
                listed,
                after,
                h,
                rest_of-more limit (length filtered) t (filter (is_listed matches) ts) k,
                length-append filtered (t ∷ []),
                append_assoc filtered (t ∷ [])
                    (rest_of limit (suc (length filtered)) (filter (is_listed matches) ts)),
              )
        ]
      ]
    ]

room_at_start : (limit : ℕ) → has_room limit 0 ≡ true
unfolding has_room
room_at_start limit = ground arith

rest_of-whole : (limit : ℕ) (ts : List Task) → rest_of limit 0 ts ≡ limited limit ts
unfolding rest_of limited
rest_of-whole zero ts = refl
rest_of-whole (suc limit) ts = ground (arith, ap (λ m. take m ts) minus)
  where
    minus : suc limit - 0 ≡ suc limit
    minus = omega arith

-- When all rows scan, the page under a pattern is the tasks whose spec id matches, less the first
-- `offset` of them, cut at `limit` when there is one: the loop that leaves early and counts what
-- it skips returns exactly that, in the order of the rows.
pub spec_regex_page :
    (matches : Text → Bool) (limit offset : ℕ) (rows : List TaskRow) (ts : List Task)
    → Scans rows ts
    → filter_rows_by_spec_regex matches limit offset rows
      ≡ some (limited limit (drop offset (filter (is_listed matches) ts)))
unfolding filter_rows_by_spec_regex
spec_regex_page matches limit offset rows ts h =
    filter_from-rest matches limit offset 0 [] rows ts h (omega arith) (room_at_start limit)
    ∙ ap some (
        ap (λ n. rest_of limit 0 (drop n (filter (is_listed matches) ts))) minus
        ∙ rest_of-whole limit (drop offset (filter (is_listed matches) ts)))
  where
    minus : offset - 0 ≡ offset
    minus = omega arith
