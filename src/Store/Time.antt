-- ===== src/Store/Time.antt =====
-- internal/store/tasks.go, `dbFormatTime` and `dbParseTime`: times as the store's text columns.
-- RFC3339Nano writes the year, the month and the day, the time of day, the fraction of a second
-- without trailing zeros, and the letter Z. The numbers have a fixed width as long as the year has
-- four digits, so that they stand for their texts, and the time of day for its seconds; the
-- fraction is a text. The layout reads a year of four digits only: later times are written but not
-- read.
pub mod Calendar
pub mod Dates
pub mod Order
use grns.Base.{
  ℕ, zero, suc, ◌+◌, ◌-◌, ◌*◌, ◌/◌, ◌%◌, ◌^◌, Bool, true, false, ◌&&◌, ◌||◌, List, [], ◌∷◌, ◌++◌,
  Option, none, some, if◌then◌else◌, ◌==◌, nat_eq, ltb, leb, is_empty,
}
use grns.Base.Text.{Text, text_ltb, is_digit}
use grns.Models.{Time}
use grns.Store.Time.Calendar.{year_day, month_day, month_lengths, is_day, yday_of, days_before}
use mathlib.Core.Option

-- A text in a column for times: the empty one, or the year, month, day, seconds of the day and the
-- fraction that it shows.
pub data DbTime : Type 0 where
  blank : DbTime
  stamp : ℕ → ℕ → ℕ → ℕ → Text → DbTime

-- `k` decimal digits of `n`, the most significant first.
unfoldable pub digits : ℕ → ℕ → Text
digits zero n = []
digits (suc k) n = (b'0' + n / 10 ^ k) ∷ digits k (n % 10 ^ k)

unfoldable pub trim_zeros : Text → Text
trim_zeros [] = []
trim_zeros (d ∷ ds) =
    let rest = trim_zeros ds in if is_empty rest && (d == b'0') then [] else d ∷ rest

unfoldable pub write_fraction : Text → Text
write_fraction [] = b'Z' ∷ []
write_fraction (d ∷ ds) = b'.' ∷ (d ∷ ds) ++ b'Z' ∷ []

-- The text of a number of seconds since the zero time, with its fraction.
unfoldable pub stamp_at : ℕ → Text → DbTime
unfolding year_day month_day month_lengths
stamp_at seconds fraction =
    let date = year_day (seconds / 86400) in
    let day = month_day (month_lengths (date.years + 1)) date.yday in
    stamp (date.years + 1) (day.0 + 1) (day.1 + 1) (seconds % 86400) fraction

unfoldable pub db_format_time : Time → DbTime
unfolding digits trim_zeros write_fraction stamp_at
db_format_time t = stamp_at (t / 10 ^ 9) (write_fraction (trim_zeros (digits 9 (t % 10 ^ 9))))

-- The digits up to the Z, at which the text must end.
unfoldable pub read_digits : Text → Option Text
read_digits [] = none
read_digits (c ∷ s) =
    if c == b'Z'
    then (if is_empty s then some [] else none)
    else if is_digit c
    then Option.map (λ ds. c ∷ ds) (read_digits s)
    else none

-- The first `k` digits as a number of `k` digits, as if zeros followed.
unfoldable pub digits_value : ℕ → Text → ℕ
digits_value zero ds = 0
digits_value (suc k) [] = 0
digits_value (suc k) (d ∷ ds) = (d - b'0') * 10 ^ k + digits_value k ds

unfoldable pub read_fraction : Text → Option ℕ
unfolding read_digits digits_value
read_fraction [] = none
read_fraction (c ∷ s) =
    if c == b'.'
    then Option.map (digits_value 9) (read_digits s)
    else if (c == b'Z') && is_empty s
    then some 0
    else none

-- What the layout takes: the year 0, before the zero time, is left out.
unfoldable pub is_date : ℕ → ℕ → ℕ → ℕ → Bool
unfolding is_day month_lengths
is_date year month day clock =
    leb 1 year
    && leb year 9999
    && leb 1 month
    && leb 1 day
    && is_day (month_lengths year) (month - 1) (day - 1)
    && ltb clock 86400

unfoldable pub date_seconds : ℕ → ℕ → ℕ → ℕ → ℕ
unfolding yday_of month_lengths
date_seconds year month day clock =
    (days_before (year - 1) + yday_of (month_lengths year) (month - 1) (day - 1)) * 86400 + clock

unfoldable pub db_parse_time : DbTime → Option Time
unfolding read_fraction is_date date_seconds
db_parse_time blank = some 0
db_parse_time (stamp year month day clock fraction) =
    if is_date year month day clock
    then Option.map (λ n. date_seconds year month day clock * 10 ^ 9 + n) (read_fraction fraction)
    else none

-- The SQL comparison of two stored times, of years with four digits.
unfoldable pub db_before : DbTime → DbTime → Bool
unfolding text_ltb
db_before blank blank = false
db_before blank (stamp year month day clock fraction) = true
db_before (stamp year month day clock fraction) blank = false
db_before (stamp y m d c f) (stamp y' m' d' c' f') =
    ltb y y'
    || ((y == y')
        && (ltb m m'
            || ((m == m')
                && (ltb d d' || ((d == d') && (ltb c c' || ((c == c') && text_ltb f f')))))))
