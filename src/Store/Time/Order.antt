-- ===== src/Store/Time/Order.antt =====
-- Stored times read back as written, and how their texts compare.
use grns.Base.{
  leb, ◌∙◌, Bool, ◌*◌, if◌then◌else◌, Option, none, ℕ, zero, suc, ◌+◌, ◌-◌, ◌/◌, ◌%◌, ◌^◌, ◌<◌, ◌≡◌,
  refl, ap, true, false, [], ◌∷◌, ◌++◌, some, nat_eq, is_empty, arith, all, length, Bool-cases, inl,
  inr,
}
use grns.Base.Text.{Text, text_ltb, is_digit}
use grns.Models.{Time}
use mathlib.Core.Option
use grns.Store.Time.{
  stamp_at, digits, trim_zeros, write_fraction, db_format_time, read_digits, digits_value,
  read_fraction, db_parse_time, db_before,
}
use grns.Store.Time.Dates.{stamp_seconds, stamp_date, stamp_at-before, same_second_text, years_of}
use grns.Store.Time.Calendar.{year_day}
use native.Mathlib.Nat.{pow-suc, mod-lt, mod-add-div', lt_of_mul-lt-mul_right}

pow_pos : (k : ℕ) → 0 < 10 ^ k
pow_pos zero = omega arith
pow_pos (suc k) = rw pow-suc (omega (arith, pow_pos k))

digit_back : (x : ℕ) → b'0' + x - b'0' ≡ x
digit_back x = omega arith

quotient_below : (k n : ℕ) → n < 10 ^ suc k → n / 10 ^ k < 10
quotient_below k n h =
    lt_of_mul-lt-mul_right (10 ^ k) (omega (arith, mod-add-div' n (10 ^ k), pow-suc 10 k))

digits-value : (k n : ℕ) → n < 10 ^ k → digits_value k (digits k n) ≡ n
unfolding digits digits_value
digits-value zero n h = omega arith
digits-value (suc k) n h =
    rw (digit_back (n / 10 ^ k), digits-value k (n % 10 ^ k) (mod-lt n (pow_pos k)))
      (omega (arith, mod-add-div' n (10 ^ k)))

digits-all : (k n : ℕ) → n < 10 ^ k → all is_digit (digits k n) ≡ true
unfolding digits
digits-all zero n h = refl
digits-all (suc k) n h =
    ground (arith, quotient_below k n h, digits-all k (n % 10 ^ k) (mod-lt n (pow_pos k)))

length-digits : (k n : ℕ) → length (digits k n) ≡ k
unfolding digits
length-digits zero n = refl
length-digits (suc k) n = omega (arith, length-digits k (n % 10 ^ k))

trim_zeros-all : (ds : Text) → all is_digit ds ≡ true → all is_digit (trim_zeros ds) ≡ true
unfolding trim_zeros
trim_zeros-all [] h = refl
trim_zeros-all (d ∷ ds) h = ground (arith, trim_zeros-all ds)

digits_value-nil : (k : ℕ) → digits_value k [] ≡ 0
unfolding digits_value
digits_value-nil zero = refl
digits_value-nil (suc k) = refl

digits_value-trim_zeros : (k : ℕ) (ds : Text) → digits_value k (trim_zeros ds) ≡ digits_value k ds
unfolding trim_zeros digits_value
digits_value-trim_zeros zero ds = refl
digits_value-trim_zeros (suc k) [] = refl
digits_value-trim_zeros (suc k) (d ∷ ds) =
    ground (arith, digits_value-trim_zeros k ds, digits_value-nil k)

read_digits_written : (ds : Text) → all is_digit ds ≡ true → read_digits (ds ++ b'Z' ∷ []) ≡ some ds
unfolding read_digits
read_digits_written [] h = refl
read_digits_written (d ∷ ds) h = ground (arith, read_digits_written ds)

read-write_fraction :
    (ds : Text)
    → all is_digit ds ≡ true
    → read_fraction (write_fraction ds) ≡ some (digits_value 9 ds)
unfolding read_fraction write_fraction
read-write_fraction [] h = refl
read-write_fraction (d ∷ ds) h = ap (Option.map (digits_value 9)) (read_digits_written (d ∷ ds) h)

-- Before the year 10000.
unfoldable pub is_dated : Time → Bool
unfolding year_day
is_dated t = leb ((year_day (t / 10 ^ 9 / 86400)).years + 1) 9999

-- What `db_parse_time` makes of a written time.
abbrev pub read_back : Time → Option Time
read_back t = if is_dated t then some t else none

parse_stamp_at :
    (n f : ℕ) (fraction : Text)
    → read_fraction fraction ≡ some f
    → db_parse_time (stamp_at n fraction)
      ≡ (if leb (years_of n + 1) 9999 then some (n * 10 ^ 9 + f) else none)
unfolding db_parse_time stamp_at
parse_stamp_at n f fraction h = rw (stamp_date n, stamp_seconds n, h) refl

-- What is written is read back as it was if it is a time before the year 10000, and cannot be read
-- if it is a later one.
pub db_parse_time-db_format_time : (t : Time) → db_parse_time (db_format_time t) ≡ read_back t
unfolding db_format_time is_dated
db_parse_time-db_format_time t =
    let n = t % 10 ^ 9 in
    let below : n < 10 ^ 9 = omega arith in
    let whole : t / 10 ^ 9 * 10 ^ 9 + n ≡ t = omega arith in
    let fraction = write_fraction (trim_zeros (digits 9 n)) in
    let read : read_fraction fraction ≡ some n =
      read-write_fraction (trim_zeros (digits 9 n))
        (trim_zeros-all (digits 9 n) (digits-all 9 n below))
      ∙ ap some (digits_value-trim_zeros 9 (digits 9 n) ∙ digits-value 9 n below) in
    parse_stamp_at (t / 10 ^ 9) n fraction read
    ∙ ap (λ x. if is_dated t then some x else none) whole

-- The order of the numbers in the texts.
pub db_before_seconds :
    (t u : Time)
    → t / 10 ^ 9 < u / 10 ^ 9
    → (db_before (db_format_time t) (db_format_time u) ≡ true)
      × (db_before (db_format_time u) (db_format_time t) ≡ false)
unfolding db_format_time
db_before_seconds t u h = stamp_at-before (t / 10 ^ 9) (u / 10 ^ 9) _ _ h

-- A time is stored before every time of a later second, and not behind it, if the later one is
-- before the year 10000, up to which the numbers in the texts have a fixed width.
pub db_before_dated :
    (t u : Time)
    → is_dated u ≡ true
    → t / 10 ^ 9 < u / 10 ^ 9
    → (db_before (db_format_time t) (db_format_time u) ≡ true)
      × (db_before (db_format_time u) (db_format_time t) ≡ false)
db_before_dated t u _ h = db_before_seconds t u h

fraction_not_empty : (n : ℕ) → n < 10 ^ 9 → 0 < n → is_empty (trim_zeros (digits 9 n)) ≡ false
fraction_not_empty n below h = elim (Bool-cases (is_empty (trim_zeros (digits 9 n)))) [
  | inl e ↦ absurd (
      omega (
        arith,
        digits-value 9 n below,
        digits_value-trim_zeros 9 (digits 9 n),
        ap (digits_value 9) (nil_of (trim_zeros (digits 9 n)) e),
        digits_value-nil 9,
      ))
  | inr e ↦ e
]
  where
    nil_of : (s : Text) → is_empty s ≡ true → s ≡ []
    nil_of [] _ = refl
    nil_of (c ∷ s) e = cc

point_before_z :
    (ds : Text)
    → is_empty ds ≡ false
    → (text_ltb (write_fraction ds) (write_fraction []) ≡ true)
      × (text_ltb (write_fraction []) (write_fraction ds) ≡ false)
unfolding text_ltb write_fraction
point_before_z [] e = cc
point_before_z (d ∷ ds) e = (refl, refl)

zero_fraction : trim_zeros (digits 9 0) ≡ []
unfolding trim_zeros digits
zero_fraction = refl

same_second : (n : ℕ) (x y : Text) → db_before (stamp_at n x) (stamp_at n y) ≡ text_ltb x y
unfolding stamp_at
same_second n x y = same_second_text _ _ _ _ x y

format_on_second :
    (t : Time) → t % 10 ^ 9 ≡ 0 → db_format_time t ≡ stamp_at (t / 10 ^ 9) (write_fraction [])
unfolding db_format_time
format_on_second t whole = rw (whole, zero_fraction)

format_in_second :
    (t f : Time)
    → t % 10 ^ 9 ≡ 0
    → f < 10 ^ 9
    → db_format_time (t + f) ≡ stamp_at (t / 10 ^ 9) (write_fraction (trim_zeros (digits 9 f)))
unfolding db_format_time
format_in_second t f whole small =
    let seconds : (t + f) / 10 ^ 9 ≡ t / 10 ^ 9 = omega arith in
    let rest : (t + f) % 10 ^ 9 ≡ f = omega arith in rw (seconds, rest)

-- The texts of two times within one second can compare the wrong way round: a time on the full
-- second is stored as a text behind that of every later time of the same second.
pub db_before_misorders :
    (t f : Time)
    → t % 10 ^ 9 ≡ 0
    → 0 < f
    → f < 10 ^ 9
    → (db_before (db_format_time (t + f)) (db_format_time t) ≡ true)
      × (db_before (db_format_time t) (db_format_time (t + f)) ≡ false)
db_before_misorders t f whole pos small =
    let order = point_before_z (trim_zeros (digits 9 f)) (fraction_not_empty f small pos) in
    rw (format_in_second t f whole small, format_on_second t whole, same_second)
      (simp same_second order)
