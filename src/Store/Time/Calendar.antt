-- ===== src/Store/Time/Calendar.antt =====
-- The dates of the texts that package time writes: the year, month and day of a number of days
-- since January 1 of the year 1, in the Gregorian calendar, and the number of days of a date.
use grns.Base.{
  ℕ, zero, suc, ◌+◌, ◌-◌, ◌*◌, ◌/◌, ◌%◌, ◌<◌, ◌≤◌, ◌≡◌, refl, Bool, true, false, not, ◌&&◌, ◌||◌,
  List, [], ◌∷◌, arith, ◌⊎◌, inl, inr, Bool-cases, if◌then◌else◌, ◌==◌, nat_eq, ltb,
}

abbrev at_most : ℕ → ℕ → ℕ
at_most m n = if ltb m n then m else n

-- Of two numbers with the first one first: the order of texts of a fixed width.
abbrev pub day_before : ℕ → ℕ → ℕ → ℕ → Bool
day_before m d m' d' = ltb m m' || ((m == m') && ltb d d')

-- The days from January 1 of the year 1 to that of the year `p + 1`.
abbrev pub days_before : ℕ → ℕ
days_before p = p * 365 + p / 4 - p / 100 + p / 400

-- The whole years behind the year 1 and the days in the year.
pub record YearDay : Type 0 where
  pub years : ℕ
  pub yday : ℕ

unfoldable pub year_day : ℕ → YearDay
year_day d =
    let r = d % 146097 in
    let b = at_most (r / 36524) 3 in
    let s = r - b * 36524 in
    let e = at_most (s % 1461 / 365) 3 in
    record { years = d / 146097 * 400 + b * 100 + s / 1461 * 4 + e; yday = s % 1461 - e * 365 }

sum_days :
    (a b c e : ℕ)
    → b < 4
    → c < 25
    → e < 4
    → days_before (a * 400 + b * 100 + c * 4 + e) ≡ a * 146097 + b * 36524 + c * 1461 + e * 365
sum_days a b c e hb hc he = omega arith

pub day_back : (d : ℕ) → days_before (year_day d).years + (year_day d).yday ≡ d
unfolding year_day
day_back d =
    let r = d % 146097 in
    let b = at_most (r / 36524) 3 in
    let s = r - b * 36524 in
    let e = at_most (s % 1461 / 365) 3 in
    let hb : (b < 4) × (b * 36524 ≤ r) × (s < 36525) = (ground arith, ground arith, ground arith) in
    let hc : s / 1461 < 25 = omega (arith, hb.2) in
    let he : (e < 4) × (e * 365 ≤ s % 1461) = (ground arith, ground arith) in
    omega (arith, sum_days (d / 146097) b (s / 1461) e hb.0 hc he.0, hb.1, he.1)

after_years :
    (a b s e : ℕ)
    → b < 4
    → s < 36525
    → e < 4
    → (s < 36524) ⊎ (b ≡ 3)
    → (s % 1461 < (e + 1) * 365) ⊎ (e ≡ 3)
    → a * 146097 + b * 36524 + s < days_before (a * 400 + b * 100 + s / 1461 * 4 + e + 1)
after_years a b s e hb hs he (inl h) (inl k) = omega arith
after_years a b s e hb hs he (inl h) (inr k) = omega arith
after_years a b s e hb hs he (inr h) (inl k) = omega arith
after_years a b s e hb hs he (inr h) (inr k) = omega arith

year_length : (d : ℕ) → d < days_before ((year_day d).years + 1)
unfolding year_day
year_length d =
    let r = d % 146097 in
    let b = at_most (r / 36524) 3 in
    let s = r - b * 36524 in
    let hb : (b < 4) × (b * 36524 ≤ r) × (s < 36525) = (ground arith, ground arith, ground arith) in
    let hs : (s < 36524) ⊎ (b ≡ 3) = ground arith in
    let e = at_most (s % 1461 / 365) 3 in
    let he : (e < 4) × ((s % 1461 < (e + 1) * 365) ⊎ (e ≡ 3)) = (ground arith, ground arith) in
    omega (arith, after_years (d / 146097) b s e hb.0 hb.2 he.0 hs he.1, hb.1)

years_mono : (p q : ℕ) → p ≤ q → days_before p ≤ days_before q
years_mono p q h = omega arith

order_years :
    (p y q z : ℕ)
    → days_before p + y < days_before q + z
    → days_before q + z < days_before (q + 1)
    → days_before p + y < days_before (p + 1)
    → (ltb p q || ((p == q) && ltb y z)) ≡ true
order_years p y q z h k l = elim (Bool-cases (ltb p q)) [
  | inl e ↦ ground arith
  | inr e ↦
      let near : q ≤ p = ground arith in
      let mono : (q < p) → days_before (q + 1) ≤ days_before p =
        λ b. years_mono (q + 1) p (omega arith) in
      ground (arith, mono)
]

-- Later days are in later years, or later in the same year.
pub year_day-before :
    (c d : ℕ)
    → c < d
    → day_before (year_day c).years (year_day c).yday (year_day d).years (year_day d).yday ≡ true
year_day-before c d h =
    order_years (year_day c).years (year_day c).yday (year_day d).years (year_day d).yday
      (omega (arith, day_back c, day_back d)) (omega (arith, day_back d, year_length d))
      (omega (arith, day_back c, year_length c))

-- The month, counted from 0, and the day in it, counted from 0, of a day in the year, by the
-- lengths of the months.
unfoldable pub month_day : List ℕ → ℕ → ℕ × ℕ
month_day [] y = (0, y)
month_day (n ∷ ns) y =
    let later = month_day ns (y - n) in if ltb y n then (0, y) else (suc later.0, later.1)

unfoldable pub yday_of : List ℕ → ℕ → ℕ → ℕ
yday_of [] m d = d
yday_of (n ∷ ns) zero d = d
yday_of (n ∷ ns) (suc m) d = n + yday_of ns m d

pub yday_of-month_day : (ns : List ℕ) (y : ℕ) → yday_of ns (month_day ns y).0 (month_day ns y).1 ≡ y
unfolding yday_of month_day
yday_of-month_day [] y = refl
yday_of-month_day (n ∷ ns) y = ground (arith, yday_of-month_day ns (y - n))

pub month_day-before :
    (ns : List ℕ) (y z : ℕ)
    → y < z
    → day_before (month_day ns y).0 (month_day ns y).1 (month_day ns z).0 (month_day ns z).1 ≡ true
unfolding month_day
month_day-before [] y z h = ground arith
month_day-before (n ∷ ns) y z h = ground (arith, month_day-before ns (y - n) (z - n))

-- Whether there is such a month with such a day.
unfoldable pub is_day : List ℕ → ℕ → ℕ → Bool
is_day [] m d = false
is_day (n ∷ ns) zero d = ltb d n
is_day (n ∷ ns) (suc m) d = is_day ns m d

abbrev pub total : List ℕ → ℕ
total [] = 0
total (n ∷ ns) = n + total ns

pub is_day-month_day :
    (ns : List ℕ) (y : ℕ) → y < total ns → is_day ns (month_day ns y).0 (month_day ns y).1 ≡ true
unfolding is_day month_day
is_day-month_day [] y h = absurd (omega arith)
is_day-month_day (n ∷ ns) y h = ground (arith, is_day-month_day ns (y - n))

unfoldable pub is_leap : ℕ → Bool
is_leap year = (year % 4 == 0) && (not (year % 100 == 0) || (year % 400 == 0))

unfoldable pub month_lengths : ℕ → List ℕ
unfolding is_leap
month_lengths year =
    31 ∷ (if is_leap year then 29 else 28) ∷ 31 ∷ 30 ∷ 31 ∷ 30 ∷ 31 ∷ 31 ∷ 30 ∷ 31 ∷ 30 ∷ 31 ∷ []

year_total : (p : ℕ) → days_before (p + 1) ≡ days_before p + total (month_lengths (p + 1))
unfolding month_lengths is_leap
year_total p = ground arith

pub yday_total : (d : ℕ) → (year_day d).yday < total (month_lengths ((year_day d).years + 1))
yday_total d = omega (arith, day_back d, year_length d, year_total (year_day d).years)
