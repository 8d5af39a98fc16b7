-- ===== src/Store/Time/Dates.antt =====
-- The dates of stored times: they are dates of the calendar, show the seconds they were written
-- from, and are in the order of these.
use grns.Base.{
  sym, subst, ltb, ◌&&◌, ◌||◌, ◌==◌, leb, ltb, Bool, ◌*◌, ℕ, ◌+◌, ◌-◌, ◌/◌, ◌%◌, ◌<◌, ◌≡◌, refl,
  true, false, nat_eq, arith, Bool-cases, inl, inr,
}
use grns.Base.Text.{Text, text_ltb}
use grns.Store.Time.{stamp, stamp_at, date_seconds, is_date, db_before}
use grns.Store.Time.Calendar.{
  year_day, month_day, month_lengths, day_back, yday_of-month_day, is_day-month_day, yday_total,
  year_day-before, month_day-before, day_before, days_before, yday_of, is_day,
}

less_one : (n : ℕ) → n + 1 - 1 ≡ n
less_one n = omega arith

shown_date :
    (years month day clock : ℕ)
    → is_day (month_lengths (years + 1)) month day ≡ true
    → clock < 86400
    → is_date (years + 1) (month + 1) (day + 1) clock ≡ leb (years + 1) 9999
unfolding is_date
shown_date years month day clock h k = rw (less_one month, less_one day, h) (ground arith)

shown_seconds :
    (years month day clock : ℕ)
    → date_seconds (years + 1) (month + 1) (day + 1) clock
      ≡ (days_before years + yday_of (month_lengths (years + 1)) month day) * 86400 + clock
unfolding date_seconds
shown_seconds years month day clock = rw (less_one years, less_one month, less_one day) refl

-- The day that is shown of a number of seconds.
abbrev pub day_of : ℕ → ℕ × ℕ
day_of n = month_day (month_lengths ((year_day (n / 86400)).years + 1)) (year_day (n / 86400)).yday

abbrev pub years_of : ℕ → ℕ
years_of n = (year_day (n / 86400)).years

pub stamp_seconds :
    (n : ℕ) → date_seconds (years_of n + 1) ((day_of n).0 + 1) ((day_of n).1 + 1) (n % 86400) ≡ n
stamp_seconds n =
    let date = year_day (n / 86400) in
    rw
      (
        shown_seconds (years_of n) (day_of n).0 (day_of n).1 (n % 86400),
        yday_of-month_day (month_lengths (date.years + 1)) date.yday,
        day_back (n / 86400),
      )
      (omega arith)

pub stamp_date :
    (n : ℕ)
    → is_date (years_of n + 1) ((day_of n).0 + 1) ((day_of n).1 + 1) (n % 86400)
      ≡ leb (years_of n + 1) 9999
stamp_date n =
    shown_date (years_of n) (day_of n).0 (day_of n).1 (n % 86400)
      (is_day-month_day (month_lengths (years_of n + 1)) (year_day (n / 86400)).yday
        (yday_total (n / 86400)))
      (omega arith)

-- The order of what stands before the fraction.
abbrev is_earlier : ℕ → ℕ → ℕ → ℕ → ℕ → ℕ → ℕ → ℕ → Bool
is_earlier y m d c y' m' d' c' =
    ltb y y' || ((y == y') && (ltb m m' || ((m == m') && (ltb d d' || ((d == d') && ltb c c')))))

earlier_text :
    (y m d c y' m' d' c' : ℕ) (f f' : Text)
    → is_earlier y m d c y' m' d' c' ≡ true
    → (db_before (stamp y m d c f) (stamp y' m' d' c' f') ≡ true)
      × (db_before (stamp y' m' d' c' f') (stamp y m d c f) ≡ false)
unfolding db_before
earlier_text y m d c y' m' d' c' f f' h = (ground arith, ground arith)

pub same_second_text :
    (y m d c : ℕ) (f f' : Text) → db_before (stamp y m d c f) (stamp y m d c f') ≡ text_ltb f f'
unfolding db_before
same_second_text y m d c f f' = ground arith

earlier_month :
    (y m d c m' d' c' : ℕ)
    → day_before m d m' d' ≡ true
    → is_earlier y (m + 1) (d + 1) c y (m' + 1) (d' + 1) c' ≡ true
earlier_month y m d c m' d' c' h = ground arith

earlier_year :
    (p y q z c c' : ℕ)
    → day_before p y q z ≡ true
    → is_earlier
        (p + 1)
        ((month_day (month_lengths (p + 1)) y).0 + 1)
        ((month_day (month_lengths (p + 1)) y).1 + 1)
        c
        (q + 1)
        ((month_day (month_lengths (q + 1)) z).0 + 1)
        ((month_day (month_lengths (q + 1)) z).1 + 1)
        c'
      ≡ true
earlier_year p y q z c c' h = elim (Bool-cases (ltb p q)) [
  | inl e ↦ ground arith
  | inr e ↦
      let same : p ≡ q = ground arith in
      let later : y < z = ground arith in
      let ns = month_lengths (q + 1) in
      rw same (
        earlier_month (q + 1) (month_day ns y).0 (month_day ns y).1 c (month_day ns z).0
          (month_day ns z).1 c' (month_day-before ns y z later))
]

earlier_day :
    (m n : ℕ)
    → m / 86400 < n / 86400
    → is_earlier
        (years_of m + 1)
        ((day_of m).0 + 1)
        ((day_of m).1 + 1)
        (m % 86400)
        (years_of n + 1)
        ((day_of n).0 + 1)
        ((day_of n).1 + 1)
        (n % 86400)
      ≡ true
earlier_day m n h =
    earlier_year (years_of m) (year_day (m / 86400)).yday (years_of n) (year_day (n / 86400)).yday
      (m % 86400) (n % 86400) (year_day-before (m / 86400) (n / 86400) h)

same_day : (y m d c c' : ℕ) → c < c' → is_earlier y m d c y m d c' ≡ true
same_day y m d c c' h = ground arith

earlier_seconds :
    (m n : ℕ)
    → m < n
    → is_earlier
        (years_of m + 1)
        ((day_of m).0 + 1)
        ((day_of m).1 + 1)
        (m % 86400)
        (years_of n + 1)
        ((day_of n).0 + 1)
        ((day_of n).1 + 1)
        (n % 86400)
      ≡ true
earlier_seconds m n h = elim (Bool-cases (ltb (m / 86400) (n / 86400))) [
  | inl e ↦ earlier_day m n (ground arith)
  | inr e ↦
      let same : m / 86400 ≡ n / 86400 = ground arith in
      let clock : m % 86400 < n % 86400 = omega (arith, same, h) in
      subst
        (λ k.
          is_earlier ((year_day k).years + 1)
            ((month_day (month_lengths ((year_day k).years + 1)) (year_day k).yday).0 + 1)
            ((month_day (month_lengths ((year_day k).years + 1)) (year_day k).yday).1 + 1)
            (m % 86400) (years_of n + 1) ((day_of n).0 + 1) ((day_of n).1 + 1) (n % 86400)
          ≡ true)
        (sym same)
        (same_day (years_of n + 1) ((day_of n).0 + 1) ((day_of n).1 + 1) (m % 86400) (n % 86400)
          clock)
]

-- Later seconds have later texts.
pub stamp_at-before :
    (m n : ℕ) (x y : Text)
    → m < n
    → (db_before (stamp_at m x) (stamp_at n y) ≡ true)
      × (db_before (stamp_at n y) (stamp_at m x) ≡ false)
unfolding stamp_at
stamp_at-before m n x y h =
    earlier_text (years_of m + 1) ((day_of m).0 + 1) ((day_of m).1 + 1) (m % 86400) (years_of n + 1)
      ((day_of n).0 + 1) ((day_of n).1 + 1) (n % 86400) x y (earlier_seconds m n h)
