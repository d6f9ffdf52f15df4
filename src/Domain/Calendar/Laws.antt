-- ===== src/Domain/Calendar/Laws.antt =====
-- Which texts the due-date check accepts.
use lovechapter.Prelude.{
  ℕ, zero, suc, ◌+◌, ◌/◌, ◌%◌, ◌<◌, ◌≤◌, ◌≡◌, refl, ◌≢◌, true, some, none, arith, ltb, leb, inl,
  inr, Bool-cases, Option, ◌↔◌, le→leb, ltb→lt, leb→le, sym, ◌∙◌, ap,
}
use lovechapter.Prelude.Number.{ℤ, pos, negsuc}
use lovechapter.Text.{Text}
use lovechapter.Text.Equal.{eq_of_text_eq, text_eq_refl}
use lovechapter.Domain.Calendar.{
  days_in_month, roll, set_utc_full_year, previous_year, iso_date, date_fields, survives,
  is_calendar_date,
}
use lovechapter.Domain.Calendar.Printing.{
  date_fields-iso_date, date_fields-iso_date_late, date_fields-iso_date_early,
}
use lovechapter.Domain.Calendar.Rolling.{roll-late, roll_of_fits, roll_month, roll-zero}

-- The text is the printed form of a day that the proleptic Gregorian calendar has, in the years 0
-- to 9999.
pub record IsCalendarDate (s : Text) : Type 0 where
  pub year : ℕ
  pub month : ℕ
  pub day : ℕ
  pub four_digit_year : year < 10000
  pub first_month : 1 ≤ month
  pub last_month : month ≤ 12
  pub first_day : 1 ≤ day
  pub last_day : day ≤ days_in_month (pos year) month
  pub printed : s ≡ iso_date (record { year = pos year; month = month; day = day })

-- What the printed fields of a date say of it.
printed_fields :
    (n : ℤ) (k j y m d : ℕ)
    → date_fields (iso_date (record { year = n; month = k; day = j })) ≡ some (y, m, d)
    → (n ≡ pos y) × (y < 10000) × (k % 100 ≡ m)
printed_fields (pos n) k j y m d e = elim (Bool-cases (ltb n 10000)) [
  | inl early ↦ ground (arith, date_fields-iso_date n k j (ltb→lt n 10000 early))
  | inr late ↦ ground (arith, date_fields-iso_date_late n k j (ground arith))
]
printed_fields (negsuc n) k j y m d e = ground (arith, date_fields-iso_date_early n k j)

pos-injective : (a b : ℕ) → pos a ≡ pos b → a ≡ b
pos-injective a b e = ground arith

-- A date that `setUTCFullYear` leaves in its year and month is a date of the calendar.
module _ (y : ℕ) where
  no_month_zero : (d : ℕ) → (set_utc_full_year y 0 d).month % 100 ≢ 0
  unfolding set_utc_full_year
  no_month_zero d e =
      absurd (omega (arith, roll_month (previous_year (pos y)) 12 d (omega arith) (omega arith)))

  set_utc_full_year_of_month :
      (k d : ℕ) → k < 12 → set_utc_full_year y (suc k) d ≡ roll (pos y) (suc k) d
  unfolding set_utc_full_year
  set_utc_full_year_of_month k d h =
      let p : y + k / 12 ≡ y = omega arith in let q : k % 12 ≡ k = omega arith in rw (p, q)

  set_utc_full_year_month :
      (k d : ℕ)
      → (1 ≤ (set_utc_full_year y (suc k) d).month) × ((set_utc_full_year y (suc k) d).month ≤ 12)
  unfolding set_utc_full_year
  set_utc_full_year_month k d =
      roll_month (pos (y + k / 12)) (suc (k % 12)) d (omega arith) (omega arith)

  kept_day :
      (m d : ℕ)
      → 1 ≤ m
      → m ≤ 12
      → (roll (pos y) m d).year ≡ pos y
      → (roll (pos y) m d).month % 100 ≡ m
      → (1 ≤ d)
        × (d ≤ days_in_month (pos y) m)
        × (roll (pos y) m d ≡ record { year = pos y; month = m; day = d })
  kept_day m zero lo hi ey em =
      absurd (omega (arith, roll-zero y m y lo ey, roll_month (pos y) m 0 lo hi))
  kept_day m (suc d) lo hi ey em = elim (Bool-cases (leb (suc d) (days_in_month (pos y) m))) [
    | inl fits ↦ (omega arith, leb→le _ _ fits, roll_of_fits y m d fits)
    | inr over ↦
        let late = roll-late y m d lo hi over in
        let same = pos-injective late.index y (sym late.year ∙ ey) in
        absurd (omega (arith, late.after, late.last, same))
  ]

  kept :
      (m d : ℕ)
      → (set_utc_full_year y m d).year ≡ pos y
      → (set_utc_full_year y m d).month % 100 ≡ m
      → (1 ≤ m)
        × (m ≤ 12)
        × (1 ≤ d)
        × (d ≤ days_in_month (pos y) m)
        × (set_utc_full_year y m d ≡ record { year = pos y; month = m; day = d })
  kept zero d ey em = absurd (no_month_zero d em)
  kept (suc k) d ey em =
      let k_lt : k < 12 = omega (arith, set_utc_full_year_month k d) in
      let e = set_utc_full_year_of_month k d k_lt in
      let (first, last, same) =
        kept_day (suc k) d (omega arith) (omega arith) (rw e at ey) (rw e at em) in
      (omega arith, omega arith, first, last, rw e same)

IsCalendarDate-of_fields :
    (s : Text) (y m d : ℕ)
    → date_fields s ≡ some (y, m, d)
    → s ≡ iso_date (set_utc_full_year y m d)
    → IsCalendarDate s
IsCalendarDate-of_fields s y m d fields e =
    let c = set_utc_full_year y m d in
    let (ey, early, em) = printed_fields c.year c.month c.day y m d (rw e at fields) in
    let (lo, hi, first, last, same) = kept y m d ey em in
    record {
      year = y;
      month = m;
      day = d;
      four_digit_year = early;
      first_month = lo;
      last_month = hi;
      first_day = first;
      last_day = last;
      printed = e ∙ ap iso_date same;
    }

survives-IsCalendarDate :
    (s : Text) (o : Option (ℕ × ℕ × ℕ)) → date_fields s ≡ o → survives s o ≡ true → IsCalendarDate s
survives-IsCalendarDate s none fields h = cc
survives-IsCalendarDate s (some (y, m, d)) fields h =
    IsCalendarDate-of_fields s y m d fields (sym (eq_of_text_eq _ s h))

set_utc_full_year_of_date :
    (y m d : ℕ)
    → 1 ≤ m
    → m ≤ 12
    → 1 ≤ d
    → d ≤ days_in_month (pos y) m
    → set_utc_full_year y m d ≡ record { year = pos y; month = m; day = d }
set_utc_full_year_of_date y zero d lo hi first last = elim lo [ ]
set_utc_full_year_of_date y (suc k) zero lo hi first last = elim first [ ]
set_utc_full_year_of_date y (suc k) (suc d) lo hi first last =
    set_utc_full_year_of_month y k (suc d) hi ∙ roll_of_fits y (suc k) d (le→leb _ _ last)

pub day_le_31 : (y : ℤ) (m d : ℕ) → d ≤ days_in_month y m → d ≤ 31
day_le_31 y m d h = ground arith

pub survives_of_IsCalendarDate : (s : Text) → IsCalendarDate s → survives s (date_fields s) ≡ true
survives_of_IsCalendarDate s v =
    let n31 = day_le_31 (pos v.year) v.month v.day v.last_day in
    let m100 : v.month % 100 ≡ v.month = omega arith in
    let d100 : v.day % 100 ≡ v.day = omega arith in
    let fields = date_fields-iso_date v.year v.month v.day v.four_digit_year in
    let kept =
      set_utc_full_year_of_date v.year v.month v.day v.first_month v.last_month v.first_day
        v.last_day in
    let printed = iso_date (record { year = pos v.year; month = v.month; day = v.day }) in
    rw (v.printed, fields, m100, d100, kept) (text_eq_refl printed)

-- The due-date check accepts exactly the printed forms of the dates that the calendar has.
pub is_calendar_date_iff : (s : Text) → (is_calendar_date s ≡ true) ↔ IsCalendarDate s
unfolding is_calendar_date
is_calendar_date_iff s =
    (survives-IsCalendarDate s (date_fields s) refl, survives_of_IsCalendarDate s)
