-- ===== src/Domain/Calendar.antt =====
-- The due-date check of packages/domain/src/planning.ts and wedding-operations.ts, with the parts of
-- `Date` that it relies on: `setUTCFullYear` carries a month or a day that is out of range into the
-- next or the previous month, and `toISOString` prints four digits for the years 0 to 9999 and a
-- sign with six digits for the others.
pub mod Printing
pub mod Rolling
pub mod Laws
pub mod IsoDate
use lovechapter.Prelude.{
  ℕ, zero, suc, ◌+◌, ◌-◌, ◌*◌, ◌/◌, ◌%◌, Bool, true, false, ◌&&◌, ◌||◌, not, Option, none, some,
  List, [], ◌∷◌, ◌++◌, leb, ltb, ◌==◌, if◌then◌else◌,
}
use lovechapter.Prelude.Number.{ℤ, pos, negsuc}
use lovechapter.Prelude.Result.{Result, ok, err, DomainError}
use lovechapter.Prelude.Optional.{Field, absent, null, given}
use lovechapter.Text.{Text, is_digit, text_eq}

-- The absolute value; leap years repeat alike on both sides of year 0.
abbrev pub magnitude : ℤ → ℕ
magnitude (pos n) = n
magnitude (negsuc n) = suc n

abbrev pub is_leap : ℤ → Bool
is_leap y = let n = magnitude y in (n % 4 == 0) && (not (n % 100 == 0) || (n % 400 == 0))

abbrev pub days_in_month : ℤ → ℕ → ℕ
days_in_month y m =
    if m == 2
    then (if is_leap y then 29 else 28)
    else (if m == 4 || m == 6 || m == 9 || m == 11 then 30 else 31)

abbrev pub next_year : ℤ → ℤ
next_year (pos n) = pos (suc n)
next_year (negsuc zero) = pos 0
next_year (negsuc (suc n)) = negsuc n

abbrev pub previous_year : ℤ → ℤ
previous_year (pos zero) = negsuc 0
previous_year (pos (suc n)) = pos n
previous_year (negsuc n) = negsuc (suc n)

pub record Civil : Type 0 where
  pub year : ℤ
  pub month : ℕ
  pub day : ℕ

-- The month `m` of the year `y` counted from 1: 0 is the December before, 13 the January behind.
abbrev pub carry_month : ℕ → ℕ → ℤ × ℕ
carry_month y zero = (previous_year (pos y), 12)
carry_month y (suc m) = (pos (y + m / 12), suc (m % 12))

-- A day behind the end of the month stands in a later one. Two digits pass at most three months.
roll_forward : ℕ → ℤ → ℕ → ℕ → Civil
roll_forward zero y m d = record { year = y; month = m; day = d }
roll_forward (suc fuel) y m d =
    let here : Civil = record { year = y; month = m; day = d } in
    let later =
      if m == 12
      then roll_forward fuel (next_year y) 1 (d - days_in_month y m)
      else roll_forward fuel y (suc m) (d - days_in_month y m) in
    if leb d (days_in_month y m) then here else later

-- The day 0 is the last one of the month before.
pub roll : ℤ → ℕ → ℕ → Civil
unfolding roll_forward
roll y m zero =
    if m == 1
    then record { year = previous_year y; month = 12; day = 31 }
    else record { year = y; month = m - 1; day = days_in_month y (m - 1) }
roll y m (suc d) = roll_forward 4 y m (suc d)

-- `date.setUTCFullYear(year, month - 1, day)`
pub set_utc_full_year : ℕ → ℕ → ℕ → Civil
unfolding roll
set_utc_full_year y m d = let (y', m') = carry_month y m in roll y' m' d

abbrev pub digit : ℕ → ℕ
digit n = b'0' + n % 10

abbrev pub two_digits : ℕ → Text
two_digits n = digit (n / 10) ∷ digit n ∷ []

abbrev pub four_digits : ℕ → Text
four_digits n = digit (n / 1000) ∷ digit (n / 100) ∷ digit (n / 10) ∷ digit n ∷ []

abbrev pub six_digits : ℕ → Text
six_digits n = digit (n / 100000) ∷ digit (n / 10000) ∷ four_digits n

abbrev pub iso_year : ℤ → Text
iso_year (pos n) = if ltb n 10000 then four_digits n else b'+' ∷ six_digits n
iso_year (negsuc n) = b'-' ∷ six_digits (suc n)

abbrev pub take : ℕ → Text → Text
take zero s = []
take (suc n) [] = []
take (suc n) (c ∷ s) = c ∷ take n s

-- `date.toISOString().slice(0, 10)`
pub iso_date : Civil → Text
iso_date c = take 10 (iso_year c.year ++ (b'-' ∷ (two_digits c.month ++ (b'-' ∷ two_digits c.day))))

abbrev pub digit_value : ℕ → ℕ
digit_value c = c - b'0'

-- `/^\d{4}-\d{2}-\d{2}$/`, and `value.split("-").map(Number)`
pub date_fields : Text → Option (ℕ × ℕ × ℕ)
date_fields (a ∷ b ∷ c ∷ d ∷ p ∷ e ∷ f ∷ q ∷ g ∷ h ∷ []) =
    if is_digit a
      && is_digit b
      && is_digit c
      && is_digit d
      && p == b'-'
      && is_digit e
      && is_digit f
      && q == b'-'
      && is_digit g
      && is_digit h
    then some (
      digit_value a * 1000 + digit_value b * 100 + digit_value c * 10 + digit_value d,
      digit_value e * 10 + digit_value f,
      digit_value g * 10 + digit_value h,
    )
    else none
date_fields _ = none

abbrev survives : Text → Option (ℕ × ℕ × ℕ) → Bool
survives value none = false
survives value (some (y, m, d)) = text_eq (iso_date (set_utc_full_year y m d)) value

-- The two tests of `calendarDate` on a text.
unfoldable pub is_calendar_date : Text → Bool
unfolding date_fields set_utc_full_year iso_date
is_calendar_date value = survives value (date_fields value)

unfoldable pub calendar_date : DomainError → Field Text → Result (Option Text)
calendar_date error (given value) = if is_calendar_date value then ok (some value) else err error
calendar_date error _ = ok none
