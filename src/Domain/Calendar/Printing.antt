-- ===== src/Domain/Calendar/Printing.antt =====
-- Reading back what `toISOString` prints.
use lovechapter.Prelude.{
  ℕ, ◌+◌, ◌-◌, ◌*◌, ◌/◌, ◌%◌, ◌<◌, ◌≤◌, ◌≡◌, refl, true, false, some, none, arith, ltb, leb, lt→ltb,
}
use lovechapter.Prelude.Number.{pos, negsuc}
use lovechapter.Domain.Calendar.{iso_date, date_fields}

digit_low : (n : ℕ) → leb 48 (48 + n % 10) ≡ true
digit_low n = ground arith

digit_high : (n : ℕ) → leb (48 + n % 10) 57 ≡ true
digit_high n = ground arith

digit_value-digit : (n : ℕ) → 48 + n % 10 - 48 ≡ n % 10
digit_value-digit n = omega arith

ruleset digits = (digit_low, digit_high, digit_value-digit)

four_value :
    (n : ℕ) → n < 10000 → n / 1000 % 10 * 1000 + n / 100 % 10 * 100 + n / 10 % 10 * 10 + n % 10 ≡ n
four_value n h = omega arith

two_value : (n : ℕ) → n / 10 % 10 * 10 + n % 10 ≡ n % 100
two_value n = omega arith

-- Of a date in the years 0 to 9999 the printed fields are those of the date.
pub date_fields-iso_date :
    (n m d : ℕ)
    → n < 10000
    → date_fields (iso_date (record { year = pos n; month = m; day = d }))
      ≡ some (n, m % 100, d % 100)
unfolding date_fields iso_date
date_fields-iso_date n m d h =
    rw (lt→ltb n 10000 h) (simp digits (rw (four_value n h) (simp two_value)))

not_ltb : (n : ℕ) → 10000 ≤ n → ltb n 10000 ≡ false
not_ltb n h = ground arith

-- Any other year prints a sign, which is no digit.
pub date_fields-iso_date_late :
    (n m d : ℕ)
    → 10000 ≤ n
    → date_fields (iso_date (record { year = pos n; month = m; day = d })) ≡ none
unfolding date_fields iso_date
date_fields-iso_date_late n m d h = rw (not_ltb n h)

pub date_fields-iso_date_early :
    (n m d : ℕ) → date_fields (iso_date (record { year = negsuc n; month = m; day = d })) ≡ none
unfolding date_fields iso_date
date_fields-iso_date_early n m d = refl
