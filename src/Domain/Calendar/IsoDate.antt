-- ===== src/Domain/Calendar/IsoDate.antt =====
-- `isIsoDate` of packages/domain/src/service.ts: the wedding date, read by the parser of `Date`.
use lovechapter.Prelude.{
  ℕ, ◌%◌, ◌≤◌, ◌≡◌, refl, Bool, true, false, ◌&&◌, Option, none, some, leb, ◌↔◌, arith,
}
use lovechapter.Prelude.Number.{pos}
use lovechapter.Text.{Text, text_eq}
use lovechapter.Domain.Calendar.{
  date_fields, set_utc_full_year, iso_date, survives, is_calendar_date,
}
use lovechapter.Domain.Calendar.Printing.{date_fields-iso_date}
use lovechapter.Domain.Calendar.Laws.{
  IsCalendarDate, is_calendar_date_iff, survives_of_IsCalendarDate, day_le_31,
}

-- The parser refuses a month behind 12 and a day behind 31; a day behind the end of its month it refuses
-- or carries into the next one, and then the comparison refuses it.
abbrev survives_parse : Text → Option (ℕ × ℕ × ℕ) → Bool
survives_parse value none = false
survives_parse value (some (y, m, d)) =
    leb 1 m && leb m 12 && leb 1 d && leb d 31 && text_eq (iso_date (set_utc_full_year y m d)) value

unfoldable pub is_iso_date : Text → Bool
unfolding date_fields set_utc_full_year iso_date
is_iso_date value = survives_parse value (date_fields value)

survives_of_parse :
    (s : Text) (o : Option (ℕ × ℕ × ℕ)) → survives_parse s o ≡ true → survives s o ≡ true
survives_of_parse s none h = cc
survives_of_parse s (some (y, m, d)) h = ground arith

parse_of_survives :
    (s : Text) (y m d : ℕ) (o : Option (ℕ × ℕ × ℕ))
    → o ≡ some (y, m, d)
    → 1 ≤ m
    → m ≤ 12
    → 1 ≤ d
    → d ≤ 31
    → survives s o ≡ true
    → survives_parse s o ≡ true
parse_of_survives s y m d none e a b c f h = cc
parse_of_survives s y m d (some (y', m', d')) e a b c f h =
    let em : m' ≡ m = cc in let ed : d' ≡ d = cc in ground arith

parsed_of_IsCalendarDate : (s : Text) → IsCalendarDate s → survives_parse s (date_fields s) ≡ true
parsed_of_IsCalendarDate s v =
    let n31 = day_le_31 (pos v.year) v.month v.day v.last_day in
    let m100 : v.month % 100 ≡ v.month = omega arith in
    let d100 : v.day % 100 ≡ v.day = omega arith in
    let fields = date_fields-iso_date v.year v.month v.day v.four_digit_year in
    parse_of_survives s v.year v.month v.day (date_fields s)
      (rw (v.printed, fields, m100, d100) refl) v.first_month v.last_month v.first_day n31
      (survives_of_IsCalendarDate s v)

-- A wedding date is accepted exactly when it is the printed form of a date that the calendar has.
pub is_iso_date_iff : (s : Text) → (is_iso_date s ≡ true) ↔ IsCalendarDate s
unfolding is_iso_date is_calendar_date
is_iso_date_iff s = (
  λ h. (is_calendar_date_iff s).0 (survives_of_parse s (date_fields s) h),
  parsed_of_IsCalendarDate s,
)
