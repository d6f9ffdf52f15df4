-- ===== src/Domain/Calendar/Rolling.antt =====
-- Where `setUTCFullYear` carries to: a month or a day out of range never stays where it was.
use lovechapter.Prelude.{
  ℕ, zero, suc, ◌+◌, ◌-◌, ◌*◌, ◌<◌, ◌≤◌, ◌≡◌, refl, true, false, arith, leb, ◌==◌, inl, inr,
  Bool-cases,
}
use lovechapter.Prelude.Number.{ℤ, pos}
use lovechapter.Domain.Calendar.{next_year, Civil, days_in_month, roll_forward, roll}

days_in_month_bounds : (y : ℤ) (m : ℕ) → (28 ≤ days_in_month y m) × (days_in_month y m ≤ 31)
days_in_month_bounds y m = ground arith

-- A month of the calendar at or behind the month `p`, counted from January of the year 0 as 1.
pub record AtOrAfter (p : ℕ) (c : Civil) : Type 0 where
  pub index : ℕ
  pub year : c.year ≡ pos index
  pub after : p ≤ index * 12 + c.month
  pub first : 1 ≤ c.month
  pub last : c.month ≤ 12

AtOrAfter-le : (p q : ℕ) {c : Civil} → p ≤ q → AtOrAfter q c → AtOrAfter p c
AtOrAfter-le p q h a = record {
  index = a.index;
  year = a.year;
  after = omega arith;
  first = a.first;
  last = a.last;
}

AtOrAfter-here :
    (n m d : ℕ)
    → 1 ≤ m
    → m ≤ 12
    → AtOrAfter (n * 12 + m) (record { year = pos n; month = m; day = d })
AtOrAfter-here n m d lo hi = record {
  index = n;
  year = refl;
  after = omega arith;
  first = lo;
  last = hi;
}

earlier_than_december : (m : ℕ) → m ≤ 12 → (m == 12) ≡ false → suc m ≤ 12
earlier_than_december m h e = ground arith

-- `roll_forward` does not go back, and goes on if the day is behind the end of the month.
module _ (fuel n m d : ℕ) (lo : 1 ≤ m) (hi : m ≤ 12)
    (ih : (n m d : ℕ) → 1 ≤ m → m ≤ 12 → AtOrAfter (n * 12 + m) (roll_forward fuel (pos n) m d))
    (over : leb d (days_in_month (pos n) m) ≡ false) where
  roll_forward-over : AtOrAfter (n * 12 + m + 1) (roll_forward (suc fuel) (pos n) m d)
  unfolding roll_forward
  roll_forward-over = elim (Bool-cases (m == 12)) [
    | inl december ↦
        rw (over, december)
          (AtOrAfter-le (n * 12 + m + 1) (suc n * 12 + 1) (ground arith)
            (ih (suc n) 1 (d - days_in_month (pos n) m) (omega arith) (omega arith)))
    | inr earlier ↦
        rw (over, earlier)
          (AtOrAfter-le (n * 12 + m + 1) (n * 12 + suc m) (omega arith) (
            ih n (suc m) (d - days_in_month (pos n) m) (omega arith)
              (earlier_than_december m hi earlier)))
  ]

roll_forward-AtOrAfter :
    (fuel n m d : ℕ) → 1 ≤ m → m ≤ 12 → AtOrAfter (n * 12 + m) (roll_forward fuel (pos n) m d)
unfolding roll_forward
roll_forward-AtOrAfter zero n m d lo hi = AtOrAfter-here n m d lo hi
roll_forward-AtOrAfter (suc fuel) n m d lo hi =
    elim (Bool-cases (leb d (days_in_month (pos n) m))) [
      | inl fits ↦ rw fits (AtOrAfter-here n m d lo hi)
      | inr over ↦
          AtOrAfter-le _ (n * 12 + m + 1) (omega arith)
            (roll_forward-over fuel n m d lo hi (roll_forward-AtOrAfter fuel) over)
    ]

-- Behind the end of its month the day is carried to a later month.
pub roll-late :
    (n m d : ℕ)
    → 1 ≤ m
    → m ≤ 12
    → leb (suc d) (days_in_month (pos n) m) ≡ false
    → AtOrAfter (n * 12 + m + 1) (roll (pos n) m (suc d))
unfolding roll
roll-late n m d lo hi over = roll_forward-over 3 n m (suc d) lo hi (roll_forward-AtOrAfter 3) over

-- A date of the calendar stays where it is.
pub roll_of_fits :
    (n m d : ℕ)
    → leb (suc d) (days_in_month (pos n) m) ≡ true
    → roll (pos n) m (suc d) ≡ record { year = pos n; month = m; day = suc d }
unfolding roll roll_forward
roll_of_fits n m d fits = rw fits

roll_forward-month :
    (fuel : ℕ) (y : ℤ) (m d : ℕ)
    → 1 ≤ m
    → m ≤ 12
    → (1 ≤ (roll_forward fuel y m d).month) × ((roll_forward fuel y m d).month ≤ 12)
unfolding roll_forward
roll_forward-month zero y m d lo hi = (lo, hi)
roll_forward-month (suc fuel) y m d lo hi = ground (
  arith,
  roll_forward-month fuel (next_year y) 1 (d - days_in_month y m),
  roll_forward-month fuel y (suc m) (d - days_in_month y m),
)

-- Whatever the day, it is carried to a month of the calendar.
pub roll_month :
    (y : ℤ) (m d : ℕ) → 1 ≤ m → m ≤ 12 → (1 ≤ (roll y m d).month) × ((roll y m d).month ≤ 12)
roll_month y m zero lo hi = unfold roll in ground arith
roll_month y m (suc d) lo hi = unfold roll in roll_forward-month 4 y m (suc d) lo hi

-- The day 0 is carried to an earlier month.
pub roll-zero :
    (n m k : ℕ)
    → 1 ≤ m
    → (roll (pos n) m 0).year ≡ pos k
    → k * 12 + (roll (pos n) m 0).month < n * 12 + m
unfolding roll
roll-zero n m k lo e = ground arith
