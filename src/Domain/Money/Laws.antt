-- ===== src/Domain/Money/Laws.antt =====
-- What an accepted amount is.
use Prim.Native.String.{String}
use native.Mathlib.Nat.{pow-suc, sub-zero, suc-sub-suc}
use lovechapter.Prelude.{
  ℕ, zero, suc, ◌+◌, ◌-◌, ◌*◌, ◌^◌, ◌≤◌, ◌≡◌, refl, true, not, Option, none, some, [], ◌∷◌, ◌++◌,
  length, arith, inl, inr, Bool-cases,
}
use lovechapter.Prelude.Number.{Number, whole, integer, other, pos, negsuc}
use lovechapter.Prelude.Result.{ok, Ensures, ensures, ◌>>◌, throw_if, invalid}
use lovechapter.Text.{Text}
use lovechapter.Domain.Platform.{Platform}
use lovechapter.Domain.Money.{
  amount, max_minor, currency_digits, decimal_from, decimal, pad_end, split_point, is_amount_shape,
  or_empty, parse_money,
}

-- The value itself, a whole number of minor units from 0 to 10 ^ 12.
pub record IsAmount (value result : Number) : Type 0 where
  pub same : result ≡ value
  pub minor : ℕ
  pub is_whole : value ≡ whole minor
  pub bounded : minor ≤ max_minor

pub amount-IsAmount :
    (value result : Number) (label : String)
    → amount value label ≡ ok result
    → IsAmount value result
unfolding amount
amount-IsAmount (integer (pos n)) result label e = record {
  same = ground arith;
  minor = n;
  is_whole = refl;
  bounded = ground arith;
}
amount-IsAmount (integer (negsuc n)) result label e = ground arith
amount-IsAmount other result label e = cc

pub amount-Ensures :
    (value : Number) (label : String) → Ensures (IsAmount value) (amount value label)
amount-Ensures value label = ensures (λ r e. amount-IsAmount value r label e)

decimal_from-append :
    (s t : Text) (n : ℕ) → decimal_from n (s ++ t) ≡ decimal_from (decimal_from n s) t
unfolding decimal_from
decimal_from-append [] t n = refl
decimal_from-append (c ∷ s) t n = decimal_from-append s t _

regroup : (n k p d : ℕ) → (n * 10 + k) * p + d ≡ n * (p * 10) + ((0 + k) * p + d)
regroup n k p d = omega arith

pub decimal_from-decimal : (s : Text) (n : ℕ) → decimal_from n s ≡ n * 10 ^ length s + decimal s
unfolding decimal_from
decimal_from-decimal [] n = omega arith
decimal_from-decimal (c ∷ s) n =
    let k : ℕ = c - 48 in
    rw (decimal_from-decimal s (n * 10 + k), decimal_from-decimal s (0 + k), pow-suc)
      (regroup n k (10 ^ length s) (decimal s))

-- Digits that are filled up with zeros on the right stand for a multiple.
decimal_from-pad_end :
    (d : ℕ) (s : Text) (n : ℕ)
    → length s ≤ d
    → decimal_from n (pad_end d s) ≡ decimal_from n s * 10 ^ (d - length s)
unfolding decimal_from pad_end
decimal_from-pad_end zero [] n h = omega arith
decimal_from-pad_end zero (c ∷ s) n h = elim h [ ]
decimal_from-pad_end (suc d) [] n h =
    rw (decimal_from-pad_end d [] (n * 10 + 0) (omega arith), sub-zero, sub-zero, pow-suc)
      (omega arith)
decimal_from-pad_end (suc d) (c ∷ s) n h =
    let e : suc d - suc (length s) ≡ d - length s = omega arith in
    rw e (decimal_from-pad_end d s (n * 10 + (c - 48)) (omega arith))

-- The minor units of an amount: its digits read without the point, scaled to `digits` decimals.
abbrev pub minor_units : ℕ → Text × Option Text → ℕ
minor_units digits (whole, fraction) =
    decimal (whole ++ or_empty fraction) * 10 ^ (digits - length (or_empty fraction))

shape_fits :
    (digits : ℕ) (parts : Text × Option Text)
    → is_amount_shape digits parts ≡ true
    → length (or_empty parts.1) ≤ digits
shape_fits digits (whole, none) h = omega arith
shape_fits digits (whole, some fraction) h = ground arith

ten_pow_split : (k d : ℕ) → k ≤ d → 10 ^ d ≡ 10 ^ k * 10 ^ (d - k)
ten_pow_split zero d h = rw sub-zero (omega arith)
ten_pow_split (suc k) zero h = elim h [ ]
ten_pow_split (suc k) (suc d) h =
    rw (suc-sub-suc, pow-suc, pow-suc) (omega (arith, ten_pow_split k d (omega arith)))

distribute : (w l f s : ℕ) → w * (l * s) + f * s ≡ (w * l + f) * s
distribute w l f s = omega arith

minor_units_lem :
    (digits : ℕ) (w f : Text)
    → length f ≤ digits
    → decimal w * 10 ^ digits + decimal (pad_end digits f)
      ≡ decimal (w ++ f) * 10 ^ (digits - length f)
minor_units_lem digits w f h =
    rw
      (
        decimal_from-pad_end digits f 0 h,
        decimal_from-append w f 0,
        decimal_from-decimal f (decimal_from 0 w),
        ten_pow_split (length f) digits h,
      )
      (distribute (decimal w) (10 ^ length f) (decimal f) (10 ^ (digits - length f)))

-- The shape is tested, then the bound, on the minor units.
pub parse_money-minor_units :
    (p : Platform) (value currency : Text) (digits : ℕ)
    → currency_digits p (p.to_upper currency) ≡ ok digits
    → parse_money p value currency ≡ (do
      throw_if
          (not (is_amount_shape digits (split_point value)))
          (invalid "Invalid monetary amount")
      amount (whole (minor_units digits (split_point value))) "Amount")
unfolding parse_money
parse_money-minor_units p value currency digits h =
    rw h (elim (Bool-cases (is_amount_shape digits (split_point value))) [
      | inl fits ↦ rw (
        fits,
        minor_units_lem digits (split_point value).0 (or_empty (split_point value).1)
            (shape_fits digits (split_point value) fits),
      )
      | inr bad ↦ rw bad
    ])
