-- ===== src/Domain/Money.antt =====
-- Amounts of money: `amount`, `currencyDigits` and `parseMoney` of
-- packages/domain/src/wedding-operations.ts. `Number(whole) * 10 ** digits` is exact arithmetic
-- here: a double rounds it only from 2 ^ 53 on, monotonically, far above the largest amount, so the
-- bound refuses the same inputs.
pub mod Laws
pub mod Exact
use Prim.Native.String.{String}
use lovechapter.Prelude.{
  ℕ, zero, suc, ◌+◌, ◌-◌, ◌*◌, ◌^◌, Bool, true, false, not, ◌&&◌, ◌||◌, Option, none, some, List,
  [], ◌∷◌, ◌++◌, if◌then◌else◌, leb, ◌==◌, length, is_empty, all,
}
use lovechapter.Prelude.Number.{Number, whole, is_safe_integer, below, above}
use lovechapter.Prelude.Result.{
  Result, ok, err, ◌>>=◌, ◌>>◌, throw_if, validation, invalid, labelled,
}
use lovechapter.Text.{Text, is_digit, is_upper}
use lovechapter.Domain.Platform.{Platform}

-- `MAX_MINOR`
abbrev pub max_minor : ℕ
max_minor = 1000000000000

unfoldable pub amount : Number → String → Result Number
amount value label =
    if not (is_safe_integer value) || below value 0 || above value max_minor
    then err (validation (labelled label "must be a valid nonnegative minor-unit amount"))
    else ok value

-- `/^[A-Z]{3}$/`
abbrev pub is_currency_shape : Text → Bool
is_currency_shape (a ∷ b ∷ c ∷ []) = is_upper a && is_upper b && is_upper c
is_currency_shape _ = false

module _ (p : Platform) where
  abbrev resolved_digits : Option (Option ℕ) → Result ℕ
  resolved_digits none = err (invalid "Invalid currency code")
  resolved_digits (some none) = ok 2
  resolved_digits (some (some digits)) = ok digits

  unfoldable pub currency_digits : Text → Result ℕ
  currency_digits currency =
      if not (is_currency_shape currency) || not (p.supports_currency currency)
      then err (invalid "Invalid currency code")
      else resolved_digits (p.maximum_fraction_digits currency)

-- `Number(text)` of a text of digits; the empty text is 0.
unfoldable pub decimal_from : ℕ → Text → ℕ
decimal_from n [] = n
decimal_from n (c ∷ s) = decimal_from (n * 10 + (c - b'0')) s

abbrev pub decimal : Text → ℕ
decimal s = decimal_from 0 s

-- `text.padEnd(n, "0")`
unfoldable pub pad_end : ℕ → Text → Text
pad_end zero s = s
pad_end (suc n) [] = b'0' ∷ pad_end n []
pad_end (suc n) (c ∷ s) = c ∷ pad_end n s

-- `value.split(".")` at the first point: the text before it, and all that is behind it, if any. Where
-- a second point stands in the text, the shape below refuses it.
unfoldable pub split_point : Text → Text × Option Text
split_point [] = ([], none)
split_point (c ∷ s) =
    let (whole, fraction) = split_point s in
    if c == b'.' then ([], some s) else (c ∷ whole, fraction)

abbrev pub are_digits : Text → Bool
are_digits s = not (is_empty s) && all is_digit s

-- `/^\d+(?:\.\d{1,digits})?$/`, and `/^\d+$/` where the currency has no minor unit
abbrev pub is_amount_shape : ℕ → Text × Option Text → Bool
is_amount_shape digits (whole, none) = are_digits whole
is_amount_shape digits (whole, some fraction) =
    not (digits == 0) && are_digits whole && are_digits fraction && leb (length fraction) digits

-- `const [whole, fraction = ""] = value.split(".")`
abbrev pub or_empty : Option Text → Text
or_empty none = []
or_empty (some s) = s

module _ (p : Platform) where
  unfoldable pub parse_money : Text → Text → Result Number
  parse_money value raw_currency = do
    let currency = p.to_upper raw_currency
    digits ← currency_digits p currency
    let parts = split_point value
    throw_if (not (is_amount_shape digits parts)) (invalid "Invalid monetary amount")
    let minor = decimal parts.0 * 10 ^ digits + decimal (pad_end digits (or_empty parts.1))
    amount (whole minor) "Amount"
