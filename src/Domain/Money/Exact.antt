-- ===== src/Domain/Money/Exact.antt =====
-- The texts that `parseMoney` accepts, and the number that each stands for.
use lovechapter.Prelude.{
  ℕ, ◌+◌, ◌-◌, ◌*◌, ◌^◌, ◌≤◌, ◌≡◌, refl, Bool, true, false, not, Option, none, some, [], ◌∷◌, ◌++◌,
  ◌⊎◌, inl, inr, length, arith, All, all, ◌↔◌, sym, ◌∙◌, ap,
}
use lovechapter.Prelude.Number.{Number, whole}
use lovechapter.Prelude.Result.{Result, ok, ◌>>◌, throw_if, invalid}
use lovechapter.Text.{Text, is_digit}
use lovechapter.Domain.Platform.{Platform}
use lovechapter.Domain.Money.{
  amount, currency_digits, decimal_from, decimal, split_point, are_digits, is_amount_shape,
  or_empty, parse_money,
}
use lovechapter.Domain.Money.Laws.{
  IsAmount, amount-IsAmount, decimal_from-decimal, minor_units, parse_money-minor_units,
}

-- The characters 0 to 9.
abbrev pub IsDigit : ℕ → Type 0
IsDigit c = (48 ≤ c) × (c ≤ 57)

-- The number that a text of digits is in decimal notation, each digit by its place.
abbrev pub numeral : Text → ℕ
numeral [] = 0
numeral (c ∷ s) = (c - 48) * 10 ^ length s + numeral s

-- A text is digits, or digits, a point and digits behind it.
abbrev pub IsWritten : Text → Text → Text → Type 0
IsWritten value before behind =
    ((value ≡ before) × (behind ≡ [])) ⊎ ((value ≡ before ++ 46 ∷ behind) × (1 ≤ length behind))

-- An amount of a currency with `digits` decimals as a text, and the number of its minor units.
pub record IsMoney (digits : ℕ) (value : Text) (result : Number) : Type 0 where
  pub before : Text
  pub behind : Text
  pub written : IsWritten value before behind
  pub some_digit : 1 ≤ length before
  pub before_digits : All IsDigit before
  pub behind_digits : All IsDigit behind
  pub few : length behind ≤ digits
  pub exact : result ≡ whole (numeral (before ++ behind) * 10 ^ (digits - length behind))
  pub bounded : numeral (before ++ behind) * 10 ^ (digits - length behind) ≤ 1000000000000

decimal-numeral : (s : Text) → decimal s ≡ numeral s
unfolding decimal_from
decimal-numeral [] = refl
decimal-numeral (c ∷ s) =
    let k : ℕ = c - 48 in rw (decimal_from-decimal s (0 + k), decimal-numeral s) (omega arith)

all-IsDigit : (s : Text) → all is_digit s ≡ true → All IsDigit s
all-IsDigit [] h = tt
all-IsDigit (c ∷ s) h = ((ground arith, ground arith), all-IsDigit s (ground arith))

IsDigit-all : (s : Text) → All IsDigit s → all is_digit s ≡ true
IsDigit-all [] h = refl
IsDigit-all (c ∷ s) h = ground (arith, IsDigit-all s h.1)

are_digits-digits : (s : Text) → are_digits s ≡ true → (1 ≤ length s) × All IsDigit s
are_digits-digits [] h = absurd (cc)
are_digits-digits (c ∷ s) h = (omega arith, all-IsDigit (c ∷ s) h)

digits-are_digits : (s : Text) → 1 ≤ length s → All IsDigit s → are_digits s ≡ true
digits-are_digits [] h k = elim h [ ]
digits-are_digits (c ∷ s) h k = IsDigit-all (c ∷ s) k

-- The text before the first point and the text behind it make up the whole.
split_point-joins : (s : Text) → (split_point s).1 ≡ none → (split_point s).0 ≡ s
unfolding split_point
split_point-joins [] h = refl
split_point-joins (c ∷ s) h = ground (arith, split_point-joins s)

split_point-joins_some :
    (s behind : Text) → (split_point s).1 ≡ some behind → s ≡ (split_point s).0 ++ 46 ∷ behind
unfolding split_point
split_point-joins_some [] behind h = absurd (cc)
split_point-joins_some (c ∷ s) behind h = ground (arith, split_point-joins_some s behind)

split_point-digits : (s : Text) → All IsDigit s → split_point s ≡ (s, none)
unfolding split_point
split_point-digits [] h = refl
split_point-digits (c ∷ s) h = ground (arith, split_point-digits s h.1)

split_point-append :
    (s behind : Text) → All IsDigit s → split_point (s ++ 46 ∷ behind) ≡ (s, some behind)
unfolding split_point
split_point-append [] behind h = refl
split_point-append (c ∷ s) behind h = ground (arith, split_point-append s behind h.1)

shape-are_digits :
    (digits : ℕ) (before : Text) (o : Option Text)
    → is_amount_shape digits (before, o) ≡ true
    → are_digits before ≡ true
shape-are_digits digits before none h = h
shape-are_digits digits before (some behind) h = ground arith

shape_behind :
    (digits : ℕ) (before behind : Text)
    → is_amount_shape digits (before, some behind) ≡ true
    → (are_digits behind ≡ true) × (length behind ≤ digits)
shape_behind digits before behind h = (ground arith, ground arith)

minor_units-numeral :
    (digits : ℕ) (before : Text) (o : Option Text)
    → minor_units digits (before, o)
      ≡ numeral (before ++ or_empty o) * 10 ^ (digits - length (or_empty o))
minor_units-numeral digits before o = rw (decimal-numeral (before ++ or_empty o)) refl

amount_whole :
    (n m : ℕ) (result : Number)
    → n ≡ m
    → IsAmount (whole n) result
    → (result ≡ whole m) × (m ≤ 1000000000000)
amount_whole n m result e a =
    let same : n ≡ a.minor = pos_injective a.is_whole in
    (rw (← e) a.same, omega (arith, a.bounded, same, e))
  where
    pos_injective : {x y : ℕ} → whole x ≡ whole y → x ≡ y
    pos_injective h = cc

-- A text of the tested shape, whose minor units are within the bound.
shape-IsMoney :
    (digits : ℕ) (value : Text) (before : Text) (o : Option Text) (result : Number)
    → split_point value ≡ (before, o)
    → is_amount_shape digits (before, o) ≡ true
    → IsAmount (whole (minor_units digits (before, o))) result
    → IsMoney digits value result
shape-IsMoney digits value before none result parts h a =
    let n = amount_whole _ _ result (minor_units-numeral digits before none) a in
    record {
      before = before;
      behind = [];
      written = inl (
        sym (split_point-joins value (ap (λ (p : Text × Option Text). p.1) parts))
            ∙ ap (λ (p : Text × Option Text). p.0) parts,
        refl,
      );
      some_digit = (are_digits-digits before h).0;
      before_digits = (are_digits-digits before h).1;
      behind_digits = tt;
      few = omega arith;
      exact = n.0;
      bounded = n.1;
    }
shape-IsMoney digits value before (some behind) result parts h a =
    let b = shape_behind digits before behind h in
    let n = amount_whole _ _ result (minor_units-numeral digits before (some behind)) a in
    let d = are_digits-digits before (shape-are_digits digits before (some behind) h) in
    record {
      before = before;
      behind = behind;
      written = inr (
        split_point-joins_some value behind (ap (λ (p : Text × Option Text). p.1) parts)
            ∙ ap (λ (p : Text × Option Text). p.0 ++ 46 ∷ behind) parts,
        (are_digits-digits behind b.0).0,
      );
      some_digit = d.0;
      before_digits = d.1;
      behind_digits = (are_digits-digits behind b.0).1;
      few = b.1;
      exact = n.0;
      bounded = n.1;
    }

guarded :
    (b : Bool) (r : Result Number) (result : Number)
    → (do throw_if (not b) (invalid "Invalid monetary amount"); r) ≡ ok result
    → (b ≡ true) × (r ≡ ok result)
guarded true r result h = (refl, h)
guarded false r result h = absurd (cc)

shape_of :
    (digits : ℕ) (before behind : Text)
    → 1 ≤ length behind
    → length behind ≤ digits
    → are_digits before ≡ true
    → are_digits behind ≡ true
    → is_amount_shape digits (before, some behind) ≡ true
shape_of digits before behind given few h k = rw (h, k) (ground arith)

amount-within : (n : ℕ) → n ≤ 1000000000000 → amount (whole n) "Amount" ≡ ok (whole n)
unfolding amount
amount-within n h = ground arith

module _ (p : Platform) (value currency : Text) (digits : ℕ)
    (known : currency_digits p (p.to_upper currency) ≡ ok digits) where
  parse_money-IsMoney :
      (result : Number) → parse_money p value currency ≡ ok result → IsMoney digits value result
  parse_money-IsMoney result h =
      let (fits, kept) =
        guarded _ _ result (sym (parse_money-minor_units p value currency digits known) ∙ h) in
      shape-IsMoney digits value (split_point value).0 (split_point value).1 result refl fits
        (amount-IsAmount _ result "Amount" kept)

  accepted :
      (before : Text) (o : Option Text)
      → split_point value ≡ (before, o)
      → is_amount_shape digits (before, o) ≡ true
      → numeral (before ++ or_empty o) * 10 ^ (digits - length (or_empty o)) ≤ 1000000000000
      → parse_money p value currency
        ≡ ok (whole (numeral (before ++ or_empty o) * 10 ^ (digits - length (or_empty o))))
  accepted before o parts fits within =
      parse_money-minor_units p value currency digits known
      ∙ rw (parts, fits, minor_units-numeral digits before o) (amount-within _ within)

  IsMoney-parse_money :
      (result : Number) → IsMoney digits value result → parse_money p value currency ≡ ok result
  IsMoney-parse_money result m = elim m.written [
    | inl (plain, bare) ↦
        let whole_fits = digits-are_digits m.before m.some_digit m.before_digits in
        let within : numeral (m.before ++ []) * 10 ^ (digits - 0) ≤ 1000000000000 =
          rw bare at m.bounded in
        let e : result ≡ whole (numeral (m.before ++ []) * 10 ^ (digits - 0)) =
          rw bare at m.exact in
        accepted m.before none (ap split_point plain ∙ split_point-digits m.before m.before_digits)
          whole_fits within
        ∙ ap (λ r. ok r) (sym e)
    | inr (pointed, given) ↦
        let fits =
          shape_of digits m.before m.behind given m.few
            (digits-are_digits m.before m.some_digit m.before_digits)
            (digits-are_digits m.behind given m.behind_digits) in
        accepted m.before (some m.behind)
          (ap split_point pointed ∙ split_point-append m.before m.behind m.before_digits) fits
          m.bounded
        ∙ ap (λ r. ok r) (sym m.exact)
  ]

-- For a currency with `digits` decimals, `parseMoney` gives a number exactly when the text is digits,
-- alone or with a point and one to `digits` digits behind it, and the number is what the digits give
-- without the point, scaled to `digits` decimals, and at most 10 ^ 12.
pub parse_money_exact :
    (p : Platform) (value currency : Text) (digits : ℕ) (result : Number)
    → currency_digits p (p.to_upper currency) ≡ ok digits
    → (parse_money p value currency ≡ ok result) ↔ IsMoney digits value result
parse_money_exact p value currency digits result known = (
  parse_money-IsMoney p value currency digits known result,
  IsMoney-parse_money p value currency digits known result,
)
