-- ===== src/Domain/Platform.antt =====
-- The built-ins of the JavaScript platform whose results rest on Unicode tables, on Intl data or on
-- cryptography, none of which is code of this repository. They are parameters of the model.
use lovechapter.Prelude.{ℕ, Bool, Option}
use lovechapter.Text.{Text}

pub record Platform : Type 0 where
  -- `toUpperCase`, `toLowerCase` and `toLocaleLowerCase`
  pub to_upper : Text → Text
  pub to_lower : Text → Text
  pub to_locale_lower : Text → Text
  -- `Intl.supportedValuesOf("currency").includes(currency)`
  pub supports_currency : Text → Bool
  -- `maximumFractionDigits` of the resolved options; `none` when `Intl.NumberFormat` throws, and
  -- `some none` when the option is undefined
  pub maximum_fraction_digits : Text → Option (Option ℕ)
  -- whether `new Intl.DateTimeFormat("en", { timeZone })` and `new Intl.Locale(locale)` succeed
  pub is_time_zone : Text → Bool
  pub is_locale : Text → Bool
