-- ===== src/Prelude/Optional.antt =====
-- An optional, nullable property of a JavaScript object.
use mathlib.Core.Option.{Option, none, some}

pub data Field {ℓ} (A : Type ℓ) : Type ℓ where
  absent : Field A
  null : Field A
  given : A → Field A

-- `value ?? null`
abbrev pub or_null {ℓ} : {A : Type ℓ} → Field A → Option A
or_null absent = none
or_null null = none
or_null (given a) = some a

-- What a `null` or a value is, when it is sent again.
abbrev pub sent {ℓ} : {A : Type ℓ} → Option A → Field A
sent none = null
sent (some a) = given a
