-- ===== src/Prelude/Result.antt =====
-- A computation that may throw (packages/domain/src/errors.ts).
use Prim.Native.Nat.{ℕ}
use Prim.Native.String.{String}
use mathlib.Core.Path.{◌≡◌, refl, subst}
use mathlib.Core.Bool.{Bool, true, false}
use native.Mathlib.Omega.{arith}

-- The text of an error: a constant, or a template with the label and the bound that fill it.
pub data Message : Type 0 where
  plain : String → Message
  length_range : String → ℕ → Message
  length_at_most : String → ℕ → Message
  labelled : String → String → Message

pub data DomainError : Type 0 where
  validation : Message → DomainError
  authentication_required : String → DomainError
  onboarding_required : String → DomainError
  not_found : String → DomainError
  conflict : String → DomainError
  rate_limit_exceeded : String → DomainError
  -- an error of the database that no handler translates
  database_error : String → DomainError

-- What was thrown, or the value.
pub data Result {ℓ} (A : Type ℓ) : Type ℓ where
  err : DomainError → Result A
  ok : A → Result A

-- `if (test) throw error;`
abbrev pub throw_if : Bool → DomainError → Result (Unit {0})
throw_if true thrown = err thrown
throw_if false thrown = ok tt

-- `throw new DomainValidationError("…")`
abbrev pub invalid : String → DomainError
invalid text = validation (plain text)

infixl 5 ◌>>=◌
abbrev pub ◌>>=◌ {ℓ κ} : {A : Type ℓ} {B : Type κ} → Result A → (A → Result B) → Result B
err thrown >>= next = err thrown
ok value >>= next = next value

-- A check before the rest.
infixl 5 ◌>>◌
abbrev pub ◌>>◌ {ℓ} : {B : Type ℓ} → Result (Unit {0}) → Result B → Result B
check >> rest = check >>= λ _. rest

pub >>=-eq-ok {ℓ κ} :
    {A : Type ℓ} {B : Type κ} (first : Result A) (next : A → Result B) {last : B}
    → (first >>= next) ≡ ok last
    → (value : A) × (first ≡ ok value) × (next value ≡ ok last)
>>=-eq-ok (err thrown) next h = cc
>>=-eq-ok (ok value) next h = (value, refl, h)

pub throw_if-eq-ok : (b : Bool) (e : DomainError) → throw_if b e ≡ ok tt → b ≡ false
throw_if-eq-ok b e h = ground arith

-- What holds of the value that a computation returns, if it returns one.
pub data Ensures {ℓ κ} {A : Type ℓ} (P : A → Type κ) (r : Result A) : Type (ℓ ⊔ κ) where
  ensures : ((a : A) → r ≡ ok a → P a) → Ensures P r

pub ensured {ℓ κ} :
    {A : Type ℓ} {P : A → Type κ} {r : Result A} {a : A} → Ensures P r → r ≡ ok a → P a
ensured {a} (ensures h) e = h a e

pub Ensures-bind {ℓ κ ι μ} :
    {A : Type ℓ} {B : Type κ} {P : A → Type ι} {Q : B → Type μ} (m : Result A) (f : A → Result B)
    → Ensures P m
    → ((a : A) → P a → Ensures Q (f a))
    → Ensures Q (m >>= f)
Ensures-bind (ok a) f (ensures p) k = k a (p a refl)
Ensures-bind (err e) f p k = ensures (λ b h. absurd (cc))

pub Ensures-ok {ℓ κ} : {A : Type ℓ} (P : A → Type κ) (a : A) → P a → Ensures P (ok a)
Ensures-ok {A} P a p = ensures (λ b h. subst P (ok-injective a b h) p)
  where
    ok-injective : (a b : A) → ok a ≡ ok b → a ≡ b
    ok-injective a b h = cc

pub throw_if-Ensures : (b : Bool) (e : DomainError) → Ensures (λ _. b ≡ false) (throw_if b e)
throw_if-Ensures b e = ensures (λ a h. ground arith)

pub Ensures-self {ℓ} : {A : Type ℓ} (r : Result A) → Ensures (λ a. r ≡ ok a) r
Ensures-self r = ensures (λ a h. h)

-- After a check that passes.
pub Ensures-then {ℓ κ} :
    {B : Type ℓ} {Q : B → Type κ} (b : Bool) (e : DomainError) (r : Result B)
    → (b ≡ false → Ensures Q r)
    → Ensures Q (throw_if b e >> r)
Ensures-then true e r k = ensures (λ a h. absurd (cc))
Ensures-then false e r k = k refl
