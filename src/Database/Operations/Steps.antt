-- ===== src/Database/Operations/Steps.antt =====
-- What holds of the database after a method that returns.
use Prim.Native.String.{String}
use lovechapter.Prelude.{◌≡◌, refl, Option, none, some}
use lovechapter.Prelude.Result.{Result, ◌>>=◌, Ensures, ensures, Ensures-ok}
use lovechapter.Database.Rows.{Database}
use lovechapter.Database.Operations.{require_row}

abbrev pub Keeps {ℓ} : (Database → Type ℓ) → {A : Type 0} → Result (A × Database) → Type ℓ
Keeps P r = Ensures (λ p. P p.1) r

pub require_row-Ensures {ℓ} :
    {A : Type ℓ} (label : String) (o : Option A) → Ensures (λ a. o ≡ some a) (require_row label o)
require_row-Ensures label none = ensures (λ a h. absurd (cc))
require_row-Ensures label (some a) = Ensures-ok (λ b. some a ≡ some b) a refl

-- After a row that is there.
pub Ensures-row {ℓ κ ι} :
    {A : Type ℓ} {B : Type κ} {Q : B → Type ι} (label : String) (o : Option A) (f : A → Result B)
    → ((a : A) → o ≡ some a → Ensures Q (f a))
    → Ensures Q (require_row label o >>= f)
Ensures-row label none f k = ensures (λ a h. absurd (cc))
Ensures-row label (some a) f k = k a refl
