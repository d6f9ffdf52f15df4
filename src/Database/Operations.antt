-- ===== src/Database/Operations.antt =====
-- `PostgresWeddingOperationsRepository` of packages/database/src/wedding-operations-repository.ts. A method
-- gives its result with the database after it, or its error, which leaves the database as it was. Methods
-- that lock rows run one after the other on them, so each is one step here.
pub mod Steps
pub mod Budget
pub mod Costs
pub mod RunSheet
pub mod Seating
pub mod Books
pub mod Changes
use Prim.Native.String.{String}
use lovechapter.Prelude.{
  ℕ, suc, Bool, true, false, ◌&&◌, not, Option, none, some, List, [], ◌∷◌, if◌then◌else◌, ◌==◌, any,
  length,
}
use lovechapter.Prelude.Result.{Result, ok, err, ◌>>=◌, ◌>>◌, throw_if, DomainError, not_found}
use lovechapter.Database.Rows.{Scope, MemberRow, Database}

abbrev pub Method : Type 0 → Type 0
Method A = Database → Result (A × Database)

-- `member`: the user belongs to the wedding.
unfoldable pub is_member : Scope → Database → Bool
is_member s db = any (λ m. m.wedding_id == s.wedding_id && m.user_id == s.user_id) db.members

-- `authorizedWedding`
unfoldable pub has_wedding : Scope → Database → Bool
unfolding is_member
has_wedding s db = any (λ w. w == s.wedding_id) db.weddings && is_member s db

-- `authorized`
abbrev pub authorized : Scope → Database → Result (Unit {0})
authorized s db = throw_if (not (has_wedding s db)) (not_found "Wedding not found")

-- `count(*) … where wedding_id = …`
abbrev pub count_where {ℓ} : {A : Type ℓ} → (A → Bool) → List A → ℕ
count_where p [] = 0
count_where p (a ∷ l) = let rest = count_where p l in if p a then suc rest else rest

-- The first row of an answer, which must have one.
abbrev pub require_row {ℓ} : {A : Type ℓ} → String → Option A → Result A
require_row label none = err (not_found label)
require_row label (some a) = ok a
