-- ===== src/Database/Operations/Budget.antt =====
-- `setBudget`, `getBudgetOverview` and the budget categories.
pub mod Currency
use lovechapter.Prelude.{
  ℕ, ◌+◌, ◌-◌, Bool, true, false, ◌&&◌, ◌||◌, not, Option, none, some, List, [], ◌∷◌, if◌then◌else◌,
  ltb, leb, ◌==◌, any,
}
use lovechapter.Prelude.Number.{ℤ, pos, negsuc}
use lovechapter.Prelude.Result.{Result, ok, err, ◌>>=◌, ◌>>◌, throw_if, not_found, conflict}
use lovechapter.Auth.Tables.{update_where, delete_where, first_where, is_null}
use lovechapter.Database.Rows.{
  Scope, BudgetRow, CategoryRow, VendorRow, ExpenseRow, Database, keyed, refers_to,
}
use lovechapter.Database.Operations.{Method, is_member, authorized, require_row, count_where}

pub record BudgetInput : Type 0 where
  pub currency : ℕ
  pub target_minor : Option ℕ

abbrev pub budget_of : ℕ → BudgetRow → Bool
budget_of w b = b.wedding_id == w

abbrev pub expense_of : ℕ → ExpenseRow → Bool
expense_of w e = e.wedding_id == w

abbrev pub quoted_of : ℕ → VendorRow → Bool
quoted_of w v = v.wedding_id == w && not (is_null v.quote_minor)

-- The `where` of the update: the same currency, or no costs and no quotes in the old one.
unfoldable pub may_set : ℕ → ℕ → Database → BudgetRow → Bool
may_set w currency db b =
    b.currency == currency
    || (not (any (expense_of w) db.expenses) && not (any (quoted_of w) db.vendors))

abbrev pub with_input : BudgetInput → BudgetRow → BudgetRow
with_input input b = record b { currency = input.currency; target_minor = input.target_minor }

-- `insert … on conflict (wedding_id) do update`: the row that is there decides; the flag is whether a row
-- is returned.
abbrev pub put_budget : ℕ → BudgetInput → Database → Option BudgetRow → Bool × List BudgetRow
put_budget w input db none = (
  true,
  record { wedding_id = w; currency = input.currency; target_minor = input.target_minor }
      ∷ db.budgets,
)
put_budget w input db (some b) =
    if may_set w input.currency db b
    then (true, update_where (budget_of w) (with_input input) db.budgets)
    else (false, db.budgets)

unfoldable pub set_budget : Scope → BudgetInput → Method BudgetInput
set_budget s input db = do
  authorized s db
  let put = put_budget s.wedding_id input db (first_where (budget_of s.wedding_id) db.budgets)
  throw_if (not put.0) (conflict "Currency cannot change while costs or vendor quotes exist")
  ok (input, record db { budgets = put.1 })

-- `coalesce(sum(…), 0)`
unfoldable pub total_planned : ℕ → List ExpenseRow → ℕ
total_planned w [] = 0
total_planned w (e ∷ l) =
    let rest = total_planned w l in if expense_of w e then e.details.planned_minor + rest else rest

unfoldable pub total_paid : ℕ → List ExpenseRow → ℕ
total_paid w [] = 0
total_paid w (e ∷ l) =
    let rest = total_paid w l in if expense_of w e then e.details.paid_minor + rest else rest

-- `plannedMinor - paidMinor`
abbrev pub difference : ℕ → ℕ → ℤ
difference a b = if leb b a then pos (a - b) else negsuc (b - a - 1)

pub record BudgetOverview : Type 0 where
  pub budget : Option BudgetRow
  pub planned_minor : ℕ
  pub paid_minor : ℕ
  pub remaining_minor : ℤ

abbrev pub max_safe : ℕ
max_safe = 9007199254740991

-- The join with the membership gives no row to a user who is no member.
unfoldable pub get_budget_overview : Scope → Database → Result BudgetOverview
unfolding total_planned total_paid
get_budget_overview s db = do
  authorized s db
  let planned = total_planned s.wedding_id db.expenses
  let paid = total_paid s.wedding_id db.expenses
  throw_if (ltb max_safe planned || ltb max_safe paid)
      (conflict "Budget total exceeds safe integer range")
  ok (record {
    budget = first_where (budget_of s.wedding_id) db.budgets;
    planned_minor = planned;
    paid_minor = paid;
    remaining_minor = difference planned paid;
  })

abbrev pub category_at : ℕ → ℕ → CategoryRow → Bool
category_at w id c = keyed w id c.wedding_id c.id

abbrev pub category_named : (ℕ → ℕ) → ℕ → ℕ → ℕ → CategoryRow → Bool
category_named lower w id name c =
    c.wedding_id == w && not (c.id == id) && lower c.name == lower name

unfoldable pub save_budget_category : (ℕ → ℕ) → Scope → ℕ → ℕ → Bool → Method CategoryRow
save_budget_category lower s id name true db = do
  authorized s db
  throw_if (leb 100 (count_where (λ (c : CategoryRow). c.wedding_id == s.wedding_id) db.categories))
      (conflict "A wedding can have at most 100 budget categories")
  throw_if
      (any (category_at s.wedding_id id) db.categories
        || any (category_named lower s.wedding_id id name) db.categories)
      (conflict "Budget category name is already used")
  let row : CategoryRow = record { wedding_id = s.wedding_id; id = id; name = name }
  ok (row, record db { categories = row ∷ db.categories })
save_budget_category lower s id name false db = do
  authorized s db
  row ←
      require_row "Budget category not found"
        (first_where (category_at s.wedding_id id) db.categories)
  throw_if (any (category_named lower s.wedding_id id name) db.categories)
      (conflict "Budget category name is already used")
  ok (
    record row { name = name },
    record db {
      categories =
          update_where (category_at s.wedding_id id) (λ c. record c { name = name }) db.categories;
    },
  )

-- The expenses of the wedding that are in the category.
abbrev pub in_category : ℕ → ℕ → ExpenseRow → Bool
in_category w id e = e.wedding_id == w && refers_to e.category_id id

unfoldable pub delete_budget_category : Scope → ℕ → Method (Unit {0})
delete_budget_category s id db = do
  authorized s db
  _ ←
      require_row "Budget category not found"
        (first_where (category_at s.wedding_id id) db.categories)
  ok (
    tt,
    record db {
      expenses =
          update_where (in_category s.wedding_id id) (λ e. record e { category_id = none })
            db.expenses;
      categories = delete_where (category_at s.wedding_id id) db.categories;
    },
  )
