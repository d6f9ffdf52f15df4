-- ===== src/Database/Operations/Costs.antt =====
-- Vendors and expenses: `saveVendor`, `deleteVendor`, `saveExpense` and `deleteExpense`.
use lovechapter.Prelude.{ℕ, Bool, true, false, ◌&&◌, ◌||◌, not, Option, none, some, ◌∷◌, ◌==◌, any}
use lovechapter.Prelude.Result.{database_error, ok, ◌>>=◌, ◌>>◌, throw_if, not_found}
use lovechapter.Auth.Tables.{update_where, delete_where, first_where, is_null}
use lovechapter.Database.Rows.{
  Scope, VendorDetails, VendorRow, ExpenseDetails, ExpenseRow, Database, keyed, refers_to,
}
use lovechapter.Database.Operations.{Method, authorized, require_row}
use lovechapter.Database.Operations.Budget.{budget_of, category_at}

pub record VendorInput : Type 0 where
  pub details : VendorDetails
  pub quote_minor : Option ℕ

pub record ExpenseInput : Type 0 where
  pub details : ExpenseDetails
  pub category_id : Option ℕ
  pub vendor_id : Option ℕ

abbrev pub vendor_at : ℕ → ℕ → VendorRow → Bool
vendor_at w id v = keyed w id v.wedding_id v.id

abbrev pub expense_at : ℕ → ℕ → ExpenseRow → Bool
expense_at w id e = keyed w id e.wedding_id e.id

abbrev pub has_budget : ℕ → Database → Bool
has_budget w db = any (budget_of w) db.budgets

-- `budgetGuard`: a quote needs a currency.
abbrev pub quote_allowed : ℕ → Option ℕ → Database → Bool
quote_allowed w quote db = is_null quote || has_budget w db

abbrev pub with_vendor : VendorInput → VendorRow → VendorRow
with_vendor input v = record v { details = input.details; quote_minor = input.quote_minor }

-- An identifier that is taken is an error of the database; `crypto.randomUUID` gives a new one.
unfoldable pub save_vendor : Scope → ℕ → VendorInput → Bool → Method VendorRow
save_vendor s id input true db = do
  authorized s db
  throw_if (not (quote_allowed s.wedding_id input.quote_minor db))
      (not_found "Vendor not found or budget currency not configured")
  throw_if (any (vendor_at s.wedding_id id) db.vendors) (database_error "duplicate key")
  let row : VendorRow = record {
    wedding_id = s.wedding_id;
    id = id;
    details = input.details;
    quote_minor = input.quote_minor;
  }
  ok (row, record db { vendors = row ∷ db.vendors })
save_vendor s id input false db = do
  authorized s db
  throw_if (not (quote_allowed s.wedding_id input.quote_minor db))
      (not_found "Vendor not found or budget currency not configured")
  row ←
      require_row "Vendor not found or budget currency not configured"
        (first_where (vendor_at s.wedding_id id) db.vendors)
  ok (
    with_vendor input row,
    record db { vendors = update_where (vendor_at s.wedding_id id) (with_vendor input) db.vendors },
  )

-- The expenses of the wedding that name the vendor.
abbrev pub of_vendor : ℕ → ℕ → ExpenseRow → Bool
of_vendor w id e = e.wedding_id == w && refers_to e.vendor_id id

unfoldable pub delete_vendor : Scope → ℕ → Method (Unit {0})
delete_vendor s id db = do
  authorized s db
  _ ← require_row "Vendor not found" (first_where (vendor_at s.wedding_id id) db.vendors)
  ok (
    tt,
    record db {
      expenses =
          update_where (of_vendor s.wedding_id id) (λ e. record e { vendor_id = none }) db.expenses;
      vendors = delete_where (vendor_at s.wedding_id id) db.vendors;
    },
  )

abbrev pub category_known : ℕ → Option ℕ → Database → Bool
category_known w none db = true
category_known w (some id) db = any (category_at w id) db.categories

abbrev pub vendor_known : ℕ → Option ℕ → Database → Bool
vendor_known w none db = true
vendor_known w (some id) db = any (vendor_at w id) db.vendors

-- `guard`
unfoldable pub expense_allowed : ℕ → ExpenseInput → Database → Bool
expense_allowed w input db =
    has_budget w db && category_known w input.category_id db && vendor_known w input.vendor_id db

abbrev pub with_expense : ExpenseInput → ExpenseRow → ExpenseRow
with_expense input e = record e {
  details = input.details;
  category_id = input.category_id;
  vendor_id = input.vendor_id;
}

unfoldable pub save_expense : Scope → ℕ → ExpenseInput → Bool → Method ExpenseRow
save_expense s id input true db = do
  authorized s db
  throw_if (not (expense_allowed s.wedding_id input db))
      (not_found "Expense, budget, category, or vendor not found")
  throw_if (any (expense_at s.wedding_id id) db.expenses) (database_error "duplicate key")
  let row : ExpenseRow = record {
    wedding_id = s.wedding_id;
    id = id;
    details = input.details;
    category_id = input.category_id;
    vendor_id = input.vendor_id;
  }
  ok (row, record db { expenses = row ∷ db.expenses })
save_expense s id input false db = do
  authorized s db
  throw_if (not (expense_allowed s.wedding_id input db))
      (not_found "Expense, budget, category, or vendor not found")
  row ←
      require_row "Expense, budget, category, or vendor not found"
        (first_where (expense_at s.wedding_id id) db.expenses)
  ok (
    with_expense input row,
    record db {
      expenses = update_where (expense_at s.wedding_id id) (with_expense input) db.expenses;
    },
  )

unfoldable pub delete_expense : Scope → ℕ → Method (Unit {0})
delete_expense s id db = do
  authorized s db
  _ ← require_row "Expense not found" (first_where (expense_at s.wedding_id id) db.expenses)
  ok (tt, record db { expenses = delete_where (expense_at s.wedding_id id) db.expenses })
