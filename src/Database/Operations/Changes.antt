-- ===== src/Database/Operations/Changes.antt =====
-- Every method of the repository that changes a wedding, and any sequence of calls by any users.
pub mod Consistent
pub mod Elsewhere
pub mod Unseen
pub mod Isolation
use lovechapter.Prelude.{ℕ, Bool, List, [], ◌∷◌, Option}
use lovechapter.Prelude.Result.{Result, ok, err, ◌>>=◌}
use lovechapter.Database.Rows.{Scope, RunSheetDetails, Database}
use lovechapter.Database.Operations.Budget.{
  BudgetInput, set_budget, save_budget_category, delete_budget_category,
}
use lovechapter.Database.Operations.Costs.{
  VendorInput, ExpenseInput, save_vendor, delete_vendor, save_expense, delete_expense,
}
use lovechapter.Database.Operations.RunSheet.{save_run_sheet_item, delete_run_sheet_item}
use lovechapter.Database.Operations.Seating.{
  SeatingTableInput, save_seating_table, delete_seating_table, assign_seating,
}

-- A call, with its identifier, its input and whether it creates.
pub data Change : Type 0 where
  budget_set : BudgetInput → Change
  category_saved : ℕ → ℕ → Bool → Change
  category_deleted : ℕ → Change
  vendor_saved : ℕ → VendorInput → Bool → Change
  vendor_deleted : ℕ → Change
  expense_saved : ℕ → ExpenseInput → Bool → Change
  expense_deleted : ℕ → Change
  item_saved : ℕ → RunSheetDetails → Bool → Change
  item_deleted : ℕ → Change
  table_saved : ℕ → SeatingTableInput → Bool → Change
  table_deleted : ℕ → Change
  seat_assigned : ℕ → Option ℕ → Change

-- The database after a method that returns.
abbrev pub after {ℓ} : {A : Type ℓ} → Result (A × Database) → Result Database
after (err e) = err e
after (ok p) = ok p.1

unfoldable pub perform : (ℕ → ℕ) → Scope → Change → Database → Result Database
perform lower s (budget_set input) db = after (set_budget s input db)
perform lower s (category_saved id name create) db =
    after (save_budget_category lower s id name create db)
perform lower s (category_deleted id) db = after (delete_budget_category s id db)
perform lower s (vendor_saved id input create) db = after (save_vendor s id input create db)
perform lower s (vendor_deleted id) db = after (delete_vendor s id db)
perform lower s (expense_saved id input create) db = after (save_expense s id input create db)
perform lower s (expense_deleted id) db = after (delete_expense s id db)
perform lower s (item_saved id input create) db = after (save_run_sheet_item s id input create db)
perform lower s (item_deleted id) db = after (delete_run_sheet_item s id db)
perform lower s (table_saved id input create) db =
    after (save_seating_table lower s id input create db)
perform lower s (table_deleted id) db = after (delete_seating_table s id db)
perform lower s (seat_assigned g table_id) db = after (assign_seating s g table_id db)

-- A call that throws leaves the database as it was.
abbrev pub settle : Database → Result Database → Database
settle db (err e) = db
settle db (ok db') = db'

unfoldable pub run_changes : (ℕ → ℕ) → List (Scope × Change) → Database → Database
run_changes lower [] db = db
run_changes lower (c ∷ l) db = run_changes lower l (settle db (perform lower c.0 c.1 db))
