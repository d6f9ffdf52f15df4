-- ===== src/Domain/Service/Operations.antt =====
-- Budget, vendors, expenses, the run sheet and seating.
use lovechapter.Prelude.{Bool, Option, none, some}
use lovechapter.Prelude.Result.{Result, ok, ◌>>=◌, ◌>>◌}
use lovechapter.Text.{Text}
use lovechapter.Domain.Operations.{
  Budget, VendorInput, ExpenseInput, SeatingTable, normalize_budget, normalize_budget_category,
  normalize_vendor, normalize_expense, normalize_seating_table,
}
use lovechapter.Domain.RunSheet.{RunSheetItemInput, normalize_run_sheet_item}
use lovechapter.Domain.Guests.{truthy}
use lovechapter.Domain.Requests.{PageInput}
use lovechapter.Domain.Service.{
  Env, Session, Action, budget_overview_read, budget_set, categories_listed, category_saved,
  category_deleted, vendors_listed, vendor_saved, vendor_deleted, expenses_listed, expense_saved,
  expense_deleted, run_sheet_listed, run_sheet_item_saved, run_sheet_item_deleted, tables_listed,
  table_saved, table_deleted, assignments_listed, seating_assigned, Call, as_onboarded,
  operation_id, operation_page, id_or_fresh, is_new,
}

-- A save: the identifier, then the normalised input.
abbrev pub saving :
    {A : Type 0} → (Text → A → Bool → Action) → Text → Option Text → Result A → Result Action
saving action fresh id normalized = do
  record_id ← id_or_fresh fresh (truthy id)
  input ← normalized
  ok (action record_id input (is_new (truthy id)))

abbrev pub with_id : (Text → Action) → Text → Result Action
with_id action id = do record_id ← operation_id id; ok (action record_id)

unfoldable pub get_budget_overview : Session → Text → Result Call
get_budget_overview s w = as_onboarded s (some w) (ok budget_overview_read)

unfoldable pub set_budget : Env → Session → Text → Budget → Result Call
set_budget e s w input =
    as_onboarded s (some w) (do budget ← normalize_budget e.platform input; ok (budget_set budget))

unfoldable pub list_budget_categories : Session → Text → Result Call
list_budget_categories s w = as_onboarded s (some w) (ok categories_listed)

unfoldable pub save_budget_category : Session → Text → Text → Option Text → Text → Result Call
save_budget_category s w fresh id name =
    as_onboarded s (some w) (saving category_saved fresh id (normalize_budget_category name))

unfoldable pub delete_budget_category : Session → Text → Text → Result Call
delete_budget_category s w id = as_onboarded s (some w) (with_id category_deleted id)

unfoldable pub list_vendors : Env → Session → Text → PageInput → Result Call
list_vendors e s w page =
    as_onboarded s (some w) (do p ← operation_page e page; ok (vendors_listed p))

unfoldable pub save_vendor : Session → Text → Text → Option Text → VendorInput → Result Call
save_vendor s w fresh id input =
    as_onboarded s (some w) (saving vendor_saved fresh id (normalize_vendor input))

unfoldable pub delete_vendor : Session → Text → Text → Result Call
delete_vendor s w id = as_onboarded s (some w) (with_id vendor_deleted id)

unfoldable pub list_expenses : Env → Session → Text → PageInput → Result Call
list_expenses e s w page =
    as_onboarded s (some w) (do p ← operation_page e page; ok (expenses_listed p))

abbrev pub check_id : Option Text → Result (Unit {0})
check_id none = ok tt
check_id (some id) = do _ ← operation_id id; ok tt

-- Here the input is normalised before the user is known.
unfoldable pub save_expense : Session → Text → Text → Option Text → ExpenseInput → Result Call
save_expense s w fresh id input = do
  expense ← normalize_expense input
  check_id (truthy expense.category_id)
  check_id (truthy expense.vendor_id)
  as_onboarded s (some w) (saving expense_saved fresh id (ok expense))

unfoldable pub delete_expense : Session → Text → Text → Result Call
delete_expense s w id = as_onboarded s (some w) (with_id expense_deleted id)

unfoldable pub list_run_sheet : Env → Session → Text → PageInput → Result Call
list_run_sheet e s w page =
    as_onboarded s (some w) (do p ← operation_page e page; ok (run_sheet_listed p))

unfoldable pub save_run_sheet_item :
    Env → Session → Text → Text → Option Text → RunSheetItemInput → Result Call
save_run_sheet_item e s w fresh id input =
    as_onboarded s (some w)
      (saving run_sheet_item_saved fresh id (normalize_run_sheet_item e.to_iso input))

unfoldable pub delete_run_sheet_item : Session → Text → Text → Result Call
delete_run_sheet_item s w id = as_onboarded s (some w) (with_id run_sheet_item_deleted id)

unfoldable pub list_seating_tables : Session → Text → Result Call
list_seating_tables s w = as_onboarded s (some w) (ok tables_listed)

unfoldable pub save_seating_table : Session → Text → Text → Option Text → SeatingTable → Result Call
save_seating_table s w fresh id input =
    as_onboarded s (some w) (saving table_saved fresh id (normalize_seating_table input))

unfoldable pub delete_seating_table : Session → Text → Text → Result Call
delete_seating_table s w id = as_onboarded s (some w) (with_id table_deleted id)

unfoldable pub list_seating_assignments : Session → Text → Text → Result Call
list_seating_assignments s w id = as_onboarded s (some w) (with_id assignments_listed id)

abbrev pub optional_id : Option Text → Result (Option Text)
optional_id none = ok none
optional_id (some id) = do record_id ← operation_id id; ok (some record_id)

unfoldable pub assign_seating : Session → Text → Text → Option Text → Result Call
assign_seating s w guest_id table_id = as_onboarded s (some w) (do
  guest ← operation_id guest_id
  table ← optional_id (truthy table_id)
  ok (seating_assigned guest table))
