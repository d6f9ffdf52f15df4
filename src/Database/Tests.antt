-- ===== src/Database/Tests.antt =====
-- Two weddings with a table, a guest, a vendor and an expense, and calls on them.
use lovechapter.Prelude.{ℕ, ◌≡◌, ◌≤◌, refl, true, false, none, some, List, [], ◌∷◌, arith, all}
use lovechapter.Prelude.Result.{ok, err, not_found}
use lovechapter.Auth.Tables.{first_where}
use lovechapter.Database.Rows.{Scope, VendorDetails, ExpenseDetails, Database}
use lovechapter.Database.Operations.{has_wedding, is_member}
use lovechapter.Database.Operations.Steps.{Keeps}
use lovechapter.Database.Operations.Budget.{
  BudgetInput, BudgetOverview, budget_of, max_safe, set_budget, get_budget_overview, total_planned,
  total_paid,
}
use lovechapter.Database.Operations.Budget.Currency.{
  currency_of, input_of, set_budget-currency_of, set_budget-get_budget_overview,
}
use lovechapter.Database.Operations.Seating.{reserved, party_of}
use lovechapter.Database.Operations.Books.{IsConsistent}
use lovechapter.Database.Operations.Changes.{
  Change, budget_set, category_deleted, vendor_deleted, seat_assigned, table_deleted, perform,
  run_changes,
}
use lovechapter.Database.Operations.Changes.Consistent.{run_changes-IsConsistent}
use lovechapter.Database.Operations.Changes.Elsewhere.{restrict}
use lovechapter.Database.Operations.Changes.Isolation.{
  is_foreign, perform-denied, run_changes-unseen,
}

abbrev vendor_details : VendorDetails
vendor_details = record {
  name = 70;
  status = 0;
  contact_name = none;
  email = none;
  phone = none;
  note = none;
}

abbrev expense_details : ExpenseDetails
expense_details = record {
  title = 80;
  planned_minor = 500;
  paid_minor = 200;
  due_date = none;
  note = none;
}

abbrev sample : Database
sample = record {
  weddings = 1 ∷ 2 ∷ [];
  members = record { wedding_id = 1; user_id = 11 } ∷ record { wedding_id = 2; user_id = 22 } ∷ [];
  budgets = record { wedding_id = 1; currency = 978; target_minor = some 9000 } ∷ [];
  categories = record { wedding_id = 1; id = 5; name = 50 } ∷ [];
  vendors =
      record { wedding_id = 1; id = 7; details = vendor_details; quote_minor = some 300 } ∷ [];
  expenses =
      record {
        wedding_id = 1;
        id = 8;
        details = expense_details;
        category_id = some 5;
        vendor_id = some 7;
      }
      ∷ [];
  run_sheet = [];
  tables = record { wedding_id = 1; id = 3; name = 30; capacity = 4 } ∷ [];
  seats = record { wedding_id = 1; guest_id = 9; table_id = 3 } ∷ [];
  guests =
      record {
        wedding_id = 1;
        id = 9;
        name = 90;
        allowed_party_size = 2;
        is_archived = false;
        has_declined = false;
      }
      ∷ record {
        wedding_id = 1;
        id = 10;
        name = 91;
        allowed_party_size = 2;
        is_archived = false;
        has_declined = false;
      }
      ∷ [];
}

abbrev alice : Scope
alice = record { user_id = 11; wedding_id = 1 }

abbrev bob : Scope
bob = record { user_id = 22; wedding_id = 2 }

abbrev bob_at_first : Scope
bob_at_first = record { user_id = 22; wedding_id = 1 }

abbrev as_is : ℕ → ℕ
as_is n = n

sample-IsConsistent : IsConsistent sample
unfolding reserved party_of
sample-IsConsistent = record {
  seated = record { unique = (tt, tt); fits = (omega arith, tt); placed = (refl, tt) };
  booked = record {
    expenses = (record { budget = refl; category = refl; vendor = refl }, tt);
    vendors = (refl, tt);
  };
}

abbrev calls : List (Scope × Change)
calls =
    (alice, seat_assigned 10 (some 3))
    ∷ (alice, category_deleted 5)
    ∷ (bob_at_first, table_deleted 3)
    ∷ (alice, vendor_deleted 7)
    ∷ []

run_changes-IsConsistent_example : IsConsistent (run_changes as_is calls sample)
run_changes-IsConsistent_example = run_changes-IsConsistent as_is calls sample sample-IsConsistent

abbrev stray_calls : List (Scope × Change)
stray_calls =
    (bob, budget_set (record { currency = 840; target_minor = none }))
    ∷ (bob_at_first, table_deleted 3)
    ∷ (bob_at_first, vendor_deleted 7)
    ∷ []

stray_calls_foreign : all (is_foreign 1 sample) stray_calls ≡ true
unfolding is_foreign has_wedding is_member
stray_calls_foreign = refl

run_changes-unseen_example : restrict 1 (run_changes as_is stray_calls sample) ≡ restrict 1 sample
run_changes-unseen_example = run_changes-unseen as_is 1 stray_calls sample stray_calls_foreign

bob_stays_out : has_wedding bob_at_first sample ≡ false
unfolding has_wedding is_member
bob_stays_out = refl

perform-denied_example :
    perform as_is bob_at_first (table_deleted 3) sample ≡ err (not_found "Wedding not found")
perform-denied_example = perform-denied as_is bob_at_first (table_deleted 3) sample bob_stays_out

abbrev new_input : BudgetInput
new_input = record { currency = 978; target_minor = some 12000 }

set_budget-currency_of_example :
    Keeps
      (λ d. currency_of (first_where (budget_of 1) d.budgets) ≡ some 978)
      (set_budget alice new_input sample)
set_budget-currency_of_example =
    set_budget-currency_of alice new_input sample 1
      (record { wedding_id = 1; currency = 978; target_minor = some 9000 }) refl refl

planned_safe : total_planned 1 sample.expenses ≤ max_safe
unfolding total_planned
planned_safe = omega arith

paid_safe : total_paid 1 sample.expenses ≤ max_safe
unfolding total_paid
paid_safe = omega arith

set_budget-get_budget_overview_example :
    Keeps
      (λ d.
        (o : BudgetOverview) × (get_budget_overview alice d ≡ ok o)
        × (input_of o.budget ≡ some new_input)
        × (o.planned_minor ≡ total_planned 1 sample.expenses)
        × (o.paid_minor ≡ total_paid 1 sample.expenses))
      (set_budget alice new_input sample)
set_budget-get_budget_overview_example =
    set_budget-get_budget_overview alice new_input sample planned_safe paid_safe
