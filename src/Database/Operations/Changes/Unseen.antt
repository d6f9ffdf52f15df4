-- ===== src/Database/Operations/Changes/Unseen.antt =====
-- A change by the members of one wedding is not seen in another.
use lovechapter.Prelude.{
  ℕ, ◌≡◌, refl, Bool, true, false, not, Option, none, some, inl, inr, arith, any, Bool-cases, leb,
  ltb, ◌+◌, ◌||◌, ◌==◌,
}
use lovechapter.Prelude.Result.{Ensures, Ensures-bind, Ensures-ok, Ensures-self, Ensures-then}
use lovechapter.Auth.Tables.{first_where, select_where}
use lovechapter.Database.Rows.{
  Scope, TableRow, SeatRow, GuestRow, RunSheetRow, RunSheetDetails, CategoryRow, BudgetRow,
  ExpenseRow, VendorRow, Database, keyed, refers_to,
}
use lovechapter.Database.Operations.{authorized, count_where}
use lovechapter.Database.Operations.Steps.{Keeps, Ensures-row}
use lovechapter.Database.Operations.Budget.{
  BudgetInput, budget_of, may_set, with_input, put_budget, set_budget, category_at, category_named,
  save_budget_category, in_category, delete_budget_category,
}
use lovechapter.Database.Operations.Costs.{
  VendorInput, ExpenseInput, quote_allowed, vendor_at, with_vendor, save_vendor, of_vendor,
  delete_vendor, expense_at, expense_allowed, with_expense, save_expense, delete_expense,
}
use lovechapter.Database.Operations.RunSheet.{item_at, save_run_sheet_item, delete_run_sheet_item}
use lovechapter.Database.Operations.Seating.{
  SeatingTableInput, reserved, table_at, guest_at, seat_of, name_taken, same_table, change_seat,
  lock_old, check_guest, save_seating_table, delete_seating_table, assign_seating,
}
use lovechapter.Database.Operations.Changes.{
  Change, budget_set, category_saved, category_deleted, vendor_saved, vendor_deleted, expense_saved,
  expense_deleted, item_saved, item_deleted, table_saved, table_deleted, seat_assigned, perform,
}
use lovechapter.Database.Operations.Changes.Consistent.{after-Keeps}
use lovechapter.Database.Operations.Changes.Elsewhere.{
  restrict, select-update_where, select-delete_where, select-put_seat, apart, apart_of,
}

module _ (v : ℕ) (db : Database) where
  abbrev Unseen : Database → Type 0
  Unseen d = restrict v d ≡ restrict v db

  module _ (w : ℕ) (n : (w == v) ≡ false) where
    put_budget-unseen :
        (input : BudgetInput) (o : Option BudgetRow)
        → select_where (λ (b : BudgetRow). b.wedding_id == v) (put_budget w input db o).1
          ≡ select_where (λ (b : BudgetRow). b.wedding_id == v) db.budgets
    put_budget-unseen input none = rw n refl
    put_budget-unseen input (some b) = elim (Bool-cases (may_set w input.currency db b)) [
      | inl e ↦ rw e (
          select-update_where (λ (b : BudgetRow). b.wedding_id == v) (budget_of w)
            (with_input input) (λ b at. ground arith) (λ b. refl) db.budgets)
      | inr e ↦ rw e refl
    ]

  module _ (s : Scope) (n : (s.wedding_id == v) ≡ false) where
    set_budget-Unseen : (input : BudgetInput) → Keeps Unseen (set_budget s input db)
    unfolding set_budget
    set_budget-Unseen input =
        let w : ℕ = s.wedding_id in
        let o = first_where (budget_of w) db.budgets in
        Ensures-bind _ _ (Ensures-self (authorized s db)) λ _ _.
          Ensures-then (not (put_budget w input db o).0) _ _
            λ _. Ensures-ok (λ p. Unseen p.1) _ (rw (put_budget-unseen w n input o) refl)

    save_budget_category-Unseen :
        (lower : ℕ → ℕ) (id name : ℕ) (create : Bool)
        → Keeps Unseen (save_budget_category lower s id name create db)
    unfolding save_budget_category
    save_budget_category-Unseen lower id name true =
        let w : ℕ = s.wedding_id in
        Ensures-bind _ _ (Ensures-self (authorized s db)) λ _ _.
          Ensures-then
            (leb 100 (count_where (λ (c : CategoryRow). c.wedding_id == w) db.categories)) _ _
            λ _.
              Ensures-then
                (any (category_at w id) db.categories
                  || any (category_named lower w id name) db.categories)
                _ _ λ _. Ensures-ok (λ p. Unseen p.1) _ (rw n refl)
    save_budget_category-Unseen lower id name false =
        let w : ℕ = s.wedding_id in
        Ensures-bind _ _ (Ensures-self (authorized s db)) λ _ _.
          Ensures-row "Budget category not found" (first_where (category_at w id) db.categories) _
            λ _ _. Ensures-then (any (category_named lower w id name) db.categories) _ _ λ _.
              Ensures-ok (λ p. Unseen p.1) _
                (rw
                  (select-update_where (λ (c : CategoryRow). c.wedding_id == v) (category_at w id)
                    (λ c. record c { name = name }) (λ c. apart w v c.wedding_id id c.id n)
                    (λ c. refl) db.categories)
                  refl)

    delete_budget_category-Unseen : (id : ℕ) → Keeps Unseen (delete_budget_category s id db)
    unfolding delete_budget_category
    delete_budget_category-Unseen id =
        let w : ℕ = s.wedding_id in
        Ensures-bind _ _ (Ensures-self (authorized s db)) λ _ _.
          Ensures-row "Budget category not found" (first_where (category_at w id) db.categories) _
            λ _ _.
              Ensures-ok (λ p. Unseen p.1) _
                (rw
                  (
                    select-update_where (λ (e : ExpenseRow). e.wedding_id == v) (in_category w id)
                        (λ e. record e { category_id = none })
                        (λ e. apart_of w v e.wedding_id (refers_to e.category_id id) n) (λ e. refl)
                        db.expenses,
                    select-delete_where (λ (c : CategoryRow). c.wedding_id == v) (category_at w id)
                        (λ c. apart w v c.wedding_id id c.id n) db.categories,
                  )
                  refl)

    save_vendor-Unseen :
        (id : ℕ) (input : VendorInput) (create : Bool)
        → Keeps Unseen (save_vendor s id input create db)
    unfolding save_vendor
    save_vendor-Unseen id input true =
        let w : ℕ = s.wedding_id in
        Ensures-bind _ _ (Ensures-self (authorized s db)) λ _ _.
          Ensures-then (not (quote_allowed w input.quote_minor db)) _ _ λ _.
            Ensures-then (any (vendor_at w id) db.vendors) _ _
              λ _. Ensures-ok (λ p. Unseen p.1) _ (rw n refl)
    save_vendor-Unseen id input false =
        let w : ℕ = s.wedding_id in
        Ensures-bind _ _ (Ensures-self (authorized s db)) λ _ _.
          Ensures-then (not (quote_allowed w input.quote_minor db)) _ _ λ _.
            Ensures-row "Vendor not found or budget currency not configured"
              (first_where (vendor_at w id) db.vendors) _
              λ _ _.
                Ensures-ok (λ p. Unseen p.1) _
                  (rw
                    (select-update_where (λ (d : VendorRow). d.wedding_id == v) (vendor_at w id)
                      (with_vendor input) (λ d. apart w v d.wedding_id id d.id n) (λ d. refl)
                      db.vendors)
                    refl)

    delete_vendor-Unseen : (id : ℕ) → Keeps Unseen (delete_vendor s id db)
    unfolding delete_vendor
    delete_vendor-Unseen id =
        let w : ℕ = s.wedding_id in
        Ensures-bind _ _ (Ensures-self (authorized s db)) λ _ _.
          Ensures-row "Vendor not found" (first_where (vendor_at w id) db.vendors) _ λ _ _.
            Ensures-ok (λ p. Unseen p.1) _
              (rw
                (
                  select-update_where (λ (e : ExpenseRow). e.wedding_id == v) (of_vendor w id)
                      (λ e. record e { vendor_id = none })
                      (λ e. apart_of w v e.wedding_id (refers_to e.vendor_id id) n) (λ e. refl)
                      db.expenses,
                  select-delete_where (λ (d : VendorRow). d.wedding_id == v) (vendor_at w id)
                      (λ d. apart w v d.wedding_id id d.id n) db.vendors,
                )
                refl)

    save_expense-Unseen :
        (id : ℕ) (input : ExpenseInput) (create : Bool)
        → Keeps Unseen (save_expense s id input create db)
    unfolding save_expense
    save_expense-Unseen id input true =
        let w : ℕ = s.wedding_id in
        Ensures-bind _ _ (Ensures-self (authorized s db)) λ _ _.
          Ensures-then (not (expense_allowed w input db)) _ _ λ _.
            Ensures-then (any (expense_at w id) db.expenses) _ _
              λ _. Ensures-ok (λ p. Unseen p.1) _ (rw n refl)
    save_expense-Unseen id input false =
        let w : ℕ = s.wedding_id in
        Ensures-bind _ _ (Ensures-self (authorized s db)) λ _ _.
          Ensures-then (not (expense_allowed w input db)) _ _ λ _.
            Ensures-row "Expense, budget, category, or vendor not found"
              (first_where (expense_at w id) db.expenses) _
              λ _ _.
                Ensures-ok (λ p. Unseen p.1) _
                  (rw
                    (select-update_where (λ (e : ExpenseRow). e.wedding_id == v) (expense_at w id)
                      (with_expense input) (λ e. apart w v e.wedding_id id e.id n) (λ e. refl)
                      db.expenses)
                    refl)

    delete_expense-Unseen : (id : ℕ) → Keeps Unseen (delete_expense s id db)
    unfolding delete_expense
    delete_expense-Unseen id =
        let w : ℕ = s.wedding_id in
        Ensures-bind _ _ (Ensures-self (authorized s db)) λ _ _.
          Ensures-row "Expense not found" (first_where (expense_at w id) db.expenses) _ λ _ _.
            Ensures-ok (λ p. Unseen p.1) _
              (rw
                (select-delete_where (λ (e : ExpenseRow). e.wedding_id == v) (expense_at w id)
                  (λ e. apart w v e.wedding_id id e.id n) db.expenses)
                refl)

    save_run_sheet_item-Unseen :
        (id : ℕ) (input : RunSheetDetails) (create : Bool)
        → Keeps Unseen (save_run_sheet_item s id input create db)
    unfolding save_run_sheet_item
    save_run_sheet_item-Unseen id input true =
        Ensures-bind _ _ (Ensures-self (authorized s db)) λ _ _.
          Ensures-then (any (item_at s.wedding_id id) db.run_sheet) _ _
            λ _. Ensures-ok (λ p. Unseen p.1) _ (rw n refl)
    save_run_sheet_item-Unseen id input false =
        let w : ℕ = s.wedding_id in
        Ensures-bind _ _ (Ensures-self (authorized s db)) λ _ _.
          Ensures-row "Schedule item not found" (first_where (item_at w id) db.run_sheet) _ λ _ _.
            Ensures-ok (λ p. Unseen p.1) _
              (rw
                (select-update_where (λ (i : RunSheetRow). i.wedding_id == v) (item_at w id)
                  (λ i. record i { details = input }) (λ i. apart w v i.wedding_id id i.id n)
                  (λ i. refl) db.run_sheet)
                refl)

    delete_run_sheet_item-Unseen : (id : ℕ) → Keeps Unseen (delete_run_sheet_item s id db)
    unfolding delete_run_sheet_item
    delete_run_sheet_item-Unseen id =
        let w : ℕ = s.wedding_id in
        Ensures-bind _ _ (Ensures-self (authorized s db)) λ _ _.
          Ensures-row "Schedule item not found" (first_where (item_at w id) db.run_sheet) _ λ _ _.
            Ensures-ok (λ p. Unseen p.1) _
              (rw
                (select-delete_where (λ (i : RunSheetRow). i.wedding_id == v) (item_at w id)
                  (λ i. apart w v i.wedding_id id i.id n) db.run_sheet)
                refl)

    save_seating_table-Unseen :
        (lower : ℕ → ℕ) (id : ℕ) (input : SeatingTableInput) (create : Bool)
        → Keeps Unseen (save_seating_table lower s id input create db)
    unfolding save_seating_table
    save_seating_table-Unseen lower id input true =
        let w : ℕ = s.wedding_id in
        Ensures-bind _ _ (Ensures-self (authorized s db)) λ _ _.
          Ensures-then (leb 100 (count_where (λ (t : TableRow). t.wedding_id == w) db.tables)) _ _
            λ _.
              Ensures-then
                (any (table_at w id) db.tables || any (name_taken lower w id input.name) db.tables)
                _ _ λ _. Ensures-ok (λ p. Unseen p.1) _ (rw n refl)
    save_seating_table-Unseen lower id input false =
        let w : ℕ = s.wedding_id in
        Ensures-bind _ _ (Ensures-self (authorized s db)) λ _ _.
          Ensures-row "Table not found" (first_where (table_at w id) db.tables) _ λ _ _.
            Ensures-then (ltb input.capacity (reserved w id db.guests db.seats)) _ _ λ _.
              Ensures-then (any (name_taken lower w id input.name) db.tables) _ _ λ _.
                Ensures-ok (λ p. Unseen p.1) _
                  (rw
                    (select-update_where (λ (t : TableRow). t.wedding_id == v) (table_at w id)
                      (λ t. record t { name = input.name; capacity = input.capacity })
                      (λ t. apart w v t.wedding_id id t.id n) (λ t. refl) db.tables)
                    refl)

    delete_seating_table-Unseen : (id : ℕ) → Keeps Unseen (delete_seating_table s id db)
    unfolding delete_seating_table
    delete_seating_table-Unseen id =
        let w : ℕ = s.wedding_id in
        Ensures-bind _ _ (Ensures-self (authorized s db)) λ _ _.
          Ensures-row "Table not found" (first_where (table_at w id) db.tables) _ λ _ _.
            Ensures-ok (λ p. Unseen p.1) _
              (rw
                (
                  select-delete_where (λ (t : TableRow). t.wedding_id == v) (table_at w id)
                      (λ t. apart w v t.wedding_id id t.id n) db.tables,
                  select-delete_where (λ (a : SeatRow). a.wedding_id == v)
                      (λ a. keyed w id a.wedding_id a.table_id)
                      (λ a. apart w v a.wedding_id id a.table_id n) db.seats,
                )
                refl)

    change_seat-Unseen :
        (g : ℕ) (old : Option SeatRow) (new : Option ℕ) (guest : GuestRow)
        → Keeps Unseen (change_seat s.wedding_id g old new guest db)
    change_seat-Unseen g old none guest =
        let w : ℕ = s.wedding_id in
        Ensures-bind _ _ (Ensures-self (lock_old w old db)) λ _ _.
          Ensures-ok (λ p. Unseen p.1) _
            (rw
              (select-delete_where (λ (a : SeatRow). a.wedding_id == v) (seat_of w g)
                (λ a. apart w v a.wedding_id g a.guest_id n) db.seats)
              refl)
    change_seat-Unseen g old (some t) guest =
        let w : ℕ = s.wedding_id in
        Ensures-bind _ _ (Ensures-self (lock_old w old db)) λ _ _.
          Ensures-row "Table not found" (first_where (table_at w t) db.tables) _ λ row _.
            Ensures-then
              (ltb row.capacity (reserved w t db.guests db.seats + guest.allowed_party_size)) _ _
              λ _. Ensures-ok (λ p. Unseen p.1) _ (rw (select-put_seat w g t v db.seats n) refl)

    assign_seating-Unseen :
        (g : ℕ) (table_id : Option ℕ) → Keeps Unseen (assign_seating s g table_id db)
    unfolding assign_seating
    assign_seating-Unseen g table_id =
        let w : ℕ = s.wedding_id in
        Ensures-bind _ _ (Ensures-self (authorized s db)) λ _ _.
          Ensures-row "Guest not found" (first_where (guest_at w g) db.guests) _ λ guest _.
            Ensures-bind _ _ (Ensures-self (check_guest table_id guest)) λ _ _.
              let old = first_where (seat_of w g) db.seats in
              elim (Bool-cases (same_table old table_id)) [
                | inl same ↦ rw same (Ensures-ok (λ p. Unseen p.1) _ refl)
                | inr other ↦ rw other (change_seat-Unseen g old table_id guest)
              ]

    pub perform-unseen :
        (lower : ℕ → ℕ) (c : Change)
        → Ensures (λ d. restrict v d ≡ restrict v db) (perform lower s c db)
    unfolding perform
    perform-unseen lower (budget_set input) = after-Keeps _ (set_budget-Unseen input)
    perform-unseen lower (category_saved id name create) =
        after-Keeps _ (save_budget_category-Unseen lower id name create)
    perform-unseen lower (category_deleted id) = after-Keeps _ (delete_budget_category-Unseen id)
    perform-unseen lower (vendor_saved id input create) =
        after-Keeps _ (save_vendor-Unseen id input create)
    perform-unseen lower (vendor_deleted id) = after-Keeps _ (delete_vendor-Unseen id)
    perform-unseen lower (expense_saved id input create) =
        after-Keeps _ (save_expense-Unseen id input create)
    perform-unseen lower (expense_deleted id) = after-Keeps _ (delete_expense-Unseen id)
    perform-unseen lower (item_saved id input create) =
        after-Keeps _ (save_run_sheet_item-Unseen id input create)
    perform-unseen lower (item_deleted id) = after-Keeps _ (delete_run_sheet_item-Unseen id)
    perform-unseen lower (table_saved id input create) =
        after-Keeps _ (save_seating_table-Unseen lower id input create)
    perform-unseen lower (table_deleted id) = after-Keeps _ (delete_seating_table-Unseen id)
    perform-unseen lower (seat_assigned g table_id) =
        after-Keeps _ (assign_seating-Unseen g table_id)
