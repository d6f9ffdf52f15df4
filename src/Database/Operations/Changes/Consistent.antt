-- ===== src/Database/Operations/Changes/Consistent.antt =====
-- Consistency under every method and every sequence of calls.
use lovechapter.Prelude.{
  ℕ, refl, Bool, true, false, Option, none, some, List, [], ◌∷◌, inl, inr, any, Bool-cases, leb,
  ltb, ◌+◌, ◌||◌, ◌==◌,
}
use lovechapter.Prelude.Result.{
  Result, ok, err, Ensures, ensures, ensured, Ensures-bind, Ensures-ok, Ensures-self, Ensures-then,
}
use lovechapter.Auth.Tables.{first_where}
use lovechapter.Database.Rows.{
  Scope, TableRow, SeatRow, GuestRow, RunSheetRow, RunSheetDetails, Database,
}
use lovechapter.Database.Operations.{authorized, count_where}
use lovechapter.Database.Operations.Steps.{Keeps, Ensures-row}
use lovechapter.Database.Operations.RunSheet.{item_at, save_run_sheet_item, delete_run_sheet_item}
use lovechapter.Database.Operations.Seating.{
  SeatingTableInput, reserved, table_at, guest_at, seat_of, name_taken, same_table, change_seat,
  lock_old, check_guest, save_seating_table, delete_seating_table, assign_seating,
}
use lovechapter.Database.Operations.Seating.Reserved.{IsSeated}
use lovechapter.Database.Operations.Seating.Tables.{
  save_seating_table-IsSeated, delete_seating_table-IsSeated,
}
use lovechapter.Database.Operations.Seating.Laws.{assign_seating-IsSeated}
use lovechapter.Database.Operations.Books.{
  IsCharged, IsQuoted, IsBooked, IsConsistent, All-map, IsSeated-same, IsCharged-grow,
  IsQuoted-grow,
}
use lovechapter.Database.Operations.Books.Planned.{
  set_budget-IsConsistent, save_budget_category-IsConsistent, delete_budget_category-IsConsistent,
}
use lovechapter.Database.Operations.Books.Charged.{
  save_vendor-IsConsistent, delete_vendor-IsConsistent, save_expense-IsConsistent,
  delete_expense-IsConsistent,
}
use lovechapter.Database.Operations.Changes.{
  Change, budget_set, category_saved, category_deleted, vendor_saved, vendor_deleted, expense_saved,
  expense_deleted, item_saved, item_deleted, table_saved, table_deleted, seat_assigned, after,
  perform, settle, run_changes,
}

pub after-Keeps {ℓ} :
    {P : Database → Type ℓ} {A : Type 0} (r : Result (A × Database))
    → Keeps P r
    → Ensures P (after r)
after-Keeps (err e) h = ensures (λ a k. absurd (cc))
after-Keeps {P} (ok p) h = Ensures-ok P p.1 (ensured h refl)

Keeps-both :
    {A : Type 0} (r : Result (A × Database))
    → Keeps IsBooked r
    → Keeps IsSeated r
    → Keeps IsConsistent r
Keeps-both r b s = ensures (λ p e. record { seated = ensured s e; booked = ensured b e })

-- Where the tables and seats alone change, or the run sheet, the books stay as they are.
IsBooked-same :
    (db : Database) (tables : List TableRow) (seats : List SeatRow) (run_sheet : List RunSheetRow)
    → IsBooked db
    → IsBooked (record db { tables = tables; seats = seats; run_sheet = run_sheet })
IsBooked-same db tables seats run_sheet h =
    let then_db : Database = record db { tables = tables; seats = seats; run_sheet = run_sheet } in
    record {
      expenses =
          All-map (IsCharged db) (IsCharged then_db)
            (IsCharged-grow db then_db (λ w at. at) (λ w id at. at) (λ w id at. at)) db.expenses
            h.expenses;
      vendors =
          All-map (IsQuoted db) (IsQuoted then_db)
            (λ v. IsQuoted-grow db then_db (λ w at. at) v.wedding_id v.quote_minor) db.vendors
            h.vendors;
    }

save_seating_table-IsBooked :
    (lower : ℕ → ℕ) (s : Scope) (id : ℕ) (input : SeatingTableInput) (create : Bool) (db : Database)
    → IsBooked db
    → Keeps IsBooked (save_seating_table lower s id input create db)
unfolding save_seating_table
save_seating_table-IsBooked lower s id input true db h =
    let w : ℕ = s.wedding_id in
    Ensures-bind _ _ (Ensures-self (authorized s db)) λ _ _.
      Ensures-then (leb 100 (count_where (λ (t : TableRow). t.wedding_id == w) db.tables)) _ _ λ _.
        Ensures-then
          (any (table_at w id) db.tables || any (name_taken lower w id input.name) db.tables) _ _
          λ _. Ensures-ok (λ p. IsBooked p.1) _ (IsBooked-same db _ db.seats db.run_sheet h)
save_seating_table-IsBooked lower s id input false db h =
    let w : ℕ = s.wedding_id in
    Ensures-bind _ _ (Ensures-self (authorized s db)) λ _ _.
      Ensures-row "Table not found" (first_where (table_at w id) db.tables) _ λ _ _.
        Ensures-then (ltb input.capacity (reserved w id db.guests db.seats)) _ _ λ _.
          Ensures-then (any (name_taken lower w id input.name) db.tables) _ _
            λ _. Ensures-ok (λ p. IsBooked p.1) _ (IsBooked-same db _ db.seats db.run_sheet h)

delete_seating_table-IsBooked :
    (s : Scope) (id : ℕ) (db : Database)
    → IsBooked db
    → Keeps IsBooked (delete_seating_table s id db)
unfolding delete_seating_table
delete_seating_table-IsBooked s id db h = Ensures-bind _ _ (Ensures-self (authorized s db)) λ _ _.
    Ensures-row "Table not found" (first_where (table_at s.wedding_id id) db.tables) _
      λ _ _. Ensures-ok (λ p. IsBooked p.1) _ (IsBooked-same db _ _ db.run_sheet h)

change_seat-IsBooked :
    (w g : ℕ) (old : Option SeatRow) (new : Option ℕ) (guest : GuestRow) (db : Database)
    → IsBooked db
    → Keeps IsBooked (change_seat w g old new guest db)
change_seat-IsBooked w g old none guest db h =
    Ensures-bind _ _ (Ensures-self (lock_old w old db))
      λ _ _. Ensures-ok (λ p. IsBooked p.1) _ (IsBooked-same db db.tables _ db.run_sheet h)
change_seat-IsBooked w g old (some t) guest db h =
    Ensures-bind _ _ (Ensures-self (lock_old w old db)) λ _ _.
      Ensures-row "Table not found" (first_where (table_at w t) db.tables) _ λ row _.
        Ensures-then (ltb row.capacity (reserved w t db.guests db.seats + guest.allowed_party_size))
          _ _ λ _. Ensures-ok (λ p. IsBooked p.1) _ (IsBooked-same db db.tables _ db.run_sheet h)

assign_seating-IsBooked :
    (s : Scope) (g : ℕ) (table_id : Option ℕ) (db : Database)
    → IsBooked db
    → Keeps IsBooked (assign_seating s g table_id db)
unfolding assign_seating
assign_seating-IsBooked s g table_id db h =
    let w : ℕ = s.wedding_id in
    Ensures-bind _ _ (Ensures-self (authorized s db)) λ _ _.
      Ensures-row "Guest not found" (first_where (guest_at w g) db.guests) _ λ guest _.
        Ensures-bind _ _ (Ensures-self (check_guest table_id guest)) λ _ _.
          let old = first_where (seat_of w g) db.seats in
          elim (Bool-cases (same_table old table_id)) [
            | inl same ↦ rw same (Ensures-ok (λ p. IsBooked p.1) _ h)
            | inr other ↦ rw other (change_seat-IsBooked w g old table_id guest db h)
          ]

scheduled :
    (db : Database) (run_sheet : List RunSheetRow)
    → IsConsistent db
    → IsConsistent (record db { run_sheet = run_sheet })
scheduled db run_sheet h = record {
  seated = IsSeated-same db _ _ _ _ _ _ _ h.seated;
  booked = IsBooked-same db db.tables db.seats run_sheet h.booked;
}

save_run_sheet_item-IsConsistent :
    (s : Scope) (id : ℕ) (input : RunSheetDetails) (create : Bool) (db : Database)
    → IsConsistent db
    → Keeps IsConsistent (save_run_sheet_item s id input create db)
unfolding save_run_sheet_item
save_run_sheet_item-IsConsistent s id input true db h =
    Ensures-bind _ _ (Ensures-self (authorized s db)) λ _ _.
      Ensures-then (any (item_at s.wedding_id id) db.run_sheet) _ _
        λ _. Ensures-ok (λ p. IsConsistent p.1) _ (scheduled db _ h)
save_run_sheet_item-IsConsistent s id input false db h =
    Ensures-bind _ _ (Ensures-self (authorized s db)) λ _ _.
      Ensures-row "Schedule item not found" (first_where (item_at s.wedding_id id) db.run_sheet) _
        λ _ _. Ensures-ok (λ p. IsConsistent p.1) _ (scheduled db _ h)

delete_run_sheet_item-IsConsistent :
    (s : Scope) (id : ℕ) (db : Database)
    → IsConsistent db
    → Keeps IsConsistent (delete_run_sheet_item s id db)
unfolding delete_run_sheet_item
delete_run_sheet_item-IsConsistent s id db h =
    Ensures-bind _ _ (Ensures-self (authorized s db)) λ _ _.
      Ensures-row "Schedule item not found" (first_where (item_at s.wedding_id id) db.run_sheet) _
        λ _ _. Ensures-ok (λ p. IsConsistent p.1) _ (scheduled db _ h)

pub perform-IsConsistent :
    (lower : ℕ → ℕ) (s : Scope) (c : Change) (db : Database)
    → IsConsistent db
    → Ensures IsConsistent (perform lower s c db)
unfolding perform
perform-IsConsistent lower s (budget_set input) db h =
    after-Keeps _ (set_budget-IsConsistent s input db h)
perform-IsConsistent lower s (category_saved id name create) db h =
    after-Keeps _ (save_budget_category-IsConsistent lower s id name create db h)
perform-IsConsistent lower s (category_deleted id) db h =
    after-Keeps _ (delete_budget_category-IsConsistent s id db h)
perform-IsConsistent lower s (vendor_saved id input create) db h =
    after-Keeps _ (save_vendor-IsConsistent s id input create db h)
perform-IsConsistent lower s (vendor_deleted id) db h =
    after-Keeps _ (delete_vendor-IsConsistent s id db h)
perform-IsConsistent lower s (expense_saved id input create) db h =
    after-Keeps _ (save_expense-IsConsistent s id input create db h)
perform-IsConsistent lower s (expense_deleted id) db h =
    after-Keeps _ (delete_expense-IsConsistent s id db h)
perform-IsConsistent lower s (item_saved id input create) db h =
    after-Keeps _ (save_run_sheet_item-IsConsistent s id input create db h)
perform-IsConsistent lower s (item_deleted id) db h =
    after-Keeps _ (delete_run_sheet_item-IsConsistent s id db h)
perform-IsConsistent lower s (table_saved id input create) db h = after-Keeps _ (
    Keeps-both _ (save_seating_table-IsBooked lower s id input create db h.booked)
      (save_seating_table-IsSeated lower s id input create db h.seated))
perform-IsConsistent lower s (table_deleted id) db h = after-Keeps _ (
    Keeps-both _ (delete_seating_table-IsBooked s id db h.booked)
      (delete_seating_table-IsSeated s id db h.seated))
perform-IsConsistent lower s (seat_assigned g table_id) db h = after-Keeps _ (
    Keeps-both _ (assign_seating-IsBooked s g table_id db h.booked)
      (assign_seating-IsSeated s g table_id db h.seated))

settle-IsConsistent :
    (db : Database) (r : Result Database)
    → IsConsistent db
    → Ensures IsConsistent r
    → IsConsistent (settle db r)
settle-IsConsistent db (err e) h k = h
settle-IsConsistent db (ok a) h k = ensured k refl

-- After any sequence of calls by any users no table has more seats reserved than its capacity, every seat
-- is at a table that is there, every expense is in a wedding with a budget and names only a category and a
-- vendor that are there, and every quote is in a wedding with a budget, if all this holds at the start.
pub run_changes-IsConsistent :
    (lower : ℕ → ℕ) (l : List (Scope × Change)) (db : Database)
    → IsConsistent db
    → IsConsistent (run_changes lower l db)
unfolding run_changes
run_changes-IsConsistent lower [] db h = h
run_changes-IsConsistent lower (c ∷ l) db h =
    run_changes-IsConsistent lower l (settle db (perform lower c.0 c.1 db)) (
      settle-IsConsistent db (perform lower c.0 c.1 db) h (perform-IsConsistent lower c.0 c.1 db h))
