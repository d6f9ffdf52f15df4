-- ===== src/Database/Operations/Books/Charged.antt =====
-- Vendors and expenses, with the books in order.
use lovechapter.Prelude.{
  ℕ, ◌≡◌, refl, Bool, true, false, ◌&&◌, not, Option, none, some, List, arith, All, ◌==◌, any,
}
use lovechapter.Prelude.Result.{Ensures-bind, Ensures-ok, Ensures-self, Ensures-then}
use lovechapter.Auth.Tables.{update_where, delete_where, first_where}
use lovechapter.Database.Rows.{Scope, VendorRow, ExpenseRow, Database, keyed, refers_to}
use lovechapter.Database.Operations.{authorized}
use lovechapter.Database.Operations.Steps.{Keeps, Ensures-row}
use lovechapter.Database.Operations.Costs.{
  VendorInput, ExpenseInput, quote_allowed, category_known, vendor_known, vendor_at, with_vendor,
  save_vendor, of_vendor, delete_vendor, expense_at, expense_allowed, with_expense, save_expense,
  delete_expense,
}
use lovechapter.Database.Operations.Seating.Reserved.{keyed_eq}
use lovechapter.Database.Operations.Books.{
  IsCharged, IsQuoted, IsBooked, IsConsistent, All-map, All-update_where, All-delete_where,
  any-update_where, any-delete_where, IsSeated-same, IsCharged-grow,
}

sold-IsBooked :
    (db : Database) (vendors : List VendorRow)
    → ((w : ℕ) (id : ℕ)
        → any (vendor_at w id) db.vendors ≡ true
        → any (vendor_at w id) vendors ≡ true)
    → All (IsQuoted db) vendors
    → IsBooked db
    → IsBooked (record db { vendors = vendors })
sold-IsBooked db vendors grow quoted h =
    let after : Database = record db { vendors = vendors } in
    record {
      expenses =
          All-map (IsCharged db) (IsCharged after)
            (IsCharged-grow db after (λ w at. at) (λ w id at. at) grow) db.expenses h.expenses;
      vendors =
          All-map (IsQuoted db) (IsQuoted after) (λ v q. quoted_same v.wedding_id v.quote_minor q)
            vendors quoted;
    }
  where
    quoted_same :
        (w : ℕ) (q : Option ℕ)
        → quote_allowed w q db ≡ true
        → quote_allowed w q (record db { vendors = vendors }) ≡ true
    quoted_same w none q = refl
    quoted_same w (some m) q = q

quoted_here :
    (w id v i : ℕ) (q : Option ℕ) (db : Database)
    → keyed w id v i ≡ true
    → quote_allowed w q db ≡ true
    → quote_allowed v q db ≡ true
quoted_here w id v i q db e h = let k = keyed_eq w id v i e in rw (k.0) h

pub save_vendor-IsConsistent :
    (s : Scope) (id : ℕ) (input : VendorInput) (create : Bool) (db : Database)
    → IsConsistent db
    → Keeps IsConsistent (save_vendor s id input create db)
unfolding save_vendor
save_vendor-IsConsistent s id input true db h =
    let w : ℕ = s.wedding_id in
    Ensures-bind _ _ (Ensures-self (authorized s db)) λ _ _.
      Ensures-then (not (quote_allowed w input.quote_minor db)) _ _ λ allowed.
        Ensures-then (any (vendor_at w id) db.vendors) _ _ λ _.
          Ensures-ok (λ p. IsConsistent p.1) _
            (record {
              seated = IsSeated-same db _ _ _ _ _ _ _ h.seated;
              booked =
                  sold-IsBooked db _ (λ v i at. ground arith) (ground arith, h.booked.vendors)
                    h.booked;
            })
save_vendor-IsConsistent s id input false db h =
    let w : ℕ = s.wedding_id in
    Ensures-bind _ _ (Ensures-self (authorized s db)) λ _ _.
      Ensures-then (not (quote_allowed w input.quote_minor db)) _ _ λ allowed.
        Ensures-row "Vendor not found or budget currency not configured"
          (first_where (vendor_at w id) db.vendors) _
          λ _ _.
            Ensures-ok (λ p. IsConsistent p.1) _
              (record {
                seated = IsSeated-same db _ _ _ _ _ _ _ h.seated;
                booked =
                    sold-IsBooked db _ (λ v i. sold_any w id v i input db.vendors)
                      (All-update_where (IsQuoted db) (IsQuoted db) (vendor_at w id)
                        (with_vendor input)
                        (λ v at q.
                          quoted_here w id v.wedding_id v.id input.quote_minor db at (ground arith))
                        (λ v at q. q) db.vendors h.booked.vendors)
                      h.booked;
              })
  where
    sold_any :
        (w id v i : ℕ) (input : VendorInput) (l : List VendorRow)
        → any (vendor_at v i) l ≡ true
        → any (vendor_at v i) (update_where (vendor_at w id) (with_vendor input) l) ≡ true
    sold_any w id v i input l at =
        rw (any-update_where (vendor_at v i) (vendor_at w id) (with_vendor input) (λ a. refl) l) at

category_same :
    (v : ℕ) (o : Option ℕ) (db after : Database)
    → after.categories ≡ db.categories
    → category_known v o db ≡ true
    → category_known v o after ≡ true
category_same v none db after e h = refl
category_same v (some i) db after e h = rw e h

vendor_same :
    (v : ℕ) (o : Option ℕ) (db after : Database)
    → after.vendors ≡ db.vendors
    → vendor_known v o db ≡ true
    → vendor_known v o after ≡ true
vendor_same v none db after e h = refl
vendor_same v (some i) db after e h = rw e h

other_vendor :
    (w id v : ℕ) (o : Option ℕ) (db after : Database)
    → after.vendors ≡ delete_where (vendor_at w id) db.vendors
    → (v == w && refers_to o id) ≡ false
    → vendor_known v o db ≡ true
    → vendor_known v o after ≡ true
other_vendor w id v none db after d e h = refl
other_vendor w id v (some i) db after d e h =
    rw (d, any-delete_where (vendor_at v i) (vendor_at w id) (λ a at. ground arith) db.vendors) h

quoted_same :
    (w : ℕ) (q : Option ℕ) (db after : Database)
    → after.budgets ≡ db.budgets
    → quote_allowed w q db ≡ true
    → quote_allowed w q after ≡ true
quoted_same w none db after e h = refl
quoted_same w (some m) db after e h = rw e h

-- The foreign key of the expenses is set to null.
unsold-IsBooked :
    (w id : ℕ) (db : Database)
    → IsBooked db
    → IsBooked (record db {
      expenses = update_where (of_vendor w id) (λ e. record e { vendor_id = none }) db.expenses;
      vendors = delete_where (vendor_at w id) db.vendors;
    })
unsold-IsBooked w id db h =
    let after : Database = record db {
      expenses = update_where (of_vendor w id) (λ e. record e { vendor_id = none }) db.expenses;
      vendors = delete_where (vendor_at w id) db.vendors;
    } in
    record {
      expenses =
          All-update_where (IsCharged db) (IsCharged after) (of_vendor w id)
            (λ e. record e { vendor_id = none })
            (λ e at k. record {
              budget = k.budget;
              category = category_same e.wedding_id e.category_id db after refl k.category;
              vendor = refl;
            })
            (λ e at k. record {
              budget = k.budget;
              category = category_same e.wedding_id e.category_id db after refl k.category;
              vendor = other_vendor w id e.wedding_id e.vendor_id db after refl at k.vendor;
            })
            db.expenses h.expenses;
      vendors =
          All-delete_where (IsQuoted db) (IsQuoted after) (vendor_at w id)
            (λ v at q. quoted_same v.wedding_id v.quote_minor db after refl q) db.vendors h.vendors;
    }

pub delete_vendor-IsConsistent :
    (s : Scope) (id : ℕ) (db : Database)
    → IsConsistent db
    → Keeps IsConsistent (delete_vendor s id db)
unfolding delete_vendor
delete_vendor-IsConsistent s id db h = Ensures-bind _ _ (Ensures-self (authorized s db)) λ _ _.
    Ensures-row "Vendor not found" (first_where (vendor_at s.wedding_id id) db.vendors) _ λ _ _.
      Ensures-ok (λ p. IsConsistent p.1) _
        (record {
          seated = IsSeated-same db _ _ _ _ _ _ _ h.seated;
          booked = unsold-IsBooked s.wedding_id id db h.booked;
        })

-- The expenses alone change, each of them to one that is in order.
spent-IsBooked :
    (db : Database) (expenses : List ExpenseRow)
    → All (IsCharged db) expenses
    → IsBooked db
    → IsBooked (record db { expenses = expenses })
spent-IsBooked db expenses charged h =
    let after : Database = record db { expenses = expenses } in
    record {
      expenses =
          All-map (IsCharged db) (IsCharged after)
            (IsCharged-grow db after (λ w at. at) (λ w id at. at) (λ w id at. at)) expenses charged;
      vendors =
          All-map (IsQuoted db) (IsQuoted after)
            (λ v q. quoted_same v.wedding_id v.quote_minor db after refl q) db.vendors h.vendors;
    }

allowed-IsCharged :
    (w id v i : ℕ) (input : ExpenseInput) (db : Database) (e : ExpenseRow)
    → expense_allowed w input db ≡ true
    → keyed w id e.wedding_id i ≡ true
    → IsCharged db (with_expense input e)
unfolding expense_allowed
allowed-IsCharged w id v i input db e h at =
    let k = keyed_eq w id e.wedding_id i at in
    rw (k.0) (record { budget = ground arith; category = ground arith; vendor = ground arith })

pub save_expense-IsConsistent :
    (s : Scope) (id : ℕ) (input : ExpenseInput) (create : Bool) (db : Database)
    → IsConsistent db
    → Keeps IsConsistent (save_expense s id input create db)
unfolding save_expense expense_allowed
save_expense-IsConsistent s id input true db h =
    let w : ℕ = s.wedding_id in
    Ensures-bind _ _ (Ensures-self (authorized s db)) λ _ _.
      Ensures-then (not (expense_allowed w input db)) _ _ λ allowed.
        Ensures-then (any (expense_at w id) db.expenses) _ _ λ _.
          Ensures-ok (λ p. IsConsistent p.1) _
            (record {
              seated = IsSeated-same db _ _ _ _ _ _ _ h.seated;
              booked =
                  spent-IsBooked db _
                    (
                      record {
                        budget = ground arith;
                        category = ground arith;
                        vendor = ground arith;
                      },
                      h.booked.expenses,
                    )
                    h.booked;
            })
save_expense-IsConsistent s id input false db h =
    let w : ℕ = s.wedding_id in
    Ensures-bind _ _ (Ensures-self (authorized s db)) λ _ _.
      Ensures-then (not (expense_allowed w input db)) _ _ λ allowed.
        Ensures-row "Expense, budget, category, or vendor not found"
          (first_where (expense_at w id) db.expenses) _
          λ _ _.
            Ensures-ok (λ p. IsConsistent p.1) _
              (record {
                seated = IsSeated-same db _ _ _ _ _ _ _ h.seated;
                booked =
                    spent-IsBooked db _
                      (All-update_where (IsCharged db) (IsCharged db) (expense_at w id)
                        (with_expense input)
                        (λ e at k.
                          allowed-IsCharged w id e.wedding_id e.id input db e (ground arith) at)
                        (λ e at k. k) db.expenses h.booked.expenses)
                      h.booked;
              })

pub delete_expense-IsConsistent :
    (s : Scope) (id : ℕ) (db : Database)
    → IsConsistent db
    → Keeps IsConsistent (delete_expense s id db)
unfolding delete_expense
delete_expense-IsConsistent s id db h =
    let w : ℕ = s.wedding_id in
    Ensures-bind _ _ (Ensures-self (authorized s db)) λ _ _.
      Ensures-row "Expense not found" (first_where (expense_at w id) db.expenses) _ λ _ _.
        Ensures-ok (λ p. IsConsistent p.1) _
          (record {
            seated = IsSeated-same db _ _ _ _ _ _ _ h.seated;
            booked =
                spent-IsBooked db _
                  (All-delete_where (IsCharged db) (IsCharged db) (expense_at w id) (λ e at k. k)
                    db.expenses h.booked.expenses)
                  h.booked;
          })
