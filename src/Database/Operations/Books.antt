-- ===== src/Database/Operations/Books.antt =====
-- What the budget, the vendors and the expenses of a wedding owe one another.
pub mod Planned
pub mod Charged
use lovechapter.Prelude.{
  ℕ, ◌≡◌, refl, Bool, true, false, ◌&&◌, ◌||◌, Option, none, some, List, [], ◌∷◌, inl, inr, arith,
  All, ◌==◌, any, Bool-cases,
}
use lovechapter.Auth.Tables.{update_where, delete_where}
use lovechapter.Database.Rows.{
  BudgetRow, CategoryRow, VendorRow, ExpenseRow, Database, keyed, refers_to, TableRow, SeatRow,
  GuestRow, MemberRow, RunSheetRow,
}
use lovechapter.Database.Operations.Budget.{budget_of, category_at}
use lovechapter.Database.Operations.Costs.{
  has_budget, quote_allowed, category_known, vendor_known, vendor_at,
}
use lovechapter.Database.Operations.Seating.Reserved.{IsSeated}

-- The wedding of an expense has a budget, and its category and its vendor are there.
pub record IsCharged (db : Database) (e : ExpenseRow) : Type 0 where
  pub budget : has_budget e.wedding_id db ≡ true
  pub category : category_known e.wedding_id e.category_id db ≡ true
  pub vendor : vendor_known e.wedding_id e.vendor_id db ≡ true

-- A vendor has a quote only in a wedding that has a budget, which gives the currency.
abbrev pub IsQuoted : Database → VendorRow → Type 0
IsQuoted db v = quote_allowed v.wedding_id v.quote_minor db ≡ true

pub record IsBooked (db : Database) : Type 0 where
  pub expenses : All (IsCharged db) db.expenses
  pub vendors : All (IsQuoted db) db.vendors

pub record IsConsistent (db : Database) : Type 0 where
  pub seated : IsSeated db
  pub booked : IsBooked db

module _ {ℓ κ μ} {A : Type ℓ} (P : A → Type κ) (Q : A → Type μ) where
  pub All-map : ((a : A) → P a → Q a) → (l : List A) → All P l → All Q l
  All-map w [] h = tt
  All-map w (a ∷ l) h = (w a h.0, All-map w l h.1)

  pub All-update_where :
      (p : A → Bool) (f : A → A)
      → ((a : A) → p a ≡ true → P a → Q (f a))
      → ((a : A) → p a ≡ false → P a → Q a)
      → (l : List A) → All P l
      → All Q (update_where p f l)
  All-update_where p f hit miss [] h = tt
  All-update_where p f hit miss (a ∷ l) h = elim (Bool-cases (p a)) [
    | inl e ↦ rw e (hit a e h.0, All-update_where p f hit miss l h.1)
    | inr e ↦ rw e (miss a e h.0, All-update_where p f hit miss l h.1)
  ]

  pub All-delete_where :
      (p : A → Bool)
      → ((a : A) → p a ≡ false → P a → Q a)
      → (l : List A) → All P l
      → All Q (delete_where p l)
  All-delete_where p kept [] h = tt
  All-delete_where p kept (a ∷ l) h = elim (Bool-cases (p a)) [
    | inl e ↦ rw e (All-delete_where p kept l h.1)
    | inr e ↦ rw e (kept a e h.0, All-delete_where p kept l h.1)
  ]

module _ {ℓ} {A : Type ℓ} (q : A → Bool) where
  pub any-update_where :
      (p : A → Bool) (f : A → A)
      → ((a : A) → q (f a) ≡ q a)
      → (l : List A) → any q (update_where p f l) ≡ any q l
  any-update_where p f same [] = refl
  any-update_where p f same (a ∷ l) = ground (arith, same a, any-update_where p f same l)

  pub any-delete_where :
      (p : A → Bool)
      → ((a : A) → p a ≡ true → q a ≡ false)
      → (l : List A) → any q (delete_where p l) ≡ any q l
  any-delete_where p other [] = refl
  any-delete_where p other (a ∷ l) = ground (arith, other a, any-delete_where p other l)

-- The seats stay as they are where only the other tables change.
pub IsSeated-same :
    (db : Database) (weddings : List ℕ) (members : List MemberRow) (budgets : List BudgetRow)
    (categories : List CategoryRow) (vendors : List VendorRow) (expenses : List ExpenseRow)
    (run_sheet : List RunSheetRow)
    → IsSeated db
    → IsSeated (record {
      weddings = weddings;
      members = members;
      budgets = budgets;
      categories = categories;
      vendors = vendors;
      expenses = expenses;
      run_sheet = run_sheet;
      tables = db.tables;
      seats = db.seats;
      guests = db.guests;
    })
IsSeated-same db _ _ _ _ _ _ _ h = record { unique = h.unique; fits = h.fits; placed = h.placed }

-- More is known than before: the rows that were in order are in order.
module _ (before after : Database)
    (budgets : (w : ℕ) → has_budget w before ≡ true → has_budget w after ≡ true)
    (categories : (w : ℕ) (id : ℕ)
      → any (category_at w id) before.categories ≡ true
      → any (category_at w id) after.categories ≡ true)
    (vendors : (w : ℕ) (id : ℕ)
      → any (vendor_at w id) before.vendors ≡ true
      → any (vendor_at w id) after.vendors ≡ true) where
  known_category :
      (w : ℕ) (c : Option ℕ) → category_known w c before ≡ true → category_known w c after ≡ true
  known_category w none h = refl
  known_category w (some c) h = categories w c h

  known_vendor :
      (w : ℕ) (v : Option ℕ) → vendor_known w v before ≡ true → vendor_known w v after ≡ true
  known_vendor w none h = refl
  known_vendor w (some v) h = vendors w v h

  pub IsCharged-grow : (e : ExpenseRow) → IsCharged before e → IsCharged after e
  IsCharged-grow e h = record {
    budget = budgets e.wedding_id h.budget;
    category = known_category e.wedding_id e.category_id h.category;
    vendor = known_vendor e.wedding_id e.vendor_id h.vendor;
  }

pub IsQuoted-grow :
    (before after : Database)
    → ((w : ℕ) → has_budget w before ≡ true → has_budget w after ≡ true)
    → (w : ℕ) (quote : Option ℕ) → quote_allowed w quote before ≡ true
    → quote_allowed w quote after ≡ true
IsQuoted-grow before after budgets w none h = refl
IsQuoted-grow before after budgets w (some m) h = budgets w h
