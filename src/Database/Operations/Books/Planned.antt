-- ===== src/Database/Operations/Books/Planned.antt =====
-- The budget and its categories, with the books in order.
use lovechapter.Prelude.{
  ℕ, ◌≡◌, refl, Bool, true, false, ◌&&◌, ◌||◌, not, Option, none, some, List, inl, inr, arith, ◌==◌,
  any, Bool-cases, leb,
}
use lovechapter.Prelude.Result.{Ensures-bind, Ensures-ok, Ensures-self, Ensures-then}
use lovechapter.Auth.Tables.{update_where, delete_where, first_where}
use lovechapter.Database.Rows.{Scope, BudgetRow, CategoryRow, ExpenseRow, Database, refers_to}
use lovechapter.Database.Operations.{authorized, count_where}
use lovechapter.Database.Operations.Steps.{Keeps, Ensures-row}
use lovechapter.Database.Operations.Budget.{
  BudgetInput, budget_of, put_budget, with_input, may_set, set_budget, category_at, category_named,
  save_budget_category, in_category, delete_budget_category,
}
use lovechapter.Database.Operations.Costs.{category_known, vendor_known}
use lovechapter.Database.Operations.Books.{
  IsCharged, IsQuoted, IsBooked, IsConsistent, All-map, All-update_where, any-update_where,
  any-delete_where, IsSeated-same, IsCharged-grow, IsQuoted-grow,
}

grown-IsBooked :
    (db : Database) (budgets : List BudgetRow) (categories : List CategoryRow)
    → ((w : ℕ) → any (budget_of w) db.budgets ≡ true → any (budget_of w) budgets ≡ true)
    → ((w : ℕ) (id : ℕ)
        → any (category_at w id) db.categories ≡ true
        → any (category_at w id) categories ≡ true)
    → IsBooked db
    → IsBooked (record db { budgets = budgets; categories = categories })
grown-IsBooked db budgets categories b c h =
    let after : Database = record db { budgets = budgets; categories = categories } in
    record {
      expenses =
          All-map (IsCharged db) (IsCharged after) (IsCharged-grow db after b c (λ w id at. at))
            db.expenses h.expenses;
      vendors =
          All-map (IsQuoted db) (IsQuoted after)
            (λ r. IsQuoted-grow db after b r.wedding_id r.quote_minor) db.vendors h.vendors;
    }

any_update_budget :
    (w v : ℕ) (input : BudgetInput) (l : List BudgetRow)
    → any (budget_of v) (update_where (budget_of w) (with_input input) l) ≡ any (budget_of v) l
any_update_budget w v input l =
    any-update_where (budget_of v) (budget_of w) (with_input input) (λ a. refl) l

put_budget-any :
    (w v : ℕ) (input : BudgetInput) (db : Database) (o : Option BudgetRow)
    → any (budget_of v) db.budgets ≡ true
    → any (budget_of v) (put_budget w input db o).1 ≡ true
put_budget-any w v input db none h = ground arith
put_budget-any w v input db (some b) h = elim (Bool-cases (may_set w input.currency db b)) [
  | inl e ↦ rw (e, any_update_budget w v input db.budgets) h
  | inr e ↦ rw e h
]

pub set_budget-IsConsistent :
    (s : Scope) (input : BudgetInput) (db : Database)
    → IsConsistent db
    → Keeps IsConsistent (set_budget s input db)
unfolding set_budget
set_budget-IsConsistent s input db h =
    let w : ℕ = s.wedding_id in
    let put = put_budget w input db (first_where (budget_of w) db.budgets) in
    Ensures-bind _ _ (Ensures-self (authorized s db)) λ _ _. Ensures-then (not put.0) _ _ λ _.
      Ensures-ok (λ p. IsConsistent p.1) _
        (record {
          seated = IsSeated-same db _ _ _ _ _ _ _ h.seated;
          booked =
              grown-IsBooked db put.1 db.categories
                (λ v. put_budget-any w v input db (first_where (budget_of w) db.budgets))
                (λ v id at. at) h.booked;
        })

renamed_any :
    (w id name v i : ℕ) (l : List CategoryRow)
    → any (category_at v i) l ≡ true
    → any (category_at v i) (update_where (category_at w id) (λ c. record c { name = name }) l)
      ≡ true
renamed_any w id name v i l h =
    rw
      (any-update_where (category_at v i) (category_at w id) (λ c. record c { name = name })
        (λ a. refl) l)
      h

pub save_budget_category-IsConsistent :
    (lower : ℕ → ℕ) (s : Scope) (id name : ℕ) (create : Bool) (db : Database)
    → IsConsistent db
    → Keeps IsConsistent (save_budget_category lower s id name create db)
unfolding save_budget_category
save_budget_category-IsConsistent lower s id name true db h =
    Ensures-bind _ _ (Ensures-self (authorized s db)) λ _ _.
      Ensures-then
        (leb 100 (count_where (λ (c : CategoryRow). c.wedding_id == s.wedding_id) db.categories)) _
        _
        λ _.
          Ensures-then
            (any (category_at s.wedding_id id) db.categories
              || any (category_named lower s.wedding_id id name) db.categories)
            _ _
            λ _.
              Ensures-ok (λ p. IsConsistent p.1) _
                (record {
                  seated = IsSeated-same db _ _ _ _ _ _ _ h.seated;
                  booked =
                      grown-IsBooked db db.budgets _ (λ v at. at) (λ v i at. ground arith) h.booked;
                })
save_budget_category-IsConsistent lower s id name false db h =
    let w : ℕ = s.wedding_id in
    Ensures-bind _ _ (Ensures-self (authorized s db)) λ _ _.
      Ensures-row "Budget category not found"
        (first_where (category_at s.wedding_id id) db.categories) _
        λ _ _. Ensures-then (any (category_named lower s.wedding_id id name) db.categories) _ _ λ _.
          Ensures-ok (λ p. IsConsistent p.1) _
            (record {
              seated = IsSeated-same db _ _ _ _ _ _ _ h.seated;
              booked =
                  grown-IsBooked db db.budgets _ (λ v at. at)
                    (λ v i at. renamed_any w id name v i db.categories at) h.booked;
            })

vendor_same :
    (v : ℕ) (o : Option ℕ) (db after : Database)
    → after.vendors ≡ db.vendors
    → vendor_known v o db ≡ true
    → vendor_known v o after ≡ true
vendor_same v none db after e h = refl
vendor_same v (some i) db after e h = rw e h

forgotten-IsCharged :
    (w id : ℕ) (db after : Database) (e : ExpenseRow)
    → after.budgets ≡ db.budgets
    → after.vendors ≡ db.vendors
    → IsCharged db e
    → IsCharged after (record e { category_id = none })
forgotten-IsCharged w id db after e b v h = record {
  budget = rw b h.budget;
  category = refl;
  vendor = vendor_same e.wedding_id e.vendor_id db after v h.vendor;
}

other_category :
    (w id v : ℕ) (o : Option ℕ) (db after : Database)
    → after.categories ≡ delete_where (category_at w id) db.categories
    → (v == w && refers_to o id) ≡ false
    → category_known v o db ≡ true
    → category_known v o after ≡ true
other_category w id v none db after d e h = refl
other_category w id v (some i) db after d e h =
    rw
      (
        d,
        any-delete_where (category_at v i) (category_at w id) (λ a at. ground arith) db.categories,
      )
      h

-- The foreign key of the expenses is set to null.
uncategorised-IsBooked :
    (w id : ℕ) (db : Database)
    → IsBooked db
    → IsBooked (record db {
      expenses = update_where (in_category w id) (λ e. record e { category_id = none }) db.expenses;
      categories = delete_where (category_at w id) db.categories;
    })
uncategorised-IsBooked w id db h =
    let after : Database = record db {
      expenses = update_where (in_category w id) (λ e. record e { category_id = none }) db.expenses;
      categories = delete_where (category_at w id) db.categories;
    } in
    record {
      expenses =
          All-update_where (IsCharged db) (IsCharged after) (in_category w id)
            (λ e. record e { category_id = none })
            (λ e at k. forgotten-IsCharged w id db after e refl refl k)
            (λ e at k. record {
              budget = k.budget;
              category = other_category w id e.wedding_id e.category_id db after refl at k.category;
              vendor = vendor_same e.wedding_id e.vendor_id db after refl k.vendor;
            })
            db.expenses h.expenses;
      vendors = h.vendors;
    }

pub delete_budget_category-IsConsistent :
    (s : Scope) (id : ℕ) (db : Database)
    → IsConsistent db
    → Keeps IsConsistent (delete_budget_category s id db)
unfolding delete_budget_category
delete_budget_category-IsConsistent s id db h =
    Ensures-bind _ _ (Ensures-self (authorized s db)) λ _ _.
      Ensures-row "Budget category not found"
        (first_where (category_at s.wedding_id id) db.categories) _
        λ _ _.
          Ensures-ok (λ p. IsConsistent p.1) _
            (record {
              seated = IsSeated-same db _ _ _ _ _ _ _ h.seated;
              booked = uncategorised-IsBooked s.wedding_id id db h.booked;
            })
