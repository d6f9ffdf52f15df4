-- ===== src/Database/Operations/Budget/Currency.antt =====
-- The currency of a wedding's amounts, and the budget that is read back.
use lovechapter.Prelude.{
  ℕ, ◌≡◌, ◌≤◌, refl, Bool, true, false, ◌||◌, not, Option, none, some, List, [], ◌∷◌, inl, inr,
  arith, ◌==◌, any, ltb, Bool-cases,
}
use lovechapter.Prelude.Result.{ok, Ensures-bind, Ensures-ok, Ensures-self, Ensures-then}
use lovechapter.Auth.Tables.{update_where, first_where}
use lovechapter.Database.Rows.{Scope, BudgetRow, Database}
use lovechapter.Database.Operations.{authorized, has_wedding, is_member}
use lovechapter.Database.Operations.Steps.{Keeps}
use lovechapter.Database.Operations.Budget.{
  BudgetInput, budget_of, expense_of, quoted_of, may_set, with_input, put_budget, set_budget,
  total_planned, total_paid, max_safe, difference, BudgetOverview, get_budget_overview,
}

-- The wedding has amounts in its currency.
abbrev pub has_amounts : ℕ → Database → Bool
has_amounts v db = any (expense_of v) db.expenses || any (quoted_of v) db.vendors

abbrev pub currency_of : Option BudgetRow → Option ℕ
currency_of none = none
currency_of (some b) = some b.currency

abbrev mapped {ℓ} : {A : Type ℓ} → (A → A) → Option A → Option A
mapped f none = none
mapped f (some a) = some (f a)

module _ {ℓ} {A : Type ℓ} (p : A → Bool) (f : A → A) where
  first-update_where :
      ((a : A) → p (f a) ≡ p a)
      → (l : List A) → first_where p (update_where p f l) ≡ mapped f (first_where p l)
  first-update_where same [] = refl
  first-update_where same (a ∷ l) = elim (Bool-cases (p a)) [
    | inl e ↦ rw (e, same a, e) refl
    | inr e ↦ rw (e, e) (first-update_where same l)
  ]

  first_other-update_where :
      (q : A → Bool)
      → ((a : A) → p a ≡ true → q a ≡ false)
      → ((a : A) → q (f a) ≡ q a)
      → (l : List A) → first_where q (update_where p f l) ≡ first_where q l
  first_other-update_where q other same [] = refl
  first_other-update_where q other same (a ∷ l) = elim (Bool-cases (p a)) [
    | inl e ↦ rw (e, same a, other a e) (first_other-update_where q other same l)
    | inr e ↦ rw (e, first_other-update_where q other same l) refl
  ]

-- Where a budget is put in another wedding, this one keeps its budget.
first-put_budget :
    (w v : ℕ) (input : BudgetInput) (db : Database) (o : Option BudgetRow)
    → (w == v) ≡ false
    → first_where (budget_of v) (put_budget w input db o).1 ≡ first_where (budget_of v) db.budgets
first-put_budget w v input db none n = rw n refl
first-put_budget w v input db (some b) n = elim (Bool-cases (may_set w input.currency db b)) [
  | inl e ↦ rw e (
      first_other-update_where (budget_of w) (with_input input) (budget_of v) (λ a at. ground arith)
        (λ a. refl) db.budgets)
  | inr e ↦ rw e refl
]

put_budget-first :
    (w : ℕ) (input : BudgetInput) (db : Database) (b : BudgetRow)
    → first_where (budget_of w) db.budgets ≡ some b
    → (put_budget w input db (some b)).0 ≡ true
    → first_where (budget_of w) (put_budget w input db (some b)).1 ≡ some (with_input input b)
put_budget-first w input db b at done = elim (Bool-cases (may_set w input.currency db b)) [
  | inl e ↦
      rw (e, first-update_where (budget_of w) (with_input input) (λ a. refl) db.budgets, at) refl
  | inr e ↦ absurd (cc)
]

same_currency :
    (w currency : ℕ) (db : Database) (b : BudgetRow)
    → has_amounts w db ≡ true
    → may_set w currency db b ≡ true
    → currency ≡ b.currency
unfolding may_set
same_currency w currency db b amounts may = ground arith

put_budget-done :
    (w : ℕ) (input : BudgetInput) (db : Database) (b : BudgetRow)
    → (put_budget w input db (some b)).0 ≡ true
    → may_set w input.currency db b ≡ true
put_budget-done w input db b done = ground arith

put_budget-currency_of :
    (w v : ℕ) (input : BudgetInput) (db : Database) (b : BudgetRow)
    → w ≡ v
    → first_where (budget_of v) db.budgets ≡ some b
    → has_amounts v db ≡ true
    → (put_budget w input db (first_where (budget_of w) db.budgets)).0 ≡ true
    → currency_of
        (first_where (budget_of v) (put_budget w input db (first_where (budget_of w) db.budgets)).1)
      ≡ some b.currency
put_budget-currency_of w v input db b here at amounts done =
    let kept : (put_budget v input db (some b)).0 ≡ true = rw (here, at) at done in
    rw
      (
        here,
        at,
        put_budget-first v input db b at kept,
        same_currency v input.currency db b amounts (put_budget-done v input db b kept),
      )
      refl

-- No call of `setBudget`, for whichever wedding, changes the currency of a wedding that has an expense or
-- a vendor with a quote.
pub set_budget-currency_of :
    (s : Scope) (input : BudgetInput) (db : Database) (v : ℕ) (b : BudgetRow)
    → first_where (budget_of v) db.budgets ≡ some b
    → has_amounts v db ≡ true
    → Keeps
        (λ d. currency_of (first_where (budget_of v) d.budgets) ≡ some b.currency)
        (set_budget s input db)
unfolding set_budget
set_budget-currency_of s input db v b at amounts =
    let w : ℕ = s.wedding_id in
    let o = first_where (budget_of w) db.budgets in
    Ensures-bind _ _ (Ensures-self (authorized s db)) λ _ _.
      Ensures-then (not (put_budget w input db o).0) _ _ λ done.
        Ensures-ok (λ p. currency_of (first_where (budget_of v) p.1.budgets) ≡ some b.currency) _
          (elim (Bool-cases (w == v)) [
            | inl here ↦
                put_budget-currency_of w v input db b (ground arith) at amounts (ground arith)
            | inr there ↦ rw (first-put_budget w v input db o there, at) refl
          ])

abbrev pub input_of : Option BudgetRow → Option BudgetInput
input_of none = none
input_of (some b) = some (record { currency = b.currency; target_minor = b.target_minor })

put_budget-input_of :
    (w : ℕ) (input : BudgetInput) (db : Database) (o : Option BudgetRow)
    → first_where (budget_of w) db.budgets ≡ o
    → (put_budget w input db o).0 ≡ true
    → input_of (first_where (budget_of w) (put_budget w input db o).1) ≡ some input
put_budget-input_of w input db none at done = ground arith
put_budget-input_of w input db (some b) at done = rw (put_budget-first w input db b at done) refl

read_back :
    (s : Scope) (d : Database)
    → has_wedding s d ≡ true
    → total_planned s.wedding_id d.expenses ≤ max_safe
    → total_paid s.wedding_id d.expenses ≤ max_safe
    → (o : BudgetOverview) × (get_budget_overview s d ≡ ok o)
      × (o.budget ≡ first_where (budget_of s.wedding_id) d.budgets)
      × (o.planned_minor ≡ total_planned s.wedding_id d.expenses)
      × (o.paid_minor ≡ total_paid s.wedding_id d.expenses)
unfolding get_budget_overview
read_back s d h planned paid =
    let a = total_planned s.wedding_id d.expenses in
    let b = total_paid s.wedding_id d.expenses in
    let safe : (ltb max_safe a || ltb max_safe b) ≡ false = ground arith in
    (
      record {
        budget = first_where (budget_of s.wedding_id) d.budgets;
        planned_minor = a;
        paid_minor = b;
        remaining_minor = difference a b;
      },
      rw (h, safe) refl,
      refl,
      refl,
      refl,
    )

-- A member who sets the budget reads the same currency and target back, with the totals of the expenses
-- that were there, as long as the totals are safe integers.
pub set_budget-get_budget_overview :
    (s : Scope) (input : BudgetInput) (db : Database)
    → total_planned s.wedding_id db.expenses ≤ max_safe
    → total_paid s.wedding_id db.expenses ≤ max_safe
    → Keeps
        (λ d.
          (o : BudgetOverview) × (get_budget_overview s d ≡ ok o)
          × (input_of o.budget ≡ some input)
          × (o.planned_minor ≡ total_planned s.wedding_id db.expenses)
          × (o.paid_minor ≡ total_paid s.wedding_id db.expenses))
        (set_budget s input db)
unfolding set_budget has_wedding is_member
set_budget-get_budget_overview s input db planned paid =
    let w : ℕ = s.wedding_id in
    let o = first_where (budget_of w) db.budgets in
    Ensures-then (not (has_wedding s db)) _ _ λ member.
      Ensures-then (not (put_budget w input db o).0) _ _ λ done.
        Ensures-ok
          (λ p.
            (o : BudgetOverview) × (get_budget_overview s p.1 ≡ ok o)
            × (input_of o.budget ≡ some input)
            × (o.planned_minor ≡ total_planned s.wedding_id db.expenses)
            × (o.paid_minor ≡ total_paid s.wedding_id db.expenses))
          _
          (let r =
              read_back s (record db { budgets = (put_budget w input db o).1 }) (ground arith)
                planned paid in
            (r.0, r.1, rw (r.2) (put_budget-input_of w input db o refl (ground arith)), r.3, r.4))
