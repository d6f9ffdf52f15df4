-- ===== src/Domain/Operations/Laws.antt =====
-- What normalised budgets, vendors, expenses and seating tables satisfy.
use Prim.Native.String.{String}
use lovechapter.Prelude.{◌∙◌, not, ◌||◌, ℕ, ◌≤◌, ◌≡◌, refl, Option, none, some, false, arith, ◌≢◌}
use lovechapter.Prelude.Number.{
  Number, whole, integer, other, pos, negsuc, exceeds, is_integer, below, above,
}
use lovechapter.Prelude.Optional.{or_null}
use lovechapter.Prelude.Result.{
  ok, Ensures, ensured, Ensures-bind, Ensures-ok, throw_if-Ensures, invalid,
}
use lovechapter.Domain.Money.{max_minor}
use lovechapter.Domain.Money.Laws.{IsAmount, amount-Ensures}
use lovechapter.Domain.Validation.Laws.{
  IsNeat, IsNeatOption, IsDateOption, required_text-Ensures, optional_text-Ensures,
  calendar_date-Ensures,
}
use lovechapter.Domain.Operations.{
  optional_amount, VendorStatus, VendorInput, Vendor, normalize_vendor, is_unknown, ExpenseInput,
  Expense, normalize_expense, SeatingTable, normalize_seating_table,
}

-- Both amounts are those of the input, and no more is paid than planned.
pub record IsExpense (input : ExpenseInput) (e : Expense) : Type 0 where
  pub planned : ℕ
  pub paid : ℕ
  pub planned_minor : (input.planned_minor ≡ whole planned) × (e.planned_minor ≡ whole planned)
  pub paid_minor : (input.paid_minor ≡ whole paid) × (e.paid_minor ≡ whole paid)
  pub paid_le_planned : paid ≤ planned
  pub planned_le_max : planned ≤ max_minor
  pub title : IsNeat 180 e.title
  pub due_date : IsDateOption e.due_date
  pub note : IsNeatOption 2000 e.note
  pub references :
      (e.category_id ≡ or_null input.category_id) × (e.vendor_id ≡ or_null input.vendor_id)

le_of_not_exceeds : (a b : ℕ) → exceeds (whole a) (whole b) ≡ false → a ≤ b
le_of_not_exceeds a b h = ground arith

normalize_expense-Ensures :
    (input : ExpenseInput) → Ensures (IsExpense input) (normalize_expense input)
unfolding normalize_expense
normalize_expense-Ensures input =
    Ensures-bind _ _ (amount-Ensures input.planned_minor "Planned amount") λ planned hp.
      Ensures-bind _ _ (amount-Ensures input.paid_minor "Paid amount") λ paid hq.
        Ensures-bind _ _ (throw_if-Ensures (exceeds paid planned) _) λ _ le.
          Ensures-bind _ _ (required_text-Ensures "Expense title" 180 input.title) λ title ht.
            Ensures-bind _ _ (calendar_date-Ensures (invalid "Invalid date") input.due_date)
              λ due_date hd. Ensures-bind _ _ (optional_text-Ensures 2000 input.note) λ note hn.
                let p = hp.same ∙ hp.is_whole in
                let q = hq.same ∙ hq.is_whole in
                Ensures-ok (IsExpense input) _ (record {
                  planned = hp.minor;
                  paid = hq.minor;
                  planned_minor = (hp.is_whole, p);
                  paid_minor = (hq.is_whole, q);
                  paid_le_planned = le_of_not_exceeds hq.minor hp.minor (rw (p, q) at le);
                  planned_le_max = hp.bounded;
                  title = ht;
                  due_date = hd;
                  note = hn;
                  references = (refl, refl);
                })

-- A saved expense has the amounts of the input, which are whole minor units with
-- 0 ≤ paid ≤ planned ≤ 10 ^ 12; its title is trimmed and has 1 to 180 characters, its due date is
-- null or a date of the calendar, and its category and vendor are those of the input.
pub normalize_expense-IsExpense :
    (input : ExpenseInput) (e : Expense) → normalize_expense input ≡ ok e → IsExpense input e
normalize_expense-IsExpense input e h = ensured (normalize_expense-Ensures input) h

abbrev pub IsOptionalAmount : Option Number → Option Number → Type 0
IsOptionalAmount none none = Unit
IsOptionalAmount (some v) (some r) = IsAmount v r
IsOptionalAmount none (some r) = ⊥
IsOptionalAmount (some v) none = ⊥

optional_amount-Ensures :
    (label : String) (v : Option Number) → Ensures (IsOptionalAmount v) (optional_amount label v)
optional_amount-Ensures label none = Ensures-ok (IsOptionalAmount none) none tt
optional_amount-Ensures label (some v) =
    Ensures-bind _ _ (amount-Ensures v label)
      (λ r h. Ensures-ok (IsOptionalAmount (some v)) (some r) h)

pub record IsVendor (input : VendorInput) (v : Vendor) : Type 0 where
  pub known : v.status ≢ VendorStatus.unknown
  pub status : v.status ≡ input.status
  pub name : IsNeat 180 v.name
  pub contact_name : IsNeatOption 120 v.contact_name
  pub email : IsNeatOption 320 v.email
  pub phone : IsNeatOption 40 v.phone
  pub quote_minor : IsOptionalAmount input.quote_minor v.quote_minor
  pub note : IsNeatOption 2000 v.note

normalize_vendor-Ensures : (input : VendorInput) → Ensures (IsVendor input) (normalize_vendor input)
unfolding normalize_vendor
normalize_vendor-Ensures input =
    Ensures-bind _ _ (throw_if-Ensures (is_unknown input.status) _) λ _ known.
      Ensures-bind _ _ (required_text-Ensures "Vendor name" 180 input.name) λ name hn.
        Ensures-bind _ _ (optional_text-Ensures 120 input.contact_name) λ contact_name hc.
          Ensures-bind _ _ (optional_text-Ensures 320 input.email) λ email he.
            Ensures-bind _ _ (optional_text-Ensures 40 input.phone) λ phone hp.
              Ensures-bind _ _ (optional_amount-Ensures "Quote" input.quote_minor) λ quote hq.
                Ensures-bind _ _ (optional_text-Ensures 2000 input.note) λ note ht.
                  Ensures-ok (IsVendor input) _ (record {
                    known = ground arith;
                    status = refl;
                    name = hn;
                    contact_name = hc;
                    email = he;
                    phone = hp;
                    quote_minor = hq;
                    note = ht;
                  })

-- A saved vendor has the status of the input, one of the four known ones, the quote of the input
-- (null, or whole minor units up to 10 ^ 12), and trimmed texts within their limits.
pub normalize_vendor-IsVendor :
    (input : VendorInput) (v : Vendor) → normalize_vendor input ≡ ok v → IsVendor input v
normalize_vendor-IsVendor input v h = ensured (normalize_vendor-Ensures input) h

pub capacity_lem :
    (n : Number)
    → (not (is_integer n) || below n 1 || above n 100) ≡ false
    → (c : ℕ) × (n ≡ whole c) × (1 ≤ c) × (c ≤ 100)
capacity_lem (integer (pos n)) h = (n, refl, ground arith, ground arith)
capacity_lem (integer (negsuc n)) h = cc
capacity_lem other h = cc

abbrev pub IsSeatingTable : SeatingTable → SeatingTable → Type 0
IsSeatingTable input t =
    (t.capacity ≡ input.capacity)
    × ((c : ℕ) × (t.capacity ≡ whole c) × (1 ≤ c) × (c ≤ 100))
    × IsNeat 80 t.name

seating_table-Ensures :
    (input : SeatingTable) → Ensures (IsSeatingTable input) (normalize_seating_table input)
unfolding normalize_seating_table
seating_table-Ensures input = Ensures-bind _ _ (throw_if-Ensures _ _) λ _ fits.
    Ensures-bind _ _ (required_text-Ensures "Table name" 80 input.name)
      λ name hn. Ensures-ok (IsSeatingTable input) _ (refl, capacity_lem input.capacity fits, hn)

-- A saved seating table keeps the capacity of the input, a whole number from 1 to 100, and has a
-- trimmed name of 1 to 80 characters.
pub normalize_seating_table-IsSeatingTable :
    (input t : SeatingTable) → normalize_seating_table input ≡ ok t → IsSeatingTable input t
normalize_seating_table-IsSeatingTable input t h = ensured (seating_table-Ensures input) h
