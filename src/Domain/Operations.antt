-- ===== src/Domain/Operations.antt =====
-- Budgets, vendors, expenses and seating: the `normalize…` functions of
-- packages/domain/src/wedding-operations.ts.
pub mod Laws
use Prim.Native.String.{String}
use lovechapter.Prelude.{◌||◌, not, Bool, true, false, Option, none, some, List, if◌then◌else◌}
use lovechapter.Prelude.Number.{Number, integer, other, is_integer, below, above, exceeds}
use lovechapter.Prelude.Optional.{Field, absent, null, given, or_null}
use lovechapter.Prelude.Result.{Result, ok, err, ◌>>=◌, ◌>>◌, throw_if, invalid}
use lovechapter.Text.{Text, trim}
use lovechapter.Domain.Platform.{Platform}
use lovechapter.Domain.Calendar.{calendar_date}
use lovechapter.Domain.Validation.{required_text, optional_text}
use lovechapter.Domain.Money.{amount, currency_digits}

pub record Budget : Type 0 where
  pub currency : Text
  pub target_minor : Option Number

-- `value == null ? null : amount(value, label)`
abbrev pub optional_amount : String → Option Number → Result (Option Number)
optional_amount label none = ok none
optional_amount label (some v) = do n ← amount v label; ok (some n)

unfoldable pub normalize_budget : Platform → Budget → Result Budget
normalize_budget p input = do
  let currency = p.to_upper (trim input.currency)
  _ ← currency_digits p currency
  target_minor ← optional_amount "Target" input.target_minor
  ok (record { currency = currency; target_minor = target_minor })

unfoldable pub normalize_budget_category : Text → Result Text
normalize_budget_category name = required_text "Category name" 80 name

-- The vendor statuses; any other text is `unknown`.
pub data VendorStatus : Type 0 where
  researching contacted booked cancelled unknown : VendorStatus

abbrev is_unknown : VendorStatus → Bool
is_unknown unknown = true
is_unknown _ = false

pub record VendorInput : Type 0 where
  pub name : Text
  pub status : VendorStatus
  pub contact_name : Field Text
  pub email : Field Text
  pub phone : Field Text
  pub quote_minor : Option Number
  pub note : Field Text

pub record Vendor : Type 0 where
  pub name : Text
  pub status : VendorStatus
  pub contact_name : Option Text
  pub email : Option Text
  pub phone : Option Text
  pub quote_minor : Option Number
  pub note : Option Text

unfoldable pub normalize_vendor : VendorInput → Result Vendor
normalize_vendor input = do
  throw_if (is_unknown input.status) (invalid "Invalid vendor status")
  name ← required_text "Vendor name" 180 input.name
  contact_name ← optional_text 120 input.contact_name
  email ← optional_text 320 input.email
  phone ← optional_text 40 input.phone
  quote_minor ← optional_amount "Quote" input.quote_minor
  note ← optional_text 2000 input.note
  ok (record {
    name = name;
    status = input.status;
    contact_name = contact_name;
    email = email;
    phone = phone;
    quote_minor = quote_minor;
    note = note;
  })

pub record ExpenseInput : Type 0 where
  pub title : Text
  pub planned_minor : Number
  pub paid_minor : Number
  pub category_id : Field Text
  pub vendor_id : Field Text
  pub due_date : Field Text
  pub note : Field Text

pub record Expense : Type 0 where
  pub title : Text
  pub planned_minor : Number
  pub paid_minor : Number
  pub category_id : Option Text
  pub vendor_id : Option Text
  pub due_date : Option Text
  pub note : Option Text

unfoldable pub normalize_expense : ExpenseInput → Result Expense
normalize_expense input = do
  planned_minor ← amount input.planned_minor "Planned amount"
  paid_minor ← amount input.paid_minor "Paid amount"
  throw_if (exceeds paid_minor planned_minor) (invalid "Paid amount exceeds planned amount")
  title ← required_text "Expense title" 180 input.title
  due_date ← calendar_date (invalid "Invalid date") input.due_date
  note ← optional_text 2000 input.note
  ok (record {
    title = title;
    planned_minor = planned_minor;
    paid_minor = paid_minor;
    category_id = or_null input.category_id;
    vendor_id = or_null input.vendor_id;
    due_date = due_date;
    note = note;
  })

pub record SeatingTable : Type 0 where
  pub name : Text
  pub capacity : Number

unfoldable pub normalize_seating_table : SeatingTable → Result SeatingTable
normalize_seating_table input = do
  throw_if (not (is_integer input.capacity) || below input.capacity 1 || above input.capacity 100)
      (invalid "Table capacity must be 1–100")
  name ← required_text "Table name" 80 input.name
  ok (record { name = name; capacity = input.capacity })
