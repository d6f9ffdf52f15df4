-- ===== src/Database/Rows.antt =====
-- The tables of packages/database/src/schema.ts that wedding-operations-repository.ts reads and writes, as
-- lists of rows. Identifiers and texts of a row are only compared here, so they are numbers; the creation
-- times, which only order lists, are left out.
use lovechapter.Prelude.{ℕ, Bool, false, ◌&&◌, Option, none, some, List, ◌==◌}

pub record Scope : Type 0 where
  pub user_id : ℕ
  pub wedding_id : ℕ

pub record MemberRow : Type 0 where
  pub wedding_id : ℕ
  pub user_id : ℕ

pub record BudgetRow : Type 0 where
  pub wedding_id : ℕ
  pub currency : ℕ
  pub target_minor : Option ℕ

pub record CategoryRow : Type 0 where
  pub wedding_id : ℕ
  pub id : ℕ
  pub name : ℕ

-- The columns of a vendor that only the input sets.
pub record VendorDetails : Type 0 where
  pub name : ℕ
  pub status : ℕ
  pub contact_name : Option ℕ
  pub email : Option ℕ
  pub phone : Option ℕ
  pub note : Option ℕ

pub record VendorRow : Type 0 where
  pub wedding_id : ℕ
  pub id : ℕ
  pub details : VendorDetails
  pub quote_minor : Option ℕ

-- The columns of an expense that only the input sets.
pub record ExpenseDetails : Type 0 where
  pub title : ℕ
  pub planned_minor : ℕ
  pub paid_minor : ℕ
  pub due_date : Option ℕ
  pub note : Option ℕ

pub record ExpenseRow : Type 0 where
  pub wedding_id : ℕ
  pub id : ℕ
  pub details : ExpenseDetails
  pub category_id : Option ℕ
  pub vendor_id : Option ℕ

pub record RunSheetDetails : Type 0 where
  pub title : ℕ
  pub starts_at : ℕ
  pub ends_at : ℕ
  pub location : Option ℕ
  pub responsible : Option ℕ
  pub note : Option ℕ

pub record RunSheetRow : Type 0 where
  pub wedding_id : ℕ
  pub id : ℕ
  pub details : RunSheetDetails

pub record TableRow : Type 0 where
  pub wedding_id : ℕ
  pub id : ℕ
  pub name : ℕ
  pub capacity : ℕ

pub record SeatRow : Type 0 where
  pub wedding_id : ℕ
  pub guest_id : ℕ
  pub table_id : ℕ

-- A guest, with the answer of the joined RSVP row.
pub record GuestRow : Type 0 where
  pub wedding_id : ℕ
  pub id : ℕ
  pub name : ℕ
  pub allowed_party_size : ℕ
  pub is_archived : Bool
  pub has_declined : Bool

pub record Database : Type 0 where
  pub weddings : List ℕ
  pub members : List MemberRow
  pub budgets : List BudgetRow
  pub categories : List CategoryRow
  pub vendors : List VendorRow
  pub expenses : List ExpenseRow
  pub run_sheet : List RunSheetRow
  pub tables : List TableRow
  pub seats : List SeatRow
  pub guests : List GuestRow

-- `wedding_id = … and id = …`
abbrev pub keyed : ℕ → ℕ → ℕ → ℕ → Bool
keyed wedding_id id w i = w == wedding_id && i == id

abbrev pub refers_to : Option ℕ → ℕ → Bool
refers_to none id = false
refers_to (some i) id = i == id
