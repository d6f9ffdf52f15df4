-- ===== src/Database/Operations/Seating.antt =====
-- Tables and seats: `saveSeatingTable`, `deleteSeatingTable` and `assignSeating`.
pub mod Reserved
pub mod Tables
pub mod Laws
use lovechapter.Prelude.{
  ℕ, ◌+◌, Bool, true, false, ◌&&◌, ◌||◌, not, Option, none, some, List, [], ◌∷◌, if◌then◌else◌, ltb,
  leb, ◌==◌, any, length, map,
}
use lovechapter.Prelude.Result.{
  Result, ok, err, ◌>>=◌, ◌>>◌, throw_if, DomainError, not_found, conflict,
}
use lovechapter.Auth.Tables.{update_where, select_where, delete_where, first_where}
use lovechapter.Database.Rows.{Scope, TableRow, SeatRow, GuestRow, Database, keyed}
use lovechapter.Database.Operations.{Method, authorized, require_row, count_where}

pub record SeatingTableInput : Type 0 where
  pub name : ℕ
  pub capacity : ℕ

pub record SeatingTableView : Type 0 where
  pub id : ℕ
  pub name : ℕ
  pub capacity : ℕ
  pub reserved : ℕ

-- The party size of the guest in the inner join; no row adds nothing.
unfoldable pub party_of : ℕ → ℕ → List GuestRow → ℕ
party_of w g [] = 0
party_of w g (r ∷ l) =
    let rest = party_of w g l in if keyed w g r.wedding_id r.id then r.allowed_party_size else rest

-- `seatUsageQuery`
unfoldable pub reserved : ℕ → ℕ → List GuestRow → List SeatRow → ℕ
unfolding party_of
reserved w t guests [] = 0
reserved w t guests (a ∷ l) =
    let rest = reserved w t guests l in
    if keyed w t a.wedding_id a.table_id then party_of w a.guest_id guests + rest else rest

abbrev pub table_at : ℕ → ℕ → TableRow → Bool
table_at w id t = keyed w id t.wedding_id t.id

abbrev pub guest_at : ℕ → ℕ → GuestRow → Bool
guest_at w id g = keyed w id g.wedding_id g.id

abbrev pub seat_of : ℕ → ℕ → SeatRow → Bool
seat_of w g a = keyed w g a.wedding_id a.guest_id

-- A row of another table of the wedding with the same name, letter case aside. `lower` is SQL's function.
abbrev pub name_taken : (ℕ → ℕ) → ℕ → ℕ → ℕ → TableRow → Bool
name_taken lower w id name t = t.wedding_id == w && not (t.id == id) && lower t.name == lower name

-- The check of the usage and the row, for a table that is there.
abbrev pub check_usage : ℕ → ℕ → Result (Unit {0})
check_usage used capacity =
    throw_if (ltb capacity used) (conflict "Capacity is below reserved seats")

unfoldable pub save_seating_table :
    (ℕ → ℕ) → Scope → ℕ → SeatingTableInput → Bool → Method SeatingTableView
save_seating_table lower s id input true db = do
  authorized s db
  throw_if (leb 100 (count_where (λ (t : TableRow). t.wedding_id == s.wedding_id) db.tables))
      (conflict "A wedding can have at most 100 tables")
  throw_if
      (any (table_at s.wedding_id id) db.tables
        || any (name_taken lower s.wedding_id id input.name) db.tables)
      (conflict "Table name is already used")
  let row : TableRow = record {
    wedding_id = s.wedding_id;
    id = id;
    name = input.name;
    capacity = input.capacity;
  }
  ok (
    record {
      id = id;
      name = input.name;
      capacity = input.capacity;
      reserved = reserved s.wedding_id id db.guests db.seats;
    },
    record db { tables = row ∷ db.tables },
  )
save_seating_table lower s id input false db = do
  authorized s db
  _ ← require_row "Table not found" (first_where (table_at s.wedding_id id) db.tables)
  let used = reserved s.wedding_id id db.guests db.seats
  check_usage used input.capacity
  throw_if (any (name_taken lower s.wedding_id id input.name) db.tables)
      (conflict "Table name is already used")
  ok (
    record { id = id; name = input.name; capacity = input.capacity; reserved = used },
    record db {
      tables =
          update_where (table_at s.wedding_id id)
            (λ t. record t { name = input.name; capacity = input.capacity }) db.tables;
    },
  )

-- The foreign key of the seats cascades.
unfoldable pub delete_seating_table : Scope → ℕ → Method (Unit {0})
delete_seating_table s id db = do
  authorized s db
  _ ← require_row "Table not found" (first_where (table_at s.wedding_id id) db.tables)
  ok (
    tt,
    record db {
      tables = delete_where (table_at s.wedding_id id) db.tables;
      seats = delete_where (λ a. keyed s.wedding_id id a.wedding_id a.table_id) db.seats;
    },
  )

-- `insert … on conflict (wedding_id, guest_id) do update set table_id = …`: the key makes the row unique.
unfoldable pub put_seat : ℕ → ℕ → ℕ → List SeatRow → List SeatRow
put_seat w g t [] = record { wedding_id = w; guest_id = g; table_id = t } ∷ []
put_seat w g t (a ∷ l) =
    let rest = put_seat w g t l in if seat_of w g a then record a { table_id = t } ∷ l else a ∷ rest

-- The row of a table that is locked before its seats change.
abbrev check_room : ℕ → ℕ → GuestRow → TableRow → Database → Result (Unit {0})
check_room w t guest row db =
    throw_if (ltb row.capacity (reserved w t db.guests db.seats + guest.allowed_party_size))
      (conflict "This table does not have enough seats for the guest party")

abbrev pub same_table : Option SeatRow → Option ℕ → Bool
same_table none none = true
same_table none (some t) = false
same_table (some a) none = false
same_table (some a) (some t) = a.table_id == t

-- The old table is locked too; its row is there.
abbrev pub lock_old : ℕ → Option SeatRow → Database → Result (Unit {0})
lock_old w none db = ok tt
lock_old w (some a) db = do
  _ ← require_row "Table not found" (first_where (table_at w a.table_id) db.tables)
  ok tt

abbrev pub change_seat : ℕ → ℕ → Option SeatRow → Option ℕ → GuestRow → Method (Unit {0})
change_seat w g old none guest db = do
  lock_old w old db
  ok (tt, record db { seats = delete_where (seat_of w g) db.seats })
change_seat w g old (some t) guest db = do
  lock_old w old db
  row ← require_row "Table not found" (first_where (table_at w t) db.tables)
  check_room w t guest row db
  ok (tt, record db { seats = put_seat w g t db.seats })

abbrev pub check_guest : Option ℕ → GuestRow → Result (Unit {0})
check_guest none guest = ok tt
check_guest (some t) guest = do
  throw_if guest.is_archived (conflict "Archived guests cannot be assigned")
  throw_if guest.has_declined (conflict "Guests who declined cannot be assigned")

unfoldable pub assign_seating : Scope → ℕ → Option ℕ → Method (Unit {0})
assign_seating s g table_id db = do
  authorized s db
  guest ← require_row "Guest not found" (first_where (guest_at s.wedding_id g) db.guests)
  check_guest table_id guest
  let old = first_where (seat_of s.wedding_id g) db.seats
  if same_table old table_id then ok (tt, db) else change_seat s.wedding_id g old table_id guest db
