-- ===== src/Database/Operations/Seating/Laws.antt =====
-- Seats within the capacity of the tables, whatever the methods do.
use lovechapter.Prelude.{
  ℕ, ◌+◌, ◌≤◌, ◌≡◌, Bool, Option, none, some, inl, inr, arith, ltb, Bool-cases,
}
use lovechapter.Prelude.Result.{Ensures-bind, Ensures-ok, Ensures-self, throw_if-Ensures}
use lovechapter.Auth.Tables.{delete_where, first_where}
use lovechapter.Database.Rows.{Scope, TableRow, SeatRow, GuestRow, Database}
use lovechapter.Database.Operations.{authorized}
use lovechapter.Database.Operations.Steps.{Keeps, require_row-Ensures}
use lovechapter.Database.Operations.Seating.{
  reserved, table_at, guest_at, seat_of, put_seat, same_table, change_seat, lock_old, check_guest,
  assign_seating,
}
use lovechapter.Database.Operations.Seating.Reserved.{
  IsSeated, party_of-found, any-found, Fits-less, Fits-put_seat, reserved-delete, placed-put_seat,
  placed-delete,
}

assign-IsSeated :
    (w g t : ℕ) (guest : GuestRow) (row : TableRow) (db : Database)
    → IsSeated db
    → first_where (guest_at w g) db.guests ≡ some guest
    → first_where (table_at w t) db.tables ≡ some row
    → reserved w t db.guests db.seats + guest.allowed_party_size ≤ row.capacity
    → IsSeated (record db { seats = put_seat w g t db.seats })
assign-IsSeated w g t guest row db h found at room = record {
  unique = h.unique;
  fits =
      Fits-put_seat w t g db.guests db.seats db.tables row h.unique at
        (rw (party_of-found w g db.guests guest found) room) h.fits;
  placed =
      placed-put_seat w g t db.tables db.seats (any-found (table_at w t) db.tables row at) h.placed;
}

unseat-IsSeated :
    (p : SeatRow → Bool) (db : Database)
    → IsSeated db
    → IsSeated (record db { seats = delete_where p db.seats })
unseat-IsSeated p db h = record {
  unique = h.unique;
  fits =
      Fits-less db.guests db.seats (delete_where p db.seats) db.tables
        (λ v u. reserved-delete p v u db.guests db.seats) h.fits;
  placed = placed-delete p db.tables db.seats h.placed;
}

change_seat-IsSeated :
    (w g : ℕ) (old : Option SeatRow) (new : Option ℕ) (guest : GuestRow) (db : Database)
    → IsSeated db
    → first_where (guest_at w g) db.guests ≡ some guest
    → Keeps IsSeated (change_seat w g old new guest db)
change_seat-IsSeated w g old none guest db h found =
    Ensures-bind _ _ (Ensures-self (lock_old w old db))
      λ _ _. Ensures-ok (λ p. IsSeated p.1) _ (unseat-IsSeated (seat_of w g) db h)
change_seat-IsSeated w g old (some t) guest db h found =
    Ensures-bind _ _ (Ensures-self (lock_old w old db)) λ _ _.
      Ensures-bind _ _
        (require_row-Ensures "Table not found" (first_where (table_at w t) db.tables))
        λ row at.
          Ensures-bind _ _
            (throw_if-Ensures
              (ltb row.capacity (reserved w t db.guests db.seats + guest.allowed_party_size)) _)
            λ _ room.
              Ensures-ok (λ p. IsSeated p.1) _
                (assign-IsSeated w g t guest row db h found at (ground arith))

-- Assigning a party to a table, moving it or taking it off leaves no table with more reserved seats than
-- its capacity and no seat at a table that is not there.
pub assign_seating-IsSeated :
    (s : Scope) (g : ℕ) (table_id : Option ℕ) (db : Database)
    → IsSeated db
    → Keeps IsSeated (assign_seating s g table_id db)
unfolding assign_seating
assign_seating-IsSeated s g table_id db h = Ensures-bind _ _ (Ensures-self (authorized s db)) λ _ _.
    Ensures-bind _ _
      (require_row-Ensures "Guest not found" (first_where (guest_at s.wedding_id g) db.guests))
      λ guest found. Ensures-bind _ _ (Ensures-self (check_guest table_id guest)) λ _ _.
        let old = first_where (seat_of s.wedding_id g) db.seats in
        elim (Bool-cases (same_table old table_id)) [
          | inl same ↦ rw same (Ensures-ok (λ p. IsSeated p.1) _ h)
          | inr other ↦ rw other (change_seat-IsSeated s.wedding_id g old table_id guest db h found)
        ]
