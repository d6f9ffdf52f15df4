-- ===== src/Database/Operations/Seating/Tables.antt =====
-- Saving and deleting tables, with the seats at them.
use lovechapter.Prelude.{
  ℕ, ◌≤◌, ◌≡◌, Bool, true, false, ◌||◌, List, [], ◌∷◌, inl, inr, arith, All, ltb, leb, ◌==◌, any,
  Bool-cases,
}
use lovechapter.Prelude.Result.{Ensures-bind, Ensures-ok, Ensures-self, throw_if-Ensures}
use lovechapter.Auth.Tables.{update_where, delete_where, first_where}
use lovechapter.Database.Rows.{Scope, TableRow, SeatRow, GuestRow, Database, keyed}
use lovechapter.Database.Operations.{authorized, count_where}
use lovechapter.Database.Operations.Steps.{Keeps, require_row-Ensures}
use lovechapter.Database.Operations.Seating.{
  SeatingTableInput, reserved, table_at, save_seating_table, delete_seating_table, name_taken,
}
use lovechapter.Database.Operations.Seating.Reserved.{
  HasUniqueKeys, Fits, IsSeated, keyed_eq, Fits-less, reserved-delete, reserved_missing, placed-map,
  placed-delete_table,
}

-- Deleting a table takes the seats at it away with it.
deleted-Fits :
    (w id : ℕ) (guests : List GuestRow) (seats : List SeatRow) (tables : List TableRow)
    → Fits guests seats tables
    → Fits guests seats (delete_where (table_at w id) tables)
deleted-Fits w id guests seats [] h = tt
deleted-Fits w id guests seats (t ∷ l) h = elim (Bool-cases (table_at w id t)) [
  | inl gone ↦ rw gone (deleted-Fits w id guests seats l h.1)
  | inr kept ↦ rw kept (h.0, deleted-Fits w id guests seats l h.1)
]

deleted_apart :
    (w id v u : ℕ) (tables : List TableRow)
    → All (λ x. table_at v u x ≡ false) tables
    → All (λ x. table_at v u x ≡ false) (delete_where (table_at w id) tables)
deleted_apart w id v u [] h = tt
deleted_apart w id v u (t ∷ l) h = elim (Bool-cases (table_at w id t)) [
  | inl gone ↦ rw gone (deleted_apart w id v u l h.1)
  | inr kept ↦ rw kept (h.0, deleted_apart w id v u l h.1)
]

deleted_unique :
    (w id : ℕ) (tables : List TableRow)
    → HasUniqueKeys tables
    → HasUniqueKeys (delete_where (table_at w id) tables)
deleted_unique w id [] h = tt
deleted_unique w id (t ∷ l) h = elim (Bool-cases (table_at w id t)) [
  | inl gone ↦ rw gone (deleted_unique w id l h.1)
  | inr kept ↦ rw kept (deleted_apart w id t.wedding_id t.id l h.0, deleted_unique w id l h.1)
]

-- Deleting a table keeps the seats of the other tables within their capacities, and every seat that is
-- left at a table that is there.
pub delete_seating_table-IsSeated :
    (s : Scope) (id : ℕ) (db : Database)
    → IsSeated db
    → Keeps IsSeated (delete_seating_table s id db)
unfolding delete_seating_table
delete_seating_table-IsSeated s id db h =
    let w : ℕ = s.wedding_id in
    Ensures-bind _ _ (Ensures-self (authorized s db)) λ _ _.
      Ensures-bind _ _
        (require_row-Ensures "Table not found" (first_where (table_at w id) db.tables))
        λ row at.
          Ensures-ok (λ p. IsSeated p.1) _
            (record {
              unique = deleted_unique w id db.tables h.unique;
              fits = deleted-Fits w id db.guests _ db.tables (
                  Fits-less db.guests db.seats _ db.tables
                    (λ v u.
                      reserved-delete (λ a. keyed w id a.wedding_id a.table_id) v u db.guests
                        db.seats)
                    h.fits);
              placed = placed-delete_table w id db.tables db.seats h.placed;
            })

fresh_apart :
    (w id : ℕ) (tables : List TableRow)
    → any (table_at w id) tables ≡ false
    → All (λ x. table_at w id x ≡ false) tables
fresh_apart w id [] h = tt
fresh_apart w id (t ∷ l) h = (ground arith, fresh_apart w id l (ground arith))

module _ (w id : ℕ) (input : SeatingTableInput) where
  abbrev changed : TableRow → TableRow
  changed t = record t { name = input.name; capacity = input.capacity }

  changed_apart :
      (v u : ℕ) (tables : List TableRow)
      → All (λ x. table_at v u x ≡ false) tables
      → All (λ x. table_at v u x ≡ false) (update_where (table_at w id) changed tables)
  changed_apart v u [] h = tt
  changed_apart v u (t ∷ l) h = elim (Bool-cases (table_at w id t)) [
    | inl hit ↦ rw hit (h.0, changed_apart v u l h.1)
    | inr miss ↦ rw miss (h.0, changed_apart v u l h.1)
  ]

  changed_unique :
      (tables : List TableRow)
      → HasUniqueKeys tables
      → HasUniqueKeys (update_where (table_at w id) changed tables)
  changed_unique [] h = tt
  changed_unique (t ∷ l) h = elim (Bool-cases (table_at w id t)) [
    | inl hit ↦ rw hit (changed_apart t.wedding_id t.id l h.0, changed_unique l h.1)
    | inr miss ↦ rw miss (changed_apart t.wedding_id t.id l h.0, changed_unique l h.1)
  ]

  changed-any :
      (v u : ℕ) (tables : List TableRow)
      → any (table_at v u) tables ≡ true
      → any (table_at v u) (update_where (table_at w id) changed tables) ≡ true
  changed-any v u [] h = cc
  changed-any v u (t ∷ l) h = ground (arith, changed-any v u l)

  reserved_here :
      (v u : ℕ) (guests : List GuestRow) (seats : List SeatRow)
      → keyed w id v u ≡ true
      → reserved w id guests seats ≤ input.capacity
      → reserved v u guests seats ≤ input.capacity
  reserved_here v u guests seats e h = let k = keyed_eq w id v u e in rw (k.0, k.1) h

  changed-Fits :
      (guests : List GuestRow) (seats : List SeatRow) (tables : List TableRow)
      → reserved w id guests seats ≤ input.capacity
      → Fits guests seats tables
      → Fits guests seats (update_where (table_at w id) changed tables)
  changed-Fits guests seats [] h f = tt
  changed-Fits guests seats (t ∷ l) h f = elim (Bool-cases (table_at w id t)) [
    | inl hit ↦
        rw hit
          (reserved_here t.wedding_id t.id guests seats hit h, changed-Fits guests seats l h f.1)
    | inr miss ↦ rw miss (f.0, changed-Fits guests seats l h f.1)
  ]

created-IsSeated :
    (row : TableRow) (db : Database)
    → any (table_at row.wedding_id row.id) db.tables ≡ false
    → IsSeated db
    → IsSeated (record db { tables = row ∷ db.tables })
created-IsSeated row db free h = record {
  unique = (fresh_apart row.wedding_id row.id db.tables free, h.unique);
  fits = (
    omega
        (arith, reserved_missing row.wedding_id row.id db.guests db.tables db.seats free h.placed),
    h.fits,
  );
  placed = placed-map db.tables (row ∷ db.tables) db.seats (λ v u e. ground arith) h.placed;
}

-- Saving a table, a new one or one that is there, keeps the reserved seats within the capacities: a
-- capacity below the reserved seats is refused.
pub save_seating_table-IsSeated :
    (lower : ℕ → ℕ) (s : Scope) (id : ℕ) (input : SeatingTableInput) (create : Bool) (db : Database)
    → IsSeated db
    → Keeps IsSeated (save_seating_table lower s id input create db)
unfolding save_seating_table
save_seating_table-IsSeated lower s id input true db h =
    let w : ℕ = s.wedding_id in
    Ensures-bind _ _ (Ensures-self (authorized s db)) λ _ _.
      Ensures-bind _ _
        (throw_if-Ensures (leb 100 (count_where (λ (t : TableRow). t.wedding_id == w) db.tables)) _)
        λ _ _.
          Ensures-bind _ _
            (throw_if-Ensures
              (any (table_at w id) db.tables || any (name_taken lower w id input.name) db.tables) _)
            λ _ free.
              Ensures-ok (λ p. IsSeated p.1) _
                (created-IsSeated
                  (record { wedding_id = w; id = id; name = input.name; capacity = input.capacity })
                  db (ground arith) h)
save_seating_table-IsSeated lower s id input false db h =
    let w : ℕ = s.wedding_id in
    Ensures-bind _ _ (Ensures-self (authorized s db)) λ _ _.
      Ensures-bind _ _
        (require_row-Ensures "Table not found" (first_where (table_at w id) db.tables))
        λ row at.
          Ensures-bind _ _
            (throw_if-Ensures (ltb input.capacity (reserved w id db.guests db.seats)) _)
            λ _ room.
              Ensures-bind _ _
                (throw_if-Ensures (any (name_taken lower w id input.name) db.tables) _)
                λ _ _.
                  Ensures-ok (λ p. IsSeated p.1) _
                    (record {
                      unique = changed_unique w id input db.tables h.unique;
                      fits =
                          changed-Fits w id input db.guests db.seats db.tables (ground arith)
                            h.fits;
                      placed =
                          placed-map db.tables _ db.seats
                            (λ v u e. changed-any w id input v u db.tables e) h.placed;
                    })
