-- ===== src/Database/Operations/Seating/Reserved.antt =====
-- How many seats of a table are reserved, step by step.
use lovechapter.Prelude.{
  ℕ, ◌+◌, ◌≤◌, ◌≡◌, refl, ap, Bool, true, false, some, List, [], ◌∷◌, inl, inr, arith, All,
  if◌then◌else◌, any, Bool-cases, eq_of_some,
}
use lovechapter.Auth.Tables.{delete_where, first_where}
use lovechapter.Database.Rows.{TableRow, SeatRow, GuestRow, Database, keyed}
use lovechapter.Database.Operations.Seating.{
  party_of, reserved, table_at, guest_at, seat_of, put_seat,
}

-- The primary key of the tables.
abbrev pub HasUniqueKeys : List TableRow → Type 0
HasUniqueKeys [] = Unit
HasUniqueKeys (t ∷ l) = All (λ u. table_at t.wedding_id t.id u ≡ false) l × HasUniqueKeys l

abbrev pub Fits : List GuestRow → List SeatRow → List TableRow → Type 0
Fits guests seats tables = All (λ t. reserved t.wedding_id t.id guests seats ≤ t.capacity) tables

abbrev pub ArePlaced : List TableRow → List SeatRow → Type 0
ArePlaced tables seats = All (λ a. any (table_at a.wedding_id a.table_id) tables ≡ true) seats

-- No table has more seats reserved than its capacity, and every seat is at a table that is there.
pub record IsSeated (db : Database) : Type 0 where
  pub unique : HasUniqueKeys db.tables
  pub fits : Fits db.guests db.seats db.tables
  pub placed : ArePlaced db.tables db.seats

pub keyed_eq : (w i v u : ℕ) → keyed w i v u ≡ true → (v ≡ w) × (u ≡ i)
keyed_eq w i v u h = ground arith

reserved-put_seat :
    (w g t v u : ℕ) (guests : List GuestRow) (seats : List SeatRow)
    → reserved v u guests (put_seat w g t seats)
      ≤ reserved v u guests seats + (if keyed v u w t then party_of v g guests else 0)
unfolding reserved put_seat
reserved-put_seat w g t v u guests [] = ground arith
reserved-put_seat w g t v u guests (a ∷ l) = ground (arith, reserved-put_seat w g t v u guests l)

pub reserved-delete :
    (p : SeatRow → Bool) (v u : ℕ) (guests : List GuestRow) (seats : List SeatRow)
    → reserved v u guests (delete_where p seats) ≤ reserved v u guests seats
unfolding reserved
reserved-delete p v u guests [] = omega arith
reserved-delete p v u guests (a ∷ l) = ground (arith, reserved-delete p v u guests l)

-- At a table that is not there nobody sits.
pub reserved_missing :
    (w id : ℕ) (guests : List GuestRow) (tables : List TableRow) (seats : List SeatRow)
    → any (table_at w id) tables ≡ false
    → ArePlaced tables seats
    → reserved w id guests seats ≡ 0
unfolding reserved
reserved_missing w id guests tables [] e h = refl
reserved_missing w id guests tables (a ∷ l) e h =
    elim (Bool-cases (keyed w id a.wedding_id a.table_id)) [
      | inl same ↦
          let k = keyed_eq w id a.wedding_id a.table_id same in
          let here : any (table_at w id) tables ≡ true = rw (k.0, k.1) at h.0 in absurd (cc)
      | inr other ↦ rw other (reserved_missing w id guests tables l e h.1)
    ]

pub party_of-found :
    (w g : ℕ) (guests : List GuestRow) (r : GuestRow)
    → first_where (guest_at w g) guests ≡ some r
    → party_of w g guests ≡ r.allowed_party_size
unfolding party_of
party_of-found w g [] r h = cc
party_of-found w g (x ∷ l) r h = ground (arith, party_of-found w g l r)

pub any-found :
    (p : TableRow → Bool) (l : List TableRow) (r : TableRow)
    → first_where p l ≡ some r
    → any p l ≡ true
any-found p [] r h = cc
any-found p (x ∷ l) r h = ground (arith, any-found p l r)

-- Tables whose reservations do not grow keep fitting.
pub Fits-less :
    (guests : List GuestRow) (before after : List SeatRow) (tables : List TableRow)
    → ((v u : ℕ) → reserved v u guests after ≤ reserved v u guests before)
    → Fits guests before tables
    → Fits guests after tables
Fits-less guests before after [] h f = tt
Fits-less guests before after (t ∷ l) h f =
    (omega (arith, h t.wedding_id t.id, f.0), Fits-less guests before after l h f.1)

module _ (w t g : ℕ) (guests : List GuestRow) (seats : List SeatRow) where
  -- Tables other than the one that gets a party.
  Fits-elsewhere :
      (tables : List TableRow)
      → All (λ u. table_at w t u ≡ false) tables
      → Fits guests seats tables
      → Fits guests (put_seat w g t seats) tables
  Fits-elsewhere [] h f = tt
  Fits-elsewhere (r ∷ l) h f = (
    ground (arith, h.0, f.0, reserved-put_seat w g t r.wedding_id r.id guests seats),
    Fits-elsewhere l h.1 f.1,
  )

  fits_here :
      (v u c : ℕ)
      → v ≡ w
      → u ≡ t
      → reserved w t guests seats + party_of w g guests ≤ c
      → reserved v u guests (put_seat w g t seats) ≤ c
  fits_here v u c p q h = rw (p, q) (ground (arith, reserved-put_seat w g t w t guests seats))

  elsewhere :
      (v u : ℕ) (l : List TableRow)
      → v ≡ w
      → u ≡ t
      → All (λ x. table_at v u x ≡ false) l
      → All (λ x. table_at w t x ≡ false) l
  elsewhere v u l p q h = rw (p, q) at h

  pub Fits-put_seat :
      (tables : List TableRow) (row : TableRow)
      → HasUniqueKeys tables
      → first_where (table_at w t) tables ≡ some row
      → reserved w t guests seats + party_of w g guests ≤ row.capacity
      → Fits guests seats tables
      → Fits guests (put_seat w g t seats) tables
  Fits-put_seat [] row u e room f = tt
  Fits-put_seat (r ∷ l) row u e room f = elim (Bool-cases (table_at w t r)) [
    | inl here ↦
        let k = keyed_eq w t r.wedding_id r.id here in
        let c : r.capacity ≡ row.capacity =
          ap (λ (x : TableRow). x.capacity) (eq_of_some r row (rw here at e)) in
        (
          fits_here r.wedding_id r.id r.capacity k.0 k.1 (omega (arith, c, room)),
          Fits-elsewhere l (elsewhere r.wedding_id r.id l k.0 k.1 u.0) f.1,
        )
    | inr other ↦ (
      ground (arith, f.0, reserved-put_seat w g t r.wedding_id r.id guests seats),
      Fits-put_seat l row u.1 (rw other at e) room f.1,
    )
  ]

placed_at :
    (w t v : ℕ) (tables : List TableRow)
    → v ≡ w
    → any (table_at w t) tables ≡ true
    → any (table_at v t) tables ≡ true
placed_at w t v tables e h = rw e h

any_left :
    (w id v u : ℕ) (tables : List TableRow)
    → keyed w id v u ≡ false
    → any (table_at v u) tables ≡ true
    → any (table_at v u) (delete_where (table_at w id) tables) ≡ true
any_left w id v u [] e h = cc
any_left w id v u (t ∷ l) e h = ground (arith, any_left w id v u l e)

pub placed-put_seat :
    (w g t : ℕ) (tables : List TableRow) (seats : List SeatRow)
    → any (table_at w t) tables ≡ true
    → ArePlaced tables seats
    → ArePlaced tables (put_seat w g t seats)
unfolding put_seat
placed-put_seat w g t tables [] e h = (e, tt)
placed-put_seat w g t tables (a ∷ l) e h = elim (Bool-cases (seat_of w g a)) [
  | inl same ↦
      let k = keyed_eq w g a.wedding_id a.guest_id same in
      rw same (placed_at w t a.wedding_id tables k.0 e, h.1)
  | inr other ↦ rw other (h.0, placed-put_seat w g t tables l e h.1)
]

pub placed-delete :
    (p : SeatRow → Bool) (tables : List TableRow) (seats : List SeatRow)
    → ArePlaced tables seats
    → ArePlaced tables (delete_where p seats)
placed-delete p tables [] h = tt
placed-delete p tables (a ∷ l) h = elim (Bool-cases (p a)) [
  | inl gone ↦ rw gone (placed-delete p tables l h.1)
  | inr kept ↦ rw kept (h.0, placed-delete p tables l h.1)
]

pub placed-map :
    (before after : List TableRow) (seats : List SeatRow)
    → ((v u : ℕ) → any (table_at v u) before ≡ true → any (table_at v u) after ≡ true)
    → ArePlaced before seats
    → ArePlaced after seats
placed-map before after [] w h = tt
placed-map before after (a ∷ l) w h =
    (w a.wedding_id a.table_id h.0, placed-map before after l w h.1)

-- The cascade: a seat that is left is not at the deleted table.
pub placed-delete_table :
    (w id : ℕ) (tables : List TableRow) (seats : List SeatRow)
    → ArePlaced tables seats
    → ArePlaced
        (delete_where (table_at w id) tables)
        (delete_where (λ a. keyed w id a.wedding_id a.table_id) seats)
placed-delete_table w id tables [] h = tt
placed-delete_table w id tables (a ∷ l) h = elim (Bool-cases (keyed w id a.wedding_id a.table_id)) [
  | inl gone ↦ rw gone (placed-delete_table w id tables l h.1)
  | inr kept ↦
      rw kept (
        any_left w id a.wedding_id a.table_id tables kept h.0,
        placed-delete_table w id tables l h.1,
      )
]
