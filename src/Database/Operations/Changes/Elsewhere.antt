-- ===== src/Database/Operations/Changes/Elsewhere.antt =====
-- What another wedding sees of a change: its rows of every table.
use lovechapter.Prelude.{
  ℕ, ◌≡◌, refl, Bool, true, false, ◌&&◌, List, [], ◌∷◌, inl, inr, arith, ◌==◌, Bool-cases,
}
use lovechapter.Auth.Tables.{update_where, delete_where, select_where}
use lovechapter.Database.Rows.{
  BudgetRow, CategoryRow, VendorRow, ExpenseRow, RunSheetRow, TableRow, SeatRow, GuestRow,
  MemberRow, Database, keyed,
}
use lovechapter.Database.Operations.Seating.{seat_of, put_seat}

-- The rows of one wedding.
abbrev pub restrict : ℕ → Database → Database
restrict v db = record {
  weddings = select_where (λ w. w == v) db.weddings;
  members = select_where (λ (m : MemberRow). m.wedding_id == v) db.members;
  budgets = select_where (λ (b : BudgetRow). b.wedding_id == v) db.budgets;
  categories = select_where (λ (c : CategoryRow). c.wedding_id == v) db.categories;
  vendors = select_where (λ (d : VendorRow). d.wedding_id == v) db.vendors;
  expenses = select_where (λ (e : ExpenseRow). e.wedding_id == v) db.expenses;
  run_sheet = select_where (λ (i : RunSheetRow). i.wedding_id == v) db.run_sheet;
  tables = select_where (λ (t : TableRow). t.wedding_id == v) db.tables;
  seats = select_where (λ (a : SeatRow). a.wedding_id == v) db.seats;
  guests = select_where (λ (g : GuestRow). g.wedding_id == v) db.guests;
}

module _ {ℓ} {A : Type ℓ} (q : A → Bool) (p : A → Bool) where
  pub select-update_where :
      (f : A → A)
      → ((a : A) → p a ≡ true → q a ≡ false)
      → ((a : A) → q (f a) ≡ q a)
      → (l : List A) → select_where q (update_where p f l) ≡ select_where q l
  select-update_where f other same [] = refl
  select-update_where f other same (a ∷ l) = elim (Bool-cases (p a)) [
    | inl e ↦ rw (e, same a, other a e) (select-update_where f other same l)
    | inr e ↦ rw (e, select-update_where f other same l) refl
  ]

  pub select-delete_where :
      ((a : A) → p a ≡ true → q a ≡ false)
      → (l : List A) → select_where q (delete_where p l) ≡ select_where q l
  select-delete_where other [] = refl
  select-delete_where other (a ∷ l) = elim (Bool-cases (p a)) [
    | inl e ↦ rw (e, other a e) (select-delete_where other l)
    | inr e ↦ rw (e, select-delete_where other l) refl
  ]

pub apart : (w v u i k : ℕ) → (w == v) ≡ false → keyed w i u k ≡ true → (u == v) ≡ false
apart w v u i k n e = ground arith

pub apart_of : (w v u : ℕ) (b : Bool) → (w == v) ≡ false → (u == w && b) ≡ true → (u == v) ≡ false
apart_of w v u b n e = ground arith

pub select-put_seat :
    (w g t v : ℕ) (l : List SeatRow)
    → (w == v) ≡ false
    → select_where (λ (a : SeatRow). a.wedding_id == v) (put_seat w g t l)
      ≡ select_where (λ (a : SeatRow). a.wedding_id == v) l
unfolding put_seat
select-put_seat w g t v [] n = rw n refl
select-put_seat w g t v (a ∷ l) n = elim (Bool-cases (seat_of w g a)) [
  | inl e ↦ rw (e, apart w v a.wedding_id g a.guest_id n e) refl
  | inr e ↦ rw (e, select-put_seat w g t v l n) refl
]
