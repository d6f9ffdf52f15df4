-- ===== src/Database/Operations/Changes/Isolation.antt =====
-- A wedding seen from outside: calls that its members do not make.
use lovechapter.Prelude.{
  ℕ, ◌≡◌, refl, ◌∙◌, sym, Bool, true, false, ◌&&◌, not, List, [], ◌∷◌, inl, inr, arith, any, all,
  ◌==◌, Bool-cases,
}
use lovechapter.Prelude.Result.{Result, ok, err, not_found, Ensures, ensured}
use lovechapter.Auth.Tables.{select_where}
use lovechapter.Database.Rows.{Scope, MemberRow, Database}
use lovechapter.Database.Operations.{is_member, has_wedding}
use lovechapter.Database.Operations.Budget.{
  set_budget, save_budget_category, delete_budget_category,
}
use lovechapter.Database.Operations.Costs.{save_vendor, delete_vendor, save_expense, delete_expense}
use lovechapter.Database.Operations.RunSheet.{save_run_sheet_item, delete_run_sheet_item}
use lovechapter.Database.Operations.Seating.{
  save_seating_table, delete_seating_table, assign_seating,
}
use lovechapter.Database.Operations.Changes.{
  Change, budget_set, category_saved, category_deleted, vendor_saved, vendor_deleted, expense_saved,
  expense_deleted, item_saved, item_deleted, table_saved, table_deleted, seat_assigned, perform,
  settle, run_changes,
}
use lovechapter.Database.Operations.Changes.Elsewhere.{restrict}
use lovechapter.Database.Operations.Changes.Unseen.{perform-unseen}

-- A user who is no member of the wedding is told that it is not found, whatever the call, its identifier
-- and its input are.
pub perform-denied :
    (lower : ℕ → ℕ) (s : Scope) (c : Change) (db : Database)
    → has_wedding s db ≡ false
    → perform lower s c db ≡ err (not_found "Wedding not found")
unfolding perform set_budget save_budget_category delete_budget_category save_vendor delete_vendor
    save_expense delete_expense save_run_sheet_item delete_run_sheet_item save_seating_table
    delete_seating_table assign_seating
perform-denied lower s (budget_set input) db h = rw h refl
perform-denied lower s (category_saved id name true) db h = rw h refl
perform-denied lower s (category_saved id name false) db h = rw h refl
perform-denied lower s (category_deleted id) db h = rw h refl
perform-denied lower s (vendor_saved id input true) db h = rw h refl
perform-denied lower s (vendor_saved id input false) db h = rw h refl
perform-denied lower s (vendor_deleted id) db h = rw h refl
perform-denied lower s (expense_saved id input true) db h = rw h refl
perform-denied lower s (expense_saved id input false) db h = rw h refl
perform-denied lower s (expense_deleted id) db h = rw h refl
perform-denied lower s (item_saved id input true) db h = rw h refl
perform-denied lower s (item_saved id input false) db h = rw h refl
perform-denied lower s (item_deleted id) db h = rw h refl
perform-denied lower s (table_saved id input true) db h = rw h refl
perform-denied lower s (table_saved id input false) db h = rw h refl
perform-denied lower s (table_deleted id) db h = rw h refl
perform-denied lower s (seat_assigned g table_id) db h = rw h refl

any-select_where {ℓ} :
    {A : Type ℓ} (p q : A → Bool) (l : List A)
    → ((a : A) → p a ≡ true → q a ≡ true)
    → any p (select_where q l) ≡ any p l
any-select_where p q [] w = refl
any-select_where p q (a ∷ l) w = elim (Bool-cases (q a)) [
  | inl e ↦ rw (e, any-select_where p q l w) refl
  | inr e ↦ rw (e, any-select_where p q l w) (ground (arith, w a))
]

-- Whether a user belongs to a wedding is among what the wedding sees.
has_wedding-restrict :
    (s : Scope) (db : Database) → has_wedding s (restrict s.wedding_id db) ≡ has_wedding s db
unfolding has_wedding is_member
has_wedding-restrict s db =
    rw
      (
        any-select_where (λ w. w == s.wedding_id) (λ w. w == s.wedding_id) db.weddings (λ w e. e),
        any-select_where (λ (m : MemberRow). m.wedding_id == s.wedding_id && m.user_id == s.user_id)
            (λ (m : MemberRow). m.wedding_id == s.wedding_id) db.members (λ m e. ground arith),
      )
      refl

-- A call for another wedding, or by a user who is no member of this one.
unfoldable pub is_foreign : ℕ → Database → Scope × Change → Bool
is_foreign v db c = not (c.0.wedding_id == v && has_wedding c.0 db)

is_foreign-same :
    (v : ℕ) (db d : Database) (c : Scope × Change)
    → restrict v d ≡ restrict v db
    → is_foreign v d c ≡ is_foreign v db c
unfolding is_foreign
is_foreign-same v db d c e = elim (Bool-cases (c.0.wedding_id == v)) [
  | inl here ↦ rw here (ground (arith, same_membership (ground arith)))
  | inr there ↦ rw there refl
]
  where
    same_membership : c.0.wedding_id ≡ v → has_wedding c.0 d ≡ has_wedding c.0 db
    same_membership at =
        sym (has_wedding-restrict c.0 d) ∙ rw (at, e) (rw⁻¹ at (has_wedding-restrict c.0 db))

settle-unseen :
    (lower : ℕ → ℕ) (v : ℕ) (db : Database) (c : Scope × Change)
    → is_foreign v db c ≡ true
    → restrict v (settle db (perform lower c.0 c.1 db)) ≡ restrict v db
unfolding is_foreign
settle-unseen lower v db c h = elim (Bool-cases (c.0.wedding_id == v)) [
  | inl here ↦ rw (perform-denied lower c.0 c.1 db (ground arith)) refl
  | inr there ↦ settled (perform lower c.0 c.1 db) (perform-unseen v db c.0 there lower c.1)
]
  where
    settled :
        (r : Result Database)
        → Ensures (λ d. restrict v d ≡ restrict v db) r
        → restrict v (settle db r) ≡ restrict v db
    settled (err e) k = refl
    settled (ok d) k = ensured k refl

all-same {ℓ} :
    {A : Type ℓ} (p q : A → Bool) (l : List A)
    → ((a : A) → p a ≡ q a)
    → all p l ≡ true
    → all q l ≡ true
all-same p q [] w h = refl
all-same p q (a ∷ l) w h = ground (arith, w a, all-same p q l w)

-- A wedding keeps every row, its members, budget, categories, vendors, expenses, run sheet, tables, seats
-- and guests, in any sequence of calls none of which is made for it by one of its members.
pub run_changes-unseen :
    (lower : ℕ → ℕ) (v : ℕ) (l : List (Scope × Change)) (db : Database)
    → all (is_foreign v db) l ≡ true
    → restrict v (run_changes lower l db) ≡ restrict v db
unfolding run_changes
run_changes-unseen lower v [] db h = refl
run_changes-unseen lower v (c ∷ l) db h =
    let d = settle db (perform lower c.0 c.1 db) in
    let e = settle-unseen lower v db c (ground arith) in
    run_changes-unseen lower v l d (
      all-same (is_foreign v db) (is_foreign v d) l (λ a. sym (is_foreign-same v db d a e))
        (ground arith))
    ∙ e
