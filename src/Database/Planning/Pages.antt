-- ===== src/Database/Planning/Pages.antt =====
-- Following the cursors of a list.
pub mod Walk
use lovechapter.Prelude.{
  ℕ, zero, suc, ◌+◌, ◌≤◌, ◌<◌, ◌≡◌, refl, sym, ap, ◌∙◌, Bool, true, false, ◌&&◌, ◌||◌, not, Option,
  none, some, List, [], ◌∷◌, ◌++◌, if◌then◌else◌, ltb, ◌==◌, length, arith, All, Bool-cases, inl,
  inr,
}
use lovechapter.Prelude.Result.{Result, ok, err, throw_if, not_found}
use lovechapter.Auth.Tables.{select_where}
use lovechapter.Database.Rows.{Scope}
use lovechapter.Database.Planning.{
  TaskRow, PlanningDb, has_access, Key, key_of, key_less, insert_by_key, order_by_key, TaskFilter,
  passes, behind, limited, ordered_tasks, list_query, last_key, TaskPage, page_from_rows,
  list_planning_tasks,
}

-- Every key of the list is smaller than those before it.
abbrev pub Descends : List TaskRow → Type 0
Descends [] = Unit
Descends (t ∷ l) = All (λ u. key_less (key_of u) (key_of t) ≡ true) l × Descends l

-- No two rows have the same key.
abbrev pub AreApart : List TaskRow → Type 0
AreApart [] = Unit
AreApart (t ∷ l) = All (λ u. (u.created_at == t.created_at && u.id == t.id) ≡ false) l × AreApart l

less_trans : (a b c : Key) → key_less a b ≡ true → key_less b c ≡ true → key_less a c ≡ true
less_trans a b c h k = ground arith

less_total :
    (a b : Key) → (b.0 == a.0 && b.1 == a.1) ≡ false → key_less b a ≡ false → key_less a b ≡ true
less_total a b h k = ground arith

All-less :
    (a b : Key) (l : List TaskRow)
    → key_less a b ≡ true
    → All (λ u. key_less (key_of u) a ≡ true) l
    → All (λ u. key_less (key_of u) b ≡ true) l
All-less a b [] e h = tt
All-less a b (u ∷ l) e h = (less_trans (key_of u) a b h.0 e, All-less a b l e h.1)

All-insert_by_key {ℓ} :
    (P : TaskRow → Type ℓ) (t : TaskRow) (l : List TaskRow)
    → P t
    → All P l
    → All P (insert_by_key t l)
All-insert_by_key P t [] p h = (p, tt)
All-insert_by_key P t (a ∷ l) p h = elim (Bool-cases (key_less (key_of a) (key_of t))) [
  | inl e ↦ rw e (p, h)
  | inr e ↦ rw e (h.0, All-insert_by_key P t l p h.1)
]

All-order_by_key {ℓ} : (P : TaskRow → Type ℓ) (l : List TaskRow) → All P l → All P (order_by_key l)
All-order_by_key P [] h = tt
All-order_by_key P (t ∷ l) h = All-insert_by_key P t (order_by_key l) h.0 (All-order_by_key P l h.1)

insert_by_key-Descends :
    (t : TaskRow) (l : List TaskRow)
    → All (λ u. (u.created_at == t.created_at && u.id == t.id) ≡ false) l
    → Descends l
    → Descends (insert_by_key t l)
insert_by_key-Descends t [] n h = (tt, tt)
insert_by_key-Descends t (a ∷ l) n h = elim (Bool-cases (key_less (key_of a) (key_of t))) [
  | inl e ↦ rw e ((e, All-less (key_of a) (key_of t) l e h.0), h)
  | inr e ↦ rw e (
    All-insert_by_key (λ u. key_less (key_of u) (key_of a) ≡ true) t l
        (less_total (key_of t) (key_of a) n.0 e) h.0,
    insert_by_key-Descends t l n.1 h.1,
  )
]

pub order_by_key-Descends : (l : List TaskRow) → AreApart l → Descends (order_by_key l)
order_by_key-Descends [] h = tt
order_by_key-Descends (t ∷ l) h =
    insert_by_key-Descends t (order_by_key l)
      (All-order_by_key (λ u. (u.created_at == t.created_at && u.id == t.id) ≡ false) l h.0)
      (order_by_key-Descends l h.1)

All-select_where {ℓ} :
    (P : TaskRow → Type ℓ) (q : TaskRow → Bool) (l : List TaskRow)
    → All P l
    → All P (select_where q l)
All-select_where P q [] h = tt
All-select_where P q (t ∷ l) h = elim (Bool-cases (q t)) [
  | inl e ↦ rw e (h.0, All-select_where P q l h.1)
  | inr e ↦ rw e (All-select_where P q l h.1)
]

pub select_where-AreApart :
    (q : TaskRow → Bool) (l : List TaskRow) → AreApart l → AreApart (select_where q l)
select_where-AreApart q [] h = tt
select_where-AreApart q (t ∷ l) h = elim (Bool-cases (q t)) [
  | inl e ↦ rw e (
    All-select_where (λ u. (u.created_at == t.created_at && u.id == t.id) ≡ false) q l h.0,
    select_where-AreApart q l h.1,
  )
  | inr e ↦ rw e (select_where-AreApart q l h.1)
]

pub select-All :
    (q : TaskRow → Bool) (l : List TaskRow) → All (λ u. q u ≡ true) l → select_where q l ≡ l
select-All q [] h = refl
select-All q (t ∷ l) h = rw (h.0, select-All q l h.1) refl

not_less_self : (a : Key) → key_less a a ≡ false
not_less_self a = ground arith

less_asym : (a b : Key) → key_less a b ≡ true → key_less b a ≡ false
less_asym a b h = ground arith

All-behind :
    (t k : TaskRow) (pre post : List TaskRow)
    → All (λ u. key_less (key_of u) (key_of t) ≡ true) (pre ++ (k ∷ post))
    → key_less (key_of k) (key_of t) ≡ true
All-behind t k [] post h = h.0
All-behind t k (p ∷ pre) post h = All-behind t k pre post h.1

-- Behind a row of the ordered list stand the rows that follow it.
pub select_behind :
    (pre : List TaskRow) (k : TaskRow) (post : List TaskRow)
    → Descends (pre ++ (k ∷ post))
    → select_where (behind (some (key_of k))) (pre ++ (k ∷ post)) ≡ post
select_behind [] k post h =
    rw (not_less_self (key_of k)) (select-All (behind (some (key_of k))) post h.0)
select_behind (t ∷ pre) k post h =
    rw (less_asym (key_of k) (key_of t) (All-behind t k pre post h.0))
      (select_behind pre k post h.1)
