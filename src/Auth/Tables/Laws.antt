-- ===== src/Auth/Tables/Laws.antt =====
-- Selecting and updating the rows of a table.
use lovechapter.Prelude.{
  ◌≡◌, refl, Bool, true, false, some, List, [], ◌∷◌, arith, inl, inr, ◌⊎◌, Bool-cases, eq_of_some,
}
use mathlib.Core.Bool.{false≢true}
use lovechapter.Auth.Tables.{update_where, delete_where, first_where, exists_where}

-- A row that is found passes the test.
pub first_where-passes {ℓ} :
    {A : Type ℓ} (p : A → Bool) (l : List A) (a : A) → first_where p l ≡ some a → p a ≡ true
first_where-passes p [] a h = cc
first_where-passes p (x ∷ l) a h = elim (Bool-cases (p x)) [
  | inl hit ↦ let e : some x ≡ some a = rw hit at h in rw (← eq_of_some x a e) hit
  | inr miss ↦ first_where-passes p l a (rw miss at h)
]

-- An update that finds no row changes nothing.
pub update_where_none {ℓ} :
    {A : Type ℓ} (p : A → Bool) (f : A → A) (l : List A)
    → exists_where p l ≡ false
    → update_where p f l ≡ l
update_where_none p f [] h = refl
update_where_none p f (a ∷ l) h = ground (arith, update_where_none p f l)

-- Where some row passes a test, a weaker test finds a row.
pub first_where_weaker {ℓ} :
    {A : Type ℓ} (p q : A → Bool) (l : List A)
    → ((a : A) → p a ≡ true → q a ≡ true)
    → exists_where p l ≡ true
    → (a : A) × (first_where q l ≡ some a)
first_where_weaker p q [] w h = absurd (false≢true h)
first_where_weaker p q (x ∷ l) w h = elim (Bool-cases (q x)) [
  | inl hit ↦ rw hit (x, refl)
  | inr miss ↦ elim (Bool-cases (p x)) [
    | inl pass ↦ ground (arith, w x)
    | inr fail ↦ rw miss (first_where_weaker p q l w (rw fail at h))
  ]
]

-- The row stands in the table.
abbrev pub IsRowOf : {A : Type 0} → List A → A → Type 0
IsRowOf [] a = ⊥
IsRowOf (x ∷ l) a = (x ≡ a) ⊎ IsRowOf l a

pub first_where-IsRowOf :
    {A : Type 0} (p : A → Bool) (l : List A) (a : A) → first_where p l ≡ some a → IsRowOf l a
first_where-IsRowOf p [] a h = cc
first_where-IsRowOf p (x ∷ l) a h = elim (Bool-cases (p x)) [
  | inl hit ↦ let e : some x ≡ some a = rw hit at h in inl (eq_of_some x a e)
  | inr miss ↦ inr (first_where-IsRowOf p l a (rw miss at h))
]

-- A test that an update does not touch finds what it found before.
pub exists_where-update_where {ℓ} :
    {A : Type ℓ} (p q : A → Bool) (f : A → A) (l : List A)
    → ((a : A) → p (f a) ≡ p a)
    → exists_where p (update_where q f l) ≡ exists_where p l
exists_where-update_where p q f [] same = refl
exists_where-update_where p q f (a ∷ l) same = elim (Bool-cases (q a)) [
  | inl hit ↦ rw (hit, same a, exists_where-update_where p q f l same) refl
  | inr miss ↦ rw (miss, exists_where-update_where p q f l same) refl
]

-- A row that is not there is not there after a deletion either.
pub exists_where-delete_where {ℓ} :
    {A : Type ℓ} (p q : A → Bool) (l : List A)
    → exists_where p l ≡ false
    → exists_where p (delete_where q l) ≡ false
exists_where-delete_where p q [] h = refl
exists_where-delete_where p q (a ∷ l) h = ground (arith, exists_where-delete_where p q l)
