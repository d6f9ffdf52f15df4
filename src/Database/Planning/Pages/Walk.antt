-- ===== src/Database/Planning/Pages/Walk.antt =====
-- The pages of a list, one after the other.
use lovechapter.Prelude.{
  ℕ, zero, suc, ◌≤◌, ◌<◌, ◌≡◌, refl, sym, ap, ◌∙◌, true, ◌&&◌, Option, none, some, List, [], ◌∷◌,
  ◌++◌, if◌then◌else◌, ltb, ◌==◌, length, length-append, arith, All, Bool-cases, inl, inr,
}
use lovechapter.Prelude.Result.{Result, ok, err}
use lovechapter.Auth.Tables.{select_where}
use lovechapter.Database.Rows.{Scope}
use lovechapter.Database.Planning.{
  TaskRow, PlanningDb, has_access, Key, key_of, TaskFilter, passes, behind, limited, ordered_tasks,
  list_query, last_key, TaskPage, page_from_rows, list_planning_tasks,
}
use lovechapter.Database.Planning.Pages.{
  Descends, AreApart, order_by_key-Descends, select_where-AreApart, select_behind, select-All,
}

ordered_tasks-Descends :
    (w : ℕ) (f : TaskFilter) (tasks : List TaskRow)
    → AreApart tasks
    → Descends (ordered_tasks w f tasks)
unfolding ordered_tasks
ordered_tasks-Descends w f tasks h =
    order_by_key-Descends (select_where (λ (t : TaskRow). t.wedding_id == w && passes f t) tasks)
      (select_where-AreApart (λ (t : TaskRow). t.wedding_id == w && passes f t) tasks h)

-- What a client shows that asks for the next page as long as there is a cursor.
abbrev pub go_on : (Option Key → List TaskRow) → Option Key → List TaskRow
go_on more none = []
go_on more (some k) = more (some k)

abbrev pub shown : (Option Key → List TaskRow) → Result TaskPage → List TaskRow
shown more (err e) = []
shown more (ok page) = page.items ++ go_on more page.next_cursor

unfoldable pub all_pages : ℕ → Scope → TaskFilter → ℕ → PlanningDb → Option Key → List TaskRow
all_pages zero s f limit db cursor = []
all_pages (suc fuel) s f limit db cursor =
    shown (all_pages fuel s f limit db) (list_planning_tasks s f cursor limit db)

limited_twice : (n : ℕ) (l : List TaskRow) → limited n (limited (suc n) l) ≡ limited n l
limited_twice zero l = refl
limited_twice (suc n) [] = refl
limited_twice (suc n) (t ∷ l) = rw (limited_twice n l) refl

limited_more : (n : ℕ) (l : List TaskRow) → ltb n (length (limited (suc n) l)) ≡ ltb n (length l)
limited_more zero [] = refl
limited_more zero (t ∷ l) = ground arith
limited_more (suc n) [] = refl
limited_more (suc n) (t ∷ l) = ground (arith, limited_more n l)

limited_all : (n : ℕ) (l : List TaskRow) → length l ≤ n → limited n l ≡ l
limited_all zero [] h = refl
limited_all zero (t ∷ l) h = absurd (omega arith)
limited_all (suc n) [] h = refl
limited_all (suc n) (t ∷ l) h = rw (limited_all n l (omega arith)) refl

append_nil : (l : List TaskRow) → l ++ [] ≡ l
append_nil [] = refl
append_nil (t ∷ l) = rw (append_nil l) refl

append_assoc : (a b c : List TaskRow) → (a ++ b) ++ c ≡ a ++ (b ++ c)
append_assoc [] b c = refl
append_assoc (t ∷ a) b c = rw (append_assoc a b c) refl

-- A full page with more behind it: its rows but the last, the last, and the rest.
record IsCut (n : ℕ) (l : List TaskRow) : Type 0 where
  start : List TaskRow
  last : TaskRow
  rest : List TaskRow
  whole : l ≡ start ++ (last ∷ rest)
  page : limited (suc n) l ≡ start ++ (last ∷ [])

cut : (n : ℕ) (l : List TaskRow) → suc n < length l → IsCut n l
cut n [] h = absurd (omega arith)
cut zero (t ∷ l) h = record { start = []; last = t; rest = l; whole = refl; page = refl }
cut (suc n) (t ∷ l) h =
    let c = cut n l (omega arith) in
    record {
      start = t ∷ c.start;
      last = c.last;
      rest = c.rest;
      whole = ap (λ x. t ∷ x) c.whole;
      page = ap (λ x. t ∷ x) c.page;
    }

last_key-append : (l : List TaskRow) (t : TaskRow) → last_key (l ++ (t ∷ [])) ≡ some (key_of t)
last_key-append [] t = refl
last_key-append (u ∷ []) t = refl
last_key-append (u ∷ v ∷ l) t = last_key-append (v ∷ l) t

select_behind_cut :
    (o pre : List TaskRow) (k : TaskRow) (post : List TaskRow)
    → o ≡ pre ++ (k ∷ post)
    → Descends o
    → select_where (behind (some (key_of k))) o ≡ post
select_behind_cut o pre k post e d = rw e (select_behind pre k post (rw e at d))

rest_less :
    (l start : List TaskRow) (k : TaskRow) (rest : List TaskRow) (fuel : ℕ)
    → l ≡ start ++ (k ∷ rest)
    → length l < suc fuel
    → length rest < fuel
rest_less l start k rest fuel e h =
    omega (arith, ap (λ (x : List TaskRow). length x) e, length-append start (k ∷ rest))

cut_again :
    (o pre l start : List TaskRow) (k : TaskRow) (rest : List TaskRow)
    → o ≡ pre ++ l
    → l ≡ start ++ (k ∷ rest)
    → o ≡ (pre ++ start) ++ (k ∷ rest)
cut_again o pre l start k rest e c =
    e ∙ ap (λ x. pre ++ x) c ∙ sym (append_assoc pre start (k ∷ rest))

module _ (s : Scope) (f : TaskFilter) (n : ℕ) (db : PlanningDb)
    (member : has_access s db ≡ true) where
  abbrev ordered : List TaskRow
  ordered = ordered_tasks s.wedding_id f db.tasks

  page_of :
      (cursor : Option Key) (l : List TaskRow)
      → select_where (behind cursor) ordered ≡ l
      → list_planning_tasks s f cursor (suc n) db
        ≡ ok (record {
          items = limited (suc n) l;
          next_cursor = if ltb (suc n) (length l) then last_key (limited (suc n) l) else none;
        })
  unfolding list_planning_tasks list_query page_from_rows
  page_of cursor l e = rw (member, e, limited_twice (suc n) l, limited_more (suc n) l) refl

  walk :
      (fuel : ℕ) (cursor : Option Key) (pre l : List TaskRow)
      → Descends ordered
      → ordered ≡ pre ++ l
      → select_where (behind cursor) ordered ≡ l
      → length l < fuel
      → all_pages fuel s f (suc n) db cursor ≡ l
  unfolding all_pages
  walk zero cursor pre l d e at h = absurd (omega arith)
  walk (suc fuel) cursor pre l d e at h = elim (Bool-cases (ltb (suc n) (length l))) [
    | inl more ↦
        let c = cut n l (ground arith) in
        let here = cut_again ordered pre l c.start c.last c.rest e c.whole in
        let ih =
          walk fuel (some (key_of c.last)) ((pre ++ c.start) ++ (c.last ∷ [])) c.rest d
            (here ∙ sym (append_assoc (pre ++ c.start) (c.last ∷ []) c.rest))
            (select_behind_cut ordered (pre ++ c.start) c.last c.rest here d)
            (rest_less l c.start c.last c.rest fuel c.whole h) in
        rw (page_of cursor l at, more, c.page, last_key-append c.start c.last, ih)
          (append_assoc c.start (c.last ∷ []) c.rest ∙ sym c.whole)
    | inr done ↦ rw (page_of cursor l at, done, limited_all (suc n) l (ground arith)) (append_nil l)
  ]

always : (l : List TaskRow) → All (λ u. behind none u ≡ true) l
always [] = tt
always (t ∷ l) = (refl, always l)

-- For a member of the wedding, and rows no two of which were created at one time under one identifier,
-- following the cursors of `listPlanningTasks` with any page size of at least one shows exactly the tasks
-- of the wedding that pass the filter, each once and in order, once as many pages may be asked for as
-- there are tasks to show, and one more.
pub all_pages-ordered_tasks :
    (s : Scope) (f : TaskFilter) (limit : ℕ) (db : PlanningDb) (fuel : ℕ)
    → has_access s db ≡ true
    → AreApart db.tasks
    → 1 ≤ limit
    → length (ordered_tasks s.wedding_id f db.tasks) < fuel
    → all_pages fuel s f limit db none ≡ ordered_tasks s.wedding_id f db.tasks
all_pages-ordered_tasks s f zero db fuel member apart one enough = absurd (omega arith)
all_pages-ordered_tasks s f (suc n) db fuel member apart one enough =
    let o = ordered_tasks s.wedding_id f db.tasks in
    walk s f n db member fuel none [] o (ordered_tasks-Descends s.wedding_id f db.tasks apart) refl
      (select-All (behind none) o (always o)) enough
