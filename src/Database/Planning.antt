-- ===== src/Database/Planning.antt =====
-- `PostgresPlanningRepository` (packages/database/src/planning-repository.ts) over the statements of
-- planning-queries.ts. Identifiers and texts are numbers; `now` is the time of the statement.
pub mod Pages
use lovechapter.Prelude.{
  ℕ, zero, suc, ◌+◌, Bool, true, false, ◌&&◌, ◌||◌, not, Option, none, some, List, [], ◌∷◌,
  if◌then◌else◌, ltb, ◌==◌, any, length,
}
use lovechapter.Prelude.Optional.{Field, absent, null, given, or_null}
use lovechapter.Prelude.Result.{
  database_error, Result, ok, err, ◌>>=◌, ◌>>◌, throw_if, not_found, conflict,
}
use lovechapter.Auth.Tables.{
  select_where, update_where, delete_where, first_where, is_null, coalesce,
}
use lovechapter.Database.Rows.{Scope, MemberRow, keyed}

pub record TaskRow : Type 0 where
  pub wedding_id : ℕ
  pub id : ℕ
  pub title : ℕ
  pub category : Option ℕ
  pub note : Option ℕ
  pub due_date : Option ℕ
  pub completed_at : Option ℕ
  pub created_at : ℕ
  pub updated_at : ℕ

pub record PlanningDb : Type 0 where
  pub weddings : List ℕ
  pub members : List MemberRow
  pub tasks : List TaskRow

unfoldable pub is_planning_member : Scope → PlanningDb → Bool
is_planning_member s db =
    any (λ m. m.wedding_id == s.wedding_id && m.user_id == s.user_id) db.members

-- `buildPlanningAccessQuery`
unfoldable pub has_access : Scope → PlanningDb → Bool
unfolding is_planning_member
has_access s db = any (λ w. w == s.wedding_id) db.weddings && is_planning_member s db

-- `(created_at, id)`
abbrev pub Key : Type 0
Key = ℕ × ℕ

abbrev pub key_of : TaskRow → Key
key_of t = (t.created_at, t.id)

-- `a < b` on rows of two columns
abbrev pub key_less : Key → Key → Bool
key_less a b = ltb a.0 b.0 || (a.0 == b.0 && ltb a.1 b.1)

abbrev pub insert_by_key : TaskRow → List TaskRow → List TaskRow
insert_by_key t [] = t ∷ []
insert_by_key t (a ∷ l) =
    let rest = insert_by_key t l in if key_less (key_of a) (key_of t) then t ∷ a ∷ l else a ∷ rest

-- `order by created_at desc, id desc`
abbrev pub order_by_key : List TaskRow → List TaskRow
order_by_key [] = []
order_by_key (t ∷ l) = insert_by_key t (order_by_key l)

pub data TaskFilter : Type 0 where
  all_tasks open_tasks completed_tasks : TaskFilter

abbrev pub passes : TaskFilter → TaskRow → Bool
passes all_tasks t = true
passes open_tasks t = is_null t.completed_at
passes completed_tasks t = not (is_null t.completed_at)

abbrev pub behind : Option Key → TaskRow → Bool
behind none t = true
behind (some k) t = key_less (key_of t) k

-- `limit n`
abbrev pub limited : ℕ → List TaskRow → List TaskRow
limited zero l = []
limited (suc n) [] = []
limited (suc n) (t ∷ l) = t ∷ limited n l

-- The tasks of a wedding that pass the filter, in order.
unfoldable pub ordered_tasks : ℕ → TaskFilter → List TaskRow → List TaskRow
ordered_tasks w f tasks =
    order_by_key (select_where (λ (t : TaskRow). t.wedding_id == w && passes f t) tasks)

-- `buildPlanningListQuery`; whether the rows are ordered before the cursor selects among them is not seen.
unfoldable pub list_query : ℕ → TaskFilter → Option Key → ℕ → List TaskRow → List TaskRow
unfolding ordered_tasks
list_query w f cursor limit tasks =
    limited (suc limit) (select_where (behind cursor) (ordered_tasks w f tasks))

-- `items.at(-1)`
abbrev pub last_key : List TaskRow → Option Key
last_key [] = none
last_key (t ∷ []) = some (key_of t)
last_key (t ∷ u ∷ l) = last_key (u ∷ l)

pub record TaskPage : Type 0 where
  pub items : List TaskRow
  pub next_cursor : Option Key

unfoldable pub page_from_rows : ℕ → List TaskRow → TaskPage
page_from_rows limit rows = record {
  items = limited limit rows;
  next_cursor = if ltb limit (length rows) then last_key (limited limit rows) else none;
}

unfoldable pub list_planning_tasks :
    Scope → TaskFilter → Option Key → ℕ → PlanningDb → Result TaskPage
unfolding list_query page_from_rows
list_planning_tasks s f cursor limit db = do
  throw_if (not (has_access s db)) (not_found "Wedding not found")
  ok (page_from_rows limit (list_query s.wedding_id f cursor limit db.tasks))

pub record NewTask : Type 0 where
  pub title : ℕ
  pub category : Option ℕ
  pub note : Option ℕ
  pub due_date : Option ℕ

abbrev pub task_at : ℕ → ℕ → TaskRow → Bool
task_at w id t = keyed w id t.wedding_id t.id

-- An identifier that is taken is an error of the database; `crypto.randomUUID` gives a new one.
unfoldable pub create_planning_task :
    Scope → ℕ → ℕ → NewTask → PlanningDb → Result (TaskRow × PlanningDb)
create_planning_task s id now input db = do
  throw_if (not (is_planning_member s db)) (not_found "Wedding not found")
  throw_if (any (task_at s.wedding_id id) db.tasks) (database_error "duplicate key")
  let row : TaskRow = record {
    wedding_id = s.wedding_id;
    id = id;
    title = input.title;
    category = input.category;
    note = input.note;
    due_date = input.due_date;
    completed_at = none;
    created_at = now;
    updated_at = now;
  }
  ok (row, record db { tasks = row ∷ db.tasks })

pub record TaskPatch : Type 0 where
  pub title : Option ℕ
  pub category : Field ℕ
  pub note : Field ℕ
  pub due_date : Field ℕ
  pub completed : Option Bool

abbrev pub or_kept : Option ℕ → ℕ → ℕ
or_kept none old = old
or_kept (some new) old = new

abbrev pub set_or_kept : Field ℕ → Option ℕ → Option ℕ
set_or_kept absent old = old
set_or_kept null old = none
set_or_kept (given new) old = some new

-- `case when completed then coalesce(completed_at, now()) else null end`
abbrev pub completion : Option Bool → ℕ → Option ℕ → Option ℕ
completion none now old = old
completion (some true) now old = some (coalesce old now)
completion (some false) now old = none

abbrev pub patched : TaskPatch → ℕ → TaskRow → TaskRow
patched p now t = record t {
  title = or_kept p.title t.title;
  category = set_or_kept p.category t.category;
  note = set_or_kept p.note t.note;
  due_date = set_or_kept p.due_date t.due_date;
  completed_at = completion p.completed now t.completed_at;
  updated_at = now;
}

abbrev pub require_task : Option TaskRow → Result TaskRow
require_task none = err (not_found "Task not found")
require_task (some t) = ok t

unfoldable pub update_planning_task :
    Scope → ℕ → TaskPatch → ℕ → PlanningDb → Result (TaskRow × PlanningDb)
update_planning_task s id p now db = do
  throw_if (not (is_planning_member s db)) (not_found "Task not found")
  row ← require_task (first_where (task_at s.wedding_id id) db.tasks)
  ok (
    patched p now row,
    record db { tasks = update_where (task_at s.wedding_id id) (patched p now) db.tasks },
  )

unfoldable pub delete_planning_task : Scope → ℕ → PlanningDb → Result PlanningDb
delete_planning_task s id db = do
  throw_if (not (is_planning_member s db)) (not_found "Task not found")
  _ ← require_task (first_where (task_at s.wedding_id id) db.tasks)
  ok (record db { tasks = delete_where (task_at s.wedding_id id) db.tasks })
