-- ===== src/Database/PlanningTests.antt =====
-- Three open tasks and a completed one, in pages of two.
use lovechapter.Prelude.{ℕ, ◌≡◌, ◌<◌, refl, true, Option, none, some, [], ◌∷◌, length, arith}
use lovechapter.Database.Rows.{Scope}
use lovechapter.Database.Planning.{
  TaskRow, PlanningDb, open_tasks, has_access, is_planning_member, ordered_tasks,
}
use lovechapter.Database.Planning.Pages.{AreApart}
use lovechapter.Database.Planning.Pages.Walk.{all_pages, all_pages-ordered_tasks}

abbrev task_row : ℕ → ℕ → Option ℕ → TaskRow
task_row id created_at completed_at = record {
  wedding_id = 1;
  id = id;
  title = 60;
  category = none;
  note = none;
  due_date = none;
  completed_at = completed_at;
  created_at = created_at;
  updated_at = created_at;
}

abbrev planning : PlanningDb
planning = record {
  weddings = 1 ∷ [];
  members = record { wedding_id = 1; user_id = 11 } ∷ [];
  tasks =
      task_row 1 100 none
      ∷ task_row 2 200 (some 250)
      ∷ task_row 3 100 none
      ∷ task_row 4 300 none
      ∷ [];
}

abbrev alice : Scope
alice = record { user_id = 11; wedding_id = 1 }

planning_open : has_access alice planning ≡ true
unfolding has_access is_planning_member
planning_open = refl

planning-AreApart : AreApart planning.tasks
planning-AreApart = ((refl, (refl, (refl, tt))), ((refl, (refl, tt)), ((refl, tt), (tt, tt))))

planning_fuel : length (ordered_tasks 1 open_tasks planning.tasks) < 5
unfolding ordered_tasks
planning_fuel = omega arith

all_pages-ordered_tasks_example :
    all_pages 5 alice open_tasks 2 planning none ≡ ordered_tasks 1 open_tasks planning.tasks
all_pages-ordered_tasks_example =
    all_pages-ordered_tasks alice open_tasks 2 planning 5 planning_open planning-AreApart
      (omega arith) planning_fuel
