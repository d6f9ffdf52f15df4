-- ===== src/Domain/Planning.antt =====
-- packages/domain/src/planning.ts
pub mod Laws
use lovechapter.Prelude.{Bool, true, false, ◌&&◌, Option, none, some, if◌then◌else◌}
use lovechapter.Prelude.Optional.{Field, absent, null, given, sent}
use lovechapter.Prelude.Result.{Result, ok, err, ◌>>=◌, ◌>>◌, throw_if, invalid}
use lovechapter.Text.{Text}
use lovechapter.Domain.Calendar.{calendar_date}
use lovechapter.Domain.Validation.{required_text, optional_text}

pub record CreatePlanningTaskInput : Type 0 where
  pub title : Text
  pub category : Field Text
  pub note : Field Text
  pub due_date : Field Text

pub record NormalizedPlanningTaskInput : Type 0 where
  pub title : Text
  pub category : Option Text
  pub note : Option Text
  pub due_date : Option Text

unfoldable pub normalize_planning_task_create :
    CreatePlanningTaskInput → Result NormalizedPlanningTaskInput
normalize_planning_task_create input = do
  title ← required_text "Task title" 180 input.title
  category ← optional_text 80 input.category
  note ← optional_text 2000 input.note
  due_date ← calendar_date (invalid "Invalid due date") input.due_date
  ok (record { title = title; category = category; note = note; due_date = due_date })

pub record UpdatePlanningTaskInput : Type 0 where
  pub title : Option Text
  pub category : Field Text
  pub note : Field Text
  pub due_date : Field Text
  pub completed : Option Bool

abbrev is_absent {ℓ} : {A : Type ℓ} → Field A → Bool
is_absent absent = true
is_absent _ = false

abbrev is_undefined {ℓ} : {A : Type ℓ} → Option A → Bool
is_undefined none = true
is_undefined (some _) = false

-- `!Object.keys(input).length`, of an input whose properties are all defined
abbrev has_no_keys : UpdatePlanningTaskInput → Bool
has_no_keys input =
    is_undefined input.title
    && is_absent input.category
    && is_absent input.note
    && is_absent input.due_date
    && is_undefined input.completed

-- `...(value !== undefined ? { key: check(value) } : {})`
abbrev patch_text : (Text → Result Text) → Option Text → Result (Option Text)
patch_text check none = ok none
patch_text check (some v) = do t ← check v; ok (some t)

abbrev patch_field : (Field Text → Result (Option Text)) → Field Text → Result (Field Text)
patch_field check absent = ok absent
patch_field check null = do t ← check null; ok (sent t)
patch_field check (given v) = do t ← check (given v); ok (sent t)

unfoldable pub normalize_planning_task_patch :
    UpdatePlanningTaskInput → Result UpdatePlanningTaskInput
normalize_planning_task_patch input = do
  throw_if (has_no_keys input) (invalid "Task update cannot be empty")
  title ← patch_text (required_text "Task title" 180) input.title
  category ← patch_field (optional_text 80) input.category
  note ← patch_field (optional_text 2000) input.note
  due_date ← patch_field (calendar_date (invalid "Invalid due date")) input.due_date
  ok (record {
    title = title;
    category = category;
    note = note;
    due_date = due_date;
    completed = input.completed;
  })
