-- ===== src/Domain/Planning/Laws.antt =====
-- What a normalised planning task satisfies, and that it is normalised to itself.
use lovechapter.Prelude.{ℕ, ◌≡◌, ◌↔◌, refl, false, Option, none, some}
use lovechapter.Prelude.Optional.{Field, absent, null, given, sent}
use lovechapter.Prelude.Result.{
  Result, ok, Ensures, ensured, Ensures-bind, Ensures-ok, invalid, throw_if-Ensures,
}
use lovechapter.Text.{Text}
use lovechapter.Domain.Validation.Laws.{
  IsNeat, IsNeatOption, IsDateOption, required_text-Ensures, required_text_of_IsNeat,
  optional_text-Ensures, optional_text_of_IsNeat, calendar_date-Ensures,
  calendar_date_of_IsDateOption,
}
use lovechapter.Domain.Planning.{
  CreatePlanningTaskInput, NormalizedPlanningTaskInput, UpdatePlanningTaskInput,
  normalize_planning_task_create, normalize_planning_task_patch, patch_text, patch_field,
  has_no_keys,
}

pub record IsTask (t : NormalizedPlanningTaskInput) : Type 0 where
  pub title : IsNeat 180 t.title
  pub category : IsNeatOption 80 t.category
  pub note : IsNeatOption 2000 t.note
  pub due_date : IsDateOption t.due_date

-- A normalised task, sent again.
abbrev pub resubmit : NormalizedPlanningTaskInput → CreatePlanningTaskInput
resubmit t = record {
  title = t.title;
  category = sent t.category;
  note = sent t.note;
  due_date = sent t.due_date;
}

normalize_planning_task_create-Ensures :
    (input : CreatePlanningTaskInput) → Ensures IsTask (normalize_planning_task_create input)
unfolding normalize_planning_task_create
normalize_planning_task_create-Ensures input =
    Ensures-bind _ _ (required_text-Ensures "Task title" 180 input.title) λ title ht.
      Ensures-bind _ _ (optional_text-Ensures 80 input.category) λ category hc.
        Ensures-bind _ _ (optional_text-Ensures 2000 input.note) λ note hn.
          Ensures-bind _ _ (calendar_date-Ensures (invalid "Invalid due date") input.due_date)
            λ due_date hd.
              Ensures-ok IsTask _ (record { title = ht; category = hc; note = hn; due_date = hd })

create_of_IsTask :
    (t : NormalizedPlanningTaskInput)
    → IsTask t
    → normalize_planning_task_create (resubmit t) ≡ ok t
unfolding normalize_planning_task_create
create_of_IsTask t h = simp (
  required_text_of_IsNeat "Task title" 180 t.title h.title,
  optional_text_of_IsNeat 80 t.category h.category,
  optional_text_of_IsNeat 2000 t.note h.note,
  calendar_date_of_IsDateOption (invalid "Invalid due date") t.due_date h.due_date,
)

-- A created planning task has a trimmed title of 1 to 180 characters, a category and a note that
-- are null or trimmed texts of at most 80 and 2000 characters, and a due date that is null or a
-- date of the calendar; sent again, such a task is accepted and comes back unchanged.
pub normalize_planning_task_create-IsTask :
    (input : CreatePlanningTaskInput) (t : NormalizedPlanningTaskInput)
    → normalize_planning_task_create input ≡ ok t
    → IsTask t × (normalize_planning_task_create (resubmit t) ≡ ok t)
normalize_planning_task_create-IsTask input t h =
    let task = ensured (normalize_planning_task_create-Ensures input) h in
    (task, create_of_IsTask t task)

-- A property of an update is there before and after, or neither.
abbrev pub SameKey {ℓ} : {A : Type ℓ} → Field A → Field A → Type 0
SameKey absent absent = Unit
SameKey absent _ = ⊥
SameKey _ absent = ⊥
SameKey _ _ = Unit

abbrev pub OnField {ℓ} : (Option Text → Type ℓ) → Field Text → Type ℓ
OnField P absent = Unit
OnField P null = P none
OnField P (given t) = P (some t)

pub record IsPatch (input p : UpdatePlanningTaskInput) : Type 0 where
  pub nonempty : has_no_keys input ≡ false
  pub title : IsNeatOption 180 p.title
  pub category : OnField (IsNeatOption 80) p.category
  pub note : OnField (IsNeatOption 2000) p.note
  pub due_date : OnField IsDateOption p.due_date
  pub same_title : (input.title ≡ none) ↔ (p.title ≡ none)
  pub same_category : SameKey input.category p.category
  pub same_note : SameKey input.note p.note
  pub same_due_date : SameKey input.due_date p.due_date
  pub same_completed : p.completed ≡ input.completed

sent-OnField :
    (P : Option Text → Type 0) (v : Field Text) (r : Option Text)
    → SameKey null v
    → P r
    → OnField P (sent r) × SameKey v (sent r)
sent-OnField P absent r k p = absurd k
sent-OnField P null none k p = (p, tt)
sent-OnField P null (some t) k p = (p, tt)
sent-OnField P (given v) none k p = (p, tt)
sent-OnField P (given v) (some t) k p = (p, tt)

patch_field-Ensures :
    (P : Option Text → Type 0) (check : Field Text → Result (Option Text)) (v : Field Text)
    → ((w : Field Text) → Ensures P (check w))
    → Ensures (λ r. OnField P r × SameKey v r) (patch_field check v)
patch_field-Ensures P check absent h = Ensures-ok _ _ (tt, tt)
patch_field-Ensures P check null h =
    Ensures-bind _ _ (h null) (λ r p. Ensures-ok _ _ (sent-OnField P null r tt p))
patch_field-Ensures P check (given v) h =
    Ensures-bind _ _ (h (given v)) (λ r p. Ensures-ok _ _ (sent-OnField P (given v) r tt p))

patch_text-Ensures :
    (max : ℕ) (check : Text → Result Text) (v : Option Text)
    → ((w : Text) → Ensures (IsNeat max) (check w))
    → Ensures (λ r. IsNeatOption max r × ((v ≡ none) ↔ (r ≡ none))) (patch_text check v)
patch_text-Ensures max check none h = Ensures-ok _ _ (tt, (λ e. e, λ e. e))
patch_text-Ensures max check (some v) h =
    Ensures-bind _ _ (h v) (λ t n. Ensures-ok _ _ (n, (λ e. cc, λ e. cc)))

normalize_planning_task_patch-Ensures :
    (input : UpdatePlanningTaskInput)
    → Ensures (IsPatch input) (normalize_planning_task_patch input)
unfolding normalize_planning_task_patch
normalize_planning_task_patch-Ensures input =
    let empty = invalid "Task update cannot be empty" in
    let bad_date = invalid "Invalid due date" in
    Ensures-bind _ _ (throw_if-Ensures (has_no_keys input) empty) λ _ nonempty.
      Ensures-bind _ _
        (patch_text-Ensures 180 _ input.title (required_text-Ensures "Task title" 180))
        λ title ht.
          Ensures-bind _ _
            (patch_field-Ensures (IsNeatOption 80) _ input.category (optional_text-Ensures 80))
            λ category hc.
              Ensures-bind _ _
                (patch_field-Ensures (IsNeatOption 2000) _ input.note (optional_text-Ensures 2000))
                λ note hn.
                  Ensures-bind _ _
                    (patch_field-Ensures IsDateOption _ input.due_date
                      (calendar_date-Ensures bad_date))
                    λ due_date hd. Ensures-ok (IsPatch input) _ (record {
                      nonempty = nonempty;
                      title = ht.0;
                      category = hc.0;
                      note = hn.0;
                      due_date = hd.0;
                      same_title = ht.1;
                      same_category = hc.1;
                      same_note = hn.1;
                      same_due_date = hd.1;
                      same_completed = refl;
                    })

-- An accepted update is not empty, has exactly the properties of the input, with the flag
-- `completed` as it was, and each text and date in it satisfies the rules of a created task.
pub normalize_planning_task_patch-IsPatch :
    (input p : UpdatePlanningTaskInput)
    → normalize_planning_task_patch input ≡ ok p
    → IsPatch input p
normalize_planning_task_patch-IsPatch input p h =
    ensured (normalize_planning_task_patch-Ensures input) h
