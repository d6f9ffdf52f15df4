-- ===== src/Domain/Service/Planning.antt =====
-- Planning tasks and envelopes.
use lovechapter.Prelude.{Bool, true, false, not, some}
use lovechapter.Prelude.Result.{Result, ok, ◌>>=◌, ◌>>◌, throw_if, invalid}
use lovechapter.Text.{Text}
use lovechapter.Text.Uuid.{is_uuid}
use lovechapter.Domain.Planning.{
  CreatePlanningTaskInput, UpdatePlanningTaskInput, normalize_planning_task_create,
  normalize_planning_task_patch,
}
use lovechapter.Domain.Envelope.{
  EnvelopeTemplateInput, EnvelopePrintDataInput, normalize_envelope_template_input,
  normalize_envelope_print_data_input,
}
use lovechapter.Domain.Requests.{PageInput, outside, normalize_page}
use lovechapter.Domain.Service.{
  Env, Session, PlanningTaskFilter, other_filter, tasks_listed, planning_overview_read,
  task_created, task_updated, task_deleted, templates_listed, template_created, template_updated,
  template_deleted, print_data_read, Call, as_onboarded,
}

abbrev pub is_filter : PlanningTaskFilter → Bool
is_filter other_filter = false
is_filter _ = true

unfoldable pub list_planning_tasks :
    Env → Session → Text → PageInput → PlanningTaskFilter → Result Call
list_planning_tasks e s w page filter = as_onboarded s (some w) (do
  throw_if (outside 50 page.limit) (invalid "Planning task page must have 1–50 items")
  throw_if (not (is_filter filter)) (invalid "Invalid task filter")
  p ← normalize_page e.cursors page
  ok (tasks_listed p filter))

unfoldable pub get_planning_overview : Session → Text → Result Call
get_planning_overview s w = as_onboarded s (some w) (ok planning_overview_read)

unfoldable pub create_planning_task : Session → Text → Text → CreatePlanningTaskInput → Result Call
create_planning_task s w fresh input =
    as_onboarded s (some w)
      (do task ← normalize_planning_task_create input; ok (task_created fresh task))

unfoldable pub update_planning_task : Session → Text → Text → UpdatePlanningTaskInput → Result Call
update_planning_task s w id input = as_onboarded s (some w) (do
  throw_if (not (is_uuid id)) (invalid "Invalid task ID")
  patch ← normalize_planning_task_patch input
  ok (task_updated id patch))

unfoldable pub delete_planning_task : Session → Text → Text → Result Call
delete_planning_task s w id =
    as_onboarded s (some w)
      (do throw_if (not (is_uuid id)) (invalid "Invalid task ID"); ok (task_deleted id))

unfoldable pub list_envelope_templates : Session → Text → Result Call
list_envelope_templates s w = as_onboarded s (some w) (ok templates_listed)

unfoldable pub create_envelope_template :
    Session → Text → Text → EnvelopeTemplateInput → Result Call
create_envelope_template s w fresh input =
    as_onboarded s (some w)
      (do template ← normalize_envelope_template_input input; ok (template_created fresh template))

unfoldable pub update_envelope_template :
    Session → Text → Text → EnvelopeTemplateInput → Result Call
update_envelope_template s w id input = as_onboarded s (some w) (do
  throw_if (not (is_uuid id)) (invalid "Invalid template ID")
  template ← normalize_envelope_template_input input
  ok (template_updated id template))

unfoldable pub delete_envelope_template : Session → Text → Text → Result Call
delete_envelope_template s w id =
    as_onboarded s (some w)
      (do throw_if (not (is_uuid id)) (invalid "Invalid template ID"); ok (template_deleted id))

unfoldable pub get_envelope_print_data : Session → Text → EnvelopePrintDataInput → Result Call
get_envelope_print_data s w input =
    as_onboarded s (some w)
      (do selection ← normalize_envelope_print_data_input input; ok (print_data_read selection))
