-- ===== src/Domain/Tests.antt =====
-- Inputs of the domain rules and what they normalise to.
use lovechapter.Prelude.{◌≡◌, ◌↔◌, refl, true, none, some, arith}
use lovechapter.Prelude.Number.{whole}
use lovechapter.Prelude.Optional.{absent, null, given}
use lovechapter.Prelude.Result.{ok}
use lovechapter.Text.{codes, trim, trim_start, trim_end, is_space, character_length}
use lovechapter.Domain.Platform.{Platform}
use lovechapter.Domain.Calendar.{is_calendar_date, calendar_date}
use lovechapter.Domain.Calendar.Laws.{IsCalendarDate, is_calendar_date_iff}
use lovechapter.Domain.Validation.{required_text, optional_text}
use lovechapter.Domain.Planning.{
  CreatePlanningTaskInput, NormalizedPlanningTaskInput, UpdatePlanningTaskInput,
  normalize_planning_task_create, normalize_planning_task_patch,
}
use lovechapter.Domain.Planning.Laws.{
  IsTask, resubmit, IsPatch, normalize_planning_task_create-IsTask,
  normalize_planning_task_patch-IsPatch,
}
use lovechapter.Domain.Money.{amount, currency_digits, parse_money}
use lovechapter.Domain.Money.Exact.{IsMoney, parse_money_exact}
use lovechapter.Domain.Operations.{
  VendorInput, Vendor, booked, ExpenseInput, Expense, SeatingTable, normalize_vendor,
  normalize_expense,
}
use lovechapter.Domain.Operations.Laws.{IsExpense, normalize_expense-IsExpense}
use lovechapter.Domain.Rsvp.{RsvpSubmission, attending, validate_rsvp}
use lovechapter.Domain.Rsvp.Laws.{IsRsvp, validate_rsvp-IsRsvp}
use lovechapter.Domain.Envelope.{
  EnvelopeTemplateInput, landscape, left, noto_sans_thai, bad_settings,
  normalize_envelope_template_input,
}
use lovechapter.Domain.Envelope.Laws.{IsTemplate, normalize_envelope_template_input-IsTemplate}

is_calendar_date_iff_example :
    (is_calendar_date (codes "2028-02-29") ≡ true) ↔ IsCalendarDate (codes "2028-02-29")
is_calendar_date_iff_example = is_calendar_date_iff (codes "2028-02-29")

abbrev task_input : CreatePlanningTaskInput
task_input = record { title = codes " Cake "; category = null; note = absent; due_date = absent }

abbrev task : NormalizedPlanningTaskInput
task = record { title = codes "Cake"; category = none; note = none; due_date = none }

task_created : normalize_planning_task_create task_input ≡ ok task
unfolding normalize_planning_task_create required_text optional_text calendar_date trim trim_start
    trim_end is_space character_length
task_created = refl

normalize_planning_task_create-IsTask_example :
    IsTask task × (normalize_planning_task_create (resubmit task) ≡ ok task)
normalize_planning_task_create-IsTask_example =
    normalize_planning_task_create-IsTask task_input task task_created

abbrev patch : UpdatePlanningTaskInput
patch = record {
  title = some (codes "Cake");
  category = absent;
  note = null;
  due_date = absent;
  completed = some true;
}

patched : normalize_planning_task_patch patch ≡ ok patch
unfolding normalize_planning_task_patch required_text optional_text calendar_date trim trim_start
    trim_end is_space character_length
patched = refl

normalize_planning_task_patch-IsPatch_example : IsPatch patch patch
normalize_planning_task_patch-IsPatch_example =
    normalize_planning_task_patch-IsPatch patch patch patched

abbrev platform : Platform
platform = record {
  to_upper = λ s. s;
  to_lower = λ s. s;
  to_locale_lower = λ s. s;
  supports_currency = λ _. true;
  maximum_fraction_digits = λ _. some (some 2);
  is_time_zone = λ _. true;
  is_locale = λ _. true;
}

parse_money_exact_example :
    (parse_money platform (codes "12.5") (codes "THB") ≡ ok (whole 1250))
    ↔ IsMoney 2 (codes "12.5") (whole 1250)
unfolding currency_digits
parse_money_exact_example =
    parse_money_exact platform (codes "12.5") (codes "THB") 2 (whole 1250) refl

abbrev expense_input : ExpenseInput
expense_input = record {
  title = codes "Flowers";
  planned_minor = whole 500;
  paid_minor = whole 200;
  category_id = absent;
  vendor_id = null;
  due_date = absent;
  note = absent;
}

abbrev expense : Expense
expense = record {
  title = codes "Flowers";
  planned_minor = whole 500;
  paid_minor = whole 200;
  category_id = none;
  vendor_id = none;
  due_date = none;
  note = none;
}

expense_normalized : normalize_expense expense_input ≡ ok expense
unfolding normalize_expense amount required_text optional_text calendar_date trim trim_start
    trim_end is_space character_length
expense_normalized = refl

normalize_expense-IsExpense_example : IsExpense expense_input expense
normalize_expense-IsExpense_example =
    normalize_expense-IsExpense expense_input expense expense_normalized

abbrev vendor_input : VendorInput
vendor_input = record {
  name = codes "Florist";
  status = booked;
  contact_name = absent;
  email = absent;
  phone = null;
  quote_minor = some (whole 900);
  note = given (codes " ");
}

abbrev vendor : Vendor
vendor = record {
  name = codes "Florist";
  status = booked;
  contact_name = none;
  email = none;
  phone = none;
  quote_minor = some (whole 900);
  note = none;
}

vendor_normalized : normalize_vendor vendor_input ≡ ok vendor
unfolding normalize_vendor amount required_text optional_text trim trim_start trim_end is_space
    character_length
vendor_normalized = refl

abbrev table : SeatingTable
table = record { name = codes "A"; capacity = whole 8 }

abbrev rsvp : RsvpSubmission
rsvp = record { attendance = attending; party_size = whole 2; note = some (codes "Hi") }

rsvp_accepted : validate_rsvp rsvp (whole 4) ≡ ok rsvp
unfolding validate_rsvp trim trim_start trim_end is_space
rsvp_accepted = refl

validate_rsvp-IsRsvp_example : IsRsvp 4 rsvp rsvp × (validate_rsvp rsvp (whole 4) ≡ ok rsvp)
validate_rsvp-IsRsvp_example = validate_rsvp-IsRsvp 4 rsvp rsvp (omega arith) rsvp_accepted

abbrev template : EnvelopeTemplateInput
template = record {
  name = some (codes "DL");
  width_mm = whole 220;
  height_mm = whole 110;
  orientation = landscape;
  margin_top_mm = whole 10;
  margin_right_mm = whole 10;
  margin_bottom_mm = whole 10;
  margin_left_mm = whole 10;
  alignment = left;
  font_family = noto_sans_thai;
  font_size_pt = whole 16;
  line_spacing_percent = whole 120;
  show_address = some true;
}

template_normalized : normalize_envelope_template_input template ≡ ok template
unfolding normalize_envelope_template_input bad_settings trim trim_start trim_end is_space
    character_length
template_normalized = refl

normalize_envelope_template_input-IsTemplate_example : IsTemplate template template
normalize_envelope_template_input-IsTemplate_example =
    normalize_envelope_template_input-IsTemplate template template template_normalized
