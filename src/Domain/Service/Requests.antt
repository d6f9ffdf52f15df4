-- ===== src/Domain/Service/Requests.antt =====
-- A request for a method of the service, with its arguments.
use lovechapter.Prelude.{Option, List}
use lovechapter.Prelude.Result.{Result}
use lovechapter.Text.{Text}
use lovechapter.Domain.Operations.{Budget, VendorInput, ExpenseInput, SeatingTable}
use lovechapter.Domain.RunSheet.{RunSheetItemInput}
use lovechapter.Domain.Planning.{CreatePlanningTaskInput, UpdatePlanningTaskInput}
use lovechapter.Domain.Envelope.{EnvelopeTemplateInput, EnvelopePrintDataInput}
use lovechapter.Domain.Guests.{CreateGuestInput}
use lovechapter.Domain.Requests.{
  PageInput, CreateWeddingInput, GuestAffiliationInput, UpdateGuestInput, GuestListInput,
}
use lovechapter.Domain.Service.{Env, GuestImportCommitInput, Session, PlanningTaskFilter, Call}
use lovechapter.Domain.Service.Operations.{
  get_budget_overview, set_budget, list_budget_categories, save_budget_category,
  delete_budget_category, list_vendors, save_vendor, delete_vendor, list_expenses, save_expense,
  delete_expense, list_run_sheet, save_run_sheet_item, delete_run_sheet_item, list_seating_tables,
  save_seating_table, delete_seating_table, list_seating_assignments, assign_seating,
}
use lovechapter.Domain.Service.Planning.{
  list_planning_tasks, get_planning_overview, create_planning_task, update_planning_task,
  delete_planning_task, list_envelope_templates, create_envelope_template, update_envelope_template,
  delete_envelope_template, get_envelope_print_data,
}
use lovechapter.Domain.Service.Guests.{
  create_wedding, update_wedding, list_weddings, get_rsvp_summary, list_guest_affiliations,
  create_guest_affiliation, update_guest_affiliation, reorder_guest_affiliations,
  delete_guest_affiliation, add_guest, set_guest_affiliation, list_guests, get_guest, update_guest,
  archive_guest, restore_guest, bulk_set_guest_affiliation, bulk_archive_guests, create_invitation,
  replace_invitation, commit_guest_import,
}

-- A wedding stands first where the method has one, then an identifier, drawn or given.
pub data Request : Type 0 where
  overview : Text → Request
  budget : Text → Budget → Request
  categories : Text → Request
  save_category : Text → Text → Option Text → Text → Request
  delete_category : Text → Text → Request
  vendors : Text → PageInput → Request
  save_the_vendor : Text → Text → Option Text → VendorInput → Request
  delete_the_vendor : Text → Text → Request
  expenses : Text → PageInput → Request
  save_the_expense : Text → Text → Option Text → ExpenseInput → Request
  delete_the_expense : Text → Text → Request
  run_sheet : Text → PageInput → Request
  save_item : Text → Text → Option Text → RunSheetItemInput → Request
  delete_item : Text → Text → Request
  tables : Text → Request
  save_table : Text → Text → Option Text → SeatingTable → Request
  delete_table : Text → Text → Request
  assignments : Text → Text → Request
  seat : Text → Text → Option Text → Request
  tasks : Text → PageInput → PlanningTaskFilter → Request
  planning_overview : Text → Request
  create_task : Text → Text → CreatePlanningTaskInput → Request
  update_task : Text → Text → UpdatePlanningTaskInput → Request
  delete_task : Text → Text → Request
  templates : Text → Request
  create_template : Text → Text → EnvelopeTemplateInput → Request
  update_template : Text → Text → EnvelopeTemplateInput → Request
  delete_template : Text → Text → Request
  print_data : Text → EnvelopePrintDataInput → Request
  create_the_wedding : Text → CreateWeddingInput → Request
  update_the_wedding : Text → CreateWeddingInput → Request
  weddings : PageInput → Request
  rsvp_summary : Text → Request
  affiliations : Text → Request
  create_affiliation : Text → Text → GuestAffiliationInput → Request
  update_affiliation : Text → Text → GuestAffiliationInput → Request
  reorder : Text → List Text → Request
  delete_affiliation : Text → Text → Request
  create_guest : Text → Text → CreateGuestInput → Request
  affiliate : Text → Text → Option Text → Request
  guests : Text → GuestListInput → Request
  guest : Text → Text → Request
  change_guest : Text → Text → UpdateGuestInput → Request
  archive : Text → Text → Request
  restore : Text → Text → Request
  bulk_move : Text → List Text → Option Text → Request
  bulk_archive : Text → List Text → Request
  invite : Text → Text → Text → Text → Request
  invite_again : Text → Text → Text → Text → Request
  commit_import : Text → Text → GuestImportCommitInput → Request

-- The method that a request names.
unfoldable pub handle : Env → Session → Request → Result Call
handle e s (overview w) = get_budget_overview s w
handle e s (budget w a) = set_budget e s w a
handle e s (categories w) = list_budget_categories s w
handle e s (save_category w a b c) = save_budget_category s w a b c
handle e s (delete_category w a) = delete_budget_category s w a
handle e s (vendors w a) = list_vendors e s w a
handle e s (save_the_vendor w a b c) = save_vendor s w a b c
handle e s (delete_the_vendor w a) = delete_vendor s w a
handle e s (expenses w a) = list_expenses e s w a
handle e s (save_the_expense w a b c) = save_expense s w a b c
handle e s (delete_the_expense w a) = delete_expense s w a
handle e s (run_sheet w a) = list_run_sheet e s w a
handle e s (save_item w a b c) = save_run_sheet_item e s w a b c
handle e s (delete_item w a) = delete_run_sheet_item s w a
handle e s (tables w) = list_seating_tables s w
handle e s (save_table w a b c) = save_seating_table s w a b c
handle e s (delete_table w a) = delete_seating_table s w a
handle e s (assignments w a) = list_seating_assignments s w a
handle e s (seat w a b) = assign_seating s w a b
handle e s (tasks w a b) = list_planning_tasks e s w a b
handle e s (planning_overview w) = get_planning_overview s w
handle e s (create_task w a b) = create_planning_task s w a b
handle e s (update_task w a b) = update_planning_task s w a b
handle e s (delete_task w a) = delete_planning_task s w a
handle e s (templates w) = list_envelope_templates s w
handle e s (create_template w a b) = create_envelope_template s w a b
handle e s (update_template w a b) = update_envelope_template s w a b
handle e s (delete_template w a) = delete_envelope_template s w a
handle e s (print_data w a) = get_envelope_print_data s w a
handle e s (create_the_wedding a b) = create_wedding e s a b
handle e s (update_the_wedding w a) = update_wedding e s w a
handle e s (weddings a) = list_weddings e s a
handle e s (rsvp_summary w) = get_rsvp_summary s w
handle e s (affiliations w) = list_guest_affiliations s w
handle e s (create_affiliation w a b) = create_guest_affiliation e s w a b
handle e s (update_affiliation w a b) = update_guest_affiliation e s w a b
handle e s (reorder w a) = reorder_guest_affiliations s w a
handle e s (delete_affiliation w a) = delete_guest_affiliation s w a
handle e s (create_guest w a b) = add_guest e s w a b
handle e s (affiliate w a b) = set_guest_affiliation s w a b
handle e s (guests w a) = list_guests e s w a
handle e s (guest w a) = get_guest s w a
handle e s (change_guest w a b) = update_guest e s w a b
handle e s (archive w a) = archive_guest s w a
handle e s (restore w a) = restore_guest s w a
handle e s (bulk_move w a b) = bulk_set_guest_affiliation s w a b
handle e s (bulk_archive w a) = bulk_archive_guests s w a
handle e s (invite w a b c) = create_invitation s w a b c
handle e s (invite_again w a b c) = replace_invitation s w a b c
handle e s (commit_import w a b) = commit_guest_import s w a b
