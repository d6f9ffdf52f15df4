-- ===== src/Domain/Service/Answers.antt =====
-- What each request asks of the repositories, apart from the methods that serve it.
use lovechapter.Prelude.{◌≤◌, ◌≡◌, ◌≢◌, Bool, true, false, Option, none, some, List, length}
use lovechapter.Prelude.Result.{Result, ok}
use lovechapter.Text.{Text}
use lovechapter.Text.Uuid.{is_uuid, is_distinct}
use lovechapter.Domain.Operations.{
  Budget, Expense, normalize_budget, normalize_budget_category, normalize_vendor, normalize_expense,
  normalize_seating_table,
}
use lovechapter.Domain.RunSheet.{normalize_run_sheet_item}
use lovechapter.Domain.Planning.{
  NormalizedPlanningTaskInput, UpdatePlanningTaskInput, normalize_planning_task_create,
  normalize_planning_task_patch,
}
use lovechapter.Domain.Envelope.{
  EnvelopeTemplateInput, EnvelopePrintDataInput, normalize_envelope_template_input,
  normalize_envelope_print_data_input,
}
use lovechapter.Domain.Guests.{CreateGuestInput, truthy, normalize_guest_create}
use lovechapter.Domain.Requests.{
  RepositoryPageInput, CreateWeddingInput, GuestAffiliationInput, NormalizedGuestUpdate,
  GuestListRepositoryInput, normalize_page, normalize_guest_list, normalize_guest_ids, PageInput,
  normalize_wedding, normalize_guest_affiliation, normalize_guest_update,
}
use lovechapter.Domain.Requests.Laws.{IsPage, IsGuestList, AreGuestIds}
use lovechapter.Domain.Service.{
  Env, other_filter, Action, budget_overview_read, budget_set, categories_listed, category_saved,
  category_deleted, vendors_listed, vendor_saved, vendor_deleted, expenses_listed, expense_saved,
  expense_deleted, run_sheet_listed, run_sheet_item_saved, run_sheet_item_deleted, tables_listed,
  table_saved, table_deleted, assignments_listed, seating_assigned, tasks_listed,
  planning_overview_read, task_created, task_updated, task_deleted, templates_listed,
  template_created, template_updated, template_deleted, print_data_read, wedding_created,
  wedding_updated, weddings_listed, rsvp_summary_read, affiliations_listed, affiliation_created,
  affiliation_updated, affiliations_reordered, affiliation_deleted, guest_created,
  guest_affiliation_set, guests_listed, guest_read, guest_updated, guest_archived, guest_restored,
  guests_moved, guests_archived, invitation_created, invitation_replaced, import_committed, is_new,
}
use lovechapter.Domain.Service.Guests.{bad_commit, bad_row_ids}
use lovechapter.Domain.Service.Requests.{
  Request, overview, budget, categories, save_category, delete_category, vendors, save_the_vendor,
  delete_the_vendor, expenses, save_the_expense, delete_the_expense, run_sheet, save_item,
  delete_item, tables, save_table, delete_table, assignments, seat, tasks, planning_overview,
  create_task, update_task, delete_task, templates, create_template, update_template,
  delete_template, print_data, create_the_wedding, update_the_wedding, weddings, rsvp_summary,
  affiliations, create_affiliation, update_affiliation, reorder, delete_affiliation, create_guest,
  affiliate, guests, guest, change_guest, archive, restore, bulk_move, bulk_archive, invite,
  invite_again, commit_import,
}

-- The wedding of a request.
abbrev pub wedding_of : Request → Option Text
wedding_of (overview w) = some w
wedding_of (budget w a) = some w
wedding_of (categories w) = some w
wedding_of (save_category w a b c) = some w
wedding_of (delete_category w a) = some w
wedding_of (vendors w a) = some w
wedding_of (save_the_vendor w a b c) = some w
wedding_of (delete_the_vendor w a) = some w
wedding_of (expenses w a) = some w
wedding_of (save_the_expense w a b c) = some w
wedding_of (delete_the_expense w a) = some w
wedding_of (run_sheet w a) = some w
wedding_of (save_item w a b c) = some w
wedding_of (delete_item w a) = some w
wedding_of (tables w) = some w
wedding_of (save_table w a b c) = some w
wedding_of (delete_table w a) = some w
wedding_of (assignments w a) = some w
wedding_of (seat w a b) = some w
wedding_of (tasks w a b) = some w
wedding_of (planning_overview w) = some w
wedding_of (create_task w a b) = some w
wedding_of (update_task w a b) = some w
wedding_of (delete_task w a) = some w
wedding_of (templates w) = some w
wedding_of (create_template w a b) = some w
wedding_of (update_template w a b) = some w
wedding_of (delete_template w a) = some w
wedding_of (print_data w a) = some w
wedding_of (create_the_wedding a b) = none
wedding_of (update_the_wedding w a) = some w
wedding_of (weddings a) = none
wedding_of (rsvp_summary w) = some w
wedding_of (affiliations w) = some w
wedding_of (create_affiliation w a b) = some w
wedding_of (update_affiliation w a b) = some w
wedding_of (reorder w a) = some w
wedding_of (delete_affiliation w a) = some w
wedding_of (create_guest w a b) = some w
wedding_of (affiliate w a b) = some w
wedding_of (guests w a) = some w
wedding_of (guest w a) = some w
wedding_of (change_guest w a b) = some w
wedding_of (archive w a) = some w
wedding_of (restore w a) = some w
wedding_of (bulk_move w a b) = some w
wedding_of (bulk_archive w a) = some w
wedding_of (invite w a b c) = some w
wedding_of (invite_again w a b c) = some w
wedding_of (commit_import w a b) = some w

abbrev pub IsIdOption : Option Text → Type 0
IsIdOption none = Unit
IsIdOption (some id) = is_uuid id ≡ true

-- The identifier that the caller gave, or else the one that is drawn.
abbrev pub chosen : Text → Option Text → Text
chosen fresh none = fresh
chosen fresh (some id) = id

-- The action saves what a normaliser gave, under the identifier that the caller gave, a UUID, or as a new row
-- under the one that is drawn.
abbrev pub IsSave :
    {A : Type 0} → (Text → A → Bool → Action) → Text → Option Text → Result A → Action → Type 0
IsSave {A} action fresh id r x =
    (v : A) × IsIdOption (truthy id)
    × (r ≡ ok v)
    × (x ≡ action (chosen fresh (truthy id)) v (is_new (truthy id)))

abbrev pub IsWithId : (Text → Action) → Text → Action → Type 0
IsWithId action id x = (is_uuid id ≡ true) × (x ≡ action id)

-- A page of 1 to 50 items, with the cursor that the caller gave.
abbrev pub IsOfPage : Env → (RepositoryPageInput → Action) → PageInput → Action → Type 0
IsOfPage e action page x =
    (p : RepositoryPageInput) × IsPage e.cursors 50 p
    × (normalize_page e.cursors page ≡ ok p)
    × (x ≡ action p)

-- The action that a request asks for, with its arguments.
abbrev pub IsFor : Env → Request → Action → Type 0
IsFor e (overview w) x = x ≡ budget_overview_read
IsFor e (budget w a) x = (v : Budget) × (normalize_budget e.platform a ≡ ok v) × (x ≡ budget_set v)
IsFor e (categories w) x = x ≡ categories_listed
IsFor e (save_category w a b c) x = IsSave category_saved a b (normalize_budget_category c) x
IsFor e (delete_category w a) x = IsWithId category_deleted a x
IsFor e (vendors w a) x = IsOfPage e vendors_listed a x
IsFor e (save_the_vendor w a b c) x = IsSave vendor_saved a b (normalize_vendor c) x
IsFor e (delete_the_vendor w a) x = IsWithId vendor_deleted a x
IsFor e (expenses w a) x = IsOfPage e expenses_listed a x
IsFor e (save_the_expense w a b c) x =
    (v : Expense) × (normalize_expense c ≡ ok v)
    × IsIdOption (truthy v.category_id)
    × IsIdOption (truthy v.vendor_id)
    × IsSave expense_saved a b (ok v) x
IsFor e (delete_the_expense w a) x = IsWithId expense_deleted a x
IsFor e (run_sheet w a) x = IsOfPage e run_sheet_listed a x
IsFor e (save_item w a b c) x =
    IsSave run_sheet_item_saved a b (normalize_run_sheet_item e.to_iso c) x
IsFor e (delete_item w a) x = IsWithId run_sheet_item_deleted a x
IsFor e (tables w) x = x ≡ tables_listed
IsFor e (save_table w a b c) x = IsSave table_saved a b (normalize_seating_table c) x
IsFor e (delete_table w a) x = IsWithId table_deleted a x
IsFor e (assignments w a) x = IsWithId assignments_listed a x
IsFor e (seat w a b) x =
    (is_uuid a ≡ true) × IsIdOption (truthy b) × (x ≡ seating_assigned a (truthy b))
IsFor e (tasks w a b) x =
    (p : RepositoryPageInput) × (b ≢ other_filter)
    × IsPage e.cursors 50 p
    × (normalize_page e.cursors a ≡ ok p)
    × (x ≡ tasks_listed p b)
IsFor e (planning_overview w) x = x ≡ planning_overview_read
IsFor e (create_task w a b) x =
    (v : NormalizedPlanningTaskInput) × (normalize_planning_task_create b ≡ ok v)
    × (x ≡ task_created a v)
IsFor e (update_task w a b) x =
    (v : UpdatePlanningTaskInput) × (is_uuid a ≡ true)
    × (normalize_planning_task_patch b ≡ ok v)
    × (x ≡ task_updated a v)
IsFor e (delete_task w a) x = (is_uuid a ≡ true) × (x ≡ task_deleted a)
IsFor e (templates w) x = x ≡ templates_listed
IsFor e (create_template w a b) x =
    (v : EnvelopeTemplateInput) × (normalize_envelope_template_input b ≡ ok v)
    × (x ≡ template_created a v)
IsFor e (update_template w a b) x =
    (v : EnvelopeTemplateInput) × (is_uuid a ≡ true)
    × (normalize_envelope_template_input b ≡ ok v)
    × (x ≡ template_updated a v)
IsFor e (delete_template w a) x = (is_uuid a ≡ true) × (x ≡ template_deleted a)
IsFor e (print_data w a) x =
    (v : EnvelopePrintDataInput) × (normalize_envelope_print_data_input a ≡ ok v)
    × (x ≡ print_data_read v)
IsFor e (create_the_wedding a b) x =
    (v : CreateWeddingInput) × (normalize_wedding e.platform b ≡ ok v) × (x ≡ wedding_created a v)
IsFor e (update_the_wedding w a) x =
    (v : CreateWeddingInput) × (normalize_wedding e.platform
        (record a { wedding_date = truthy a.wedding_date })
      ≡ ok v)
    × (x ≡ wedding_updated v)
IsFor e (weddings a) x =
    (p : RepositoryPageInput) × IsPage e.cursors 100 p
    × (normalize_page e.cursors a ≡ ok p)
    × (x ≡ weddings_listed p)
IsFor e (rsvp_summary w) x = x ≡ rsvp_summary_read
IsFor e (affiliations w) x = x ≡ affiliations_listed
IsFor e (create_affiliation w a b) x =
    (v : GuestAffiliationInput) × (normalize_guest_affiliation e.platform b ≡ ok v)
    × (x ≡ affiliation_created a v)
IsFor e (update_affiliation w a b) x =
    (v : GuestAffiliationInput) × (normalize_guest_affiliation e.platform b ≡ ok v)
    × (x ≡ affiliation_updated a v)
IsFor e (reorder w a) x = (length a ≤ 100) × (is_distinct a ≡ true) × (x ≡ affiliations_reordered a)
IsFor e (delete_affiliation w a) x = x ≡ affiliation_deleted a
IsFor e (create_guest w a b) x =
    (v : CreateGuestInput) × (normalize_guest_create e.platform b ≡ ok v) × (x ≡ guest_created a v)
IsFor e (affiliate w a b) x = x ≡ guest_affiliation_set a b
IsFor e (guests w a) x =
    (l : GuestListRepositoryInput) × IsGuestList e.cursors l
    × (normalize_guest_list e.cursors a ≡ ok l)
    × (x ≡ guests_listed l)
IsFor e (guest w a) x = x ≡ guest_read a
IsFor e (change_guest w a b) x =
    (v : NormalizedGuestUpdate) × (normalize_guest_update e.platform b ≡ ok v)
    × (x ≡ guest_updated a v)
IsFor e (archive w a) x = x ≡ guest_archived a
IsFor e (restore w a) x = x ≡ guest_restored a
IsFor e (bulk_move w a b) x =
    (l : List Text) × AreGuestIds l × (normalize_guest_ids a ≡ ok l) × (x ≡ guests_moved l b)
IsFor e (bulk_archive w a) x =
    (l : List Text) × AreGuestIds l × (normalize_guest_ids a ≡ ok l) × (x ≡ guests_archived l)
IsFor e (invite w a b c) x = x ≡ invitation_created a b c
IsFor e (invite_again w a b c) x = x ≡ invitation_replaced a b c
IsFor e (commit_import w a b) x =
    (bad_commit b ≡ false)
    × (bad_row_ids b.included_row_ids ≡ false)
    × (bad_row_ids b.create_anyway_row_ids ≡ false)
    × (x ≡ import_committed a b)
