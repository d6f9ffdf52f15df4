-- ===== src/Domain/Service/Authorized.antt =====
-- The requests of `Requests`: whoever reaches a repository may, and with the call that was asked for.
use lovechapter.Prelude.{refl, not, ◌||◌, arith, ltb, length}
use lovechapter.Prelude.Result.{ok, Ensures, Ensures-bind, Ensures-ok, Ensures-self, Ensures-then}
use lovechapter.Text.Uuid.{is_uuid, is_distinct}
use lovechapter.Domain.Operations.{
  normalize_budget, normalize_budget_category, normalize_vendor, normalize_expense,
  normalize_seating_table,
}
use lovechapter.Domain.RunSheet.{normalize_run_sheet_item}
use lovechapter.Domain.Planning.{normalize_planning_task_create, normalize_planning_task_patch}
use lovechapter.Domain.Envelope.{
  normalize_envelope_template_input, normalize_envelope_print_data_input,
}
use lovechapter.Domain.Guests.{truthy, normalize_guest_create}
use lovechapter.Domain.Requests.{
  outside, normalize_wedding, normalize_guest_affiliation, normalize_guest_update,
}
use lovechapter.Domain.Requests.Laws.{
  normalize_page-Ensures, normalize_guest_list-Ensures, normalize_guest_ids-Ensures,
}
use lovechapter.Domain.Service.{
  Env, Session, category_saved, category_deleted, vendors_listed, vendor_saved, vendor_deleted,
  expenses_listed, expense_saved, expense_deleted, run_sheet_listed, run_sheet_item_saved,
  run_sheet_item_deleted, table_saved, table_deleted, assignments_listed,
}
use lovechapter.Domain.Service.Operations.{
  get_budget_overview, set_budget, list_budget_categories, save_budget_category,
  delete_budget_category, list_vendors, save_vendor, delete_vendor, list_expenses, save_expense,
  delete_expense, list_run_sheet, save_run_sheet_item, delete_run_sheet_item, list_seating_tables,
  save_seating_table, delete_seating_table, list_seating_assignments, assign_seating,
}
use lovechapter.Domain.Service.Planning.{
  list_planning_tasks, get_planning_overview, create_planning_task, update_planning_task,
  delete_planning_task, list_envelope_templates, create_envelope_template, update_envelope_template,
  delete_envelope_template, get_envelope_print_data, is_filter,
}
use lovechapter.Domain.Service.Guests.{
  create_wedding, update_wedding, list_weddings, get_rsvp_summary, list_guest_affiliations,
  create_guest_affiliation, update_guest_affiliation, reorder_guest_affiliations,
  delete_guest_affiliation, add_guest, set_guest_affiliation, list_guests, get_guest, update_guest,
  archive_guest, restore_guest, bulk_set_guest_affiliation, bulk_archive_guests, create_invitation,
  replace_invitation, commit_guest_import, bad_commit, bad_row_ids,
}
use lovechapter.Domain.Service.Requests.{
  Request, overview, budget, categories, save_category, delete_category, vendors, save_the_vendor,
  delete_the_vendor, expenses, save_the_expense, delete_the_expense, run_sheet, save_item,
  delete_item, tables, save_table, delete_table, assignments, seat, tasks, planning_overview,
  create_task, update_task, delete_task, templates, create_template, update_template,
  delete_template, print_data, create_the_wedding, update_the_wedding, weddings, rsvp_summary,
  affiliations, create_affiliation, update_affiliation, reorder, delete_affiliation, create_guest,
  affiliate, guests, guest, change_guest, archive, restore, bulk_move, bulk_archive, invite,
  invite_again, commit_import, handle,
}
use lovechapter.Domain.Service.Answers.{IsFor}
use lovechapter.Domain.Service.Laws.{
  IsAuthorized, as_onboarded-IsAuthorized, Ensures-weaken, Ensures-both, known_id-Ensures,
  known_option-Ensures, operation_page-IsOfPage, saving-IsSave, with_id-IsWithId, check_id-Ensures,
  filter_lem,
}

-- A request of `Request` that reaches a repository is made for the signed-in user, who has finished onboarding, for
-- the wedding of the request, and it is the call that the request asks for, as `IsFor` lists them: the named
-- operation on the named records, with the drawn identifier for a new one, and with the contents, pages and
-- filters that the normaliser of the method gives for the input of the request. There an identifier of an
-- operation or a task is a UUID, a page has 1 to 50 items (1 to 100 for weddings) and a cursor of the right
-- shape, and new orders, bulk selections and imports to commit pass the tests of their methods.
pub handle-IsAuthorized :
    (e : Env) (s : Session) (r : Request) → Ensures (IsAuthorized e s r) (handle e s r)
unfolding handle get_budget_overview set_budget list_budget_categories save_budget_category
    delete_budget_category list_vendors save_vendor delete_vendor list_expenses save_expense
    delete_expense list_run_sheet save_run_sheet_item delete_run_sheet_item list_seating_tables
    save_seating_table delete_seating_table list_seating_assignments assign_seating
    list_planning_tasks get_planning_overview create_planning_task update_planning_task
    delete_planning_task list_envelope_templates create_envelope_template update_envelope_template
    delete_envelope_template get_envelope_print_data create_wedding update_wedding list_weddings
    get_rsvp_summary list_guest_affiliations create_guest_affiliation update_guest_affiliation
    reorder_guest_affiliations delete_guest_affiliation add_guest set_guest_affiliation list_guests
    get_guest update_guest archive_guest restore_guest bulk_set_guest_affiliation
    bulk_archive_guests create_invitation replace_invitation commit_guest_import
handle-IsAuthorized e s (overview w) =
    as_onboarded-IsAuthorized e s (overview w) _ (Ensures-ok (IsFor e (overview w)) _ refl)
handle-IsAuthorized e s (budget w a) = as_onboarded-IsAuthorized e s (budget w a) _ (
    Ensures-bind _ _ (Ensures-self (normalize_budget e.platform a))
      (λ v h. Ensures-ok (IsFor e (budget w a)) _ (v, h, refl)))
handle-IsAuthorized e s (categories w) =
    as_onboarded-IsAuthorized e s (categories w) _ (Ensures-ok (IsFor e (categories w)) _ refl)
handle-IsAuthorized e s (save_category w a b c) =
    as_onboarded-IsAuthorized e s (save_category w a b c) _
      (saving-IsSave category_saved a b (normalize_budget_category c))
handle-IsAuthorized e s (delete_category w a) =
    as_onboarded-IsAuthorized e s (delete_category w a) _ (with_id-IsWithId category_deleted a)
handle-IsAuthorized e s (vendors w a) =
    as_onboarded-IsAuthorized e s (vendors w a) _ (operation_page-IsOfPage e vendors_listed a)
handle-IsAuthorized e s (save_the_vendor w a b c) =
    as_onboarded-IsAuthorized e s (save_the_vendor w a b c) _
      (saving-IsSave vendor_saved a b (normalize_vendor c))
handle-IsAuthorized e s (delete_the_vendor w a) =
    as_onboarded-IsAuthorized e s (delete_the_vendor w a) _ (with_id-IsWithId vendor_deleted a)
handle-IsAuthorized e s (expenses w a) =
    as_onboarded-IsAuthorized e s (expenses w a) _ (operation_page-IsOfPage e expenses_listed a)
handle-IsAuthorized e s (delete_the_expense w a) =
    as_onboarded-IsAuthorized e s (delete_the_expense w a) _ (with_id-IsWithId expense_deleted a)
handle-IsAuthorized e s (run_sheet w a) =
    as_onboarded-IsAuthorized e s (run_sheet w a) _ (operation_page-IsOfPage e run_sheet_listed a)
handle-IsAuthorized e s (save_item w a b c) =
    as_onboarded-IsAuthorized e s (save_item w a b c) _
      (saving-IsSave run_sheet_item_saved a b (normalize_run_sheet_item e.to_iso c))
handle-IsAuthorized e s (delete_item w a) =
    as_onboarded-IsAuthorized e s (delete_item w a) _ (with_id-IsWithId run_sheet_item_deleted a)
handle-IsAuthorized e s (tables w) =
    as_onboarded-IsAuthorized e s (tables w) _ (Ensures-ok (IsFor e (tables w)) _ refl)
handle-IsAuthorized e s (save_table w a b c) =
    as_onboarded-IsAuthorized e s (save_table w a b c) _
      (saving-IsSave table_saved a b (normalize_seating_table c))
handle-IsAuthorized e s (delete_table w a) =
    as_onboarded-IsAuthorized e s (delete_table w a) _ (with_id-IsWithId table_deleted a)
handle-IsAuthorized e s (assignments w a) =
    as_onboarded-IsAuthorized e s (assignments w a) _ (with_id-IsWithId assignments_listed a)
handle-IsAuthorized e s (seat w a b) = as_onboarded-IsAuthorized e s (seat w a b) _ (
    Ensures-bind _ _ (known_id-Ensures a) (λ g h.
      Ensures-bind _ _ (known_option-Ensures (truthy b))
        (λ t k. Ensures-ok (IsFor e (seat w a b)) _ (h.0, k.0, rw (h.1, k.1) refl))))
handle-IsAuthorized e s (planning_overview w) =
    as_onboarded-IsAuthorized e s (planning_overview w) _
      (Ensures-ok (IsFor e (planning_overview w)) _ refl)
handle-IsAuthorized e s (create_task w a b) = as_onboarded-IsAuthorized e s (create_task w a b) _ (
    Ensures-bind _ _ (Ensures-self (normalize_planning_task_create b))
      (λ v h. Ensures-ok (IsFor e (create_task w a b)) _ (v, h, refl)))
handle-IsAuthorized e s (update_task w a b) = as_onboarded-IsAuthorized e s (update_task w a b) _ (
    Ensures-then (not (is_uuid a)) _ _ (λ u.
      Ensures-bind _ _ (Ensures-self (normalize_planning_task_patch b))
        (λ v h. Ensures-ok (IsFor e (update_task w a b)) _ (v, ground arith, h, refl))))
handle-IsAuthorized e s (delete_task w a) = as_onboarded-IsAuthorized e s (delete_task w a) _ (
    Ensures-then (not (is_uuid a)) _ _
      (λ u. Ensures-ok (IsFor e (delete_task w a)) _ (ground arith, refl)))
handle-IsAuthorized e s (templates w) =
    as_onboarded-IsAuthorized e s (templates w) _ (Ensures-ok (IsFor e (templates w)) _ refl)
handle-IsAuthorized e s (create_template w a b) =
    as_onboarded-IsAuthorized e s (create_template w a b) _ (
      Ensures-bind _ _ (Ensures-self (normalize_envelope_template_input b))
        (λ v h. Ensures-ok (IsFor e (create_template w a b)) _ (v, h, refl)))
handle-IsAuthorized e s (update_template w a b) =
    as_onboarded-IsAuthorized e s (update_template w a b) _ (
      Ensures-then (not (is_uuid a)) _ _ (λ u.
        Ensures-bind _ _ (Ensures-self (normalize_envelope_template_input b))
          (λ v h. Ensures-ok (IsFor e (update_template w a b)) _ (v, ground arith, h, refl))))
handle-IsAuthorized e s (delete_template w a) =
    as_onboarded-IsAuthorized e s (delete_template w a) _ (
      Ensures-then (not (is_uuid a)) _ _
        (λ u. Ensures-ok (IsFor e (delete_template w a)) _ (ground arith, refl)))
handle-IsAuthorized e s (print_data w a) = as_onboarded-IsAuthorized e s (print_data w a) _ (
    Ensures-bind _ _ (Ensures-self (normalize_envelope_print_data_input a))
      (λ v h. Ensures-ok (IsFor e (print_data w a)) _ (v, h, refl)))
handle-IsAuthorized e s (create_the_wedding a b) =
    as_onboarded-IsAuthorized e s (create_the_wedding a b) _ (
      Ensures-bind _ _ (Ensures-self (normalize_wedding e.platform b))
        (λ v h. Ensures-ok (IsFor e (create_the_wedding a b)) _ (v, h, refl)))
handle-IsAuthorized e s (update_the_wedding w a) =
    as_onboarded-IsAuthorized e s (update_the_wedding w a) _ (
      Ensures-bind _ _
        (Ensures-self
          (normalize_wedding e.platform (record a { wedding_date = truthy a.wedding_date })))
        (λ v h. Ensures-ok (IsFor e (update_the_wedding w a)) _ (v, h, refl)))
handle-IsAuthorized e s (weddings a) = as_onboarded-IsAuthorized e s (weddings a) _ (
    Ensures-bind _ _ (Ensures-both (normalize_page-Ensures e.cursors 100 a (λ k. k)))
      (λ p h. Ensures-ok (IsFor e (weddings a)) _ (p, h.0, h.1, refl)))
handle-IsAuthorized e s (rsvp_summary w) =
    as_onboarded-IsAuthorized e s (rsvp_summary w) _ (Ensures-ok (IsFor e (rsvp_summary w)) _ refl)
handle-IsAuthorized e s (affiliations w) =
    as_onboarded-IsAuthorized e s (affiliations w) _ (Ensures-ok (IsFor e (affiliations w)) _ refl)
handle-IsAuthorized e s (create_affiliation w a b) =
    as_onboarded-IsAuthorized e s (create_affiliation w a b) _ (
      Ensures-bind _ _ (Ensures-self (normalize_guest_affiliation e.platform b))
        (λ v h. Ensures-ok (IsFor e (create_affiliation w a b)) _ (v, h, refl)))
handle-IsAuthorized e s (update_affiliation w a b) =
    as_onboarded-IsAuthorized e s (update_affiliation w a b) _ (
      Ensures-bind _ _ (Ensures-self (normalize_guest_affiliation e.platform b))
        (λ v h. Ensures-ok (IsFor e (update_affiliation w a b)) _ (v, h, refl)))
handle-IsAuthorized e s (reorder w a) = as_onboarded-IsAuthorized e s (reorder w a) _ (
    Ensures-then (ltb 100 (length a) || not (is_distinct a)) _ _
      (λ h. Ensures-ok (IsFor e (reorder w a)) _ (ground arith, ground arith, refl)))
handle-IsAuthorized e s (delete_affiliation w a) =
    as_onboarded-IsAuthorized e s (delete_affiliation w a) _
      (Ensures-ok (IsFor e (delete_affiliation w a)) _ refl)
handle-IsAuthorized e s (create_guest w a b) =
    as_onboarded-IsAuthorized e s (create_guest w a b) _ (
      Ensures-bind _ _ (Ensures-self (normalize_guest_create e.platform b))
        (λ v h. Ensures-ok (IsFor e (create_guest w a b)) _ (v, h, refl)))
handle-IsAuthorized e s (affiliate w a b) =
    as_onboarded-IsAuthorized e s (affiliate w a b) _
      (Ensures-ok (IsFor e (affiliate w a b)) _ refl)
handle-IsAuthorized e s (guests w a) = as_onboarded-IsAuthorized e s (guests w a) _ (
    Ensures-bind _ _ (Ensures-both (normalize_guest_list-Ensures e.cursors a))
      (λ l h. Ensures-ok (IsFor e (guests w a)) _ (l, h.0, h.1, refl)))
handle-IsAuthorized e s (guest w a) =
    as_onboarded-IsAuthorized e s (guest w a) _ (Ensures-ok (IsFor e (guest w a)) _ refl)
handle-IsAuthorized e s (change_guest w a b) =
    as_onboarded-IsAuthorized e s (change_guest w a b) _ (
      Ensures-bind _ _ (Ensures-self (normalize_guest_update e.platform b))
        (λ v h. Ensures-ok (IsFor e (change_guest w a b)) _ (v, h, refl)))
handle-IsAuthorized e s (archive w a) =
    as_onboarded-IsAuthorized e s (archive w a) _ (Ensures-ok (IsFor e (archive w a)) _ refl)
handle-IsAuthorized e s (restore w a) =
    as_onboarded-IsAuthorized e s (restore w a) _ (Ensures-ok (IsFor e (restore w a)) _ refl)
handle-IsAuthorized e s (bulk_move w a b) = as_onboarded-IsAuthorized e s (bulk_move w a b) _ (
    Ensures-bind _ _ (Ensures-both (normalize_guest_ids-Ensures a))
      (λ l h. Ensures-ok (IsFor e (bulk_move w a b)) _ (l, h.0, h.1, refl)))
handle-IsAuthorized e s (bulk_archive w a) = as_onboarded-IsAuthorized e s (bulk_archive w a) _ (
    Ensures-bind _ _ (Ensures-both (normalize_guest_ids-Ensures a))
      (λ l h. Ensures-ok (IsFor e (bulk_archive w a)) _ (l, h.0, h.1, refl)))
handle-IsAuthorized e s (invite w a b c) =
    as_onboarded-IsAuthorized e s (invite w a b c) _ (Ensures-ok (IsFor e (invite w a b c)) _ refl)
handle-IsAuthorized e s (invite_again w a b c) =
    as_onboarded-IsAuthorized e s (invite_again w a b c) _
      (Ensures-ok (IsFor e (invite_again w a b c)) _ refl)
handle-IsAuthorized e s (commit_import w a b) =
    as_onboarded-IsAuthorized e s (commit_import w a b) _ (
      Ensures-then (bad_commit b) _ _ λ h. Ensures-then (bad_row_ids b.included_row_ids) _ _ λ k.
        Ensures-then (bad_row_ids b.create_anyway_row_ids) _ _
          λ l. Ensures-ok (IsFor e (commit_import w a b)) _ (h, k, l, refl))
handle-IsAuthorized e s (save_the_expense w a b c) =
    Ensures-bind _ _ (Ensures-self (normalize_expense c)) λ v h.
      Ensures-bind _ _ (check_id-Ensures (truthy v.category_id)) λ _ k.
        Ensures-bind _ _ (check_id-Ensures (truthy v.vendor_id)) λ _ l.
          as_onboarded-IsAuthorized e s (save_the_expense w a b c) _
            (Ensures-weaken (saving-IsSave expense_saved a b (ok v)) (λ x i. (v, h, k, l, i)))
handle-IsAuthorized e s (tasks w a b) = as_onboarded-IsAuthorized e s (tasks w a b) _ (
    Ensures-then (outside 50 a.limit) _ _ (λ inside. Ensures-then (not (is_filter b)) _ _ (λ known.
      Ensures-bind _ _ (Ensures-both (normalize_page-Ensures e.cursors 50 a (λ k. inside)))
        (λ p h. Ensures-ok (IsFor e (tasks w a b)) _ (p, filter_lem b known, h.0, h.1, refl)))))
