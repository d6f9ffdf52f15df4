-- ===== src/Domain/Service/Served.antt =====
-- What is served: a request that its user may make, with arguments that pass, reaches its repository.
use lovechapter.Prelude.{
  ◌≡◌, ◌≢◌, refl, Bool, true, false, Option, none, some, arith, ◌↔◌, ap, inl, inr, Bool-cases,
}
use lovechapter.Prelude.Number.{Number}
use lovechapter.Prelude.Result.{Result, ok, err, ◌>>=◌, >>=-eq-ok, ensured}
use lovechapter.Text.{Text}
use lovechapter.Text.Uuid.{is_uuid}
use lovechapter.Domain.Operations.{
  normalize_budget_category, normalize_vendor, normalize_seating_table,
}
use lovechapter.Domain.RunSheet.{normalize_run_sheet_item}
use lovechapter.Domain.Guests.{truthy}
use lovechapter.Domain.Requests.{
  PageInput, RepositoryPageInput, outside, read_cursor, normalize_page,
}
use lovechapter.Domain.Requests.Laws.{IsLimit, IsPage}
use lovechapter.Domain.Service.{
  Env, AuthenticatedUser, Session, PlanningTaskFilter, all_tasks, open_tasks, completed_tasks,
  other_filter, Action, Call, require_user, require_onboarded_user, as_onboarded, operation_id,
  operation_page, id_or_fresh, category_saved, category_deleted, vendors_listed, vendor_saved,
  vendor_deleted, expenses_listed, expense_saved, expense_deleted, run_sheet_listed,
  run_sheet_item_saved, run_sheet_item_deleted, table_saved, table_deleted, assignments_listed,
}
use lovechapter.Domain.Service.Operations.{
  saving, with_id, check_id, optional_id, get_budget_overview, set_budget, list_budget_categories,
  save_budget_category, delete_budget_category, list_vendors, save_vendor, delete_vendor,
  list_expenses, save_expense, delete_expense, list_run_sheet, save_run_sheet_item,
  delete_run_sheet_item, list_seating_tables, save_seating_table, delete_seating_table,
  list_seating_assignments, assign_seating,
}
use lovechapter.Domain.Service.Planning.{
  list_planning_tasks, get_planning_overview, create_planning_task, update_planning_task,
  delete_planning_task, list_envelope_templates, create_envelope_template, update_envelope_template,
  delete_envelope_template, get_envelope_print_data, is_filter,
}
use lovechapter.Domain.Service.Guests.{
  create_wedding, update_wedding, list_weddings, get_rsvp_summary, list_guest_affiliations,
  create_guest_affiliation, update_guest_affiliation, reorder_guest_affiliations,
  delete_guest_affiliation, add_guest, set_guest_affiliation, list_guests, get_guest, update_guest,
  archive_guest, restore_guest, bulk_set_guest_affiliation, bulk_archive_guests, create_invitation,
  replace_invitation, commit_guest_import,
}
use lovechapter.Domain.Service.Requests.{
  Request, overview, budget, categories, save_category, delete_category, vendors, save_the_vendor,
  delete_the_vendor, expenses, save_the_expense, delete_the_expense, run_sheet, save_item,
  delete_item, tables, save_table, delete_table, assignments, seat, tasks, planning_overview,
  create_task, update_task, delete_task, templates, create_template, update_template,
  delete_template, print_data, create_the_wedding, update_the_wedding, weddings, rsvp_summary,
  affiliations, create_affiliation, update_affiliation, reorder, delete_affiliation, create_guest,
  affiliate, guests, guest, change_guest, archive, restore, bulk_move, bulk_archive, invite,
  invite_again, commit_import, handle,
}
use lovechapter.Domain.Service.Answers.{
  wedding_of, IsIdOption, chosen, IsSave, IsWithId, IsOfPage, IsFor,
}
use lovechapter.Domain.Service.Laws.{IsAuthorized}
use lovechapter.Domain.Service.Authorized.{handle-IsAuthorized}

as_onboarded-serves :
    (u : AuthenticatedUser) (w : Option Text) (a : Result Action) (x : Action)
    → u.onboarding_complete ≡ true
    → a ≡ ok x
    → as_onboarded (some u) w a ≡ ok (record { user_id = u.id; wedding_id = w; action = x })
unfolding as_onboarded require_onboarded_user require_user
as_onboarded-serves u w a x h k = rw (h, k) refl

operation_id-uuid : (id : Text) → is_uuid id ≡ true → operation_id id ≡ ok id
unfolding operation_id
operation_id-uuid id h = rw h refl

id_or_fresh-chosen :
    (fresh : Text) (id : Option Text) → IsIdOption id → id_or_fresh fresh id ≡ ok (chosen fresh id)
id_or_fresh-chosen fresh none h = refl
id_or_fresh-chosen fresh (some id) h = operation_id-uuid id h

check_id-passes : (id : Option Text) → IsIdOption id → check_id id ≡ ok tt
check_id-passes none h = refl
check_id-passes (some id) h = rw (operation_id-uuid id h) refl

optional_id-passes : (id : Option Text) → IsIdOption id → optional_id id ≡ ok id
optional_id-passes none h = refl
optional_id-passes (some id) h = rw (operation_id-uuid id h) refl

saving-serves :
    {A : Type 0} (action : Text → A → Bool → Action) (fresh : Text) (id : Option Text)
    (r : Result A) (x : Action)
    → IsSave action fresh id r x
    → saving action fresh id r ≡ ok x
saving-serves action fresh id r x (v, i, h, k) =
    rw (id_or_fresh-chosen fresh (truthy id) i, h, k) refl

with_id-serves :
    (action : Text → Action) (id : Text) (x : Action)
    → IsWithId action id x
    → with_id action id ≡ ok x
with_id-serves action id x (h, k) = rw (operation_id-uuid id h, k) refl

-- The limit of a page is the one that was asked for.
normalize_page-limit :
    (e : Env) (page : PageInput) (p : RepositoryPageInput)
    → normalize_page e.cursors page ≡ ok p
    → page.limit ≡ p.limit
unfolding normalize_page
normalize_page-limit e page p h = elim (Bool-cases (outside 100 page.limit)) [
  | inl beyond ↦ absurd (no_page (rw beyond at h))
  | inr within ↦
      let (c, read, same) =
        >>=-eq-ok (read_cursor e.cursors (truthy page.cursor)) _ (rw within at h) in
      ap (λ (r : Result RepositoryPageInput). limit_of page.limit r) same
]
  where
    limit_of : Number → Result RepositoryPageInput → Number
    limit_of n (ok q) = q.limit
    limit_of n (err _) = n

    no_page : {m : _} → ◌≡◌ {A = Result RepositoryPageInput} (err m) (ok p) → ⊥
    no_page k = cc

limit-inside : (max : _) (n : Number) → IsLimit max n → outside max n ≡ false
limit-inside max n l = rw l.same (ground (arith, l.first, l.last))

page-inside :
    (e : Env) (page : PageInput) (p : RepositoryPageInput)
    → IsPage e.cursors 50 p
    → normalize_page e.cursors page ≡ ok p
    → outside 50 page.limit ≡ false
page-inside e page p i h = rw (normalize_page-limit e page p h) (limit-inside 50 p.limit i.limit)

operation_page-serves :
    (e : Env) (action : RepositoryPageInput → Action) (page : PageInput) (x : Action)
    → IsOfPage e action page x
    → (do p ← operation_page e page; ok (action p)) ≡ ok x
unfolding operation_page
operation_page-serves e action page x (p, i, h, k) = rw (page-inside e page p i h, h, k) refl

filter-known : (f : PlanningTaskFilter) → f ≢ other_filter → is_filter f ≡ true
filter-known all_tasks h = refl
filter-known open_tasks h = refl
filter-known completed_tasks h = refl
filter-known other_filter h = absurd (h refl)

-- An onboarded user is served what the request asks for.
handle-serves :
    (e : Env) (u : AuthenticatedUser) (r : Request) (x : Action)
    → u.onboarding_complete ≡ true
    → IsFor e r x
    → handle e (some u) r ≡ ok (record { user_id = u.id; wedding_id = wedding_of r; action = x })
unfolding handle get_budget_overview set_budget list_budget_categories save_budget_category
    delete_budget_category list_vendors save_vendor delete_vendor list_expenses save_expense
    delete_expense list_run_sheet save_run_sheet_item delete_run_sheet_item list_seating_tables
    save_seating_table delete_seating_table list_seating_assignments assign_seating
    list_planning_tasks get_planning_overview create_planning_task update_planning_task
    delete_planning_task list_envelope_templates create_envelope_template update_envelope_template
    delete_envelope_template get_envelope_print_data create_wedding update_wedding list_weddings
    get_rsvp_summary list_guest_affiliations create_guest_affiliation update_guest_affiliation
    reorder_guest_affiliations delete_guest_affiliation add_guest set_guest_affiliation list_guests
    get_guest update_guest archive_guest restore_guest bulk_set_guest_affiliation
    bulk_archive_guests create_invitation replace_invitation commit_guest_import
handle-serves e u (overview w) x o h = as_onboarded-serves u (some w) _ x o (rw h refl)
handle-serves e u (budget w a) x o (v, h, k) = as_onboarded-serves u (some w) _ x o (rw (h, k) refl)
handle-serves e u (categories w) x o h = as_onboarded-serves u (some w) _ x o (rw h refl)
handle-serves e u (save_category w a b c) x o h =
    as_onboarded-serves u (some w) _ x o
      (saving-serves category_saved a b (normalize_budget_category c) x h)
handle-serves e u (delete_category w a) x o h =
    as_onboarded-serves u (some w) _ x o (with_id-serves category_deleted a x h)
handle-serves e u (vendors w a) x o h =
    as_onboarded-serves u (some w) _ x o (operation_page-serves e vendors_listed a x h)
handle-serves e u (save_the_vendor w a b c) x o h =
    as_onboarded-serves u (some w) _ x o (saving-serves vendor_saved a b (normalize_vendor c) x h)
handle-serves e u (delete_the_vendor w a) x o h =
    as_onboarded-serves u (some w) _ x o (with_id-serves vendor_deleted a x h)
handle-serves e u (expenses w a) x o h =
    as_onboarded-serves u (some w) _ x o (operation_page-serves e expenses_listed a x h)
handle-serves e u (save_the_expense w a b c) x o (v, h, k, l, i) =
    rw (h, check_id-passes (truthy v.category_id) k, check_id-passes (truthy v.vendor_id) l)
      (as_onboarded-serves u (some w) _ x o (saving-serves expense_saved a b (ok v) x i))
handle-serves e u (delete_the_expense w a) x o h =
    as_onboarded-serves u (some w) _ x o (with_id-serves expense_deleted a x h)
handle-serves e u (run_sheet w a) x o h =
    as_onboarded-serves u (some w) _ x o (operation_page-serves e run_sheet_listed a x h)
handle-serves e u (save_item w a b c) x o h =
    as_onboarded-serves u (some w) _ x o
      (saving-serves run_sheet_item_saved a b (normalize_run_sheet_item e.to_iso c) x h)
handle-serves e u (delete_item w a) x o h =
    as_onboarded-serves u (some w) _ x o (with_id-serves run_sheet_item_deleted a x h)
handle-serves e u (tables w) x o h = as_onboarded-serves u (some w) _ x o (rw h refl)
handle-serves e u (save_table w a b c) x o h =
    as_onboarded-serves u (some w) _ x o
      (saving-serves table_saved a b (normalize_seating_table c) x h)
handle-serves e u (delete_table w a) x o h =
    as_onboarded-serves u (some w) _ x o (with_id-serves table_deleted a x h)
handle-serves e u (assignments w a) x o h =
    as_onboarded-serves u (some w) _ x o (with_id-serves assignments_listed a x h)
handle-serves e u (seat w a b) x o (h, i, k) =
    as_onboarded-serves u (some w) _ x o
      (rw (operation_id-uuid a h, optional_id-passes (truthy b) i, k) refl)
handle-serves e u (tasks w a b) x o (p, f, i, h, k) =
    as_onboarded-serves u (some w) _ x o (rw (page-inside e a p i h, filter-known b f, h, k) refl)
handle-serves e u (planning_overview w) x o h = as_onboarded-serves u (some w) _ x o (rw h refl)
handle-serves e u (create_task w a b) x o (v, h, k) =
    as_onboarded-serves u (some w) _ x o (rw (h, k) refl)
handle-serves e u (update_task w a b) x o (v, i, h, k) =
    as_onboarded-serves u (some w) _ x o (rw (i, h, k) refl)
handle-serves e u (delete_task w a) x o (h, k) =
    as_onboarded-serves u (some w) _ x o (rw (h, k) refl)
handle-serves e u (templates w) x o h = as_onboarded-serves u (some w) _ x o (rw h refl)
handle-serves e u (create_template w a b) x o (v, h, k) =
    as_onboarded-serves u (some w) _ x o (rw (h, k) refl)
handle-serves e u (update_template w a b) x o (v, i, h, k) =
    as_onboarded-serves u (some w) _ x o (rw (i, h, k) refl)
handle-serves e u (delete_template w a) x o (h, k) =
    as_onboarded-serves u (some w) _ x o (rw (h, k) refl)
handle-serves e u (print_data w a) x o (v, h, k) =
    as_onboarded-serves u (some w) _ x o (rw (h, k) refl)
handle-serves e u (create_the_wedding a b) x o (v, h, k) =
    as_onboarded-serves u none _ x o (rw (h, k) refl)
handle-serves e u (update_the_wedding w a) x o (v, h, k) =
    as_onboarded-serves u (some w) _ x o (rw (h, k) refl)
handle-serves e u (weddings a) x o (p, i, h, k) = as_onboarded-serves u none _ x o (rw (h, k) refl)
handle-serves e u (rsvp_summary w) x o h = as_onboarded-serves u (some w) _ x o (rw h refl)
handle-serves e u (affiliations w) x o h = as_onboarded-serves u (some w) _ x o (rw h refl)
handle-serves e u (create_affiliation w a b) x o (v, h, k) =
    as_onboarded-serves u (some w) _ x o (rw (h, k) refl)
handle-serves e u (update_affiliation w a b) x o (v, h, k) =
    as_onboarded-serves u (some w) _ x o (rw (h, k) refl)
handle-serves e u (reorder w a) x o (h, d, k) =
    as_onboarded-serves u (some w) _ x o (rw (d, k) (ground arith))
handle-serves e u (delete_affiliation w a) x o h = as_onboarded-serves u (some w) _ x o (rw h refl)
handle-serves e u (create_guest w a b) x o (v, h, k) =
    as_onboarded-serves u (some w) _ x o (rw (h, k) refl)
handle-serves e u (affiliate w a b) x o h = as_onboarded-serves u (some w) _ x o (rw h refl)
handle-serves e u (guests w a) x o (p, i, h, k) =
    as_onboarded-serves u (some w) _ x o (rw (h, k) refl)
handle-serves e u (guest w a) x o h = as_onboarded-serves u (some w) _ x o (rw h refl)
handle-serves e u (change_guest w a b) x o (v, h, k) =
    as_onboarded-serves u (some w) _ x o (rw (h, k) refl)
handle-serves e u (archive w a) x o h = as_onboarded-serves u (some w) _ x o (rw h refl)
handle-serves e u (restore w a) x o h = as_onboarded-serves u (some w) _ x o (rw h refl)
handle-serves e u (bulk_move w a b) x o (p, i, h, k) =
    as_onboarded-serves u (some w) _ x o (rw (h, k) refl)
handle-serves e u (bulk_archive w a) x o (p, i, h, k) =
    as_onboarded-serves u (some w) _ x o (rw (h, k) refl)
handle-serves e u (invite w a b c) x o h = as_onboarded-serves u (some w) _ x o (rw h refl)
handle-serves e u (invite_again w a b c) x o h = as_onboarded-serves u (some w) _ x o (rw h refl)
handle-serves e u (commit_import w a b) x o (h, k, l, m) =
    as_onboarded-serves u (some w) _ x o (rw (h, k, l, m) refl)

served :
    (e : Env) (s : Session) (r : Request) (c : Call) → IsAuthorized e s r c → handle e s r ≡ ok c
served e s r c a =
    rw (a.signed_in, handle-serves e a.user r c.action a.onboarded a.asked, ← a.caller, ← a.wedding)
      refl

-- A request of `Request` reaches a repository with some call exactly when the session has a user who has finished
-- onboarding, and the call is made for that user, for the wedding of the request, and is one that the request
-- asks for, as `IsFor` lists them: the named operation on the named records, with the drawn identifier
-- for a new one, and with the contents, pages and filters that the normaliser of the method gives for the
-- input. There an identifier of an operation, a task or a template is a UUID, a page has 1 to 50 items (1 to 100 for
-- weddings) and a cursor of the right shape, and new orders, bulk selections and imports to commit pass the
-- tests of their methods. Every other request is refused.
pub handle_iff :
    (e : Env) (s : Session) (r : Request) (c : Call) → (handle e s r ≡ ok c) ↔ IsAuthorized e s r c
handle_iff e s r c = ((λ h. ensured (handle-IsAuthorized e s r) h), served e s r c)
