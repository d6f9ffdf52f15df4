-- ===== src/Domain/Service.antt =====
-- `LoveChapterService` of packages/domain/src/service.ts: each method, up to the one call of a repository
-- that it ends in, as the value of that call. The identity and the repositories are interfaces: a session
-- holds the user that `syncUser` gave for the principal, if `resolve` gave one. `crypto.randomUUID` is
-- the argument `fresh`.
pub mod Operations
pub mod Planning
pub mod Guests
pub mod Requests
pub mod Answers
pub mod Laws
pub mod Authorized
pub mod Served
use lovechapter.Prelude.{ℕ, Bool, true, false, not, Option, none, some, List, is_empty, ltb}
use lovechapter.Prelude.Number.{Number}
use lovechapter.Prelude.Result.{
  Result, ok, err, ◌>>=◌, ◌>>◌, throw_if, invalid, authentication_required, onboarding_required,
}
use lovechapter.Text.{Text}
use lovechapter.Text.Uuid.{is_uuid}
use lovechapter.Domain.Platform.{Platform}
use lovechapter.Domain.Cursor.{CursorPlatform}
use lovechapter.Domain.Operations.{Budget, Vendor, Expense, SeatingTable}
use lovechapter.Domain.RunSheet.{RunSheetItem}
use lovechapter.Domain.Planning.{NormalizedPlanningTaskInput, UpdatePlanningTaskInput}
use lovechapter.Domain.Envelope.{EnvelopeTemplateInput, EnvelopePrintDataInput}
use lovechapter.Domain.Guests.{CreateGuestInput, truthy}
use lovechapter.Domain.Requests.{
  RepositoryPageInput, PageInput, outside, normalize_page, CreateWeddingInput,
  GuestAffiliationInput, GuestListRepositoryInput, NormalizedGuestUpdate,
}

pub record Env : Type 0 where
  pub platform : Platform
  pub cursors : CursorPlatform
  pub to_iso : Text → Option Text

pub record AuthenticatedUser : Type 0 where
  pub id : Text
  pub onboarding_complete : Bool

abbrev pub Session : Type 0
Session = Option AuthenticatedUser

pub data PlanningTaskFilter : Type 0 where
  all_tasks open_tasks completed_tasks other_filter : PlanningTaskFilter

pub record GuestImportCommitInput : Type 0 where
  pub expected_version : Number
  pub included_row_ids : List Text
  pub create_anyway_row_ids : List Text
  pub idempotency_key : Text

-- What the repositories are asked to do.
pub data Action : Type 0 where
  budget_overview_read : Action
  budget_set : Budget → Action
  categories_listed : Action
  category_saved : Text → Text → Bool → Action
  category_deleted : Text → Action
  vendors_listed : RepositoryPageInput → Action
  vendor_saved : Text → Vendor → Bool → Action
  vendor_deleted : Text → Action
  expenses_listed : RepositoryPageInput → Action
  expense_saved : Text → Expense → Bool → Action
  expense_deleted : Text → Action
  run_sheet_listed : RepositoryPageInput → Action
  run_sheet_item_saved : Text → RunSheetItem → Bool → Action
  run_sheet_item_deleted : Text → Action
  tables_listed : Action
  table_saved : Text → SeatingTable → Bool → Action
  table_deleted : Text → Action
  assignments_listed : Text → Action
  seating_assigned : Text → Option Text → Action
  tasks_listed : RepositoryPageInput → PlanningTaskFilter → Action
  planning_overview_read : Action
  task_created : Text → NormalizedPlanningTaskInput → Action
  task_updated : Text → UpdatePlanningTaskInput → Action
  task_deleted : Text → Action
  templates_listed : Action
  template_created : Text → EnvelopeTemplateInput → Action
  template_updated : Text → EnvelopeTemplateInput → Action
  template_deleted : Text → Action
  print_data_read : EnvelopePrintDataInput → Action
  wedding_created : Text → CreateWeddingInput → Action
  wedding_updated : CreateWeddingInput → Action
  weddings_listed : RepositoryPageInput → Action
  rsvp_summary_read : Action
  affiliations_listed : Action
  affiliation_created : Text → GuestAffiliationInput → Action
  affiliation_updated : Text → GuestAffiliationInput → Action
  affiliations_reordered : List Text → Action
  affiliation_deleted : Text → Action
  guest_created : Text → CreateGuestInput → Action
  guest_affiliation_set : Text → Option Text → Action
  guests_listed : GuestListRepositoryInput → Action
  guest_read : Text → Action
  guest_updated : Text → NormalizedGuestUpdate → Action
  guest_archived : Text → Action
  guest_restored : Text → Action
  guests_moved : List Text → Option Text → Action
  guests_archived : List Text → Action
  invitation_created : Text → Text → Text → Action
  invitation_replaced : Text → Text → Text → Action
  import_committed : Text → GuestImportCommitInput → Action

-- A call of a repository: by whom, and for which wedding, if for one.
pub record Call : Type 0 where
  pub user_id : Text
  pub wedding_id : Option Text
  pub action : Action

unfoldable pub require_user : Session → Result AuthenticatedUser
require_user none = err (authentication_required "Authentication required")
require_user (some user) = ok user

unfoldable pub require_onboarded_user : Session → Result AuthenticatedUser
require_onboarded_user session = do
  user ← require_user session
  throw_if (not user.onboarding_complete) (onboarding_required "Profile setup required")
  ok user

-- The user first, then the arguments, then the call.
unfoldable pub as_onboarded : Session → Option Text → Result Action → Result Call
as_onboarded session wedding_id arguments = do
  user ← require_onboarded_user session
  action ← arguments
  ok (record { user_id = user.id; wedding_id = wedding_id; action = action })

unfoldable pub operation_id : Text → Result Text
operation_id id = do throw_if (not (is_uuid id)) (invalid "Invalid record ID"); ok id

unfoldable pub operation_page : Env → PageInput → Result RepositoryPageInput
operation_page e page = do
  throw_if (outside 50 page.limit) (invalid "Page must have 1–50 items")
  normalize_page e.cursors page

-- `id ? this.operationId(id) : crypto.randomUUID()`
abbrev pub id_or_fresh : Text → Option Text → Result Text
id_or_fresh fresh none = ok fresh
id_or_fresh fresh (some id) = operation_id id

abbrev pub is_new : Option Text → Bool
is_new none = true
is_new (some id) = false
