-- ===== src/Domain/Service/Guests.antt =====
-- Weddings, affiliations and guests.
use lovechapter.Prelude.{
  Bool, not, ◌&&◌, ◌||◌, Option, none, some, List, ltb, leb, length, all, any, is_empty,
}
use lovechapter.Prelude.Result.{Result, ok, ◌>>=◌, ◌>>◌, throw_if, invalid}
use lovechapter.Prelude.Number.{is_integer, below}
use lovechapter.Text.{Text}
use lovechapter.Text.Uuid.{is_distinct, is_uuid}
use lovechapter.Domain.Guests.{CreateGuestInput, truthy, normalize_guest_create}
use lovechapter.Domain.Requests.{
  PageInput, normalize_page, CreateWeddingInput, normalize_wedding, GuestAffiliationInput,
  normalize_guest_affiliation, UpdateGuestInput, normalize_guest_update, GuestListInput,
  normalize_guest_list, normalize_guest_ids,
}
use lovechapter.Domain.Service.{
  Env, Session, wedding_created, wedding_updated, weddings_listed, rsvp_summary_read,
  affiliations_listed, affiliation_created, affiliation_updated, affiliations_reordered,
  affiliation_deleted, guest_created, guest_affiliation_set, guests_listed, guest_read,
  guest_updated, guest_archived, guest_restored, guests_moved, guests_archived, invitation_created,
  invitation_replaced, import_committed, GuestImportCommitInput, Call, as_onboarded,
}

unfoldable pub create_wedding : Env → Session → Text → CreateWeddingInput → Result Call
create_wedding e s fresh input =
    as_onboarded s none
      (do wedding ← normalize_wedding e.platform input; ok (wedding_created fresh wedding))

-- `weddingDate ?? null` is the missing date here.
unfoldable pub update_wedding : Env → Session → Text → CreateWeddingInput → Result Call
update_wedding e s w input = as_onboarded s (some w) (do
  wedding ← normalize_wedding e.platform (record input { wedding_date = truthy input.wedding_date })
  ok (wedding_updated wedding))

unfoldable pub list_weddings : Env → Session → PageInput → Result Call
list_weddings e s page =
    as_onboarded s none (do p ← normalize_page e.cursors page; ok (weddings_listed p))

unfoldable pub get_rsvp_summary : Session → Text → Result Call
get_rsvp_summary s w = as_onboarded s (some w) (ok rsvp_summary_read)

unfoldable pub list_guest_affiliations : Session → Text → Result Call
list_guest_affiliations s w = as_onboarded s (some w) (ok affiliations_listed)

unfoldable pub create_guest_affiliation :
    Env → Session → Text → Text → GuestAffiliationInput → Result Call
create_guest_affiliation e s w fresh input =
    as_onboarded s (some w)
      (do a ← normalize_guest_affiliation e.platform input; ok (affiliation_created fresh a))

unfoldable pub update_guest_affiliation :
    Env → Session → Text → Text → GuestAffiliationInput → Result Call
update_guest_affiliation e s w id input =
    as_onboarded s (some w)
      (do a ← normalize_guest_affiliation e.platform input; ok (affiliation_updated id a))

unfoldable pub reorder_guest_affiliations : Session → Text → List Text → Result Call
reorder_guest_affiliations s w ids = as_onboarded s (some w) (do
  throw_if (ltb 100 (length ids) || not (is_distinct ids))
      (invalid "Invalid guest affiliation order")
  ok (affiliations_reordered ids))

unfoldable pub delete_guest_affiliation : Session → Text → Text → Result Call
delete_guest_affiliation s w id = as_onboarded s (some w) (ok (affiliation_deleted id))

unfoldable pub add_guest : Env → Session → Text → Text → CreateGuestInput → Result Call
add_guest e s w fresh input =
    as_onboarded s (some w)
      (do guest ← normalize_guest_create e.platform input; ok (guest_created fresh guest))

unfoldable pub set_guest_affiliation : Session → Text → Text → Option Text → Result Call
set_guest_affiliation s w id affiliation =
    as_onboarded s (some w) (ok (guest_affiliation_set id affiliation))

unfoldable pub list_guests : Env → Session → Text → GuestListInput → Result Call
list_guests e s w input =
    as_onboarded s (some w) (do l ← normalize_guest_list e.cursors input; ok (guests_listed l))

unfoldable pub get_guest : Session → Text → Text → Result Call
get_guest s w id = as_onboarded s (some w) (ok (guest_read id))

unfoldable pub update_guest : Env → Session → Text → Text → UpdateGuestInput → Result Call
update_guest e s w id input =
    as_onboarded s (some w)
      (do changes ← normalize_guest_update e.platform input; ok (guest_updated id changes))

unfoldable pub archive_guest : Session → Text → Text → Result Call
archive_guest s w id = as_onboarded s (some w) (ok (guest_archived id))

unfoldable pub restore_guest : Session → Text → Text → Result Call
restore_guest s w id = as_onboarded s (some w) (ok (guest_restored id))

unfoldable pub bulk_set_guest_affiliation : Session → Text → List Text → Option Text → Result Call
bulk_set_guest_affiliation s w ids affiliation =
    as_onboarded s (some w)
      (do guests ← normalize_guest_ids ids; ok (guests_moved guests affiliation))

unfoldable pub bulk_archive_guests : Session → Text → List Text → Result Call
bulk_archive_guests s w ids =
    as_onboarded s (some w) (do guests ← normalize_guest_ids ids; ok (guests_archived guests))

-- The hash of the drawn token goes to the repository; the token itself is in the answer alone.
unfoldable pub create_invitation : Session → Text → Text → Text → Text → Result Call
create_invitation s w fresh guest_id token_hash =
    as_onboarded s (some w) (ok (invitation_created fresh guest_id token_hash))

unfoldable pub replace_invitation : Session → Text → Text → Text → Text → Result Call
replace_invitation s w fresh guest_id token_hash =
    as_onboarded s (some w) (ok (invitation_replaced fresh guest_id token_hash))

-- `/^[\x21-\x7e]{1,128}$/`
unfoldable pub is_idempotency_key : Text → Bool
is_idempotency_key key =
    not (is_empty key) && leb (length key) 128 && all (λ c. leb 0x21 c && leb c 0x7e) key

-- `ids.length > 5000 || new Set(ids).size !== ids.length || ids.some((id) => !isUuid(id))`
unfoldable pub bad_row_ids : List Text → Bool
bad_row_ids ids = ltb 5000 (length ids) || not (is_distinct ids) || any (λ id. not (is_uuid id)) ids

unfoldable pub bad_commit : GuestImportCommitInput → Bool
bad_commit input =
    not (is_integer input.expected_version)
    || below input.expected_version 1
    || not (is_idempotency_key input.idempotency_key)

unfoldable pub commit_guest_import : Session → Text → Text → GuestImportCommitInput → Result Call
commit_guest_import s w batch input = as_onboarded s (some w) (do
  throw_if (bad_commit input) (invalid "Invalid import version or idempotency key")
  throw_if (bad_row_ids input.included_row_ids) (invalid "Invalid guest import row IDs")
  throw_if (bad_row_ids input.create_anyway_row_ids) (invalid "Invalid guest import row IDs")
  ok (import_committed batch input))
