-- ===== src/Domain/RequestTests.antt =====
-- A guest, an entry of the run sheet, a cursor and a request to save a vendor.
use lovechapter.Prelude.{◌≡◌, ◌↔◌, refl, true, Option, none, some}
use lovechapter.Prelude.Number.{whole}
use lovechapter.Prelude.Optional.{absent, null, given}
use lovechapter.Prelude.Result.{ok}
use lovechapter.Text.{Text, codes, is_space, trim_start, trim_end, trim, character_length}
use lovechapter.Domain.Platform.{Platform}
use lovechapter.Domain.Calendar.IsoDate.{is_iso_date, is_iso_date_iff}
use lovechapter.Domain.Calendar.Laws.{IsCalendarDate}
use lovechapter.Domain.Countries.{country_codes, is_country_code}
use lovechapter.Domain.Validation.{required_text, optional_text}
use lovechapter.Domain.CursorTests.{cursors}
use lovechapter.Domain.Guests.{
  CreateGuestInput, PostalAddressInput, named_text, normalize_optional_text, normalize_guest_email,
  is_mail_address, normalize_postal_address, normalize_guest_create,
}
use lovechapter.Domain.Guests.Laws.{IsGuest, normalize_guest_create-IsGuest}
use lovechapter.Domain.Operations.{researching, normalize_vendor}
use lovechapter.Domain.RunSheet.{
  RunSheetItemInput, RunSheetItem, is_instant, exact_instant, instant, text_le,
  normalize_run_sheet_item,
}
use lovechapter.Domain.RunSheet.Laws.{IsRunSheetItem, normalize_run_sheet_item-IsRunSheetItem}
use lovechapter.Domain.Service.{
  Env, Session, Call, vendor_saved, as_onboarded, require_onboarded_user, require_user,
}
use lovechapter.Domain.Service.Requests.{Request, save_the_vendor, handle}
use lovechapter.Domain.Service.Laws.{IsAuthorized}
use lovechapter.Domain.Service.Operations.{save_vendor}
use lovechapter.Domain.Service.Served.{handle_iff}

abbrev plain_platform : Platform
plain_platform = record {
  to_upper = λ s. s;
  to_lower = λ s. s;
  to_locale_lower = λ s. s;
  supports_currency = λ s. true;
  maximum_fraction_digits = λ s. some (some 2);
  is_time_zone = λ s. true;
  is_locale = λ s. true;
}

abbrev address : PostalAddressInput
address = record {
  address_line1 = codes "Hill 1";
  address_line2 = none;
  locality = some (codes "Ulm");
  administrative_area = none;
  postal_code = none;
  country_code = some (codes "DE");
}

abbrev ann : CreateGuestInput
ann = record {
  name = codes "Ann";
  email = some (codes "a@b.c");
  phone = none;
  allowed_party_size = whole 2;
  affiliation_id = none;
  envelope_name = none;
  note = some (codes "vegan");
  postal_address = some address;
}

ann_normalized : normalize_guest_create plain_platform ann ≡ ok ann
unfolding normalize_guest_create named_text normalize_optional_text normalize_guest_email
    is_mail_address normalize_postal_address is_country_code country_codes trim trim_start trim_end
    is_space character_length
ann_normalized = refl

normalize_guest_create-IsGuest_example : IsGuest ann ann
normalize_guest_create-IsGuest_example =
    normalize_guest_create-IsGuest plain_platform ann ann ann_normalized

abbrev ceremony_input : RunSheetItemInput
ceremony_input = record {
  title = codes "Vows";
  starts_at = codes "2026-05-01T10:00:00Z";
  ends_at = codes "2026-05-01T10:30:00.5Z";
  location = absent;
  responsible = null;
  note = given (codes "rings");
}

abbrev ceremony : RunSheetItem
ceremony = record {
  title = codes "Vows";
  starts_at = codes "2026-05-01T10:00:00.000Z";
  ends_at = codes "2026-05-01T10:30:00.500Z";
  location = none;
  responsible = none;
  note = some (codes "rings");
}

abbrev padded : Text → Option Text
unfolding exact_instant
padded s = some (exact_instant s)

ceremony_normalized : normalize_run_sheet_item padded ceremony_input ≡ ok ceremony
unfolding normalize_run_sheet_item instant is_instant exact_instant text_le required_text
    optional_text trim trim_start trim_end is_space character_length
ceremony_normalized = refl

normalize_run_sheet_item-IsRunSheetItem_example : IsRunSheetItem padded ceremony_input ceremony
normalize_run_sheet_item-IsRunSheetItem_example =
    normalize_run_sheet_item-IsRunSheetItem padded ceremony_input ceremony ceremony_normalized

is_iso_date_iff_example :
    (is_iso_date (codes "2024-02-29") ≡ true) ↔ IsCalendarDate (codes "2024-02-29")
is_iso_date_iff_example = is_iso_date_iff (codes "2024-02-29")

abbrev env : Env
env = record { platform = plain_platform; cursors = cursors; to_iso = padded }

abbrev signed_in : Session
signed_in = some (record { id = codes "u1"; onboarding_complete = true })

abbrev florist : Request
florist = save_the_vendor (codes "w1") (codes "3f2504e0-4f89-41d3-9a0c-0305e82c3301") none (record {
  name = codes "Rosa";
  status = researching;
  contact_name = absent;
  email = absent;
  phone = absent;
  quote_minor = none;
  note = absent;
})

abbrev florist_call : Call
florist_call = record {
  user_id = codes "u1";
  wedding_id = some (codes "w1");
  action =
      vendor_saved (codes "3f2504e0-4f89-41d3-9a0c-0305e82c3301")
        (record {
          name = codes "Rosa";
          status = researching;
          contact_name = none;
          email = none;
          phone = none;
          quote_minor = none;
          note = none;
        })
        true;
}

florist_saved : handle env signed_in florist ≡ ok florist_call
unfolding handle save_vendor as_onboarded require_onboarded_user require_user normalize_vendor
    required_text optional_text trim trim_start trim_end is_space character_length
florist_saved = refl

handle_iff_example :
    (handle env signed_in florist ≡ ok florist_call)
    ↔ IsAuthorized env signed_in florist florist_call
handle_iff_example = handle_iff env signed_in florist florist_call
