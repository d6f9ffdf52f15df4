-- ===== src/Domain/Requests.antt =====
-- The remaining input rules of packages/domain/src/service.ts: pages, weddings, guest updates, guest lists,
-- affiliations and the shape of tokens.
pub mod Laws
use Prim.Native.String.{String}
use lovechapter.Prelude.{
  ℕ, zero, suc, Bool, true, false, ◌&&◌, ◌||◌, not, Option, none, some, List, [], ◌∷◌,
  if◌then◌else◌, ltb, leb, ◌==◌, is_empty, length, all, any,
}
use lovechapter.Prelude.Number.{Number, whole, is_integer, below, above}
use lovechapter.Prelude.Optional.{Field, absent, null, given}
use lovechapter.Prelude.Result.{Result, ok, err, ◌>>=◌, ◌>>◌, throw_if, invalid, not_found}
use lovechapter.Text.{Text, trim, character_length, is_digit, is_upper, is_lower}
use lovechapter.Text.Uuid.{is_uuid, is_distinct}
use lovechapter.Domain.Platform.{Platform}
use lovechapter.Domain.Calendar.IsoDate.{is_iso_date}
use lovechapter.Domain.Cursor.{ListCursor, CursorPlatform, decode_cursor}
use lovechapter.Domain.Guests.{
  truthy, named_text, check_allowance, normalize_optional_text, normalize_guest_email,
  PostalAddressInput, normalize_postal_address,
}

pub record PageInput : Type 0 where
  pub limit : Number
  pub cursor : Option Text

pub record RepositoryPageInput : Type 0 where
  pub limit : Number
  pub cursor : Option ListCursor

abbrev pub read_cursor : CursorPlatform → Option Text → Result (Option ListCursor)
read_cursor p none = ok none
read_cursor p (some value) = do cursor ← decode_cursor p value; ok (some cursor)

-- `!Number.isInteger(limit) || limit < 1 || limit > max`
abbrev pub outside : ℕ → Number → Bool
outside max limit = not (is_integer limit) || below limit 1 || above limit max

unfoldable pub normalize_page : CursorPlatform → PageInput → Result RepositoryPageInput
normalize_page p page = do
  throw_if (outside 100 page.limit) (invalid "Limit must be between 1 and 100")
  cursor ← read_cursor p (truthy page.cursor)
  ok (record { limit = page.limit; cursor = cursor })

pub record CreateWeddingInput : Type 0 where
  pub name : Text
  pub wedding_date : Option Text
  pub time_zone : Text
  pub locale : Text

abbrev pub bad_date : Option Text → Bool
bad_date none = false
bad_date (some date) = not (is_iso_date date)

-- The name is measured in code units.
unfoldable pub normalize_wedding : Platform → CreateWeddingInput → Result CreateWeddingInput
normalize_wedding p input = do
  let name = trim input.name
  throw_if (is_empty name || ltb 120 (length name))
      (invalid "Wedding name must be 1–120 characters")
  throw_if (not (p.is_time_zone input.time_zone && p.is_locale input.locale))
      (invalid "Invalid locale or time zone")
  throw_if (bad_date (truthy input.wedding_date)) (invalid "Wedding date must use YYYY-MM-DD")
  ok (record {
    name = name;
    wedding_date = truthy input.wedding_date;
    time_zone = input.time_zone;
    locale = input.locale;
  })

-- A property that is absent is not changed.
pub record UpdateGuestInput : Type 0 where
  pub name : Option Text
  pub email : Option Text
  pub phone : Option Text
  pub allowed_party_size : Option Number
  pub affiliation_id : Option Text
  pub envelope_name : Option Text
  pub note : Option Text
  pub postal_address : Field PostalAddressInput

-- The columns that are set; `given` and `null` set them.
pub record NormalizedGuestUpdate : Type 0 where
  pub name : Option Text
  pub email : Field Text
  pub phone : Field Text
  pub allowed_party_size : Option Number
  pub affiliation_id : Field Text
  pub envelope_name : Field Text
  pub note : Field Text
  pub postal_address : Field PostalAddressInput

-- `… ?? null`
abbrev pub or_clear : Option Text → Field Text
or_clear none = null
or_clear (some t) = given t

abbrev update_name : Option Text → Result (Option Text)
update_name none = ok none
update_name (some value) = do
  name ← named_text "Guest name must be 1–120 characters" 120 value
  ok (some name)

abbrev update_email : Platform → Option Text → Result (Field Text)
update_email p none = ok absent
update_email p (some value) = do email ← normalize_guest_email p (some value); ok (or_clear email)

abbrev update_text : Option Text → ℕ → String → Result (Field Text)
update_text none limit field = ok absent
update_text (some value) limit field = do
  t ← normalize_optional_text (some value) limit field
  ok (or_clear t)

abbrev update_allowance : Option Number → Result (Option Number)
update_allowance none = ok none
update_allowance (some n) = do check_allowance n; ok (some n)

abbrev update_affiliation : Option Text → Field Text
update_affiliation none = absent
update_affiliation (some value) = or_clear (truthy (some value))

abbrev update_address : Platform → Field PostalAddressInput → Result (Field PostalAddressInput)
update_address p absent = ok absent
update_address p null = ok null
update_address p (given a) = do b ← normalize_postal_address p a; ok (given b)

unfoldable pub normalize_guest_update : Platform → UpdateGuestInput → Result NormalizedGuestUpdate
normalize_guest_update p input = do
  name ← update_name input.name
  email ← update_email p input.email
  phone ← update_text input.phone 40 "Guest phone"
  allowed_party_size ← update_allowance input.allowed_party_size
  envelope_name ← update_text input.envelope_name 180 "Envelope name"
  note ← update_text input.note 2000 "Guest note"
  postal_address ← update_address p input.postal_address
  ok (record {
    name = name;
    email = email;
    phone = phone;
    allowed_party_size = allowed_party_size;
    affiliation_id = update_affiliation input.affiliation_id;
    envelope_name = envelope_name;
    note = note;
    postal_address = postal_address;
  })

unfoldable pub normalize_guest_ids : List Text → Result (List Text)
normalize_guest_ids ids = do
  throw_if
      (ltb (length ids) 1
        || ltb 200 (length ids)
        || not (is_distinct ids)
        || any (λ id. not (is_uuid id)) ids)
      (invalid "Bulk guest actions accept 1–200 unique guests")
  ok ids

pub data GuestView : Type 0 where
  active archived : GuestView

pub data GuestRsvpFilter : Type 0 where
  pending attending declined : GuestRsvpFilter

pub record GuestListInput : Type 0 where
  pub page : PageInput
  pub search : Option Text
  pub affiliation : Option Text
  pub rsvp : Option GuestRsvpFilter
  pub view : Option GuestView

pub record GuestListRepositoryInput : Type 0 where
  pub page : RepositoryPageInput
  pub search : Option Text
  pub affiliation : Option Text
  pub rsvp : Option GuestRsvpFilter
  pub view : GuestView

abbrev or_active : Option GuestView → GuestView
or_active none = active
or_active (some view) = view

unfoldable pub normalize_guest_list :
    CursorPlatform → GuestListInput → Result GuestListRepositoryInput
normalize_guest_list p input = do
  page ← normalize_page p input.page
  search ← normalize_optional_text input.search 120 "Guest search"
  ok (record {
    page = page;
    search = search;
    affiliation = truthy input.affiliation;
    rsvp = input.rsvp;
    view = or_active input.view;
  })

pub record GuestAffiliationInput : Type 0 where
  pub name : Text
  pub color : Text

-- `/^#[0-9a-f]{6}$/`
abbrev pub is_small_hex : ℕ → Bool
is_small_hex c = is_digit c || (leb b'a' c && leb c b'f')

unfoldable pub is_color : Text → Bool
is_color [] = false
is_color (c ∷ s) = c == b'#' && length s == 6 && all is_small_hex s

unfoldable pub normalize_guest_affiliation :
    Platform → GuestAffiliationInput → Result GuestAffiliationInput
normalize_guest_affiliation p input = do
  name ← named_text "Guest affiliation name must be 1–80 characters" 80 input.name
  let color = p.to_lower input.color
  throw_if (not (is_color color)) (invalid "Guest affiliation color is invalid")
  ok (record { name = name; color = color })

-- `/^[A-Za-z0-9_-]{43}$/`
abbrev pub is_token_char : ℕ → Bool
is_token_char c = is_upper c || is_lower c || is_digit c || c == b'_' || c == b'-'

unfoldable pub assert_token_shape : Text → Result (Unit {0})
assert_token_shape token =
    throw_if (not (length token == 43 && all is_token_char token))
      (not_found "Invitation not found")
