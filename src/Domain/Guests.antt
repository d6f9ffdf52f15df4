-- ===== src/Domain/Guests.antt =====
-- The input rules for guests and weddings of packages/domain/src/service.ts.
pub mod Laws
use Prim.Native.String.{String}
use lovechapter.Prelude.{
  ℕ, Bool, true, false, ◌&&◌, ◌||◌, not, Option, none, some, List, [], ◌∷◌, if◌then◌else◌, ltb, leb,
  ◌==◌, is_empty, length, all,
}
use lovechapter.Prelude.Number.{Number, is_integer, below, above}
use lovechapter.Prelude.Optional.{Field, absent, null, given}
use lovechapter.Prelude.Result.{
  Result, ok, err, ◌>>=◌, ◌>>◌, throw_if, invalid, validation, length_at_most, not_found,
}
use lovechapter.Text.{Text, trim, character_length, is_space, is_digit, is_upper, is_lower}
use lovechapter.Text.Uuid.{is_uuid, is_distinct}
use lovechapter.Domain.Platform.{Platform}
use lovechapter.Domain.Calendar.IsoDate.{is_iso_date}
use lovechapter.Domain.Countries.{is_country_code}

-- `trimmed && …`: the empty text counts as none.
abbrev pub truthy : Option Text → Option Text
truthy none = none
truthy (some t) = if is_empty t then none else some t

-- `normalizeOptionalText`
abbrev bounded_text : ℕ → String → Text → Result (Option Text)
bounded_text limit field trimmed =
    if is_empty trimmed
    then ok none
    else (if ltb limit (character_length trimmed)
        then err (validation (length_at_most field limit))
        else ok (some trimmed))

unfoldable pub normalize_optional_text : Option Text → ℕ → String → Result (Option Text)
normalize_optional_text none limit field = ok none
normalize_optional_text (some value) limit field = bounded_text limit field (trim value)

-- `[^\s@]`
abbrev is_mail_char : ℕ → Bool
is_mail_char c = not (is_space c) && not (c == b'@')

-- `.+\.…`: a dot that is neither the first nor the last character.
abbrev dot_before_last : Text → Bool
dot_before_last [] = false
dot_before_last (c ∷ []) = false
dot_before_last (c ∷ d ∷ s) = (c == b'.') || dot_before_last (d ∷ s)

-- Behind the sign: characters of an address, with an inner dot.
abbrev is_mail_domain : Text → Bool
is_mail_domain [] = false
is_mail_domain (c ∷ s) = all is_mail_char (c ∷ s) && dot_before_last s

abbrev mail_rest : Text → Bool
mail_rest [] = false
mail_rest (c ∷ s) = if c == b'@' then is_mail_domain s else not (is_space c) && mail_rest s

-- `/^[^\s@]+@[^\s@]+\.[^\s@]+$/`
unfoldable pub is_mail_address : Text → Bool
unfolding is_space
is_mail_address [] = false
is_mail_address (c ∷ s) = is_mail_char c && mail_rest s

-- `normalizeEmail`
abbrev check_mail : Text → Result (Option Text)
check_mail email =
    if is_empty email
    then ok none
    else (if ltb 320 (character_length email) || not (is_mail_address email)
        then err (invalid "Invalid guest email")
        else ok (some email))

unfoldable pub normalize_guest_email : Platform → Option Text → Result (Option Text)
normalize_guest_email p none = ok none
normalize_guest_email p (some value) = check_mail (p.to_lower (trim value))

pub record PostalAddressInput : Type 0 where
  pub address_line1 : Text
  pub address_line2 : Option Text
  pub locality : Option Text
  pub administrative_area : Option Text
  pub postal_code : Option Text
  pub country_code : Option Text

abbrev upper_code : Platform → Option Text → Option Text
upper_code p none = none
upper_code p (some value) = truthy (some (p.to_upper (trim value)))

abbrev is_known : Option Text → Bool
is_known none = true
is_known (some code) = is_country_code code

-- A required text with the message of its own.
unfoldable pub named_text : String → ℕ → Text → Result Text
named_text message max value = do
  let trimmed = trim value
  throw_if (is_empty trimmed || ltb max (character_length trimmed)) (invalid message)
  ok trimmed

unfoldable pub normalize_postal_address : Platform → PostalAddressInput → Result PostalAddressInput
normalize_postal_address p input = do
  address_line1 ← named_text "Address line 1 must be 1–180 characters" 180 input.address_line1
  address_line2 ← normalize_optional_text input.address_line2 180 "Address line 2"
  locality ← normalize_optional_text input.locality 120 "Locality"
  administrative_area ← normalize_optional_text input.administrative_area 120 "Administrative area"
  postal_code ← normalize_optional_text input.postal_code 32 "Postal code"
  let country_code = upper_code p input.country_code
  throw_if (not (is_known country_code)) (invalid "Invalid country code")
  ok (record {
    address_line1 = address_line1;
    address_line2 = address_line2;
    locality = locality;
    administrative_area = administrative_area;
    postal_code = postal_code;
    country_code = country_code;
  })

pub record CreateGuestInput : Type 0 where
  pub name : Text
  pub email : Option Text
  pub phone : Option Text
  pub allowed_party_size : Number
  pub affiliation_id : Option Text
  pub envelope_name : Option Text
  pub note : Option Text
  pub postal_address : Option PostalAddressInput

abbrev optional_address : Platform → Option PostalAddressInput → Result (Option PostalAddressInput)
optional_address p none = ok none
optional_address p (some a) = do b ← normalize_postal_address p a; ok (some b)

-- The test of the party allowance, of `normalizeGuestCreate` and `normalizeGuestUpdate`.
abbrev pub check_allowance : Number → Result (Unit {0})
check_allowance n =
    throw_if (not (is_integer n) || below n 1 || above n 20)
      (invalid "Party allowance must be between 1 and 20")

unfoldable pub normalize_guest_create : Platform → CreateGuestInput → Result CreateGuestInput
normalize_guest_create p input = do
  name ← named_text "Guest name must be 1–120 characters" 120 input.name
  check_allowance input.allowed_party_size
  email ← normalize_guest_email p input.email
  phone ← normalize_optional_text input.phone 40 "Guest phone"
  envelope_name ← normalize_optional_text input.envelope_name 180 "Envelope name"
  note ← normalize_optional_text input.note 2000 "Guest note"
  postal_address ← optional_address p input.postal_address
  ok (record {
    name = name;
    email = email;
    phone = phone;
    allowed_party_size = input.allowed_party_size;
    affiliation_id = truthy input.affiliation_id;
    envelope_name = envelope_name;
    note = note;
    postal_address = postal_address;
  })
