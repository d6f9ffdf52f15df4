-- ===== src/Domain/Guests/Laws.antt =====
-- What a normalised guest satisfies.
use Prim.Native.String.{String}
use lovechapter.Prelude.{
  ℕ, ◌≤◌, ◌≡◌, refl, true, false, ◌||◌, not, Option, none, some, arith, ltb, is_empty, inl, inr,
  Bool-cases,
}
use lovechapter.Prelude.Number.{
  Number, whole, integer, other, pos, negsuc, is_integer, below, above,
}
use lovechapter.Prelude.Result.{
  ok, Ensures, ensures, ensured, Ensures-bind, Ensures-ok, Ensures-then, throw_if-Ensures,
}
use lovechapter.Text.{Text, trim, character_length}
use lovechapter.Text.Trim.{trim_idempotent}
use lovechapter.Domain.Platform.{Platform}
use lovechapter.Domain.Validation.Laws.{IsNeat, IsNeatOption}
use lovechapter.Domain.Guests.{
  truthy, bounded_text, normalize_optional_text, is_mail_address, check_mail, normalize_guest_email,
  upper_code, is_known, named_text, PostalAddressInput, normalize_postal_address, CreateGuestInput,
  optional_address, normalize_guest_create,
}

bounded_text-IsNeatOption :
    (limit : ℕ) (field : String) (t : Text)
    → trim t ≡ t
    → Ensures (IsNeatOption limit) (bounded_text limit field t)
bounded_text-IsNeatOption limit field t h = elim (Bool-cases (is_empty t)) [
  | inl e ↦ rw e (Ensures-ok (IsNeatOption limit) none tt)
  | inr e ↦ elim (Bool-cases (ltb limit (character_length t))) [
    | inl long ↦ rw (e, long) (ensures (λ a k. absurd (cc)))
    | inr short ↦
        rw (e, short)
          (Ensures-ok (IsNeatOption limit) (some t)
            (record { trimmed = h; nonempty = e; short = ground arith }))
  ]
]

pub normalize_optional_text-Ensures :
    (o : Option Text) (limit : ℕ) (field : String)
    → Ensures (IsNeatOption limit) (normalize_optional_text o limit field)
unfolding normalize_optional_text
normalize_optional_text-Ensures none limit field = Ensures-ok (IsNeatOption limit) none tt
normalize_optional_text-Ensures (some v) limit field =
    bounded_text-IsNeatOption limit field (trim v) (trim_idempotent v)

pub named_text-Ensures :
    (message : String) (max : ℕ) (v : Text) → Ensures (IsNeat max) (named_text message max v)
unfolding named_text
named_text-Ensures message max v =
    Ensures-then (is_empty (trim v) || ltb max (character_length (trim v))) _ _ λ h.
      Ensures-ok (IsNeat max) _
        (record { trimmed = trim_idempotent v; nonempty = ground arith; short = ground arith })

abbrev pub IsMailOption : Option Text → Type 0
IsMailOption none = Unit
IsMailOption (some t) = (is_mail_address t ≡ true) × (character_length t ≤ 320)

check_mail-IsMailOption : (t : Text) → Ensures IsMailOption (check_mail t)
check_mail-IsMailOption t = elim (Bool-cases (is_empty t)) [
  | inl e ↦ rw e (Ensures-ok IsMailOption none tt)
  | inr e ↦ elim (Bool-cases (ltb 320 (character_length t) || not (is_mail_address t))) [
    | inl bad ↦ rw (e, bad) (ensures (λ a k. absurd (cc)))
    | inr good ↦ rw (e, good) (Ensures-ok IsMailOption (some t) (ground arith, ground arith))
  ]
]

pub normalize_guest_email-Ensures :
    (p : Platform) (o : Option Text) → Ensures IsMailOption (normalize_guest_email p o)
unfolding normalize_guest_email
normalize_guest_email-Ensures p none = Ensures-ok IsMailOption none tt
normalize_guest_email-Ensures p (some v) = check_mail-IsMailOption (p.to_lower (trim v))

-- The first line is there, the others are null or trimmed and within their limits, and the country is one
-- of the list.
pub record IsPostalAddress (a : PostalAddressInput) : Type 0 where
  pub address_line1 : IsNeat 180 a.address_line1
  pub address_line2 : IsNeatOption 180 a.address_line2
  pub locality : IsNeatOption 120 a.locality
  pub administrative_area : IsNeatOption 120 a.administrative_area
  pub postal_code : IsNeatOption 32 a.postal_code
  pub country_code : is_known a.country_code ≡ true

pub normalize_postal_address-Ensures :
    (p : Platform) (input : PostalAddressInput)
    → Ensures IsPostalAddress (normalize_postal_address p input)
unfolding normalize_postal_address
normalize_postal_address-Ensures p input =
    Ensures-bind _ _
      (named_text-Ensures "Address line 1 must be 1–180 characters" 180 input.address_line1)
      λ line1 h1.
        Ensures-bind _ _ (normalize_optional_text-Ensures input.address_line2 180 "Address line 2")
          λ line2 h2.
            Ensures-bind _ _ (normalize_optional_text-Ensures input.locality 120 "Locality")
              λ locality h3.
                Ensures-bind _ _
                  (normalize_optional_text-Ensures input.administrative_area 120
                    "Administrative area")
                  λ area h4.
                    Ensures-bind _ _
                      (normalize_optional_text-Ensures input.postal_code 32 "Postal code")
                      λ code h5.
                        Ensures-then (not (is_known (upper_code p input.country_code))) _ _ λ known.
                          Ensures-ok IsPostalAddress _ (record {
                            address_line1 = h1;
                            address_line2 = h2;
                            locality = h3;
                            administrative_area = h4;
                            postal_code = h5;
                            country_code = ground arith;
                          })

abbrev pub IsAddressOption : Option PostalAddressInput → Type 0
IsAddressOption none = Unit
IsAddressOption (some a) = IsPostalAddress a

optional_address-Ensures :
    (p : Platform) (o : Option PostalAddressInput) → Ensures IsAddressOption (optional_address p o)
optional_address-Ensures p none = Ensures-ok IsAddressOption none tt
optional_address-Ensures p (some a) =
    Ensures-bind _ _ (normalize_postal_address-Ensures p a)
      λ b h. Ensures-ok IsAddressOption (some b) h

pub IsAllowance : Number → Type 0
IsAllowance n = (k : ℕ) × (n ≡ whole k) × (1 ≤ k) × (k ≤ 20)

pub allowance_lem :
    (n : Number) → (not (is_integer n) || below n 1 || above n 20) ≡ false → IsAllowance n
unfolding IsAllowance
allowance_lem (integer (pos n)) h = (n, refl, ground arith, ground arith)
allowance_lem (integer (negsuc n)) h = cc
allowance_lem other h = cc

pub record IsGuest (input : CreateGuestInput) (g : CreateGuestInput) : Type 0 where
  pub name : IsNeat 120 g.name
  pub allowance : IsAllowance g.allowed_party_size
  pub allowance_same : g.allowed_party_size ≡ input.allowed_party_size
  pub email : IsMailOption g.email
  pub phone : IsNeatOption 40 g.phone
  pub affiliation : g.affiliation_id ≡ truthy input.affiliation_id
  pub envelope_name : IsNeatOption 180 g.envelope_name
  pub note : IsNeatOption 2000 g.note
  pub postal_address : IsAddressOption g.postal_address

pub normalize_guest_create-Ensures :
    (p : Platform) (input : CreateGuestInput)
    → Ensures (IsGuest input) (normalize_guest_create p input)
unfolding normalize_guest_create
normalize_guest_create-Ensures p input =
    Ensures-bind _ _ (named_text-Ensures "Guest name must be 1–120 characters" 120 input.name)
      λ name h1.
        Ensures-bind _ _
          (throw_if-Ensures
            (not (is_integer input.allowed_party_size)
              || below input.allowed_party_size 1
              || above input.allowed_party_size 20)
            _)
          λ _ fits. Ensures-bind _ _ (normalize_guest_email-Ensures p input.email) λ email h2.
            Ensures-bind _ _ (normalize_optional_text-Ensures input.phone 40 "Guest phone")
              λ phone h3.
                Ensures-bind _ _
                  (normalize_optional_text-Ensures input.envelope_name 180 "Envelope name")
                  λ envelope h4.
                    Ensures-bind _ _ (normalize_optional_text-Ensures input.note 2000 "Guest note")
                      λ note h5.
                        Ensures-bind _ _ (optional_address-Ensures p input.postal_address)
                          λ address h6. Ensures-ok (IsGuest input) _ (record {
                            name = h1;
                            allowance = allowance_lem input.allowed_party_size fits;
                            allowance_same = refl;
                            email = h2;
                            phone = h3;
                            affiliation = refl;
                            envelope_name = h4;
                            note = h5;
                            postal_address = h6;
                          })

-- A new guest has a trimmed name of 1 to 120 characters, the party allowance of the input, which is a whole
-- number from 1 to 20, no email or one in the shape of an address with at most 320 characters, optional
-- texts that are absent or trimmed and within their limits, and no address or one whose first line is there
-- and whose country, if any, is in the list.
pub normalize_guest_create-IsGuest :
    (p : Platform) (input g : CreateGuestInput)
    → normalize_guest_create p input ≡ ok g
    → IsGuest input g
normalize_guest_create-IsGuest p input g h = ensured (normalize_guest_create-Ensures p input) h
