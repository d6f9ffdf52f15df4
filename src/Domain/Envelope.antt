-- ===== src/Domain/Envelope.antt =====
-- packages/domain/src/envelope-printing.ts
pub mod Laws
use lovechapter.Prelude.{
  ℕ, ◌+◌, Bool, true, false, not, ◌&&◌, ◌||◌, Option, none, some, List, if◌then◌else◌, ltb, length,
  is_empty, any,
}
use lovechapter.Prelude.Number.{ℤ, pos, negsuc, Number, integer, other, is_integer, below, above}
use lovechapter.Prelude.Result.{Result, ok, err, ◌>>=◌, ◌>>◌, throw_if, invalid}
use lovechapter.Text.{Text, trim, character_length}
use lovechapter.Text.Uuid.{is_loose_uuid, is_distinct}

-- The listed values, and `unlisted` for any other that the request may hold.
pub data Orientation : Type 0 where
  landscape portrait unlisted : Orientation

pub data Alignment : Type 0 where
  left center right unlisted : Alignment

pub data FontFamily : Type 0 where
  noto_sans_thai noto_serif_thai unlisted : FontFamily

-- `showAddress` may be something other than a boolean.
pub record EnvelopeTemplateInput : Type 0 where
  pub name : Option Text
  pub width_mm : Number
  pub height_mm : Number
  pub orientation : Orientation
  pub margin_top_mm : Number
  pub margin_right_mm : Number
  pub margin_bottom_mm : Number
  pub margin_left_mm : Number
  pub alignment : Alignment
  pub font_family : FontFamily
  pub font_size_pt : Number
  pub line_spacing_percent : Number
  pub show_address : Option Bool

-- `bounded(value, min, max)`
abbrev pub bounded : Number → ℕ → ℕ → Bool
bounded value lo hi = is_integer value && not (below value lo) && not (above value hi)

-- The value of a number that `bounded` has accepted.
abbrev pub value_of : Number → ℕ
value_of (integer (pos n)) = n
value_of (integer (negsuc n)) = 0
value_of other = 0

-- `size - margin - margin' < 20`, of accepted numbers; the differences may be negative.
abbrev pub too_narrow : Number → Number → Number → Bool
too_narrow size margin margin' = ltb (value_of size) (value_of margin + value_of margin' + 20)

abbrev pub is_portrait : Orientation → Bool
is_portrait Orientation.portrait = true
is_portrait _ = false

abbrev pub known_orientation : Orientation → Bool
known_orientation Orientation.unlisted = false
known_orientation _ = true

abbrev pub known_alignment : Alignment → Bool
known_alignment Alignment.unlisted = false
known_alignment _ = true

abbrev pub known_font_family : FontFamily → Bool
known_font_family FontFamily.unlisted = false
known_font_family _ = true

abbrev pub is_boolean : Option Bool → Bool
is_boolean none = false
is_boolean (some _) = true

abbrev pub margins_bounded : EnvelopeTemplateInput → Bool
margins_bounded i =
    bounded i.margin_top_mm 0 480
    && bounded i.margin_right_mm 0 480
    && bounded i.margin_bottom_mm 0 480
    && bounded i.margin_left_mm 0 480

-- The long condition under which the template is refused.
unfoldable pub bad_settings : EnvelopeTemplateInput → Bool
bad_settings i =
    not (bounded i.width_mm 90 330)
    || not (bounded i.height_mm 55 480)
    || not (margins_bounded i)
    || too_narrow i.width_mm i.margin_left_mm i.margin_right_mm
    || too_narrow i.height_mm i.margin_top_mm i.margin_bottom_mm
    || (is_portrait i.orientation
        && (too_narrow i.height_mm i.margin_left_mm i.margin_right_mm
            || too_narrow i.width_mm i.margin_top_mm i.margin_bottom_mm))
    || not (bounded i.font_size_pt 8 72)
    || not (bounded i.line_spacing_percent 80 250)
    || not (known_orientation i.orientation)
    || not (known_alignment i.alignment)
    || not (known_font_family i.font_family)
    || not (is_boolean i.show_address)

-- `typeof input.name === "string" ? input.name.trim() : ""`
abbrev pub trimmed_name : Option Text → Text
trimmed_name none = List.[]
trimmed_name (some name) = trim name

unfoldable pub normalize_envelope_template_input :
    EnvelopeTemplateInput → Result EnvelopeTemplateInput
normalize_envelope_template_input input = do
  let name = trimmed_name input.name
  throw_if (is_empty name || ltb 80 (character_length name))
      (invalid "Template name must be 1–80 characters")
  throw_if (bad_settings input) (invalid "Invalid envelope dimensions or print settings")
  ok (record input { name = some name })

pub record EnvelopePrintDataInput : Type 0 where
  pub guest_ids : List Text
  pub template_id : Option Text
  pub template : Option EnvelopeTemplateInput

-- `Boolean(input.templateId)`: the empty text is false.
abbrev pub has_text : Option Text → Bool
has_text none = false
has_text (some t) = not (is_empty t)

abbrev pub has {ℓ} : {A : Type ℓ} → Option A → Bool
has none = false
has (some _) = true

abbrev pub same : Bool → Bool → Bool
same true b = b
same false b = not b

abbrev pub bad_template_id : Option Text → Bool
bad_template_id none = false
bad_template_id (some id) = not (is_loose_uuid id)

abbrev pub bad_selection : EnvelopePrintDataInput → Bool
bad_selection i =
    ltb (length i.guest_ids) 1
    || ltb 500 (length i.guest_ids)
    || not (is_distinct i.guest_ids)
    || any (λ id. not (is_loose_uuid id)) i.guest_ids
    || same (has_text i.template_id) (has i.template)
    || bad_template_id i.template_id

abbrev template_or_id :
    EnvelopePrintDataInput → Option EnvelopeTemplateInput → Result EnvelopePrintDataInput
template_or_id i none = ok (record i { template = none })
template_or_id i (some t) = do
  template ← normalize_envelope_template_input t
  ok (record { guest_ids = i.guest_ids; template_id = none; template = some template })

unfoldable pub normalize_envelope_print_data_input :
    EnvelopePrintDataInput → Result EnvelopePrintDataInput
normalize_envelope_print_data_input input = do
  throw_if (bad_selection input) (invalid "Invalid envelope print selection")
  template_or_id input input.template
