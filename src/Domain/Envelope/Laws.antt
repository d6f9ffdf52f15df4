-- ===== src/Domain/Envelope/Laws.antt =====
-- What an accepted envelope template guarantees to the printing code.
use lovechapter.Prelude.{
  ℕ, ◌+◌, ◌≤◌, ◌≡◌, refl, Bool, true, false, not, ◌&&◌, ◌||◌, Option, some, arith, is_empty, ltb,
}
use lovechapter.Prelude.Number.{Number, whole, integer, other, pos, negsuc}
use lovechapter.Prelude.Result.{ok, Ensures, ensured, Ensures-bind, Ensures-ok, throw_if-Ensures}
use lovechapter.Text.{Text, character_length}
use lovechapter.Domain.Envelope.{
  EnvelopeTemplateInput, Orientation, bounded, value_of, too_narrow, bad_settings, trimmed_name,
  normalize_envelope_template_input, is_portrait, known_orientation, known_alignment,
  known_font_family, is_boolean,
}

pub record Within (n : Number) (lo hi : ℕ) : Type 0 where
  pub value : ℕ
  pub is_whole : n ≡ whole value
  pub low : lo ≤ value
  pub high : value ≤ hi

bounded-Within : (n : Number) (lo hi : ℕ) → bounded n lo hi ≡ true → Within n lo hi
bounded-Within (integer (pos n)) lo hi h = record {
  value = n;
  is_whole = refl;
  low = ground arith;
  high = ground arith;
}
bounded-Within (integer (negsuc n)) lo hi h = cc
bounded-Within other lo hi h = cc

-- At least 20 mm are left between two margins.
abbrev pub HasRoom : Number → Number → Number → Type 0
HasRoom size margin margin' = value_of margin + value_of margin' + 20 ≤ value_of size

-- The settings are in range, and the area inside the margins is at least 20 mm wide and high. A
-- portrait envelope is turned, so there the margins also leave room on the turned sheet.
pub record IsPrintable (t : EnvelopeTemplateInput) : Type 0 where
  pub width : Within t.width_mm 90 330
  pub height : Within t.height_mm 55 480
  pub top : Within t.margin_top_mm 0 480
  pub right : Within t.margin_right_mm 0 480
  pub bottom : Within t.margin_bottom_mm 0 480
  pub left : Within t.margin_left_mm 0 480
  pub font_size : Within t.font_size_pt 8 72
  pub line_spacing : Within t.line_spacing_percent 80 250
  pub room_across : HasRoom t.width_mm t.margin_left_mm t.margin_right_mm
  pub room_down : HasRoom t.height_mm t.margin_top_mm t.margin_bottom_mm
  pub turned_across :
      t.orientation ≡ Orientation.portrait → HasRoom t.height_mm t.margin_left_mm t.margin_right_mm
  pub turned_down :
      t.orientation ≡ Orientation.portrait → HasRoom t.width_mm t.margin_top_mm t.margin_bottom_mm

or-eq-false : (a b : Bool) → (a || b) ≡ false → (a ≡ false) × (b ≡ false)
or-eq-false a b h = ground arith

not-eq-false : (b : Bool) → not b ≡ false → b ≡ true
not-eq-false b h = ground arith

has_room : (s a b : Number) → too_narrow s a b ≡ false → HasRoom s a b
has_room s a b h = ground arith

turned_room :
    (o : Orientation) (p q : Bool)
    → (is_portrait o && (p || q)) ≡ false
    → o ≡ Orientation.portrait
    → (p ≡ false) × (q ≡ false)
turned_room o p q h e = or-eq-false p q (rw e at h)

and4 :
    (a b c d : Bool) → (a && b && c && d) ≡ true → (a ≡ true) × (b ≡ true) × (c ≡ true) × (d ≡ true)
and4 a b c d h = ground arith

IsPrintable-of_settings : (t : EnvelopeTemplateInput) → bad_settings t ≡ false → IsPrintable t
unfolding bad_settings
IsPrintable-of_settings t h =
    let (h1, _) = or-eq-false _ (not (is_boolean t.show_address)) h in
    let (h2, _) = or-eq-false _ (not (known_font_family t.font_family)) h1 in
    let (h3, _) = or-eq-false _ (not (known_alignment t.alignment)) h2 in
    let (h4, _) = or-eq-false _ (not (known_orientation t.orientation)) h3 in
    let (h5, spacing) = or-eq-false _ (not (bounded t.line_spacing_percent 80 250)) h4 in
    let (h6, size) = or-eq-false _ (not (bounded t.font_size_pt 8 72)) h5 in
    let (h7, turned) = or-eq-false _ _ h6 in
    let (h8, down) = or-eq-false _ _ h7 in
    let (h9, across) = or-eq-false _ _ h8 in
    let (h10, m) = or-eq-false _ _ h9 in
    let (w, g) = or-eq-false _ _ h10 in
    let aside =
      turned_room t.orientation (too_narrow t.height_mm t.margin_left_mm t.margin_right_mm)
        (too_narrow t.width_mm t.margin_top_mm t.margin_bottom_mm) turned in
    let (top, right, bottom, left) = and4 _ _ _ _ (not-eq-false _ m) in
    record {
      width = bounded-Within t.width_mm 90 330 (not-eq-false _ w);
      height = bounded-Within t.height_mm 55 480 (not-eq-false _ g);
      top = bounded-Within t.margin_top_mm 0 480 top;
      right = bounded-Within t.margin_right_mm 0 480 right;
      bottom = bounded-Within t.margin_bottom_mm 0 480 bottom;
      left = bounded-Within t.margin_left_mm 0 480 left;
      font_size = bounded-Within t.font_size_pt 8 72 (not-eq-false _ size);
      line_spacing = bounded-Within t.line_spacing_percent 80 250 (not-eq-false _ spacing);
      room_across = has_room t.width_mm t.margin_left_mm t.margin_right_mm across;
      room_down = has_room t.height_mm t.margin_top_mm t.margin_bottom_mm down;
      turned_across = λ e. has_room t.height_mm t.margin_left_mm t.margin_right_mm (aside e).0;
      turned_down = λ e. has_room t.width_mm t.margin_top_mm t.margin_bottom_mm (aside e).1;
    }

IsPrintable-name :
    (t : EnvelopeTemplateInput) (n : Option Text)
    → IsPrintable t
    → IsPrintable (record t { name = n })
IsPrintable-name t n h = record {
  width = h.width;
  height = h.height;
  top = h.top;
  right = h.right;
  bottom = h.bottom;
  left = h.left;
  font_size = h.font_size;
  line_spacing = h.line_spacing;
  room_across = h.room_across;
  room_down = h.room_down;
  turned_across = h.turned_across;
  turned_down = h.turned_down;
}

-- An accepted template has its settings in range and an area of at least 20 mm by 20 mm inside the
-- margins, also on the turned sheet of a portrait envelope; it differs from the input at most in
-- its name, which is the trimmed one, with 1 to 80 characters.
pub record IsTemplate (input t : EnvelopeTemplateInput) : Type 0 where
  pub printable : IsPrintable t
  pub name_full : is_empty (trimmed_name input.name) ≡ false
  pub name_short : character_length (trimmed_name input.name) ≤ 80
  pub same_settings : t ≡ record input { name = some (trimmed_name input.name) }

normalize_envelope_template_input-Ensures :
    (input : EnvelopeTemplateInput)
    → Ensures (IsTemplate input) (normalize_envelope_template_input input)
unfolding normalize_envelope_template_input
normalize_envelope_template_input-Ensures input =
    Ensures-bind _ _
      (throw_if-Ensures
        (is_empty (trimmed_name input.name) || ltb 80 (character_length (trimmed_name input.name)))
        _)
      λ _ named. Ensures-bind _ _ (throw_if-Ensures (bad_settings input) _) λ _ good.
        let (full, short) = or-eq-false _ _ named in
        Ensures-ok (IsTemplate input) _ (record {
          printable = IsPrintable-name input _ (IsPrintable-of_settings input good);
          name_full = full;
          name_short = ground arith;
          same_settings = refl;
        })

-- Whatever template the service stores or prints has its settings in range and leaves at least
-- 20 mm by 20 mm inside the margins, also when a portrait envelope turns the sheet; its name is the
-- trimmed name of the input, with 1 to 80 characters, and nothing else of the input is changed.
pub normalize_envelope_template_input-IsTemplate :
    (input t : EnvelopeTemplateInput)
    → normalize_envelope_template_input input ≡ ok t
    → IsTemplate input t
normalize_envelope_template_input-IsTemplate input t h =
    ensured (normalize_envelope_template_input-Ensures input) h
