-- ===== src/Domain/RunSheet.antt =====
-- The run sheet of packages/domain/src/wedding-operations.ts: `instant` and `normalizeRunSheetItem`. What
-- `new Date(value).toISOString()` prints is a parameter, `none` where `Date.parse` gives no number.
pub mod Laws
use lovechapter.Prelude.{
  ℕ, zero, suc, ◌-◌, Bool, true, false, ◌&&◌, ◌||◌, not, Option, none, some, List, [], ◌∷◌, ◌++◌,
  if◌then◌else◌, ltb, leb, ◌==◌, is_empty, length,
}
use lovechapter.Prelude.Optional.{Field}
use lovechapter.Prelude.Result.{Result, ok, err, ◌>>=◌, ◌>>◌, throw_if, invalid}
use lovechapter.Text.{Text, is_digit, text_eq}
use lovechapter.Text.Uuid.{take_one}
use lovechapter.Domain.Validation.{required_text, optional_text}

abbrev digits : ℕ → (Text → Bool) → Text → Bool
digits zero k s = k s
digits (suc n) k s = take_one is_digit (digits n k) s

abbrev sign : ℕ → (Text → Bool) → Text → Bool
sign c k s = take_one (λ d. d == c) k s

abbrev utc : Text → Bool
utc s = sign b'Z' is_empty s

-- `(?:\.\d{1,3})?Z$`
abbrev fraction : Text → Bool
fraction s = utc s || sign b'.' (λ r. digits 1 utc r || digits 2 utc r || digits 3 utc r) s

abbrev time : Text → Bool
time = digits 2 (sign b':' (digits 2 (sign b':' (digits 2 fraction))))

-- `/^\d{4}-\d{2}-\d{2}T\d{2}:\d{2}:\d{2}(?:\.\d{1,3})?Z$/`
unfoldable pub is_instant : Text → Bool
is_instant = digits 4 (sign b'-' (digits 2 (sign b'-' (digits 2 (sign b'T' time)))))

abbrev zeros : ℕ → Text
zeros zero = []
zeros (suc n) = b'0' ∷ zeros n

-- The digits behind the dot, padded to three, and the end.
abbrev pad_fraction : ℕ → Text → Text
pad_fraction n [] = []
pad_fraction n (c ∷ s) =
    if c == b'Z' then zeros (3 - n) ++ (b'Z' ∷ []) else c ∷ pad_fraction (suc n) s

-- `value.replace(/(?:\.(\d{1,3}))?Z$/, …)`, for a text of that shape.
unfoldable pub exact_instant : Text → Text
exact_instant [] = []
exact_instant (c ∷ s) =
    let rest = exact_instant s in
    if c == b'.'
    then b'.' ∷ pad_fraction 0 s
    else (if c == b'Z' then b'.' ∷ b'0' ∷ b'0' ∷ b'0' ∷ b'Z' ∷ [] else c ∷ rest)

abbrev check_exact : Text → Option Text → Result Text
check_exact value none = err (invalid "Invalid UTC instant")
check_exact value (some normalized) = do
  throw_if (not (text_eq normalized (exact_instant value))) (invalid "Invalid UTC instant")
  ok normalized

unfoldable pub instant : (Text → Option Text) → Text → Result Text
unfolding exact_instant
instant to_iso value = do
  throw_if (not (is_instant value)) (invalid "Invalid UTC instant")
  check_exact value (to_iso value)

-- `a <= b` on texts
unfoldable pub text_le : Text → Text → Bool
text_le [] t = true
text_le (a ∷ s) [] = false
text_le (a ∷ s) (b ∷ t) = let rest = text_le s t in if a == b then rest else ltb a b

pub record RunSheetItemInput : Type 0 where
  pub title : Text
  pub starts_at : Text
  pub ends_at : Text
  pub location : Field Text
  pub responsible : Field Text
  pub note : Field Text

pub record RunSheetItem : Type 0 where
  pub title : Text
  pub starts_at : Text
  pub ends_at : Text
  pub location : Option Text
  pub responsible : Option Text
  pub note : Option Text

unfoldable pub normalize_run_sheet_item :
    (Text → Option Text) → RunSheetItemInput → Result RunSheetItem
normalize_run_sheet_item to_iso input = do
  starts_at ← instant to_iso input.starts_at
  ends_at ← instant to_iso input.ends_at
  throw_if (text_le ends_at starts_at) (invalid "End time must follow start time")
  title ← required_text "Schedule title" 180 input.title
  location ← optional_text 180 input.location
  responsible ← optional_text 120 input.responsible
  note ← optional_text 2000 input.note
  ok (record {
    title = title;
    starts_at = starts_at;
    ends_at = ends_at;
    location = location;
    responsible = responsible;
    note = note;
  })
