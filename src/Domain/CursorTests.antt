-- ===== src/Domain/CursorTests.antt =====
-- A cursor that is written and read back with base64 and JSON of the texts of cursors.
use lovechapter.Prelude.{
  ℕ, zero, suc, ◌+◌, ◌-◌, ◌*◌, ◌/◌, ◌%◌, ◌≡◌, refl, true, ◌||◌, some, [], ◌∷◌, ◌++◌, All, all,
  if◌then◌else◌, ltb, ◌==◌, arith,
}
use lovechapter.Prelude.Result.{ok}
use lovechapter.Text.{Text, codes, is_digit, is_upper, is_lower}
use lovechapter.Text.Uuid.{is_uuid}
use lovechapter.Domain.Cursor.{
  ListCursor, CursorPlatform, encode_cursor, decode_cursor, is_timestamp,
}
use lovechapter.Domain.Cursor.Laws.{
  IsBase64Char, IsBase64, IsListCursor, decode_cursor-encode_cursor,
}

abbrev char_of : ℕ → ℕ
char_of n =
    if ltb n 26
    then 65 + n
    else if ltb n 52
    then 71 + n
    else if ltb n 62
    then n - 4
    else if n == 62
    then 43
    else 47

abbrev value_of : ℕ → ℕ
value_of c =
    if ltb 96 c
    then c - 71
    else if ltb 64 c
    then c - 65
    else if ltb 47 c
    then c + 4
    else if c == 43
    then 62
    else 63

-- Base64 of whole groups of three characters; the text of a cursor is made of such groups.
abbrev to_base64 : Text → Text
to_base64 (a ∷ b ∷ c ∷ s) =
    char_of (a / 4)
    ∷ char_of (a % 4 * 16 + b / 16)
    ∷ char_of (b % 16 * 4 + c / 64)
    ∷ char_of (c % 64)
    ∷ to_base64 s
to_base64 _ = []

abbrev of_groups : Text → Text
of_groups (a ∷ b ∷ c ∷ d ∷ s) =
    (a * 4 + b / 16) ∷ (b % 16 * 16 + c / 4) ∷ (c % 4 * 64 + d) ∷ of_groups s
of_groups _ = []

abbrev values : Text → Text
values [] = []
values (c ∷ s) = value_of c ∷ values s

abbrev take_text : ℕ → Text → Text
take_text zero s = []
take_text (suc n) [] = []
take_text (suc n) (c ∷ s) = c ∷ take_text n s

abbrev drop_text : ℕ → Text → Text
drop_text zero s = s
drop_text (suc n) [] = []
drop_text (suc n) (c ∷ s) = drop_text n s

-- `{"createdAt":"…","id":"…"}` with a timestamp of 24 characters
abbrev pub cursors : CursorPlatform
cursors = record {
  btoa = to_base64;
  atob = λ s. some (of_groups (values s));
  stringify = λ c.
      codes "{\"createdAt\":\""
      ++ (c.created_at ++ (codes "\",\"id\":\"" ++ (c.id ++ codes "\"}")));
  parse = λ s. some (some (take_text 24 (drop_text 14 s)), some (take_text 36 (drop_text 46 s)));
  is_date = is_timestamp;
}

abbrev last_row : ListCursor
last_row = record {
  created_at = codes "2026-05-01T10:00:00.000Z";
  id = codes "3f2504e0-4f89-41d3-9a0c-0305e82c3301";
}

abbrev json : Text
json = cursors.stringify last_row

all-IsBase64Char :
    (s : Text)
    → all (λ c. is_digit c || is_upper c || is_lower c || c == b'+' || c == b'/') s ≡ true
    → All IsBase64Char s
all-IsBase64Char [] h = tt
all-IsBase64Char (c ∷ s) h = (ground arith, all-IsBase64Char s (ground arith))

append_nil : (s : Text) → s ≡ s ++ []
append_nil [] = refl
append_nil (c ∷ s) = rw (← append_nil s) refl

last_row-IsBase64 : IsBase64 (to_base64 json)
last_row-IsBase64 = record {
  body = to_base64 json;
  padding = 0;
  same = append_nil (to_base64 json);
  chars = all-IsBase64Char (to_base64 json) refl;
  few = omega arith;
  whole = refl;
}

last_row-IsListCursor : IsListCursor cursors last_row
unfolding is_timestamp is_uuid
last_row-IsListCursor = record { stamp = refl; date = refl; uuid = refl }

decode_cursor-encode_cursor_example :
    decode_cursor cursors (encode_cursor cursors last_row) ≡ ok last_row
decode_cursor-encode_cursor_example =
    decode_cursor-encode_cursor cursors last_row refl refl last_row-IsBase64 refl
      last_row-IsListCursor
