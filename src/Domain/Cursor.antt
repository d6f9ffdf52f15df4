-- ===== src/Domain/Cursor.antt =====
-- The cursor of a list (packages/domain/src/cursor.ts). `btoa`, `atob` and the JSON built-ins are
-- parameters: `parse` gives the two texts of an object's `createdAt` and `id`, each where it is a text, and
-- `btoa` is read on the texts of cursors only, whose characters are ASCII: it throws outside Latin-1.
pub mod Laws
use lovechapter.Prelude.{
  ℕ, zero, suc, ◌+◌, ◌-◌, ◌*◌, ◌/◌, ◌%◌, Bool, true, false, ◌&&◌, ◌||◌, not, Option, none, some,
  List, [], ◌∷◌, ◌++◌, map, if◌then◌else◌, ◌==◌, is_empty, length,
}
use lovechapter.Prelude.Result.{Result, ok, err, invalid}
use lovechapter.Text.{Text, is_digit}
use lovechapter.Text.Uuid.{take_one, is_uuid}

pub record ListCursor : Type 0 where
  pub created_at : Text
  pub id : Text

pub record CursorPlatform : Type 0 where
  pub btoa : Text → Text
  pub atob : Text → Option Text
  pub stringify : ListCursor → Text
  pub parse : Text → Option (Option Text × Option Text)
  -- whether `Date.parse` gives a number
  pub is_date : Text → Bool

-- `.replaceAll("+", "-").replaceAll("/", "_")`
abbrev pub to_url : ℕ → ℕ
to_url c = if c == b'+' then b'-' else (if c == b'/' then b'_' else c)

-- `.replaceAll("-", "+").replaceAll("_", "/")`
abbrev pub from_url : ℕ → ℕ
from_url c = if c == b'-' then b'+' else (if c == b'_' then b'/' else c)

-- `.replace(/=+$/, "")`
unfoldable pub strip_padding : Text → Text
strip_padding [] = []
strip_padding (c ∷ s) =
    let rest = strip_padding s in if c == b'=' && is_empty rest then [] else c ∷ rest

unfoldable pub encode_cursor : CursorPlatform → ListCursor → Text
unfolding strip_padding
encode_cursor p cursor = strip_padding (map to_url (p.btoa (p.stringify cursor)))

abbrev pub repeated : ℕ → Text
repeated zero = []
repeated (suc n) = b'=' ∷ repeated n

-- `base64.padEnd(Math.ceil(base64.length / 4) * 4, "=")`
unfoldable pub pad_to_four : Text → Text
pad_to_four s = s ++ repeated ((length s + 3) / 4 * 4 - length s)

abbrev digits : ℕ → (Text → Bool) → Text → Bool
digits zero k s = k s
digits (suc n) k s = take_one is_digit (digits n k) s

abbrev sign : ℕ → (Text → Bool) → Text → Bool
sign c k s = take_one (λ d. d == c) k s

abbrev ends_utc : Text → Bool
ends_utc s = sign b'Z' is_empty s

abbrev time : Text → Bool
time = digits 2 (
    sign b':' (
      digits 2
        (sign b':' (digits 2 (sign b'.' (digits 3 (λ r. ends_utc r || digits 3 ends_utc r)))))))

-- `/^\d{4}-\d{2}-\d{2}T\d{2}:\d{2}:\d{2}\.\d{3}(?:\d{3})?Z$/`
unfoldable pub is_timestamp : Text → Bool
is_timestamp = digits 4 (sign b'-' (digits 2 (sign b'-' (digits 2 (sign b'T' time)))))

-- `isListCursor`
unfoldable pub list_cursor : CursorPlatform → Option (Option Text × Option Text) → Option ListCursor
list_cursor p (some (some created_at, some id)) =
    if is_timestamp created_at && p.is_date created_at && is_uuid id
    then some (record { created_at = created_at; id = id })
    else none
list_cursor p (some (none, id)) = none
list_cursor p (some (some created_at, none)) = none
list_cursor p none = none

abbrev pub parsed : CursorPlatform → Option Text → Option ListCursor
parsed p none = none
parsed p (some json) = list_cursor p (p.parse json)

abbrev pub or_invalid : Option ListCursor → Result ListCursor
or_invalid none = err (invalid "Invalid pagination cursor")
or_invalid (some cursor) = ok cursor

unfoldable pub decode_cursor : CursorPlatform → Text → Result ListCursor
unfolding list_cursor pad_to_four
decode_cursor p [] = err (invalid "Invalid pagination cursor")
decode_cursor p (c ∷ s) = or_invalid (parsed p (p.atob (pad_to_four (map from_url (c ∷ s)))))
