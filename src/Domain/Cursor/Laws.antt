-- ===== src/Domain/Cursor/Laws.antt =====
-- A cursor is read back as it was written.
use lovechapter.Prelude.{
  ℕ, zero, suc, ◌+◌, ◌-◌, ◌*◌, ◌/◌, ◌%◌, ◌<◌, ◌≡◌, refl, true, false, ◌&&◌, ◌||◌, Option, none,
  some, List, [], ◌∷◌, ◌++◌, map, ◌==◌, is_empty, length, arith, All, Bool-cases, Option-cases,
  eq_of_some, and-eq-true, inl, inr,
}
use lovechapter.Prelude.Result.{Result, ok, err, invalid, Ensures, ensures}
use mathlib.Core.Path.{subst}
use lovechapter.Text.{Text, is_digit, is_upper, is_lower}
use lovechapter.Text.Uuid.{is_uuid}
use lovechapter.Domain.Cursor.{
  ListCursor, CursorPlatform, to_url, from_url, strip_padding, encode_cursor, repeated, pad_to_four,
  is_timestamp, list_cursor, parsed, or_invalid, decode_cursor,
}

-- `[A-Za-z0-9+/]`
abbrev pub IsBase64Char : ℕ → Type 0
IsBase64Char c = (is_digit c || is_upper c || is_lower c || c == b'+' || c == b'/') ≡ true

-- What `btoa` documents: the characters of base64, padded to a multiple of four.
pub record IsBase64 (s : Text) : Type 0 where
  pub body : Text
  pub padding : ℕ
  pub same : s ≡ body ++ repeated padding
  pub chars : All IsBase64Char body
  pub few : padding < 4
  pub whole : (length body + padding) % 4 ≡ 0

to_url_kept : (c : ℕ) → IsBase64Char c → from_url (to_url c) ≡ c
to_url_kept c h = ground arith

to_url_not_padding : (c : ℕ) → IsBase64Char c → (to_url c == b'=') ≡ false
to_url_not_padding c h = ground arith

map-append {ℓ κ} :
    {A : Type ℓ} {B : Type κ} (f : A → B) (xs ys : List A) → map f (xs ++ ys) ≡ map f xs ++ map f ys
map-append f [] ys = refl
map-append f (x ∷ xs) ys = rw (map-append f xs ys) refl

map-repeated : (n : ℕ) → map to_url (repeated n) ≡ repeated n
map-repeated zero = refl
map-repeated (suc n) = rw (map-repeated n) refl

strip_padding-repeated : (n : ℕ) → strip_padding (repeated n) ≡ []
unfolding strip_padding
strip_padding-repeated zero = refl
strip_padding-repeated (suc n) = rw (strip_padding-repeated n) refl

strip_padding-body :
    (body : Text) (n : ℕ)
    → All IsBase64Char body
    → strip_padding (map to_url body ++ repeated n) ≡ map to_url body
unfolding strip_padding
strip_padding-body [] n h = strip_padding-repeated n
strip_padding-body (c ∷ s) n h = rw (strip_padding-body s n h.1, to_url_not_padding c h.0) refl

map-from_url : (body : Text) → All IsBase64Char body → map from_url (map to_url body) ≡ body
map-from_url [] h = refl
map-from_url (c ∷ s) h = rw (to_url_kept c h.0, map-from_url s h.1) refl

missing : (n p : ℕ) → p < 4 → (n + p) % 4 ≡ 0 → (n + 3) / 4 * 4 - n ≡ p
missing n p few whole = omega arith

url_round_trip :
    (s : Text) → IsBase64 s → pad_to_four (map from_url (strip_padding (map to_url s))) ≡ s
unfolding pad_to_four
url_round_trip s h =
    rw
      (
        h.same,
        map-append to_url h.body (repeated h.padding),
        map-repeated h.padding,
        strip_padding-body h.body h.padding h.chars,
        map-from_url h.body h.chars,
        missing (length h.body) h.padding h.few h.whole,
      )
      refl

-- The shape that `isListCursor` asks for.
pub record IsListCursor (p : CursorPlatform) (cursor : ListCursor) : Type 0 where
  pub stamp : is_timestamp cursor.created_at ≡ true
  pub date : p.is_date cursor.created_at ≡ true
  pub uuid : is_uuid cursor.id ≡ true

stripped_nonempty :
    (body : Text) (n : ℕ)
    → n < 4
    → (length body + n) % 4 ≡ 0
    → is_empty (body ++ repeated n) ≡ false
    → is_empty (map to_url body) ≡ false
stripped_nonempty [] zero few whole h = h
stripped_nonempty [] (suc n) few whole h = absurd (omega arith)
stripped_nonempty (c ∷ s) n few whole h = refl

encoded_nonempty :
    (s : Text) → IsBase64 s → is_empty s ≡ false → is_empty (strip_padding (map to_url s)) ≡ false
encoded_nonempty s h e =
    rw
      (
        h.same,
        map-append to_url h.body (repeated h.padding),
        map-repeated h.padding,
        strip_padding-body h.body h.padding h.chars,
      )
      (stripped_nonempty h.body h.padding h.few h.whole (rw h.same at e))

decoded :
    (p : CursorPlatform) (s : Text) (json : Text) (cursor : ListCursor)
    → is_empty s ≡ false
    → p.atob (pad_to_four (map from_url s)) ≡ some json
    → list_cursor p (p.parse json) ≡ some cursor
    → decode_cursor p s ≡ ok cursor
unfolding decode_cursor
decoded p [] json cursor e a l = absurd (cc)
decoded p (c ∷ s) json cursor e a l = rw (a, l) refl

list_cursor_of_IsListCursor :
    (p : CursorPlatform) (cursor : ListCursor)
    → IsListCursor p cursor
    → list_cursor p (some (some cursor.created_at, some cursor.id)) ≡ some cursor
unfolding list_cursor
list_cursor_of_IsListCursor p cursor h = rw (h.stamp, h.date, h.uuid) refl

-- The cursor that a page gives reads back as itself: `decodeCursor` restores the characters and the
-- padding that `encodeCursor` replaces, if on the text of this cursor `atob` undoes `btoa`, which gives base64,
-- `JSON.parse` undoes `JSON.stringify`, and the cursor has the shape that `isListCursor` asks for.
pub decode_cursor-encode_cursor :
    (p : CursorPlatform) (cursor : ListCursor)
    → p.atob (p.btoa (p.stringify cursor)) ≡ some (p.stringify cursor)
    → p.parse (p.stringify cursor) ≡ some (some cursor.created_at, some cursor.id)
    → IsBase64 (p.btoa (p.stringify cursor))
    → is_empty (p.btoa (p.stringify cursor)) ≡ false
    → IsListCursor p cursor
    → decode_cursor p (encode_cursor p cursor) ≡ ok cursor
unfolding encode_cursor
decode_cursor-encode_cursor p cursor undo read b e h =
    decoded p (strip_padding (map to_url (p.btoa (p.stringify cursor)))) (p.stringify cursor) cursor
      (encoded_nonempty (p.btoa (p.stringify cursor)) b e)
      (rw (url_round_trip (p.btoa (p.stringify cursor)) b) undo)
      (rw read (list_cursor_of_IsListCursor p cursor h))

list_cursor-IsListCursor :
    (p : CursorPlatform) (o : Option (Option Text × Option Text)) (cursor : ListCursor)
    → list_cursor p o ≡ some cursor
    → IsListCursor p cursor
unfolding list_cursor
list_cursor-IsListCursor p (some (some t, some id)) cursor e =
    elim (Bool-cases (is_timestamp t && p.is_date t && is_uuid id)) [
      | inl good ↦
          let same = eq_of_some _ _ (rw good at e) in
          let last = and-eq-true (is_timestamp t && p.is_date t) (is_uuid id) good in
          let first = and-eq-true (is_timestamp t) (p.is_date t) last.0 in
          subst (IsListCursor p) same (record { stamp = first.0; date = first.1; uuid = last.1 })
      | inr bad ↦ absurd (none_some cursor (rw bad at e))
    ]
  where
    none_some : (c : ListCursor) → ◌≡◌ {A = Option ListCursor} none (some c) → ⊥
    none_some c h = cc
list_cursor-IsListCursor p (some (some t, none)) cursor e = absurd (cc)
list_cursor-IsListCursor p (some (none, id)) cursor e = absurd (cc)
list_cursor-IsListCursor p none cursor e = absurd (cc)

parsed-IsListCursor :
    (p : CursorPlatform) (o : Option Text) (cursor : ListCursor)
    → or_invalid (parsed p o) ≡ ok cursor
    → IsListCursor p cursor
parsed-IsListCursor p none cursor e = absurd (cc)
parsed-IsListCursor p (some json) cursor e = elim (Option-cases (list_cursor p (p.parse json))) [
  | inl gone ↦ absurd (err_ok cursor (rw gone at e))
  | inr (c, here) ↦
      rw⁻¹ (ok_same c cursor (rw here at e)) (list_cursor-IsListCursor p (p.parse json) c here)
]
  where
    err_ok :
        (c : ListCursor)
        → ◌≡◌ {A = Result ListCursor} (err (invalid "Invalid pagination cursor")) (ok c)
        → ⊥
    err_ok c h = cc

    ok_same : (c d : ListCursor) → ◌≡◌ {A = Result ListCursor} (ok c) (ok d) → c ≡ d
    ok_same c d h = cc

pub decode_cursor-Ensures :
    (p : CursorPlatform) (s : Text) → Ensures (IsListCursor p) (decode_cursor p s)
unfolding decode_cursor
decode_cursor-Ensures p [] = ensures (λ c e. absurd (cc))
decode_cursor-Ensures p (c ∷ s) =
    ensures
      (λ cursor e. parsed-IsListCursor p (p.atob (pad_to_four (map from_url (c ∷ s)))) cursor e)
