-- ===== src/Domain/Requests/Laws.antt =====
-- Pages, lists of guests and their identifiers, once they are normalised.
use lovechapter.Prelude.{
  ℕ, ◌≤◌, ◌≡◌, refl, Bool, true, false, ◌||◌, not, Option, none, some, List, arith, ltb, length,
  any,
}
use lovechapter.Prelude.Number.{Number, whole, integer, other, pos, negsuc}
use lovechapter.Prelude.Result.{Ensures, Ensures-bind, Ensures-ok, Ensures-then}
use lovechapter.Text.{Text}
use lovechapter.Text.Uuid.{is_uuid, is_distinct}
use lovechapter.Domain.Cursor.{ListCursor, CursorPlatform}
use lovechapter.Domain.Cursor.Laws.{IsListCursor, decode_cursor-Ensures}
use lovechapter.Domain.Guests.{truthy}
use lovechapter.Domain.Guests.Laws.{normalize_optional_text-Ensures}
use lovechapter.Domain.Validation.Laws.{IsNeatOption}
use lovechapter.Domain.Requests.{
  PageInput, RepositoryPageInput, read_cursor, outside, normalize_page, GuestListInput,
  GuestListRepositoryInput, normalize_guest_list, normalize_guest_ids,
}

-- A whole number from 1 to `max`.
pub record IsLimit (max : ℕ) (n : Number) : Type 0 where
  pub limit : ℕ
  pub same : n ≡ whole limit
  pub first : 1 ≤ limit
  pub last : limit ≤ max

pub IsLimit-of_inside : (max : ℕ) (n : Number) → outside max n ≡ false → IsLimit max n
IsLimit-of_inside max (integer (pos n)) h = record {
  limit = n;
  same = refl;
  first = ground arith;
  last = ground arith;
}
IsLimit-of_inside max (integer (negsuc n)) h = absurd (cc)
IsLimit-of_inside max other h = absurd (cc)

abbrev pub IsCursorOption : CursorPlatform → Option ListCursor → Type 0
IsCursorOption p none = Unit
IsCursorOption p (some c) = IsListCursor p c

pub record IsPage (p : CursorPlatform) (max : ℕ) (page : RepositoryPageInput) : Type 0 where
  pub limit : IsLimit max page.limit
  pub cursor : IsCursorOption p page.cursor

read_cursor-Ensures :
    (p : CursorPlatform) (o : Option Text) → Ensures (IsCursorOption p) (read_cursor p o)
read_cursor-Ensures p none = Ensures-ok (IsCursorOption p) none tt
read_cursor-Ensures p (some v) =
    Ensures-bind _ _ (decode_cursor-Ensures p v) λ c h. Ensures-ok (IsCursorOption p) (some c) h

-- A page of a list that allows fewer items than the normaliser.
pub normalize_page-Ensures :
    (p : CursorPlatform) (max : ℕ) (page : PageInput)
    → (outside 100 page.limit ≡ false → outside max page.limit ≡ false)
    → Ensures (IsPage p max) (normalize_page p page)
unfolding normalize_page
normalize_page-Ensures p max page within = Ensures-then (outside 100 page.limit) _ _ λ inside.
    Ensures-bind _ _ (read_cursor-Ensures p (truthy page.cursor)) λ c h.
      Ensures-ok (IsPage p max) _
        (record { limit = IsLimit-of_inside max page.limit (within inside); cursor = h })

pub record IsGuestList (p : CursorPlatform) (l : GuestListRepositoryInput) : Type 0 where
  pub page : IsPage p 100 l.page
  pub search : IsNeatOption 120 l.search

pub normalize_guest_list-Ensures :
    (p : CursorPlatform) (input : GuestListInput)
    → Ensures (IsGuestList p) (normalize_guest_list p input)
unfolding normalize_guest_list
normalize_guest_list-Ensures p input =
    Ensures-bind _ _ (normalize_page-Ensures p 100 input.page (λ h. h)) λ page h1.
      Ensures-bind _ _ (normalize_optional_text-Ensures input.search 120 "Guest search")
        λ search h2. Ensures-ok (IsGuestList p) _ (record { page = h1; search = h2 })

-- From 1 to 200 identifiers, all of them different.
pub record AreGuestIds (ids : List Text) : Type 0 where
  pub first : 1 ≤ length ids
  pub last : length ids ≤ 200
  pub distinct : is_distinct ids ≡ true
  pub uuids : any (λ id. not (is_uuid id)) ids ≡ false

passed :
    (n : ℕ) (d b : Bool)
    → (ltb n 1 || ltb 200 n || not d || b) ≡ false
    → (1 ≤ n) × (n ≤ 200) × (d ≡ true) × (b ≡ false)
passed n d b h = (ground arith, ground arith, ground arith, ground arith)

pub normalize_guest_ids-Ensures : (ids : List Text) → Ensures AreGuestIds (normalize_guest_ids ids)
unfolding normalize_guest_ids
normalize_guest_ids-Ensures ids =
    Ensures-then
      (ltb (length ids) 1
        || ltb 200 (length ids)
        || not (is_distinct ids)
        || any (λ id. not (is_uuid id)) ids)
      _ _
      λ h.
        let k = passed (length ids) (is_distinct ids) _ h in
        Ensures-ok AreGuestIds ids (record { first = k.0; last = k.1; distinct = k.2; uuids = k.3 })
