-- ===== src/Domain/RunSheet/Laws.antt =====
-- What a normalised entry of the run sheet satisfies.
use lovechapter.Prelude.{
  ℕ, ◌≡◌, refl, true, false, not, Option, none, some, [], ◌∷◌, arith, ◌==◌, inl, inr, Bool-cases,
  ◌<◌,
}
use lovechapter.Prelude.Result.{
  ok, Ensures, ensures, ensured, Ensures-bind, Ensures-ok, Ensures-then,
}
use lovechapter.Text.{Text, text_eq}
use lovechapter.Text.Equal.{eq_of_text_eq}
use lovechapter.Domain.Validation.Laws.{
  IsNeat, IsNeatOption, required_text-Ensures, optional_text-Ensures,
}
use lovechapter.Domain.RunSheet.{
  is_instant, exact_instant, check_exact, instant, text_le, RunSheetItemInput, RunSheetItem,
  normalize_run_sheet_item,
}

-- The instant that is written, with its fraction padded to milliseconds.
pub record IsInstant (to_iso : Text → Option Text) (value t : Text) : Type 0 where
  pub shape : is_instant value ≡ true
  pub exact : t ≡ exact_instant value
  pub printed : to_iso value ≡ some t

check_exact-IsInstant :
    (to_iso : Text → Option Text) (value : Text) (o : Option Text)
    → is_instant value ≡ true
    → to_iso value ≡ o
    → Ensures (IsInstant to_iso value) (check_exact value o)
check_exact-IsInstant to_iso value none shape e = ensures (λ a h. absurd (cc))
check_exact-IsInstant to_iso value (some t) shape e =
    Ensures-then (not (text_eq t (exact_instant value))) _ _ λ same.
      Ensures-ok (IsInstant to_iso value) t
        (record { shape = shape; exact = eq_of_text_eq t _ (ground arith); printed = e })

instant-Ensures :
    (to_iso : Text → Option Text) (value : Text)
    → Ensures (IsInstant to_iso value) (instant to_iso value)
unfolding instant
instant-Ensures to_iso value =
    Ensures-then (not (is_instant value)) _ _
      λ shape. check_exact-IsInstant to_iso value (to_iso value) (ground arith) refl

-- The order of texts.
pub data Precedes : Text → Text → Type 0 where
  shorter : {c : ℕ} {t : Text} → Precedes [] (c ∷ t)
  less : {a b : ℕ} {s t : Text} → a < b → Precedes (a ∷ s) (b ∷ t)
  same : {a b : ℕ} {s t : Text} → a ≡ b → Precedes s t → Precedes (a ∷ s) (b ∷ t)

pub Precedes-of_not_le : (s t : Text) → text_le t s ≡ false → Precedes s t
unfolding text_le
Precedes-of_not_le [] [] h = absurd (cc)
Precedes-of_not_le (a ∷ s) [] h = absurd (cc)
Precedes-of_not_le [] (b ∷ t) h = shorter
Precedes-of_not_le (a ∷ s) (b ∷ t) h = elim (Bool-cases (b == a)) [
  | inl e ↦ same (ground arith) (Precedes-of_not_le s t (rw e at h))
  | inr n ↦ less (ground arith)
]

-- Start and end are the instants of the input, and the end is behind the start.
pub record IsRunSheetItem (to_iso : Text → Option Text) (input : RunSheetItemInput)
    (i : RunSheetItem) : Type 0 where
  pub starts_at : IsInstant to_iso input.starts_at i.starts_at
  pub ends_at : IsInstant to_iso input.ends_at i.ends_at
  pub in_order : Precedes i.starts_at i.ends_at
  pub title : IsNeat 180 i.title
  pub location : IsNeatOption 180 i.location
  pub responsible : IsNeatOption 120 i.responsible
  pub note : IsNeatOption 2000 i.note

normalize_run_sheet_item-Ensures :
    (to_iso : Text → Option Text) (input : RunSheetItemInput)
    → Ensures (IsRunSheetItem to_iso input) (normalize_run_sheet_item to_iso input)
unfolding normalize_run_sheet_item
normalize_run_sheet_item-Ensures to_iso input =
    Ensures-bind _ _ (instant-Ensures to_iso input.starts_at) λ starts h1.
      Ensures-bind _ _ (instant-Ensures to_iso input.ends_at) λ ends h2.
        Ensures-then (text_le ends starts) _ _ λ order.
          Ensures-bind _ _ (required_text-Ensures "Schedule title" 180 input.title) λ title h3.
            Ensures-bind _ _ (optional_text-Ensures 180 input.location) λ location h4.
              Ensures-bind _ _ (optional_text-Ensures 120 input.responsible) λ responsible h5.
                Ensures-bind _ _ (optional_text-Ensures 2000 input.note) λ note h6.
                  Ensures-ok (IsRunSheetItem to_iso input) _ (record {
                    starts_at = h1;
                    ends_at = h2;
                    in_order = Precedes-of_not_le starts ends order;
                    title = h3;
                    location = h4;
                    responsible = h5;
                    note = h6;
                  })

-- An entry of the run sheet starts and ends at the instants of the input, written in UTC to the
-- millisecond as they were given, the text of the end follows that of the start, and its texts are trimmed
-- and within their limits.
pub normalize_run_sheet_item-IsRunSheetItem :
    (to_iso : Text → Option Text) (input : RunSheetItemInput) (i : RunSheetItem)
    → normalize_run_sheet_item to_iso input ≡ ok i
    → IsRunSheetItem to_iso input i
normalize_run_sheet_item-IsRunSheetItem to_iso input i h =
    ensured (normalize_run_sheet_item-Ensures to_iso input) h
