-- ===== src/Text/Trim.antt =====
-- What trimming leaves: no white space at either end, and nothing to trim again.
use lovechapter.Prelude.{ℕ, ◌≡◌, refl, false, [], ◌∷◌, inl, inr, arith, is_empty, Bool-cases, ◌&&◌}
use lovechapter.Text.{Text, is_space, trim_start, trim_end, trim}

-- The first unit is no white space.
abbrev pub StartsInk : Text → Type 0
StartsInk [] = Unit
StartsInk (c ∷ s) = is_space c ≡ false

-- The last unit is no white space.
abbrev pub EndsInk : Text → Type 0
EndsInk [] = Unit
EndsInk (c ∷ []) = is_space c ≡ false
EndsInk (c ∷ d ∷ s) = EndsInk (d ∷ s)

trim_start-StartsInk : (s : Text) → StartsInk (trim_start s)
unfolding trim_start
trim_start-StartsInk [] = tt
trim_start-StartsInk (c ∷ s) = elim (Bool-cases (is_space c)) [
  | inl blank ↦ rw blank (trim_start-StartsInk s)
  | inr ink ↦ rw ink ink
]

EndsInk-cons : (c : ℕ) (t : Text) → EndsInk t → (is_space c && is_empty t) ≡ false → EndsInk (c ∷ t)
EndsInk-cons c [] h e = ground arith
EndsInk-cons c (d ∷ t) h e = h

trim_end-EndsInk : (s : Text) → EndsInk (trim_end s)
unfolding trim_end
trim_end-EndsInk [] = tt
trim_end-EndsInk (c ∷ s) = elim (Bool-cases (is_space c && is_empty (trim_end s))) [
  | inl blank ↦ rw blank tt
  | inr ink ↦ rw ink (EndsInk-cons c (trim_end s) (trim_end-EndsInk s) ink)
]

trim_start_of_StartsInk : (s : Text) → StartsInk s → trim_start s ≡ s
unfolding trim_start
trim_start_of_StartsInk [] h = refl
trim_start_of_StartsInk (c ∷ s) h = rw h

trim_end_of_EndsInk : (s : Text) → EndsInk s → trim_end s ≡ s
unfolding trim_end
trim_end_of_EndsInk [] h = refl
trim_end_of_EndsInk (c ∷ []) h = rw h
trim_end_of_EndsInk (c ∷ d ∷ s) h = ground (arith, trim_end_of_EndsInk (d ∷ s) h)

trim_end-StartsInk : (s : Text) → StartsInk s → StartsInk (trim_end s)
unfolding trim_end
trim_end-StartsInk [] h = tt
trim_end-StartsInk (c ∷ s) h = rw h h

pub trim-StartsInk : (s : Text) → StartsInk (trim s)
unfolding trim
trim-StartsInk s = trim_end-StartsInk (trim_start s) (trim_start-StartsInk s)

pub trim-EndsInk : (s : Text) → EndsInk (trim s)
unfolding trim
trim-EndsInk s = trim_end-EndsInk (trim_start s)

pub trim_of_Ink : (s : Text) → StartsInk s → EndsInk s → trim s ≡ s
unfolding trim
trim_of_Ink s h k = rw (trim_start_of_StartsInk s h) (trim_end_of_EndsInk s k)

pub trim_idempotent : (s : Text) → trim (trim s) ≡ trim s
trim_idempotent s = trim_of_Ink (trim s) (trim-StartsInk s) (trim-EndsInk s)
