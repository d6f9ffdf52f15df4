-- ===== src/Text/Count.antt =====
-- Counting characters and code units.
use lovechapter.Prelude.{◌*◌, ◌≤◌, [], ◌∷◌, arith, length}
use lovechapter.Text.{Text, character_length}

-- A text has at most two code units for each character.
pub character_length_bounds :
    (s : Text) → (character_length s ≤ length s) × (length s ≤ 2 * character_length s)
unfolding character_length
character_length_bounds [] = omega arith
character_length_bounds (c ∷ []) = omega arith
character_length_bounds (c ∷ d ∷ s) =
    ground (arith, character_length_bounds s, character_length_bounds (d ∷ s))
