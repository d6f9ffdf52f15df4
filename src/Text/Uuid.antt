-- ===== src/Text/Uuid.antt =====
-- The shapes of identifiers that the code tests by regular expressions.
use lovechapter.Prelude.{
  ℕ, zero, suc, Bool, true, false, ◌&&◌, ◌||◌, not, List, [], ◌∷◌, leb, ◌==◌, is_empty,
}
use lovechapter.Text.{Text, is_hex, text_eq}

abbrev pub take_hex : ℕ → (Text → Bool) → Text → Bool
take_hex zero k s = k s
take_hex (suc n) k [] = false
take_hex (suc n) k (c ∷ s) = is_hex c && take_hex n k s

abbrev pub take_one : (ℕ → Bool) → (Text → Bool) → Text → Bool
take_one p k [] = false
take_one p k (c ∷ s) = p c && k s

abbrev dash : (Text → Bool) → Text → Bool
dash = take_one (λ c. c == b'-')

-- `[1-8]`, and `[89ab]` under the flag `i`
abbrev is_version : ℕ → Bool
is_version c = leb b'1' c && leb c b'8'

abbrev is_variant : ℕ → Bool
is_variant c = c == b'8' || c == b'9' || c == b'a' || c == b'b' || c == b'A' || c == b'B'

-- `isUuid` of packages/domain/src/service.ts
unfoldable pub is_uuid : Text → Bool
is_uuid = take_hex 8 (
    dash (
      take_hex 4 (
        dash (
          take_one is_version
            (take_hex 3 (dash (take_one is_variant (take_hex 3 (dash (take_hex 12 is_empty))))))))))

-- The looser test of packages/domain/src/envelope-printing.ts, of any version and variant.
unfoldable pub is_loose_uuid : Text → Bool
is_loose_uuid =
    take_hex 8
      (dash (take_hex 4 (dash (take_hex 4 (dash (take_hex 4 (dash (take_hex 12 is_empty))))))))

abbrev pub contains : List Text → Text → Bool
contains [] t = false
contains (s ∷ l) t = text_eq s t || contains l t

-- `new Set(list).size === list.length`
abbrev pub is_distinct : List Text → Bool
is_distinct [] = true
is_distinct (s ∷ l) = not (contains l s) && is_distinct l
