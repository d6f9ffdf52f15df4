-- ===== src/Auth/Email.antt =====
-- packages/auth/src/email.ts. The Unicode tables of JavaScript are parameters.
use lovechapter.Prelude.{
  ℕ, Bool, false, ◌&&◌, ◌||◌, not, Option, none, some, List, [], ◌∷◌, if◌then◌else◌, ltb, leb, ◌==◌,
  any, all, is_empty, length,
}
use lovechapter.Text.{Text, is_space, trim, character_length}

pub record Unicode : Type 0 where
  -- `normalize("NFC")` and `toLowerCase`
  pub nfc : Text → Text
  pub to_lower : Text → Text
  -- `/^[\p{L}\p{N}-]+$/u.test(label)`
  pub is_word : Text → Bool

abbrev add_to_first : ℕ → List Text → List Text
add_to_first c [] = (c ∷ []) ∷ []
add_to_first c (part ∷ parts) = (c ∷ part) ∷ parts

-- `split`, at a single code unit
unfoldable pub split : ℕ → Text → List Text
split at [] = [] ∷ []
split at (c ∷ s) = let parts = split at s in if c == at then [] ∷ parts else add_to_first c parts

abbrev starts_with : ℕ → Text → Bool
starts_with c [] = false
starts_with c (d ∷ s) = c == d

abbrev ends_with : ℕ → Text → Bool
ends_with c [] = false
ends_with c (d ∷ []) = c == d
ends_with c (d ∷ e ∷ s) = ends_with c (e ∷ s)

-- `includes("..")`
abbrev has_double_dot : Text → Bool
has_double_dot [] = false
has_double_dot (c ∷ s) = (c == 46 && starts_with 46 s) || has_double_dot s

abbrev valid_label : Unicode → Text → Bool
valid_label u l =
    not (is_empty l)
    && leb (length l) 63
    && u.is_word l
    && not (starts_with 45 l)
    && not (ends_with 45 l)

unfoldable pub valid_domain : Unicode → Text → Bool
unfolding split
valid_domain u domain =
    if ltb 253 (length domain) || not (any (λ c. c == 46) domain)
    then false
    else all (valid_label u) (split 46 domain)

abbrev pub valid_parts : Unicode → Text → List Text → Bool
valid_parts u email (local ∷ domain ∷ []) = not (
    is_empty local
    || is_empty domain
    || any is_space email
    || starts_with 46 local
    || ends_with 46 local
    || has_double_dot local
    || not (valid_domain u domain))
valid_parts u email _ = false

-- `normalizeEmail`: the address and its key; `none` when it throws.
unfoldable pub normalize_email : Unicode → Text → Option (Text × Text)
unfolding trim character_length split valid_domain is_space
normalize_email u value =
    let email = u.nfc (trim value) in
    if ltb 320 (character_length email)
    then none
    else if valid_parts u email (split 64 email)
    then some (email, u.to_lower email)
    else none
