-- ===== src/Domain/Validation.antt =====
-- The text checks that packages/domain/src/planning.ts and wedding-operations.ts share:
-- `requiredText` (`required`) and `optionalText` (`optional`).
pub mod Laws
use Prim.Native.String.{String}
use lovechapter.Prelude.{ℕ, ◌||◌, Option, none, some, List, if◌then◌else◌, ltb, is_empty}
use lovechapter.Prelude.Optional.{Field, absent, null, given}
use lovechapter.Prelude.Result.{Result, ok, err, validation, length_range, length_at_most}
use lovechapter.Text.{Text, trim, character_length}

unfoldable pub required_text : String → ℕ → Text → Result Text
required_text label max value =
    let trimmed = trim value in
    if is_empty trimmed || ltb max (character_length trimmed)
    then err (validation (length_range label max))
    else ok trimmed

-- `trimmed || null`
abbrev pub or_null : Text → Option Text
or_null value = if is_empty value then none else some value

unfoldable pub optional_text : ℕ → Field Text → Result (Option Text)
optional_text max absent = ok none
optional_text max null = ok none
optional_text max (given value) =
    let trimmed = trim value in
    if ltb max (character_length trimmed)
    then err (validation (length_at_most "Text" max))
    else ok (or_null trimmed)
