-- ===== src/Domain/Validation/Laws.antt =====
-- What the text checks accept, and that what they return passes them again unchanged.
use Prim.Native.String.{String}
use lovechapter.Prelude.{ℕ, ◌≤◌, ◌≡◌, refl, false, Option, none, some, arith, is_empty}
use lovechapter.Prelude.Optional.{Field, absent, null, given, sent}
use lovechapter.Prelude.Result.{DomainError, Ensures, ensures, ok}
use lovechapter.Text.{Text, trim, character_length}
use lovechapter.Text.Trim.{trim_idempotent}
use lovechapter.Domain.Calendar.{calendar_date}
use lovechapter.Domain.Calendar.Laws.{IsCalendarDate, is_calendar_date_iff}
use lovechapter.Domain.Validation.{required_text, optional_text}

-- A text of one to `max` characters with no white space at its ends.
pub record IsNeat (max : ℕ) (t : Text) : Type 0 where
  pub trimmed : trim t ≡ t
  pub nonempty : is_empty t ≡ false
  pub short : character_length t ≤ max

abbrev pub IsNeatOption : ℕ → Option Text → Type 0
IsNeatOption max none = Unit
IsNeatOption max (some t) = IsNeat max t

required_text-IsNeat :
    (label : String) (max : ℕ) (v t : Text) → required_text label max v ≡ ok t → IsNeat max t
unfolding required_text
required_text-IsNeat label max v t e = ground (arith, trim_idempotent v)

pub required_text_of_IsNeat :
    (label : String) (max : ℕ) (t : Text) → IsNeat max t → required_text label max t ≡ ok t
unfolding required_text
required_text_of_IsNeat label max t n = rw n.trimmed (ground arith)

optional_text-IsNeat :
    (max : ℕ) (v : Field Text) (r : Option Text) → optional_text max v ≡ ok r → IsNeatOption max r
unfolding optional_text
optional_text-IsNeat max absent none e = tt
optional_text-IsNeat max null none e = tt
optional_text-IsNeat max (given v) none e = tt
optional_text-IsNeat max absent (some t) e = cc
optional_text-IsNeat max null (some t) e = cc
optional_text-IsNeat max (given v) (some t) e = ground (arith, trim_idempotent v)

pub optional_text_of_IsNeat :
    (max : ℕ) (r : Option Text) → IsNeatOption max r → optional_text max (sent r) ≡ ok r
unfolding optional_text
optional_text_of_IsNeat max none n = refl
optional_text_of_IsNeat max (some t) n = rw n.trimmed (ground arith)

pub required_text-Ensures :
    (label : String) (max : ℕ) (v : Text) → Ensures (IsNeat max) (required_text label max v)
required_text-Ensures label max v = ensures (λ t e. required_text-IsNeat label max v t e)

pub optional_text-Ensures :
    (max : ℕ) (v : Field Text) → Ensures (IsNeatOption max) (optional_text max v)
optional_text-Ensures max v = ensures (λ r e. optional_text-IsNeat max v r e)

-- The due-date check, with the dates that it lets through.
abbrev pub IsDateOption : Option Text → Type 0
IsDateOption none = Unit
IsDateOption (some t) = IsCalendarDate t

calendar_date-IsDateOption :
    (e : DomainError) (v : Field Text) (r : Option Text) → calendar_date e v ≡ ok r → IsDateOption r
unfolding calendar_date
calendar_date-IsDateOption e v none h = tt
calendar_date-IsDateOption e absent (some t) h = cc
calendar_date-IsDateOption e null (some t) h = cc
calendar_date-IsDateOption e (given v) (some t) h = (is_calendar_date_iff t).0 (ground arith)

pub calendar_date-Ensures :
    (e : DomainError) (v : Field Text) → Ensures IsDateOption (calendar_date e v)
calendar_date-Ensures e v = ensures (λ r h. calendar_date-IsDateOption e v r h)

pub calendar_date_of_IsDateOption :
    (e : DomainError) (r : Option Text) → IsDateOption r → calendar_date e (sent r) ≡ ok r
unfolding calendar_date
calendar_date_of_IsDateOption e none h = refl
calendar_date_of_IsDateOption e (some t) h = rw ((is_calendar_date_iff t).1 h)
