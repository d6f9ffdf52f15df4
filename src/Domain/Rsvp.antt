-- ===== src/Domain/Rsvp.antt =====
-- packages/domain/src/rsvp.ts
pub mod Laws
use mathlib.Core.Option
use lovechapter.Prelude.{
  not, ◌||◌, ◌&&◌, Bool, false, Option, none, some, if◌then◌else◌, ltb, length, is_empty,
}
use lovechapter.Prelude.Number.{Number, is_integer, below, above, differs, exceeds}
use lovechapter.Prelude.Result.{Result, ok, ◌>>=◌, ◌>>◌, throw_if, invalid}
use lovechapter.Text.{Text, trim}

pub data Attendance : Type 0 where
  attending declined : Attendance

pub record RsvpSubmission : Type 0 where
  pub attendance : Attendance
  pub party_size : Number
  pub note : Option Text

-- The checks of the party size against the answer and the allowance.
abbrev pub check_party_size : Attendance → Number → Number → Result (Unit {0})
check_party_size attending party_size allowed = do
  throw_if (below party_size 1) (invalid "at least 1")
  throw_if (exceeds party_size allowed) (invalid "allowance")
check_party_size declined party_size allowed = throw_if (differs party_size 0) (invalid "must be 0")

-- `note && note.length > 500`, in code units
abbrev pub note_too_long : Option Text → Bool
note_too_long none = false
note_too_long (some note) = not (is_empty note) && ltb 500 (length note)

-- `note ? { …, note } : { … }`
abbrev pub drop_empty : Option Text → Option Text
drop_empty none = none
drop_empty (some note) = if is_empty note then none else some note

unfoldable pub validate_rsvp : RsvpSubmission → Number → Result RsvpSubmission
validate_rsvp input allowed = do
  throw_if (not (is_integer allowed) || below allowed 1)
      (invalid "Guest allowance must be at least 1")
  throw_if (not (is_integer input.party_size)) (invalid "Party size must be a whole number")
  check_party_size input.attendance input.party_size allowed
  let note = Option.map trim input.note
  throw_if (note_too_long note) (invalid "500 characters")
  ok (record {
    attendance = input.attendance;
    party_size = input.party_size;
    note = drop_empty note;
  })
