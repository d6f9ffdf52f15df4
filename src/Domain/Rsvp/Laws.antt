-- ===== src/Domain/Rsvp/Laws.antt =====
-- Which answers to an invitation are accepted, and as what.
use mathlib.Core.Option
use mathlib.Core.Path.{subst}
use lovechapter.Prelude.{
  ℕ, ◌≤◌, ◌≡◌, ltb, refl, Option, none, some, true, false, arith, is_empty, length, not, inl, inr,
  Bool-cases, sym,
}
use lovechapter.Prelude.Number.{Number, whole, integer, other, pos, negsuc, is_integer}
use lovechapter.Prelude.Result.{
  ok, Ensures, ensured, Ensures-bind, Ensures-ok, Ensures-self, throw_if-Ensures,
}
use lovechapter.Text.{Text, trim}
use lovechapter.Text.Trim.{trim_idempotent}
use lovechapter.Domain.Rsvp.{
  Attendance, attending, declined, RsvpSubmission, check_party_size, note_too_long, drop_empty,
  validate_rsvp,
}

-- One guest to the whole allowance if attending, nobody if declined.
abbrev pub Fits : Attendance → ℕ → ℕ → Type 0
Fits attending n allowed = (1 ≤ n) × (n ≤ allowed)
Fits declined n allowed = n ≡ 0

-- No note, or a trimmed one of 1 to 500 code units.
abbrev pub IsNote : Option Text → Type 0
IsNote none = Unit
IsNote (some t) = (trim t ≡ t) × (is_empty t ≡ false) × (length t ≤ 500)

pub record IsRsvp (allowed : ℕ) (input r : RsvpSubmission) : Type 0 where
  pub party : ℕ
  pub party_size : (input.party_size ≡ whole party) × (r.party_size ≡ whole party)
  pub attendance : r.attendance ≡ input.attendance
  pub fits : Fits r.attendance party allowed
  pub note : IsNote r.note

whole_of_check :
    (a : Attendance) (n : Number) (allowed : ℕ)
    → is_integer n ≡ true
    → check_party_size a n (whole allowed) ≡ ok tt
    → (k : ℕ) × (n ≡ whole k) × Fits a k allowed
whole_of_check attending (integer (pos n)) allowed i h = (n, refl, ground arith)
whole_of_check attending (integer (negsuc n)) allowed i h = cc
whole_of_check declined (integer (pos n)) allowed i h = (n, refl, ground arith)
whole_of_check declined (integer (negsuc n)) allowed i h = cc
whole_of_check a other allowed i h = cc

drop_empty-IsNote :
    (note : Option Text)
    → note_too_long (Option.map trim note) ≡ false
    → IsNote (drop_empty (Option.map trim note))
drop_empty-IsNote none h = tt
drop_empty-IsNote (some t) h = elim (Bool-cases (is_empty (trim t))) [
  | inl e ↦ rw e tt
  | inr e ↦ rw e (trim_idempotent t, e, ground arith)
]

validate_rsvp-Ensures :
    (allowed : ℕ) (input : RsvpSubmission)
    → Ensures (IsRsvp allowed input) (validate_rsvp input (whole allowed))
unfolding validate_rsvp
validate_rsvp-Ensures allowed input = Ensures-bind _ _ (throw_if-Ensures (ltb allowed 1) _) λ _ _.
    Ensures-bind _ _ (throw_if-Ensures (not (is_integer input.party_size)) _) λ _ i.
      Ensures-bind _ _
        (Ensures-self (check_party_size input.attendance input.party_size (whole allowed)))
        λ _ c.
          Ensures-bind _ _ (throw_if-Ensures (note_too_long (Option.map trim input.note)) _)
            λ _ short.
              let (k, e, fits) =
                whole_of_check input.attendance input.party_size allowed (ground arith) c in
              Ensures-ok (IsRsvp allowed input) _ (record {
                party = k;
                party_size = (e, e);
                attendance = refl;
                fits = fits;
                note = drop_empty-IsNote input.note short;
              })

check_of_Fits :
    (a : Attendance) (k allowed : ℕ)
    → Fits a k allowed
    → check_party_size a (whole k) (whole allowed) ≡ ok tt
check_of_Fits attending k allowed h = ground arith
check_of_Fits declined k allowed h = ground arith

note_of_IsNote :
    (n : Option Text)
    → IsNote n
    → (Option.map trim n ≡ n) × (note_too_long n ≡ false) × (drop_empty n ≡ n)
note_of_IsNote none h = (refl, refl, refl)
note_of_IsNote (some t) (trimmed, full, short) = (rw trimmed, ground arith, rw full)

rsvp_of_parts :
    (allowed : ℕ) (a : Attendance) (k : ℕ) (n : Option Text)
    → 1 ≤ allowed
    → Fits a k allowed
    → IsNote n
    → let r : RsvpSubmission = record { attendance = a; party_size = whole k; note = n } in
      validate_rsvp r (whole allowed) ≡ ok r
unfolding validate_rsvp
rsvp_of_parts allowed a k n lo fits note =
    let (same, short, full) = note_of_IsNote n note in
    let one : ltb allowed 1 ≡ false = ground arith in
    simp (one, check_of_Fits a k allowed fits, same, short, full)

-- An accepted answer keeps the attendance and the party size of the input: a party that attends has
-- at least one guest and at most the allowance, a party that declines none. Its note is absent or
-- trimmed with 1 to 500 code units. Sent again under the same allowance, it is accepted unchanged.
pub validate_rsvp-IsRsvp :
    (allowed : ℕ) (input r : RsvpSubmission)
    → 1 ≤ allowed
    → validate_rsvp input (whole allowed) ≡ ok r
    → IsRsvp allowed input r × (validate_rsvp r (whole allowed) ≡ ok r)
validate_rsvp-IsRsvp allowed input r lo h =
    let v = ensured (validate_rsvp-Ensures allowed input) h in
    (
      v,
      subst
          (λ (n : Number).
            let s : RsvpSubmission = record {
              attendance = r.attendance;
              party_size = n;
              note = r.note;
            } in
            validate_rsvp s (whole allowed) ≡ ok s)
          (sym v.party_size.1) (rsvp_of_parts allowed r.attendance v.party r.note lo v.fits v.note),
    )
