-- ===== src/Text/Equal.antt =====
-- The equality test of texts decides equality.
use lovechapter.Prelude.{◌≡◌, ◌↔◌, refl, ap₂, true, [], ◌∷◌, ==_iff, ==_refl, and-eq-true, ◌==◌}
use lovechapter.Text.{Text, text_eq}

pub eq_of_text_eq : (s t : Text) → text_eq s t ≡ true → s ≡ t
eq_of_text_eq [] [] h = refl
eq_of_text_eq [] (_ ∷ _) h = cc
eq_of_text_eq (_ ∷ _) [] h = cc
eq_of_text_eq (a ∷ s) (b ∷ t) h =
    let (first, others) = and-eq-true (a == b) (text_eq s t) h in
    ap₂ ◌∷◌ ((==_iff a b).0 first) (eq_of_text_eq s t others)

pub text_eq_refl : (s : Text) → text_eq s s ≡ true
text_eq_refl [] = refl
text_eq_refl (a ∷ s) = rw (==_refl a) (text_eq_refl s)

pub text_eq_iff : (s t : Text) → (text_eq s t ≡ true) ↔ (s ≡ t)
text_eq_iff s t = (eq_of_text_eq s t, λ e. rw e (text_eq_refl t))
