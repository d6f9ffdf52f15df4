-- ===== src/Domain/Service/Laws.antt =====
-- What the service lets through to the repositories.
use lovechapter.Prelude.{◌≡◌, ◌≢◌, refl, Bool, true, false, not, Option, none, some, arith}
use lovechapter.Prelude.Result.{
  Result, ok, ◌>>=◌, Ensures, ensures, ensured, Ensures-bind, Ensures-ok, Ensures-self,
  Ensures-then,
}
use lovechapter.Text.{Text}
use lovechapter.Text.Uuid.{is_uuid}
use lovechapter.Domain.Guests.{truthy}
use lovechapter.Domain.Requests.{PageInput, RepositoryPageInput, outside}
use lovechapter.Domain.Requests.Laws.{normalize_page-Ensures}
use lovechapter.Domain.Service.{
  Env, AuthenticatedUser, Session, PlanningTaskFilter, other_filter, Action, Call, require_user,
  require_onboarded_user, as_onboarded, operation_id, operation_page, id_or_fresh,
}
use lovechapter.Domain.Service.Operations.{saving, with_id, check_id, optional_id}
use lovechapter.Domain.Service.Planning.{is_filter}
use lovechapter.Domain.Service.Requests.{Request}
use lovechapter.Domain.Service.Answers.{
  wedding_of, IsIdOption, chosen, IsSave, IsWithId, IsOfPage, IsFor,
}

-- The call is made for the signed-in user, who has finished onboarding, for the wedding of the request,
-- and it is the call that the request asks for.
pub record IsAuthorized (e : Env) (s : Session) (r : Request) (c : Call) : Type 0 where
  pub user : AuthenticatedUser
  pub signed_in : s ≡ some user
  pub onboarded : user.onboarding_complete ≡ true
  pub caller : c.user_id ≡ user.id
  pub wedding : c.wedding_id ≡ wedding_of r
  pub asked : IsFor e r c.action

require_user-Ensures : (s : Session) → Ensures (λ u. s ≡ some u) (require_user s)
unfolding require_user
require_user-Ensures none = ensures (λ u h. absurd (cc))
require_user-Ensures (some u) = Ensures-ok (λ v. some u ≡ some v) u refl

require_onboarded_user-Ensures :
    (s : Session)
    → Ensures (λ u. (s ≡ some u) × (u.onboarding_complete ≡ true)) (require_onboarded_user s)
unfolding require_onboarded_user
require_onboarded_user-Ensures s = Ensures-bind _ _ (require_user-Ensures s) λ u h.
    Ensures-then (not u.onboarding_complete) _ _
      λ done. Ensures-ok (λ v. (s ≡ some v) × (v.onboarding_complete ≡ true)) u (h, ground arith)

pub as_onboarded-IsAuthorized :
    (e : Env) (s : Session) (r : Request) (a : Result Action)
    → Ensures (IsFor e r) a
    → Ensures (IsAuthorized e s r) (as_onboarded s (wedding_of r) a)
unfolding as_onboarded
as_onboarded-IsAuthorized e s r a h = Ensures-bind _ _ (require_onboarded_user-Ensures s) λ u k.
    Ensures-bind _ _ h λ action asked. Ensures-ok (IsAuthorized e s r) _ (record {
      user = u;
      signed_in = k.0;
      onboarded = k.1;
      caller = refl;
      wedding = refl;
      asked = asked;
    })

pub Ensures-weaken :
    {A : Type 0} {P Q : A → Type 0} {r : Result A}
    → Ensures P r
    → ((a : A) → P a → Q a)
    → Ensures Q r
Ensures-weaken p k = ensures (λ a h. k a (ensured p h))

-- The result of a normaliser, with what it ensures.
pub Ensures-both :
    {A : Type 0} {P : A → Type 0} {r : Result A} → Ensures P r → Ensures (λ a. P a × (r ≡ ok a)) r
Ensures-both p = ensures (λ a h. (ensured p h, h))

pub known_id-Ensures : (id : Text) → Ensures (λ i. (is_uuid id ≡ true) × (i ≡ id)) (operation_id id)
unfolding operation_id
known_id-Ensures id =
    Ensures-then (not (is_uuid id)) _ _
      λ h. Ensures-ok (λ i. (is_uuid id ≡ true) × (i ≡ id)) id (ground arith, refl)

pub known_option-Ensures :
    (id : Option Text) → Ensures (λ i. IsIdOption id × (i ≡ id)) (optional_id id)
known_option-Ensures none = Ensures-ok (λ i. IsIdOption none × (i ≡ none)) none (tt, refl)
known_option-Ensures (some id) =
    Ensures-bind _ _ (known_id-Ensures id)
      λ i h. Ensures-ok (λ j. IsIdOption (some id) × (j ≡ some id)) (some i) (h.0, rw h.1 refl)

pub operation_page-IsOfPage :
    (e : Env) (action : RepositoryPageInput → Action) (page : PageInput)
    → Ensures (IsOfPage e action page) (do p ← operation_page e page; ok (action p))
unfolding operation_page
operation_page-IsOfPage e action page =
    Ensures-bind _ _
      (Ensures-then (outside 50 page.limit) _ _
        λ h. Ensures-both (normalize_page-Ensures e.cursors 50 page (λ k. h)))
      (λ p h. Ensures-ok (IsOfPage e action page) _ (p, h.0, h.1, refl))

chosen-Ensures :
    (fresh : Text) (id : Option Text)
    → Ensures (λ i. IsIdOption id × (i ≡ chosen fresh id)) (id_or_fresh fresh id)
chosen-Ensures fresh none =
    Ensures-ok (λ i. IsIdOption none × (i ≡ chosen fresh none)) fresh (tt, refl)
chosen-Ensures fresh (some id) = known_id-Ensures id

pub saving-IsSave :
    {A : Type 0} (action : Text → A → Bool → Action) (fresh : Text) (id : Option Text)
    (r : Result A)
    → Ensures (IsSave action fresh id r) (saving action fresh id r)
saving-IsSave action fresh id r = Ensures-bind _ _ (chosen-Ensures fresh (truthy id)) λ i h.
    Ensures-bind _ _ (Ensures-self r)
      λ v k. Ensures-ok (IsSave action fresh id r) _ (v, h.0, k, rw h.1 refl)

pub with_id-IsWithId :
    (action : Text → Action) (id : Text) → Ensures (IsWithId action id) (with_id action id)
with_id-IsWithId action id =
    Ensures-bind _ _ (known_id-Ensures id)
      λ i h. Ensures-ok (IsWithId action id) _ (h.0, rw h.1 refl)

pub check_id-Ensures : (id : Option Text) → Ensures (λ _. IsIdOption id) (check_id id)
check_id-Ensures none = Ensures-ok (λ _. IsIdOption none) tt tt
check_id-Ensures (some id) =
    Ensures-bind _ _ (known_id-Ensures id) λ _ h. Ensures-ok (λ _. is_uuid id ≡ true) tt h.0

pub filter_lem : (f : PlanningTaskFilter) → not (is_filter f) ≡ false → f ≢ other_filter
filter_lem f h k = true_false (rw k at h)
  where
    true_false : ◌≡◌ {A = Bool} true false → ⊥
    true_false h = cc
