-- ===== src/Auth/Service/SignIn/Laws.antt =====
-- Signing in, resolving the session and signing out.
use lovechapter.Prelude.{
  ℕ, ◌+◌, ◌<◌, ◌≡◌, refl, ap, Bool, true, false, none, some, List, [], ◌∷◌, inl, inr, arith,
  Bool-cases, Option-cases, ◌==◌, eq_of_some, is_empty,
}
use lovechapter.Text.{Text}
use lovechapter.Auth.Email.{normalize_email}
use lovechapter.Auth.Store.RateLimits.{consume_rate_limit}
use lovechapter.Auth.Types.{
  AuthRateLimitScope, sign_in_fingerprint, sign_in_email, RateLimitAttempt, SessionCreation,
}
use lovechapter.Auth.Tables.{Account, Session, Db, first_where, exists_where, update_where, is_null}
use lovechapter.Auth.Tables.Laws.{first_where-passes, first_where_weaker}
use lovechapter.Auth.Store.Sessions.{
  create_session_if_credentials_current, resolve_session, rehash_password_if_current, is_eligible,
  is_live, revoked, session_conflicts, is_verified_owner, new_session,
}
use lovechapter.Auth.Service.{Dependencies, Draw, Reply, answer, error, consume_limits, attempt_of}
use lovechapter.Auth.Service.Handlers.{find_account_by_email_key}
use lovechapter.Auth.Service.Replies.{Answers, Answers-then, answered, Answers-map}
use lovechapter.Auth.Service.SignIn.{
  CreatedSession, creation_of, open_session, sign_in_verified, rehash_of, sign_in_account, sign_in,
  sign_out, resolve_token,
}

none_live :
    (h now later : ℕ) (l : List Session)
    → first_where (is_live h later) (update_where (λ s. s.token_hash == h) (revoked now) l) ≡ none
unfolding is_live
none_live h now later [] = refl
none_live h now later (s ∷ l) = ground (arith, none_live h now later l)

-- Once a token is signed out, it does not resolve, at any time.
pub sign_out-resolve_token :
    (d : Dependencies) (now later token : ℕ) (db : Db)
    → (resolve_token d later (some token) (sign_out d now (some token) db)).0 ≡ none
unfolding resolve_token sign_out
sign_out-resolve_token d now later token db =
    rw (none_live (d.hash_session_token token) now later db.sessions) refl

eligible-verified :
    (i : SessionCreation) (a : Account)
    → is_eligible i a ≡ true
    → is_verified_owner (new_session i) a ≡ true
unfolding is_eligible
eligible-verified i a h = ground arith

new-live :
    (i : SessionCreation) (later : ℕ)
    → later < i.idle_expires_at
    → later < i.absolute_expires_at
    → is_live i.token_hash later (new_session i) ≡ true
unfolding is_live
new-live i later h k = ground arith

owner-id :
    (i : SessionCreation) (a : Account)
    → is_verified_owner (new_session i) a ≡ true
    → a.id ≡ i.account_id
owner-id i a h = ground arith

-- A session that is created resolves to its account, until the earlier of its expiries.
pub create-resolve :
    (i : SessionCreation) (later : ℕ) (db after : Db)
    → create_session_if_credentials_current i db ≡ some (true, after)
    → later < i.idle_expires_at
    → later < i.absolute_expires_at
    → (email : ℕ) × ((resolve_session i.token_hash later after).0
        ≡ some (record { account_id = i.account_id; email = email }))
unfolding create_session_if_credentials_current resolve_session
create-resolve i later db after e h k =
    elim (Bool-cases (exists_where (is_eligible i) db.accounts)) [
      | inr none_eligible ↦ ground arith
      | inl eligible ↦ elim (Bool-cases (exists_where (session_conflicts i) db.sessions)) [
        | inl conflict ↦ ground arith
        | inr free ↦
            let (a, found) = first_where_weaker _ _ db.accounts (eligible-verified i) eligible in
            let e : some (true, record db { sessions = new_session i ∷ db.sessions })
                ≡ some (true, after) =
              rw (eligible, free) at e in
            let owner = first_where-passes _ db.accounts a found in
            let live = new-live i later h k in
            let same : a.id ≡ i.account_id = owner-id i a owner in
            let eq = ap (λ (p : Bool × Db). p.1) (eq_of_some _ _ e) in
            (a.email, rw (← eq, live, found, same) refl)
      ]
    ]

-- Seven days of 86,400,000 ms.
abbrev pub week : ℕ
week = 604800000

-- The session of an account that is opened now resolves to it for seven days, and ends after thirty.
pub record IsOpen (d : Dependencies) (now : ℕ) (a : Account) (s : CreatedSession) (after : Db)
    : Type 0 where
  pub idles : s.idle_expires_at ≡ now + week
  pub ends : s.absolute_expires_at ≡ now + 2592000000
  pub resolves :
      (later : ℕ)
      → later < now + week
      → (email : ℕ) × ((resolve_token d later (some s.token) after).0
          ≡ some (record { account_id = a.id; email = email }))

open_session-IsOpen :
    (d : Dependencies) (draw : Draw) (now : ℕ) (a : Account) (hash : ℕ) (db : Db)
    → Answers (IsOpen d now a) (open_session d draw now a hash db)
unfolding open_session resolve_token
open_session-IsOpen d draw now a hash db =
    let i : SessionCreation = creation_of d draw now a hash in
    elim (Option-cases (create_session_if_credentials_current i db)) [
      | inl failed ↦ rw failed tt
      | inr ((true, mid), made) ↦ rw made record {
        idles = refl;
        ends = refl;
        resolves = λ later h. create-resolve i later db mid made h (omega (arith, h));
      }
      | inr ((false, mid), stale) ↦ rw stale tt
    ]

-- What a successful sign-in rests on and gives.
pub record IsSignedIn (d : Dependencies) (now : ℕ) (password : Text) (key : ℕ)
    (accounts : List Account) (s : CreatedSession) (after : Db) : Type 0 where
  pub account : Account
  pub found : first_where (λ a. a.email_key == key) accounts ≡ some account
  pub valid : (d.verify_password password account.password_hash).0 ≡ true
  pub is_verified : is_null account.email_verified_at ≡ false
  pub is_open : IsOpen d now account s after

-- The password was checked, the address is verified, and the session is open.
abbrev IsGranted : Dependencies → ℕ → Account → Bool → CreatedSession → Db → Type 0
IsGranted d now a valid s after =
    (valid ≡ true) × (is_null a.email_verified_at ≡ false) × IsOpen d now a s after

open_session-IsGranted :
    (d : Dependencies) (draw : Draw) (now : ℕ) (a : Account) (hash : ℕ) (db : Db)
    → is_null a.email_verified_at ≡ false
    → Answers (IsGranted d now a true) (open_session d draw now a hash db)
open_session-IsGranted d draw now a hash db h =
    Answers-map (IsOpen d now a) (IsGranted d now a true) (open_session d draw now a hash db)
      (λ s after o. (refl, h, o)) (open_session-IsOpen d draw now a hash db)

sign_in_verified-IsGranted :
    (d : Dependencies) (draw : Draw) (now : ℕ) (password : Text) (a : Account) (v : Bool × Bool)
    (db : Db)
    → Answers (IsGranted d now a v.0) (sign_in_verified d draw now password a v db)
unfolding sign_in_verified
sign_in_verified-IsGranted d draw now password a (false, r) db = tt
sign_in_verified-IsGranted d draw now password a (true, false) db =
    elim (Bool-cases (is_null a.email_verified_at)) [
      | inl unverified ↦ rw unverified tt
      | inr h ↦ rw h (open_session-IsGranted d draw now a a.password_hash db h)
    ]
sign_in_verified-IsGranted d draw now password a (true, true) db =
    elim (Bool-cases (is_null a.email_verified_at)) [
      | inl unverified ↦ rw unverified tt
      | inr h ↦
          elim (Bool-cases (rehash_password_if_current (rehash_of d draw now password a) db).0) [
            | inl rehashed ↦
                rw (h, rehashed)
                  (open_session-IsGranted d draw now a (d.hash_password draw.salt password)
                    (rehash_password_if_current (rehash_of d draw now password a) db).1 h)
            | inr refused ↦ rw (h, refused) tt
          ]
    ]

sign_in_account-IsSignedIn :
    (d : Dependencies) (draw : Draw) (now : ℕ) (password : Text) (key : ℕ) (db : Db)
    → Answers
        (IsSignedIn d now password key db.accounts)
        (sign_in_account d draw now password (find_account_by_email_key key db) db)
sign_in_account-IsSignedIn d draw now password key db =
    elim (Option-cases (find_account_by_email_key key db)) [
      | inl missing ↦ rw missing tt
      | inr (a, found) ↦ rw found (
          Answers-map (IsGranted d now a (d.verify_password password a.password_hash).0)
            (IsSignedIn d now password key db.accounts)
            (sign_in_verified d draw now password a (d.verify_password password a.password_hash) db)
            (λ s after h. record {
              account = a;
              found = found;
              valid = h.0;
              is_verified = h.1;
              is_open = h.2;
            })
            (sign_in_verified-IsGranted d draw now password a
              (d.verify_password password a.password_hash) db))
    ]

consume_limits-accounts :
    (d : Dependencies) (now : ℕ) (values : List (AuthRateLimitScope × Text)) (db : Db)
    → (consume_limits d now values db).1.accounts ≡ db.accounts
unfolding consume_limits consume_rate_limit
consume_limits-accounts d now [] db = refl
consume_limits-accounts d now ((scope, value) ∷ values) db =
    let attempt : RateLimitAttempt = attempt_of d now scope value in
    elim (Bool-cases (is_empty value)) [
      | inl empty ↦ rw empty refl
      | inr given ↦ elim (Bool-cases (consume_rate_limit attempt db).0) [
        | inl accepted ↦
            rw (given, accepted)
              (consume_limits-accounts d now values (consume_rate_limit attempt db).1)
        | inr refused ↦ rw (given, refused) refl
      ]
    ]

accounts_kept :
    (r : Reply (Unit {0}) × Db) (accounts : List Account)
    → r.1.accounts ≡ accounts
    → Answers (λ _ mid. mid.accounts ≡ accounts) r
accounts_kept (answer a, mid) accounts h = h
accounts_kept (error e, mid) accounts h = tt

-- A sign-in that answers found the account of the address, whose password it checked and whose address is
-- verified. Its token resolves to that account at every time less than seven days after the sign-in, when the
-- session idles out, and the session ends after thirty days.
pub sign_in-IsSignedIn :
    (d : Dependencies) (draw : Draw) (now : ℕ) (address password fingerprint : Text)
    (email key : Text) (db after : Db) (s : CreatedSession)
    → normalize_email d.unicode address ≡ some (email, key)
    → sign_in d draw now address password fingerprint db ≡ (answer s, after)
    → IsSignedIn d now password (d.number key) db.accounts s after
unfolding sign_in
sign_in-IsSignedIn d draw now address password fingerprint email key db after s n e =
    let limits : List (AuthRateLimitScope × Text) =
      (sign_in_fingerprint, fingerprint) ∷ (sign_in_email, key) ∷ [] in
    answered (IsSignedIn d now password (d.number key) db.accounts)
      (sign_in d draw now address password fingerprint db) s after
      (rw n (
        Answers-then (λ _ mid. mid.accounts ≡ db.accounts)
          (IsSignedIn d now password (d.number key) db.accounts) (consume_limits d now limits)
          (λ _ mid.
            sign_in_account d draw now password (find_account_by_email_key (d.number key) mid) mid)
          db
          (accounts_kept (consume_limits d now limits db) db.accounts
            (consume_limits-accounts d now limits db))
          (λ _ mid kept.
            rw (← kept) (sign_in_account-IsSignedIn d draw now password (d.number key) mid))))
      e
