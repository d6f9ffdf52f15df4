-- ===== src/Auth/Store/Issues/Laws.antt =====
-- The usable tokens after an action email is queued.
use lovechapter.Prelude.{
  ℕ, ◌≡◌, ◌≢◌, refl, Bool, true, false, ◌&&◌, Option, none, some, List, [], ◌∷◌, arith, inl, inr,
  Bool-cases, ◌==◌, ◌∙◌, ap,
}
use lovechapter.Auth.Types.{
  AuthTokenPurpose, verify_email, reset_password, same_purpose, ActionTokenIssue,
  PendingRegistration,
}
use lovechapter.Auth.Tables.{Account, Token, Db, update_where, select_where}
use lovechapter.Auth.Tables.Laws.{first_where-passes, IsRowOf, first_where-IsRowOf}
use lovechapter.Auth.Store.Issues.{
  eligible_where, ◌>>=◌, is_valid_issue, require, is_active_of, issued_token, replace_issue,
  queue_for, queue_password_reset, register_pending, register_account, seed_local_user,
  upsert_pending_account,
}

abbrev pub consume_at : ℕ → Token → Token
consume_at now t = record t { consumed_at = some now }

none_active :
    (account_id : ℕ) (p : AuthTokenPurpose) (now : ℕ) (l : List Token)
    → select_where
        (is_active_of account_id p)
        (update_where (is_active_of account_id p) (consume_at now) l)
      ≡ []
none_active account_id p now [] = refl
none_active account_id p now (t ∷ l) = ground (arith, none_active account_id p now l)

-- Another account's tokens, or those of the other purpose.
others_active :
    (a b : ℕ) (p q : AuthTokenPurpose) (now : ℕ) (l : List Token)
    → (a == b && same_purpose p q) ≡ false
    → select_where (is_active_of b q) (update_where (is_active_of a p) (consume_at now) l)
      ≡ select_where (is_active_of b q) l
others_active a b p q now [] h = refl
others_active a b p q now (t ∷ l) h = ground (arith, others_active a b p q now l h)

-- Inversion of the two inserts.
replace_issue-tokens :
    (issue : ActionTokenIssue) (account_id : ℕ) (p : AuthTokenPurpose) (now : ℕ) (db after : Db)
    → replace_issue issue account_id p now db ≡ some after
    → (after.tokens
        ≡ issued_token issue now
          ∷ update_where (is_active_of account_id p) (consume_at now) db.tokens)
      × (after.accounts ≡ db.accounts)
      × (after.sessions ≡ db.sessions)
unfolding replace_issue
replace_issue-tokens issue account_id p now db after h = ground arith

issued-is_active :
    (issue : ActionTokenIssue) (account_id b : ℕ) (p q : AuthTokenPurpose) (now : ℕ)
    → is_valid_issue issue account_id p ≡ true
    → is_active_of b q (issued_token issue now) ≡ (account_id == b && same_purpose p q)
unfolding is_valid_issue
issued-is_active issue account_id b p q now h = ground arith

same_purpose_refl : (p : AuthTokenPurpose) → same_purpose p p ≡ true
same_purpose_refl verify_email = refl
same_purpose_refl reset_password = refl

-- The usable tokens after an issue for an account and a purpose: of that account and purpose the
-- new one alone, and of every other account or purpose those of before.
abbrev pub Replaces : ActionTokenIssue → ℕ → AuthTokenPurpose → ℕ → Db → Db → Type 0
Replaces issue account_id p now db after =
    (select_where (is_active_of account_id p) after.tokens ≡ issued_token issue now ∷ [])
    × ((b : ℕ) (q : AuthTokenPurpose)
        → (account_id == b && same_purpose p q) ≡ false
        → select_where (is_active_of b q) after.tokens ≡ select_where (is_active_of b q) db.tokens)

module _ (issue : ActionTokenIssue) (account_id : ℕ) (p : AuthTokenPurpose) (now : ℕ)
    (db after : Db) (valid : is_valid_issue issue account_id p ≡ true)
    (done : replace_issue issue account_id p now db ≡ some after) where
  replaced_self :
      select_where (is_active_of account_id p) after.tokens ≡ issued_token issue now ∷ []
  replaced_self =
      let e = (replace_issue-tokens issue account_id p now db after done).0 in
      let here : is_active_of account_id p (issued_token issue now) ≡ true =
        issued-is_active issue account_id account_id p p now valid
        ∙ ground (arith, same_purpose_refl p) in
      rw (e, here, none_active account_id p now db.tokens)

  replaced_other :
      (b : ℕ) (q : AuthTokenPurpose)
      → (account_id == b && same_purpose p q) ≡ false
      → select_where (is_active_of b q) after.tokens ≡ select_where (is_active_of b q) db.tokens
  replaced_other b q other =
      let e = (replace_issue-tokens issue account_id p now db after done).0 in
      let here = issued-is_active issue account_id b p q now valid ∙ other in
      rw (e, here, others_active account_id b p q now db.tokens other)

  replace_issue-Replaces : Replaces issue account_id p now db after
  replace_issue-Replaces = (replaced_self, replaced_other)

pub bind-eq-some {ℓ κ} :
    {A : Type ℓ} {B : Type κ} (m : Option A) (f : A → Option B) {b : B}
    → (m >>= f) ≡ some b
    → (a : A) × (m ≡ some a) × (f a ≡ some b)
bind-eq-some none f h = cc
bind-eq-some (some a) f h = (a, refl, h)

require-true : (b : Bool) {u : Unit {0}} → require b ≡ some u → b ≡ true
require-true b h = ground arith

eligible_verified :
    (email_key : ℕ) (a : Account)
    → eligible_where email_key true a ≡ true
    → (a.email_key ≡ email_key) × (a.email_verified_at ≢ none)
eligible_verified email_key a h = ground arith

queue_for-Replaces :
    (issue : ActionTokenIssue) (p : AuthTokenPurpose) (now : ℕ) (o : Option Account) (db after : Db)
    → queue_for issue p now o db ≡ some (true, after)
    → (a : Account) × (o ≡ some a) × Replaces issue a.id p now db after
queue_for-Replaces issue p now none db after h = cc
queue_for-Replaces issue p now (some a) db after h =
    elim (Bool-cases (is_valid_issue issue a.id p)) [
      | inl valid ↦ (a, refl, replace_issue-Replaces issue a.id p now db after valid (ground arith))
      | inr bad ↦ absurd (ground arith)
    ]

-- When a password reset is queued, an account of the table has that email key and is verified, and the token in
-- the email becomes its only usable reset token: every older one is invalidated in the same
-- transaction, while the tokens of other accounts and of email verification stay as they were.
pub queue_password_reset-Replaces :
    (issue : ActionTokenIssue) (email_key now : ℕ) (db after : Db)
    → queue_password_reset issue email_key now db ≡ some (true, after)
    → (a : Account) × IsRowOf db.accounts a
      × (a.email_key ≡ email_key)
      × (a.email_verified_at ≢ none)
      × Replaces issue a.id reset_password now db after
unfolding queue_password_reset
queue_password_reset-Replaces issue email_key now db after h =
    let (a, found, replaced) = queue_for-Replaces issue reset_password now _ db after h in
    let (same, is_verified) =
      eligible_verified email_key a
        (first_where-passes (eligible_where email_key true) db.accounts a found) in
    (
      a,
      first_where-IsRowOf (eligible_where email_key true) db.accounts a found,
      same,
      is_verified,
      replaced,
    )

register_account-Replaces :
    (i : PendingRegistration) (issue : ℕ → ActionTokenIssue) (o : Option ℕ)
    (accounts : List Account) (db after : Db)
    → register_account i issue db o accounts ≡ some (true, after)
    → (id : ℕ) × (o ≡ some id)
      × (after.accounts ≡ accounts)
      × Replaces (issue id) id verify_email i.now db after
register_account-Replaces i issue none accounts db after h = cc
register_account-Replaces i issue (some id) accounts db after h =
    let (u, valid, h1) = bind-eq-some (require (is_valid_issue (issue id) id verify_email)) _ h in
    let (users, seeded, h2) = bind-eq-some (seed_local_user id i db.users) _ h1 in
    let before : Db = record db { accounts = accounts; users = users } in
    let (done, replaced, h3) =
      bind-eq-some (replace_issue (issue id) id verify_email i.now before) _ h2 in
    let e : replace_issue (issue id) id verify_email i.now before ≡ some after = ground arith in
    let kept = replace_issue-tokens (issue id) id verify_email i.now before after e in
    (
      id,
      refl,
      kept.1,
      replace_issue-Replaces (issue id) id verify_email i.now before after (require-true _ valid) e,
    )

register_tail-Replaces :
    (i : PendingRegistration) (issue : ℕ → ActionTokenIssue) (db after : Db)
    (o : Option (Option ℕ × List Account))
    → (do (account_id, accounts) ← o; register_account i issue db account_id accounts)
      ≡ some (true, after)
    → (id : ℕ) × (accounts : List Account) × (o ≡ some (some id, accounts))
      × (after.accounts ≡ accounts)
      × Replaces (issue id) id verify_email i.now db after
register_tail-Replaces i issue db after none h = cc
register_tail-Replaces i issue db after (some (o, accounts)) h =
    let (id, e, same, replaced) = register_account-Replaces i issue o accounts db after h in
    (id, accounts, ap (λ (x : Option ℕ). some (x, accounts)) e, same, replaced)

-- When a registration queues its email, the account that it wrote has the new token as its only
-- usable verification token; all other usable tokens stay as they were.
pub register_pending-Replaces :
    (i : PendingRegistration) (issue : ℕ → ActionTokenIssue) (db after : Db)
    → register_pending i issue db ≡ some (true, after)
    → (id : ℕ) × (accounts : List Account) × (upsert_pending_account i db.accounts
        ≡ some (some id, accounts))
      × (after.accounts ≡ accounts)
      × Replaces (issue id) id verify_email i.now db after
register_pending-Replaces i issue db after h =
    register_tail-Replaces i issue db after (upsert_pending_account i db.accounts)
      (unfold register_pending in h)
