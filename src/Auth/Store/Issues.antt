-- ===== src/Auth/Store/Issues.antt =====
-- Issuing action tokens with their email jobs: the transactions `registerPending` and
-- `queueActionEmail` of packages/database/src/auth-repository.ts, with their queries in
-- auth-queries.ts. The foreign keys hold by construction: the account row is there before its token,
-- the token row before its job.
pub mod Laws
pub mod Fresh
pub mod Verified
use lovechapter.Prelude.{
  ℕ, ◌*◌, Bool, true, false, ◌&&◌, ◌||◌, not, Option, none, some, List, [], ◌∷◌, if◌then◌else◌,
  ◌==◌, any,
}
use lovechapter.Auth.Types.{
  AuthTokenPurpose, verify_email, reset_password, same_purpose, ActionTokenIssue,
  PendingRegistration,
}
use lovechapter.Auth.Tables.{
  Account, Token, EmailJob, LocalUser, Db, Transaction, update_where, delete_where, select_where,
  first_where, exists_where, is_null,
}

infixl 5 ◌>>=◌
abbrev pub ◌>>=◌ {ℓ κ} : {A : Type ℓ} {B : Type κ} → Option A → (A → Option B) → Option B
none >>= k = none
some a >>= k = k a

-- `validateIssue`
unfoldable pub is_valid_issue : ActionTokenIssue → ℕ → AuthTokenPurpose → Bool
is_valid_issue issue account_id purpose =
    issue.token.account_id == account_id
    && same_purpose issue.token.purpose purpose
    && issue.job.account_id == account_id
    && issue.job.auth_token_id == issue.token.id
    && same_purpose issue.job.kind purpose

abbrev pub require : Bool → Option (Unit {0})
require true = some tt
require false = none

abbrev pub key_where : ℕ → Account → Bool
key_where key a = a.email_key == key

abbrev pub pending_account : PendingRegistration → Account
pending_account i = record {
  id = i.candidate_account_id;
  email = i.email;
  email_key = i.email_key;
  password_hash = i.password_hash;
  email_verified_at = none;
  credential_version = 1;
  created_at = i.now;
  updated_at = i.now;
}

abbrev pub re_registered : PendingRegistration → Account → Account
re_registered i a = record a {
  email = i.email;
  password_hash = i.password_hash;
  updated_at = i.now;
}

abbrev upsert_row :
    PendingRegistration → List Account → Option Account → Option (Option ℕ × List Account)
upsert_row i accounts none =
    if exists_where (λ a. a.id == i.candidate_account_id) accounts
    then none
    else some (some i.candidate_account_id, pending_account i ∷ accounts)
upsert_row i accounts (some a) =
    if is_null a.email_verified_at
    then some (some a.id, update_where (key_where i.email_key) (re_registered i) accounts)
    else some (none, accounts)

-- `buildUpsertPendingAccountQuery`: the id that it returns, if it returns a row. The email key is
-- unique; a candidate id that is taken is an error.
unfoldable pub upsert_pending_account :
    PendingRegistration → List Account → Option (Option ℕ × List Account)
upsert_pending_account i accounts =
    upsert_row i accounts (first_where (key_where i.email_key) accounts)

abbrev local_user : ℕ → PendingRegistration → LocalUser
local_user account_id i = record {
  id = account_id;
  auth_subject = account_id;
  display_name = i.display_name;
  email = i.email;
  onboarding_completed_at = i.now;
  updated_at = i.now;
}

-- `buildSeedLocalUserQuery`
unfoldable pub seed_local_user : ℕ → PendingRegistration → List LocalUser → Option (List LocalUser)
seed_local_user account_id i users =
    if exists_where (λ u. u.auth_subject == account_id) users
    then some (
        update_where (λ u. u.auth_subject == account_id)
          (λ u. record u {
            display_name = i.display_name;
            email = i.email;
            onboarding_completed_at = i.now;
            updated_at = i.now;
          })
          users)
    else if exists_where (λ u. u.id == account_id) users
    then none
    else some (local_user account_id i ∷ users)

abbrev pub is_active_of : ℕ → AuthTokenPurpose → Token → Bool
is_active_of account_id purpose t =
    t.account_id == account_id && same_purpose t.purpose purpose && is_null t.consumed_at

-- A job that waits for one of these tokens.
abbrev waits_for : List Token → EmailJob → Bool
waits_for tokens j = is_null j.sent_at && any (λ t. j.auth_token_id == t.id) tokens

-- `buildInvalidateTokensAndJobsQuery`
unfoldable pub invalidate_tokens_and_jobs : ℕ → AuthTokenPurpose → ℕ → Db → Db
invalidate_tokens_and_jobs account_id purpose now db = record db {
  tokens =
      update_where (is_active_of account_id purpose) (λ t. record t { consumed_at = some now })
        db.tokens;
  email_jobs =
      delete_where (waits_for (select_where (is_active_of account_id purpose) db.tokens))
        db.email_jobs;
}

abbrev pub issued_token : ActionTokenIssue → ℕ → Token
issued_token issue now = record {
  id = issue.token.id;
  account_id = issue.token.account_id;
  purpose = issue.token.purpose;
  token_hash = issue.token_hash;
  signing_key_version = issue.token.signing_key_version;
  expires_at = issue.token.expires_at_epoch_seconds * 1000;
  consumed_at = none;
  created_at = now;
}

-- `buildInsertActionTokenQuery`
unfoldable pub insert_action_token : ActionTokenIssue → ℕ → Db → Option Db
insert_action_token issue now db =
    if exists_where (λ t. t.id == issue.token.id || t.token_hash == issue.token_hash) db.tokens
    then none
    else some (record db { tokens = issued_token issue now ∷ db.tokens })

abbrev issued_job : ActionTokenIssue → ℕ → EmailJob
issued_job issue now = record {
  id = issue.job.id;
  kind = issue.job.kind;
  account_id = issue.job.account_id;
  auth_token_id = issue.job.auth_token_id;
  idempotency_key = issue.job.idempotency_key;
  available_at = issue.job.available_at;
  leased_until = none;
  attempt_count = 0;
  sent_at = none;
  last_error_code = none;
  created_at = now;
  updated_at = now;
}

-- `buildInsertEmailJobQuery`
unfoldable pub insert_email_job : ActionTokenIssue → ℕ → Db → Option Db
insert_email_job issue now db =
    if exists_where (λ j. j.id == issue.job.id || j.idempotency_key == issue.job.idempotency_key)
      db.email_jobs
    then none
    else some (record db { email_jobs = issued_job issue now ∷ db.email_jobs })

-- The three statements that end both transactions.
unfoldable pub replace_issue : ActionTokenIssue → ℕ → AuthTokenPurpose → ℕ → Db → Option Db
unfolding invalidate_tokens_and_jobs insert_action_token insert_email_job
replace_issue issue account_id purpose now db = do
  with_token ← insert_action_token issue now (invalidate_tokens_and_jobs account_id purpose now db)
  insert_email_job issue now with_token

abbrev register_account :
    PendingRegistration → (ℕ → ActionTokenIssue) → Db → Option ℕ → List Account → Option (Bool × Db)
register_account i issue_verification db none accounts = some (false, db)
register_account i issue_verification db (some account_id) accounts = do
  let issue = issue_verification account_id
  _ ← require (is_valid_issue issue account_id verify_email)
  users ← seed_local_user account_id i db.users
  after ←
      replace_issue issue account_id verify_email i.now
        (record db { accounts = accounts; users = users })
  some (true, after)

-- `registerPending`
unfoldable pub register_pending : PendingRegistration → (ℕ → ActionTokenIssue) → Transaction Bool
unfolding upsert_pending_account
register_pending i issue_verification db = do
  (account_id, accounts) ← upsert_pending_account i db.accounts
  register_account i issue_verification db account_id accounts

-- `buildFindEligibleAccountForEmailQuery` and `buildFindResetEligibleAccountForEmailQuery`
abbrev pub eligible_where : ℕ → Bool → Account → Bool
eligible_where email_key verified a =
    a.email_key == email_key
    && (if verified then not (is_null a.email_verified_at) else is_null a.email_verified_at)

abbrev queue_for : ActionTokenIssue → AuthTokenPurpose → ℕ → Option Account → Transaction Bool
queue_for issue purpose now none db = some (false, db)
queue_for issue purpose now (some a) db = do
  _ ← require (is_valid_issue issue a.id purpose)
  after ← replace_issue issue a.id purpose now db
  some (true, after)

-- `queueActionEmail`
unfoldable pub queue_action_email :
    ActionTokenIssue → ℕ → AuthTokenPurpose → Bool → ℕ → Transaction Bool
queue_action_email issue email_key purpose verified now db =
    queue_for issue purpose now (first_where (eligible_where email_key verified) db.accounts) db

-- `queueVerificationEmail` and `queuePasswordReset`
unfoldable pub queue_verification_email : ActionTokenIssue → ℕ → ℕ → Transaction Bool
unfolding queue_action_email
queue_verification_email issue email_key now =
    queue_action_email issue email_key verify_email false now

unfoldable pub queue_password_reset : ActionTokenIssue → ℕ → ℕ → Transaction Bool
unfolding queue_action_email
queue_password_reset issue email_key now =
    queue_action_email issue email_key reset_password true now
