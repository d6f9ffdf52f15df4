-- ===== src/Auth/Service.antt =====
-- `AuthService` of packages/auth/src/service.ts, over the store of Auth/Store. A handler is given the
-- database and what it draws at random, and gives its answer or its error with the database after it:
-- an error does not undo the statements before it. The hasher, the token codec and the keyed hashes
-- are parameters.
pub mod Handlers
pub mod Replies
pub mod Privacy
pub mod SignIn
pub mod Laws
use lovechapter.Prelude.{
  ℕ, ◌+◌, ◌*◌, ◌/◌, Bool, true, false, ◌&&◌, ◌||◌, not, Option, none, some, List, [], ◌∷◌,
  if◌then◌else◌, ltb, leb, ◌==◌, is_empty,
}
use lovechapter.Text.{Text, trim, character_length}
use lovechapter.Auth.Email.{Unicode, normalize_email}
use lovechapter.Auth.Types.{
  AuthTokenPurpose, verify_email, reset_password, same_purpose, ActionTokenClaims, ActionTokenIssue,
  AuthRateLimitScope, sign_up_fingerprint, sign_up_email, sign_in_fingerprint, sign_in_email,
  verification_fingerprint, verification_email, forgot_fingerprint, forgot_email, reset_fingerprint,
  RateLimitAttempt, PendingRegistration, TokenConsumption, SessionCreation, ResolvedAuthSession,
  PasswordRehash,
}
use lovechapter.Auth.Tables.{Account, Token, Db, Transaction, first_where, is_null}
use lovechapter.Auth.Store.RateLimits.{consume_rate_limit}
use lovechapter.Auth.Store.Sessions.{
  consume_email_verification, create_session_if_credentials_current, resolve_session,
  revoke_session, rehash_password_if_current, reset_password_and_revoke_sessions, day_ms,
}
use lovechapter.Auth.Store.Issues.{register_pending, queue_verification_email, queue_password_reset}
use lovechapter.Auth.Store.EmailJobs.{ActionTokenMetadata, map_action_token}

-- What the service is built from. A text that the store only compares is numbered by `number`.
pub record Dependencies : Type 0 where
  pub unicode : Unicode
  pub number : Text → ℕ
  -- `rateLimitKey` and `hashSessionToken`
  pub rate_limit_key : Text → ℕ
  pub hash_session_token : ℕ → ℕ
  -- the hasher, with the salt that it draws; the answers of `verify` are `valid` and `needsRehash`
  pub hash_password : ℕ → Text → ℕ
  pub verify_password : Text → ℕ → Bool × Bool
  -- the codec of action tokens
  pub active_version : ℕ
  pub create : ActionTokenClaims → ℕ
  pub hash : ℕ → ℕ
  pub parse : ℕ → Option ℕ
  pub verify : ℕ → ActionTokenMetadata → Bool
  -- `auth-email/` with the identifier of the job
  pub idempotency_key : ℕ → ℕ

-- What a call draws: two identifiers for an issue, one for a row, a salt and a session token.
pub record Draw : Type 0 where
  pub token_id : ℕ
  pub job_id : ℕ
  pub row_id : ℕ
  pub salt : ℕ
  pub session_token : ℕ

pub data AuthError : Type 0 where
  invalid_credentials invalid_request invalid_token rate_limited database_error : AuthError

pub data Reply (A : Type 0) : Type 0 where
  answer : A → Reply A
  error : AuthError → Reply A

abbrev pub Handler : Type 0 → Type 0
Handler A = Db → Reply A × Db

abbrev pub throw : {A : Type 0} → AuthError → Handler A
throw e db = (error e, db)

abbrev continue_with : {A B : Type 0} → (A → Handler B) → Reply A → Handler B
continue_with k (answer a) db = k a db
continue_with k (error e) db = (error e, db)

abbrev pub then_do : {A B : Type 0} → Handler A → (A → Handler B) → Handler B
then_do m k db = let (r, after) = m db in continue_with k r after

abbrev transacted : {A : Type 0} → Db → Option (A × Db) → Reply A × Db
transacted db none = (error database_error, db)
transacted db (some (a, after)) = (answer a, after)

-- A transaction that fails leaves the database and throws.
abbrev pub transaction : {A : Type 0} → Transaction A → Handler A
transaction t db = transacted db (t db)

-- A statement.
abbrev pub statement : {A : Type 0} → (Db → A × Db) → Handler A
statement f db = let (a, after) = f db in (answer a, after)

abbrev pub limit_of : AuthRateLimitScope → ℕ
limit_of sign_up_fingerprint = 5
limit_of sign_up_email = 3
limit_of sign_in_fingerprint = 20
limit_of sign_in_email = 10
limit_of verification_fingerprint = 10
limit_of verification_email = 3
limit_of forgot_fingerprint = 5
limit_of forgot_email = 5
limit_of reset_fingerprint = 10

abbrev pub window_seconds : AuthRateLimitScope → ℕ
window_seconds sign_up_fingerprint = 3600
window_seconds sign_up_email = 3600
window_seconds sign_in_fingerprint = 900
window_seconds sign_in_email = 900
window_seconds verification_fingerprint = 900
window_seconds verification_email = 3600
window_seconds forgot_fingerprint = 3600
window_seconds forgot_email = 3600
window_seconds reset_fingerprint = 900

-- The attempt that `consumeLimits` gives to the store.
unfoldable pub attempt_of : Dependencies → ℕ → AuthRateLimitScope → Text → RateLimitAttempt
attempt_of d now scope value =
    let window = window_seconds scope * 1000 in
    let bucket_started_at = now / window * window in
    record {
      scope = scope;
      key_hash = d.rate_limit_key value;
      bucket_started_at = bucket_started_at;
      expires_at = bucket_started_at + window;
      limit = limit_of scope;
    }

abbrev if_accepted : Handler (Unit {0}) → Bool → Handler (Unit {0})
if_accepted k true = k
if_accepted k false = throw rate_limited

-- `consumeLimits`
unfoldable pub consume_limits :
    Dependencies → ℕ → List (AuthRateLimitScope × Text) → Handler (Unit {0})
unfolding attempt_of
consume_limits d now [] db = (answer tt, db)
consume_limits d now ((scope, value) ∷ values) db =
    if is_empty value
    then throw invalid_request db
    else then_do (statement (consume_rate_limit (attempt_of d now scope value)))
        (if_accepted (consume_limits d now values)) db
