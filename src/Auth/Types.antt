-- ===== src/Auth/Types.antt =====
-- packages/auth/src/types.ts. Identifiers, hashes, keys and names of the authentication store are
-- only compared for equality, so they are numbers here; dates are numbers of milliseconds.
use lovechapter.Prelude.{ℕ, Bool, true, false}

pub data AuthTokenPurpose : Type 0 where
  verify_email reset_password : AuthTokenPurpose

abbrev pub same_purpose : AuthTokenPurpose → AuthTokenPurpose → Bool
same_purpose verify_email verify_email = true
same_purpose reset_password reset_password = true
same_purpose verify_email reset_password = false
same_purpose reset_password verify_email = false

pub record ActionTokenClaims : Type 0 where
  pub id : ℕ
  pub account_id : ℕ
  pub purpose : AuthTokenPurpose
  pub signing_key_version : ℕ
  pub expires_at_epoch_seconds : ℕ

pub record IssuedJob : Type 0 where
  pub id : ℕ
  pub account_id : ℕ
  pub auth_token_id : ℕ
  pub kind : AuthTokenPurpose
  pub idempotency_key : ℕ
  pub available_at : ℕ

pub record ActionTokenIssue : Type 0 where
  pub token : ActionTokenClaims
  pub token_hash : ℕ
  pub job : IssuedJob

pub data AuthRateLimitScope : Type 0 where
  sign_up_fingerprint sign_up_email sign_in_fingerprint sign_in_email : AuthRateLimitScope
  verification_fingerprint verification_email forgot_fingerprint : AuthRateLimitScope
  forgot_email reset_fingerprint : AuthRateLimitScope

pub record RateLimitAttempt : Type 0 where
  pub scope : AuthRateLimitScope
  pub key_hash : ℕ
  pub bucket_started_at : ℕ
  pub expires_at : ℕ
  pub limit : ℕ

pub record PendingRegistration : Type 0 where
  pub candidate_account_id : ℕ
  pub email : ℕ
  pub email_key : ℕ
  pub display_name : ℕ
  pub password_hash : ℕ
  pub now : ℕ

pub record TokenConsumption : Type 0 where
  pub token_id : ℕ
  pub account_id : ℕ
  pub token_hash : ℕ
  pub now : ℕ

pub record SessionCreation : Type 0 where
  pub id : ℕ
  pub account_id : ℕ
  pub token_hash : ℕ
  pub expected_credential_version : ℕ
  pub expected_password_hash : ℕ
  pub idle_expires_at : ℕ
  pub absolute_expires_at : ℕ
  pub now : ℕ

pub record ResolvedAuthSession : Type 0 where
  pub account_id : ℕ
  pub email : ℕ

pub record PasswordRehash : Type 0 where
  pub account_id : ℕ
  pub expected_credential_version : ℕ
  pub expected_password_hash : ℕ
  pub password_hash : ℕ
  pub now : ℕ

pub record EmailJobClaim : Type 0 where
  pub now : ℕ
  pub limit : ℕ
  pub lease_seconds : ℕ

pub record EmailJobCompletion : Type 0 where
  pub id : ℕ
  pub leased_until : ℕ
  pub now : ℕ

-- `EmailJobRetry`; `EmailJobFailure` is the same without the new time
pub record EmailJobRetry : Type 0 where
  pub completion : EmailJobCompletion
  pub available_at : ℕ
  pub last_error_code : ℕ
