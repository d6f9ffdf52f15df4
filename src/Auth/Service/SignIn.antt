-- ===== src/Auth/Service/SignIn.antt =====
-- `signIn`, `resolveSession` and `signOut` of packages/auth/src/service.ts.
pub mod Laws
use lovechapter.Prelude.{
  ℕ, ◌+◌, ◌*◌, Bool, true, false, ◌||◌, not, Option, none, some, [], ◌∷◌, if◌then◌else◌,
}
use lovechapter.Text.{Text}
use lovechapter.Auth.Types.{
  sign_in_fingerprint, sign_in_email, SessionCreation, ResolvedAuthSession, PasswordRehash,
}
use lovechapter.Auth.Tables.{Account, Db, is_null}
use lovechapter.Auth.Store.Sessions.{
  create_session_if_credentials_current, resolve_session, revoke_session,
  rehash_password_if_current, day_ms,
}
use lovechapter.Auth.Service.{
  Dependencies, Draw, invalid_credentials, Reply, answer, Handler, throw, then_do, transaction,
  statement, consume_limits,
}
use lovechapter.Auth.Service.Handlers.{normalized_email, find_account_by_email_key}

pub record CreatedSession : Type 0 where
  pub token : ℕ
  pub idle_expires_at : ℕ
  pub absolute_expires_at : ℕ

abbrev pub creation_of : Dependencies → Draw → ℕ → Account → ℕ → SessionCreation
creation_of d draw now a expected_password_hash = record {
  id = draw.row_id;
  account_id = a.id;
  token_hash = d.hash_session_token draw.session_token;
  expected_credential_version = a.credential_version;
  expected_password_hash = expected_password_hash;
  idle_expires_at = now + 7 * day_ms;
  absolute_expires_at = now + 30 * day_ms;
  now = now;
}

abbrev if_created : Draw → ℕ → Bool → Handler CreatedSession
if_created draw now false db = throw invalid_credentials db
if_created draw now true db = (
  answer (record {
    token = draw.session_token;
    idle_expires_at = now + 7 * day_ms;
    absolute_expires_at = now + 30 * day_ms;
  }),
  db,
)

-- From the new session on, with the hash that the account is to have.
unfoldable pub open_session : Dependencies → Draw → ℕ → Account → ℕ → Handler CreatedSession
open_session d draw now a hash =
    then_do (transaction (create_session_if_credentials_current (creation_of d draw now a hash)))
      (if_created draw now)

abbrev if_rehashed : Handler CreatedSession → Bool → Handler CreatedSession
if_rehashed k true = k
if_rehashed k false = throw invalid_credentials

abbrev pub rehash_of : Dependencies → Draw → ℕ → Text → Account → PasswordRehash
rehash_of d draw now password a = record {
  account_id = a.id;
  expected_credential_version = a.credential_version;
  expected_password_hash = a.password_hash;
  password_hash = d.hash_password draw.salt password;
  now = now;
}

-- From the answer of the hasher on.
unfoldable pub sign_in_verified :
    Dependencies → Draw → ℕ → Text → Account → Bool × Bool → Handler CreatedSession
sign_in_verified d draw now password a (valid, needs_rehash) db =
    if not valid || is_null a.email_verified_at
    then throw invalid_credentials db
    else if needs_rehash
    then then_do (statement (rehash_password_if_current (rehash_of d draw now password a)))
        (if_rehashed (open_session d draw now a (d.hash_password draw.salt password))) db
    else open_session d draw now a a.password_hash db

-- From the row of the account on; without one the synthetic check runs, whose answer is not used.
abbrev pub sign_in_account :
    Dependencies → Draw → ℕ → Text → Option Account → Handler CreatedSession
sign_in_account d draw now password none = throw invalid_credentials
sign_in_account d draw now password (some a) =
    sign_in_verified d draw now password a (d.verify_password password a.password_hash)

unfoldable pub sign_in : Dependencies → Draw → ℕ → Text → Text → Text → Handler CreatedSession
sign_in d draw now address password fingerprint = then_do (normalized_email d address) (λ email.
    then_do
      (consume_limits d now ((sign_in_fingerprint, fingerprint) ∷ (sign_in_email, email.1) ∷ []))
      (λ _ db.
        sign_in_account d draw now password (find_account_by_email_key (d.number email.1) db) db))

-- `signOut` of a token of the right shape; without one nothing happens.
unfoldable pub sign_out : Dependencies → ℕ → Option ℕ → Db → Db
unfolding revoke_session
sign_out d now none db = db
sign_out d now (some token) db = revoke_session (d.hash_session_token token) now db

-- `resolveSession` of a token of the right shape: the subject and the address of the principal.
unfoldable pub resolve_token : Dependencies → ℕ → Option ℕ → Db → Option ResolvedAuthSession × Db
unfolding resolve_session
resolve_token d now none db = (none, db)
resolve_token d now (some token) db = resolve_session (d.hash_session_token token) now db
