-- ===== src/Auth/Service/Handlers.antt =====
-- The methods of `AuthService` (packages/auth/src/service.ts).
use lovechapter.Prelude.{
  ℕ, ◌+◌, ◌*◌, ◌/◌, Bool, true, false, ◌||◌, not, Option, none, some, [], ◌∷◌, if◌then◌else◌, ltb,
  leb, ◌==◌,
}
use lovechapter.Text.{Text, trim, character_length}
use lovechapter.Auth.Email.{normalize_email}
use lovechapter.Auth.Types.{
  AuthTokenPurpose, verify_email, reset_password, same_purpose, ActionTokenClaims, ActionTokenIssue,
  sign_up_fingerprint, sign_up_email, verification_fingerprint, verification_email,
  forgot_fingerprint, forgot_email, reset_fingerprint, TokenConsumption,
}
use lovechapter.Auth.Tables.{Account, Db, first_where, is_null}
use lovechapter.Auth.Store.Sessions.{consume_email_verification, reset_password_and_revoke_sessions}
use lovechapter.Auth.Store.Issues.{register_pending, queue_verification_email, queue_password_reset}
use lovechapter.Auth.Store.EmailJobs.{ActionTokenMetadata, map_action_token}
use lovechapter.Auth.Service.{
  Dependencies, Draw, AuthError, invalid_request, invalid_token, answer, Handler, throw, then_do,
  transaction, statement, consume_limits,
}

abbrev required : {A : Type 0} → AuthError → Option A → Handler A
required e none db = throw e db
required e (some a) db = (answer a, db)

-- `normalizedEmail`: the numbers of the address and of its key, and the key
abbrev pub normalized_email : Dependencies → Text → Handler (Text × Text)
normalized_email d value = required invalid_request (normalize_email d.unicode value)

-- `normalizedPassword`, which calls `validatePassword` of packages/auth/src/password.ts
unfoldable pub normalized_password : Text → Handler Text
unfolding character_length
normalized_password value db =
    let length = character_length value in
    if ltb length 12 || ltb 128 length then throw invalid_request db else (answer value, db)

unfoldable pub normalized_display_name : Text → Handler Text
unfolding trim character_length
normalized_display_name value db =
    let display_name = trim value in
    let length = character_length display_name in
    if ltb length 1 || ltb 120 length then throw invalid_request db else (answer display_name, db)

abbrev minutes : AuthTokenPurpose → ℕ
minutes verify_email = 30
minutes reset_password = 15

abbrev claims_of : Dependencies → Draw → AuthTokenPurpose → ℕ → ℕ → ActionTokenClaims
claims_of d draw purpose now account_id = record {
  id = draw.token_id;
  account_id = account_id;
  purpose = purpose;
  signing_key_version = d.active_version;
  expires_at_epoch_seconds = (now + minutes purpose * 60000) / 1000;
}

-- `prepareIssue`
unfoldable pub prepare_issue : Dependencies → Draw → AuthTokenPurpose → ℕ → ℕ → ActionTokenIssue
prepare_issue d draw purpose now account_id = record {
  token = claims_of d draw purpose now account_id;
  token_hash = d.hash (d.create (claims_of d draw purpose now account_id));
  job = record {
    id = draw.job_id;
    account_id = account_id;
    auth_token_id = draw.token_id;
    kind = purpose;
    idempotency_key = d.idempotency_key draw.job_id;
    available_at = now;
  };
}

-- `findAccountByEmailKey` and `findActionToken`
abbrev pub find_account_by_email_key : ℕ → Db → Option Account
find_account_by_email_key key db = first_where (λ a. a.email_key == key) db.accounts

abbrev pub find_action_token : ℕ → Db → Option ActionTokenMetadata
find_action_token id db = elim (first_where (λ t. t.id == id) db.tokens) [
  | none ↦ none
  | some t ↦ some (map_action_token t)
]

-- The guard of `requireActionToken`.
unfoldable pub is_refused : Dependencies → ℕ → AuthTokenPurpose → ℕ → ActionTokenMetadata → Bool
is_refused d raw purpose now t =
    not (same_purpose t.purpose purpose)
    || not (is_null t.consumed_at)
    || leb (t.expires_at_epoch_seconds * 1000) now
    || not (t.token_hash == d.hash raw)
    || not (d.verify raw t)

abbrev check_metadata :
    Dependencies
    → ℕ
    → AuthTokenPurpose
    → ℕ
    → Option ActionTokenMetadata
    → Handler ActionTokenMetadata
check_metadata d raw purpose now none db = throw invalid_token db
check_metadata d raw purpose now (some t) db =
    if is_refused d raw purpose now t then throw invalid_token db else (answer t, db)

abbrev require_parsed :
    Dependencies → ℕ → AuthTokenPurpose → ℕ → Option ℕ → Handler ActionTokenMetadata
require_parsed d raw purpose now none db = throw invalid_token db
require_parsed d raw purpose now (some id) db =
    check_metadata d raw purpose now (find_action_token id db) db

-- `requireActionToken`
unfoldable pub require_action_token :
    Dependencies → ℕ → AuthTokenPurpose → ℕ → Handler ActionTokenMetadata
unfolding is_refused
require_action_token d raw purpose now = require_parsed d raw purpose now (d.parse raw)

-- The answer `{ accepted: true }`, `{ verified: true }` or `{ reset: true }`.
abbrev pub accepted : {A : Type 0} → A → Handler (Unit {0})
accepted _ db = (answer tt, db)

unfoldable pub sign_up : Dependencies → Draw → ℕ → Text → Text → Text → Text → Handler (Unit {0})
sign_up d draw now address display_name password fingerprint =
    then_do (normalized_email d address) (λ email.
      then_do (normalized_display_name display_name) (λ name.
        then_do (normalized_password password) (λ password.
          then_do
            (consume_limits d now
              ((sign_up_fingerprint, fingerprint) ∷ (sign_up_email, email.1) ∷ []))
            (λ _.
              then_do
                (transaction (
                  register_pending
                    (record {
                      candidate_account_id = draw.row_id;
                      email = d.number email.0;
                      email_key = d.number email.1;
                      display_name = d.number name;
                      password_hash = d.hash_password draw.salt password;
                      now = now;
                    })
                    (prepare_issue d draw verify_email now)))
                accepted))))

abbrev pub queue_verification : Dependencies → Draw → ℕ → ℕ → Option Account → Handler (Unit {0})
queue_verification d draw now key none db = (answer tt, db)
queue_verification d draw now key (some a) db =
    if is_null a.email_verified_at
    then then_do
        (transaction
          (queue_verification_email (prepare_issue d draw verify_email now a.id) key now))
        accepted db
    else (answer tt, db)

unfoldable pub resend_verification_email :
    Dependencies → Draw → ℕ → Text → Text → Handler (Unit {0})
resend_verification_email d draw now address fingerprint =
    then_do (normalized_email d address) (λ email.
      then_do
        (consume_limits d now
          ((verification_fingerprint, fingerprint) ∷ (verification_email, email.1) ∷ []))
        (λ _ db.
          let key = d.number email.1 in
          queue_verification d draw now key (find_account_by_email_key key db) db))

abbrev consumption_of : ℕ → ActionTokenMetadata → TokenConsumption
consumption_of now t = record {
  token_id = t.id;
  account_id = t.account_id;
  token_hash = t.token_hash;
  now = now;
}

abbrev if_true : AuthError → Bool → Handler (Unit {0})
if_true e true db = (answer tt, db)
if_true e false db = throw e db

unfoldable pub verify_email_address : Dependencies → ℕ → ℕ → Text → Handler (Unit {0})
verify_email_address d now raw fingerprint =
    then_do (consume_limits d now ((verification_fingerprint, fingerprint) ∷ [])) (λ _.
      then_do (require_action_token d raw verify_email now) (λ t.
        then_do (statement (consume_email_verification (consumption_of now t)))
          (if_true invalid_token)))

abbrev pub queue_reset : Dependencies → Draw → ℕ → ℕ → Option Account → Handler (Unit {0})
queue_reset d draw now key none db = (answer tt, db)
queue_reset d draw now key (some a) db =
    if is_null a.email_verified_at
    then (answer tt, db)
    else then_do
        (transaction (queue_password_reset (prepare_issue d draw reset_password now a.id) key now))
        accepted db

unfoldable pub forgot_password : Dependencies → Draw → ℕ → Text → Text → Handler (Unit {0})
forgot_password d draw now address fingerprint = then_do (normalized_email d address) (λ email.
    then_do
      (consume_limits d now ((forgot_fingerprint, fingerprint) ∷ (forgot_email, email.1) ∷ []))
      (λ _ db.
        let key = d.number email.1 in
        queue_reset d draw now key (find_account_by_email_key key db) db))

unfoldable pub reset_password_by_token :
    Dependencies → Draw → ℕ → ℕ → Text → Text → Handler (Unit {0})
reset_password_by_token d draw now raw password fingerprint =
    then_do (normalized_password password) (λ password.
      then_do (consume_limits d now ((reset_fingerprint, fingerprint) ∷ [])) (λ _.
        then_do (require_action_token d raw reset_password now) (λ t.
          then_do
            (transaction (
              reset_password_and_revoke_sessions (consumption_of now t)
                (d.hash_password draw.salt password)))
            (if_true invalid_token))))
