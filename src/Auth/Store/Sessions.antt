-- ===== src/Auth/Store/Sessions.antt =====
-- Accounts, action tokens and sessions: the queries of packages/database/src/auth-queries.ts, run as
-- auth-repository.ts runs them.
pub mod Laws
pub mod SingleUse
pub mod Credentials
use lovechapter.Prelude.{
  ℕ, ◌+◌, ◌-◌, ◌*◌, Bool, true, false, ◌&&◌, ◌||◌, not, Option, none, some, List, [], ◌∷◌, ◌++◌,
  if◌then◌else◌, ltb, leb, ◌==◌, min,
}
use lovechapter.Auth.Types.{
  AuthTokenPurpose, verify_email, reset_password, same_purpose, TokenConsumption, SessionCreation,
  ResolvedAuthSession, PasswordRehash,
}
use lovechapter.Auth.Tables.{
  Account, Session, Token, Db, Transaction, update_where, first_where, exists_where, is_null,
  coalesce,
}

abbrev pub day_ms : ℕ
day_ms = 86400000

abbrev pub account_where : ℕ → Account → Bool
account_where id a = a.id == id

-- The row that the token statements of `verifyEmail` and `resetPassword` update.
unfoldable pub is_consumable : AuthTokenPurpose → TokenConsumption → Token → Bool
is_consumable purpose i t =
    t.id == i.token_id
    && t.account_id == i.account_id
    && t.token_hash == i.token_hash
    && same_purpose t.purpose purpose
    && is_null t.consumed_at
    && ltb i.now t.expires_at

abbrev pub consumed : ℕ → Token → Token
consumed now t = record t { consumed_at = some now }

abbrev pub verified : ℕ → Account → Account
verified now a = record a {
  email_verified_at = some (coalesce a.email_verified_at now);
  updated_at = now;
}

-- `buildConsumeEmailVerificationQuery`: the account is updated only if a token was, and the answer is
-- whether an account row is returned.
unfoldable pub consume_email_verification : TokenConsumption → Db → Bool × Db
unfolding is_consumable
consume_email_verification i db =
    let hit = exists_where (is_consumable verify_email i) db.tokens in
    let is_owner = λ (a : Account). hit && account_where i.account_id a in
    (
      exists_where is_owner db.accounts,
      record db {
        tokens = update_where (is_consumable verify_email i) (consumed i.now) db.tokens;
        accounts = update_where is_owner (verified i.now) db.accounts;
      },
    )

unfoldable pub is_eligible : SessionCreation → Account → Bool
is_eligible i a =
    a.id == i.account_id
    && a.credential_version == i.expected_credential_version
    && a.password_hash == i.expected_password_hash
    && not (is_null a.email_verified_at)

abbrev pub new_session : SessionCreation → Session
new_session i = record {
  id = i.id;
  account_id = i.account_id;
  token_hash = i.token_hash;
  idle_expires_at = i.idle_expires_at;
  absolute_expires_at = i.absolute_expires_at;
  last_seen_at = i.now;
  revoked_at = none;
  created_at = i.now;
}

-- The primary key and the unique index on the token hash.
abbrev pub session_conflicts : SessionCreation → Session → Bool
session_conflicts i s = s.id == i.id || s.token_hash == i.token_hash

-- `buildCreateSessionIfCredentialsCurrentQuery`
unfoldable pub create_session_if_credentials_current : SessionCreation → Transaction Bool
unfolding is_eligible
create_session_if_credentials_current i db =
    if exists_where (is_eligible i) db.accounts
    then if exists_where (session_conflicts i) db.sessions
      then none
      else some (true, record db { sessions = new_session i ∷ db.sessions })
    else some (false, db)

unfoldable pub is_live : ℕ → ℕ → Session → Bool
is_live token_hash now s =
    s.token_hash == token_hash
    && is_null s.revoked_at
    && ltb now s.idle_expires_at
    && ltb now s.absolute_expires_at

abbrev pub is_verified_owner : Session → Account → Bool
is_verified_owner s a = a.id == s.account_id && not (is_null a.email_verified_at)

-- The sliding window: at most once a day, and never past the absolute expiry.
-- `last_seen_at <= now - interval '24 hours'`, without subtraction.
abbrev pub refreshed : ℕ → Session → Session
refreshed now s =
    if leb (s.last_seen_at + day_ms) now
    then record s {
      last_seen_at = now;
      idle_expires_at = min (now + 7 * day_ms) s.absolute_expires_at;
    }
    else s

abbrev resolve_row : ℕ → Db → Session → Option Account → Option ResolvedAuthSession × Db
resolve_row now db s none = (none, db)
resolve_row now db s (some a) = (
  some (record { account_id = a.id; email = a.email }),
  record db { sessions = update_where (λ t. t.id == s.id) (refreshed now) db.sessions },
)

abbrev resolve_session_row : ℕ → Db → Option Session → Option ResolvedAuthSession × Db
resolve_session_row now db none = (none, db)
resolve_session_row now db (some s) =
    resolve_row now db s (first_where (is_verified_owner s) db.accounts)

-- `buildResolveSessionQuery`. The unique index on the token hash makes the session row unique.
unfoldable pub resolve_session : ℕ → ℕ → Db → Option ResolvedAuthSession × Db
unfolding is_live
resolve_session token_hash now db =
    resolve_session_row now db (first_where (is_live token_hash now) db.sessions)

abbrev pub revoked : ℕ → Session → Session
revoked now s = record s { revoked_at = some (coalesce s.revoked_at now) }

-- `buildRevokeSessionQuery`
unfoldable pub revoke_session : ℕ → ℕ → Db → Db
revoke_session token_hash now db = record db {
  sessions = update_where (λ s. s.token_hash == token_hash) (revoked now) db.sessions;
}

-- `buildRehashPasswordIfCurrentQuery`
unfoldable pub is_current : PasswordRehash → Account → Bool
is_current i a =
    a.id == i.account_id
    && a.credential_version == i.expected_credential_version
    && a.password_hash == i.expected_password_hash

unfoldable pub rehash_password_if_current : PasswordRehash → Db → Bool × Db
unfolding is_current
rehash_password_if_current i db = (
  exists_where (is_current i) db.accounts,
  record db {
    accounts =
        update_where (is_current i)
          (λ a. record a { password_hash = i.password_hash; updated_at = i.now }) db.accounts;
  },
)

abbrev pub with_password : ℕ → ℕ → Account → Account
with_password hash now a = record a {
  password_hash = hash;
  credential_version = a.credential_version + 1;
  updated_at = now;
}

-- The sessions of an account that `buildRevokeAccountSessionsQuery` revokes.
abbrev pub is_open_session_of : ℕ → Session → Bool
is_open_session_of account_id s = s.account_id == account_id && is_null s.revoked_at

-- `resetPasswordAndRevokeSessions`: one transaction of three statements. The token statement returns
-- the account of the row that it updated, which is the one that it asked for.
unfoldable pub reset_password_and_revoke_sessions : TokenConsumption → ℕ → Transaction Bool
unfolding is_consumable
reset_password_and_revoke_sessions i password_hash db =
    if exists_where (is_consumable reset_password i) db.tokens
    then if exists_where (account_where i.account_id) db.accounts
      then some (
        true,
        record db {
          tokens = update_where (is_consumable reset_password i) (consumed i.now) db.tokens;
          accounts =
              update_where (account_where i.account_id) (with_password password_hash i.now)
                db.accounts;
          sessions =
              update_where (is_open_session_of i.account_id)
                (λ s. record s { revoked_at = some i.now }) db.sessions;
        },
      )
      else none
    else some (false, db)
