-- ===== src/Auth/Store/Sessions/Laws.antt =====
-- What holds of sessions and action tokens, whatever the database holds.
use lovechapter.Prelude.{
  ℕ, ◌<◌, ◌≡◌, ◌≢◌, refl, true, false, Option, none, some, List, [], ◌∷◌, ◌==◌, arith, sym, ap,
  eq_of_some,
}
use lovechapter.Auth.Types.{reset_password, TokenConsumption, ResolvedAuthSession}
use lovechapter.Auth.Tables.{Account, Session, Db, update_where, first_where, exists_where}
use lovechapter.Auth.Tables.Laws.{first_where-passes}
use lovechapter.Auth.Store.Sessions.{
  is_consumable, consumed, is_live, is_verified_owner, resolve_session, account_where,
  with_password, is_open_session_of, reset_password_and_revoke_sessions, resolve_session_row,
  resolve_row,
}

abbrev close_session : ℕ → Session → Session
close_session now s = record s { revoked_at = some now }

-- After the sessions of an account are revoked, no live session belongs to it.
live_after_revoke :
    (hash later account now : ℕ) (l : List Session) (s : Session)
    → first_where
        (is_live hash later)
        (update_where (is_open_session_of account) (close_session now) l)
      ≡ some s
    → (s.account_id == account) ≡ false
unfolding is_live
live_after_revoke hash later account now [] s h = cc
live_after_revoke hash later account now (x ∷ l) s h =
    ground (arith, live_after_revoke hash later account now l s)

resolve_row-inverse :
    (now : ℕ) (db : Db) (s : Session) (o : Option Account) (r : ResolvedAuthSession)
    → (resolve_row now db s o).0 ≡ some r
    → (a : Account) × (o ≡ some a) × (r ≡ record { account_id = a.id; email = a.email })
resolve_row-inverse now db s none r h = cc
resolve_row-inverse now db s (some a) r h = (a, refl, eq_of_some r _ (sym h))

resolve_session_row-inverse :
    (now : ℕ) (db : Db) (o : Option Session) (r : ResolvedAuthSession)
    → (resolve_session_row now db o).0 ≡ some r
    → (s : Session) × (a : Account) × (o ≡ some s)
      × (first_where (is_verified_owner s) db.accounts ≡ some a)
      × (r ≡ record { account_id = a.id; email = a.email })
resolve_session_row-inverse now db none r h = cc
resolve_session_row-inverse now db (some s) r h =
    let (a, found, e) =
      resolve_row-inverse now db s (first_where (is_verified_owner s) db.accounts) r h in
    (s, a, refl, found, e)

-- The database after a password reset that succeeded.
module _ (i : TokenConsumption) (hash : ℕ) (db after : Db)
    (done : reset_password_and_revoke_sessions i hash db ≡ some (true, after)) where
  reset_sessions :
      after.sessions
      ≡ update_where (is_open_session_of i.account_id) (close_session i.now) db.sessions
  unfolding reset_password_and_revoke_sessions
  reset_sessions = ground arith

  pub reset_accounts :
      after.accounts
      ≡ update_where (account_where i.account_id) (with_password hash i.now) db.accounts
  unfolding reset_password_and_revoke_sessions
  reset_accounts = ground arith

  pub reset_tokens :
      after.tokens ≡ update_where (is_consumable reset_password i) (consumed i.now) db.tokens
  unfolding reset_password_and_revoke_sessions
  reset_tokens = ground arith

  -- The reset has found its token.
  pub reset_used : exists_where (is_consumable reset_password i) db.tokens ≡ true
  unfolding reset_password_and_revoke_sessions
  reset_used = ground arith

-- The session and the account behind an answer of `resolveSession`.
pub record IsResolved (hash now : ℕ) (db : Db) (r : ResolvedAuthSession) : Type 0 where
  pub session : Session
  pub account : Account
  pub found : first_where (is_live hash now) db.sessions ≡ some session
  pub owned : first_where (is_verified_owner session) db.accounts ≡ some account
  pub answer : r ≡ record { account_id = account.id; email = account.email }
  pub same_hash : session.token_hash ≡ hash
  pub unrevoked : session.revoked_at ≡ none
  pub not_idle : now < session.idle_expires_at
  pub not_old : now < session.absolute_expires_at
  pub same_account : account.id ≡ session.account_id
  pub is_verified : account.email_verified_at ≢ none

is_live-inverse :
    (hash now : ℕ) (s : Session)
    → is_live hash now s ≡ true
    → (s.token_hash ≡ hash)
      × (s.revoked_at ≡ none)
      × (now < s.idle_expires_at)
      × (now < s.absolute_expires_at)
unfolding is_live
is_live-inverse hash now s h = ground arith

is_verified_owner-inverse :
    (s : Session) (a : Account)
    → is_verified_owner s a ≡ true
    → (a.id ≡ s.account_id) × (a.email_verified_at ≢ none)
is_verified_owner-inverse s a h = ground arith

-- A session cookie names an account only through a session row with its hash that is not revoked
-- and not past its idle or absolute expiry, and only if that account has verified its email.
pub resolve_session-IsResolved :
    (hash now : ℕ) (db : Db) (r : ResolvedAuthSession)
    → (resolve_session hash now db).0 ≡ some r
    → IsResolved hash now db r
unfolding resolve_session
resolve_session-IsResolved hash now db r h =
    let (s, a, found, owned, answer) = resolve_session_row-inverse now db _ r h in
    let (same_hash, unrevoked, not_idle, not_old) =
      is_live-inverse hash now s (first_where-passes (is_live hash now) db.sessions s found) in
    let (same_account, is_verified) =
      is_verified_owner-inverse s a
        (first_where-passes (is_verified_owner s) db.accounts a owned) in
    record {
      session = s;
      account = a;
      found = found;
      owned = owned;
      answer = answer;
      same_hash = same_hash;
      unrevoked = unrevoked;
      not_idle = not_idle;
      not_old = not_old;
      same_account = same_account;
      is_verified = is_verified;
    }

-- After a password reset that succeeded no session that was there before resolves to the account:
-- whatever cookie is sent, and whenever, the answer is no account or another one.
pub reset-logs_out :
    (i : TokenConsumption) (password_hash : ℕ) (db after : Db) (hash now : ℕ)
    (r : ResolvedAuthSession)
    → reset_password_and_revoke_sessions i password_hash db ≡ some (true, after)
    → (resolve_session hash now after).0 ≡ some r
    → r.account_id ≢ i.account_id
reset-logs_out i password_hash db after hash now r done h e =
    let v = resolve_session-IsResolved hash now after r h in
    let found = rw (reset_sessions i password_hash db after done) at v.found in
    let other = live_after_revoke hash now i.account_id i.now db.sessions v.session found in
    let same : r.account_id ≡ v.account.id =
      ap (λ (x : ResolvedAuthSession). x.account_id) v.answer in
    let owner = v.same_account in ground arith
