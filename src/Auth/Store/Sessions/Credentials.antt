-- ===== src/Auth/Store/Sessions/Credentials.antt =====
-- Credentials that a password reset has replaced, and the sliding window of a session.
use lovechapter.Prelude.{
  ℕ, ◌≤◌, ◌≡◌, refl, true, false, [], ◌∷◌, List, arith, All, ◌==◌, some, Option, none,
}
use lovechapter.Auth.Types.{SessionCreation, TokenConsumption, PasswordRehash}
use lovechapter.Auth.Tables.{Account, Session, Db, update_where, exists_where}
use lovechapter.Auth.Tables.Laws.{update_where_none}
use lovechapter.Auth.Store.Sessions.{
  account_where, with_password, is_eligible, is_current, create_session_if_credentials_current,
  rehash_password_if_current, reset_password_and_revoke_sessions, resolve_session, resolve_row,
  resolve_session_row, refreshed,
}
use lovechapter.Auth.Store.Sessions.Laws.{reset_accounts}

-- The account of this id has this credential version.
abbrev pub HasVersion : ℕ → ℕ → List Account → Type 0
HasVersion id version l = All (λ a. a.id ≡ id → a.credential_version ≡ version) l

none_eligible :
    (c : SessionCreation) (hash now : ℕ) (l : List Account)
    → HasVersion c.account_id c.expected_credential_version l
    → exists_where
        (is_eligible c)
        (update_where (account_where c.account_id) (with_password hash now) l)
      ≡ false
unfolding is_eligible
none_eligible c hash now [] h = refl
none_eligible c hash now (a ∷ l) h = ground (arith, none_eligible c hash now l h.1)

none_current :
    (c : PasswordRehash) (hash now : ℕ) (l : List Account)
    → HasVersion c.account_id c.expected_credential_version l
    → exists_where
        (is_current c)
        (update_where (account_where c.account_id) (with_password hash now) l)
      ≡ false
unfolding is_current
none_current c hash now [] h = refl
none_current c hash now (a ∷ l) h = ground (arith, none_current c hash now l h.1)

-- A sign-in that has read the account before a password reset gets no session after it, even if the
-- reset set the same password hash: the credential version that it expects is gone.
pub reset-refuses_stale :
    (i : TokenConsumption) (hash : ℕ) (db after : Db) (c : SessionCreation)
    → reset_password_and_revoke_sessions i hash db ≡ some (true, after)
    → c.account_id ≡ i.account_id
    → HasVersion c.account_id c.expected_credential_version db.accounts
    → create_session_if_credentials_current c after ≡ some (false, after)
unfolding create_session_if_credentials_current
reset-refuses_stale i hash db after c done same v =
    let gone : exists_where (is_eligible c) after.accounts ≡ false =
      rw (reset_accounts i hash db after done, ← same) (none_eligible c hash i.now db.accounts v) in
    rw gone

-- Nor does such a sign-in replace the new password hash by a rehash of the old password.
pub reset-refuses_rehash :
    (i : TokenConsumption) (hash : ℕ) (db after : Db) (c : PasswordRehash)
    → reset_password_and_revoke_sessions i hash db ≡ some (true, after)
    → c.account_id ≡ i.account_id
    → HasVersion c.account_id c.expected_credential_version db.accounts
    → ((rehash_password_if_current c after).0 ≡ false)
      × ((rehash_password_if_current c after).1.accounts ≡ after.accounts)
unfolding rehash_password_if_current
reset-refuses_rehash i hash db after c done same v =
    let gone : exists_where (is_current c) after.accounts ≡ false =
      rw (reset_accounts i hash db after done, ← same) (none_current c hash i.now db.accounts v) in
    (gone, update_where_none (is_current c) _ after.accounts gone)

-- A session never outlives its absolute expiry by its idle one.
abbrev pub HasWindow : Session → Type 0
HasWindow s = s.idle_expires_at ≤ s.absolute_expires_at

refresh-HasWindow :
    (now id : ℕ) (l : List Session)
    → All HasWindow l
    → All HasWindow (update_where (λ s. s.id == id) (refreshed now) l)
refresh-HasWindow now id [] h = tt
refresh-HasWindow now id (s ∷ l) h = ground (arith, refresh-HasWindow now id l h.1)

resolve_row-HasWindow :
    (now : ℕ) (db : Db) (s : Session) (o : Option Account)
    → All HasWindow db.sessions
    → All HasWindow (resolve_row now db s o).1.sessions
resolve_row-HasWindow now db s none h = h
resolve_row-HasWindow now db s (some a) h = refresh-HasWindow now s.id db.sessions h

resolve_session_row-HasWindow :
    (now : ℕ) (db : Db) (o : Option Session)
    → All HasWindow db.sessions
    → All HasWindow (resolve_session_row now db o).1.sessions
resolve_session_row-HasWindow now db none h = h
resolve_session_row-HasWindow now db (some s) h = resolve_row-HasWindow now db s _ h

-- Using a session slides its idle expiry at most up to its absolute expiry.
pub resolve_session-HasWindow :
    (hash now : ℕ) (db : Db)
    → All HasWindow db.sessions
    → All HasWindow (resolve_session hash now db).1.sessions
unfolding resolve_session
resolve_session-HasWindow hash now db h = resolve_session_row-HasWindow now db _ h
