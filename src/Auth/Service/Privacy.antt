-- ===== src/Auth/Service/Privacy.antt =====
-- The replies of `forgotPassword` and `resendVerificationEmail`, next to those of the rate limits.
use lovechapter.Prelude.{
  ℕ, ◌≡◌, refl, true, false, Option, none, some, List, [], ◌∷◌, inl, inr, Bool-cases, arith, sym,
  ◌∙◌, is_empty,
}
use mathlib.Core.Path.{subst}
use lovechapter.Text.{Text}
use lovechapter.Auth.Email.{normalize_email}
use lovechapter.Auth.Types.{
  AuthTokenPurpose, verify_email, reset_password, AuthRateLimitScope, verification_fingerprint,
  verification_email, forgot_fingerprint, forgot_email, RateLimitAttempt,
}
use lovechapter.Auth.Tables.{Account, Db, is_null, RateLimit}
use lovechapter.Auth.Store.RateLimits.{consume_rate_limit}
use lovechapter.Auth.Store.Issues.{is_valid_issue, queue_verification_email, queue_password_reset}
use lovechapter.Auth.Store.Issues.Fresh.{IsFresh, queue_action_email-IsFresh}
use lovechapter.Auth.Service.{
  Dependencies, Draw, Reply, answer, error, Handler, then_do, consume_limits, attempt_of,
}
use lovechapter.Auth.Service.Handlers.{
  forgot_password, resend_verification_email, queue_reset, queue_verification, prepare_issue,
  accepted, find_account_by_email_key,
}

-- The limits write their own table only.
consume_limits-kept :
    (d : Dependencies) (now : ℕ) (values : List (AuthRateLimitScope × Text)) (db : Db)
    → (rows : List RateLimit) × ((consume_limits d now values db).1
        ≡ record db { rate_limits = rows })
unfolding consume_limits consume_rate_limit
consume_limits-kept d now [] db = (db.rate_limits, refl)
consume_limits-kept d now ((scope, value) ∷ values) db =
    let attempt : RateLimitAttempt = attempt_of d now scope value in
    let mid = (consume_rate_limit attempt db).1 in
    elim (Bool-cases (is_empty value)) [
      | inl empty ↦ rw empty (db.rate_limits, refl)
      | inr given ↦ elim (Bool-cases (consume_rate_limit attempt db).0) [
        | inl accepted ↦ rw (given, accepted) (consume_limits-kept d now values mid)
        | inr refused ↦ rw (given, refused) (mid.rate_limits, refl)
      ]
    ]

-- The limits do not read the accounts.
consume_limits-accounts_lem :
    (d : Dependencies) (now : ℕ) (values : List (AuthRateLimitScope × Text))
    (accounts : List Account) (db : Db)
    → (consume_limits d now values (record db { accounts = accounts })).0
      ≡ (consume_limits d now values db).0
unfolding consume_limits consume_rate_limit
consume_limits-accounts_lem d now [] accounts db = refl
consume_limits-accounts_lem d now ((scope, value) ∷ values) accounts db =
    let attempt : RateLimitAttempt = attempt_of d now scope value in
    let mid = (consume_rate_limit attempt db).1 in
    elim (Bool-cases (is_empty value)) [
      | inl empty ↦ rw empty refl
      | inr given ↦ elim (Bool-cases (consume_rate_limit attempt db).0) [
        | inl accepted ↦
            rw (given, accepted) (consume_limits-accounts_lem d now values accounts mid)
        | inr refused ↦ rw (given, refused) refl
      ]
    ]

prepared_valid :
    (d : Dependencies) (draw : Draw) (p : AuthTokenPurpose) (now account_id : ℕ)
    → is_valid_issue (prepare_issue d draw p now account_id) account_id p ≡ true
unfolding is_valid_issue prepare_issue
prepared_valid d draw verify_email now account_id = ground arith
prepared_valid d draw reset_password now account_id = ground arith

-- What a call draws is new: no issue that it can prepare clashes with a row.
abbrev pub DrawsFresh : Dependencies → Draw → AuthTokenPurpose → ℕ → Db → Type 0
DrawsFresh d draw p now db = (account_id : ℕ) → IsFresh (prepare_issue d draw p now account_id) db

queue_reset-accepts :
    (d : Dependencies) (draw : Draw) (now key : ℕ) (o : Option Account) (db : Db)
    → find_account_by_email_key key db ≡ o
    → DrawsFresh d draw reset_password now db
    → (queue_reset d draw now key o db).0 ≡ answer tt
unfolding queue_password_reset
queue_reset-accepts d draw now key none db found fresh = refl
queue_reset-accepts d draw now key (some a) db found fresh =
    elim (Bool-cases (is_null a.email_verified_at)) [
      | inl pending ↦ rw pending refl
      | inr known ↦
          let (after, done) =
            queue_action_email-IsFresh (prepare_issue d draw reset_password now a.id) key now
              reset_password true a db found known (prepared_valid d draw reset_password now a.id)
              (fresh a.id) in
          rw (known, done) refl
    ]

queue_verification-accepts :
    (d : Dependencies) (draw : Draw) (now key : ℕ) (o : Option Account) (db : Db)
    → find_account_by_email_key key db ≡ o
    → DrawsFresh d draw verify_email now db
    → (queue_verification d draw now key o db).0 ≡ answer tt
unfolding queue_verification_email
queue_verification-accepts d draw now key none db found fresh = refl
queue_verification-accepts d draw now key (some a) db found fresh =
    elim (Bool-cases (is_null a.email_verified_at)) [
      | inl pending ↦
          let (after, done) =
            queue_action_email-IsFresh (prepare_issue d draw verify_email now a.id) key now
              verify_email false a db found pending (prepared_valid d draw verify_email now a.id)
              (fresh a.id) in
          rw (pending, done) refl
      | inr known ↦ rw known refl
    ]

then-accepts :
    (r : Reply (Unit {0}) × Db) (k : Handler (Unit {0})) (db : Db)
    → (k r.1).0 ≡ answer tt
    → (then_do (λ _. r) (λ _. k) db).0 ≡ r.0
then-accepts (answer tt, mid) k db h = h
then-accepts (error e, mid) k db h = refl

-- Behind the limits, what is drawn is as new as before them.
consume_limits-DrawsFresh :
    (d : Dependencies) (draw : Draw) (p : AuthTokenPurpose) (now : ℕ)
    (values : List (AuthRateLimitScope × Text)) (db : Db)
    → DrawsFresh d draw p now db
    → DrawsFresh d draw p now (consume_limits d now values db).1
consume_limits-DrawsFresh d draw p now values db fresh =
    let (rows, kept) = consume_limits-kept d now values db in
    subst (DrawsFresh d draw p now) (sym kept)
      (λ id. record { new_token = (fresh id).new_token; new_job = (fresh id).new_job })

forgot_password-limits :
    (d : Dependencies) (draw : Draw) (now : ℕ) (address fingerprint email key : Text) (db : Db)
    → DrawsFresh d draw reset_password now db
    → normalize_email d.unicode address ≡ some (email, key)
    → (forgot_password d draw now address fingerprint db).0
      ≡ (consume_limits d now ((forgot_fingerprint, fingerprint) ∷ (forgot_email, key) ∷ []) db).0
unfolding forgot_password
forgot_password-limits d draw now address fingerprint email key db fresh n =
    let mid =
      (consume_limits d now ((forgot_fingerprint, fingerprint) ∷ (forgot_email, key) ∷ []) db).1 in
    rw n (
      then-accepts
        (consume_limits d now ((forgot_fingerprint, fingerprint) ∷ (forgot_email, key) ∷ []) db)
        (λ mid.
          queue_reset d draw now (d.number key) (find_account_by_email_key (d.number key) mid) mid)
        db
        (queue_reset-accepts d draw now (d.number key)
          (find_account_by_email_key (d.number key) mid) mid refl
          (consume_limits-DrawsFresh d draw reset_password now
            ((forgot_fingerprint, fingerprint) ∷ (forgot_email, key) ∷ []) db fresh)))

-- For a valid address, `forgotPassword` replies what the rate limits alone reply, and it replies the same with any
-- other table of accounts: with the account of the address, without it, verified or pending. What the call
-- draws is new: no row has the identifier or the hash of a token that it can prepare, or the identifier
-- or the idempotency key of the job.
pub forgot_password-hides :
    (d : Dependencies) (draw : Draw) (now : ℕ) (address fingerprint email key : Text) (db : Db)
    (accounts : List Account)
    → DrawsFresh d draw reset_password now db
    → normalize_email d.unicode address ≡ some (email, key)
    → ((forgot_password d draw now address fingerprint db).0
        ≡ (consume_limits d now
            ((forgot_fingerprint, fingerprint) ∷ (forgot_email, key) ∷ [])
            db).0)
      × ((forgot_password d draw now address fingerprint (record db { accounts = accounts })).0
          ≡ (forgot_password d draw now address fingerprint db).0)
forgot_password-hides d draw now address fingerprint email key db accounts fresh n =
    let alone = forgot_password-limits d draw now address fingerprint email key db fresh n in
    let other =
      forgot_password-limits d draw now address fingerprint email key
        (record db { accounts = accounts })
        (λ id. record { new_token = (fresh id).new_token; new_job = (fresh id).new_job }) n in
    (
      alone,
      other
          ∙ consume_limits-accounts_lem d now
              ((forgot_fingerprint, fingerprint) ∷ (forgot_email, key) ∷ []) accounts db
          ∙ sym alone,
    )

resend_verification_email-limits :
    (d : Dependencies) (draw : Draw) (now : ℕ) (address fingerprint email key : Text) (db : Db)
    → DrawsFresh d draw verify_email now db
    → normalize_email d.unicode address ≡ some (email, key)
    → (resend_verification_email d draw now address fingerprint db).0
      ≡ (consume_limits d now
          ((verification_fingerprint, fingerprint) ∷ (verification_email, key) ∷ [])
          db).0
unfolding resend_verification_email
resend_verification_email-limits d draw now address fingerprint email key db fresh n =
    let mid =
      (consume_limits d now
        ((verification_fingerprint, fingerprint) ∷ (verification_email, key) ∷ []) db).1 in
    rw n (
      then-accepts
        (consume_limits d now
          ((verification_fingerprint, fingerprint) ∷ (verification_email, key) ∷ []) db)
        (λ mid.
          queue_verification d draw now (d.number key)
            (find_account_by_email_key (d.number key) mid) mid)
        db
        (queue_verification-accepts d draw now (d.number key)
          (find_account_by_email_key (d.number key) mid) mid refl
          (consume_limits-DrawsFresh d draw verify_email now
            ((verification_fingerprint, fingerprint) ∷ (verification_email, key) ∷ []) db fresh)))

-- The same of `resendVerificationEmail`.
pub resend_verification_email-hides :
    (d : Dependencies) (draw : Draw) (now : ℕ) (address fingerprint email key : Text) (db : Db)
    (accounts : List Account)
    → DrawsFresh d draw verify_email now db
    → normalize_email d.unicode address ≡ some (email, key)
    → ((resend_verification_email d draw now address fingerprint db).0
        ≡ (consume_limits d now
            ((verification_fingerprint, fingerprint) ∷ (verification_email, key) ∷ [])
            db).0)
      × ((resend_verification_email d draw now address fingerprint
            (record db { accounts = accounts })).0
          ≡ (resend_verification_email d draw now address fingerprint db).0)
resend_verification_email-hides d draw now address fingerprint email key db accounts fresh n =
    let alone =
      resend_verification_email-limits d draw now address fingerprint email key db fresh n in
    let other =
      resend_verification_email-limits d draw now address fingerprint email key
        (record db { accounts = accounts })
        (λ id. record { new_token = (fresh id).new_token; new_job = (fresh id).new_job }) n in
    (
      alone,
      other
          ∙ consume_limits-accounts_lem d now
              ((verification_fingerprint, fingerprint) ∷ (verification_email, key) ∷ []) accounts db
          ∙ sym alone,
    )
