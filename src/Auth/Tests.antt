-- ===== src/Auth/Tests.antt =====
-- Runs of the authentication store and service on small databases.
use lovechapter.Prelude.{
  ◌+◌, ℕ, ◌-◌, ◌≤◌, ◌<◌, ◌≡◌, ◌≢◌, refl, min, true, false, none, some, List, [], ◌∷◌, arith, All,
  inl, inr, sym, ◌∙◌,
}
use lovechapter.Text.{Text, codes, trim, trim_start, trim_end, is_space, character_length}
use lovechapter.Auth.Email.{normalize_email, split, valid_domain}
use lovechapter.Auth.Types.{
  verify_email, reset_password, ActionTokenIssue, sign_in_email, forgot_fingerprint, forgot_email,
  RateLimitAttempt, PendingRegistration, TokenConsumption, SessionCreation, ResolvedAuthSession,
  PasswordRehash, EmailJobClaim, EmailJobCompletion,
}
use lovechapter.Auth.Tables.{Account, Session, Token, EmailJob, Db, select_where}
use lovechapter.Auth.Tables.Laws.{IsRowOf}
use lovechapter.Auth.Store.RateLimits.{
  Bucket, bucket_of, consume_all, same_key, consume_rate_limit, consume_row,
}
use lovechapter.Auth.Store.RateLimits.Laws.{count_in, attempts_in, accepted_in, consume_all-accepts}
use lovechapter.Auth.Store.Sessions.{
  is_consumable, consume_email_verification, is_eligible, create_session_if_credentials_current,
  is_live, resolve_session, reset_password_and_revoke_sessions,
}
use lovechapter.Auth.Store.Sessions.Laws.{IsResolved, resolve_session-IsResolved, reset-logs_out}
use lovechapter.Auth.Store.Sessions.SingleUse.{
  HasUniqueIds, IsSpent, consume_email_verification-IsSpent, reset_password-IsSpent,
}
use lovechapter.Auth.Store.Sessions.Credentials.{
  HasWindow, reset-refuses_stale, resolve_session-HasWindow,
}
use lovechapter.Auth.Store.Issues.{
  is_valid_issue, upsert_pending_account, seed_local_user, register_pending, replace_issue,
  invalidate_tokens_and_jobs, insert_action_token, insert_email_job, queue_action_email,
  queue_password_reset,
}
use lovechapter.Auth.Store.Issues.Laws.{
  Replaces, queue_password_reset-Replaces, register_pending-Replaces,
}
use lovechapter.Auth.Store.Issues.Verified.{HasUniqueKeys, is_verified, register_pending-verified}
use lovechapter.Auth.Store.EmailJobs.{claimable_jobs, is_claimable, claim_rows}
use lovechapter.Auth.Store.EmailJobs.Laws.{IsFree, claim-IsFree}
use lovechapter.Auth.Store.EmailJobs.Settling.{sent, failed, settle, settle_once}
use lovechapter.Auth.Semaphore.{Semaphore, unused, Event, call, finish, resume, step, run_events}
use lovechapter.Auth.Semaphore.Laws.{IsBusy, run_events-IsBusy, run_events_within}
use lovechapter.Auth.Service.{Dependencies, Draw, answer, consume_limits, attempt_of}
use lovechapter.Auth.Service.Laws.{attempt_of-window}
use lovechapter.Auth.Service.Handlers.{forgot_password, prepare_issue}
use lovechapter.Auth.Service.Privacy.{DrawsFresh, forgot_password-hides}
use lovechapter.Auth.Service.SignIn.{
  CreatedSession, open_session, sign_in_verified, sign_in, sign_out, resolve_token,
}
use lovechapter.Auth.Service.SignIn.Laws.{IsSignedIn, sign_in-IsSignedIn, sign_out-resolve_token}

-- An account with the address a@b.c, whose key is numbered 5.
abbrev account : Account
account = record {
  id = 1;
  email = 5;
  email_key = 5;
  password_hash = 8;
  email_verified_at = some 10;
  credential_version = 1;
  created_at = 0;
  updated_at = 0;
}

abbrev session : Session
session = record {
  id = 2;
  account_id = 1;
  token_hash = 3;
  idle_expires_at = 1000;
  absolute_expires_at = 2000;
  last_seen_at = 0;
  revoked_at = none;
  created_at = 0;
}

abbrev reset_token : Token
reset_token = record {
  id = 4;
  account_id = 1;
  purpose = reset_password;
  token_hash = 6;
  signing_key_version = 1;
  expires_at = 900;
  consumed_at = none;
  created_at = 0;
}

abbrev verify_token : Token
verify_token = record {
  id = 7;
  account_id = 1;
  purpose = verify_email;
  token_hash = 9;
  signing_key_version = 1;
  expires_at = 900;
  consumed_at = none;
  created_at = 0;
}

abbrev queued : EmailJob
queued = record {
  id = 3;
  kind = reset_password;
  account_id = 1;
  auth_token_id = 4;
  idempotency_key = 5;
  available_at = 0;
  leased_until = none;
  attempt_count = 0;
  sent_at = none;
  last_error_code = none;
  created_at = 0;
  updated_at = 0;
}

abbrev db : Db
db = record {
  accounts = account ∷ [];
  sessions = session ∷ [];
  tokens = reset_token ∷ verify_token ∷ [];
  rate_limits = [];
  email_jobs = queued ∷ [];
  users = [];
}

abbrev attempt : RateLimitAttempt
attempt = record {
  scope = sign_in_email;
  key_hash = 5;
  bucket_started_at = 0;
  expires_at = 900000;
  limit = 2;
}

abbrev bucket : Bucket
bucket = bucket_of attempt

abbrev attempts : List RateLimitAttempt
attempts = attempt ∷ attempt ∷ attempt ∷ []

consume_all-accepts_example :
    accepted_in bucket attempts (consume_all attempts db).0
    ≡ min (2 - count_in bucket db.rate_limits) (attempts_in bucket attempts)
unfolding same_key
consume_all-accepts_example =
    consume_all-accepts bucket 2 attempts db (omega arith)
      ((λ _. refl), ((λ _. refl), ((λ _. refl), tt)))

abbrev reset_input : TokenConsumption
reset_input = record { token_id = 4; account_id = 1; token_hash = 6; now = 500 }

abbrev after_reset : Db
after_reset = record {
  accounts = record account { password_hash = 11; credential_version = 2; updated_at = 500 } ∷ [];
  sessions = record session { revoked_at = some 500 } ∷ [];
  tokens = record reset_token { consumed_at = some 500 } ∷ verify_token ∷ [];
  rate_limits = [];
  email_jobs = queued ∷ [];
  users = [];
}

reset_done : reset_password_and_revoke_sessions reset_input 11 db ≡ some (true, after_reset)
unfolding reset_password_and_revoke_sessions is_consumable
reset_done = refl

-- Another account keeps its session after the reset.
abbrev other : Account
other = record account { id = 20; email = 21; email_key = 21 }

abbrev two_accounts : Db
two_accounts = record db {
  accounts = account ∷ other ∷ [];
  sessions = session ∷ record session { id = 22; account_id = 20; token_hash = 23 } ∷ [];
}

abbrev two_after : Db
two_after = record after_reset {
  accounts =
      record account { password_hash = 11; credential_version = 2; updated_at = 500 } ∷ other ∷ [];
  sessions =
      record session { revoked_at = some 500 }
      ∷ record session { id = 22; account_id = 20; token_hash = 23 }
      ∷ [];
}

two_reset : reset_password_and_revoke_sessions reset_input 11 two_accounts ≡ some (true, two_after)
unfolding reset_password_and_revoke_sessions is_consumable
two_reset = refl

other_resolves :
    (resolve_session 23 600 two_after).0 ≡ some (record { account_id = 20; email = 21 })
unfolding resolve_session is_live
other_resolves = refl

reset-logs_out_example : ◌≢◌ {A = ℕ} 20 1
reset-logs_out_example =
    reset-logs_out reset_input 11 two_accounts two_after 23 600
      (record { account_id = 20; email = 21 }) two_reset other_resolves

unique_tokens : HasUniqueIds db.tokens
unique_tokens = ((omega arith, tt), (tt, tt))

reset_password-IsSpent_example : IsSpent 4 after_reset
reset_password-IsSpent_example =
    reset_password-IsSpent reset_input 11 db after_reset unique_tokens reset_done

abbrev verification : TokenConsumption
verification = record { token_id = 7; account_id = 1; token_hash = 9; now = 500 }

consume_email_verification-IsSpent_example :
    IsSpent 7 (consume_email_verification verification db).1
unfolding consume_email_verification is_consumable
consume_email_verification-IsSpent_example =
    consume_email_verification-IsSpent verification db unique_tokens refl

-- A sign-in that read the account before the reset.
abbrev stale : SessionCreation
stale = record {
  id = 30;
  account_id = 1;
  token_hash = 31;
  expected_credential_version = 1;
  expected_password_hash = 8;
  idle_expires_at = 2000;
  absolute_expires_at = 3000;
  now = 600;
}

reset-refuses_stale_example :
    create_session_if_credentials_current stale after_reset ≡ some (false, after_reset)
reset-refuses_stale_example =
    reset-refuses_stale reset_input 11 db after_reset stale reset_done refl ((λ _. refl), tt)

abbrev stale_rehash : PasswordRehash
stale_rehash = record {
  account_id = 1;
  expected_credential_version = 1;
  expected_password_hash = 8;
  password_hash = 12;
  now = 600;
}

abbrev resolved : ResolvedAuthSession
resolved = record { account_id = 1; email = 5 }

session_resolves : (resolve_session 3 500 db).0 ≡ some resolved
unfolding resolve_session is_live
session_resolves = refl

resolve_session-IsResolved_example : IsResolved 3 500 db resolved
resolve_session-IsResolved_example = resolve_session-IsResolved 3 500 db resolved session_resolves

resolve_session-HasWindow_example : All HasWindow (resolve_session 3 500 db).1.sessions
resolve_session-HasWindow_example = resolve_session-HasWindow 3 500 db (omega arith, tt)

abbrev issue : ActionTokenIssue
issue = record {
  token = record {
    id = 40;
    account_id = 1;
    purpose = reset_password;
    signing_key_version = 1;
    expires_at_epoch_seconds = 2;
  };
  token_hash = 41;
  job = record {
    id = 42;
    account_id = 1;
    auth_token_id = 40;
    kind = reset_password;
    idempotency_key = 43;
    available_at = 700;
  };
}

abbrev new_token : Token
new_token = record {
  id = 40;
  account_id = 1;
  purpose = reset_password;
  token_hash = 41;
  signing_key_version = 1;
  expires_at = 2000;
  consumed_at = none;
  created_at = 700;
}

abbrev new_job : EmailJob
new_job = record queued {
  id = 42;
  auth_token_id = 40;
  idempotency_key = 43;
  available_at = 700;
  created_at = 700;
  updated_at = 700;
}

abbrev after_queue : Db
after_queue = record db {
  tokens = new_token ∷ record reset_token { consumed_at = some 700 } ∷ verify_token ∷ [];
  email_jobs = new_job ∷ [];
}

reset_queued : queue_password_reset issue 5 700 db ≡ some (true, after_queue)
unfolding queue_password_reset queue_action_email is_valid_issue replace_issue
    invalidate_tokens_and_jobs insert_action_token insert_email_job
reset_queued = refl

queue_password_reset-Replaces_example :
    (a : Account) × IsRowOf db.accounts a
    × (a.email_key ≡ 5)
    × (a.email_verified_at ≢ none)
    × Replaces issue a.id reset_password 700 db after_queue
queue_password_reset-Replaces_example =
    queue_password_reset-Replaces issue 5 700 db after_queue reset_queued

abbrev registration : PendingRegistration
registration = record {
  candidate_account_id = 50;
  email = 5;
  email_key = 5;
  display_name = 51;
  password_hash = 52;
  now = 700;
}

abbrev empty : Db
empty = record {
  accounts = [];
  sessions = [];
  tokens = [];
  rate_limits = [];
  email_jobs = [];
  users = [];
}

abbrev verify_issue : ℕ → ActionTokenIssue
verify_issue id = record {
  token = record {
    id = 40;
    account_id = id;
    purpose = verify_email;
    signing_key_version = 1;
    expires_at_epoch_seconds = 2;
  };
  token_hash = 41;
  job = record {
    id = 42;
    account_id = id;
    auth_token_id = 40;
    kind = verify_email;
    idempotency_key = 43;
    available_at = 700;
  };
}

abbrev registered : Db
registered = record {
  accounts =
      record {
        id = 50;
        email = 5;
        email_key = 5;
        password_hash = 52;
        email_verified_at = none;
        credential_version = 1;
        created_at = 700;
        updated_at = 700;
      }
      ∷ [];
  sessions = [];
  tokens = record new_token { account_id = 50; purpose = verify_email } ∷ [];
  rate_limits = [];
  email_jobs = record new_job { account_id = 50; kind = verify_email } ∷ [];
  users =
      record {
        id = 50;
        auth_subject = 50;
        display_name = 51;
        email = 5;
        onboarding_completed_at = 700;
        updated_at = 700;
      }
      ∷ [];
}

registration_queued : register_pending registration verify_issue empty ≡ some (true, registered)
unfolding register_pending upsert_pending_account seed_local_user is_valid_issue replace_issue
    invalidate_tokens_and_jobs insert_action_token insert_email_job
registration_queued = refl

register_pending-Replaces_example :
    (id : ℕ) × (accounts : List Account) × (upsert_pending_account registration empty.accounts
      ≡ some (some id, accounts))
    × (registered.accounts ≡ accounts)
    × Replaces (verify_issue id) id verify_email 700 empty registered
register_pending-Replaces_example =
    register_pending-Replaces registration verify_issue empty registered registration_queued

unique_keys : HasUniqueKeys db.accounts
unique_keys a b (inl e) (inl f) same = sym e ∙ f
unique_keys a b (inl e) (inr none_left) same = elim none_left [ ]
unique_keys a b (inr none_left) g same = elim none_left [ ]

-- Someone registers beside the verified account.
abbrev beside : PendingRegistration
beside = record registration { email_key = 70 }

abbrev after_beside : Db
unfolding register_pending upsert_pending_account seed_local_user replace_issue
    invalidate_tokens_and_jobs insert_action_token insert_email_job is_valid_issue
after_beside = elim (register_pending beside verify_issue db) [ none ↦ db | some r ↦ r.1 ]

registered_beside : register_pending beside verify_issue db ≡ some (true, after_beside)
unfolding register_pending upsert_pending_account seed_local_user replace_issue
    invalidate_tokens_and_jobs insert_action_token insert_email_job is_valid_issue
registered_beside = refl

register_pending-verified_example :
    select_where is_verified after_beside.accounts ≡ select_where is_verified db.accounts
register_pending-verified_example =
    register_pending-verified beside verify_issue true db after_beside unique_keys registered_beside

abbrev lease_claim : EmailJobClaim
lease_claim = record { now = 1000; limit = 10; lease_seconds = 120 }

claim-IsFree_example :
    IsFree
      (claimable_jobs lease_claim db.email_jobs)
      (select_where (is_claimable 5000) (claim_rows lease_claim db.email_jobs))
claim-IsFree_example = claim-IsFree lease_claim 5000 db (omega arith)

abbrev completion : EmailJobCompletion
completion = record { id = 3; leased_until = 121000; now = 2000 }

settle_once_example :
    settle failed 5 completion (settle sent 0 completion db) ≡ settle sent 0 completion db
settle_once_example = settle_once sent failed 0 5 completion db

-- A service whose keyed hashes are constant or the identity.
abbrev dependencies : Dependencies
dependencies = record {
  unicode = record { nfc = λ s. s; to_lower = λ s. s; is_word = λ _. true };
  number = λ _. 5;
  rate_limit_key = λ _. 5;
  hash_session_token = λ t. t;
  hash_password = λ salt _. salt;
  verify_password = λ _ _. (true, false);
  active_version = 1;
  create = λ c. c.id;
  hash = λ t. t;
  parse = λ t. some t;
  verify = λ _ _. true;
  idempotency_key = λ j. j;
}

abbrev draw : Draw
draw = record { token_id = 60; job_id = 61; row_id = 62; salt = 63; session_token = 64 }

attempt_of-window_example :
    ((attempt_of dependencies 1000 sign_in_email (codes "x")).bucket_started_at ≤ 1000)
    × (1000 < (attempt_of dependencies 1000 sign_in_email (codes "x")).expires_at)
    × (attempt_of dependencies 899999 sign_in_email (codes "x")
        ≡ attempt_of dependencies 1000 sign_in_email (codes "x"))
unfolding attempt_of
attempt_of-window_example =
    attempt_of-window dependencies 1000 899999 sign_in_email (codes "x") (omega arith) (omega arith)

abbrev address : Text
address = codes "a@b.c"

address_valid : normalize_email dependencies.unicode address ≡ some (address, address)
unfolding normalize_email split valid_domain trim trim_start trim_end is_space character_length
address_valid = refl

draws_fresh : DrawsFresh dependencies draw reset_password 700 db
unfolding prepare_issue
draws_fresh id = record { new_token = refl; new_job = refl }

-- The same reply without the account.
forgot_password-hides_example :
    ((forgot_password dependencies draw 700 address (codes "f") db).0
      ≡ (consume_limits dependencies 700
          ((forgot_fingerprint, codes "f") ∷ (forgot_email, address) ∷ [])
          db).0)
    × ((forgot_password dependencies draw 700 address (codes "f") (record db { accounts = [] })).0
        ≡ (forgot_password dependencies draw 700 address (codes "f") db).0)
forgot_password-hides_example =
    forgot_password-hides dependencies draw 700 address (codes "f") address address db []
      draws_fresh address_valid

sign_out-resolve_token_example :
    (resolve_token dependencies 600 (some 3) (sign_out dependencies 500 (some 3) db)).0 ≡ none
sign_out-resolve_token_example = sign_out-resolve_token dependencies 500 600 3 db

abbrev created : CreatedSession
created = record { token = 64; idle_expires_at = 604800700; absolute_expires_at = 2592000700 }

abbrev after_sign_in : Db
after_sign_in = (sign_in dependencies draw 700 address (codes "secret") (codes "f") db).1

signed_in :
    sign_in dependencies draw 700 address (codes "secret") (codes "f") db
    ≡ (answer created, after_sign_in)
unfolding sign_in sign_in_verified open_session normalize_email split valid_domain trim trim_start
    trim_end is_space character_length consume_limits attempt_of consume_rate_limit consume_row
    same_key create_session_if_credentials_current is_eligible
signed_in = refl

sign_in-IsSignedIn_example :
    IsSignedIn dependencies 700 (codes "secret") 5 db.accounts created after_sign_in
sign_in-IsSignedIn_example =
    sign_in-IsSignedIn dependencies draw 700 address (codes "secret") (codes "f") address address db
      after_sign_in created address_valid signed_in

-- Two places, three calls, one end: the third call is woken and runs.
abbrev schedule : List Event
schedule = call ∷ call ∷ call ∷ finish ∷ resume ∷ []

abbrev both_taken : Semaphore
both_taken = record { active = 2; waiting = 0; woken = 0 }

schedule_runs : run_events 2 schedule unused ≡ some both_taken
unfolding run_events step
schedule_runs = refl

run_events-IsBusy_example :
    IsBusy 2 both_taken × (both_taken.active + both_taken.woken ≡ 0 → both_taken.waiting ≡ 0)
run_events-IsBusy_example = run_events-IsBusy 2 schedule both_taken (omega arith) schedule_runs

-- The same without the continuation: one operation runs, and one place is promised.
abbrev handing_over : List Event
handing_over = call ∷ call ∷ call ∷ finish ∷ []

abbrev promised : Semaphore
promised = record { active = 1; waiting = 0; woken = 1 }

hand_over : run_events 2 handing_over unused ≡ some promised
unfolding run_events step
hand_over = refl

run_events_within_example : promised.active + promised.woken ≤ 2
unfolding step
run_events_within_example =
    run_events_within 2 handing_over promised
      (refl, λ s e. (ground arith, λ t f. (ground arith, λ u g. λ v h. tt))) hand_over

-- A call that begins between a wake-up and its continuation takes the place of the woken waiter: three
-- operations run under the limit of two.
barging :
    run_events 2 (call ∷ call ∷ call ∷ finish ∷ call ∷ resume ∷ []) unused
    ≡ some (record { active = 3; waiting = 0; woken = 0 })
unfolding run_events step
barging = refl
