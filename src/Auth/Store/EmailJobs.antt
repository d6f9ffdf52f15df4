-- ===== src/Auth/Store/EmailJobs.antt =====
-- The email outbox: `PostgresEmailJobStore` of packages/database/src/auth-repository.ts, with its queries
-- in auth-queries.ts. Rows that another transaction has locked are not modelled: `skip locked` lets a
-- claim pass over them, as if they came later in the order.
pub mod Laws
pub mod Settling
use lovechapter.Prelude.{
  ℕ, zero, suc, ◌+◌, ◌*◌, ◌/◌, Bool, true, false, ◌&&◌, ◌||◌, not, Option, none, some, List, [],
  ◌∷◌, if◌then◌else◌, ltb, leb, ◌==◌,
}
use lovechapter.Auth.Types.{
  AuthTokenPurpose, same_purpose, EmailJobClaim, EmailJobCompletion, EmailJobRetry,
}
use lovechapter.Auth.Tables.{
  Account, Token, EmailJob, Db, update_where, select_where, first_where, is_null,
}

pub record ActionTokenMetadata : Type 0 where
  pub id : ℕ
  pub account_id : ℕ
  pub purpose : AuthTokenPurpose
  pub signing_key_version : ℕ
  pub expires_at_epoch_seconds : ℕ
  pub token_hash : ℕ
  pub consumed_at : Option ℕ

pub record ClaimedEmailJob : Type 0 where
  pub id : ℕ
  pub kind : AuthTokenPurpose
  pub email : ℕ
  pub idempotency_key : ℕ
  pub attempt_count : ℕ
  pub leased_until : ℕ
  pub token : ActionTokenMetadata

-- `leased_until is null or leased_until <= now`
abbrev pub lease_over : ℕ → Option ℕ → Bool
lease_over now none = true
lease_over now (some t) = leb t now

unfoldable pub is_claimable : ℕ → EmailJob → Bool
is_claimable now j =
    is_null j.sent_at
    && ltb j.attempt_count 8
    && leb j.available_at now
    && lease_over now j.leased_until

-- `order by available_at, id`
abbrev pub comes_before : EmailJob → EmailJob → Bool
comes_before a b =
    ltb a.available_at b.available_at || (a.available_at == b.available_at && leb a.id b.id)

unfoldable pub insert_in_order : EmailJob → List EmailJob → List EmailJob
insert_in_order j [] = j ∷ []
insert_in_order j (k ∷ l) =
    let rest = insert_in_order j l in if comes_before j k then j ∷ k ∷ l else k ∷ rest

unfoldable pub in_order : List EmailJob → List EmailJob
unfolding insert_in_order
in_order [] = []
in_order (j ∷ l) = insert_in_order j (in_order l)

unfoldable pub take_jobs : ℕ → List EmailJob → List EmailJob
take_jobs zero l = []
take_jobs (suc n) [] = []
take_jobs (suc n) (j ∷ l) = j ∷ take_jobs n l

-- The rows of the common table expression "claimable".
unfoldable pub claimable_jobs : EmailJobClaim → List EmailJob → List EmailJob
unfolding in_order take_jobs is_claimable
claimable_jobs i jobs = take_jobs i.limit (in_order (select_where (is_claimable i.now) jobs))

unfoldable pub has_id : ℕ → List EmailJob → Bool
has_id id [] = false
has_id id (j ∷ l) = j.id == id || has_id id l

abbrev pub lease_end : EmailJobClaim → ℕ
lease_end i = i.now + i.lease_seconds * 1000

abbrev pub claim_job : EmailJobClaim → EmailJob → EmailJob
claim_job i j = record j {
  leased_until = some (lease_end i);
  attempt_count = j.attempt_count + 1;
  updated_at = i.now;
}

-- The rows of "claimed", as they stand after the update.
unfoldable pub claim_rows : EmailJobClaim → List EmailJob → List EmailJob
unfolding claimable_jobs has_id
claim_rows i jobs = update_where (λ j. has_id j.id (claimable_jobs i jobs)) (claim_job i) jobs

-- `mapActionToken`
abbrev pub map_action_token : Token → ActionTokenMetadata
map_action_token t = record {
  id = t.id;
  account_id = t.account_id;
  purpose = t.purpose;
  signing_key_version = t.signing_key_version;
  expires_at_epoch_seconds = t.expires_at / 1000;
  token_hash = t.token_hash;
  consumed_at = t.consumed_at;
}

-- `mapClaimedEmailJob`, of a joined row; `none` when it throws.
abbrev map_joined : EmailJobClaim → EmailJob → Token → Account → Option ClaimedEmailJob
map_joined i j t a =
    if same_purpose j.kind t.purpose
    then some (record {
      id = j.id;
      kind = j.kind;
      email = a.email;
      idempotency_key = j.idempotency_key;
      attempt_count = j.attempt_count + 1;
      leased_until = lease_end i;
      token = map_action_token t;
    })
    else none

abbrev with_rest :
    Option ClaimedEmailJob → Option (List ClaimedEmailJob) → Option (List ClaimedEmailJob)
with_rest none rest = none
with_rest (some j) none = none
with_rest (some j) (some l) = some (j ∷ l)

-- The two inner joins drop a job without its token or its account.
abbrev join_row :
    EmailJobClaim
    → EmailJob
    → Option Token
    → Option Account
    → Option (List ClaimedEmailJob)
    → Option (List ClaimedEmailJob)
join_row i j none o rest = rest
join_row i j (some t) none rest = rest
join_row i j (some t) (some a) rest = with_rest (map_joined i j t a) rest

join_rows : EmailJobClaim → Db → List EmailJob → Option (List ClaimedEmailJob)
join_rows i db [] = some []
join_rows i db (j ∷ l) =
    join_row i j (first_where (λ t. t.id == j.auth_token_id) db.tokens)
      (first_where (λ a. a.id == j.account_id) db.accounts) (join_rows i db l)

-- `order by "claimed"."id"`
insert_by_id : EmailJob → List EmailJob → List EmailJob
insert_by_id j [] = j ∷ []
insert_by_id j (k ∷ l) =
    let rest = insert_by_id j l in if leb j.id k.id then j ∷ k ∷ l else k ∷ rest

by_id : List EmailJob → List EmailJob
unfolding insert_by_id
by_id [] = []
by_id (j ∷ l) = insert_by_id j (by_id l)

-- `claimEmailJobs` behind its bounds; `none` when a returned row is refused, after the update.
unfoldable pub claim_email_jobs : EmailJobClaim → Db → Option (List ClaimedEmailJob) × Db
unfolding claim_rows claimable_jobs join_rows by_id
claim_email_jobs i db =
    if ltb i.limit 1 || ltb 10 i.limit || ltb i.lease_seconds 1 then (none, db) else (
      join_rows i db (by_id (claimable_jobs i db.email_jobs)),
      record db { email_jobs = claim_rows i db.email_jobs },
    )

abbrev pub is_lease : Option ℕ → ℕ → Bool
is_lease none t = false
is_lease (some s) t = s == t

-- `where id = … and leased_until = …`: only the holder of the lease writes.
unfoldable pub holds_lease : EmailJobCompletion → EmailJob → Bool
holds_lease i j = j.id == i.id && is_lease j.leased_until i.leased_until

-- `buildMarkEmailJobSentQuery`
unfoldable pub mark_email_job_sent : EmailJobCompletion → Db → Db
unfolding holds_lease
mark_email_job_sent i db = record db {
  email_jobs =
      update_where (holds_lease i)
        (λ j. record j {
          leased_until = none;
          sent_at = some i.now;
          last_error_code = none;
          updated_at = i.now;
        })
        db.email_jobs;
}

-- `buildRetryEmailJobQuery`; the code is a number here, so the shape of its text, which `validateErrorCode`
-- tests before this statement and the next, has no counterpart.
unfoldable pub retry_email_job : EmailJobRetry → Db → Db
unfolding holds_lease
retry_email_job i db = record db {
  email_jobs =
      update_where (holds_lease i.completion)
        (λ j. record j {
          available_at = i.available_at;
          leased_until = none;
          last_error_code = some i.last_error_code;
          updated_at = i.completion.now;
        })
        db.email_jobs;
}

-- `buildFailEmailJobQuery`
unfoldable pub fail_email_job : EmailJobCompletion → ℕ → Db → Db
unfolding holds_lease
fail_email_job i last_error_code db = record db {
  email_jobs =
      update_where (holds_lease i)
        (λ j. record j {
          leased_until = none;
          attempt_count = 8;
          last_error_code = some last_error_code;
          updated_at = i.now;
        })
        db.email_jobs;
}
