-- ===== src/Jobs/Processor.antt =====
-- `processJob` of apps/jobs/src/processor.ts, over the email job store. The token codec and the mail
-- provider are parameters; the text of the message is its job and its raw token.
pub mod Laws
use lovechapter.Prelude.{
  ℕ, ◌+◌, ◌-◌, ◌*◌, ◌^◌, min, Bool, true, false, ◌||◌, not, Option, none, some, List, [], ◌∷◌,
  if◌then◌else◌, ltb, leb, ◌==◌,
}
use lovechapter.Auth.Types.{EmailJobCompletion, EmailJobRetry}
use lovechapter.Auth.Tables.{Db}
use lovechapter.Auth.Store.EmailJobs.{
  ActionTokenMetadata, ClaimedEmailJob, mark_email_job_sent, retry_email_job, fail_email_job,
}

-- `ActionTokenCodec`, as the processor uses it; `none` where `reconstruct` throws
pub record ActionTokenCodec : Type 0 where
  pub reconstruct : ActionTokenMetadata → Option ℕ
  pub hash : ℕ → ℕ
  pub verify : ℕ → ActionTokenMetadata → Bool

pub data ReasonCode : Type 0 where
  token_consumed token_expired token_invalid : ReasonCode
  provider_timeout provider_rate_limited provider_rejected provider_unavailable : ReasonCode

-- The column that holds the code is text; its values are numbered here.
abbrev pub code_of : ReasonCode → ℕ
code_of token_consumed = 0
code_of token_expired = 1
code_of token_invalid = 2
code_of provider_timeout = 3
code_of provider_rate_limited = 4
code_of provider_rejected = 5
code_of provider_unavailable = 6

-- What `sender.send` does: it returns, or throws an `EmailDeliveryError` or another error.
pub data Delivery : Type 0 where
  delivered : Delivery
  delivery_error : ReasonCode → Bool → Delivery
  other_error : Delivery

pub record Message : Type 0 where
  pub job : ClaimedEmailJob
  pub raw_token : ℕ

-- The database, the number of statements tried, and the messages given to the provider, latest first.
pub record World : Type 0 where
  pub db : Db
  pub statements : ℕ
  pub outbox : List Message

-- The codec, the provider, and whether the database answers a statement tried in a world.
pub record Outside : Type 0 where
  pub codec : ActionTokenCodec
  pub send : Message → Delivery
  pub answers : World → Bool

abbrev pub max_attempts : ℕ
max_attempts = 8

unfoldable pub retry_delay : ℕ → ℕ
retry_delay attempt_count = min (15000 * 2 ^ (attempt_count - 1)) 900000

-- Hash and signature of the token that the codec gives back.
abbrev check_token : ActionTokenCodec → ActionTokenMetadata → Option ℕ → Option ReasonCode
check_token codec t none = some token_invalid
check_token codec t (some raw) =
    if not (codec.hash raw == t.token_hash) || not (codec.verify raw t)
    then some token_invalid
    else none

abbrev if_unconsumed : Option ℕ → Option ReasonCode → Option ReasonCode
if_unconsumed none o = o
if_unconsumed (some _) o = some token_consumed

unfoldable pub token_invalid_reason : ActionTokenCodec → ℕ → ClaimedEmailJob → Option ReasonCode
token_invalid_reason codec now job = if_unconsumed job.token.consumed_at (
    if leb (job.token.expires_at_epoch_seconds * 1000) now
    then some token_expired
    else check_token codec job.token (codec.reconstruct job.token))

abbrev pub completion_of : ℕ → ClaimedEmailJob → EmailJobCompletion
completion_of now job = record { id = job.id; leased_until = job.leased_until; now = now }

abbrev pub next_statement : World → World
next_statement w = record w { statements = w.statements + 1 }

-- A statement on the database, which throws where the database does not answer.
abbrev pub write : Outside → (Db → Db) → World → Option World
write o f w = if o.answers w then some (record (next_statement w) { db = f w.db }) else none

unfoldable pub fail_job : Outside → ℕ → ReasonCode → ClaimedEmailJob → World → Option World
fail_job o now reason job = write o (fail_email_job (completion_of now job) (code_of reason))

-- The handler of an error, of the provider or of the database.
unfoldable pub handle_error :
    Outside → ℕ → ReasonCode → Bool → ClaimedEmailJob → World → Option World
unfolding fail_job retry_delay
handle_error o now code retryable job w =
    if not retryable || leb max_attempts job.attempt_count
    then fail_job o now code job w
    else write o
        (retry_email_job (record {
          completion = completion_of now job;
          available_at = now + retry_delay job.attempt_count;
          last_error_code = code_of code;
        }))
        w

-- `markEmailJobSent`; when it throws, the same handler runs.
unfoldable pub finish_send : Outside → ℕ → ClaimedEmailJob → Delivery → World → Option World
unfolding handle_error
finish_send o now job delivered w =
    if o.answers w
    then some (record (next_statement w) { db = mark_email_job_sent (completion_of now job) w.db })
    else handle_error o now provider_unavailable true job (next_statement w)
finish_send o now job (delivery_error code retryable) w = handle_error o now code retryable job w
finish_send o now job other_error w = handle_error o now provider_unavailable true job w

abbrev send_message : Outside → ℕ → ClaimedEmailJob → Option ℕ → World → Option World
send_message o now job none w = none
send_message o now job (some raw) w =
    let m : Message = record { job = job; raw_token = raw } in
    finish_send o now job (o.send m) (record w { outbox = m ∷ w.outbox })

abbrev if_valid : Option ReasonCode → (ReasonCode → Option World) → Option World → Option World
if_valid none fail go = go
if_valid (some reason) fail go = fail reason

-- `processJob`; `none` when it throws.
unfoldable pub process_job : Outside → ℕ → ClaimedEmailJob → World → Option World
unfolding token_invalid_reason fail_job finish_send
process_job o now job w =
    if_valid (token_invalid_reason o.codec now job) (λ reason. fail_job o now reason job w)
      (send_message o now job (o.codec.reconstruct job.token) w)
