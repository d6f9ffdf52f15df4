-- ===== src/Jobs/Processor/Laws.antt =====
-- What `processJob` sends, and how it settles the job it was given.
use lovechapter.Prelude.{
  ℕ, zero, suc, ◌+◌, ◌-◌, ◌*◌, ◌^◌, ◌≤◌, ◌<◌, ◌≡◌, ◌≢◌, refl, Bool, true, false, ◌||◌, not, none,
  some, ◌∷◌, ◌⊎◌, inl, inr, ◌∙◌, ap, arith, Bool-cases, Option-cases, leb, eq_of_some,
}
use lovechapter.Auth.Store.EmailJobs.{ClaimedEmailJob}
use lovechapter.Auth.Store.EmailJobs.Settling.{
  Settlement, sent, retried, failed, settle, IsReleased, settle-IsReleased,
}
use lovechapter.Jobs.Processor.{
  ActionTokenCodec, ReasonCode, token_consumed, token_expired, token_invalid, provider_timeout,
  provider_rate_limited, provider_rejected, provider_unavailable, code_of, Delivery, delivered,
  delivery_error, other_error, Message, World, Outside, retry_delay, token_invalid_reason,
  completion_of, next_statement, fail_job, handle_error, finish_send, process_job, max_attempts,
}

two_pow_positive : (n : ℕ) → 1 ≤ 2 ^ n
two_pow_positive zero = omega arith
two_pow_positive (suc n) = omega (arith, two_pow_positive n)

suc_minus_one : (n : ℕ) → suc n - 1 ≡ n
suc_minus_one n = omega arith

next_power : (n : ℕ) → 2 ^ (suc (suc n) - 1) ≡ 2 * 2 ^ (suc n - 1)
next_power n = rw (suc_minus_one (suc n), suc_minus_one n) (omega arith)

-- A retry waits between 15 seconds and 15 minutes, and no attempt waits less than the one before it.
pub retry_delay_bounds :
    (n : ℕ)
    → (15000 ≤ retry_delay n) × (retry_delay n ≤ 900000) × (retry_delay n ≤ retry_delay (suc n))
unfolding retry_delay
retry_delay_bounds zero = omega arith
retry_delay_bounds (suc n) = omega (arith, two_pow_positive (suc n - 1), next_power n)

-- The code of the error that ends an attempt without a mark as sent, and whether it may be retried. A
-- message that is delivered counts as an error only where the database does not answer the mark.
abbrev pub IsCause : Bool → Delivery → ReasonCode → Bool → Type 0
IsCause answered delivered code retryable =
    (answered ≡ false) × (code ≡ provider_unavailable) × (retryable ≡ true)
IsCause answered (delivery_error c r) code retryable = (code ≡ c) × (retryable ≡ r)
IsCause answered other_error code retryable = (code ≡ provider_unavailable) × (retryable ≡ true)

-- How an attempt whose message ended in `d` may settle its job: sent, if delivered; again after the delay, if the
-- error may be retried and the attempt is one of the first seven; failed for good, if the error may not be
-- retried or the attempt is the eighth or a later one.
abbrev pub IsAllowed : ℕ → ClaimedEmailJob → Bool → Delivery → Settlement → ℕ → Type 0
IsAllowed now job answered d sent code = d ≡ delivered
IsAllowed now job answered d (retried at) code =
    (c : ReasonCode) × IsCause answered d c true
    × (code ≡ code_of c)
    × (job.attempt_count < 8)
    × (at ≡ now + retry_delay job.attempt_count)
IsAllowed now job answered d failed code =
    (c : ReasonCode) × (r : Bool) × IsCause answered d c r
    × (code ≡ code_of c)
    × ((r ≡ false) ⊎ (8 ≤ job.attempt_count))

-- The token that a message carries is unused, has not expired, and passes both checks.
pub record IsGenuine (codec : ActionTokenCodec) (now : ℕ) (m : Message) : Type 0 where
  pub unconsumed : m.job.token.consumed_at ≡ none
  pub unexpired : now < m.job.token.expires_at_epoch_seconds * 1000
  pub reconstructed : codec.reconstruct m.job.token ≡ some m.raw_token
  pub hashed : codec.hash m.raw_token ≡ m.job.token.token_hash
  pub verified : codec.verify m.raw_token m.job.token ≡ true

genuine :
    (codec : ActionTokenCodec) (now raw : ℕ) (job : ClaimedEmailJob)
    → token_invalid_reason codec now job ≡ none
    → codec.reconstruct job.token ≡ some raw
    → IsGenuine codec now (record { job = job; raw_token = raw })
unfolding token_invalid_reason
genuine codec now raw job h e = record {
  unconsumed = ground arith;
  unexpired = ground arith;
  reconstructed = e;
  hashed = ground arith;
  verified = ground arith;
}

-- The first test that the token fails.
abbrev pub IsReason : ActionTokenCodec → ℕ → ClaimedEmailJob → ReasonCode → Type 0
IsReason codec now job token_consumed = job.token.consumed_at ≢ none
IsReason codec now job token_expired =
    (job.token.consumed_at ≡ none) × (job.token.expires_at_epoch_seconds * 1000 ≤ now)
IsReason codec now job token_invalid =
    (job.token.consumed_at ≡ none)
    × (now < job.token.expires_at_epoch_seconds * 1000)
    × ((raw : ℕ) → IsGenuine codec now (record { job = job; raw_token = raw }) → ⊥)
IsReason codec now job _ = ⊥

-- Nothing is sent, and the job has failed for good.
pub record IsRefused (o : Outside) (now : ℕ) (job : ClaimedEmailJob) (w after : World)
    : Type 0 where
  pub reason : ReasonCode
  pub failing : IsReason o.codec now job reason
  pub outbox_eq : after.outbox ≡ w.outbox
  pub after_eq : after.db ≡ settle failed (code_of reason) (completion_of now job) w.db

-- One message of the job is given to the provider, and the job is settled as its delivery allows.
pub record IsTried (o : Outside) (now : ℕ) (job : ClaimedEmailJob) (w after : World) : Type 0 where
  pub raw : ℕ
  pub genuine : IsGenuine o.codec now (record { job = job; raw_token = raw })
  pub outbox_eq : after.outbox ≡ record { job = job; raw_token = raw } ∷ w.outbox
  pub way : Settlement
  pub code : ℕ
  pub allowed :
      IsAllowed now job
        (o.answers (record w { outbox = after.outbox }))
        (o.send (record { job = job; raw_token = raw }))
        way
        code
  pub after_eq : after.db ≡ settle way code (completion_of now job) w.db

refused-IsReason :
    (codec : ActionTokenCodec) (now : ℕ) (job : ClaimedEmailJob) (reason : ReasonCode)
    → token_invalid_reason codec now job ≡ some reason
    → IsReason codec now job reason
unfolding token_invalid_reason
refused-IsReason codec now job token_consumed e = λ unconsumed. ground arith
refused-IsReason codec now job token_expired e = (ground arith, ground arith)
refused-IsReason codec now job token_invalid e = (
  ground arith,
  ground arith,
  λ raw g. ground (arith, g.unconsumed, g.unexpired, g.reconstructed, g.hashed, g.verified),
)
refused-IsReason codec now job provider_timeout e = ground arith
refused-IsReason codec now job provider_rate_limited e = ground arith
refused-IsReason codec now job provider_rejected e = ground arith
refused-IsReason codec now job provider_unavailable e = ground arith

-- The result of a run from a world, if it does not throw.
record IsRun (now : ℕ) (job : ClaimedEmailJob) (CanEnd : Settlement → ℕ → Type 0) (w after : World)
    : Type 0 where
  way : Settlement
  code : ℕ
  allowed : CanEnd way code
  after_eq : after.db ≡ settle way code (completion_of now job) w.db
  outbox_eq : after.outbox ≡ w.outbox

fail_job-IsRun :
    (o : Outside) (now : ℕ) (reason : ReasonCode) (job : ClaimedEmailJob)
    (CanEnd : Settlement → ℕ → Type 0) (w after : World)
    → CanEnd failed (code_of reason)
    → fail_job o now reason job w ≡ some after
    → IsRun now job CanEnd w after
unfolding fail_job
fail_job-IsRun o now reason job CanEnd w after can h = elim (Bool-cases (o.answers w)) [
  | inl up ↦
      let e = eq_of_some _ after (rw up at h) in
      rw (← e) record {
        way = failed;
        code = code_of reason;
        allowed = can;
        after_eq = refl;
        outbox_eq = refl;
      }
  | inr down ↦ ground arith
]

handle_error-IsRun :
    (o : Outside) (now : ℕ) (code : ReasonCode) (retryable answered : Bool) (job : ClaimedEmailJob)
    (d : Delivery) (w after : World)
    → IsCause answered d code retryable
    → handle_error o now code retryable job w ≡ some after
    → IsRun now job (IsAllowed now job answered d) w after
unfolding handle_error
handle_error-IsRun o now code retryable answered job d w after cause h =
    elim (Bool-cases (not retryable || leb max_attempts job.attempt_count)) [
      | inl last ↦
          fail_job-IsRun o now code job (IsAllowed now job answered d) w after
            (code, retryable, cause, refl, ground arith) (rw last at h)
      | inr more ↦ elim (Bool-cases (o.answers w)) [
        | inl up ↦
            let e = eq_of_some _ after (rw (more, up) at h) in
            let again : retryable ≡ true = ground arith in
            rw (← e) record {
              way = retried (now + retry_delay job.attempt_count);
              code = code_of code;
              allowed = (code, rw again at cause, refl, ground arith, refl);
              after_eq = refl;
              outbox_eq = refl;
            }
        | inr down ↦ ground arith
      ]
    ]

finish_send-IsRun :
    (o : Outside) (now : ℕ) (job : ClaimedEmailJob) (d : Delivery) (w after : World)
    → finish_send o now job d w ≡ some after
    → IsRun now job (IsAllowed now job (o.answers w) d) w after
unfolding finish_send
finish_send-IsRun o now job delivered w after h = elim (Bool-cases (o.answers w)) [
  | inl up ↦
      let e = eq_of_some _ after (rw up at h) in
      rw (← e) record { way = sent; code = 0; allowed = refl; after_eq = refl; outbox_eq = refl }
  | inr down ↦
      let r =
        handle_error-IsRun o now provider_unavailable true (o.answers w) job delivered
          (next_statement w) after (down, refl, refl) (rw down at h) in
      record {
        way = r.way;
        code = r.code;
        allowed = r.allowed;
        after_eq = r.after_eq;
        outbox_eq = r.outbox_eq;
      }
]
finish_send-IsRun o now job (delivery_error code retryable) w after h =
    handle_error-IsRun o now code retryable (o.answers w) job (delivery_error code retryable) w
      after (refl, refl) h
finish_send-IsRun o now job other_error w after h =
    handle_error-IsRun o now provider_unavailable true (o.answers w) job other_error w after
      (refl, refl) h

-- A run that does not throw refuses a token that is used, expired or not genuine, sends nothing then and fails
-- the job with the code of that reason; or it gives the provider exactly one message, of this job, with its
-- genuine token, and settles the job as the delivery demands: sent only if delivered; scheduled after the delay
-- of the attempt only if the error may be retried and the attempt is below the eighth; failed for good only if
-- it may not be retried or the attempt is at least the eighth, with the code of the error in both cases.
pub process_job-settles :
    (o : Outside) (now : ℕ) (job : ClaimedEmailJob) (w after : World)
    → process_job o now job w ≡ some after
    → IsRefused o now job w after ⊎ IsTried o now job w after
unfolding process_job
process_job-settles o now job w after h =
    elim (Option-cases (token_invalid_reason o.codec now job)) [
      | inr (reason, bad) ↦
          let CanEnd : Settlement → ℕ → Type 0 =
            λ way code. (way ≡ failed) × (code ≡ code_of reason) in
          let r = fail_job-IsRun o now reason job CanEnd w after (refl, refl) (rw bad at h) in
          inl record {
            reason = reason;
            failing = refused-IsReason o.codec now job reason bad;
            outbox_eq = r.outbox_eq;
            after_eq =
                r.after_eq
                ∙ ap (λ way. settle way r.code (completion_of now job) w.db) r.allowed.0
                ∙ ap (λ code. settle failed code (completion_of now job) w.db) r.allowed.1;
          }
      | inl good ↦ elim (Option-cases (o.codec.reconstruct job.token)) [
        | inl e ↦ ground arith
        | inr (raw, e) ↦
            let m : Message = record { job = job; raw_token = raw } in
            let tried : World = record w { outbox = m ∷ w.outbox } in
            let r = finish_send-IsRun o now job (o.send m) tried after (rw (good, e) at h) in
            inr record {
              raw = raw;
              genuine = genuine o.codec now raw job good e;
              outbox_eq = r.outbox_eq;
              way = r.way;
              code = r.code;
              allowed = rw r.outbox_eq r.allowed;
              after_eq = r.after_eq;
            }
      ]
    ]

-- After a run that does not throw, no row holds the lease under which the job was claimed.
pub process_job-IsReleased :
    (o : Outside) (now : ℕ) (job : ClaimedEmailJob) (w after : World)
    → process_job o now job w ≡ some after
    → IsReleased (completion_of now job) after.db
process_job-IsReleased o now job w after h = elim (process_job-settles o now job w after h) [
  | inl r ↦ rw r.after_eq (settle-IsReleased failed (code_of r.reason) (completion_of now job) w.db)
  | inr r ↦ rw r.after_eq (settle-IsReleased r.way r.code (completion_of now job) w.db)
]

handle_error-returns :
    (o : Outside) (now : ℕ) (code : ReasonCode) (retryable : Bool) (job : ClaimedEmailJob)
    (w : World)
    → ((v : World) → o.answers v ≡ true)
    → handle_error o now code retryable job w ≢ none
unfolding handle_error fail_job
handle_error-returns o now code retryable job w h = ground (arith, h w)

finish_send-returns :
    (o : Outside) (now : ℕ) (job : ClaimedEmailJob) (d : Delivery) (w : World)
    → ((v : World) → o.answers v ≡ true)
    → finish_send o now job d w ≢ none
unfolding finish_send
finish_send-returns o now job delivered w h = ground (arith, h w)
finish_send-returns o now job (delivery_error code r) w h =
    handle_error-returns o now code r job w h
finish_send-returns o now job other_error w h =
    handle_error-returns o now provider_unavailable true job w h

reconstructs :
    (codec : ActionTokenCodec) (now : ℕ) (job : ClaimedEmailJob)
    → token_invalid_reason codec now job ≡ none
    → codec.reconstruct job.token ≢ none
unfolding token_invalid_reason
reconstructs codec now job h e = ground arith

-- Where the database answers, a run does not throw, whatever the codec and the provider do.
pub process_job-returns :
    (o : Outside) (now : ℕ) (job : ClaimedEmailJob) (w : World)
    → ((v : World) → o.answers v ≡ true)
    → process_job o now job w ≢ none
unfolding process_job fail_job
process_job-returns o now job w h = elim (Option-cases (token_invalid_reason o.codec now job)) [
  | inr (reason, bad) ↦ rw (bad, h w) (λ e. cc)
  | inl good ↦ elim (Option-cases (o.codec.reconstruct job.token)) [
    | inl e ↦ (λ _. reconstructs o.codec now job good e)
    | inr (raw, e) ↦ rw (good, e) (finish_send-returns o now job _ _ h)
  ]
]
