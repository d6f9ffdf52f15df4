-- ===== src/Jobs/Tests.antt =====
-- Runs of the job processor on one claimed job.
use lovechapter.Prelude.{◌≡◌, ◌≢◌, refl, true, false, ◌⊎◌, none, some, [], ◌∷◌, All}
use lovechapter.Auth.Types.{verify_email}
use lovechapter.Auth.Tables.{EmailJob}
use lovechapter.Auth.Store.EmailJobs.{ActionTokenMetadata, ClaimedEmailJob, mark_email_job_sent}
use lovechapter.Jobs.Processor.{
  delivered, World, Outside, completion_of, process_job, token_invalid_reason, finish_send,
}
use lovechapter.Jobs.Processor.Laws.{IsRefused, IsTried, process_job-settles, process_job-returns}
use lovechapter.Jobs.Loop.{
  lease, Round, Loop, start, run_job_loop, round, cleanup, run_admitted_batch,
}
use lovechapter.Jobs.Loop.Laws.{IsDelay, AreSpaced, run_job_loop_bounds}

abbrev token : ActionTokenMetadata
token = record {
  id = 1;
  account_id = 2;
  purpose = verify_email;
  signing_key_version = 1;
  expires_at_epoch_seconds = 10;
  token_hash = 7;
  consumed_at = none;
}

abbrev job : ClaimedEmailJob
job = record {
  id = 3;
  kind = verify_email;
  email = 4;
  idempotency_key = 5;
  attempt_count = 2;
  leased_until = 9000;
  token = token;
}

abbrev row : EmailJob
row = record {
  id = 3;
  kind = verify_email;
  account_id = 2;
  auth_token_id = 1;
  idempotency_key = 5;
  available_at = 0;
  leased_until = some 9000;
  attempt_count = 2;
  sent_at = none;
  last_error_code = none;
  created_at = 0;
  updated_at = 0;
}

abbrev world : World
world = record {
  db = record {
    accounts = [];
    sessions = [];
    tokens = [];
    rate_limits = [];
    email_jobs = row ∷ [];
    users = [];
  };
  statements = 0;
  outbox = [];
}

abbrev outside : Outside
outside = record {
  codec = record { reconstruct = λ _. some 6; hash = λ _. 7; verify = λ _ _. true };
  send = λ _. delivered;
  answers = λ _. true;
}

abbrev after : World
after = record {
  db = mark_email_job_sent (completion_of 5000 job) world.db;
  statements = 1;
  outbox = record { job = job; raw_token = 6 } ∷ [];
}

process_job-sends : process_job outside 5000 job world ≡ some after
unfolding process_job token_invalid_reason finish_send
process_job-sends = refl

process_job-settles_example :
    IsRefused outside 5000 job world after ⊎ IsTried outside 5000 job world after
process_job-settles_example = process_job-settles outside 5000 job world after process_job-sends

process_job-returns_example : process_job outside 5000 job world ≢ none
process_job-returns_example = process_job-returns outside 5000 job world (λ _. refl)

-- An idle round at 900 s with an open gate.
abbrev idle_round : Round
idle_round = record {
  now = 900000;
  cleanup_gate = lease 1;
  cleanup_returns = true;
  cleanup_releases = true;
  aborted_after_cleanup = false;
  email_gate = lease 2;
  email_returns = true;
  email_releases = true;
  processed = 0;
  aborted_after_email = false;
  sleep_returns = true;
}

abbrev after_rounds : Loop
after_rounds = record {
  idle_delay = 1000;
  last_cleanup_at = some 900000;
  slept = 500 ∷ 250 ∷ [];
  cleaned = 900000 ∷ [];
}

two_rounds : run_job_loop (idle_round ∷ idle_round ∷ []) start ≡ some after_rounds
unfolding run_job_loop round cleanup run_admitted_batch
two_rounds = refl

run_job_loop_bounds_example : All IsDelay (500 ∷ 250 ∷ []) × AreSpaced (900000 ∷ [])
run_job_loop_bounds_example =
    run_job_loop_bounds (idle_round ∷ idle_round ∷ []) after_rounds two_rounds
