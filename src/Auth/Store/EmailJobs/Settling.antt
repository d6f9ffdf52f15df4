-- ===== src/Auth/Store/EmailJobs/Settling.antt =====
-- The settlement of a leased job.
use lovechapter.Prelude.{ℕ, ◌≡◌, refl, false, none, List, [], ◌∷◌, arith, inl, inr, Bool-cases, ap}
use lovechapter.Auth.Types.{EmailJobCompletion}
use lovechapter.Auth.Tables.{EmailJob, Db, update_where, exists_where}
use lovechapter.Auth.Tables.Laws.{update_where_none}
use lovechapter.Auth.Store.EmailJobs.{
  holds_lease, mark_email_job_sent, retry_email_job, fail_email_job,
}

-- The three ways in which the holder of a lease ends it.
pub data Settlement : Type 0 where
  sent : Settlement
  retried : ℕ → Settlement
  failed : Settlement

-- A completion is settled by marking, by retrying at a time with a code, or by failing with a code.
abbrev pub settle : Settlement → ℕ → EmailJobCompletion → Db → Db
settle sent code i db = mark_email_job_sent i db
settle (retried at) code i db =
    retry_email_job (record { completion = i; available_at = at; last_error_code = code }) db
settle failed code i db = fail_email_job i code db

-- No row of the table holds the lease.
abbrev pub IsReleased : EmailJobCompletion → Db → Type 0
IsReleased i db = exists_where (holds_lease i) db.email_jobs ≡ false

unleased : (i : EmailJobCompletion) (j : EmailJob) → j.leased_until ≡ none → holds_lease i j ≡ false
unfolding holds_lease
unleased i j h = ground arith

updated-released :
    (i : EmailJobCompletion) (f : EmailJob → EmailJob) (jobs : List EmailJob)
    → ((j : EmailJob) → (f j).leased_until ≡ none)
    → exists_where (holds_lease i) (update_where (holds_lease i) f jobs) ≡ false
updated-released i f [] h = refl
updated-released i f (j ∷ jobs) h = elim (Bool-cases (holds_lease i j)) [
  | inl hit ↦ rw (hit, unleased i (f j) (h j)) (updated-released i f jobs h)
  | inr miss ↦ rw (miss, miss) (updated-released i f jobs h)
]

-- Marking, retrying and failing each release the lease.
pub settle-IsReleased :
    (s : Settlement) (code : ℕ) (i : EmailJobCompletion) (db : Db)
    → IsReleased i (settle s code i db)
unfolding mark_email_job_sent retry_email_job fail_email_job
settle-IsReleased sent code i db = updated-released i _ db.email_jobs (λ j. refl)
settle-IsReleased (retried at) code i db = updated-released i _ db.email_jobs (λ j. refl)
settle-IsReleased failed code i db = updated-released i _ db.email_jobs (λ j. refl)

-- Once no row holds the lease, settling under it changes nothing.
pub settle_stale :
    (s : Settlement) (code : ℕ) (i : EmailJobCompletion) (db : Db)
    → IsReleased i db
    → settle s code i db ≡ db
unfolding mark_email_job_sent retry_email_job fail_email_job
settle_stale sent code i db h =
    ap (λ l. record db { email_jobs = l }) (update_where_none _ _ db.email_jobs h)
settle_stale (retried at) code i db h =
    ap (λ l. record db { email_jobs = l }) (update_where_none _ _ db.email_jobs h)
settle_stale failed code i db h =
    ap (λ l. record db { email_jobs = l }) (update_where_none _ _ db.email_jobs h)

-- A job settled under a lease (sent, scheduled again or failed) is not settled again under it:
-- whatever the second settlement is, it leaves the database as the first one left it.
pub settle_once :
    (s r : Settlement) (c d : ℕ) (i : EmailJobCompletion) (db : Db)
    → settle r d i (settle s c i db) ≡ settle s c i db
settle_once s r c d i db = settle_stale r d i (settle s c i db) (settle-IsReleased s c i db)
