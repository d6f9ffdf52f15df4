-- ===== src/Jobs/Loop.antt =====
-- `runJobLoop` and `runAdmittedBatch` of apps/jobs/src/processor.ts. A round of the loop reads the clock,
-- the gate, the batch and the abort signal; these are the fields of `Round`.
pub mod Laws
use lovechapter.Prelude.{
  ℕ, ◌-◌, ◌*◌, min, Bool, true, false, not, Option, none, some, List, [], ◌∷◌, if◌then◌else◌, ltb,
  leb,
}

-- What the gate answers: a lease, nothing, or an error.
pub data Admission : Type 0 where
  lease : ℕ → Admission
  closed unavailable : Admission

-- What a batch does, in order.
pub data Act : Type 0 where
  worked : Act
  released : ℕ → Act

pub data Outcome : Type 0 where
  ran refused threw : Outcome

-- `runAdmittedBatch`: its acts, and `true`, `false` or the error of the work or of the release.
unfoldable pub run_admitted_batch : Admission → Bool → Bool → List Act × Outcome
run_admitted_batch closed works releases = ([], refused)
run_admitted_batch unavailable works releases = ([], refused)
run_admitted_batch (lease l) works releases =
    (worked ∷ released l ∷ [], if works then if releases then ran else threw else threw)

abbrev pub min_idle_delay : ℕ
min_idle_delay = 250

abbrev pub max_idle_delay : ℕ
max_idle_delay = 5000

abbrev pub cleanup_interval : ℕ
cleanup_interval = 900000

-- One pass of the loop: the time, the two admissions, the number of jobs processed, whether the batches
-- and the release of their leases return, and whether the signal is set after each wait.
pub record Round : Type 0 where
  pub now : ℕ
  pub cleanup_gate : Admission
  pub cleanup_returns : Bool
  pub cleanup_releases : Bool
  pub aborted_after_cleanup : Bool
  pub email_gate : Admission
  pub email_returns : Bool
  pub email_releases : Bool
  pub processed : ℕ
  pub aborted_after_email : Bool
  pub sleep_returns : Bool

-- The variables of the loop, with the delays asked for and the times of the cleanups, latest first.
pub record Loop : Type 0 where
  pub idle_delay : ℕ
  pub last_cleanup_at : Option ℕ
  pub slept : List ℕ
  pub cleaned : List ℕ

abbrev pub start : Loop
start = record { idle_delay = min_idle_delay; last_cleanup_at = none; slept = []; cleaned = [] }

-- The clock can go back: the difference is then negative, which is below the interval.
abbrev pub is_cleanup_due : ℕ → Option ℕ → Bool
is_cleanup_due now none = true
is_cleanup_due now (some t) = leb cleanup_interval (now - t)

abbrev after_cleanup : ℕ → Outcome → Loop → Option Loop
after_cleanup now ran s = some (record s { last_cleanup_at = some now; cleaned = now ∷ s.cleaned })
after_cleanup now refused s = some s
after_cleanup now threw s = none

unfoldable pub cleanup : Round → Loop → Option Loop
unfolding run_admitted_batch
cleanup r s =
    if is_cleanup_due r.now s.last_cleanup_at
    then after_cleanup r.now
        (run_admitted_batch r.cleanup_gate r.cleanup_returns r.cleanup_releases).1 s
    else some s

-- The batch sets `processed` only where it returns; a refused batch leaves it 0.
abbrev idle : Round → Loop → Option Loop
idle r s =
    let t : Loop = record s { slept = s.idle_delay ∷ s.slept } in
    if r.sleep_returns
    then some (record t { idle_delay = min (s.idle_delay * 2) max_idle_delay })
    else none

abbrev after_email : Round → Outcome → Loop → Option Loop
after_email r threw s = none
after_email r refused s = if r.aborted_after_email then none else idle r s
after_email r ran s =
    if r.aborted_after_email
    then none
    else if ltb 0 r.processed
    then some (record s { idle_delay = min_idle_delay })
    else idle r s

abbrev pub continue : Round → Option Loop → Option Loop
continue r none = none
continue r (some s) =
    if r.aborted_after_cleanup
    then none
    else after_email r (run_admitted_batch r.email_gate r.email_returns r.email_releases).1 s

-- One pass; `none` where the loop ends, by return or by error.
unfoldable pub round : Round → Loop → Option Loop
unfolding cleanup run_admitted_batch
round r s = continue r (cleanup r s)

abbrev run_on : List Round → Option Loop → (Loop → Option Loop) → Option Loop
run_on l none k = none
run_on l (some s) k = k s

-- The passes of the loop that have not ended it.
unfoldable pub run_job_loop : List Round → Loop → Option Loop
unfolding round
run_job_loop [] s = some s
run_job_loop (r ∷ l) s = run_on l (round r s) (run_job_loop l)
