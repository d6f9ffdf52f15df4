-- ===== src/Auth/Semaphore.antt =====
-- `FifoSemaphore` of packages/auth/src/password.ts, between its awaits. A call of `run` enters or waits; a
-- call that ends wakes the first waiter, whose continuation runs later, as a task of its own.
pub mod Laws
use lovechapter.Prelude.{ℕ, zero, suc, ◌+◌, Option, none, some, List, [], ◌∷◌, if◌then◌else◌, leb}

-- The fields `active` and `waiting`, and the waiters that are woken and have not run yet.
pub record Semaphore : Type 0 where
  pub active : ℕ
  pub waiting : ℕ
  pub woken : ℕ

abbrev pub unused : Semaphore
unused = record { active = 0; waiting = 0; woken = 0 }

-- A call of `run` begins, an operation ends, or the continuation of a woken waiter runs.
pub data Event : Type 0 where
  call finish resume : Event

-- `waiting.shift()?.()`
abbrev wake : ℕ → Semaphore → Semaphore
wake zero s = s
wake (suc n) s = record s { waiting = n; woken = s.woken + 1 }

abbrev end_one : ℕ → Semaphore → Option Semaphore
end_one zero s = none
end_one (suc n) s = some (wake s.waiting (record s { active = n }))

abbrev resume_one : ℕ → Semaphore → Option Semaphore
resume_one zero s = none
resume_one (suc n) s = some (record s { active = s.active + 1; woken = n })

-- One step; `none` for an event that cannot happen.
unfoldable pub step : ℕ → Event → Semaphore → Option Semaphore
step limit call s =
    if leb limit s.active
    then some (record s { waiting = s.waiting + 1 })
    else some (record s { active = s.active + 1 })
step limit finish s = end_one s.active s
step limit resume s = resume_one s.woken s

abbrev run_on : Option Semaphore → (Semaphore → Option Semaphore) → Option Semaphore
run_on none k = none
run_on (some s) k = k s

unfoldable pub run_events : ℕ → List Event → Semaphore → Option Semaphore
run_events limit [] s = some s
run_events limit (e ∷ l) s = run_on (step limit e s) (run_events limit l)
