-- ===== src/Auth/Semaphore/Laws.antt =====
-- Waiters and the limit, along the events of a semaphore.
use lovechapter.Prelude.{
  ℕ, ◌+◌, ◌≤◌, ◌≡◌, refl, some, List, [], ◌∷◌, ◌⊎◌, inl, inr, arith, Option-cases, eq_of_some,
}
use lovechapter.Auth.Semaphore.{Semaphore, unused, Event, call, finish, resume, step, run_events}

-- While somebody waits, the places are taken or promised to woken waiters.
abbrev pub IsBusy : ℕ → Semaphore → Type 0
IsBusy limit s = (s.waiting ≡ 0) ⊎ (limit ≤ s.active + s.woken)

step-IsBusy :
    (limit : ℕ) (e : Event) (s t : Semaphore)
    → IsBusy limit s
    → step limit e s ≡ some t
    → IsBusy limit t
unfolding step
step-IsBusy limit call s t h e = ground arith
step-IsBusy limit finish s t h e = ground arith
step-IsBusy limit resume s t h e = ground arith

events-IsBusy :
    (limit : ℕ) (l : List Event) (s t : Semaphore)
    → IsBusy limit s
    → run_events limit l s ≡ some t
    → IsBusy limit t
unfolding run_events
events-IsBusy limit [] s t h e = rw (← eq_of_some s t e) h
events-IsBusy limit (x ∷ l) s t h e = elim (Option-cases (step limit x s)) [
  | inl stuck ↦ ground arith
  | inr (u, next) ↦ events-IsBusy limit l u t (step-IsBusy limit x s u h next) (rw next at e)
]

-- Whatever the order of calls, ends and continuations, a waiter only waits while all places are taken or
-- promised: no wake-up is lost, so with nothing running and nothing woken nobody waits.
pub run_events-IsBusy :
    (limit : ℕ) (l : List Event) (t : Semaphore)
    → 1 ≤ limit
    → run_events limit l unused ≡ some t
    → IsBusy limit t × (t.active + t.woken ≡ 0 → t.waiting ≡ 0)
run_events-IsBusy limit l t h e =
    let busy = events-IsBusy limit l unused t (inl refl) e in (busy, λ none_left. ground arith)

-- No call begins while a woken waiter has not run.
abbrev pub IsOrderly : ℕ → List Event → Semaphore → Type 0
IsOrderly limit [] s = Unit
IsOrderly limit (call ∷ l) s =
    (s.woken ≡ 0) × ((t : Semaphore) → step limit call s ≡ some t → IsOrderly limit l t)
IsOrderly limit (finish ∷ l) s =
    (t : Semaphore) → step limit finish s ≡ some t → IsOrderly limit l t
IsOrderly limit (resume ∷ l) s =
    (t : Semaphore) → step limit resume s ≡ some t → IsOrderly limit l t

step_within :
    (limit : ℕ) (x : Event) (s t : Semaphore)
    → s.active + s.woken ≤ limit
    → (x ≡ call → s.woken ≡ 0)
    → step limit x s ≡ some t
    → t.active + t.woken ≤ limit
unfolding step
step_within limit call s t h o e = ground (arith, o refl)
step_within limit finish s t h o e = ground arith
step_within limit resume s t h o e = ground arith

IsOrderly-head :
    (limit : ℕ) (x : Event) (l : List Event) (s : Semaphore)
    → IsOrderly limit (x ∷ l) s
    → (x ≡ call → s.woken ≡ 0) × ((t : Semaphore) → step limit x s ≡ some t → IsOrderly limit l t)
IsOrderly-head limit call l s o = (λ _. o.0, o.1)
IsOrderly-head limit finish l s o = (λ e. cc, o)
IsOrderly-head limit resume l s o = (λ e. cc, o)

events_within :
    (limit : ℕ) (l : List Event) (s t : Semaphore)
    → s.active + s.woken ≤ limit
    → IsOrderly limit l s
    → run_events limit l s ≡ some t
    → t.active + t.woken ≤ limit
unfolding run_events
events_within limit [] s t h o e = rw (← eq_of_some s t e) h
events_within limit (x ∷ l) s t h o e = elim (Option-cases (step limit x s)) [
  | inl stuck ↦ ground arith
  | inr (u, next) ↦
      let here = IsOrderly-head limit x l s o in
      events_within limit l u t (step_within limit x s u h here.0 next) (here.1 u next)
        (rw next at e)
]

-- As long as no call begins between a wake-up and the continuation of the woken waiter, no more operations
-- run than the limit allows, the promised places counted.
pub run_events_within :
    (limit : ℕ) (l : List Event) (t : Semaphore)
    → IsOrderly limit l unused
    → run_events limit l unused ≡ some t
    → t.active + t.woken ≤ limit
run_events_within limit l t o e = events_within limit l unused t (omega arith) o e
