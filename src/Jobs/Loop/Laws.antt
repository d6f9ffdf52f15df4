-- ===== src/Jobs/Loop/Laws.antt =====
-- The delays and the cleanups of the loop.
use lovechapter.Prelude.{
  ℕ, ◌+◌, ◌≤◌, ◌≡◌, true, Option, none, some, List, [], ◌∷◌, arith, inl, inr, Option-cases, All,
  eq_of_some,
}
use lovechapter.Jobs.Loop.{
  run_admitted_batch, Round, Loop, start, is_cleanup_due, cleanup, round, run_job_loop, continue,
  cleanup_interval, min_idle_delay, max_idle_delay,
}

-- The times of the cleanups, latest first, are at least an interval apart.
abbrev pub AreSpaced : List ℕ → Type 0
AreSpaced [] = Unit
AreSpaced (t ∷ []) = Unit
AreSpaced (t ∷ u ∷ l) = (u + cleanup_interval ≤ t) × AreSpaced (u ∷ l)

-- The last cleanup is the head of the cleanups.
abbrev pub IsLatest : Option ℕ → List ℕ → Type 0
IsLatest none [] = Unit
IsLatest none (t ∷ l) = ⊥
IsLatest (some t) [] = ⊥
IsLatest (some t) (u ∷ l) = t ≡ u

abbrev pub IsDelay : ℕ → Type 0
IsDelay d = (min_idle_delay ≤ d) × (d ≤ max_idle_delay)

pub record IsSound (s : Loop) : Type 0 where
  pub delay : IsDelay s.idle_delay
  pub delays : All IsDelay s.slept
  pub latest : IsLatest s.last_cleanup_at s.cleaned
  pub spaced : AreSpaced s.cleaned

spaced_cons :
    (now : ℕ) (o : Option ℕ) (l : List ℕ)
    → is_cleanup_due now o ≡ true
    → IsLatest o l
    → AreSpaced l
    → AreSpaced (now ∷ l)
spaced_cons now none [] due latest spaced = tt
spaced_cons now none (u ∷ l) due latest spaced = absurd latest
spaced_cons now (some t) [] due latest spaced = absurd latest
spaced_cons now (some t) (u ∷ l) due latest spaced = (ground arith, spaced)

cleanup-IsSound : (r : Round) (s t : Loop) → IsSound s → cleanup r s ≡ some t → IsSound t
unfolding cleanup run_admitted_batch
cleanup-IsSound r s t h e =
    ground
      (arith, spaced_cons r.now s.last_cleanup_at s.cleaned, h.delay, h.delays, h.latest, h.spaced)

round-IsSound : (r : Round) (s t : Loop) → IsSound s → round r s ≡ some t → IsSound t
unfolding round run_admitted_batch
round-IsSound r s t h e = elim (Option-cases (cleanup r s)) [
  | inl ended ↦ ground arith
  | inr (u, next) ↦
      let hu = cleanup-IsSound r s u h next in
      let e : continue r (some u) ≡ some t = rw next at e in
      ground (arith, hu.delay, hu.delays, hu.latest, hu.spaced)
]

loop-IsSound : (l : List Round) (s t : Loop) → IsSound s → run_job_loop l s ≡ some t → IsSound t
unfolding run_job_loop
loop-IsSound [] s t h e = rw (← eq_of_some s t e) h
loop-IsSound (r ∷ l) s t h e = elim (Option-cases (round r s)) [
  | inl ended ↦ ground arith
  | inr (u, next) ↦ loop-IsSound l u t (round-IsSound r s u h next) (rw next at e)
]

-- However the rounds go, every delay that the loop asks for is between 250 ms and 5 s, and two
-- cleanups are at least 15 minutes apart.
pub run_job_loop_bounds :
    (l : List Round) (t : Loop)
    → run_job_loop l start ≡ some t
    → All IsDelay t.slept × AreSpaced t.cleaned
run_job_loop_bounds l t e =
    let s =
      loop-IsSound l start t (record { delay = omega arith; delays = tt; latest = tt; spaced = tt })
        e in
    (s.delays, s.spaced)
