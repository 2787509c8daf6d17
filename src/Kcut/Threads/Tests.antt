-- ===== src/Kcut/Threads/Tests.antt =====
-- The thread test of examples/kcuttest/main.c with two threads, and instances of the theorems about it.
use symbi_os.Base.{
  ℕ, zero, suc, ◌+◌, ◌*◌, ◌≤◌, ◌<◌, ◌≡◌, ◌≢◌, refl, Bool, true, false, Option, none, some, List, [],
  ◌∷◌, arith,
}
use symbi_os.Base.{◌==◌, if◌then◌else◌, ◌⊎◌}
use native.Mathlib.Decide.{dec_lt}
use mathlib.Core.List.{foldl}
use symbi_os.Kcut.Threads.{
  Pc, System, MainPc, Step, main_moves, thread_moves, Reach, start, later, init, advance, arrive,
  main_advance, u32,
}
use symbi_os.Kcut.Threads.Safety.{IsEarly, ended-counter, mutual_exclusion, failed_create-IsEarly}
use symbi_os.Kcut.Threads.Progress.{ended_or_moves}
use symbi_os.Kcut.Threads.Termination.{steps-bounded}

abbrev next : {A : Type 0} (o : Option A) → Option ((a : A) × (o ≡ some a))
next none = none
next (some a) = some (a, refl)

-- A run of the thread test in a given order: 0 is a step of `main`, `i + 1` one of thread `i`. One that
-- is blocked stays where it is.
record Played (n m : ℕ) (creates : ℕ → Bool) : Type 0 where
  steps : ℕ
  last : System
  reach : Reach n m creates steps last

turn : {n m : ℕ} {creates : ℕ → Bool} → Played n m creates → ℕ → Played n m creates
unfolding dec_lt main_advance advance arrive
turn {n} {m} {creates} r zero = elim (next (main_advance n creates r.last r.last.main)) [
  | none ↦ r
  | some (t, e) ↦ record { steps = suc r.steps; last = t; reach = later r.reach (main_moves e) }
]
turn {n} {m} {creates} r (suc i) = elim (dec_lt i r.last.created) [
  | yes lt ↦ elim (next (advance n m r.last.shared (r.last.pc i))) [
    | none ↦ r
    | some ((h, p), e) ↦ record {
      steps = suc r.steps;
      last = _;
      reach = later r.reach (thread_moves i lt e);
    }
  ]
  | no _ ↦ r
]

play : (n m : ℕ) (creates : ℕ → Bool) → List ℕ → Played n m creates
unfolding turn
play n m creates order = foldl turn (record { steps = 0; last = init n; reach = start }) order

abbrev second_fails : ℕ → Bool
second_fails i = if i == 1 then false else true

-- Two threads that count once each, in turns.
abbrev whole : List ℕ
whole =
    0 ∷ 0 ∷ 1 ∷ 0 ∷ 2 ∷ 1 ∷ 2 ∷ 1 ∷ 2 ∷ 1 ∷ 2 ∷ 1 ∷ 2 ∷ 1 ∷ 2 ∷ 1 ∷ 2 ∷ 1 ∷ 2 ∷ 1 ∷ 2 ∷ 1 ∷ 2 ∷ 2
    ∷ 2 ∷ 2 ∷ 2 ∷ 1 ∷ 1 ∷ 2 ∷ 2 ∷ 0 ∷ 0 ∷ 0 ∷ 0 ∷ []

abbrev ended_run : Played 2 1 (λ i. true)
ended_run = play 2 1 (λ i. true) whole

ended-counter_example :
    let s = ended_run.last in
    (s.created ≡ 2)
    × ((i : ℕ) → i < 2 → s.pc i ≡ Pc.returned)
    × (s.shared.counter ≡ u32 (2 * 1))
    × (s.shared.locked ≡ false)
    × (s.shared.arrived ≡ 0)
    × (s.shared.args ≡ 0)
unfolding play turn main_advance advance arrive dec_lt
ended-counter_example = ended-counter (omega arith) ended_run.reach refl

-- Both threads are past the first barrier, and the first has the mutex.
abbrev contended : Played 2 1 (λ i. true)
contended = play 2 1 (λ i. true) (0 ∷ 0 ∷ 1 ∷ 0 ∷ 2 ∷ 1 ∷ 1 ∷ 2 ∷ [])

mutual_exclusion_test : ◌≡◌ {A = ℕ} 0 0
unfolding play turn main_advance advance arrive dec_lt
mutual_exclusion_test =
    mutual_exclusion (omega arith) contended.reach 0 0 (omega arith) (omega arith) refl refl

steps-bounded_example : contended.steps ≤ 2 * (5 * 1 + 7) + 2
steps-bounded_example = steps-bounded (omega arith) contended.reach

ended_or_moves_example :
    (contended.last.main ≡ MainPc.ended) ⊎ ((t : System) × Step 2 1 (λ i. true) contended.last t)
ended_or_moves_example = ended_or_moves (omega arith) (λ i h. refl) contended.reach

-- The creation of the second thread fails.
abbrev failing : Played 2 1 second_fails
failing = play 2 1 second_fails (0 ∷ 1 ∷ 0 ∷ 0 ∷ 1 ∷ [])

failed_create-IsEarly_example :
    let s = failing.last in
    (s.main ≢ MainPc.ended)
    × (s.main ≢ MainPc.undefined)
    × (s.created ≤ 1)
    × ((i : ℕ) → i < s.created → IsEarly (s.pc i))
    × (s.shared.counter ≡ 0)
failed_create-IsEarly_example =
    failed_create-IsEarly second_fails 1 refl (omega arith) (omega arith) refl failing.reach
