-- ===== src/Kcut/Program/Privileges.antt =====
-- The privileges of the program of examples/kcuttest/main.c, on every branch.
use symbi_os.Base.{
  ℕ, zero, suc, ◌^◌, ◌≡◌, refl, Bool, true, false, not, ◌∷◌, arith, ◌==◌, ltb, Bool-cases, inl, inr,
}
use symbi_os.Base.Machine.{M, Run, done, abort, fault, out_of_fuel, exited, and_then}
use symbi_os.Kcut.Shortcut.{World, Process, Call, KernelFunction, when, kernel, kcut_evacuate}
use symbi_os.Kcut.Shortcut.Session.{evacuate-Safe, Safe}
use symbi_os.Kcut.Program.Arguments.{Options}
use symbi_os.Kcut.Program.Run.{IsCountable}
use symbi_os.Kcut.Program.{
  kernel_yields, user_yields, yield_rounds, thread_test, rounds, child, forks, first_tests, call_if,
  last_tests, elevated_tests, main,
}

-- The run ends with a state that has the property, at a failed assertion, or, in a child of the
-- program, by `exit(0)`; and it never calls the kernel from a thread that is not elevated.
abbrev pub Stays : {A : Type 0} → (Process → Type 0) → Run Process A → Type 0
Stays Q (done a p) = Q p
Stays Q abort = Unit
Stays Q fault = ⊥
Stays Q out_of_fuel = ⊥
Stays Q (exited n) = n ≡ 0

Stays-bind :
    {A B : Type 0} (P Q : Process → Type 0) (r : Run Process A) (f : A → M Process B)
    → Stays P r
    → ((a : A) (p : Process) → P p → Stays Q (f a p))
    → Stays Q (and_then r f)
Stays-bind P Q (done a p) f h next = next a p h
Stays-bind P Q abort f h next = h
Stays-bind P Q fault f h next = absurd h
Stays-bind P Q out_of_fuel f h next = absurd h
Stays-bind P Q (exited n) f h next = h

Safe-Stays : {A : Type 0} (Q : Process → Type 0) (r : Run Process A) → Safe Q r → Stays Q r
Safe-Stays Q (done a p) h = h
Safe-Stays Q abort h = h
Safe-Stays Q fault h = h
Safe-Stays Q out_of_fuel h = h
Safe-Stays Q (exited n) h = absurd h

abbrev IsUp : Process → Type 0
IsUp p = p.elevated ≡ true

module _ (w : World) where
  first_tests-IsUp : (p : Process) → IsUp p → Stays IsUp (first_tests w p)
  unfolding first_tests
  first_tests-IsUp p h = ground (arith, h)

  user_yields-IsUp : (n : ℕ) (p : Process) → IsUp p → Stays IsUp (user_yields w n p)
  unfolding user_yields
  user_yields-IsUp zero p h = h
  user_yields-IsUp (suc n) p h = user_yields-IsUp n (record p { calls = Call.yield ∷ p.calls }) h

  kernel_yields-IsUp : (n : ℕ) (p : Process) → IsUp p → Stays IsUp (kernel_yields w n p)
  unfolding kernel_yields
  kernel_yields-IsUp zero p h = h
  kernel_yields-IsUp (suc n) p h =
      Stays-bind IsUp IsUp (kernel w KernelFunction.sched_yield false p) _ (ground (arith, h))
        (λ _ q e. kernel_yields-IsUp n q e)

  child-IsUp : (p : Process) → IsUp p → Stays IsUp (child w p)
  unfolding child
  child-IsUp p h = ground (arith, h)

  forks-IsUp : (n : ℕ) (p : Process) → IsUp p → Stays IsUp (forks w n p)
  unfolding forks
  forks-IsUp zero p h = h
  forks-IsUp (suc n) p h =
      let q = record p { calls = Call.fork ∷ p.calls } in
      ground (arith, child-IsUp q h, forks-IsUp n q h, h)

  call_if-IsUp : (b : Bool) (c : Call) (p : Process) → IsUp p → Stays IsUp (call_if w b c p)
  call_if-IsUp true c p h = h
  call_if-IsUp false c p h = h

  last_tests-IsUp :
      w.threads_made ≡ true → (o : Options) (p : Process) → IsUp p → Stays IsUp (last_tests w o p)
  unfolding last_tests thread_test
  last_tests-IsUp made o p h = ground (arith, made, h)

  yield_rounds-IsUp :
      (o : Options) (p : Process)
      → IsCountable o
      → IsUp p
      → Stays IsUp (yield_rounds w (rounds o.yieldcnt) p)
  unfolding yield_rounds
  yield_rounds-IsUp o p c h = elim (Bool-cases (ltb o.yieldcnt (2 ^ 31))) [
    | inl small ↦ rw small (user_yields-IsUp o.yieldcnt p h)
    | inr large ↦
        let negative : ltb o.yieldcnt (2 ^ 63) ≡ false = ground (arith, large, c) in
        rw (large, negative) (user_yields-IsUp 0 p h)
  ]

  elevated_tests-IsUp :
      w.threads_made ≡ true
      → (o : Options) (p : Process) → IsCountable o
      → IsUp p
      → Stays IsUp (elevated_tests w o p)
  unfolding elevated_tests
  elevated_tests-IsUp made o p c h =
      Stays-bind IsUp IsUp (first_tests w p) _ (first_tests-IsUp p h) λ _ p1 h1.
        Stays-bind IsUp IsUp (yield_rounds w (rounds o.yieldcnt) p1) _ (yield_rounds-IsUp o p1 c h1)
          λ _ p2 h2.
            Stays-bind IsUp IsUp (kernel_yields w o.yieldcnt p2) _
              (kernel_yields-IsUp o.yieldcnt p2 h2)
              λ _ p3 h3.
                Stays-bind IsUp IsUp (call_if w (not (o.ssec == 0)) (Call.sleep o.ssec) p3) _
                  (call_if-IsUp (not (o.ssec == 0)) (Call.sleep o.ssec) p3 h3)
                  λ _ p4 h4.
                    Stays-bind IsUp IsUp (forks w o.num_forks p4) _ (forks-IsUp o.num_forks p4 h4)
                      λ _ p5 h5. last_tests-IsUp made o p5 h5

  evacuated :
      (b c : Bool) (p : Process)
      → p.elevated ≡ false
      → Stays (λ q. q.elevated ≡ false) (when b (kcut_evacuate w c) p)
  evacuated true c p h = Safe-Stays _ (kcut_evacuate w c p) (evacuate-Safe w c p)
  evacuated false c p h = h

  -- Where `pthread_create` makes all threads of the test of threads and `yieldcnt` is below 2^31 or
  -- negative, the program, started in a thread that is not elevated, returns from `main` with a thread
  -- that is not elevated, or stops at an assertion of the evacuation, or ends as a child by `exit(0)`,
  -- whatever the other options and the answers of the system are. The calls of the kernel that `main`
  -- makes (outside the threads and the stack test) are all in an elevated thread.
  pub main-Stays :
      w.threads_made ≡ true
      → (o : Options) (p : Process) → IsCountable o
      → p.elevated ≡ false
      → Stays (λ q. q.elevated ≡ false) (main w o p)
  unfolding main
  main-Stays made o p c h =
      Stays-bind (λ q. q.elevated ≡ false) (λ q. q.elevated ≡ false)
        (when (not (o.evac == 0)) (kcut_evacuate w true) p) _
        (evacuated (not (o.evac == 0)) true p h)
        λ _ q e.
          Stays-bind IsUp (λ q. q.elevated ≡ false)
            (elevated_tests w o (record q { elevated = true })) _
            (elevated_tests-IsUp made o (record q { elevated = true }) c refl)
            λ _ r f.
              Stays-bind (λ q. q.elevated ≡ false) (λ q. q.elevated ≡ false)
                (when (not (o.evac == 0)) (kcut_evacuate w false) (record r { elevated = false })) _
                (evacuated (not (o.evac == 0)) false (record r { elevated = false }) refl)
                λ _ t g. g
