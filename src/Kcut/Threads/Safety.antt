-- ===== src/Kcut/Threads/Safety.antt =====
-- What every schedule of the thread test of examples/kcuttest/main.c keeps.
use symbi_os.Base.{true, ℕ, ◌+◌, ◌*◌, ◌^◌, ◌≤◌, ◌<◌, ◌≡◌, ◌≢◌, refl, sym, Bool, false, some, arith}
use native.Mathlib.Decide.{dec_lt, ℕ_discrete}
use symbi_os.Kcut.Threads.{
  Pc, Shared, System, MainPc, Step, main_moves, thread_moves, Reach, start, later, main_advance,
  u32,
}
use symbi_os.Kcut.Threads.Invariant.{Inv, IsAt, IsSound, holds, stores, waits, keeps}
use symbi_os.Kcut.Threads.Totals.{total-const, total-two}
use symbi_os.Kcut.Threads.Moves.{holds_small}
use symbi_os.Kcut.Threads.Main.{Reach-IsSound}
use mathlib.Core.Path.{subst}

-- A thread that is before the first barrier.
abbrev pub IsEarly : Pc → Type 0
IsEarly Pc.entered = Unit
IsEarly (Pc.first_wait g) = g ≡ 0
IsEarly _ = ⊥

module _ {n m l k : ℕ} {s : Shared} {pc : ℕ → Pc} (inv : Inv n m l k s pc) where
  all_returned :
      ((i : ℕ) → i < k → pc i ≡ Pc.returned)
      → (s.counter ≡ u32 (m * k)) × (s.locked ≡ false) × (s.arrived ≡ 0) × (s.args ≡ l)
  all_returned h = (
    rw (inv.counted, total-const (stores m) m k pc (λ i lt. rw (h i lt) refl)) refl,
    ground (arith, inv.mutex, total-const holds 0 k pc (λ i lt. rw (h i lt) refl)),
    omega (arith, inv.waiting, total-const (waits s.generation) 0 k pc (λ i lt. rw (h i lt) refl)),
    omega (arith, inv.owned, total-const keeps 0 k pc (λ i lt. rw (h i lt) refl)),
  )

  all-IsEarly : k < n → ((i : ℕ) → i < k → IsEarly (pc i)) × (s.counter ≡ 0) × (s.args ≡ k + l)
  all-IsEarly lt = (
    early,
    omega (arith, inv.counted, total-const (stores m) 0 k pc (λ i h. ground (arith, early i h))),
    omega (arith, inv.owned, total-const keeps 1 k pc (λ i h. ground (arith, early i h))),
  )
    where
      early : (i : ℕ) → i < k → IsEarly (pc i)
      early i h = ground (arith, lt, inv.full, inv.placed i h)

module _ {n m : ℕ} {creates : ℕ → Bool} {k : ℕ} {s : System} (small : m < 2 ^ 32)
    (r : Reach n m creates k s) where
  -- For `n` threads with `m` increments, `m` below 2^32, in whatever order the steps come: when `main`
  -- has joined its threads and gone on, `n` threads were created and all have returned, the counter
  -- holds `n * m` modulo 2^32, the mutex is free, nobody waits at the barrier, and every argument is
  -- freed.
  pub ended-counter :
      s.main ≡ MainPc.ended
      → (s.created ≡ n)
        × ((i : ℕ) → i < n → s.pc i ≡ Pc.returned)
        × (s.shared.counter ≡ u32 (n * m))
        × (s.shared.locked ≡ false)
        × (s.shared.arrived ≡ 0)
        × (s.shared.args ≡ 0)
  ended-counter e =
      let v = Reach-IsSound small r in
      let (full, all) = subst (IsAt n s.created s.pc) e v.stage in
      let (counted, unlocked, empty, freed) = all_returned v.threads (rw full all) in
      (full, all, rw (counted, full) (omega arith), unlocked, empty, ground (arith, freed, e, full))

  -- Two threads are never between `pthread_mutex_lock` and `pthread_mutex_unlock` together.
  pub mutual_exclusion :
      (i j : ℕ) → i < s.created → j < s.created → holds (s.pc i) ≡ 1 → holds (s.pc j) ≡ 1 → i ≡ j
  mutual_exclusion i j li lj p q =
      let v = Reach-IsSound small r in
      let two = λ (i j : ℕ) (lt : i < j). total-two holds holds_small s.created s.pc i j lt in
      ground (arith, v.threads.mutex, two i j, two j i, li, lj, p, q)

-- `main` joins only after a thread was created, and so never an entry that was not set.
abbrev HasOne : MainPc → ℕ → Type 0
HasOne (MainPc.joining _) k = 1 ≤ k
HasOne MainPc.undefined k = ⊥
HasOne _ k = Unit

module _ {n m : ℕ} (creates : ℕ → Bool) (f : ℕ) (bad : creates f ≡ false) (lt : f < n)
    (small : m < 2 ^ 32) where
  main-created :
      (s : System) {t : System} (p : MainPc)
      → IsAt n s.created s.pc p
      → s.created ≤ f
      → main_advance n creates s p ≡ some t
      → t.created ≤ f
  unfolding main_advance
  main-created s (MainPc.creating i) (at_i, le) few h = elim (ℕ_discrete i f) [
    | yes e ↦ ground (arith, h, few, at_i, e, bad, subst (λ x. creates x ≡ false) (sym e) bad)
    | no ne ↦ ground (arith, h, few, at_i, ne)
  ]
  main-created s (MainPc.joining j) v few h = ground (arith, h, few)
  main-created s MainPc.ended v few h = ground (arith, h)
  main-created s MainPc.undefined v few h = ground (arith, h)

  Step-created :
      {s t : System} → Step n m creates s t → IsSound n m s → s.created ≤ f → t.created ≤ f
  Step-created {s} (main_moves h) v few = main-created s s.main v.stage few h
  Step-created (thread_moves i below h) v few = few

  reach-created : {k : ℕ} {s : System} → Reach n m creates k s → s.created ≤ f
  reach-created start = omega arith
  reach-created (later r st) = Step-created st (Reach-IsSound small r) (reach-created r)

  module _ (first : creates 0 ≡ true) where
    main-HasOne :
        (s : System) {t : System} (p : MainPc)
        → IsSound n m (record s { main = p })
        → s.created ≤ f
        → HasOne p s.created
        → main_advance n creates s p ≡ some t
        → HasOne t.main t.created
    unfolding main_advance
    main-HasOne s (MainPc.creating i) v few one h = elim (ℕ_discrete i 0) [
      | yes e ↦
          ground (arith, h, e, first, lt, v.stage, subst (λ x. creates x ≡ true) (sym e) first)
      | no ne ↦ ground (arith, h, ne, v.stage)
    ]
    main-HasOne s (MainPc.joining j) v few one h =
        let (early, _, _) = all-IsEarly v.threads (omega arith) in
        let none_joined : j ≡ 0 = elim (dec_lt 0 j) [
          | yes some_joined ↦
              let (below, q) = v.stage.1 0 some_joined in ground (arith, early 0 below, q)
          | no none ↦ omega arith
        ] in
        ground (arith, h, one, none_joined)
    main-HasOne s MainPc.ended v few one h = ground (arith, h)
    main-HasOne s MainPc.undefined v few one h = absurd one

    Step-HasOne :
        {s t : System}
        → Step n m creates s t
        → IsSound n m s
        → s.created ≤ f
        → HasOne s.main s.created
        → HasOne t.main t.created
    Step-HasOne {s} (main_moves h) v few one = main-HasOne s s.main v few one h
    Step-HasOne (thread_moves i below h) v few one = one

    reach-HasOne : {k : ℕ} {s : System} → Reach n m creates k s → HasOne s.main s.created
    reach-HasOne start = ground arith
    reach-HasOne (later r st) =
        Step-HasOne st (Reach-IsSound small r) (reach-created r) (reach-HasOne r)

    -- Where `pthread_create` succeeds at first and fails at iteration `f`, and `num_increments` is below
    -- 2^32, the test never ends: in whatever order the steps come, `main` neither ends nor joins an
    -- entry that was not set, at most `f` threads are created, none passes the first barrier, and the
    -- counter stays 0.
    pub failed_create-IsEarly :
        {k : ℕ} {s : System}
        → Reach n m creates k s
        → (s.main ≢ MainPc.ended)
          × (s.main ≢ MainPc.undefined)
          × (s.created ≤ f)
          × ((i : ℕ) → i < s.created → IsEarly (s.pc i))
          × (s.shared.counter ≡ 0)
    failed_create-IsEarly {k} {s} r =
        let v = Reach-IsSound small r in
        let few = reach-created r in
        let (early, counted, _) = all-IsEarly v.threads (omega arith) in
        (
          λ e.
              absurd
                (let (full, _) = subst (IsAt n s.created s.pc) e v.stage in omega (arith, full)),
          λ e. absurd (subst (λ q. HasOne q s.created) e (reach-HasOne r)),
          few,
          early,
          counted,
        )
