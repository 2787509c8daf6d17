-- ===== src/Kcut/Threads/Progress.antt =====
-- The thread test of examples/kcuttest/main.c comes to its end in every schedule.
use symbi_os.Base.{ℕ, ◌+◌, ◌^◌, ◌≤◌, ◌<◌, ◌≡◌, refl, sym, Bool, true, false, none, some, arith}
use symbi_os.Base.{◌⊎◌, inl, inr}
use native.Mathlib.Decide.{dec_lt}
use mathlib.Core.Path.{subst}
use symbi_os.Kcut.Threads.{
  Pc, Shared, System, MainPc, Step, main_moves, thread_moves, Reach, start, later, spawned, advance,
  main_advance,
}
use symbi_os.Kcut.Threads.Invariant.{Inv, IsAt, IsSound, holds, waits}
use symbi_os.Kcut.Threads.Totals.{total-const, some_below}
use symbi_os.Kcut.Threads.Main.{Reach-IsSound}

module _ {n m l k : ℕ} {s : Shared} {pc : ℕ → Pc} (inv : Inv n m l k s pc) where
  module _ (stuck : (i : ℕ) → i < k → advance n m s (pc i) ≡ none) where
    -- If no thread can move, none owns the mutex.
    unlocked : s.locked ≡ false
    unfolding advance
    unlocked =
        ground (arith, inv.mutex, total-const holds 0 k pc (λ i h. ground (arith, stuck i h)))

    -- Then, before the second barrier has opened, every thread waits at the barrier.
    waits-all : s.generation ≤ 1 → (i : ℕ) → i < k → waits s.generation (pc i) ≡ 1
    unfolding advance
    waits-all g i h = ground (arith, g, unlocked, stuck i h, inv.placed i h)

    -- That is impossible for as many as the barrier is for, so all have returned.
    stuck-returned : k ≡ n → (i : ℕ) → i < k → pc i ≡ Pc.returned
    unfolding advance
    stuck-returned full i h = elim (dec_lt s.generation 2) [
      | yes g ↦ absurd (
          omega (
            arith,
            full,
            inv.room (omega arith),
            inv.waiting,
            total-const (waits s.generation) 1 k pc (waits-all (omega arith)),
          ))
      | no g ↦ ground (arith, g, stuck i h, inv.placed i h)
    ]

-- Without a failure, `main` joins as many threads as the barrier is for.
abbrev IsFull : ℕ → MainPc → ℕ → Type 0
IsFull n (MainPc.joining _) k = k ≡ n
IsFull n MainPc.undefined k = ⊥
IsFull n _ k = Unit

module _ {n : ℕ} {creates : ℕ → Bool} (good : (i : ℕ) → i < n → creates i ≡ true) where
  main-IsFull :
      (s : System) {t : System} (p : MainPc)
      → IsAt n s.created s.pc p
      → IsFull n p s.created
      → main_advance n creates s p ≡ some t
      → IsFull n t.main t.created
  unfolding main_advance
  main-IsFull s {t} (MainPc.creating i) (at_i, le) f h = ground (arith, h, good i, at_i, le)
  main-IsFull s {t} (MainPc.joining j) v f h = ground (arith, h, f)
  main-IsFull s {t} MainPc.ended v f h = ground (arith, h)
  main-IsFull s {t} MainPc.undefined v f h = absurd f

  Step-IsFull :
      {m : ℕ} {s t : System}
      → Step n m creates s t
      → IsAt n s.created s.pc s.main
      → IsFull n s.main s.created
      → IsFull n t.main t.created
  Step-IsFull {s} (main_moves h) v f = main-IsFull s s.main v f h
  Step-IsFull (thread_moves i lt h) v f = f

  reach-IsFull :
      {m : ℕ}
      → m < 2 ^ 32
      → {k : ℕ} {s : System} → Reach n m creates k s
      → IsFull n s.main s.created
  reach-IsFull small start = ground arith
  reach-IsFull small (later r st) =
      Step-IsFull st (Reach-IsSound small r).stage (reach-IsFull small r)

-- A step of `main` from the place where it is.
Step-main :
    {n m : ℕ} {creates : ℕ → Bool} {s t : System} {p : MainPc}
    → s.main ≡ p
    → main_advance n creates s p ≡ some t
    → Step n m creates s t
Step-main {n} {creates} {s} {t} e h =
    main_moves (subst (λ q. main_advance n creates s q ≡ some t) (sym e) h)

module _ {n m : ℕ} {creates : ℕ → Bool} (small : m < 2 ^ 32) where
  module _ (good : (i : ℕ) → i < n → creates i ≡ true) where
    -- `main` can join thread `j`, or some thread can move.
    join_or_move :
        (s : System)
        → IsSound n m s
        → s.created ≡ n
        → (j : ℕ) → s.main ≡ MainPc.joining j
        → j < n
        → (t : System) × Step n m creates s t
    unfolding main_advance
    join_or_move s v full j e lt =
        elim (some_below (λ i. advance n m s.shared (s.pc i)) s.created) [
          | inl (i, (h, p), below, moved) ↦ (_, thread_moves i below moved)
          | inr stuck ↦
              let back = stuck-returned v.threads stuck full j (omega arith) in
              (
                record s { main = MainPc.joining (j + 1) },
                Step-main e (ground (arith, lt, full, back)),
              )
        ]

    moves_from :
        (s : System)
        → IsSound n m s
        → (p : MainPc) → s.main ≡ p
        → IsFull n p s.created
        → (s.main ≡ MainPc.ended) ⊎ ((t : System) × Step n m creates s t)
    unfolding main_advance
    moves_from s v (MainPc.creating i) e f = inr (elim (dec_lt i n) [
      | yes lt ↦ (spawned s i, Step-main e (ground (arith, lt, good i)))
      | no ge ↦ (record s { main = MainPc.joining 0 }, Step-main e (ground (arith, ge)))
    ])
    moves_from s v (MainPc.joining j) e full = inr (elim (dec_lt j n) [
      | yes lt ↦ join_or_move s v full j e lt
      | no ge ↦ (record s { main = MainPc.ended }, Step-main e (ground (arith, ge)))
    ])
    moves_from s v MainPc.ended e f = inl e
    moves_from s v MainPc.undefined e f = absurd f

    -- Where every `pthread_create` succeeds and `num_increments` is below 2^32, there is no deadlock: in
    -- each state that can be reached, the test has ended, or `main` or a thread can take a step.
    pub ended_or_moves :
        {k : ℕ} {s : System}
        → Reach n m creates k s
        → (s.main ≡ MainPc.ended) ⊎ ((t : System) × Step n m creates s t)
    ended_or_moves {k} {s} r =
        moves_from s (Reach-IsSound small r) s.main refl (reach-IsFull good small r)
