-- ===== src/Kcut/Threads/Termination.antt =====
-- Every schedule of the thread test of examples/kcuttest/main.c is finite.
use symbi_os.Base.{ℕ, zero, suc, ◌+◌, ◌-◌, ◌*◌, ◌^◌, ◌≤◌, ◌<◌, ◌≡◌, Bool, some, arith}
use symbi_os.Base.{update}
use native.Mathlib.Numerals.{add-one}
use mathlib.Core.Path.{subst}
use symbi_os.Kcut.Threads.{
  Pc, Shared, System, MainPc, Step, main_moves, thread_moves, Reach, start, later, init, advance,
  arrive, main_advance,
}
use symbi_os.Kcut.Threads.Invariant.{IsPlaced, IsAt, IsSound}
use symbi_os.Kcut.Threads.Totals.{total, total-update, total-update_new}
use symbi_os.Kcut.Threads.Main.{Reach-IsSound}

-- The steps that are left to a thread, and to `main` and the threads that it has still to create.
abbrev pub left : ℕ → Pc → ℕ
left m Pc.entered = 5 * m + 5
left m (Pc.first_wait _) = 5 * m + 4
left m (Pc.head i) = 5 * (m - i) + 3
left m (Pc.owning i) = 5 * (m - i) + 2
left m (Pc.loaded i _) = 5 * (m - i) + 1
left m (Pc.stored i) = 5 * (m - i)
left m (Pc.touching i) = 5 * (m - i) - 1
left m (Pc.last_wait _) = 2
left m Pc.freeing = 1
left m Pc.returned = 0

abbrev pub main_left : ℕ → ℕ → MainPc → ℕ
main_left n m (MainPc.creating i) = (n - i) * (5 * m + 6) + n + 2
main_left n m (MainPc.joining j) = n - j + 1
main_left n m MainPc.ended = 0
main_left n m MainPc.undefined = 0

abbrev pub all_left : ℕ → ℕ → System → ℕ
all_left n m s = main_left n m s.main + total (left m) s.created s.pc

-- Each step is one fewer of those that are left.
thread-left :
    (n m : ℕ) (s s' : Shared) (p p' : Pc)
    → m < 2 ^ 32
    → IsPlaced m s.generation s.counter p
    → advance n m s p ≡ some (s', p')
    → left m p' < left m p
unfolding advance arrive
thread-left n m s s' p p' small placed h = ground (arith, placed, h)

-- one thread fewer to create
times_pred : (n i c : ℕ) → i < n → (n - i) * c ≡ (n - (i + 1)) * c + c
times_pred n i c lt = let e : n - i ≡ suc (n - (i + 1)) = omega arith in rw e (omega arith)

main-left :
    (n m : ℕ) (creates : ℕ → Bool) (s : System) {t : System} (p : MainPc)
    → IsAt n s.created s.pc p
    → main_advance n creates s p ≡ some t
    → all_left n m t < main_left n m p + total (left m) s.created s.pc
unfolding main_advance
main-left n m creates s {t} (MainPc.creating i) (at_i, le) h = ground (
  arith,
  h,
  at_i,
  le,
  λ (lt : i < n). times_pred n i (5 * m + 6) lt,
  add-one s.created,
  subst
      (λ j.
        total (left m) (suc j) (update s.pc j Pc.entered)
        ≡ total (left m) j s.pc + left m Pc.entered)
      at_i (total-update_new (left m) i s.pc Pc.entered),
)
main-left n m creates s {t} (MainPc.joining j) v h = ground (arith, h, v)
main-left n m creates s {t} MainPc.ended v h = ground (arith, h)
main-left n m creates s {t} MainPc.undefined v h = ground (arith, h)

all_left_bound : (n m : ℕ) → all_left n m (init n) ≤ n * (5 * m + 7) + 2
unfolding total
all_left_bound zero m = omega arith
all_left_bound (suc n) m =
    subst (λ q. main_left (suc n) m q + 0 ≤ suc n * (5 * m + 7) + 2) {x = MainPc.creating 0}
      (ground arith) (let e : suc n - 0 ≡ suc n = omega arith in rw e (omega arith))

module _ {n m : ℕ} {creates : ℕ → Bool} (small : m < 2 ^ 32) where
  Step-left :
      {s t : System} → Step n m creates s t → IsSound n m s → all_left n m t < all_left n m s
  Step-left {s} (main_moves h) v = main-left n m creates s s.main v.stage h
  Step-left {s} (thread_moves i {h} {p} lt e) v = omega (
    arith,
    thread-left n m s.shared h (s.pc i) p small (v.threads.placed i lt) e,
    total-update (left m) s.created s.pc i p lt,
  )

  reach-left :
      {k : ℕ} {s : System} → Reach n m creates k s → k + all_left n m s ≤ all_left n m (init n)
  reach-left start = omega arith
  reach-left (later r st) = omega (arith, Step-left st (Reach-IsSound small r), reach-left r)

  -- With `n` threads and `m` increments each, `m` below 2^32, no schedule of the test, of `main` and its
  -- threads together, has more than `n * (5 * m + 7) + 2` steps.
  pub steps-bounded : {k : ℕ} {s : System} → Reach n m creates k s → k ≤ n * (5 * m + 7) + 2
  steps-bounded {k} {s} r = ground (arith, reach-left r, all_left_init)
    where
      all_left_init : all_left n m (init n) ≤ n * (5 * m + 7) + 2
      all_left_init = all_left_bound n m
