-- ===== src/Kcut/Threads/Main.antt =====
-- Every step of the thread test, of `main` or of a thread, keeps the invariant.
use symbi_os.Kcut.Threads.Invariant.{Inv, IsAt, IsSound, holds, stores, waits, keeps}
use symbi_os.Kcut.Threads.Totals.{total, total-update_new}
use symbi_os.Kcut.Threads.Moves.{Move-Inv}
use symbi_os.Kcut.Threads.{
  Pc, Shared, System, MainPc, Step, main_moves, thread_moves, Reach, start, later, init, with_arg,
  spawned, not_spawned, advance, main_advance,
}
use native.Mathlib.Decide.{dec_lt, ℕ_discrete}
use symbi_os.Base.{ℕ, zero, suc, ◌+◌, ◌-◌, ◌^◌, ◌≤◌, ◌<◌, ◌≡◌, refl, sym, Bool, some, update, arith}
use symbi_os.Base.{Bool-cases, inl, inr}
use mathlib.Core.Path.{subst}

module _ {n m k : ℕ} {s : Shared} {pc : ℕ → Pc} where
  -- A new thread joins those that have not passed the barrier.
  spawn-Inv : k < n → Inv n m 0 k s pc → Inv n m 0 (suc k) (with_arg s) (update pc k Pc.entered)
  spawn-Inv lt inv = record {
    few = omega arith;
    full = λ g. absurd (omega (arith, inv.full g));
    mutex = omega (arith, inv.mutex, total-update_new holds k pc Pc.entered);
    counted = rw (total-update_new (stores m) k pc Pc.entered) (omega (arith, inv.counted));
    waiting = omega (arith, inv.waiting, total-update_new (waits s.generation) k pc Pc.entered);
    room = inv.room;
    owned = omega (arith, inv.owned, total-update_new keeps k pc Pc.entered);
    placed = λ i below. elim (ℕ_discrete k i) [
      | yes e ↦ ground (arith, e, inv.full)
      | no ne ↦ ground (arith, ne, inv.placed i (omega arith))
    ];
  }

  leak-Inv : Inv n m 0 k s pc → Inv n m 1 k (with_arg s) pc
  leak-Inv inv = record {
    few = inv.few;
    full = inv.full;
    mutex = inv.mutex;
    counted = inv.counted;
    waiting = inv.waiting;
    room = inv.room;
    owned = omega (arith, inv.owned);
    placed = inv.placed;
  }

module _ (n m : ℕ) (s : System) where
  -- The same with `main` at a given place.
  abbrev at_main : MainPc → System
  at_main p = record s { main = p }

  abbrev IsSoundAt : MainPc → Type 0
  IsSoundAt p = IsSound n m (at_main p)

  spawned-IsSound : (i : ℕ) → i < n → IsSoundAt (MainPc.creating i) → IsSound n m (spawned s i)
  spawned-IsSound i lt v = record {
    threads = ground (arith, spawn-Inv (ground (arith, v.stage)) v.threads, v.stage);
    stage = ground (arith, v.stage);
  }

  not_spawned-IsSound :
      (i : ℕ) → i < n → IsSoundAt (MainPc.creating i) → IsSound n m (not_spawned s)
  not_spawned-IsSound i lt v = record {
    threads =
        subst (λ l. Inv n m l s.created (with_arg s.shared) s.pc) (ground (arith, v.stage))
          (leak-Inv v.threads);
    stage = (omega arith, λ j h. absurd (omega arith));
  }

  all_created-IsSound :
      (i : ℕ) → n ≤ i → IsSoundAt (MainPc.creating i) → IsSoundAt (MainPc.joining 0)
  all_created-IsSound i ge v = record {
    threads = subst (λ l. Inv n m l s.created s.shared s.pc) (ground (arith, v.stage)) v.threads;
    stage = (omega arith, λ j h. absurd (omega arith));
  }

  joined-IsSound :
      (j : ℕ)
      → j < n
      → j < s.created
      → s.pc j ≡ Pc.returned
      → IsSoundAt (MainPc.joining j)
      → IsSoundAt (MainPc.joining (j + 1))
  joined-IsSound j lt below e v = record {
    threads = v.threads;
    stage = (
      omega arith,
      λ i h. elim (ℕ_discrete i j) [
        | yes ij ↦ rw ij (below, e)
        | no ne ↦ v.stage.1 i (omega arith)
      ],
    );
  }

  undefined-IsSound :
      (j : ℕ) → j < n → s.created ≤ j → IsSoundAt (MainPc.joining j) → IsSoundAt MainPc.undefined
  undefined-IsSound j lt ge v = record { threads = v.threads; stage = omega arith }

  ended-IsSound : (j : ℕ) → n ≤ j → IsSoundAt (MainPc.joining j) → IsSoundAt MainPc.ended
  ended-IsSound j ge v = record {
    threads = v.threads;
    stage = (
      elim (dec_lt 0 n) [
        | yes some_threads ↦
            let (below, _) = v.stage.1 (n - 1) (omega arith) in omega (arith, below, v.threads.few)
        | no none_at_all ↦ omega (arith, v.threads.few)
      ],
      λ i h. (v.stage.1 i (omega arith)).1,
    );
  }

main-IsSound :
    (n m : ℕ) (creates : ℕ → Bool) (s : System) {t : System} (p : MainPc)
    → IsSound n m (record s { main = p })
    → main_advance n creates s p ≡ some t
    → IsSound n m t
unfolding main_advance
main-IsSound n m creates s {t} (MainPc.creating i) v h = elim (dec_lt i n) [
  | yes lt ↦ elim (Bool-cases (creates i)) [
    | inl good ↦ subst (IsSound n m) (ground (arith, h, lt, good)) (spawned-IsSound n m s i lt v)
    | inr bad ↦ subst (IsSound n m) (ground (arith, h, lt, bad)) (not_spawned-IsSound n m s i lt v)
  ]
  | no ge ↦
      subst (IsSound n m) (ground (arith, h, ge)) (all_created-IsSound n m s i (omega arith) v)
]
main-IsSound n m creates s {t} (MainPc.joining j) v h = elim (dec_lt j n) [
  | yes lt ↦ elim (dec_lt j s.created) [
    | yes below ↦
        subst (IsSound n m) (ground (arith, h, lt, below))
          (joined-IsSound n m s j lt below (ground (arith, h, lt, below)) v)
    | no never ↦
        subst (IsSound n m) (ground (arith, h, lt, never))
          (undefined-IsSound n m s j lt (omega arith) v)
  ]
  | no ge ↦ subst (IsSound n m) (ground (arith, h, ge)) (ended-IsSound n m s j (omega arith) v)
]
main-IsSound n m creates s MainPc.ended v h = ground (arith, h)
main-IsSound n m creates s MainPc.undefined v h = ground (arith, h)

module _ (n m k : ℕ) (s : Shared) (pc : ℕ → Pc) (i : ℕ) {s' : Shared} {p : Pc}
    (h : advance n m s (pc i) ≡ some (s', p)) where
  -- A thread that has returned does not move.
  still_returned : (j : ℕ) → pc j ≡ Pc.returned → update pc i p j ≡ Pc.returned
  unfolding advance
  still_returned j e = elim (ℕ_discrete i j) [
    | yes ij ↦ ground (arith, h, subst (λ x. pc x ≡ Pc.returned) (sym ij) e)
    | no ne ↦ ground (arith, ne, e)
  ]

  stage-kept : (q : MainPc) → IsAt n k pc q → IsAt n k (update pc i p) q
  stage-kept (MainPc.creating _) v = v
  stage-kept (MainPc.joining j) (le, all) =
      (le, λ x lt. let (below, e) = all x lt in (below, still_returned x e))
  stage-kept MainPc.undefined v = v
  stage-kept MainPc.ended (full, all) = (full, λ x lt. still_returned x (all x lt))

-- Every step keeps the invariant.
Step-IsSound :
    {n m : ℕ} {creates : ℕ → Bool} {s t : System}
    → m < 2 ^ 32
    → Step n m creates s t
    → IsSound n m s
    → IsSound n m t
Step-IsSound {n} {m} {creates} {s} small (main_moves h) v = main-IsSound n m creates s s.main v h
Step-IsSound {n} {m} {s} small (thread_moves i lt h) v = record {
  threads = Move-Inv v.threads i small lt h;
  stage = stage-kept n m s.created s.shared s.pc i h s.main v.stage;
}

empty-Inv : (n m : ℕ) → Inv n m 0 0 (init n).shared (init n).pc
unfolding total
empty-Inv n m = record {
  few = omega arith;
  full = λ g. absurd (omega arith);
  mutex = refl;
  counted = refl;
  waiting = refl;
  room = λ h. h;
  owned = omega arith;
  placed = λ i h. absurd (omega arith);
}

init-IsSound : (n m : ℕ) → IsSound n m (init n)
init-IsSound zero m = record {
  threads = empty-Inv 0 m;
  stage = (refl, λ i h. absurd (omega arith));
}
init-IsSound (suc n) m =
    subst (λ q. IsSound (suc n) m (record (init 0) { main = q })) {x = MainPc.creating 0}
      (ground arith) (record { threads = empty-Inv (suc n) m; stage = (refl, omega arith) })

pub Reach-IsSound :
    {n m : ℕ} {creates : ℕ → Bool} {k : ℕ} {s : System}
    → m < 2 ^ 32
    → Reach n m creates k s
    → IsSound n m s
Reach-IsSound {n} {m} small start = init-IsSound n m
Reach-IsSound small (later r st) = Step-IsSound small st (Reach-IsSound small r)
