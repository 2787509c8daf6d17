-- ===== src/Kcut/Threads/Moves.antt =====
-- A step of a thread of the thread test keeps the invariant.
use symbi_os.Kcut.Threads.Invariant.{Inv, IsPlaced, holds, stores, waits, keeps, bit}
use symbi_os.Kcut.Threads.Totals.{
  total, total-update, total-const, le-total, total-two, total-others, total-lt,
}
use symbi_os.Kcut.Threads.{Pc, Shared, advance, arrive, u32}
use native.Mathlib.Decide.{dec_lt, ℕ_discrete}
use symbi_os.Base.{ℕ, ◌+◌, ◌^◌, ◌≤◌, ◌<◌, ◌≡◌, refl, ◌≢◌, ◌⊎◌, inl, inr, some, update, arith}

pub holds_small : (p : Pc) → holds p ≤ 1
holds_small p = ground arith

waits_small : (g : ℕ) (p : Pc) → waits g p ≤ 1
waits_small g p = ground arith

module _ {n m l k : ℕ} {s : Shared} {pc : ℕ → Pc} (inv : Inv n m l k s pc) (i : ℕ) where
  open inv use {few, full, mutex, counted, waiting, room, owned, placed}

  -- Thread `i` goes from `p` to `p'`.
  record Mover (p p' : Pc) : Type 0 where
    here : pc i ≡ p
    own : IsPlaced m s.generation s.counter p
    holders : total holds k (update pc i p') + holds p ≡ total holds k pc + holds p'
    storers : total (stores m) k (update pc i p') + stores m p ≡ total (stores m) k pc + stores m p'
    waiters :
        total (waits s.generation) k (update pc i p') + waits s.generation p
        ≡ total (waits s.generation) k pc + waits s.generation p'
    keepers : total keeps k (update pc i p') + keeps p ≡ total keeps k pc + keeps p'
    held : holds p ≤ total holds k pc
    kept : keeps p ≤ total keeps k pc

  mover : i < k → (p' : Pc) → Mover (pc i) p'
  mover lt p' = record {
    here = refl;
    own = placed i lt;
    holders = total-update holds k pc i p' lt;
    storers = total-update (stores m) k pc i p' lt;
    waiters = total-update (waits s.generation) k pc i p' lt;
    keepers = total-update keeps k pc i p' lt;
    held = le-total holds holds_small k pc i lt;
    kept = le-total keeps (λ p. ground arith) k pc i lt;
  }

  module _ {s' : Shared} {p p' : Pc} (st : advance n m s p ≡ some (s', p')) (f : Mover p p') where
    move-mutex : total holds k (update pc i p') ≡ bit s'.locked
    unfolding advance arrive
    move-mutex = ground (arith, st, f.holders, f.held, mutex)

    move-counted : m < 2 ^ 32 → s'.counter ≡ u32 (total (stores m) k (update pc i p'))
    unfolding advance arrive
    move-counted small = ground (arith, st, f.storers, f.own, counted)

    move-owned : s'.args ≡ total keeps k (update pc i p') + l
    unfolding advance arrive
    move-owned = ground (arith, st, f.keepers, f.kept, owned)

    move-room : 0 < n → s'.arrived < n
    unfolding advance arrive
    move-room some_threads = ground (arith, st, room)

    -- While the mover owns the mutex, no other thread does.
    alone : holds p ≡ 1 → (j : ℕ) → j < k → i ≢ j → i < k → holds (pc j) ≡ 0
    alone one j below ne lt = elim (dec_lt i j) [
      | yes ij ↦
          ground (
            arith,
            f.here,
            mutex,
            holds_small (pc j),
            total-two holds holds_small k pc i j ij below,
          )
      | no ji ↦ ground (
        arith,
        f.here,
        mutex,
        holds_small (pc j),
        total-two holds holds_small k pc j i (omega arith) lt,
      )
    ]

    -- If only the mover is missing at the barrier, every other thread waits there.
    crowd :
        waits s.generation p ≡ 0
        → s.arrived + 1 ≡ n
        → i < k
        → (j : ℕ) → j < k
        → i ≢ j
        → waits s.generation (pc j) ≡ 1
    crowd none_waits last lt j below ne =
        total-others (waits s.generation) (waits_small s.generation) k pc i j lt mine
          (omega (
            arith,
            waiting,
            last,
            few,
            total-lt (waits s.generation) (waits_small s.generation) k pc i lt mine,
          ))
          below ne
      where
        mine : waits s.generation (pc i) ≡ 0
        mine = rw f.here none_waits

    move-IsPlaced :
        m < 2 ^ 32
        → i < k
        → (j : ℕ) → j < k
        → IsPlaced m s'.generation s'.counter (update pc i p' j)
    unfolding advance arrive
    move-IsPlaced small lt j below = elim (ℕ_discrete i j) [
      | yes e ↦ ground (arith, st, f.own, e)
      | no ne ↦ ground (
        arith,
        st,
        ne,
        f.own,
        placed j below,
        λ (h : holds p ≡ 1). alone h j below ne lt,
        λ (h : waits s.generation p ≡ 0) (q : s.arrived + 1 ≡ n). crowd h q lt j below ne,
      )
    ]

    -- The barrier opens, and nobody waits in the new generation.
    none_waiting :
        s'.generation ≡ s.generation + 1
        → i < k
        → (j : ℕ) → j < k
        → waits s'.generation (update pc i p' j) ≡ 0
    unfolding advance arrive
    none_waiting opened lt j below = elim (ℕ_discrete i j) [
      | yes e ↦ ground (arith, st, f.own, e)
      | no ne ↦ ground (
        arith,
        st,
        ne,
        f.own,
        placed j below,
        λ (h : waits s.generation p ≡ 0) (q : s.arrived + 1 ≡ n). crowd h q lt j below ne,
      )
    ]

    generation_cases :
        (s'.generation ≡ s.generation) ⊎ ((s'.generation ≡ s.generation + 1) × (s'.arrived ≡ 0))
    unfolding advance arrive
    generation_cases = ground (arith, st)

    same_waiting :
        s'.generation ≡ s.generation → s'.arrived ≡ total (waits s.generation) k (update pc i p')
    unfolding advance arrive
    same_waiting same = ground (arith, st, f.own, f.waiters, waiting)

    move-full : i < k → 1 ≤ s'.generation → k ≡ n
    unfolding advance arrive
    move-full lt g = ground (
      arith,
      st,
      g,
      f.own,
      f.here,
      full,
      few,
      waiting,
      λ (h : waits s.generation (pc i) ≡ 0).
          total-lt (waits s.generation) (waits_small s.generation) k pc i lt h,
    )

    move-waiting : i < k → s'.arrived ≡ total (waits s'.generation) k (update pc i p')
    move-waiting lt = elim generation_cases [
      | inl same ↦ rw same (same_waiting same)
      | inr (opened, empty) ↦ omega (
        arith,
        empty,
        total-const (waits s'.generation) 0 k (update pc i p') (none_waiting opened lt),
      )
    ]

  -- A step of a thread keeps the invariant, in all its parts.
  pub Move-Inv :
      m < 2 ^ 32
      → i < k
      → {s' : Shared} {p' : Pc} → advance n m s (pc i) ≡ some (s', p')
      → Inv n m l k s' (update pc i p')
  Move-Inv small lt {s'} {p'} st =
      let f = mover lt p' in
      record {
        few = few;
        full = move-full st f lt;
        mutex = move-mutex st f;
        counted = move-counted st f small;
        waiting = move-waiting st f lt;
        room = move-room st f;
        owned = move-owned st f;
        placed = move-IsPlaced st f small lt;
      }
