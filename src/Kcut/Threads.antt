-- ===== src/Kcut/Threads.antt =====
-- examples/kcuttest/main.c: `threadfn` and the spawning and joining of its threads, interleaved in
-- any order.
pub mod Totals
pub mod Invariant
pub mod Moves
pub mod Main
pub mod Safety
pub mod Progress
pub mod Termination
mod Tests
use symbi_os.Base.{ℕ, suc, ◌+◌, ◌-◌, ◌%◌, ◌^◌, ◌<◌, ◌≡◌, Bool, true, false, Option, none, some}
use symbi_os.Base.{update, ltb, ◌==◌, if◌then◌else◌}

abbrev pub u32 : ℕ → ℕ
u32 n = n % 2 ^ 32

-- Where a thread stands in `threadfn`, with the local variables that are live there. `counter++` is
-- a load and a store; a wait at the barrier keeps the generation in which it began.
pub data Pc : Type 0 where
  entered : Pc  -- up to the first wait
  first_wait : (gen : ℕ) → Pc
  head : (i : ℕ) → Pc  -- the test of the loop, and then `pthread_mutex_lock`
  owning : (i : ℕ) → Pc  -- before the load
  loaded : (i v : ℕ) → Pc
  stored : (i : ℕ) → Pc  -- before `pthread_mutex_unlock`
  touching : (i : ℕ) → Pc  -- `heaptouch`, `k_heaptouch`
  last_wait : (gen : ℕ) → Pc
  freeing : Pc  -- before `free(argptr)`
  returned : Pc

-- The globals of the test; `args` counts the `thread_arg_t` that are allocated and not freed.
pub record Shared : Type 0 where
  pub counter : ℕ  -- unsigned int
  pub locked : Bool
  pub arrived : ℕ
  pub generation : ℕ
  pub args : ℕ

-- `pthread_barrier_wait`: the call that completes the number returns at once and opens the next
-- generation; the others wait for that.
unfoldable pub arrive : ℕ → Shared → (ℕ → Pc) → Pc → Shared × Pc
arrive n s wait next =
    if s.arrived + 1 == n
    then (record s { arrived = 0; generation = s.generation + 1 }, next)
    else (record s { arrived = s.arrived + 1 }, wait s.generation)

-- The next step of a thread in `threadfn`, `none` while it is blocked and after it has returned.
-- The barrier is for `n` threads, and `m` is `num_increments`.
unfoldable pub advance : ℕ → ℕ → Shared → Pc → Option (Shared × Pc)
unfolding arrive
advance n m s Pc.entered = some (arrive n s Pc.first_wait (Pc.head 0))
advance n m s (Pc.first_wait g) = if g == s.generation then none else some (s, Pc.head 0)
advance n m s (Pc.head i) =
    if ltb i m
    then (if s.locked then none else some (record s { locked = true }, Pc.owning i))
    else some (arrive n s Pc.last_wait Pc.freeing)
advance n m s (Pc.owning i) = some (s, Pc.loaded i s.counter)
advance n m s (Pc.loaded i v) = some (record s { counter = u32 (v + 1) }, Pc.stored i)
advance n m s (Pc.stored i) = some (record s { locked = false }, Pc.touching i)
advance n m s (Pc.touching i) = some (s, Pc.head (u32 (i + 1)))
advance n m s (Pc.last_wait g) = if g == s.generation then none else some (s, Pc.freeing)
advance n m s Pc.freeing = some (record s { args = s.args - 1 }, Pc.returned)
advance n m s Pc.returned = none

-- Where `main` stands in the test.
pub data MainPc : Type 0 where
  creating : (i : ℕ) → MainPc
  joining : (i : ℕ) → MainPc
  ended : MainPc
  undefined : MainPc  -- `pthread_join` of an entry of `threads` that was never set

-- The threads are those below `created`; `pc` of any other number stands for none.
pub record System : Type 0 where
  pub shared : Shared
  pub created : ℕ
  pub pc : ℕ → Pc
  pub main : MainPc

abbrev pub with_arg : Shared → Shared
with_arg s = record s { args = s.args + 1 }

-- `pthread_create` succeeds at iteration `i`, or fails.
abbrev pub spawned : System → ℕ → System
spawned s i = record s {
  shared = with_arg s.shared;
  created = s.created + 1;
  pc = update s.pc i Pc.entered;
  main = MainPc.creating (i + 1);
}

abbrev pub not_spawned : System → System
not_spawned s = record s { shared = with_arg s.shared; main = MainPc.joining 0 }

abbrev pub has_returned : Pc → Bool
has_returned Pc.returned = true
has_returned _ = false

-- The next step of `main`; `creates i` says whether `pthread_create` succeeds at iteration `i`.
-- `none` where `pthread_join` waits, and at the end.
unfoldable pub main_advance : ℕ → (ℕ → Bool) → System → MainPc → Option System
main_advance n creates s (MainPc.creating i) =
    if ltb i n
    then some (if creates i then spawned s i else not_spawned s)
    else some (record s { main = MainPc.joining 0 })
main_advance n creates s (MainPc.joining i) =
    if ltb i n
    then (if ltb i s.created
        then (if has_returned (s.pc i)
            then some (record s { main = MainPc.joining (i + 1) })
            else none)
        else some (record s { main = MainPc.undefined }))
    else some (record s { main = MainPc.ended })
main_advance n creates s MainPc.ended = none
main_advance n creates s MainPc.undefined = none

-- The test begins with no thread; without threads to spawn it is over.
abbrev pub init : ℕ → System
init n = record {
  shared = record { counter = 0; locked = false; arrived = 0; generation = 0; args = 0 };
  created = 0;
  pc = λ _. Pc.entered;
  main = if n == 0 then MainPc.ended else MainPc.creating 0;
}

pub data Step (n m : ℕ) (creates : ℕ → Bool) (s : System) : System → Type 0 where
  main_moves : {t : System} → main_advance n creates s s.main ≡ some t → Step n m creates s t
  thread_moves :
      (i : ℕ) {h : Shared} {p : Pc}
      → i < s.created
      → advance n m s.shared (s.pc i) ≡ some (h, p)
      → Step n m creates s (record s { shared = h; pc = update s.pc i p })

-- The states after `k` steps from the start of the test.
pub data Reach (n m : ℕ) (creates : ℕ → Bool) : ℕ → System → Type 0 where
  start : Reach n m creates 0 (init n)
  later :
      {k : ℕ} {s t : System}
      → Reach n m creates k s
      → Step n m creates s t
      → Reach n m creates (suc k) t
