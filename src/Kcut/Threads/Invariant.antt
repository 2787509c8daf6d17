-- ===== src/Kcut/Threads/Invariant.antt =====
-- What holds in every state of the thread test of examples/kcuttest/main.c.
use symbi_os.Base.{ℕ, ◌+◌, ◌≤◌, ◌<◌, ◌≡◌, Bool, true, false, ltb}
use symbi_os.Base.{◌==◌, if◌then◌else◌}
use symbi_os.Kcut.Threads.{Pc, Shared, System, MainPc, u32}
use symbi_os.Kcut.Threads.Totals.{total}

-- A thread between the return of `pthread_mutex_lock` and the call of `pthread_mutex_unlock`.
abbrev pub holds : Pc → ℕ
holds (Pc.owning _) = 1
holds (Pc.loaded _ _) = 1
holds (Pc.stored _) = 1
holds _ = 0

-- How often a thread has stored to `counter`.
abbrev pub stores : ℕ → Pc → ℕ
stores m (Pc.head i) = i
stores m (Pc.owning i) = i
stores m (Pc.loaded i _) = i
stores m (Pc.stored i) = i + 1
stores m (Pc.touching i) = i + 1
stores m (Pc.last_wait _) = m
stores m Pc.freeing = m
stores m Pc.returned = m
stores m _ = 0

-- A thread that is blocked at the barrier.
abbrev pub waits : ℕ → Pc → ℕ
waits gen (Pc.first_wait g) = if g == gen then 1 else 0
waits gen (Pc.last_wait g) = if g == gen then 1 else 0
waits gen _ = 0

-- A thread that has not freed its argument.
abbrev pub keeps : Pc → ℕ
keeps Pc.returned = 0
keeps _ = 1

abbrev pub bit : Bool → ℕ
bit true = 1
bit false = 0

-- Where a thread can be: before the first barrier has opened, up to the second, and after it; a
-- thread that loads the counter sees its last value until it stores.
abbrev pub IsPlaced : ℕ → ℕ → ℕ → Pc → Type 0
IsPlaced m gen c Pc.entered = gen ≡ 0
IsPlaced m gen c (Pc.first_wait g) = (g ≡ 0) × (gen ≤ 1)
IsPlaced m gen c (Pc.head i) = (gen ≡ 1) × (i ≤ m)
IsPlaced m gen c (Pc.owning i) = (gen ≡ 1) × (i < m)
IsPlaced m gen c (Pc.loaded i v) = (gen ≡ 1) × (i < m) × (v ≡ c)
IsPlaced m gen c (Pc.stored i) = (gen ≡ 1) × (i < m)
IsPlaced m gen c (Pc.touching i) = (gen ≡ 1) × (i < m)
IsPlaced m gen c (Pc.last_wait g) = (g ≡ 1) × (1 ≤ gen) × (gen ≤ 2)
IsPlaced m gen c Pc.freeing = gen ≡ 2
IsPlaced m gen c Pc.returned = gen ≡ 2

-- What the threads say of the globals; `leaked` arguments belong to no thread.
pub record Inv (n m leaked k : ℕ) (s : Shared) (pc : ℕ → Pc) : Type 0 where
  pub few : k ≤ n
  pub full : 1 ≤ s.generation → k ≡ n
  pub mutex : total holds k pc ≡ bit s.locked
  pub counted : s.counter ≡ u32 (total (stores m) k pc)
  pub waiting : s.arrived ≡ total (waits s.generation) k pc
  pub room : 0 < n → s.arrived < n
  pub owned : s.args ≡ total keeps k pc + leaked
  pub placed : (i : ℕ) → i < k → IsPlaced m s.generation s.counter (pc i)

-- The step in the test that `main` has reached, after the creation of the first `k` threads.
abbrev pub IsAt : ℕ → ℕ → (ℕ → Pc) → MainPc → Type 0
IsAt n k pc (MainPc.creating i) = (i ≡ k) × (i ≤ n)
IsAt n k pc (MainPc.joining j) = (j ≤ n) × ((i : ℕ) → i < j → (i < k) × (pc i ≡ Pc.returned))
IsAt n k pc MainPc.undefined = k < n
IsAt n k pc MainPc.ended = (k ≡ n) × ((i : ℕ) → i < n → pc i ≡ Pc.returned)

-- The argument of the thread that could not be created is freed by none.
abbrev pub leaked : ℕ → System → ℕ
leaked n s = elim s.main [ MainPc.creating _ ↦ 0 | _ ↦ if ltb s.created n then 1 else 0 ]

pub record IsSound (n m : ℕ) (s : System) : Type 0 where
  pub threads : Inv n m (leaked n s) s.created s.shared s.pc
  pub stage : IsAt n s.created s.pc s.main
