-- ===== src/Migration.antt =====
-- examples/cpu_migration/main.c: a program that works in three ways while it is elevated.
pub mod Primes
pub mod Privileges
mod Tests
use symbi_os.Base.{
  ℕ, zero, suc, ◌+◌, ◌-◌, ◌*◌, ◌/◌, ◌%◌, ◌^◌, Bool, true, false, not, Option, none, some, List, [],
  ◌∷◌, ◌==◌, leb, if◌then◌else◌, Bytes, codes, bytes_eq, is_some,
}
use symbi_os.Base.Machine.{M, done, fault, out_of_fuel, pure, get, ◌>>=◌, ◌>>◌}

pub data Mode : Type 0 where
  sleep busy io : Mode

-- The first argument, if there is one.
unfoldable pub mode_of : Option Bytes → Mode
mode_of none = Mode.sleep
mode_of (some s) =
    if bytes_eq s (codes "sleep")
    then Mode.sleep
    else if bytes_eq s (codes "busy")
    then Mode.busy
    else if bytes_eq s (codes "io")
    then Mode.io
    else Mode.sleep

abbrev pub u64 : ℕ → ℕ
u64 n = n % 2 ^ 64

-- The inner loop of `busy_work`: whether `num` is left as a prime, on fuel.
unfoldable pub trial : ℕ → ℕ → ℕ → Option Bool
trial zero i num = none
trial (suc fuel) i num =
    let rest = trial fuel (u64 (i + 1)) num in
    if leb (u64 (i * i)) num then (if num % i == 0 then some false else rest) else some true

-- The outer loop: `n` numbers from `num` on.
unfoldable pub count_primes : ℕ → ℕ → ℕ → Option ℕ
unfolding trial
count_primes zero num count = some count
count_primes (suc n) num count = elim (trial num 2 num) [
  | none ↦ none
  | some b ↦ count_primes n (num + 1) (if b then u64 (count + 1) else count)
]

abbrev pub busy_work : ℕ → Option ℕ
busy_work limit = count_primes (limit - 2) 2 0

abbrev pub buffer_size : ℕ
buffer_size = 1024 * 1024 * 256

-- What the system is asked for; a kernel function needs the privileges.
pub data Call : Type 0 where
  open_write open_read : Call
  write_file read_file fsync close_file : (fd : ℕ) → Call
  usleep : (n : ℕ) → Call
  unlink : Call
  kernel : (name : Bytes) → Call

-- What each call returns, given those before, the last first: 32 bits, where it is a descriptor.
pub record World : Type 0 where
  pub result : List Call → Call → ℕ

-- `initialized` is the static variable of `io_work`; the buffer it guards is the pattern then.
pub record Process : Type 0 where
  pub elevated : Bool
  pub initialized : Bool
  pub calls : List Call

module _ (w : World) where
  abbrev pub call : Call → M Process ℕ
  call c p = done (w.result p.calls c) (record p { calls = c ∷ p.calls })

  abbrev pub kernel_call : Bytes → M Process ℕ
  kernel_call name p = if p.elevated then call (Call.kernel name) p else fault

  -- `fd >= 0`
  abbrev pub is_descriptor : ℕ → Bool
  is_descriptor fd = not (leb (2 ^ 31) (fd % 2 ^ 32))

  unfoldable pub write_part : M Process (Unit {0})
  write_part = do
    fd ← call Call.open_write
    if is_descriptor fd
        then (call (Call.write_file fd)
            >> call (Call.fsync fd)
            >> call (Call.close_file fd)
            >> pure tt)
        else pure tt

  unfoldable pub read_part : M Process (Unit {0})
  read_part = do
    fd ← call Call.open_read
    if is_descriptor fd
        then (call (Call.read_file fd) >> call (Call.close_file fd) >> pure tt)
        else pure tt

  unfoldable pub io_work : M Process (Unit {0})
  unfolding write_part read_part
  io_work p = (write_part >> read_part) (record p { initialized = true })

  -- `busy_work` makes no call.
  unfoldable pub work : Mode → M Process (Unit {0})
  unfolding io_work
  work Mode.sleep = do _ ← call (Call.usleep 500000); pure tt
  work Mode.busy = pure tt
  work Mode.io = io_work

  unfoldable pub report_round : M Process (Unit {0})
  report_round = do
    _ ← kernel_call (codes "get_current_task_struct")
    _ ← kernel_call (codes "get_current_pid")
    _ ← kernel_call (codes "get_current_cpu_id")
    _ ← kernel_call (codes "get_current_gs_base")
    _ ← kernel_call (codes "get_current_cr3")
    _ ← kernel_call (codes "get_current_symbi_state")
    _ ← kernel_call (codes "_printk")
    pure tt

  unfoldable pub rounds : ℕ → Mode → M Process (Unit {0})
  unfolding report_round work
  rounds zero m = pure tt
  rounds (suc n) m = do report_round; work m; rounds n m

  abbrev pub set_elevated : Bool → M Process (Unit {0})
  set_elevated b p = done tt (record p { elevated = b })

  abbrev pub remove_file : Mode → M Process (Unit {0})
  remove_file Mode.io = (call Call.unlink >> pure tt)
  remove_file _ = pure tt

  unfoldable pub main : Option Bytes → M Process ℕ
  unfolding mode_of rounds
  main arg = do
    set_elevated true
    rounds 100 (mode_of arg)
    set_elevated false
    remove_file (mode_of arg)
    pure 0
