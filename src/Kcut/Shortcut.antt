-- ===== src/Kcut/Shortcut.antt =====
-- examples/kcuttest/kcut_tcpmsg.h, kcut.h, ktos.h and evacuate.h: reads and writes on a TCP connection
-- that mostly call the kernel's functions directly.
pub mod Session
pub mod Cycle
use symbi_os.Base.{
  ℕ, ◌+◌, ◌-◌, ◌%◌, ◌^◌, Bool, true, false, not, ◌&&◌, ◌||◌, Option, none, some, List, [], ◌∷◌,
  ◌==◌, ltb, if◌then◌else◌,
}
use symbi_os.Base.Machine.{M, done, fault, pure, get, put, assert, nyi, ◌>>=◌, ◌>>◌}

-- Functions of the kernel and of its extensions, with their arguments; a look at one of its variables
-- and a privileged instruction count as well.
pub data KernelFunction : Type 0 where
  tcp_recvmsg tcp_sendmsg sys_read sys_write : (fd count : ℕ) → KernelFunction
  acquire_cpu : (cpu : ℕ) → KernelFunction  -- with EVAC_KILL_NICELY
  release_cpu : (cpu : ℕ) → KernelFunction
  get_pid printk overflowuid read_cr3 pf_cnt_get df_cnt_get k_stacktouch sched_yield :
      KernelFunction
  kernel_add : (a b : ℕ) → KernelFunction
  test_pfasm : (kernel error_code : ℕ) → KernelFunction
  vmalloc vfree : (n : ℕ) → KernelFunction

-- A system call or a call of the C library, or a direct call on the thread's stack or on the kernel's.
pub data Call : Type 0 where
  plain_read plain_write : (fd count : ℕ) → Call
  yield fork interrupt_e0 : Call
  sleep malloc free : (n : ℕ) → Call
  stack_test : (operation : ℕ) → Call  -- `mmap_stack_test`
  thread_test : (spawns increments : ℕ) → Call  -- the threads of Kcut.Threads
  direct : (f : KernelFunction) (kernel_stack : Bool) → Call

-- The macros that the program is built with, and its surroundings: what each call returns, given
-- those before; the offset behind `cpu_current_top_of_stack`; `getcpu`; `atoi` of the variable
-- KCUT_THRESHOLD, if it is set; and whether `pthread_create` makes all threads of the test of threads.
pub record World : Type 0 where
  pub bracket_priv : Bool
  pub bracket_stack : Bool
  pub shortcut : Bool
  pub evacuate : Bool
  pub result : List Call → Call → ℕ  -- 64 bits
  pub tos : Option ℕ
  pub cpu : Option ℕ
  pub threshold : Option ℕ
  pub threads_made : Bool

-- `calls` has the last call first.
pub record Process : Type 0 where
  pub elevated : Bool
  pub tos_val : ℕ  -- `kcut_tos_offset_val`
  pub read_cnt : ℕ  -- `kcut_cnt` of `kcut_tcp_read`, int
  pub write_cnt : ℕ
  pub threshold : ℕ  -- KCUT_THRESHOLD, int
  pub calls : List Call

abbrev pub u32 : ℕ → ℕ
u32 n = n % 2 ^ 32

abbrev pub set_elevated : Bool → M Process (Unit {0})
set_elevated b p = done tt (record p { elevated = b })

-- `(ssize_t)(int)r`
abbrev pub int_result : ℕ → ℕ
int_result r = if ltb (u32 r) (2 ^ 31) then u32 r else u32 r + 2 ^ 64 - 2 ^ 32

abbrev pub when : Bool → M Process (Unit {0}) → M Process (Unit {0})
when b m = if b then m else pure tt

module _ (w : World) where
  abbrev pub record_call : Call → M Process ℕ
  record_call c p = done (w.result p.calls c) (record p { calls = c ∷ p.calls })

  -- Kernel code runs only in a thread that is elevated.
  abbrev pub kernel : KernelFunction → Bool → M Process ℕ
  kernel f stack p = if p.elevated then record_call (Call.direct f stack) p else fault

  -- `kcut_tos_offset` with `kcut_resolve_sym`
  unfoldable pub kcut_tos_offset : M Process ℕ
  kcut_tos_offset p =
      if p.tos_val == 0
      then elim w.tos [ none ↦ nyi p | some v ↦ done v (record p { tos_val = v }) ]
      else done p.tos_val p

  -- `stack_switch_kcall(kcut_tos_offset(), thunk, ...)`, where the thunk calls `f`
  unfoldable pub switched : KernelFunction → M Process ℕ
  unfolding kcut_tos_offset
  switched f = do _ ← kcut_tos_offset; kernel f true

  -- `kcut_acquire_exclusive_cpu_thunk` returns what the kernel does, the other thunk NULL.
  unfoldable pub acquire_on : ℕ → M Process ℕ
  unfolding switched
  acquire_on cpu = do
    set_elevated true
    rc ← switched (KernelFunction.acquire_cpu cpu)
    set_elevated false
    pure rc

  unfoldable pub release_on : ℕ → M Process ℕ
  unfolding switched
  release_on cpu = do
    set_elevated true
    _ ← switched (KernelFunction.release_cpu cpu)
    set_elevated false
    pure 0

  unfoldable pub kcut_evacuate : Bool → M Process (Unit {0})
  unfolding acquire_on release_on
  kcut_evacuate acquire = do
    cpu ← (elim w.cpu [ none ↦ nyi | some c ↦ pure c ])
    rc ← (if acquire then acquire_on cpu else release_on cpu)
    assert (u32 rc == 0)

  abbrev pub set_threshold : M Process (Unit {0})
  set_threshold p =
      done tt (record p { threshold = elim w.threshold [ none ↦ 20 | some n ↦ u32 n ] })

  unfoldable pub kcut_init : M Process (Unit {0})
  unfolding kcut_evacuate
  kcut_init = do
    when w.evacuate (kcut_evacuate true)
    set_threshold
    set_elevated true
    _ ← kernel KernelFunction.get_pid false
    set_elevated false
    when (not w.bracket_priv) (set_elevated true)

  unfoldable pub kcut_cleanup : M Process (Unit {0})
  unfolding kcut_evacuate
  kcut_cleanup = do
    when w.evacuate (kcut_evacuate false)
    when (not w.bracket_priv) (set_elevated false)

  -- The call between `ELEVATE_ME` and `LOWER_ME`: through a thunk on the kernel's stack, or directly.
  unfoldable pub bracketed : KernelFunction → M Process ℕ
  unfolding switched
  bracketed f = do
    when w.bracket_priv (set_elevated true)
    r ← (if w.bracket_stack then switched f else kernel f false)
    when w.bracket_priv (set_elevated false)
    pure (int_result r)

  abbrev pub recv_function : ℕ → ℕ → KernelFunction
  recv_function fd count =
      if w.shortcut then KernelFunction.tcp_recvmsg fd count else KernelFunction.sys_read fd count

  abbrev pub send_function : ℕ → ℕ → KernelFunction
  send_function fd count =
      if w.shortcut then KernelFunction.tcp_sendmsg fd count else KernelFunction.sys_write fd count

  abbrev pub set_read_cnt : ℕ → M Process (Unit {0})
  set_read_cnt n p = done tt (record p { read_cnt = n })

  abbrev pub set_write_cnt : ℕ → M Process (Unit {0})
  set_write_cnt n p = done tt (record p { write_cnt = n })

  unfoldable pub read_directly : ℕ → ℕ → M Process ℕ
  unfolding bracketed
  read_directly fd count = do
    ret ← bracketed (recv_function fd count)
    p ← get
    when (not w.bracket_priv) (set_read_cnt (u32 (p.read_cnt + 2 ^ 32 - 1)))
    pure ret

  unfoldable pub read_plainly : ℕ → ℕ → M Process ℕ
  read_plainly fd count = do
    ret ← record_call (Call.plain_read fd count)
    p ← get
    set_read_cnt p.threshold
    pure (int_result ret)

  unfoldable pub kcut_tcp_read : ℕ → ℕ → M Process ℕ
  unfolding read_directly read_plainly
  kcut_tcp_read fd count p =
      if w.bracket_priv || not (p.read_cnt == 0)
      then read_directly fd count p
      else read_plainly fd count p

  unfoldable pub write_directly : ℕ → ℕ → M Process ℕ
  unfolding bracketed
  write_directly fd count = do
    ret ← bracketed (send_function fd count)
    p ← get
    when (not w.bracket_priv) (set_write_cnt (u32 (p.write_cnt + 2 ^ 32 - 1)))
    pure ret

  unfoldable pub write_plainly : ℕ → ℕ → M Process ℕ
  write_plainly fd count = do
    ret ← record_call (Call.plain_write fd count)
    p ← get
    set_write_cnt p.threshold
    pure (int_result ret)

  unfoldable pub kcut_tcp_write : ℕ → ℕ → M Process ℕ
  unfolding write_directly write_plainly
  kcut_tcp_write fd count p =
      if w.bracket_priv || not (p.write_cnt == 0)
      then write_directly fd count p
      else write_plainly fd count p
