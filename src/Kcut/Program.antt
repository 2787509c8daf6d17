-- ===== src/Kcut/Program.antt =====
-- examples/kcuttest/main.c: `stacktouch` and its kin, and `main`.
pub mod Arguments
pub mod Run
pub mod Privileges
use symbi_os.Base.{
  ℕ, zero, suc, ◌+◌, ◌-◌, ◌*◌, ◌/◌, ◌%◌, ◌^◌, Bool, true, false, not, Option, none, some, List, [],
  ◌∷◌, ◌==◌, ltb, if◌then◌else◌, update,
}
use symbi_os.Base.Machine.{M, done, fault, out_of_fuel, pure, exit, ◌>>=◌, ◌>>◌}
use symbi_os.Kcut.Shortcut.{
  World, Process, Call, KernelFunction, u32, when, kernel, record_call, set_elevated, kcut_evacuate,
}
use symbi_os.Kcut.Program.Arguments.{Options}

abbrev pub page : ℕ
page = 4096

-- `data[i]` as an int
abbrev pub int_of_char : ℕ → ℕ
int_of_char b = if ltb b 128 then b else u32 (b + 2 ^ 32 - 256)

-- The loop over `data`, an array of chars, from `i`; the fuel is one more than the pages.
unfoldable pub touch : ℕ → ℕ → ℕ → ℕ → (ℕ → ℕ) → Option (ℕ × (ℕ → ℕ))
touch zero n i sum mem = none
touch (suc fuel) n i sum mem = elim (ltb i n) [
  | false ↦ some (sum, mem)
  | true ↦
      let mem' = update mem i 0xff in
      touch fuel n (i + page) (u32 (sum + int_of_char (mem' i))) mem'
]

-- The sum of `stacktouch`, on whatever the array holds before.
unfoldable pub stacktouch : (ℕ → ℕ) → Option (ℕ × (ℕ → ℕ))
unfolding touch
stacktouch mem = touch 9 (page * 8) 0 0 mem

-- The rounds of `for (int i=0; i<yieldcnt; i++)`, where `yieldcnt` is a long. From 2^31 on the loop has
-- no end, since `i` leaves the range of an int first, which is undefined.
abbrev pub rounds : ℕ → Option ℕ
rounds yieldcnt =
    if ltb yieldcnt (2 ^ 31) then some yieldcnt else if ltb yieldcnt (2 ^ 63) then none else some 0

module _ (w : World) where
  abbrev pub touched : M Process ℕ
  touched s = elim (touch 9 (page * 8) 0 0 (λ _. 0)) [
    | none ↦ out_of_fuel
    | some (sum, _) ↦ done sum s
  ]

  unfoldable pub heaptouch : M Process ℕ
  heaptouch = do
    p ← record_call w (Call.malloc (page * 8))
    sum ← (if p == 0 then (λ s. fault) else touched)
    _ ← record_call w (Call.free p)
    pure sum

  unfoldable pub k_heaptouch : M Process ℕ
  k_heaptouch = do
    p ← kernel w (KernelFunction.vmalloc (page * 8)) false
    sum ← (if p == 0 then (λ s. fault) else touched)
    _ ← kernel w (KernelFunction.vfree p) false
    pure sum

  -- `__x64_sys_sched_yield` while `yieldcnt` is not 0; a negative one is 2^64 more.
  unfoldable pub kernel_yields : ℕ → M Process (Unit {0})
  kernel_yields zero = pure tt
  kernel_yields (suc n) = do _ ← kernel w KernelFunction.sched_yield false; kernel_yields n

  unfoldable pub user_yields : ℕ → M Process (Unit {0})
  user_yields zero = pure tt
  user_yields (suc n) = do _ ← record_call w Call.yield; user_yields n

  unfoldable pub yield_rounds : Option ℕ → M Process (Unit {0})
  unfolding user_yields
  yield_rounds none = λ s. fault
  yield_rounds (some n) = user_yields n

  -- A child of the fork test
  unfoldable pub child : M Process (Unit {0})
  child = do _ ← kernel w KernelFunction.get_pid false; exit 0

  -- `n` rounds are left. The answer of `fork` says whether this process is the child of this round.
  unfoldable pub forks : ℕ → M Process (Unit {0})
  unfolding child
  forks zero = pure tt
  forks (suc n) = do
    r ← record_call w Call.fork
    if u32 r == 0 then child else if ltb (u32 r) (2 ^ 31) then forks n else pure tt

  -- The tests up to the yields. `stacktouch` and `printf` leave no trace in the state.
  unfoldable pub first_tests : M Process (Unit {0})
  first_tests = do
    _ ← kernel w KernelFunction.read_cr3 false
    _ ← kernel w KernelFunction.k_stacktouch false
    _ ← kernel w KernelFunction.overflowuid false
    _ ← kernel w KernelFunction.printk false
    _ ← kernel w (KernelFunction.kernel_add 3 4) false
    _ ← kernel w KernelFunction.get_pid false
    _ ← kernel w KernelFunction.pf_cnt_get false
    _ ← kernel w KernelFunction.df_cnt_get false
    pure tt

  abbrev pub call_if : Bool → Call → M Process (Unit {0})
  call_if b c = if b then (record_call w c >>= λ _. pure tt) else pure tt

  -- The test of threads, if it is asked for. The steps of the threads are in Kcut.Threads; where one of
  -- them could not be created, the test has no end.
  unfoldable pub thread_test : (num_spawns num_increments : ℕ) → M Process (Unit {0})
  thread_test num_spawns num_increments = if num_spawns == 0 then pure tt else (do
    _ ← record_call w (Call.thread_test num_spawns num_increments)
    if w.threads_made then pure tt else (λ s. out_of_fuel))

  -- The calls that `mmap_stack_test` makes are in Kcut.StackTest.
  unfoldable pub last_tests : Options → M Process (Unit {0})
  unfolding thread_test
  last_tests o = do
    thread_test o.num_spawns o.num_increments
    call_if (not (o.stack_df == 0)) (Call.stack_test (o.stack_df - 1))
    call_if (not (o.do_test_interrupt == 0)) Call.interrupt_e0

  -- The busy loop over `bloop` does nothing but end, and is left out.
  unfoldable pub elevated_tests : Options → M Process (Unit {0})
  unfolding first_tests last_tests kernel_yields yield_rounds forks
  elevated_tests o = do
    first_tests
    yield_rounds (rounds o.yieldcnt)
    kernel_yields o.yieldcnt
    call_if (not (o.ssec == 0)) (Call.sleep o.ssec)
    forks o.num_forks
    last_tests o

  -- `main`, after its options are read.
  unfoldable pub main : Options → M Process ℕ
  unfolding elevated_tests
  main o = do
    when (not (o.evac == 0)) (kcut_evacuate w true)
    set_elevated true
    elevated_tests o
    set_elevated false
    when (not (o.evac == 0)) (kcut_evacuate w false)
    pure 0
