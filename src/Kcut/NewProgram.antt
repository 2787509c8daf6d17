-- ===== src/Kcut/NewProgram.antt =====
-- examples/kcuttest/newmain.c: the options, `ktos`, `evacuate` and `main` of a newer version of the tests.
-- The loops over yields and forks and the threads are those of main.c, word for word.
pub mod Accepted
pub mod Evacuated
use symbi_os.Base.{
  ℕ, zero, suc, ◌+◌, ◌-◌, ◌%◌, ◌^◌, Bool, true, false, not, Option, none, some, List, [], ◌∷◌, ◌==◌,
  if◌then◌else◌, Bytes,
}
use symbi_os.Base.Machine.{M, done, pure, assert, nyi, ◌>>=◌, ◌>>◌}
use symbi_os.Kcut.Shortcut.{
  World, Process, Call, KernelFunction, u32, when, kernel, record_call, set_elevated,
}
use symbi_os.Kcut.Program.{kernel_yields, yield_rounds, thread_test, rounds, forks, call_if}
use symbi_os.Kcut.Program.Arguments.{arg, as_int, as_long}

-- `struct CLArgs`; `usdelay` is the text of the number.
pub record ClArgs : Type 0 where
  pub usflg : ℕ
  pub usdelay : Bytes
  pub ssec : ℕ
  pub bloop : ℕ
  pub yieldcnt : ℕ
  pub evac : ℕ
  pub num_forks : ℕ
  pub num_spawns : ℕ
  pub num_increments : ℕ
  pub stack_df : ℕ
  pub do_test_pfasm : ℕ
  pub do_test_interrupt : ℕ

abbrev pub default_args : ClArgs
default_args = record {
  usflg = 0;
  usdelay = [];
  ssec = 1;
  bloop = 1000000000;
  yieldcnt = 10;
  evac = 1;
  num_forks = 1000;
  num_spawns = 1000;
  num_increments = 1000;
  stack_df = 1;
  do_test_pfasm = 0;
  do_test_interrupt = 0;
}

abbrev pub zeroed : ClArgs
zeroed = record {
  usflg = 0;
  usdelay = [];
  ssec = 0;
  bloop = 0;
  yieldcnt = 0;
  evac = 0;
  num_forks = 0;
  num_spawns = 0;
  num_increments = 0;
  stack_df = 0;
  do_test_pfasm = 0;
  do_test_interrupt = 0;
}

-- One option that `getopt` found, with its argument; `is_double` says whether `strtod` reads the whole
-- of a text. `none` is `exit(-1)`.
unfoldable pub process_option : (Bytes → Bool) → ℕ × Bytes → ClArgs → Option ClArgs
process_option is_double (opt, optarg) a =
    if opt == b'I'
    then some (record a { num_increments = default_args.num_increments })
    else if opt == b'U'
    then (if is_double optarg then some (record a { usdelay = optarg; usflg = 1 }) else none)
    else if opt == b'S'
    then some (record a { num_increments = default_args.num_spawns })
    else if opt == b'b'
    then some (record a { bloop = default_args.bloop })
    else none

unfoldable pub process_options : (Bytes → Bool) → List (ℕ × Bytes) → ClArgs → Option ClArgs
unfolding process_option
process_options is_double [] a = some a
process_options is_double (o ∷ os) a = elim (process_option is_double o a) [
  | none ↦ none
  | some b ↦ process_options is_double os b
]

-- The operands, `argv[optind]` and those behind it.
unfoldable pub process_operands : (Bytes → ℕ) → (Bytes → ℕ) → List Bytes → ClArgs → ClArgs
process_operands atoi atol args a = record a {
  ssec = arg (as_int atoi) args 0 a.ssec;
  bloop = arg (as_long atol) args 1 a.bloop;
  yieldcnt = arg (as_long atol) args 2 a.yieldcnt;
  evac = arg (as_int atoi) args 3 a.evac;
  num_forks = arg (as_int atoi) args 4 a.num_forks;
  num_spawns = arg (as_int atoi) args 5 a.num_spawns;
  num_increments = arg (as_int atoi) args 6 a.num_increments;
  stack_df = arg (as_int atoi) args 7 a.stack_df;
  do_test_pfasm = arg (as_int atoi) args 8 a.do_test_pfasm;
  do_test_interrupt = arg (as_int atoi) args 9 a.do_test_interrupt;
}

unfoldable pub process_args :
    (Bytes → Bool) → (Bytes → ℕ) → (Bytes → ℕ) → List (ℕ × Bytes) → List Bytes → Option ClArgs
unfolding process_options process_operands
process_args is_double atoi atol opts args = elim (process_options is_double opts zeroed) [
  | none ↦ none
  | some a ↦ some (process_operands atoi atol args a)
]

-- `on_stack` is the macro SYM_ON_KERN_STACK_DYNSYM_DO of Symlib, with the offset of the stack, around
-- the run of a kernel function; `stack_word` is what the variable `rc` holds before it is set.
module _ (w : World) (on_stack : ℕ → KernelFunction → M Process ℕ) (stack_word : ℕ) where
  -- `ktos` with `resolve_sym`; `myktos` is the variable of the one thread that calls it.
  unfoldable pub ktos : M Process ℕ
  ktos p =
      if p.tos_val == 0
      then elim w.tos [ none ↦ nyi p | some v ↦ done v (record p { tos_val = v }) ]
      else done p.tos_val p

  unfoldable pub acquire : ℕ → M Process ℕ
  unfolding ktos
  acquire cpu = do t ← ktos; on_stack t (KernelFunction.acquire_cpu cpu)

  unfoldable pub release_held : ℕ → M Process ℕ
  unfolding ktos
  release_held cpu = do t ← ktos; _ ← on_stack t (KernelFunction.release_cpu cpu); pure stack_word

  unfoldable pub evacuate : Bool → M Process (Unit {0})
  unfolding acquire release_held
  evacuate b = do
    cpu ← (elim w.cpu [ none ↦ nyi | some c ↦ pure c ])
    rc ← (if b then acquire cpu else release_held cpu)
    assert (u32 rc == 0)

  unfoldable pub first_tests : M Process (Unit {0})
  first_tests = do
    _ ← kernel w KernelFunction.read_cr3 false
    _ ← kernel w KernelFunction.overflowuid false
    _ ← kernel w KernelFunction.printk false
    _ ← kernel w (KernelFunction.kernel_add 3 4) false
    _ ← kernel w KernelFunction.get_pid false
    _ ← kernel w KernelFunction.pf_cnt_get false
    _ ← kernel w KernelFunction.df_cnt_get false
    pure tt

  unfoldable pub pfasm_tests : M Process (Unit {0})
  pfasm_tests = do
    _ ← kernel w (KernelFunction.test_pfasm 1 1) false
    _ ← kernel w (KernelFunction.test_pfasm 1 0) false
    _ ← kernel w (KernelFunction.test_pfasm 0 1) false
    _ ← kernel w (KernelFunction.test_pfasm 0 0) false
    pure tt

  unfoldable pub last_tests : ClArgs → M Process (Unit {0})
  unfolding pfasm_tests
  last_tests a = do
    thread_test w a.num_spawns a.num_increments
    call_if w (not (a.stack_df == 0)) (Call.stack_test (a.stack_df - 1))
    when (not (a.do_test_pfasm == 0)) pfasm_tests
    call_if w (not (a.do_test_interrupt == 0)) Call.interrupt_e0

  unfoldable pub elevated_tests : ClArgs → M Process (Unit {0})
  unfolding first_tests last_tests
  elevated_tests a = do
    first_tests
    yield_rounds w (rounds a.yieldcnt)
    kernel_yields w a.yieldcnt
    call_if w (not (a.ssec == 0)) (Call.sleep a.ssec)
    forks w a.num_forks
    last_tests a

  -- `main` after `processArgs`; `userstab_test` is passed in.
  unfoldable pub main : M Process (Unit {0}) → ClArgs → M Process ℕ
  unfolding evacuate elevated_tests
  main userstab_test a = do
    when (not (a.usflg == 0)) userstab_test
    when (not (a.evac == 0)) (evacuate true)
    set_elevated true
    elevated_tests a
    set_elevated false
    when (not (a.evac == 0)) (evacuate false)
    pure 0
