-- ===== src/Kcut/Program/Run.antt =====
-- What the program of examples/kcuttest/main.c does with its privileges, and which calls it makes.
use symbi_os.Base.{
  ℕ, zero, suc, ◌-◌, ◌^◌, ◌<◌, ◌≡◌, refl, Bool, true, false, not, ◌||◌, Bool-cases, inl, inr, some,
  List, [], ◌∷◌, ◌++◌, arith, ◌==◌, ltb, if◌then◌else◌,
}
use symbi_os.Base.Machine.{M, done, ◌>>=◌}
use symbi_os.Kcut.Shortcut.{World, Process, Call, KernelFunction, u32}
use symbi_os.Kcut.Program.Arguments.{Options}
use symbi_os.Kcut.Program.{
  touch, stacktouch, kernel_yields, user_yields, yield_rounds, thread_test, rounds, forks,
  first_tests, call_if, last_tests, elevated_tests,
}

-- `stacktouch` returns -8, whatever the stack holds.
pub stacktouch_sum : (mem : ℕ → ℕ) → (m : ℕ → ℕ) × (stacktouch mem ≡ some (2 ^ 32 - 8, m))
unfolding stacktouch touch
stacktouch_sum mem = (_, refl)

-- The calls `cs`, in this order, on top of those before.
abbrev pub pushed : List Call → List Call → List Call
pushed [] l = l
pushed (c ∷ cs) l = pushed cs (c ∷ l)

pushed-append : (cs ds l : List Call) → pushed (cs ++ ds) l ≡ pushed ds (pushed cs l)
pushed-append [] ds l = refl
pushed-append (c ∷ cs) ds l = pushed-append cs ds (c ∷ l)

abbrev pub elevated_with : List Call → Process → Process
elevated_with l p = record p { elevated = true; calls = l }

-- In an elevated thread, the run ends, and has made these calls and done nothing else.
pub record Makes {A : Type 0} (cs : List Call) (m : M Process A) : Type 0 where
  pub run :
      (p : Process)
      → (a : A) × (m (elevated_with p.calls p) ≡ done a (elevated_with (pushed cs p.calls) p))

Makes-bind :
    {A B : Type 0} {cs ds : List Call} {m : M Process A} {k : A → M Process B}
    → Makes cs m
    → ((a : A) → Makes ds (k a))
    → Makes (cs ++ ds) (m >>= k)
Makes-bind {cs} {ds} {m} {k} first next = record {
  run = λ p.
      let (a, e) = first.run p in
      let (b, f) = (next a).run (record p { calls = pushed cs p.calls }) in
      (b, rw (e, pushed-append cs ds p.calls) f);
}

abbrev pub repeated : ℕ → Call → List Call
repeated zero c = []
repeated (suc n) c = c ∷ repeated n c

abbrev pub in_kernel : KernelFunction → Call
in_kernel f = Call.direct f false

abbrev pub only_if : Bool → Call → List Call
only_if b c = if b then c ∷ [] else []

abbrev pub first_script : List Call
first_script =
    in_kernel KernelFunction.read_cr3
    ∷ in_kernel KernelFunction.k_stacktouch
    ∷ in_kernel KernelFunction.overflowuid
    ∷ in_kernel KernelFunction.printk
    ∷ in_kernel (KernelFunction.kernel_add 3 4)
    ∷ in_kernel KernelFunction.get_pid
    ∷ in_kernel KernelFunction.pf_cnt_get
    ∷ in_kernel KernelFunction.df_cnt_get
    ∷ []

-- The calls of the tests, in order, where every `fork` succeeds.
abbrev pub script : Options → List Call
script o =
    first_script
    ++ (repeated (if ltb o.yieldcnt (2 ^ 31) then o.yieldcnt else 0) Call.yield
        ++ (repeated o.yieldcnt (in_kernel KernelFunction.sched_yield)
            ++ (only_if (not (o.ssec == 0)) (Call.sleep o.ssec)
                ++ (repeated o.num_forks Call.fork
                    ++ (only_if (not (o.num_spawns == 0))
                          (Call.thread_test o.num_spawns o.num_increments)
                        ++ (only_if (not (o.stack_df == 0)) (Call.stack_test (o.stack_df - 1))
                            ++ only_if (not (o.do_test_interrupt == 0)) Call.interrupt_e0))))))

-- The loop over an int ends: `yieldcnt` is an int, or negative.
abbrev pub IsCountable : Options → Type 0
IsCountable o = (ltb o.yieldcnt (2 ^ 31) || not (ltb o.yieldcnt (2 ^ 63))) ≡ true

module _ (w : World) where
  -- `fork` succeeds, and this is the parent.
  abbrev pub IsParent : Type 0
  IsParent =
      (before : List Call)
      → (0 < u32 (w.result before Call.fork)) × (u32 (w.result before Call.fork) < 2 ^ 31)

  first_tests-Makes : Makes first_script (first_tests w)
  unfolding first_tests
  first_tests-Makes = record { run = λ p. (tt, refl) }

  user_yields-Makes : (n : ℕ) → Makes (repeated n Call.yield) (user_yields w n)
  unfolding user_yields
  user_yields-Makes zero = record { run = λ p. (tt, refl) }
  user_yields-Makes (suc n) = record {
    run = λ p. (user_yields-Makes n).run (record p { calls = Call.yield ∷ p.calls });
  }

  kernel_yields-Makes :
      (n : ℕ) → Makes (repeated n (in_kernel KernelFunction.sched_yield)) (kernel_yields w n)
  unfolding kernel_yields
  kernel_yields-Makes zero = record { run = λ p. (tt, refl) }
  kernel_yields-Makes (suc n) = record {
    run = λ p.
        (kernel_yields-Makes n).run
          (record p { calls = in_kernel KernelFunction.sched_yield ∷ p.calls });
  }

  forks-Makes : IsParent → (n : ℕ) → Makes (repeated n Call.fork) (forks w n)
  unfolding forks
  forks-Makes parent zero = record { run = λ p. (tt, refl) }
  forks-Makes parent (suc n) = record {
    run = λ p.
        let not_child : (u32 (w.result p.calls Call.fork) == 0) ≡ false =
          ground (arith, parent p.calls) in
        let is_pid : ltb (u32 (w.result p.calls Call.fork)) (2 ^ 31) ≡ true =
          ground (arith, parent p.calls) in
        rw (not_child, is_pid)
          ((forks-Makes parent n).run (record p { calls = Call.fork ∷ p.calls }));
  }

  call_if-Makes : (b : Bool) (c : Call) → Makes (only_if b c) (call_if w b c)
  call_if-Makes true c = record { run = λ p. (tt, refl) }
  call_if-Makes false c = record { run = λ p. (tt, refl) }

  thread_test-Makes :
      w.threads_made ≡ true
      → (n k : ℕ) → Makes (only_if (not (n == 0)) (Call.thread_test n k)) (thread_test w n k)
  unfolding thread_test
  thread_test-Makes made n k = elim (Bool-cases (n == 0)) [
    | inl off ↦ rw off (record { run = λ p. (tt, refl) })
    | inr asked ↦ rw (asked, made) (record { run = λ p. (tt, refl) })
  ]

  yield_rounds-Makes :
      (o : Options)
      → IsCountable o
      → Makes
          (repeated (if ltb o.yieldcnt (2 ^ 31) then o.yieldcnt else 0) Call.yield)
          (yield_rounds w (rounds o.yieldcnt))
  unfolding yield_rounds
  yield_rounds-Makes o c = elim (Bool-cases (ltb o.yieldcnt (2 ^ 31))) [
    | inl small ↦ rw small (user_yields-Makes o.yieldcnt)
    | inr large ↦
        let negative : ltb o.yieldcnt (2 ^ 63) ≡ false = ground (arith, large, c) in
        rw (large, negative) (user_yields-Makes 0)
  ]

  last_tests-Makes :
      w.threads_made ≡ true
      → (o : Options)
      → Makes
          (only_if (not (o.num_spawns == 0)) (Call.thread_test o.num_spawns o.num_increments)
            ++ (only_if (not (o.stack_df == 0)) (Call.stack_test (o.stack_df - 1))
                ++ only_if (not (o.do_test_interrupt == 0)) Call.interrupt_e0))
          (last_tests w o)
  unfolding last_tests
  last_tests-Makes made o = Makes-bind (thread_test-Makes made o.num_spawns o.num_increments) λ _.
      Makes-bind (call_if-Makes (not (o.stack_df == 0)) (Call.stack_test (o.stack_df - 1)))
        λ _. call_if-Makes (not (o.do_test_interrupt == 0)) Call.interrupt_e0

  -- Where each `fork` succeeds and this is the parent, `pthread_create` makes all threads of the test
  -- of threads, and `yieldcnt` is below 2^31 or negative, the tests in an elevated thread end, and
  -- `main` makes exactly the calls of the script, in this order: the calls of the kernel; `yieldcnt`
  -- system calls that yield, none if it is negative, and then as many in the kernel (2^64 more, if it
  -- is negative); a sleep, the forks, the threads, the stack test and the interrupt, each only if it
  -- is asked for. The threads and the stack test are one call each in the script, whatever they do.
  pub elevated_tests-script :
      IsParent
      → w.threads_made ≡ true
      → (o : Options) → IsCountable o
      → Makes (script o) (elevated_tests w o)
  unfolding elevated_tests
  elevated_tests-script parent made o countable = Makes-bind first_tests-Makes λ _.
      Makes-bind (yield_rounds-Makes o countable) λ _.
        Makes-bind (kernel_yields-Makes o.yieldcnt) λ _.
          Makes-bind (call_if-Makes (not (o.ssec == 0)) (Call.sleep o.ssec))
            λ _. Makes-bind (forks-Makes parent o.num_forks) λ _. last_tests-Makes made o
