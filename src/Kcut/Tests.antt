-- ===== src/Kcut/Tests.antt =====
-- The tests of examples/kcuttest at small sizes, and instances of the theorems about them.
use symbi_os.Base.{ℕ, ◌%◌, ◌^◌, ◌≡◌, refl, true, false, some, [], ◌∷◌, ◌++◌, arith}
use symbi_os.Base.{◌==◌, if◌then◌else◌}
use symbi_os.Kcut.Shortcut.{World, Process, KernelFunction}
use symbi_os.Base.Machine.{M, done, abort}
use symbi_os.Kcut.NewProgram.{ClArgs, process_args, evacuate, ktos}
use symbi_os.Kcut.NewProgram.Accepted.{AreAccepted, process_args-AreAccepted}
use symbi_os.Kcut.NewProgram.Evacuated.{evacuate_release}
use symbi_os.Kcut.Shortcut.Session.{Operation, Safe, operate, session, session-Safe}
use symbi_os.Kcut.Shortcut.Cycle.{Ends, alternating, plain, quick, many, reads-alternating}
use symbi_os.Kcut.Program.{elevated_tests, main}
use symbi_os.Kcut.Program.Arguments.{Options, arg, as_int}
use symbi_os.Kcut.Program.Run.{Makes, script, elevated_tests-script}
use symbi_os.Kcut.Program.Privileges.{Stays, main-Stays}
use symbi_os.Kcut.StackTest.{mmap_stack_test}
use symbi_os.Kcut.StackTest.{World as StackWorld}
use symbi_os.Kcut.StackTest.Resources.{AreInside, mmap_stack_test-Held, mmap_stack_test-AreInside}

-- A build without brackets, in which the kernel's stack is found.
abbrev world : World
world = record {
  bracket_priv = false;
  bracket_stack = true;
  shortcut = true;
  evacuate = true;
  result = λ l c. 7;
  tos = some 5;
  cpu = some 3;
  threshold = some 2;
  threads_made = true;
}

abbrev fresh : Process
fresh = record {
  elevated = false;
  tos_val = 0;
  read_cnt = 0;
  write_cnt = 0;
  threshold = 2;
  calls = [];
}

abbrev raised : Process
raised = record fresh { elevated = true }

session-Safe_example :
    Safe
      (λ q. q.elevated ≡ false)
      (session world
        (Operation.reads 4 100 ∷ Operation.writes 4 100 ∷ Operation.reads 4 100 ∷ [])
        fresh)
session-Safe_example =
    session-Safe world (Operation.reads 4 100 ∷ Operation.writes 4 100 ∷ Operation.reads 4 100 ∷ [])
      fresh

reads-alternating_example :
    Ends
      (λ q.
        (q.calls ≡ alternating 2 (plain 4 100) (quick world 4 100) 5 ++ []) × (q.elevated ≡ true))
      (operate world (many 5 (Operation.reads 4 100)) raised)
reads-alternating_example =
    reads-alternating world 4 100 2 [] refl (omega arith) 5 raised refl refl refl refl (λ h. refl)

abbrev few : Options
few = record {
  ssec = 1;
  bloop = 5;
  yieldcnt = 2;
  evac = 1;
  num_forks = 2;
  num_spawns = 2;
  num_increments = 1;
  stack_df = 1;
  do_test_interrupt = 0;
}

main-Stays_example : Stays (λ q. q.elevated ≡ false) (main world few fresh)
main-Stays_example = main-Stays world refl few fresh refl refl

elevated_tests-script_example : Makes (script few) (elevated_tests world few)
elevated_tests-script_example =
    elevated_tests-script world (λ l. (omega arith, omega arith)) refl few refl

abbrev machine : StackWorld
machine = record {
  sigaction = true;
  mkstemp = true;
  ftruncate = true;
  mmap = some 0x10000;
  malloc = true;
  mincore = some (λ i. if i == 508 then 1 else 0);
}

mmap_stack_test-Held_example :
    let h = (mmap_stack_test machine 0).1 in
    (h.file ≡ false) × (h.mapping ≡ false) × (h.vector ≡ false) × (h.handler ≡ false)
mmap_stack_test-Held_example = mmap_stack_test-Held machine 0

mmap_stack_test-AreInside_example : AreInside 0x10000 (mmap_stack_test machine 0).1
mmap_stack_test-AreInside_example = mmap_stack_test-AreInside machine 0 0x10000 refl

process_args-AreAccepted_example :
    (AreAccepted (λ s. true) ((b'S', []) ∷ (b'b', []) ∷ [])
      → (b : ClArgs) × (process_args (λ s. true) (λ s. 3) (λ s. 4) ((b'S', []) ∷ (b'b', []) ∷ []) []
          ≡ some b)
        × (b.num_spawns ≡ arg (as_int (λ s. 3)) [] 5 0))
    × ((b : ClArgs)
        → process_args (λ s. true) (λ s. 3) (λ s. 4) ((b'S', []) ∷ (b'b', []) ∷ []) [] ≡ some b
        → AreAccepted (λ s. true) ((b'S', []) ∷ (b'b', []) ∷ []))
process_args-AreAccepted_example =
    process_args-AreAccepted (λ s. true) (λ s. 3) (λ s. 4) ((b'S', []) ∷ (b'b', []) ∷ []) []

abbrev on_stack : ℕ → KernelFunction → M Process ℕ
on_stack t f p = done 0 p

evacuate_release_test :
    evacuate world on_stack 9 false fresh
    ≡ (if 9 % 2 ^ 32 == 0 then done tt (record fresh { tos_val = 5 }) else abort)
unfolding ktos
evacuate_release_test =
    evacuate_release world on_stack 9 3 5 0 fresh (record fresh { tos_val = 5 })
      (record fresh { tos_val = 5 }) refl refl refl
