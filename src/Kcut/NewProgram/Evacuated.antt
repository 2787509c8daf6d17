-- ===== src/Kcut/NewProgram/Evacuated.antt =====
-- How `evacuate` of examples/kcuttest/newmain.c ends when it gives the CPU back.
use symbi_os.Base.{ℕ, ◌≡◌, false, some, arith, ◌==◌, if◌then◌else◌}
use symbi_os.Base.Machine.{M, done, abort}
use symbi_os.Kcut.Shortcut.{World, Process, KernelFunction, u32}
use symbi_os.Kcut.NewProgram.{ktos, release_held, evacuate}

-- The release of the CPU leaves `rc` as it was on the stack, so whether `evacuate(0)` returns depends
-- on what the memory held: where everything succeeds, it returns if that is 0 as an int, and stops at
-- the assertion otherwise.
pub evacuate_release :
    (w : World) (on_stack : ℕ → KernelFunction → M Process ℕ) (stack_word cpu t r : ℕ)
    (p p' q : Process)
    → w.cpu ≡ some cpu
    → ktos w on_stack stack_word p ≡ done t p'
    → on_stack t (KernelFunction.release_cpu cpu) p' ≡ done r q
    → evacuate w on_stack stack_word false p ≡ (if u32 stack_word == 0 then done tt q else abort)
unfolding evacuate release_held
evacuate_release w on_stack stack_word cpu t r p p' q c k s = rw c (ground (arith, k, s))
