-- ===== src/Interpose/Preserve.antt =====
-- The registers and the stack that the handlers of common.h leave.
use mathlib.Core.Path.{fun_ext, ap}
use symbi_os.Base.{◌≡◌, refl, Bool, Option, some, List, ◌∷◌, arith}
use symbi_os.Interpose.{
  Word, Reg, ax, Cpu, bit_xor, interposer_handler, trap_handler, page_fault_entry,
}

swap_first : (a b : Bool) → bit_xor (bit_xor a b) (bit_xor b (bit_xor a b)) ≡ b
swap_first a b = ground arith

swap_second : (a b : Bool) → bit_xor b (bit_xor a b) ≡ a
swap_second a b = ground arith

module _ (regs : Reg → Word) (code : Word) (frame : List Word) (pc : Option Word)
    (clobber : (Reg → Word) → Reg → Word) where
  -- The CPU when the exception has pushed an error code on the frame.
  abbrev pub entered : Cpu
  entered = record { regs = regs; stack = code ∷ frame; pc = pc }

  module _ (f : Word → Word) where
    abbrev left : Cpu
    left = interposer_handler f clobber entered

    regs_kept : (r : Reg) → left.regs r ≡ regs r
    unfolding interposer_handler
    regs_kept ax = fun_ext λ i. swap_first (page_fault_entry i) (regs ax i)
    regs_kept _ = refl

    -- An interposer handler enters the kernel's page fault handler with the fifteen registers as
    -- they were, whatever the C function does to them, and with the stack as it was, but for the
    -- error code on top, which the C function has rewritten.
    pub interposer_handler-Preserves :
        ((r : Reg) → left.regs r ≡ regs r)
        × (left.stack ≡ f code ∷ frame)
        × (left.pc ≡ some page_fault_entry)
    unfolding interposer_handler
    interposer_handler-Preserves =
        (regs_kept, refl, ap some (fun_ext λ i. swap_second (page_fault_entry i) (regs ax i)))

-- A trap handler returns with all registers of the interrupted code, and with its stack, but for the
-- instruction pointer on top, which the C function has rewritten.
pub trap_handler-Preserves :
    (f : Word → Word) (clobber : (Reg → Word) → Reg → Word) (regs : Reg → Word) (rip : Word)
    (frame : List Word) (pc : Option Word)
    → let left = trap_handler f clobber (record { regs = regs; stack = rip ∷ frame; pc = pc }) in
      ((r : Reg) → left.regs r ≡ regs r) × (left.stack ≡ f rip ∷ frame) × (left.pc ≡ pc)
unfolding trap_handler
trap_handler-Preserves f clobber regs rip frame pc = (kept, refl, refl)
  where
    kept :
        (r : Reg)
        → (trap_handler f clobber (record { regs = regs; stack = rip ∷ frame; pc = pc })).regs r
          ≡ regs r
    kept ax = refl
    kept _ = refl
