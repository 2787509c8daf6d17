-- ===== src/Interpose/Tests.antt =====
-- Instances of the theorems on the handlers.
use symbi_os.Base.{◌≡◌, none, some, [], ◌∷◌}
use symbi_os.Interpose.{
  Word, word_of, Reg, reg_number, interposer_handler, trap_handler, tf_c_entry, page_fault_entry,
}
use symbi_os.Interpose.Preserve.{entered, interposer_handler-Preserves, trap_handler-Preserves}

abbrev numbered : Reg → Word
numbered r = word_of (reg_number r)

-- A C function that leaves 7 in all registers.
abbrev sevens : (Reg → Word) → Reg → Word
sevens regs r = word_of 7

interposer_handler-Preserves_example :
    let before = entered numbered (word_of 2) (word_of 99 ∷ []) none sevens in
    let left = interposer_handler tf_c_entry sevens before in
    ((r : Reg) → left.regs r ≡ numbered r)
    × (left.stack ≡ tf_c_entry (word_of 2) ∷ word_of 99 ∷ [])
    × (left.pc ≡ some page_fault_entry)
interposer_handler-Preserves_example =
    interposer_handler-Preserves numbered (word_of 2) (word_of 99 ∷ []) none sevens tf_c_entry

trap_handler-Preserves_example :
    let left =
      trap_handler
        (λ w. word_of 98)
        sevens
        (record { regs = numbered; stack = word_of 99 ∷ []; pc = none }) in
    ((r : Reg) → left.regs r ≡ numbered r) × (left.stack ≡ word_of 98 ∷ []) × (left.pc ≡ none)
trap_handler-Preserves_example =
    trap_handler-Preserves (λ w. word_of 98) sevens numbered (word_of 99) [] none
