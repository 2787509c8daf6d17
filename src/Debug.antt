-- ===== src/Debug.antt =====
-- The debug exception handler of the interposer (`db_c_entry` and `bp_c_entry` of
-- examples/idtr_interposer/kmod/interpos.c, with the registers of common.h).
pub mod Hit
pub mod Entry
mod Tests
use symbi_os.Base.{
  update, ℕ, zero, suc, ◌+◌, ◌-◌, ◌%◌, Bool, true, false, ◌&&◌, Option, none, some, List, [], ◌∷◌,
  ◌==◌, ltb, if◌then◌else◌,
}

-- `struct DR6`: the bits B0 to B3
pub record Dr6 : Type 0 where
  pub hit : ℕ → Bool

-- `struct DR7`: the bits L0 to L3 and G0 to G3, the fields RW0 to RW3, and the other bits
pub record Dr7 : Type 0 where
  pub local_on : ℕ → Bool
  pub global_on : ℕ → Bool
  pub rw_mode : ℕ → ℕ
  pub others : ℕ

-- `dr_hit` and `dr7` on the way through the tests
pub record Progress : Type 0 where
  pub dr_hit : ℕ
  pub dr7 : Dr7

-- `if (dr6.Bi && dr7.Gi)` and `if (dr6.Bi && dr7.Li)`
unfoldable pub test_global : Dr6 → ℕ → Progress → Progress
test_global dr6 i s =
    if dr6.hit i && s.dr7.global_on i
    then record {
      dr_hit = i;
      dr7 = record (s.dr7) {
        global_on = update s.dr7.global_on i false;
        rw_mode = update s.dr7.rw_mode i 0;
      };
    }
    else s

unfoldable pub test_local : Dr6 → ℕ → Progress → Progress
test_local dr6 i s =
    if dr6.hit i && s.dr7.local_on i
    then record {
      dr_hit = i;
      dr7 = record (s.dr7) {
        local_on = update s.dr7.local_on i false;
        rw_mode = update s.dr7.rw_mode i 0;
      };
    }
    else s

unfoldable pub test_globals : Dr6 → Progress → Progress
unfolding test_global
test_globals dr6 s = test_global dr6 3 (test_global dr6 2 (test_global dr6 1 (test_global dr6 0 s)))

unfoldable pub test_locals : Dr6 → Progress → Progress
unfolding test_local
test_locals dr6 s = test_local dr6 3 (test_local dr6 2 (test_local dr6 1 (test_local dr6 0 s)))

unfoldable pub run_tests : Dr6 → Dr7 → Progress
unfolding test_globals test_locals
run_tests dr6 dr7 = test_locals dr6 (test_globals dr6 (record { dr_hit = 9; dr7 = dr7 }))

abbrev pub page_size : ℕ
page_size = 4096

-- Where the pointer to the scratchpad stands: the last word of the handler's page.
unfoldable pub scratchpad_slot : (hdl_pg : ℕ) → ℕ
scratchpad_slot hdl_pg = hdl_pg - hdl_pg % page_size + (page_size - 8)

-- `struct scratchpad`, the part that the handler reads and writes; `pt_r` stands for the saved
-- registers.
pub record Scratchpad (Regs : Type 0) : Type 0 where
  pub pt_r : Regs
  pub dr_hit : ℕ
  pub dr7 : Dr7
  pub cr3 : ℕ
  pub debug : ℕ
  pub cnt : ℕ
  pub read_addr_msg : Bool
  pub addr_msg : ℕ → ℕ

-- `for (i = 0; i < n; i++) cdest[i] = csrc[i]`, from `i` with `k` rounds left
unfoldable pub copy_bytes : (k i : ℕ) → (ℕ → ℕ) → ℕ → (ℕ → ℕ) → ℕ → ℕ
copy_bytes zero i memory src dest = dest
copy_bytes (suc k) i memory src dest =
    copy_bytes k (i + 1) memory src (update dest i (memory (src + i)))

-- `db_c_entry` after it has found the scratchpad: the pad and the new value of DR7. `si` is the
-- register of that name, `memory` the bytes that it points into.
unfoldable pub db_c_entry :
    {Regs : Type 0}
    → Dr6
    → Dr7
    → (cr3 : ℕ) → (pt_r : Regs) → (si : ℕ) → (memory : ℕ → ℕ) → Scratchpad Regs
    → Scratchpad Regs × Dr7
unfolding run_tests copy_bytes
db_c_entry dr6 dr7 cr3 pt_r si memory sp =
    let after = run_tests dr6 dr7 in
    (
      record {
        pt_r = pt_r;
        dr_hit = after.dr_hit;
        dr7 = after.dr7;
        cr3 = cr3;
        debug = sp.debug;
        cnt = if sp.debug == 1 then (sp.cnt + 1) % 256 else sp.cnt;
        read_addr_msg = sp.read_addr_msg;
        addr_msg = if sp.read_addr_msg then copy_bytes 96 0 memory si sp.addr_msg else sp.addr_msg;
      },
      after.dr7,
    )

-- `bp_c_entry` on the saved instruction pointer and the memory: `none` is the endless loop where
-- the byte before it is not `int3`. The pointer is not 0.
unfoldable pub bp_c_entry : (ip : ℕ) → (memory : ℕ → ℕ) → Option (ℕ × (ℕ → ℕ))
bp_c_entry ip memory =
    let ucp = ip - 1 in if memory ucp == 0xcc then some (ucp, update memory ucp 0xf) else none
