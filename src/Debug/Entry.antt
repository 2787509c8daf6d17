-- ===== src/Debug/Entry.antt =====
-- What `db_c_entry` of interpos.c leaves in the scratchpad and in DR7.
use symbi_os.Base.{
  ℕ, zero, suc, ◌+◌, ◌%◌, ◌≡◌, refl, Bool, true, false, ◌&&◌, arith, ◌==◌, ltb, leb, if◌then◌else◌,
  update,
}
use symbi_os.Debug.{Dr6, Dr7, Scratchpad, copy_bytes, db_c_entry}
use symbi_os.Debug.Hit.{last_hit, run_tests_lem}

-- The loop copies `k` bytes from index `i` on, and no other.
copy_bytes_lem :
    (k i : ℕ) (memory : ℕ → ℕ) (src : ℕ) (dest : ℕ → ℕ) (j : ℕ)
    → copy_bytes k i memory src dest j
      ≡ (if leb i j && ltb j (i + k) then memory (src + j) else dest j)
unfolding copy_bytes
copy_bytes_lem zero i memory src dest j = ground arith
copy_bytes_lem (suc k) i memory src dest j =
    ground (arith, copy_bytes_lem k (i + 1) memory src (update dest i (memory (src + i))) j)

message_copied :
    (reads : Bool) (memory : ℕ → ℕ) (si : ℕ) (old : ℕ → ℕ) (j : ℕ)
    → (if reads then copy_bytes 96 0 memory si old else old) j
      ≡ (if reads && ltb j 96 then memory (si + j) else old j)
message_copied true memory si old j = ground (arith, copy_bytes_lem 96 0 memory si old j)
message_copied false memory si old j = refl

-- The handler stores the breakpoint that it reports, the registers and CR3, and the value that it
-- writes to DR7. It counts modulo 256 if `debug` is 1, and copies 96 bytes from where the register
-- `si` points if `read_addr_msg` is set; the switches stay.
pub db_c_entry_lem :
    {Regs : Type 0} (dr6 : Dr6) (dr7 : Dr7) (cr3 : ℕ) (pt_r : Regs) (si : ℕ) (memory : ℕ → ℕ)
    (sp : Scratchpad Regs)
    → let (sp', written) = db_c_entry dr6 dr7 cr3 pt_r si memory sp in
      (sp'.dr_hit ≡ last_hit dr6 dr7.local_on 4 (last_hit dr6 dr7.global_on 4 9))
      × (sp'.dr7 ≡ written)
      × (written.others ≡ dr7.others)
      × (sp'.pt_r ≡ pt_r)
      × (sp'.cr3 ≡ cr3)
      × (sp'.cnt ≡ (if sp.debug == 1 then (sp.cnt + 1) % 256 else sp.cnt))
      × ((j : ℕ)
          → sp'.addr_msg j
            ≡ (if sp.read_addr_msg && ltb j 96 then memory (si + j) else sp.addr_msg j))
      × (sp'.debug ≡ sp.debug)
      × (sp'.read_addr_msg ≡ sp.read_addr_msg)
unfolding db_c_entry
db_c_entry_lem dr6 dr7 cr3 pt_r si memory sp =
    let (hit, _, others) = run_tests_lem dr6 dr7 in
    (
      hit,
      refl,
      others,
      refl,
      refl,
      refl,
      message_copied sp.read_addr_msg memory si sp.addr_msg,
      refl,
      refl,
    )
