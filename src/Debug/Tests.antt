-- ===== src/Debug/Tests.antt =====
-- Instances of the theorems on the debug handler.
use symbi_os.Base.{◌+◌, ◌%◌, true, ltb, ℕ, ◌<◌, ◌≡◌, ◌&&◌, ◌||◌, ◌==◌, if◌then◌else◌}
use symbi_os.Debug.{Scratchpad, db_c_entry, Dr6, Dr7, run_tests}
use symbi_os.Debug.Entry.{db_c_entry_lem}
use symbi_os.Debug.Hit.{StaysOff, run_tests_lem}

-- Breakpoints 1 and 2 were hit; 1 is enabled locally, 2 globally.
abbrev status : Dr6
status = record { hit = λ i. i == 1 || i == 2 }

abbrev control : Dr7
control = record { local_on = λ i. i == 1; global_on = λ i. i == 2; rw_mode = λ _. 3; others = 5 }

run_tests_lem_example :
    let after = run_tests status control in
    (after.dr_hit ≡ 1)
    × ((i : ℕ)
        → i < 4
        → StaysOff status control.local_on after.dr7.local_on i
          × StaysOff status control.global_on after.dr7.global_on i
          × (after.dr7.rw_mode i ≡ (
              if status.hit i && (control.local_on i || control.global_on i)
              then 0
              else control.rw_mode i)))
    × (after.dr7.others ≡ 5)
run_tests_lem_example = run_tests_lem status control

abbrev pad : Scratchpad ℕ
pad = record {
  pt_r = 0;
  dr_hit = 0;
  dr7 = control;
  cr3 = 0;
  debug = 1;
  cnt = 255;
  read_addr_msg = true;
  addr_msg = λ _. 0;
}

db_c_entry_lem_test :
    let (sp', written) = db_c_entry status control 77 42 1000 (λ a. a % 256) pad in
    (sp'.dr_hit ≡ 1)
    × (sp'.dr7 ≡ written)
    × (written.others ≡ 5)
    × (sp'.pt_r ≡ 42)
    × (sp'.cr3 ≡ 77)
    × (sp'.cnt ≡ 0)
    × ((j : ℕ) → sp'.addr_msg j ≡ (if true && ltb j 96 then (1000 + j) % 256 else 0))
    × (sp'.debug ≡ 1)
    × (sp'.read_addr_msg ≡ true)
db_c_entry_lem_test = db_c_entry_lem status control 77 42 1000 (λ a. a % 256) pad
