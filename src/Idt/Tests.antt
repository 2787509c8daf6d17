-- ===== src/Idt/Tests.antt =====
-- Instances of the theorems on the descriptor table.
use symbi_os.Base.{ℕ, ◌*◌, ◌^◌, ◌<◌, ◌≡◌, refl, ◌≢◌, none, some, arith, ◌==◌, if◌then◌else◌}
use symbi_os.Base.Machine.{done, ◌>>◌}
use symbi_os.Idt.{
  Kernel, IdtEntry, Handlers, entry_offset, entry_attributes, with_offset, setup_df_interposition,
  greeter_init, greeter_exit,
}
use symbi_os.Idt.Offset.{entry_offset-with_offset}
use symbi_os.Idt.Setup.{AreAddresses, IsInterposed, setup-IsInterposed, on_cpu, greeter_exit_others}

abbrev gate : ℕ → IdtEntry
gate v = record {
  offset0 = v * 16;
  selector = 16;
  ist = 0;
  type = 14;
  dpl = 3;
  p = 1;
  offset1 = 0x8100;
  offset2 = 0xffffffff;
}

-- Two CPUs with the table at address 4096.
abbrev booted : Kernel
booted = record {
  cpu = 1;
  idtr = λ _. record { limit = 4095; base = 4096 };
  tables = λ b. if b == 4096 then some gate else none;
  old_idtr = record { limit = 0; base = 0 };
}

abbrev handlers : Handlers
handlers = record { df = 0xffffffffc0000010; tf = 0xffffffffc0000090; int3 = 0x1000; db = 0x2000 }

handlers-AreAddresses : AreAddresses handlers
handlers-AreAddresses = record {
  df = omega arith;
  tf = omega arith;
  int3 = omega arith;
  db = omega arith;
}

entry_offset-with_offset_test :
    (entry_offset (with_offset 0xffffffffc0000010 (gate 8)) ≡ 0xffffffffc0000010)
    × ((with_offset 0xffffffffc0000010 (gate 8)).offset0 < 2 ^ 16)
    × ((with_offset 0xffffffffc0000010 (gate 8)).offset1 < 2 ^ 16)
    × ((with_offset 0xffffffffc0000010 (gate 8)).offset2 < 2 ^ 32)
    × (entry_attributes (with_offset 0xffffffffc0000010 (gate 8)) ≡ entry_attributes (gate 8))
entry_offset-with_offset_test = entry_offset-with_offset 0xffffffffc0000010 (gate 8) (omega arith)

setup-IsInterposed_example :
    (k' : Kernel) × (setup_df_interposition 2 handlers (some 8192) booted ≡ done tt k')
    × ((c : ℕ) → c < 2 → k'.idtr c ≡ record { limit = 4095; base = 8192 })
    × ((new : ℕ → IdtEntry) × (k'.tables 8192 ≡ some new) × IsInterposed handlers gate new)
    × ((b : ℕ) → b ≢ 8192 → k'.tables b ≡ booted.tables b)
setup-IsInterposed_example = setup-IsInterposed booted 2 8192 handlers refl handlers-AreAddresses

greeter_exit_others_example :
    (k' : Kernel) × ((greeter_init
          >> on_cpu 0 (setup_df_interposition 2 handlers (some 8192))
          >> on_cpu 0 greeter_exit)
        booted
      ≡ done tt k')
    × (k'.idtr 0 ≡ record { limit = 4095; base = 4096 })
    × ((d : ℕ) → d < 2 → d ≢ 0 → (k'.idtr d).base ≡ 8192)
greeter_exit_others_example = greeter_exit_others booted 2 8192 0 0 handlers refl
