-- ===== src/Idt.antt =====
-- The kernel module that replaces the interrupt descriptor table
-- (examples/idtr_interposer/kmod/main.c). A table is a function from vectors to entries in the
-- kernel's memory; `lidt` and `sidt` write and read the register of one CPU.
pub mod Offset
pub mod Setup
mod Tests
use symbi_os.Base.{
  update, ℕ, zero, suc, ◌+◌, ◌-◌, ◌*◌, ◌/◌, ◌%◌, ◌^◌, Bool, true, false, Option, none, some, ◌==◌,
  ltb, if◌then◌else◌,
}
use symbi_os.Base.Machine.{M, pure, ◌>>=◌, ◌>>◌, get, put, deref}

-- `struct dtr`
pub record Dtr : Type 0 where
  pub limit : ℕ
  pub base : ℕ

-- `struct idt_entry`, with the fields that the code reads or writes
pub record IdtEntry : Type 0 where
  pub offset0 : ℕ
  pub selector : ℕ
  pub ist : ℕ
  pub type : ℕ
  pub dpl : ℕ
  pub p : ℕ
  pub offset1 : ℕ
  pub offset2 : ℕ

pub record Kernel : Type 0 where
  pub cpu : ℕ
  pub idtr : ℕ → Dtr
  pub tables : ℕ → Option (ℕ → IdtEntry)
  pub old_idtr : Dtr

-- The offset that `print_idt_entries` puts together: the three parts overlap in no bit.
unfoldable pub entry_offset : IdtEntry → ℕ
entry_offset e = e.offset2 * 2 ^ 32 + e.offset1 * 2 ^ 16 + e.offset0

-- The byte of attributes that it prints
unfoldable pub entry_attributes : IdtEntry → ℕ
entry_attributes e = e.type % 16 + e.dpl % 4 * 2 ^ 5 + e.p % 2 * 2 ^ 7

unfoldable pub with_offset : ℕ → IdtEntry → IdtEntry
with_offset addr e = record e {
  offset0 = addr % 2 ^ 16;
  offset1 = addr / 2 ^ 16 % 2 ^ 16;
  offset2 = addr / 2 ^ 32 % 2 ^ 32;
}

-- `idt[vector]` gets the address of a handler; `idt` may be `NULL`.
unfoldable pub set_idt_entry : (idt : Option ℕ) → (vector addr : ℕ) → M Kernel (Unit {0})
unfolding with_offset
set_idt_entry idt vector addr = do
  base ← deref idt
  k ← get
  table ← deref (k.tables base)
  put (record k {
    tables = update k.tables base (some (update table vector (with_offset addr (table vector))));
  })

-- `new_idt` is what `kmalloc_array` returns.
unfoldable pub duplicate_idt : (new_idt : Option ℕ) → M Kernel (Option ℕ)
duplicate_idt none = pure none
duplicate_idt (some base) = do
  k ← get
  table ← deref (k.tables (k.idtr k.cpu).base)
  put (record k { tables = update k.tables base (some table) })
  pure (some base)

-- `on_each_cpu(load_idt_on_cpu, …)`, for the CPUs below `n`
unfoldable pub load_idt_on_cpus : ℕ → Dtr → (ℕ → Dtr) → ℕ → Dtr
load_idt_on_cpus n d idtr j = if ltb j n then d else idtr j

-- The addresses of the four handlers
pub record Handlers : Type 0 where
  pub df : ℕ
  pub tf : ℕ
  pub int3 : ℕ
  pub db : ℕ

abbrev pub new_limit : ℕ
new_limit = 16 * 256 - 1

unfoldable pub load_table : (cpus : ℕ) → Option ℕ → M Kernel (Unit {0})
load_table cpus idt = do
  base ← deref idt
  k ← get
  put (record k { idtr = load_idt_on_cpus cpus (record { limit = new_limit; base = base }) k.idtr })

unfoldable pub setup_df_interposition :
    (cpus : ℕ) → Handlers → (new_idt : Option ℕ) → M Kernel (Unit {0})
unfolding duplicate_idt load_table
setup_df_interposition cpus h new_idt = do
  idt ← duplicate_idt new_idt
  set_idt_entry idt 8 h.df
  set_idt_entry idt 14 h.tf
  set_idt_entry idt 3 h.int3
  set_idt_entry idt 1 h.db
  load_table cpus idt

-- `greeter_init` saves the register of the CPU that it runs on, `greeter_exit` writes it back.
unfoldable pub greeter_init : M Kernel (Unit {0})
greeter_init = do k ← get; put (record k { old_idtr = k.idtr k.cpu })

unfoldable pub greeter_exit : M Kernel (Unit {0})
greeter_exit = do k ← get; put (record k { idtr = update k.idtr k.cpu k.old_idtr })
