-- ===== src/Idt/Setup.antt =====
-- `setup_df_interposition`, `greeter_init` and `greeter_exit` (idtr_interposer/kmod/main.c) on a kernel
-- with several CPUs.
use symbi_os.Base.{update, ℕ, ◌^◌, ◌<◌, ◌≡◌, ◌≢◌, refl, none, some, arith}
use symbi_os.Base.Machine.{M, done, fault, ◌>>◌}
use symbi_os.Idt.{
  load_idt_on_cpus, set_idt_entry, Kernel, IdtEntry, Handlers, entry_offset, with_offset,
  setup_df_interposition, greeter_init, greeter_exit,
}
use symbi_os.Idt.Offset.{entry_offset-with_offset}

abbrev pub interposed : Handlers → (ℕ → IdtEntry) → ℕ → IdtEntry
interposed h t =
    update
      (update (update (update t 8 (with_offset h.df (t 8))) 14 (with_offset h.tf (t 14))) 3
        (with_offset h.int3 (t 3)))
      1 (with_offset h.db (t 1))

-- Where is the handler of a vector, and what else does the entry say?
pub record IsInterposed (h : Handlers) (old new : ℕ → IdtEntry) : Type 0 where
  pub df : entry_offset (new 8) ≡ h.df
  pub tf : entry_offset (new 14) ≡ h.tf
  pub int3 : entry_offset (new 3) ≡ h.int3
  pub db : entry_offset (new 1) ≡ h.db
  pub others : (v : ℕ) → v ≢ 8 → v ≢ 14 → v ≢ 3 → v ≢ 1 → new v ≡ old v
  pub selectors : (v : ℕ) → ((new v).selector ≡ (old v).selector) × ((new v).dpl ≡ (old v).dpl)

pub record AreAddresses (h : Handlers) : Type 0 where
  pub df : h.df < 2 ^ 64
  pub tf : h.tf < 2 ^ 64
  pub int3 : h.int3 < 2 ^ 64
  pub db : h.db < 2 ^ 64

interposed-IsInterposed :
    (h : Handlers) (t : ℕ → IdtEntry) → AreAddresses h → IsInterposed h t (interposed h t)
interposed-IsInterposed h t a = record {
  df = (entry_offset-with_offset h.df (t 8) a.df).0;
  tf = (entry_offset-with_offset h.tf (t 14) a.tf).0;
  int3 = (entry_offset-with_offset h.int3 (t 3) a.int3).0;
  db = (entry_offset-with_offset h.db (t 1) a.db).0;
  others = λ v n8 n14 n3 n1. ground arith;
  selectors = λ v. unfold with_offset in ground arith;
}

abbrev with_table : Kernel → ℕ → (ℕ → IdtEntry) → Kernel
with_table k base t = record k { tables = update k.tables base (some t) }

update_self : {A : Type 0} (f : ℕ → A) (i : ℕ) (v : A) → update f i v i ≡ v
update_self f i v = ground arith

set_idt_entry_run :
    (k : Kernel) (base vector addr : ℕ) (t : ℕ → IdtEntry)
    → set_idt_entry (some base) vector addr (with_table k base t)
      ≡ done tt
          (with_table (with_table k base t) base (update t vector (with_offset addr (t vector))))
unfolding set_idt_entry
set_idt_entry_run k base vector addr t = rw (update_self k.tables base (some t))

module _ (k : Kernel) (cpus base : ℕ) (h : Handlers) {t : ℕ → IdtEntry}
    (old : k.tables (k.idtr k.cpu).base ≡ some t) where
  abbrev k0 : Kernel
  k0 = with_table k base t

  abbrev t1 : ℕ → IdtEntry
  t1 = update t 8 (with_offset h.df (t 8))

  abbrev t2 : ℕ → IdtEntry
  t2 = update t1 14 (with_offset h.tf (t 14))

  abbrev t3 : ℕ → IdtEntry
  t3 = update t2 3 (with_offset h.int3 (t 3))

  abbrev k4 : Kernel
  k4 =
      with_table (with_table (with_table (with_table k0 base t1) base t2) base t3) base
        (interposed h t)

  abbrev after_setup : Kernel
  after_setup = record k4 {
    idtr = load_idt_on_cpus cpus (record { limit = 4095; base = base }) k.idtr;
  }

  setup_run : setup_df_interposition cpus h (some base) k ≡ done tt after_setup
  unfolding setup_df_interposition
  setup_run = rw (
    old,
    set_idt_entry_run k base 8 h.df t,
    set_idt_entry_run k0 base 14 h.tf t1,
    set_idt_entry_run (with_table k0 base t1) base 3 h.int3 t2,
    set_idt_entry_run (with_table (with_table k0 base t1) base t2) base 1 h.db t3,
  )

  -- Where `kmalloc_array` returns new memory, the setup leaves every CPU with a table of 256 entries
  -- in it, whose entries for double faults, page faults, breakpoints and debug exceptions lead to
  -- the four handlers and whose other entries are those of the table in use before; selectors and
  -- privilege levels stay in all entries. The tables in other memory are as before.
  pub setup-IsInterposed :
      AreAddresses h
      → (k' : Kernel) × (setup_df_interposition cpus h (some base) k ≡ done tt k')
        × ((c : ℕ) → c < cpus → k'.idtr c ≡ record { limit = 4095; base = base })
        × ((new : ℕ → IdtEntry) × (k'.tables base ≡ some new) × IsInterposed h t new)
        × ((b : ℕ) → b ≢ base → k'.tables b ≡ k.tables b)
  setup-IsInterposed a = (
    after_setup,
    setup_run,
    (unfold load_idt_on_cpus in λ c lt. ground arith),
    (
      interposed h t,
      update_self (with_table (with_table (with_table k0 base t1) base t2) base t3).tables base
          (some (interposed h t)),
      interposed-IsInterposed h t a,
    ),
    λ b ne. ground arith,
  )

abbrev pub on_cpu : ℕ → M Kernel (Unit {0}) → M Kernel (Unit {0})
on_cpu c m k = m (record k { cpu = c })

-- The module is loaded on one CPU, the setup runs on a second, and the module is unloaded on a third,
-- which may all be the same or not. Where `kmalloc_array` returns memory and the second CPU has a table
-- to copy, the third then has the register that the first had when the module
-- was loaded, whatever its own was, and every other CPU keeps the new table.
pub greeter_exit_others :
    (k : Kernel) (cpus base b c : ℕ) (h : Handlers) {t : ℕ → IdtEntry}
    → k.tables (k.idtr b).base ≡ some t
    → (k' : Kernel) × ((greeter_init
            >> on_cpu b (setup_df_interposition cpus h (some base))
            >> on_cpu c greeter_exit)
          k
        ≡ done tt k')
      × (k'.idtr c ≡ k.idtr k.cpu)
      × ((d : ℕ) → d < cpus → d ≢ c → (k'.idtr d).base ≡ base)
unfolding greeter_init greeter_exit
greeter_exit_others k cpus base b c h {t} old =
    let saved = record k { old_idtr = k.idtr k.cpu; cpu = b } in
    let s' = after_setup saved cpus base h old in
    (
      record s' { cpu = c; idtr = update s'.idtr c (k.idtr k.cpu) },
      rw (setup_run saved cpus base h old),
      update_self s'.idtr c (k.idtr k.cpu),
      (unfold load_idt_on_cpus in λ d lt ne. ground arith),
    )

-- Where `kmalloc_array` fails, the setup writes through a null pointer.
pub setup_no_memory :
    (k : Kernel) (cpus : ℕ) (h : Handlers) → setup_df_interposition cpus h none k ≡ fault
unfolding setup_df_interposition set_idt_entry
setup_no_memory k cpus h = refl
