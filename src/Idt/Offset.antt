-- ===== src/Idt/Offset.antt =====
-- The parts of an address in an entry: `set_idt_entry` and `print_idt_entries` of main.c.
use symbi_os.Base.{ℕ, ◌^◌, ◌<◌, ◌≡◌, arith}
use symbi_os.Idt.{IdtEntry, entry_offset, entry_attributes, with_offset}

-- An address of 64 bits that is put into an entry is read back from it, and the three parts fit in
-- their fields; the attributes stay.
pub entry_offset-with_offset :
    (addr : ℕ) (e : IdtEntry)
    → addr < 2 ^ 64
    → (entry_offset (with_offset addr e) ≡ addr)
      × ((with_offset addr e).offset0 < 2 ^ 16)
      × ((with_offset addr e).offset1 < 2 ^ 16)
      × ((with_offset addr e).offset2 < 2 ^ 32)
      × (entry_attributes (with_offset addr e) ≡ entry_attributes e)
unfolding entry_offset entry_attributes with_offset
entry_offset-with_offset addr e h = omega arith
