-- ===== src/Elf/Tests.antt =====
-- Instances of the theorems on ELF files.
use symbi_os.Base.{
  ℕ, ◌+◌, ◌*◌, ◌≡◌, refl, true, false, some, List, [], ◌∷◌, ◌++◌, arith, ◌==◌, if◌then◌else◌, Bytes,
  codes,
}
use symbi_os.Base.Lists.{length}
use symbi_os.Elf.{
  SymbolEntry, type_func, type_bss, bind_weak, bind_global, StrTab, add_str, add_strs, strs_len,
}
use symbi_os.Elf.Strtab.{IsCString, AtOffsets, joined, add_strs-AtOffsets}
use symbi_os.Elf.Image.{ElfSym, names_of, elf_generate, ndx_strtab, ndx_dynstr, hash_words}
use symbi_os.Elf.Hash.{hash_find, hash_find-hash_words}
use symbi_os.Elf.Lookup.{IsFull, NamesIn, elf_generate-symbols}
use symbi_os.Elf.Read.{
  InSection, Reading, se_init, grow, read_sym, read_section, read_sections, elf_read_syms,
}

abbrev two_entries : List SymbolEntry
two_entries =
    record { name = codes "jiffies"; addr = 0x81000; size = 8; bind = bind_global; type = type_bss }
    ∷ record { name = codes "up"; addr = 0x82000; size = 0; bind = bind_weak; type = type_func }
    ∷ []

jiffies-IsCString : IsCString (codes "jiffies")
jiffies-IsCString = ground arith

up-IsCString : IsCString (codes "up")
up-IsCString = ground arith

-- The table when a null byte has been written.
abbrev one_byte : StrTab
one_byte = record { cap = 20; buf = 0 ∷ []; overrun = false }

abbrev two_names : List Bytes
two_names = codes "jiffies" ∷ codes "up" ∷ []

add_strs-AtOffsets_example :
    AtOffsets (add_strs one_byte two_names).1.buf (add_strs one_byte two_names).0 two_names
    × (length (add_strs one_byte two_names).1.buf ≡ 1 + strs_len two_names)
    × ((add_strs one_byte two_names).1.buf ≡ 0 ∷ [] ++ joined two_names)
    × ((add_strs one_byte two_names).1.overrun ≡ false)
unfolding strs_len
add_strs-AtOffsets_example =
    add_strs-AtOffsets one_byte two_names (jiffies-IsCString, (up-IsCString, tt)) (omega arith)

overrun_test : (add_strs (record one_byte { cap = 11 }) two_names).1.overrun ≡ true
unfolding add_strs add_str
overrun_test = refl

abbrev page_layout : ℕ → ℕ
page_layout i = 4096 * i

abbrev TwoImage : Type 0
TwoImage =
    let image = elf_generate page_layout two_entries (strs_len (names_of two_entries)) in
    IsFull image.strtab.contents
    × IsFull image.dynstr.contents
    × IsFull image.shstrtab.contents
    × (image.symtab.sh_link ≡ ndx_strtab)
    × (image.dynsym.sh_link ≡ ndx_dynstr)
    × NamesIn image.strtab.contents image.symtab.contents two_entries
    × NamesIn image.dynstr.contents image.dynsym.contents two_entries

elf_generate-symbols_example : TwoImage
unfolding strs_len
elf_generate-symbols_example =
    elf_generate-symbols page_layout two_entries (jiffies-IsCString, (up-IsCString, tt))
      (omega arith, omega arith)

hash_find-hash_words_test :
    (hash_find (hash_words 2) 1234 (λ y. y == 2) 5 ≡ some 0) × (length (hash_words 2) + 1 ≡ 6)
hash_find-hash_words_test = hash_find-hash_words 2 1234 5 (λ y. y == 2)

-- A file with a section that is no symbol table, and one with an empty symbol and two named ones.
abbrev named_symbol : ℕ → ElfSym
named_symbol i = record {
  st_name = i;
  st_info = 0;
  st_shndx = if i == 1 then 0 else 4;
  st_value = 64 * i;
  st_size = 0;
}

abbrev in_symbols : InSection
in_symbols = record {
  is_symbols = true;
  sh_size = 72;
  sh_entsize = 24;
  symbol = named_symbol;
  strptr = λ _. codes "up";
}

abbrev in_sections : List InSection
in_sections =
    record {
      is_symbols = false;
      sh_size = 100;
      sh_entsize = 0;
      symbol = named_symbol;
      strptr = λ _. codes "up";
    }
    ∷ in_symbols
    ∷ []

abbrev two_read : Reading
two_read = record {
  ents = se_init in_symbols (named_symbol 1) ∷ se_init in_symbols (named_symbol 2) ∷ [];
  emax = 1024;
  nmstrlen = 6;
}

two_read_run : elf_read_syms true true in_sections ≡ some (some two_read)
unfolding elf_read_syms read_sections read_section read_sym grow
two_read_run = refl
