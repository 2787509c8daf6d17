-- ===== src/Elf/Read.antt =====
-- `seInit` and `elf_read_syms` of elf.c over the sections that libelf delivers, and `prcBO` and
-- `writeso` of main.c, which hand the result to `elf_generate_elf_mmap`.
pub mod Room
use symbi_os.Base.{
  ℕ, zero, suc, ◌+◌, ◌*◌, ◌/◌, ◌%◌, ◌^◌, ◌≡◌, refl, Bool, true, false, not, ◌&&◌, ◌||◌, Option,
  none, some, List, [], ◌∷◌, ◌++◌, arith, ◌==◌, ltb, if◌then◌else◌, Bytes,
}
use symbi_os.Base.Lists.{length}
use symbi_os.Elf.{SymbolEntry, bind_global, type_abs, strs_len}
use symbi_os.Elf.Image.{ElfSym, ElfImage, elf_generate, names_of}

-- What `gelf_getshdr`, `elf_getdata` and `gelf_getsym` deliver for a section: its type, its sizes and
-- its symbols, each with the string that `elf_strptr` finds for it.
pub record InSection : Type 0 where
  pub is_symbols : Bool
  pub sh_size : ℕ
  pub sh_entsize : ℕ
  pub symbol : ℕ → ElfSym
  pub strptr : ℕ → Bytes

abbrev pub shn_undef : ℕ
shn_undef = 0

-- The entries so far, whose number is `ei`, the room for them, and the sum of the lengths. `ei` and
-- `emax` are ints: `emax` has its 32 bits, and from 2^31 entries on `ei` would be undefined.
pub record Reading : Type 0 where
  pub ents : List SymbolEntry
  pub emax : ℕ
  pub nmstrlen : ℕ

unfoldable pub se_init : InSection → ElfSym → SymbolEntry
se_init sc y = record {
  name = sc.strptr y.st_name;
  addr = if y.st_shndx == shn_undef then 0 else y.st_value;
  size = 0;
  bind = bind_global;
  type = type_abs;
}

-- `if (ei == emax)`: the room is doubled, from 1024 on. `emax` is positive if its top bit is clear, and
-- the shift keeps 32 bits.
unfoldable pub grow : ℕ → ℕ → ℕ
grow ei emax =
    if ei == emax
    then (if ltb 0 emax && ltb emax (2 ^ 31) then (emax * 2) % 2 ^ 32 else 1024)
    else emax

-- The rounds of `for (int i = 0; i < count; i++)` for an int `count` that is given a number of 64 bits:
-- there are none if it is negative.
abbrev pub int_rounds : ℕ → ℕ
int_rounds n = if ltb (n % 2 ^ 32) (2 ^ 31) then n % 2 ^ 32 else 0

unfoldable pub read_sym : InSection → ElfSym → Reading → Reading
unfolding se_init grow
read_sym sc y r = if y.st_name == 0 && y.st_value == 0 then r else record {
  ents = r.ents ++ se_init sc y ∷ [];
  emax = grow (length r.ents) r.emax;
  nmstrlen = r.nmstrlen + (length (sc.strptr y.st_name) + 1);
}

-- `for (i = 0; i < count; i++)`, from `i` with `n` rounds left
unfoldable pub read_section : InSection → (n i : ℕ) → Reading → Reading
read_section sc zero i r = r
read_section sc (suc n) i r = read_section sc n (i + 1) (read_sym sc (sc.symbol i) r)

-- `none` is a division by an entry size of zero.
unfoldable pub read_sections : List InSection → Reading → Option Reading
read_sections [] r = some r
read_sections (sc ∷ scs) r =
    let skipped = read_sections scs r in
    let read = read_sections scs (read_section sc (int_rounds (sc.sh_size / sc.sh_entsize)) 0 r) in
    if not sc.is_symbols then skipped else if sc.sh_entsize == 0 then none else read

abbrev pub nothing_read : Reading
nothing_read = record { ents = []; emax = 0; nmstrlen = 0 }

-- `elf_begin` and `elf_kind` answer for the file: `none` where they refuse it (-1).
unfoldable pub elf_read_syms : (opened is_elf : Bool) → List InSection → Option (Option Reading)
elf_read_syms opened is_elf scs =
    if not opened || not is_elf
    then some none
    else elim (read_sections scs nothing_read) [ none ↦ none | some r ↦ some (some r) ]

-- `prcBO` and `writeso`: the image written for the symbols that were read.
unfoldable pub prc_bo : (layout : ℕ → ℕ) → Reading → ElfImage
prc_bo layout r = elf_generate layout r.ents r.nmstrlen
