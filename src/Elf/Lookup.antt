-- ===== src/Elf/Lookup.antt =====
-- The names and values that a reader finds in the file of `elf_generate_elf_mmap` (elf.c).
use symbi_os.Base.{
  ◌∙◌, ℕ, ◌+◌, ◌-◌, ◌/◌, ◌%◌, ◌^◌, ◌<◌, ltb, false, ◌≡◌, refl, List, [], ◌∷◌, arith, Bytes,
}
use symbi_os.Base.Lists.{length, drop}
use symbi_os.Elf.{SymType, SymBind, SymbolEntry, StrTab, strs_len, until_null, add_strs, add_str}
use symbi_os.Elf.Strtab.{
  IsCString, All, AtOffsets, add_strs-AtOffsets, add_strs-cap, add_strs_below,
}
use symbi_os.Elf.Image.{
  st_info_of, ElfSym, sym_bind, sym_type, syms_of, names_of, strings, symbols, SectionData,
  zero_sym, string_table, sym_table, elf_generate, ndx_strtab, ndx_dynstr,
}

-- Each symbol has the name, the value, the binding and the type of its entry.
abbrev pub SymsMatch : Bytes → List ElfSym → List SymbolEntry → Type 0
SymsMatch buf [] [] = Unit
SymsMatch buf (y ∷ ys) (e ∷ es) =
    (until_null (drop y.st_name buf) ≡ e.name)
    × (y.st_value ≡ e.addr)
    × (y.st_size ≡ e.size)
    × (y.st_info / 16 ≡ sym_bind e.bind)
    × (y.st_info % 16 ≡ sym_type e.type)
    × SymsMatch buf ys es
SymsMatch buf _ _ = ⊥

st_info_parts :
    (b : SymBind) (t : SymType)
    → (st_info_of (sym_bind b) (sym_type t) / 16 ≡ sym_bind b)
      × (st_info_of (sym_bind b) (sym_type t) % 16 ≡ sym_type t)
st_info_parts b t = ground arith

syms_match :
    (buf : Bytes) (offs : List ℕ) (entries : List SymbolEntry)
    → AtOffsets buf offs (names_of entries)
    → All (λ o. o < 2 ^ 32) offs
    → SymsMatch buf (syms_of offs entries) entries
unfolding syms_of
syms_match buf [] [] h small = tt
syms_match buf [] (e ∷ es) h small = absurd h
syms_match buf (o ∷ os) [] h small = absurd h
syms_match buf (o ∷ os) (e ∷ es) h small = (
  (let whole : o % 2 ^ 32 ≡ o = let below = small.0 in omega (arith, below) in rw whole h.0),
  refl,
  refl,
  (st_info_parts e.bind e.type).0,
  (st_info_parts e.bind e.type).1,
  syms_match buf os es h.1 small.1,
)

-- The count of the entries and what is computed from it are ints, and the offsets in the string table
-- have 32 bits.
abbrev pub AreFew : List SymbolEntry → Type 0
AreFew entries = (length entries < 2 ^ 29 - 3) × (strs_len (names_of entries) + 1 < 2 ^ 32)

-- The bytes of a string table are as many as were allocated, and none was written behind them.
abbrev pub IsFull : SectionData → Type 0
IsFull (strings st) = (length st.buf ≡ st.cap) × (st.overrun ≡ false)
IsFull _ = ⊥

-- A symbol section: first the symbol of zeros, then one for each entry, named in the strings.
abbrev pub NamesIn : SectionData → SectionData → List SymbolEntry → Type 0
NamesIn (strings st) (symbols (y ∷ ys)) entries = (y ≡ zero_sym) × SymsMatch st.buf ys entries
NamesIn _ _ _ = ⊥

table_full :
    (ss : List Bytes)
    → All IsCString ss
    → (length (string_table (strs_len ss + 1) ss).1.buf ≡ (string_table (strs_len ss + 1) ss).1.cap)
      × ((string_table (strs_len ss + 1) ss).1.overrun ≡ false)
      × AtOffsets (string_table (strs_len ss + 1) ss).1.buf (string_table (strs_len ss + 1) ss).0 ss
unfolding string_table add_str
table_full ss h =
    let start : StrTab = record {
      cap = strs_len ss + 1;
      buf = 0 ∷ [];
      overrun = ltb (strs_len ss + 1) 1;
    } in
    let first_fits : ltb (strs_len ss + 1) 1 ≡ false = ground arith in
    let (at, len, _, inside) = add_strs-AtOffsets start ss h (omega arith) in
    (omega (arith, add_strs-cap start ss), inside ∙ first_fits, at)

table_below :
    (ss : List Bytes)
    → strs_len ss + 1 < 2 ^ 32
    → All (λ o. o < 2 ^ 32) (string_table (strs_len ss + 1) ss).0
unfolding string_table add_str
table_below ss small =
    add_strs_below (2 ^ 32)
      (record { cap = strs_len ss + 1; buf = 0 ∷ []; overrun = ltb (strs_len ss + 1) 1 }) ss
      (omega (arith, small))

-- The file that `elf_generate_elf_mmap` makes, given the length that its caller counted (the sum of
-- `strlen + 1` over names without null bytes, which is less than 2^32 - 1) and fewer than 2^29 - 3
-- entries, fills both string tables to their last byte and not beyond. Its symbol sections refer to the string table sections, and hold behind the symbol of
-- zeros one symbol for each entry, in order, whose name reads back, with the entry's address, size,
-- binding and type.
pub elf_generate-symbols :
    (layout : ℕ → ℕ) (entries : List SymbolEntry)
    → All IsCString (names_of entries)
    → AreFew entries
    → let image = elf_generate layout entries (strs_len (names_of entries)) in
      IsFull image.strtab.contents
      × IsFull image.dynstr.contents
      × IsFull image.shstrtab.contents
      × (image.symtab.sh_link ≡ ndx_strtab)
      × (image.dynsym.sh_link ≡ ndx_dynstr)
      × NamesIn image.strtab.contents image.symtab.contents entries
      × NamesIn image.dynstr.contents image.dynsym.contents entries
unfolding elf_generate sym_table
elf_generate-symbols layout entries h few =
    let (full, inside, at) = table_full (names_of entries) h in
    let match = syms_match _ _ entries at (table_below (names_of entries) few.1) in
    (
      (full, inside),
      (full, inside),
      (unfold string_table add_str add_strs strs_len in (refl, refl)),
      refl,
      refl,
      (refl, match),
      (refl, match),
    )
