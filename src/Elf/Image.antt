-- ===== src/Elf/Image.antt =====
-- `elf_generate_elf_mmap` of elf.c: the sections, the program headers and the file header that it
-- hands to libelf. `layout` is the offset that `elf_update` gives each section.
use symbi_os.Base.{ℕ, zero, suc, ◌+◌, ◌*◌, ◌%◌, ◌^◌, Bool, true, false, List, [], ◌∷◌, Bytes, codes}
use symbi_os.Base.Lists.{length, get_or}
use symbi_os.Elf.{
  SymType, type_func, SymBind, bind_weak, SymbolEntry, StrTab, top, calloc_table, add_str, add_strs,
  strs_len,
}

abbrev pub sec_names : List Bytes
sec_names =
    codes ".shstrtab"
    ∷ codes ".strtab"
    ∷ codes ".symtab"
    ∷ codes ".dynstr"
    ∷ codes ".dynsym"
    ∷ codes ".hash"
    ∷ codes ".dynamic"
    ∷ []

-- `GElf_Sym`
pub record ElfSym : Type 0 where
  pub st_name : ℕ
  pub st_info : ℕ
  pub st_shndx : ℕ
  pub st_value : ℕ
  pub st_size : ℕ

abbrev pub zero_sym : ElfSym
zero_sym = record { st_name = 0; st_info = 0; st_shndx = 0; st_value = 0; st_size = 0 }

abbrev pub shn_abs : ℕ
shn_abs = 0xfff1

-- `STB_WEAK` is 2, `STB_GLOBAL` 1
abbrev pub sym_bind : SymBind → ℕ
sym_bind bind_weak = 2
sym_bind _ = 1

-- `STT_FUNC` is 2, `STT_OBJECT` 1
abbrev pub sym_type : SymType → ℕ
sym_type type_func = 2
sym_type _ = 1

-- `GELF_ST_INFO`
abbrev pub st_info_of : ℕ → ℕ → ℕ
st_info_of b t = b * 16 + t % 16

-- `st_name` has 32 bits.
unfoldable pub sym_of : ℕ → SymbolEntry → ElfSym
sym_of off e = record {
  st_name = off % 2 ^ 32;
  st_info = st_info_of (sym_bind e.bind) (sym_type e.type);
  st_shndx = shn_abs;
  st_value = e.addr;
  st_size = e.size;
}

-- `sym_table[i+1]` for each entry
unfoldable pub syms_of : List ℕ → List SymbolEntry → List ElfSym
unfolding sym_of
syms_of (o ∷ os) (e ∷ es) = sym_of o e ∷ syms_of os es
syms_of _ _ = []

abbrev pub names_of : List SymbolEntry → List Bytes
names_of [] = []
names_of (e ∷ es) = e.name ∷ names_of es

-- `h_buf`: one bucket, which `calloc` leaves 0, and the numbers from 1 on
unfoldable pub count_up : ℕ → ℕ → List ℕ
count_up zero k = []
count_up (suc n) k = k ∷ count_up n (k + 1)

unfoldable pub hash_words : (count : ℕ) → List ℕ
unfolding count_up
hash_words count = 1 ∷ (count + 1) ∷ 0 ∷ count_up count 1

-- `DT_…`, and the seven entries with their values
pub record DynEntry : Type 0 where
  pub d_tag : ℕ
  pub d_val : ℕ

abbrev pub dyn : ℕ → ℕ → DynEntry
dyn t v = record { d_tag = t; d_val = v }

pub data SectionType : Type 0 where
  sht_strtab sht_symtab sht_dynsym sht_hash sht_dynamic : SectionType

pub data SectionData : Type 0 where
  strings : StrTab → SectionData
  symbols : List ElfSym → SectionData
  words : List ℕ → SectionData
  dynamic : List DynEntry → SectionData

pub record Section : Type 0 where
  pub sh_name : ℕ
  pub sh_type : SectionType
  pub alloc : Bool
  pub sh_link : ℕ
  pub sh_info : ℕ
  pub contents : SectionData

pub record ElfImage : Type 0 where
  pub shstrtab : Section
  pub strtab : Section
  pub dynstr : Section
  pub symtab : Section
  pub dynsym : Section
  pub hash : Section
  pub dynamic_section : Section
  pub e_shstrndx : ℕ
  -- offset and size of the segment `PT_DYNAMIC`
  pub dynamic_offset : ℕ
  pub dynamic_size : ℕ

-- `elf_newscn` numbers the sections from 1 in the order of the calls.
abbrev pub ndx_shstr : ℕ
ndx_shstr = 1

abbrev pub ndx_strtab : ℕ
ndx_strtab = 2

abbrev pub ndx_dynstr : ℕ
ndx_dynstr = 3

abbrev pub ndx_symtab : ℕ
ndx_symtab = 4

abbrev pub ndx_dynsym : ℕ
ndx_dynsym = 5

abbrev pub ndx_hash : ℕ
ndx_hash = 6

abbrev pub ndx_dynamic : ℕ
ndx_dynamic = 7

-- `calloc`, the empty string at index 0, and the strings
unfoldable pub string_table : (size : ℕ) → List Bytes → List ℕ × StrTab
string_table size ss = add_strs (add_str (calloc_table size) []).1 ss

-- The string table of the section names, with room for each name and the first null byte.
abbrev pub sec_table : List ℕ × StrTab
sec_table = string_table (strs_len sec_names + 1) sec_names

unfoldable pub sym_table : (nmstrlen : ℕ) → List SymbolEntry → List ℕ × StrTab
sym_table nmstrlen entries = string_table (nmstrlen + 1) (names_of entries)

abbrev pub section : ℕ → SectionType → Bool → ℕ → ℕ → SectionData → Section
section i type alloc link info contents = record {
  sh_name = get_or sec_table.0 i 0;
  sh_type = type;
  alloc = alloc;
  sh_link = link;
  sh_info = info;
  contents = contents;
}

unfoldable pub dyn_data : (layout : ℕ → ℕ) → (strsz : ℕ) → List DynEntry
dyn_data layout strsz =
    dyn 5 (layout ndx_dynstr)
    ∷ dyn 6 (layout ndx_dynsym)
    ∷ dyn 10 strsz
    ∷ dyn 11 24
    ∷ dyn 4 (layout ndx_hash)
    ∷ dyn 0 0
    ∷ dyn 0 0
    ∷ []

-- `count` is the length of `entries`. It is an int, and so is `(count + 3) * 4`, the size of the hash
-- table, so the length is to be below 2^29 - 3.
unfoldable pub elf_generate : (layout : ℕ → ℕ) → List SymbolEntry → (nmstrlen : ℕ) → ElfImage
unfolding dyn_data
elf_generate layout entries nmstrlen =
    let offs = (sym_table nmstrlen entries).0 in
    let sym_st = (sym_table nmstrlen entries).1 in
    let syms = zero_sym ∷ syms_of offs entries in
    record {
      shstrtab = section 0 sht_strtab false 0 0 (strings sec_table.1);
      strtab = section 1 sht_strtab false 0 0 (strings sym_st);
      dynstr = section 3 sht_strtab true 0 0 (strings sym_st);
      symtab = section 2 sht_symtab false ndx_strtab 1 (symbols syms);
      dynsym = section 4 sht_dynsym true ndx_dynstr 1 (symbols syms);
      hash = section 5 sht_hash true ndx_dynsym 0 (words (hash_words (length entries)));
      dynamic_section = section 6 sht_dynamic true 0 0 (dynamic (dyn_data layout (top sym_st)));
      e_shstrndx = ndx_shstr;
      dynamic_offset = layout ndx_dynamic;
      dynamic_size = 7 * 16;
    }
