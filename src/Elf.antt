-- ===== src/Elf.antt =====
-- The shared objects that kld writes and the ELF files that it reads (examples/tools/src/kld/elf.h,
-- elf.c): symbol entries and string tables.
mod SecdataTests
pub mod Secdata
pub mod Opened
pub mod Strtab
pub mod Image
pub mod Read
pub mod Hash
pub mod Lookup
mod Tests
use symbi_os.Base.{
  ℕ, suc, ◌+◌, Bool, true, false, ◌||◌, ltb, List, [], ◌∷◌, ◌++◌, ◌==◌, if◌then◌else◌, Bytes,
}
use symbi_os.Base.Lists.{length}

pub data SymType : Type 0 where
  type_func type_data type_rodata type_bss type_abs : SymType

pub data SymBind : Type 0 where
  bind_global bind_local bind_weak : SymBind

-- `SymbolEntry`
pub record SymbolEntry : Type 0 where
  pub name : Bytes
  pub addr : ℕ
  pub size : ℕ
  pub bind : SymBind
  pub type : SymType

-- `StrTab`: `cap` bytes were allocated, and `buf` holds the first `top` bytes, which were written.
-- `overrun` tells that a byte was written behind the allocation, which is undefined.
pub record StrTab : Type 0 where
  pub cap : ℕ
  pub buf : Bytes
  pub overrun : Bool

abbrev pub top : StrTab → ℕ
top st = length st.buf

abbrev pub calloc_table : ℕ → StrTab
calloc_table cap = record { cap = cap; buf = []; overrun = false }

-- `add_str` writes the string and its null byte at `top`, and returns its offset.
unfoldable pub add_str : StrTab → Bytes → ℕ × StrTab
add_str st s = (
  top st,
  record st {
    buf = st.buf ++ (s ++ 0 ∷ []);
    overrun = st.overrun || ltb st.cap (top st + (length s + 1));
  },
)

-- `add_str` for a list of strings, with the offsets.
unfoldable pub add_strs : StrTab → List Bytes → List ℕ × StrTab
unfolding add_str
add_strs st [] = ([], st)
add_strs st (s ∷ ss) =
    let (off, st') = add_str st s in let (offs, st'') = add_strs st' ss in (off ∷ offs, st'')

-- The sum of `strlen(s) + 1`
unfoldable pub strs_len : List Bytes → ℕ
strs_len [] = 0
strs_len (s ∷ ss) = length s + 1 + strs_len ss

-- The C string at an offset of a table.
abbrev pub until_null : Bytes → Bytes
until_null [] = []
until_null (c ∷ cs) = if c == 0 then [] else c ∷ until_null cs
