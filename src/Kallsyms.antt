-- ===== src/Kallsyms.antt =====
-- Symbols of the running kernel (examples/tools/src/kld/main.c: `initSE`, `prcKallsyms`). A line of
-- /proc/kallsyms is what `sscanf` makes of it; a module is a pointer into `mods`, where `used`
-- pointers were given out by `malloc`.
pub mod Groups
pub mod Lines
mod Tests
use symbi_os.Base.{
  update, ℕ, ◌+◌, ◌*◌, ◌%◌, ◌^◌, Bool, true, false, ◌||◌, Option, none, some, List, [], ◌∷◌, ◌++◌,
  ◌==◌, if◌then◌else◌, Bytes,
}
use mathlib.Core.List.{reverse}
use symbi_os.Base.Lists.{length}
use symbi_os.Base.Machine.{M, pure, ◌>>=◌, ◌>>◌, get, put, nyi}
use symbi_os.Uthash.{Uthash}
use symbi_os.Elf.{
  SymbolEntry, SymType, type_func, type_data, type_rodata, type_bss, type_abs, SymBind, bind_global,
  bind_weak,
}
use symbi_os.Elf.Image.{ElfImage, elf_generate}

-- What was read before the end of the line; the module is the word in brackets.
pub record Line : Type 0 where
  pub addr : ℕ
  pub type : ℕ
  pub name : Bytes
  pub word : Option Bytes

-- The `switch` of `initSE`; `none` is a letter that it does not support.
unfoldable pub bind_type : ℕ → Option (SymBind × SymType)
bind_type c =
    if c == b'A' || c == b'a'
    then some (bind_global, type_abs)
    else if c == b'B' || c == b'b'
    then some (bind_global, type_bss)
    else if c == b'D' || c == b'd'
    then some (bind_global, type_data)
    else if c == b'R' || c == b'r'
    then some (bind_global, type_rodata)
    else if c == b'T' || c == b't'
    then some (bind_global, type_func)
    else if c == b'V' || c == b'W' || c == b'v' || c == b'w'
    then some (bind_weak, type_func)
    else none

abbrev pub entry_with : Line → Option (SymBind × SymType) → Option SymbolEntry
entry_with l none = none
entry_with l (some (b, t)) =
    some (record { name = l.name; addr = l.addr; size = 0; bind = b; type = t })

-- `initSE`; `none` is `assert(0)`.
unfoldable pub init_se : Line → Option SymbolEntry
unfolding bind_type
init_se l = entry_with l (bind_type l.type)

-- The first byte goes, and the last if it ends a line or is a bracket.
unfoldable pub drop_end : Bytes → Bytes
drop_end [] = []
drop_end (c ∷ cs) = if c == 10 || c == 13 || c == b']' then cs else c ∷ cs

unfoldable pub module_of : Option Bytes → Option Bytes
unfolding drop_end
module_of none = none
module_of (some []) = none
module_of (some (c ∷ cs)) = some (reverse (drop_end (reverse cs)))

-- `struct Module`, and the variables for the kernel's own symbols
pub record Group : Type 0 where
  pub entries : List SymbolEntry
  pub room : ℕ
  pub nmstrlen : ℕ

abbrev pub empty_group : Group
empty_group = record { entries = []; room = 0; nmstrlen = 0 }

-- `if (syms_i == syms_n)`: the room is doubled, from 1024 on, in 64 bits.
unfoldable pub grow_room : ℕ → ℕ → ℕ
grow_room used room =
    if used == room then (if room == 0 then 1024 else (room * 2) % 2 ^ 64) else room

unfoldable pub add_entry : SymbolEntry → Group → Group
add_entry e g = record {
  entries = g.entries ++ e ∷ [];
  room = grow_room (length g.entries) g.room;
  nmstrlen = g.nmstrlen + (length e.name + 1);
}

pub record Symbols (T : Uthash Bytes ℕ) : Type 0 where
  pub mhash : T.Table
  pub mods : ℕ → Group
  pub used : ℕ
  pub kernel : Group

module _ {T : Uthash Bytes ℕ} where
  -- The module that `HASH_FIND_STR` finds, or a new one.
  unfoldable pub module_at : Bytes → Option ℕ → M (Symbols T) ℕ
  module_at name (some p) = pure p
  module_at name none = do
    s ← get
    put (record s {
      mhash = T.add name s.used s.mhash;
      mods = update s.mods s.used empty_group;
      used = s.used + 1;
    })
    pure s.used

  unfoldable pub add_to : Option Bytes → SymbolEntry → M (Symbols T) (Unit {0})
  unfolding module_at add_entry
  add_to none e = do s ← get; put (record s { kernel = add_entry e s.kernel })
  add_to (some name) e = do
    s ← get
    p ← module_at name (T.find name s.mhash)
    t ← get
    put (record t { mods = update t.mods p (add_entry e (t.mods p)) })

  unfoldable pub add_if : Option Bytes → Option SymbolEntry → M (Symbols T) (Unit {0})
  unfolding add_to
  add_if to none = nyi
  add_if to (some e) = add_to to e

  -- The loop over the lines.
  unfoldable pub read_lines : List Line → M (Symbols T) (Unit {0})
  unfolding add_if
  read_lines [] = pure tt
  read_lines (l ∷ ls) = do add_if (module_of l.word) (init_se l); read_lines ls

abbrev pub no_symbols : {T : Uthash Bytes ℕ} → Symbols T
no_symbols {T} = record { mhash = T.empty; mods = λ _. empty_group; used = 0; kernel = empty_group }

-- What `writeso` is given for a group.
unfoldable pub group_image : (layout : ℕ → ℕ) → Group → ElfImage
group_image layout g = elf_generate layout g.entries g.nmstrlen
