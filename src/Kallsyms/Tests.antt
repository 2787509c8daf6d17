-- ===== src/Kallsyms/Tests.antt =====
-- A run over the lines of /proc/kallsyms, and an instance of the theorem on them.
use symbi_os.Base.{
  ◌*◌, ℕ, ◌≡◌, refl, Option, none, some, List, [], ◌∷◌, arith, Bytes, codes, bytes_eq, bytes_eq_iff,
}
use symbi_os.Base.Machine.{done}
use symbi_os.Uthash.{Uthash}
use symbi_os.Uthash.Assoc.{assoc_uthash}
use symbi_os.Elf.Strtab.{IsCString}
use symbi_os.Kallsyms.{Line, init_se, module_of, Symbols, no_symbols, read_lines, group_image}
use symbi_os.Kallsyms.Groups.{entries_for}
use symbi_os.Kallsyms.Lines.{Carries, read_lines-group_image}

abbrev name_table : Uthash Bytes ℕ
name_table = assoc_uthash ℕ bytes_eq bytes_eq_iff

abbrev line : Bytes → Option Bytes → Line
line name word = record { addr = 0x81000; type = b'T'; name = name; word = word }

abbrev three_lines : List Line
three_lines =
    line (codes "up") none
    ∷ line (codes "ext") (some (codes "[ext4]"))
    ∷ line (codes "down") none
    ∷ []

module_of_brackets : module_of (some (codes "[ext4]")) ≡ some (codes "ext4")
unfolding module_of
module_of_brackets = refl

up-IsCString : IsCString (codes "up")
up-IsCString = ground arith

ext-IsCString : IsCString (codes "ext")
ext-IsCString = ground arith

down-IsCString : IsCString (codes "down")
down-IsCString = ground arith

abbrev page_layout : ℕ → ℕ
page_layout i = 4096 * i

read_lines-group_image_example :
    (s' : Symbols name_table) × (read_lines three_lines (no_symbols {T = name_table}) ≡ done tt s')
    × Carries (group_image page_layout s'.kernel) (entries_for none three_lines)
    × ((m : Bytes) (p : ℕ)
        → name_table.find m s'.mhash ≡ some p
        → Carries (group_image page_layout (s'.mods p)) (entries_for (some m) three_lines))
    × ((m : Bytes) → name_table.find m s'.mhash ≡ none → entries_for (some m) three_lines ≡ [])
unfolding init_se
read_lines-group_image_example =
    read_lines-group_image page_layout three_lines
      ((refl, up-IsCString), ((refl, ext-IsCString), ((refl, down-IsCString), tt)))
      (omega arith, omega arith)
