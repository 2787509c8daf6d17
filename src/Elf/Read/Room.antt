-- ===== src/Elf/Read/Room.antt =====
-- The room and the lengths that `elf_read_syms` of elf.c counts, and `prcBO` of main.c.
use symbi_os.Base.{
  ◌||◌, not, true, ℕ, ◌+◌, ◌*◌, ◌^◌, ◌/◌, if◌then◌else◌, ◌≤◌, ◌≡◌, List, [], ◌∷◌, ◌++◌, arith, ◌==◌,
}
use symbi_os.Base.Lists.{length}
use symbi_os.Elf.{SymbolEntry, strs_len}
use symbi_os.Elf.Image.{names_of}
use symbi_os.Elf.Read.{int_rounds, InSection, Reading}
use symbi_os.Elf.Strtab.{All, IsCString}

-- What has been read after at most `k` symbols with names of at most `longest` bytes.
pub record IsRead (longest k : ℕ) (r : Reading) : Type 0 where
  pub room : length r.ents ≤ r.emax
  pub limit : r.emax ≤ 2 ^ 30
  pub few : length r.ents ≤ k
  pub short : strs_len (names_of r.ents) ≤ k * (longest + 1)
  pub sum : r.nmstrlen ≡ strs_len (names_of r.ents)
  pub c_strings : All IsCString (names_of r.ents)

pub strs_len-snoc :
    (es : List SymbolEntry) (e : SymbolEntry)
    → strs_len (names_of (es ++ e ∷ [])) ≡ strs_len (names_of es) + (length e.name + 1)
unfolding strs_len
strs_len-snoc [] e = omega arith
strs_len-snoc (x ∷ es) e = omega (arith, strs_len-snoc es e)

-- The names are C strings, of at most so many bytes.
abbrev pub HasStrings : ℕ → InSection → Type 0
HasStrings longest sc = (off : ℕ) → IsCString (sc.strptr off) × (length (sc.strptr off) ≤ longest)

-- The symbols that are read of a section, and of all.
abbrev pub count_of : InSection → ℕ
count_of sc = if sc.is_symbols then int_rounds (sc.sh_size / sc.sh_entsize) else 0

abbrev pub total_of : List InSection → ℕ
total_of [] = 0
total_of (sc ∷ scs) = count_of sc + total_of scs

-- A symbol table has entries of some size.
abbrev pub HasEntries : InSection → Type 0
HasEntries sc = (not sc.is_symbols || not (sc.sh_entsize == 0)) ≡ true
