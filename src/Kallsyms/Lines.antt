-- ===== src/Kallsyms/Lines.antt =====
-- `prcKallsyms` over all lines: the shared objects that it writes.
use mathlib.Core.Path.{subst, fun_ext}
use symbi_os.Base.{
  ◌==◌, ◌+◌, ◌-◌, ◌^◌, ◌<◌, ◌≤◌, ℕ, ◌≡◌, refl, ap, sym, Bool, true, false, Option, none, some, List,
  [], ◌∷◌, ◌++◌, inl, inr, is_some, Option-cases, arith, Bytes,
}
use mathlib.Core.List.{append-nil, append_assoc}
use symbi_os.Base.Lists.{length}
use symbi_os.Base.Machine.{done}
use symbi_os.Uthash.{Uthash}
use symbi_os.Elf.{SymBind, SymType, SymbolEntry, strs_len}
use symbi_os.Elf.Image.{ElfImage, names_of}
use symbi_os.Elf.Strtab.{All, IsCString}
use symbi_os.Elf.Lookup.{AreFew, IsFull, NamesIn, elf_generate-symbols}
use symbi_os.Kallsyms.{
  entry_with, Line, bind_type, init_se, module_of, Group, Symbols, no_symbols, add_to, read_lines,
  group_image,
}
use symbi_os.Kallsyms.Groups.{
  entries_for, entry_to, same_word, Holds, nothing, IsGrouped, with_entry, kernel_added,
  found_added, new_added, added,
}

-- A type letter that `initSE` knows, and a name without null bytes.
abbrev pub IsReadable : Line → Type 0
IsReadable l = (is_some (init_se l) ≡ true) × IsCString l.name

IsGrouped-ext :
    {T : Uthash Bytes ℕ} (want want' : Option Bytes → List SymbolEntry) (s : Symbols T)
    → ((m : Option Bytes) → want m ≡ want' m)
    → IsGrouped want s
    → IsGrouped want' s
IsGrouped-ext want want' s same v = subst (λ w. IsGrouped w s) (fun_ext same) v

add_to-IsGrouped :
    {T : Uthash Bytes ℕ} (want : Option Bytes → List SymbolEntry) (m : Option Bytes)
    (e : SymbolEntry) (s : Symbols T)
    → IsGrouped want s
    → (s' : Symbols T) × (add_to m e s ≡ done tt s') × IsGrouped (with_entry want m e) s'
unfolding add_to
add_to-IsGrouped want none e s v = (_, refl, kernel_added want e s v)
add_to-IsGrouped {T} want (some m) e s v = elim (Option-cases (T.find m s.mhash)) [
  | inl missing ↦ (
    added want e s v m,
    let self : (s.used == s.used) ≡ true = ground arith in rw (missing, self) refl,
    new_added want e s v m missing,
  )
  | inr (p, found) ↦ (_, rw found refl, found_added want e s v m p found)
]

entry_to-append :
    (b : Bool) (o : Option SymbolEntry) (xs es : List SymbolEntry)
    → (xs ++ entry_to b o []) ++ es ≡ xs ++ entry_to b o es
entry_to-append true (some e) xs es = append_assoc xs (e ∷ []) es
entry_to-append true none xs es = ap (λ x. x ++ es) (append-nil xs)
entry_to-append false o xs es = ap (λ x. x ++ es) (append-nil xs)

read_lines-IsGrouped :
    {T : Uthash Bytes ℕ} (ls : List Line) (want : Option Bytes → List SymbolEntry) (s : Symbols T)
    → All IsReadable ls
    → IsGrouped want s
    → (s' : Symbols T) × (read_lines ls s ≡ done tt s')
      × IsGrouped (λ m. want m ++ entries_for m ls) s'
unfolding read_lines
read_lines-IsGrouped [] want s h v =
    (s, refl, IsGrouped-ext want _ s (λ m. sym (append-nil (want m))) v)
read_lines-IsGrouped (l ∷ ls) want s h v = elim (Option-cases (init_se l)) [
  | inl unknown ↦ absurd (let ok = h.0.0 in ground arith)
  | inr (e, known) ↦
      let (s1, run, v1) = add_to-IsGrouped want (module_of l.word) e s v in
      let (s2, rest, v2) =
        read_lines-IsGrouped ls (with_entry want (module_of l.word) e) s1 h.1 v1 in
      (
        s2,
        rw (known, run) rest,
        IsGrouped-ext _ _ s2
            (λ m. rw known (
              entry_to-append (same_word (module_of l.word) m) (some e) (want m)
                (entries_for m ls)))
            v2,
      )
]

entry_with_name :
    (l : Line) (o : Option (SymBind × SymType)) (e : SymbolEntry)
    → entry_with l o ≡ some e
    → e.name ≡ l.name
entry_with_name l none e h = ground arith
entry_with_name l (some (b, t)) e h = ground arith

init_se_name : (l : Line) (e : SymbolEntry) → init_se l ≡ some e → e.name ≡ l.name
unfolding init_se
init_se_name l e h = entry_with_name l (bind_type l.type) e h

entry_to_c_strings :
    (b : Bool) (o : Option SymbolEntry) (es : List SymbolEntry)
    → ((e : SymbolEntry) → o ≡ some e → IsCString e.name)
    → All IsCString (names_of es)
    → All IsCString (names_of (entry_to b o es))
entry_to_c_strings true (some e) es c h = (c e refl, h)
entry_to_c_strings true none es c h = h
entry_to_c_strings false o es c h = h

names_c_strings :
    (m : Option Bytes) (ls : List Line)
    → All IsReadable ls
    → All IsCString (names_of (entries_for m ls))
names_c_strings m [] h = tt
names_c_strings m (l ∷ ls) h =
    entry_to_c_strings (same_word (module_of l.word) m) (init_se l) (entries_for m ls)
      (λ e known. rw (init_se_name l e known) h.0.1) (names_c_strings m ls h.1)

-- All names with their null bytes
abbrev pub lines_len : List Line → ℕ
lines_len [] = 0
lines_len (l ∷ ls) = length l.name + 1 + lines_len ls

-- The lines are few enough for an int and for the 32 bits of the offsets in a string table.
abbrev pub AreFewLines : List Line → Type 0
AreFewLines ls = (length ls < 2 ^ 29 - 3) × (lines_len ls + 1 < 2 ^ 32)

entry_to_short :
    (b : Bool) (o : Option SymbolEntry) (es : List SymbolEntry) (n : ℕ)
    → ((e : SymbolEntry) → o ≡ some e → length e.name ≡ n)
    → (length (entry_to b o es) ≤ length es + 1)
      × (strs_len (names_of (entry_to b o es)) ≤ n + 1 + strs_len (names_of es))
unfolding strs_len
entry_to_short true (some e) es n named =
    let same = named e refl in (omega arith, omega (arith, same))
entry_to_short true none es n named = (omega arith, omega arith)
entry_to_short false o es n named = (omega arith, omega arith)

entries_short :
    (m : Option Bytes) (ls : List Line)
    → (length (entries_for m ls) ≤ length ls)
      × (strs_len (names_of (entries_for m ls)) ≤ lines_len ls)
unfolding strs_len
entries_short m [] = (omega arith, omega arith)
entries_short m (l ∷ ls) =
    let rest = entries_short m ls in
    let here =
      entry_to_short (same_word (module_of l.word) m) (init_se l) (entries_for m ls) (length l.name)
        (λ e known. ap length (init_se_name l e known)) in
    (omega (arith, rest.0, here.0), omega (arith, rest.1, here.1))

entries_few : (m : Option Bytes) (ls : List Line) → AreFewLines ls → AreFew (entries_for m ls)
entries_few m ls few =
    let short = entries_short m ls in (omega (arith, short.0, few.0), omega (arith, short.1, few.1))

-- The string table of the image is filled exactly, and its symbols are these entries.
abbrev pub Carries : ElfImage → List SymbolEntry → Type 0
Carries image es =
    IsFull image.strtab.contents × NamesIn image.strtab.contents image.symtab.contents es

-- The image of a group carries the entries that it holds.
group_names :
    (layout : ℕ → ℕ) (g : Group) (es : List SymbolEntry)
    → Holds g es
    → All IsCString (names_of es)
    → AreFew es
    → Carries (group_image layout g) es
unfolding group_image
group_names layout g es h c few =
    let (full, _, _, _, _, symtab, _) = elf_generate-symbols layout es c few in
    rw (h.entries, h.sum) (full, symtab)

-- For fewer than 2^29 - 3 lines with type letters that `initSE` knows, whose names are C strings and
-- have less than 2^32 - 1 bytes in all with their null bytes, `prcKallsyms` returns from its loop.
-- Its shared object for the kernel then has one symbol for each line without a module, in order, under
-- the name of the line; each module of the table has a shared object with the symbols of the lines
-- that name the module; the string tables of these objects are filled exactly and not beyond; and no
-- line names a module that is not in the table.
pub read_lines-group_image :
    {T : Uthash Bytes ℕ} (layout : ℕ → ℕ) (ls : List Line)
    → All IsReadable ls
    → AreFewLines ls
    → (s' : Symbols T) × (read_lines ls (no_symbols {T = T}) ≡ done tt s')
      × Carries (group_image layout s'.kernel) (entries_for none ls)
      × ((m : Bytes) (p : ℕ)
          → T.find m s'.mhash ≡ some p
          → Carries (group_image layout (s'.mods p)) (entries_for (some m) ls))
      × ((m : Bytes) → T.find m s'.mhash ≡ none → entries_for (some m) ls ≡ [])
read_lines-group_image {T} layout ls h few =
    let start : IsGrouped {T = T} (λ m. []) no_symbols = record {
      kernel = nothing;
      absent = λ m none_yet. refl;
      below = λ m p found. absurd (let e = T.find-empty m in ground arith);
      present = λ m p found. nothing;
      distinct = λ m n p found other. absurd (let e = T.find-empty m in ground arith);
    } in
    let (s', run, v) = read_lines-IsGrouped ls (λ m. []) (no_symbols {T = T}) h start in
    (
      s',
      run,
      group_names layout s'.kernel (entries_for none ls) v.kernel (names_c_strings none ls h)
          (entries_few none ls few),
      (λ m p found.
          group_names layout (s'.mods p) (entries_for (some m) ls) (v.present m p found)
            (names_c_strings (some m) ls h) (entries_few (some m) ls few)),
      v.absent,
    )
