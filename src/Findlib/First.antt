-- ===== src/Findlib/First.antt =====
-- `find_libkallsyms` of misc/findlibkallsyms.c returns the range of the first line that maps the library.
use symbi_os.Base.{
  ℕ, suc, ◌+◌, ◌-◌, ◌^◌, ◌<◌, ◌≡◌, refl, sym, ◌∙◌, true, false, some, List, [], ◌∷◌, ◌++◌, map,
  Bytes, arith, Option-cases, inl, inr, ◌==◌, codes,
}
use native.Mathlib.Numerals.{add-one}
use mathlib.Core.Path.{subst}
use mathlib.Core.List.{append_assoc, map-append}
use symbi_os.Base.Lists.{length, drop, length-append}
use symbi_os.Findlib.{
  not_found, read_range, is_kallsyms, read_end, search_lines, find_libkallsyms, kallsyms, u64,
  contains, from_last_slash, hex_digit,
}
use symbi_os.Findlib.Hex.{IsHex, hex_value, hexstr2ull-hex_value}
use symbi_os.Findlib.Lines.{with_newline, IsLine, AreLines, text, fgets_lines-text}
use symbi_os.Findlib.Search.{
  IsFree, contains_middle, contains_free, from_last_slash_middle, chomp_line, contains_path,
}

-- A line without its newline: two addresses, and behind the last slash a name with the library's.
abbrev pub library_line : Bytes → Bytes → Bytes → Bytes → Bytes → Bytes
library_line ds es mid p q = (ds ++ b'-' ∷ (es ++ b' ' ∷ mid)) ++ b'/' ∷ (p ++ (kallsyms ++ q))

IsFree-newline : (b : ℕ) (s : Bytes) → (b'\n' == b) ≡ false → IsFree b s → IsFree b (with_newline s)
IsFree-newline b [] h free = (h, tt)
IsFree-newline b (c ∷ s) h (free, rest) = (free, IsFree-newline b s h rest)

drop-append : (xs : Bytes) (y : ℕ) (ys : Bytes) → drop (suc (length xs)) (xs ++ y ∷ ys) ≡ ys
drop-append [] y ys = refl
drop-append (x ∷ xs) y ys = drop-append xs y ys

read_range-hex_value :
    (ds es rest : Bytes)
    → IsHex ds
    → IsHex es
    → 0 < length ds
    → 0 < length es
    → length (ds ++ b'-' ∷ (es ++ b' ' ∷ rest)) < 2 ^ 64
    → read_range (ds ++ b'-' ∷ (es ++ b' ' ∷ rest))
      ≡ record { rc = 1; first = u64 (hex_value ds); last = u64 (hex_value es) }
unfolding read_range read_end hex_digit
read_range-hex_value ds es rest hd he d e small =
    rw
      (
        read_range,
        hexstr2ull-hex_value ds (b'-' ∷ (es ++ b' ' ∷ rest))
            (length (ds ++ b'-' ∷ (es ++ b' ' ∷ rest))) hd refl (omega (arith, total)),
      )
      (ground (
        arith,
        d,
        e,
        after_dash,
        hexstr2ull-hex_value es (b' ' ∷ rest) left he refl (omega (arith, total, small)),
      ))
  where
    left : ℕ
    left = u64 (length (ds ++ b'-' ∷ (es ++ b' ' ∷ rest)) + 2 ^ 64 - (length ds + 1))

    after_dash : drop (length ds + 1) (ds ++ b'-' ∷ (es ++ b' ' ∷ rest)) ≡ es ++ b' ' ∷ rest
    after_dash = rw (add-one (length ds)) (drop-append ds b'-' (es ++ b' ' ∷ rest))

    total :
        length (ds ++ b'-' ∷ (es ++ b' ' ∷ rest)) ≡ length ds + suc (length es + suc (length rest))
    total =
        omega (arith, length-append ds (b'-' ∷ (es ++ b' ' ∷ rest)), length-append es (b' ' ∷ rest))

-- Lines without the library's name are passed over.
abbrev pub IsOther : List Bytes → Type 0
IsOther [] = Unit
IsOther (l ∷ ls) = (contains kallsyms l ≡ false) × IsOther ls

is_kallsyms_other : (l : Bytes) → contains kallsyms l ≡ false → is_kallsyms l ≡ false
unfolding is_kallsyms
is_kallsyms_other l h = elim (Option-cases (from_last_slash l)) [
  | inl e ↦ ground (arith, e)
  | inr (t, e) ↦ ground (arith, e, contains_path kallsyms l t e h)
]

search_lines-IsOther :
    (ls rest : List Bytes) → IsOther ls → search_lines (ls ++ rest) ≡ search_lines rest
unfolding search_lines
search_lines-IsOther [] rest h = refl
search_lines-IsOther (l ∷ ls) rest (h, hs) =
    rw (is_kallsyms_other l h) (search_lines-IsOther ls rest hs)

-- The name ends the line, and no byte of the line opens a bracket.
is_kallsyms_library :
    (s p q : Bytes)
    → IsFree b'[' (s ++ b'/' ∷ (p ++ (kallsyms ++ q)))
    → IsFree b'/' (p ++ (kallsyms ++ q))
    → is_kallsyms (s ++ b'/' ∷ with_newline (p ++ (kallsyms ++ q))) ≡ true
unfolding is_kallsyms
is_kallsyms_library s p q bracket slash = ground (
  arith,
  from_last_slash_middle s (with_newline t) (IsFree-newline b'/' t refl slash),
  chomp_line (b'/' ∷ t),
  contains_middle (b'/' ∷ p) kallsyms q,
  contains_free b'[' (codes "stack]") line free,
  contains_free b'[' (codes "heap]") line free,
)
  where
    t : Bytes
    t = p ++ (kallsyms ++ q)

    line : Bytes
    line = s ++ b'/' ∷ with_newline t

    free : IsFree b'[' line
    free =
        subst (IsFree b'[') (append_assoc s (b'/' ∷ t) (b'\n' ∷ []))
          (IsFree-newline b'[' (s ++ b'/' ∷ t) refl bracket)

middle-IsLine :
    (ls : List Bytes) (l : Bytes) (rest : List Bytes) → AreLines (ls ++ l ∷ rest) → IsLine l
middle-IsLine [] l rest h = h.0
middle-IsLine (x ∷ ls) l rest h = middle-IsLine ls l rest h.1

search_lines_here :
    (l : Bytes) (rest : List Bytes)
    → is_kallsyms (with_newline l) ≡ true
    → search_lines (with_newline l ∷ rest) ≡ read_range l
unfolding search_lines
search_lines_here l rest h = rw (h, chomp_line l) refl

-- In a file of lines that `fgets` reads whole, of which the first with "libkallsyms.so" in it begins
-- with two numbers in hexadecimal, joined by a dash and ended by a space, has the name in the last
-- component of its path, and has no opening bracket, `find_libkallsyms` returns 1 and stores these
-- numbers modulo 2^64, whatever the lines behind it are.
pub find_libkallsyms-first :
    (before after : List Bytes) (ds es mid p q : Bytes)
    → IsOther (map with_newline before)
    → IsHex ds
    → IsHex es
    → 0 < length ds
    → 0 < length es
    → IsFree b'[' (library_line ds es mid p q)
    → IsFree b'/' (p ++ (kallsyms ++ q))
    → AreLines (before ++ library_line ds es mid p q ∷ after)
    → find_libkallsyms (some (text (before ++ library_line ds es mid p q ∷ after)))
      ≡ record { rc = 1; first = u64 (hex_value ds); last = u64 (hex_value es) }
unfolding find_libkallsyms
find_libkallsyms-first before after ds es mid p q others hd he d e bracket slash lines =
    rw
      (
        find_libkallsyms,
        fgets_lines-text (before ++ line ∷ after) lines,
        map-append with_newline before (line ∷ after),
        search_lines-IsOther (map with_newline before) (with_newline line ∷ map with_newline after)
            others,
      )
      (search_lines_here line (map with_newline after) found ∙ read)
  where
    line : Bytes
    line = library_line ds es mid p q

    rest : Bytes
    rest = b'/' ∷ (p ++ (kallsyms ++ q))

    found : is_kallsyms (with_newline line) ≡ true
    found =
        subst (λ l. is_kallsyms l ≡ true)
          (sym (append_assoc (ds ++ b'-' ∷ (es ++ b' ' ∷ mid)) rest (b'\n' ∷ [])))
          (is_kallsyms_library (ds ++ b'-' ∷ (es ++ b' ' ∷ mid)) p q bracket slash)

    flat : line ≡ ds ++ b'-' ∷ (es ++ b' ' ∷ (mid ++ rest))
    flat =
        rw (append_assoc ds (b'-' ∷ (es ++ b' ' ∷ mid)) rest, append_assoc es (b' ' ∷ mid) rest)
          refl

    read :
        read_range line ≡ record { rc = 1; first = u64 (hex_value ds); last = u64 (hex_value es) }
    read = rw flat (
        read_range-hex_value ds es (mid ++ rest) hd he d e (
          subst (λ l. length l < 2 ^ 64) flat
            (omega (arith, (middle-IsLine before line after lines).1))))

all_other : (ls : List Bytes) → IsOther ls → search_lines ls ≡ not_found
unfolding search_lines
all_other [] h = refl
all_other (l ∷ ls) (h, hs) = rw (is_kallsyms_other l h) (all_other ls hs)

-- If no line has "libkallsyms.so" in it, the result is 0, and both addresses are NULL.
pub find_libkallsyms-none :
    (ls : List Bytes)
    → AreLines ls
    → IsOther (map with_newline ls)
    → find_libkallsyms (some (text ls)) ≡ not_found
unfolding find_libkallsyms search_lines
find_libkallsyms-none ls lines others =
    rw (find_libkallsyms, fgets_lines-text ls lines) (all_other (map with_newline ls) others)
