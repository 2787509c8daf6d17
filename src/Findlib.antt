-- ===== src/Findlib.antt =====
-- misc/findlibkallsyms.c: finding where `libkallsyms.so` is mapped, in the text of /proc/self/maps.
pub mod Hex
pub mod Search
pub mod Lines
pub mod First
mod Tests
use symbi_os.Base.{
  ℕ, zero, suc, ◌+◌, ◌-◌, ◌*◌, ◌%◌, ◌^◌, Bool, true, false, not, ◌&&◌, ◌||◌, Option, none, some,
  List, [], ◌∷◌, ◌++◌, map, ◌==◌, leb, if◌then◌else◌, Bytes, codes, is_some,
}
use symbi_os.Base.Lists.{length, get_or, drop}

abbrev pub u64 : ℕ → ℕ
u64 n = n % 2 ^ 64

abbrev pub kallsyms : Bytes
kallsyms = codes "libkallsyms.so"

-- The digit that a byte stands for.
unfoldable pub hex_digit : ℕ → Option ℕ
hex_digit c =
    if leb b'0' c && leb c b'9'
    then some (c - b'0')
    else if leb b'a' c && leb c b'f'
    then some (10 + (c - b'a'))
    else if leb b'A' c && leb c b'F'
    then some (10 + (c - b'A'))
    else none

-- The first loop of `hexstr2ull`: how many of the first `len` bytes are digits, up to one that is none.
unfoldable pub hex_run : Bytes → ℕ → ℕ
hex_run [] len = 0
hex_run (c ∷ cs) zero = 0
hex_run (c ∷ cs) (suc len) = if is_some (hex_digit c) then suc (hex_run cs len) else 0

-- The second loop, from the last of `i` digits to the first; `none` is its `return 0`.
unfoldable pub hex_down : Bytes → ℕ → ℕ → ℕ → Option ℕ
hex_down str zero v p = some v
hex_down str (suc i) v p = elim (hex_digit (get_or str i 0)) [
  | none ↦ none
  | some d ↦ hex_down str i (u64 (v + d * p)) (u64 (p * 16))
]

-- The return value, and what is stored to `*val`, if anything is.
unfoldable pub hexstr2ull : Bytes → ℕ → ℕ × Option ℕ
hexstr2ull str len =
    let rc = hex_run str len in
    elim (hex_down str rc 0 1) [ none ↦ (0, none) | some v ↦ (rc, some v) ]

unfoldable pub starts_with : Bytes → Bytes → Bool
starts_with [] s = true
starts_with (_ ∷ _) [] = false
starts_with (a ∷ n) (b ∷ s) = a == b && starts_with n s

-- `strstr(s, n) != NULL`
unfoldable pub contains : Bytes → Bytes → Bool
contains n [] = starts_with n []
contains n (c ∷ s) = starts_with n (c ∷ s) || contains n s

-- `strrchr(s, '/')`: what `s` is from its last slash on.
unfoldable pub from_last_slash : Bytes → Option Bytes
from_last_slash [] = none
from_last_slash (c ∷ s) = elim (from_last_slash s) [
  | some t ↦ some t
  | none ↦ if c == b'/' then some (c ∷ s) else none
]

-- A line without the newline at its end.
unfoldable pub chomp : Bytes → Bytes
chomp [] = []
chomp (c ∷ []) = if c == b'\n' then [] else c ∷ []
chomp (c ∷ d ∷ s) = c ∷ chomp (d ∷ s)

-- What `fgets` delivers, call by call, with an array of 256 bytes: lines with their newlines, and
-- longer ones in pieces of 255 bytes.
unfoldable pub fgets_lines : ℕ → Bytes → Bytes → List Bytes
fgets_lines room line [] = elim line [ [] ↦ [] | c ∷ s ↦ (c ∷ s) ∷ [] ]
fgets_lines room line (c ∷ s) =
    let over = c == b'\n' || room == 1 in
    let rest =
      fgets_lines (if over then 255 else room - 1) (if over then [] else line ++ c ∷ []) s in
    if over then (line ++ c ∷ []) ∷ rest else rest

-- The return value, `*start` and `*end`; 0 is NULL.
pub record Found : Type 0 where
  pub rc : ℕ
  pub first : ℕ
  pub last : ℕ

abbrev pub not_found : Found
not_found = record { rc = 0; first = 0; last = 0 }

abbrev pub stored : Option ℕ → ℕ
stored none = 0
stored (some v) = v

-- The two addresses at the start of the line that maps the library.
abbrev pub range_of : Option ℕ → ℕ × Option ℕ → Found
range_of x (k, y) =
    if k == 0
    then record { rc = 0; first = stored x; last = 0 }
    else record { rc = 1; first = stored x; last = stored y }

unfoldable pub read_end : Bytes → ℕ × Option ℕ → Found
read_end line (n, x) =
    if n == 0
    then not_found
    else range_of x (hexstr2ull (drop (n + 1) line) (u64 (length line + 2 ^ 64 - (n + 1))))

unfoldable pub read_range : Bytes → Found
unfolding read_end
read_range line = read_end line (hexstr2ull line (length line))

-- A line with a path that is neither the stack's nor the heap's.
abbrev pub is_file : Bytes → Bool
is_file line = not (contains (codes "[stack]") line) && not (contains (codes "[heap]") line)

-- The test of a line, which ends the search: the last component of its path.
unfoldable pub is_kallsyms : Bytes → Bool
unfolding contains from_last_slash chomp
is_kallsyms line = elim (from_last_slash line) [
  | none ↦ false
  | some path ↦ is_file line && contains kallsyms (chomp path)
]

unfoldable pub search_lines : List Bytes → Found
unfolding is_kallsyms read_range chomp
search_lines [] = not_found
search_lines (line ∷ rest) = if is_kallsyms line then read_range (chomp line) else search_lines rest

-- `none` is a file that cannot be opened.
unfoldable pub find_libkallsyms : Option Bytes → Found
unfolding search_lines fgets_lines
find_libkallsyms none = not_found
find_libkallsyms (some maps) = search_lines (fgets_lines 255 [] maps)
