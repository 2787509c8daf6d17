-- ===== src/Findlib/Lines.antt =====
-- What `fgets` delivers of a file of short lines, for misc/findlibkallsyms.c.
use symbi_os.Base.{ℕ, ◌-◌, ◌<◌, ◌≡◌, refl, List, [], ◌∷◌, ◌++◌, map, Bytes, arith}
use mathlib.Core.List.{append_assoc}
use symbi_os.Base.Lists.{length}
use symbi_os.Findlib.{fgets_lines}
use symbi_os.Findlib.Search.{IsFree}

abbrev pub with_newline : Bytes → Bytes
with_newline s = s ++ b'\n' ∷ []

-- A line that one `fgets` reads whole.
abbrev pub IsLine : Bytes → Type 0
IsLine s = IsFree b'\n' s × (length s < 255)

abbrev pub AreLines : List Bytes → Type 0
AreLines [] = Unit
AreLines (l ∷ ls) = IsLine l × AreLines ls

abbrev pub text : List Bytes → Bytes
text [] = []
text (l ∷ ls) = l ++ b'\n' ∷ text ls

fgets_lines-line :
    (room : ℕ) (done s rest : Bytes)
    → IsFree b'\n' s
    → length s < room
    → fgets_lines room done (s ++ b'\n' ∷ rest) ≡ (done ++ with_newline s) ∷ fgets_lines 255 [] rest
unfolding fgets_lines
fgets_lines-line room done [] rest free lt = refl
fgets_lines-line room done (c ∷ s) rest (hc, free) lt = ground (
  arith,
  hc,
  lt,
  append_assoc done (c ∷ []) (with_newline s),
  fgets_lines-line (room - 1) (done ++ c ∷ []) s rest free (omega arith),
)

pub fgets_lines-text :
    (ls : List Bytes) → AreLines ls → fgets_lines 255 [] (text ls) ≡ map with_newline ls
unfolding fgets_lines
fgets_lines-text [] h = refl
fgets_lines-text (l ∷ ls) ((free, short), h) =
    rw (fgets_lines-line 255 [] l (text ls) free short, fgets_lines-text ls h) refl
