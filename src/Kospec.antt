-- ===== src/Kospec.antt =====
-- Specifications of kernel objects on kld's command line (examples/tools/src/kld/main.c:
-- `modnmfromfnm`, `parsekospec`), with the parts of `basename` that they use.
pub mod ModuleName
pub mod Split
mod Tests
use symbi_os.Base.{
  ◌||◌, ℕ, zero, suc, ◌+◌, Bool, true, false, not, ◌&&◌, Option, none, some, List, [], ◌∷◌, ◌++◌,
  ◌==◌, if◌then◌else◌, Bytes, codes,
}
use mathlib.Core.List.{reverse}

-- The leading bytes that are no slash, and the leading slashes dropped.
unfoldable pub until_slash : Bytes → Bytes
until_slash [] = []
until_slash (c ∷ cs) = if c == b'/' then [] else c ∷ until_slash cs

unfoldable pub skip_slashes : Bytes → Bytes
skip_slashes [] = []
skip_slashes (c ∷ cs) = if c == b'/' then skip_slashes cs else c ∷ cs

abbrev pub is_nil : Bytes → Bool
is_nil [] = true
is_nil (_ ∷ _) = false

-- `basename` of libgen.h: the last component, without slashes behind it.
unfoldable pub basename_of : Bytes → Bytes → Bytes
basename_of path [] = if is_nil path then codes "." else codes "/"
basename_of path (c ∷ cs) = reverse (until_slash (c ∷ cs))

abbrev pub basename : Bytes → Bytes
basename path = basename_of path (skip_slashes (reverse path))

-- `i > 3` and the last three bytes are ".ko", on the name read backwards
unfoldable pub drop_ko : Bytes → Bytes
drop_ko (a ∷ b ∷ c ∷ d ∷ rest) =
    if c == b'.' && b == b'k' && a == b'o' then d ∷ rest else a ∷ b ∷ c ∷ d ∷ rest
drop_ko name = name

unfoldable pub modnmfromfnm : Bytes → Bytes
unfolding drop_ko basename_of until_slash skip_slashes
modnmfromfnm fnm = reverse (drop_ko (reverse (basename fnm)))

-- The loop of `parsekospec`: the number of commas met, and the strings that begin at `f`, `n` and
-- `o`, as far as they were read.
pub record SpecScan : Type 0 where
  pub commas : ℕ
  pub f : Bytes
  pub n : Bytes
  pub o : Bytes

abbrev pub scan_start : SpecScan
scan_start = record { commas = 0; f = []; n = []; o = [] }

abbrev pub put_byte : ℕ → SpecScan → SpecScan
put_byte c s =
    if s.commas == 0
    then record s { f = s.f ++ c ∷ [] }
    else if s.commas == 1
    then record s { n = s.n ++ c ∷ [] }
    else record s { o = s.o ++ c ∷ [] }

-- One round; `none` is the third comma.
unfoldable pub scan_byte : ℕ → SpecScan → Option SpecScan
scan_byte c s =
    if not (c == b',')
    then some (put_byte c s)
    else if s.commas == 0 || s.commas == 1
    then some (record s { commas = s.commas + 1 })
    else none

abbrev pub scan_rest : Option SpecScan → (SpecScan → Option SpecScan) → Option SpecScan
scan_rest none k = none
scan_rest (some s) k = k s

unfoldable pub scan_spec : Bytes → SpecScan → Option SpecScan
unfolding scan_byte
scan_spec [] s = some s
scan_spec (c ∷ cs) s = scan_rest (scan_byte c s) (λ t. scan_spec cs t)

abbrev pub kldopts_dflt : Bytes
kldopts_dflt = codes "EXCLUSIVE"

-- What `parsekospec` stores through its three pointers.
pub record KoSpec : Type 0 where
  pub fnm : Bytes
  pub modnm : Bytes
  pub kldopts : Bytes

abbrev pub modnm_or : Bytes → Bytes → Bytes
modnm_or n f = if is_nil n then modnmfromfnm f else n

abbrev pub kldopts_or : Bytes → Bytes
kldopts_or o = if is_nil o then kldopts_dflt else o

-- `switch (commas)`
unfoldable pub spec_of : SpecScan → KoSpec
spec_of s =
    if s.commas == 0
    then record { fnm = s.f; modnm = modnmfromfnm s.f; kldopts = kldopts_dflt }
    else if s.commas == 1
    then record { fnm = s.f; modnm = modnm_or s.n s.f; kldopts = kldopts_dflt }
    else record { fnm = s.f; modnm = modnm_or s.n s.f; kldopts = kldopts_or s.o }

abbrev pub finish_spec : Option SpecScan → Option KoSpec
finish_spec none = none
finish_spec (some s) = some (spec_of s)

-- `none` is the result -1.
unfoldable pub parsekospec : Bytes → Option KoSpec
unfolding scan_spec spec_of
parsekospec kospec = finish_spec (scan_spec kospec scan_start)
