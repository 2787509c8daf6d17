-- ===== src/Findlib/Hex.antt =====
-- `hexstr2ull` of misc/findlibkallsyms.c reads the number that the digits write.
use symbi_os.Base.{
  ℕ, zero, suc, ◌+◌, ◌*◌, ◌^◌, ◌≤◌, ◌<◌, ◌≡◌, refl, ap, true, none, some, [], ◌∷◌, ◌++◌, Bytes,
  is_some, arith, Option-cases, inl, inr,
}
use symbi_os.Base.Lists.{length, get_or}
use native.Mathlib.Nat.{mod-add-div}
use symbi_os.Findlib.{u64, hex_digit, hex_run, hex_down, hexstr2ull, stored}

-- The number that the first `i` bytes write in base 16, the first digit first.
unfoldable pub hex_number : Bytes → ℕ → ℕ
hex_number s zero = 0
hex_number s (suc i) = 16 * hex_number s i + stored (hex_digit (get_or s i 0))

-- Every byte is a digit.
abbrev pub IsHex : Bytes → Type 0
IsHex [] = Unit
IsHex (c ∷ s) = (is_some (hex_digit c) ≡ true) × IsHex s

-- The first byte, if there is one, is no digit.
abbrev pub IsStop : Bytes → Type 0
IsStop [] = Unit
IsStop (c ∷ s) = hex_digit c ≡ none

hex_run-IsHex :
    (ds rest : Bytes) (len : ℕ)
    → IsHex ds
    → IsStop rest
    → length ds ≤ len
    → hex_run (ds ++ rest) len ≡ length ds
unfolding hex_run
hex_run-IsHex [] [] len h stop le = refl
hex_run-IsHex [] (c ∷ rest) zero h stop le = refl
hex_run-IsHex [] (c ∷ rest) (suc len) h stop le = rw stop refl
hex_run-IsHex (d ∷ ds) rest zero h stop le = absurd (omega arith)
hex_run-IsHex (d ∷ ds) rest (suc len) (hd, hs) stop le =
    ground (arith, hd, hex_run-IsHex ds rest len hs stop (omega arith))

get_or-IsHex :
    (ds rest : Bytes) (i : ℕ)
    → IsHex ds
    → i < length ds
    → is_some (hex_digit (get_or (ds ++ rest) i 0)) ≡ true
get_or-IsHex [] rest i h lt = absurd (omega arith)
get_or-IsHex (d ∷ ds) rest zero h lt = h.0
get_or-IsHex (d ∷ ds) rest (suc i) h lt = get_or-IsHex ds rest i h.1 (omega arith)

-- one digit more, modulo 2^64
add_digit : (v d p n : ℕ) → u64 (u64 (v + d * p) + u64 (p * 16) * n) ≡ u64 (v + p * (16 * n + d))
add_digit v d p n = omega (arith, ap (λ (t : ℕ). t * n) (mod-add-div (p * 16) (2 ^ 64)))

hex_down-hex_number :
    (s : Bytes) (i v p : ℕ)
    → ((j : ℕ) → j < i → is_some (hex_digit (get_or s j 0)) ≡ true)
    → v < 2 ^ 64
    → hex_down s i v p ≡ some (u64 (v + p * hex_number s i))
unfolding hex_down hex_number
hex_down-hex_number s zero v p h lt = ground arith
hex_down-hex_number s (suc i) v p h lt = elim (Option-cases (hex_digit (get_or s i 0))) [
  | inl e ↦ ground (arith, e, h i (omega arith))
  | inr (d, e) ↦ ground (
    arith,
    e,
    hex_down-hex_number s i (u64 (v + d * p)) (u64 (p * 16)) (λ j l. h j (omega arith))
        (omega arith),
    add_digit v d p (hex_number s i),
  )
]

get_or-append : (ds rest : Bytes) (i : ℕ) → i < length ds → get_or (ds ++ rest) i 0 ≡ get_or ds i 0
get_or-append [] rest i h = absurd (omega arith)
get_or-append (d ∷ ds) rest zero h = refl
get_or-append (d ∷ ds) rest (suc i) h = get_or-append ds rest i (omega arith)

hex_number-append :
    (ds rest : Bytes) (i : ℕ) → i ≤ length ds → hex_number (ds ++ rest) i ≡ hex_number ds i
unfolding hex_number
hex_number-append ds rest zero h = refl
hex_number-append ds rest (suc i) h =
    rw (hex_number-append ds rest i (omega arith), get_or-append ds rest i h) refl

-- The number that a string of digits writes.
abbrev pub hex_value : Bytes → ℕ
hex_value ds = hex_number ds (length ds)

-- Of digits with no digit behind them, `hexstr2ull` returns their number, and stores what they write,
-- modulo 2^64, wherever the length allows it to read them.
pub hexstr2ull-hex_value :
    (ds rest : Bytes) (len : ℕ)
    → IsHex ds
    → IsStop rest
    → length ds ≤ len
    → hexstr2ull (ds ++ rest) len ≡ (length ds, some (u64 (hex_value ds)))
unfolding hexstr2ull
hexstr2ull-hex_value ds rest len h stop le = ground (
  arith,
  hex_run-IsHex ds rest len h stop le,
  hex_number-append ds rest (length ds) (omega arith),
  hex_down-hex_number (ds ++ rest) (length ds) 0 1 (λ j l. get_or-IsHex ds rest j h l)
      (omega arith),
)
