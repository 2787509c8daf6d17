-- ===== src/Findlib/Search.antt =====
-- Substrings, the last slash and the newline of a line, for misc/findlibkallsyms.c.
use symbi_os.Base.{
  ℕ, ◌≡◌, refl, true, false, none, some, [], ◌∷◌, ◌++◌, Bytes, arith, Option-cases, inl, inr, ◌==◌,
}
use symbi_os.Findlib.{starts_with, contains, from_last_slash, chomp}

-- A string that does not have a byte.
abbrev pub IsFree : ℕ → Bytes → Type 0
IsFree b [] = Unit
IsFree b (c ∷ s) = ((c == b) ≡ false) × IsFree b s

starts_with_append : (n s : Bytes) → starts_with n (n ++ s) ≡ true
unfolding starts_with
starts_with_append [] s = refl
starts_with_append (c ∷ n) s = ground (arith, starts_with_append n s)

pub contains_middle : (p n q : Bytes) → contains n (p ++ (n ++ q)) ≡ true
unfolding contains starts_with
contains_middle [] [] [] = refl
contains_middle [] [] (c ∷ q) = refl
contains_middle [] (d ∷ n) q = rw (starts_with_append (d ∷ n) q) refl
contains_middle (c ∷ p) n q = rw (contains_middle p n q) (ground arith)

-- A needle that begins with a byte which the string does not have.
pub contains_free : (b : ℕ) (n s : Bytes) → IsFree b s → contains (b ∷ n) s ≡ false
unfolding contains starts_with
contains_free b n [] h = refl
contains_free b n (c ∷ s) (hc, hs) = ground (arith, hc, contains_free b n s hs)

-- The string from its last slash on.
pub from_last_slash_middle :
    (p s : Bytes) → IsFree b'/' s → from_last_slash (p ++ b'/' ∷ s) ≡ some (b'/' ∷ s)
unfolding from_last_slash
from_last_slash_middle [] s h = ground (arith, from_last_slash_free s h)
  where
    from_last_slash_free : (s : Bytes) → IsFree b'/' s → from_last_slash s ≡ none
    from_last_slash_free [] h = refl
    from_last_slash_free (c ∷ s) (hc, hs) = ground (arith, hc, from_last_slash_free s hs)
from_last_slash_middle (c ∷ p) s h = rw (from_last_slash_middle p s h) refl

pub chomp_line : (s : Bytes) → chomp (s ++ b'\n' ∷ []) ≡ s
unfolding chomp
chomp_line [] = refl
chomp_line (c ∷ []) = refl
chomp_line (c ∷ d ∷ s) = rw (chomp_line (d ∷ s)) refl

-- Where a line does not contain a string, the last component of its path does not either.
starts_with-chomp : (n s : Bytes) → starts_with n (chomp s) ≡ true → starts_with n s ≡ true
unfolding starts_with chomp
starts_with-chomp [] s h = refl
starts_with-chomp (a ∷ n) [] h = h
starts_with-chomp (a ∷ n) (c ∷ []) h = ground (arith, h)
starts_with-chomp (a ∷ n) (c ∷ d ∷ s) h = ground (arith, h, starts_with-chomp n (d ∷ s))

contains-chomp : (n s : Bytes) → contains n (chomp s) ≡ true → contains n s ≡ true
unfolding contains chomp
contains-chomp n [] h = h
contains-chomp n (c ∷ []) h = ground (arith, h, starts_with-chomp n (c ∷ []))
contains-chomp n (c ∷ d ∷ s) h =
    ground (arith, h, starts_with-chomp n (c ∷ d ∷ s), contains-chomp n (d ∷ s))

contains-from_last_slash :
    (n s t : Bytes) → from_last_slash s ≡ some t → contains n t ≡ true → contains n s ≡ true
unfolding contains from_last_slash
contains-from_last_slash n [] t e h = ground (arith, e)
contains-from_last_slash n (c ∷ s) t e h = elim (Option-cases (from_last_slash s)) [
  | inl q ↦ ground (arith, q, e, h)
  | inr (u, q) ↦ ground (arith, q, e, h, contains-from_last_slash n s u q)
]

pub contains_path :
    (n s t : Bytes)
    → from_last_slash s ≡ some t
    → contains n s ≡ false
    → contains n (chomp t) ≡ false
contains_path n s t e h = ground (arith, h, contains-from_last_slash n s t e, contains-chomp n t)
