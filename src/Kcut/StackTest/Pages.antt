-- ===== src/Kcut/StackTest/Pages.antt =====
-- The search for three absent pages in examples/kcuttest/mmap_stack_test.c.
use symbi_os.Base.{
  ℕ, zero, suc, ◌≤◌, ◌<◌, ◌≡◌, true, false, none, some, arith, Bool-cases, inl, inr,
}
use mathlib.Core.Path.{subst, sym}
use native.Mathlib.Decide.{ℕ_discrete}
use symbi_os.Kcut.StackTest.{are_absent, find_page}

-- The page that is found is the last of those from 1 on that begin three absent ones.
pub find_page-some :
    (vec : ℕ → ℕ) (n a : ℕ)
    → find_page vec n ≡ some a
    → (1 ≤ a)
      × (a ≤ n)
      × (are_absent vec a ≡ true)
      × ((i : ℕ) → a < i → i ≤ n → are_absent vec i ≡ false)
unfolding find_page
find_page-some vec zero a e = ground (arith, e)
find_page-some vec (suc n) a e = elim (Bool-cases (are_absent vec (suc n))) [
  | inl here ↦
      let q : suc n ≡ a = ground (arith, e, here) in
      (
        omega (arith, q),
        omega (arith, q),
        subst (λ i. are_absent vec i ≡ true) q here,
        λ i l g. absurd (omega (arith, q)),
      )
  | inr not_here ↦
      let (low, high, absent, last) = find_page-some vec n a (ground (arith, e, not_here)) in
      (
        low,
        omega (arith, high),
        absent,
        λ i l g. elim (ℕ_discrete i (suc n)) [
          | yes q ↦ subst (λ j. are_absent vec j ≡ false) (sym q) not_here
          | no ne ↦ last i l (omega arith)
        ],
      )
]

pub find_page-none :
    (vec : ℕ → ℕ) (n : ℕ)
    → find_page vec n ≡ none
    → (i : ℕ) → 1 ≤ i
    → i ≤ n
    → are_absent vec i ≡ false
unfolding find_page
find_page-none vec zero e i l g = absurd (omega arith)
find_page-none vec (suc n) e i l g = elim (ℕ_discrete i (suc n)) [
  | yes q ↦ subst (λ j. are_absent vec j ≡ false) (sym q) (ground (arith, e))
  | no ne ↦ find_page-none vec n (ground (arith, e)) i l (omega arith)
]
