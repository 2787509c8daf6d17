-- ===== src/Kcut/Threads/Totals.antt =====
-- Sums over the threads below a number, for the invariant of the thread test.
use symbi_os.Base.{
  ◌*◌, Option-cases, ℕ, zero, suc, ◌+◌, ◌≤◌, ◌<◌, ◌≡◌, ◌≢◌, refl, update, ==_iff, arith,
}
use symbi_os.Base.{◌⊎◌, inl, inr, Option, none, some}
use native.Mathlib.Numerals.{unary_clauses}
use mathlib.Core.Path.{subst}
use native.Mathlib.Decide.{dec_lt, ℕ_discrete}

module _ {ℓ} {A : Type ℓ} (w : A → ℕ) where
  unfoldable pub total : ℕ → (ℕ → A) → ℕ
  total zero f = 0
  total (suc k) f = total k f + w (f k)

  total-update_above :
      (k : ℕ) (f : ℕ → A) (i : ℕ) (a : A) → k ≤ i → total k (update f i a) ≡ total k f
  unfolding total
  total-update_above zero f i a h = refl
  total-update_above (suc k) f i a h = ground (arith, total-update_above k f i a, ==_iff i k)

  pub total-update :
      (k : ℕ) (f : ℕ → A) (i : ℕ) (a : A)
      → i < k
      → total k (update f i a) + w (f i) ≡ total k f + w a
  unfolding total
  total-update zero f i a h = absurd (omega arith)
  total-update (suc k) f i a h = elim (dec_lt i k) [
    | yes below ↦ ground (arith, total-update k f i a below, ==_iff i k)
    | no last ↦
        let e : i ≡ k = omega arith in rw e (ground (arith, total-update_above k f k a, ==_iff k k))
  ]

  pub total-update_new :
      (k : ℕ) (f : ℕ → A) (a : A) → total (suc k) (update f k a) ≡ total k f + w a
  unfolding total
  total-update_new k f a = ground (arith, total-update_above k f k a, ==_iff k k)

  pub total-const : (c k : ℕ) (f : ℕ → A) → ((i : ℕ) → i < k → w (f i) ≡ c) → total k f ≡ c * k
  unfolding total
  total-const c zero f h = omega arith
  total-const c (suc k) f h =
      simp unary_clauses
        (omega (arith, total-const c k f (λ i l. h i (omega arith)), h k (omega arith)))

  module _ (small : (a : A) → w a ≤ 1) where
    pub total-le : (k : ℕ) (f : ℕ → A) → total k f ≤ k
    unfolding total
    total-le zero f = omega arith
    total-le (suc k) f = omega (arith, small (f k), total-le k f)

    pub le-total : (k : ℕ) (f : ℕ → A) (i : ℕ) → i < k → w (f i) ≤ total k f
    unfolding total
    le-total zero f i h = absurd (omega arith)
    le-total (suc k) f i h = elim (ℕ_discrete i k) [
      | yes e ↦ rw e (omega arith)
      | no ne ↦ omega (arith, le-total k f i (omega arith))
    ]

    pub total-lt : (k : ℕ) (f : ℕ → A) (i : ℕ) → i < k → w (f i) ≡ 0 → total k f < k
    unfolding total
    total-lt zero f i h z = absurd (omega arith)
    total-lt (suc k) f i h z = elim (ℕ_discrete i k) [
      | yes e ↦ omega (arith, total-le k f, subst (λ j. w (f j) ≡ 0) e z)
      | no ne ↦ omega (arith, small (f k), total-lt k f i (omega arith) z)
    ]

    -- two that both count
    pub total-two :
        (k : ℕ) (f : ℕ → A) (i j : ℕ) → i < j → j < k → w (f i) ≡ 1 → w (f j) ≡ 1 → 2 ≤ total k f
    unfolding total
    total-two zero f i j lt h p q = absurd (omega arith)
    total-two (suc k) f i j lt h p q = elim (ℕ_discrete j k) [
      | yes e ↦ omega (arith, le-total k f i (omega arith), subst (λ x. w (f x) ≡ 1) e q)
      | no ne ↦ omega (arith, total-two k f i j lt (omega arith) p q)
    ]

    -- all but one count, and that one does not
    pub total-others :
        (k : ℕ) (f : ℕ → A) (i j : ℕ)
        → i < k
        → w (f i) ≡ 0
        → total k f + 1 ≡ k
        → j < k
        → i ≢ j
        → w (f j) ≡ 1
    unfolding total
    total-others zero f i j lt z e h ne = absurd (omega arith)
    total-others (suc k) f i j lt z e h ne = elim (ℕ_discrete j k) [
      | yes jk ↦ rw jk (omega (arith, small (f k), total-lt k f i (omega arith) z))
      | no nj ↦ elim (ℕ_discrete i k) [
        | yes ik ↦ all_count k j (omega arith) (omega (arith, subst (λ x. w (f x) ≡ 0) ik z))
        | no ni ↦
            total-others k f i j (omega arith) z
              (omega (arith, small (f k), total-lt k f i (omega arith) z)) (omega arith) ne
      ]
    ]
      where
        all_count : (k j : ℕ) → j < k → total k f ≡ k → w (f j) ≡ 1
        all_count zero j h e = absurd (omega arith)
        all_count (suc k) j h e = elim (ℕ_discrete j k) [
          | yes jk ↦ rw jk (omega (arith, small (f k), total-le k f))
          | no nj ↦ all_count k j (omega arith) (omega (arith, small (f k), total-le k f))
        ]

-- Either some index below the bound has a value, or none has.
pub some_below {ℓ} :
    {A : Type ℓ} (f : ℕ → Option A) (k : ℕ)
    → ((i : ℕ) × (a : A) × (i < k) × (f i ≡ some a)) ⊎ ((i : ℕ) → i < k → f i ≡ none)
some_below f zero = inr (λ i h. absurd (omega arith))
some_below f (suc k) = elim (some_below f k) [
  | inl (i, a, h, e) ↦ inl (i, a, omega arith, e)
  | inr all ↦ elim (Option-cases (f k)) [
    | inl e ↦ inr λ i h. elim (ℕ_discrete i k) [ yes ik ↦ rw ik e | no ne ↦ all i (omega arith) ]
    | inr (a, e) ↦ inl (k, a, omega arith, e)
  ]
]
