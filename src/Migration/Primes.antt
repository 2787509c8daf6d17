-- ===== src/Migration/Primes.antt =====
-- The trial division of examples/cpu_migration/main.c finds the primes.
use symbi_os.Base.{
  ℕ, zero, suc, ◌+◌, ◌-◌, ◌*◌, ◌/◌, ◌%◌, ◌^◌, ◌≤◌, ◌<◌, ◌≡◌, ◌≢◌, ◌↔◌, refl, sym, Bool, true, false,
  some, arith,
}
use mathlib.Core.Path.{subst}
use native.Mathlib.Decide.{dec_lt, dec_le, ℕ_discrete}
use native.Mathlib.Nat.{mod-add-div, mul-le-mul, mul-le-mul_right, mul-mod_left}
use symbi_os.Migration.{u64, trial}

-- No number but 1 and itself divides it.
abbrev pub IsPrime : ℕ → Type 0
IsPrime n = (d : ℕ) → 2 ≤ d → d < n → n % d ≢ 0

-- A number below 2^32 does not wrap when it is squared.
square_fits : (i : ℕ) → i < 2 ^ 32 → u64 (i * i) ≡ i * i
square_fits i h = omega (
  arith,
  mul-le-mul {n₁ = i} {m₁ = i} {n₂ = 2 ^ 32 - 1} {m₂ = 2 ^ 32 - 1} (omega arith) (omega arith),
)

-- Where `d * q` is `n`: if `i` squared is above `n` and `d` is not below `i`, `q` is.
small_factor : (n i d q : ℕ) → d * q ≡ n → n < i * i → i ≤ d → q < i
small_factor n i d q e lt le = elim (dec_lt q i) [
  | yes h ↦ h
  | no h ↦ absurd (omega (arith, mul-le-mul {n₁ = i} {m₁ = i} {n₂ = d} {m₂ = q} le (omega arith)))
]

cofactor-ge : (n d q : ℕ) → d * q ≡ n → d < n → 2 ≤ q
cofactor-ge n d zero e lt = absurd (omega arith)
cofactor-ge n d (suc zero) e lt = absurd (omega arith)
cofactor-ge n d (suc (suc q)) e lt = omega arith

cofactor-lt : (n d q : ℕ) → d * q ≡ n → 2 ≤ d → 2 ≤ q → q < n
cofactor-lt n d q e two some_q = omega (arith, mul-le-mul_right {m = 2} {n = d} q two)

product : (n d : ℕ) → n % d ≡ 0 → d * (n / d) ≡ n
product n d e = omega (arith, mod-add-div n d)

-- With no divisor from 2 up to `i` and `i` squared above `n`, there is none at all.
no_divisor : (n i : ℕ) → n < i * i → ((d : ℕ) → 2 ≤ d → d < i → d < n → n % d ≢ 0) → IsPrime n
no_divisor n i lt h d two below e = elim (dec_lt d i) [
  | yes small ↦ h d two small below e
  | no large ↦
      let p = product n d e in
      let q = n / d in
      let ge = cofactor-ge n d q p below in
      h q ge (small_factor n i d q p lt (omega arith)) (cofactor-lt n d q p two ge)
        (subst (λ m. m % q ≡ 0) p (mul-mod_left d q))
]

trial_from :
    (fuel i n : ℕ)
    → n < 2 ^ 31
    → 2 ≤ i
    → i ≤ n + 1
    → fuel + i ≡ n + 2
    → ((d : ℕ) → 2 ≤ d → d < i → d < n → n % d ≢ 0)
    → (b : Bool) × (trial fuel i n ≡ some b) × ((b ≡ true) ↔ IsPrime n)
unfolding trial
trial_from zero i n small two le f h = absurd (omega arith)
trial_from (suc fuel) i n small two le f h = elim (dec_le (i * i) n) [
  | yes more ↦
      let above : i < i * i = omega (arith, mul-le-mul_right {m = 2} {n = i} i two) in
      elim (ℕ_discrete (n % i) 0) [
        | yes e ↦ (
          false,
          ground (arith, fits, more, e),
          (λ q. absurd (ground (arith, q)), λ p. absurd (p i two (omega arith) e)),
        )
        | no ne ↦
            let (b, r, q) =
              trial_from fuel (i + 1) n small (omega arith) (omega arith) (omega arith)
                (λ d two_d below lt. elim (ℕ_discrete d i) [
                  | yes e ↦ subst (λ x. n % x ≢ 0) (sym e) ne
                  | no other ↦ h d two_d (omega arith) lt
                ]) in
            (b, ground (arith, fits, more, ne, next, r), q)
      ]
  | no stop ↦ (true, ground (arith, fits, stop), (λ _. no_divisor n i (omega arith) h, λ _. refl))
]
  where
    fits : u64 (i * i) ≡ i * i
    fits = square_fits i (omega arith)

    next : u64 (i + 1) ≡ i + 1
    next = omega arith

-- For a number from 2 on and below 2^31 the inner loop of `busy_work` ends, and keeps it as a prime
-- exactly if no number but 1 and itself divides it.
pub trial-IsPrime :
    (n : ℕ) → 2 ≤ n → n < 2 ^ 31 → (b : Bool) × (trial n 2 n ≡ some b) × ((b ≡ true) ↔ IsPrime n)
trial-IsPrime n two small =
    trial_from n 2 n small (omega arith) (omega arith) (omega arith) (λ d a b. absurd (omega arith))
