-- ===== src/Kcut/NewProgram/Accepted.antt =====
-- Which options the program of examples/kcuttest/newmain.c accepts, and what they set.
use symbi_os.Base.{
  ℕ, ◌≡◌, refl, Bool, true, ◌&&◌, ◌||◌, some, List, [], ◌∷◌, ◌==◌, Bytes, arith, Option-cases, inl,
  inr,
}
use symbi_os.Kcut.NewProgram.{
  ClArgs, zeroed, process_option, process_options, process_operands, process_args,
}
use symbi_os.Kcut.Program.Arguments.{arg, as_int}

-- The options that the switch has a case for.
abbrev pub IsAccepted : (Bytes → Bool) → ℕ × Bytes → Type 0
IsAccepted is_double (opt, optarg) =
    ((opt == b'I') || ((opt == b'S') || ((opt == b'b') || ((opt == b'U') && is_double optarg))))
    ≡ true

abbrev pub AreAccepted : (Bytes → Bool) → List (ℕ × Bytes) → Type 0
AreAccepted is_double [] = Unit
AreAccepted is_double (o ∷ os) = IsAccepted is_double o × AreAccepted is_double os

accepted-some :
    (is_double : Bytes → Bool) (opts : List (ℕ × Bytes)) (a : ClArgs)
    → AreAccepted is_double opts
    → (b : ClArgs) × (process_options is_double opts a ≡ some b) × (b.num_spawns ≡ a.num_spawns)
unfolding process_options process_option
accepted-some is_double [] a h = (a, refl, refl)
accepted-some is_double ((opt, optarg) ∷ os) a (h, hs) =
    elim (Option-cases (process_option is_double (opt, optarg) a)) [
      | inl e ↦ absurd (ground (arith, e, h))
      | inr (b, e) ↦
          let (c, f, g) = accepted-some is_double os b hs in
          (c, ground (arith, e, f), ground (arith, e, g))
    ]

some-accepted :
    (is_double : Bytes → Bool) (opts : List (ℕ × Bytes)) (a b : ClArgs)
    → process_options is_double opts a ≡ some b
    → AreAccepted is_double opts
unfolding process_options process_option
some-accepted is_double [] a b h = tt
some-accepted is_double ((opt, optarg) ∷ os) a b h =
    elim (Option-cases (process_option is_double (opt, optarg) a)) [
      | inl e ↦ absurd (ground (arith, e, h))
      | inr (c, e) ↦ (ground (arith, e), some-accepted is_double os c b (ground (arith, e, h)))
    ]

-- `processArgs` returns exactly if each option is 'I', 'S' or 'b', or is 'U' with a number: the other
-- letters that it hands to `getopt` end the program. If it returns, the number of threads is the sixth
-- operand, or 0 without one, whichever options there are.
pub process_args-AreAccepted :
    (is_double : Bytes → Bool) (atoi atol : Bytes → ℕ) (opts : List (ℕ × Bytes)) (args : List Bytes)
    → (AreAccepted is_double opts
        → (b : ClArgs) × (process_args is_double atoi atol opts args ≡ some b)
          × (b.num_spawns ≡ arg (as_int atoi) args 5 0))
      × ((b : ClArgs)
          → process_args is_double atoi atol opts args ≡ some b
          → AreAccepted is_double opts)
unfolding process_args process_operands
process_args-AreAccepted is_double atoi atol opts args = (
  λ h.
      let (c, e, n) = accepted-some is_double opts zeroed h in
      (process_operands atoi atol args c, ground (arith, e), ground (arith, n)),
  λ b h. elim (Option-cases (process_options is_double opts zeroed)) [
    | inl e ↦ absurd (ground (arith, e, h))
    | inr (c, e) ↦ some-accepted is_double opts zeroed c e
  ],
)
