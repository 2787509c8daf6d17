-- ===== src/Kcut/Program/Arguments.antt =====
-- The options of examples/kcuttest/main.c, by their places on the command line.
use symbi_os.Base.{ℕ, ◌%◌, ◌^◌, none, some, List, Bytes}
use symbi_os.Base.Lists.{get_elem?}

-- `bloop` and `yieldcnt` are 64 bits wide, the others 32.
pub record Options : Type 0 where
  pub ssec : ℕ
  pub bloop : ℕ
  pub yieldcnt : ℕ
  pub evac : ℕ
  pub num_forks : ℕ
  pub num_spawns : ℕ
  pub num_increments : ℕ
  pub stack_df : ℕ
  pub do_test_interrupt : ℕ

-- The argument at a place, read by `atoi` or `atol`, or the default where there is none.
abbrev pub arg : (Bytes → ℕ) → List Bytes → ℕ → ℕ → ℕ
arg read args i default = elim (get_elem? args i) [ none ↦ default | some s ↦ read s ]

abbrev pub as_int : (Bytes → ℕ) → Bytes → ℕ
as_int atoi s = atoi s % 2 ^ 32

abbrev pub as_long : (Bytes → ℕ) → Bytes → ℕ
as_long atol s = atol s % 2 ^ 64

-- `args` is `argv` from `argv[1]` on.
unfoldable pub read_options : (Bytes → ℕ) → (Bytes → ℕ) → List Bytes → Options
read_options atoi atol args = record {
  ssec = arg (as_int atoi) args 0 1;
  bloop = arg (as_long atol) args 1 1000000000;
  yieldcnt = arg (as_long atol) args 2 10;
  evac = arg (as_int atoi) args 3 1;
  num_forks = arg (as_int atoi) args 4 1000;
  num_spawns = arg (as_int atoi) args 5 1000;
  num_increments = arg (as_int atoi) args 6 1000;
  stack_df = arg (as_int atoi) args 7 1;
  do_test_interrupt = arg (as_int atoi) args 8 0;
}
