-- ===== src/Echo/Client/Options.antt =====
-- The options of the client: what `getopt` delivers, one letter with its argument after the other.
-- `atoi` and `atol` of the C library are parameters.
use mathlib.Core.Path.{subst}
use native.Mathlib.Nat.{div-mul-le_self, lt-div-mul-add}
use symbi_os.Base.{
  ltb→lt, lt→ltb, arith, ◌≡◌, ℕ, ◌+◌, ◌≤◌, ◌<◌, Bool, true, false, not, List, [], ◌∷◌, ◌==◌,
  if◌then◌else◌, Bytes, codes, refl, ◌*◌, ◌/◌,
}
use symbi_os.Echo.Client.{
  ℤ, pos, Config, is_positive, at_least_0, sample_cap, period_ns, second, max_samples,
}

-- The program goes on, or `main` returns a value.
pub data Choice : Type 0 where
  go_on : Config → Choice
  leave : ℕ → Choice

abbrev pub defaults : Config
defaults = record {
  host = codes "127.0.0.1";
  port = pos 8080;
  pkt_size = pos 64;
  rate = pos 100;
  duration = pos 10;
  max_txns = pos 0;
  warmup_secs = pos 1;
  verbose = false;
}

abbrev pub and_then : Choice → (Config → Choice) → Choice
and_then (go_on c) f = f c
and_then (leave n) f = leave n

-- The two checks after the options.
unfoldable pub check_config : Config → Choice
check_config c =
    if not (is_positive c.pkt_size)
    then leave 1
    else if not (is_positive c.rate)
    then leave 1
    else go_on c

-- What the rest of the program relies on.
pub record IsUsable (c : Config) : Type 0 where
  pub size : 0 < at_least_0 c.pkt_size
  pub rate : 0 < at_least_0 c.rate
  pub room : (1024 ≤ sample_cap c) × (sample_cap c ≤ max_samples)
  pub period :
      (period_ns c * at_least_0 c.rate ≤ second) × (second < (period_ns c + 1) * at_least_0 c.rate)

sample_cap_bounds : (c : Config) → (1024 ≤ sample_cap c) × (sample_cap c ≤ max_samples)
unfolding sample_cap
sample_cap_bounds c = ground arith

above : (q r n : ℕ) → n < q * r + r → n < (q + 1) * r
above q r n h = grind arith

period_ns_bounds :
    (c : Config)
    → 0 < at_least_0 c.rate
    → (period_ns c * at_least_0 c.rate ≤ second) × (second < (period_ns c + 1) * at_least_0 c.rate)
unfolding period_ns
period_ns_bounds c h = rw (lt→ltb 0 (at_least_0 c.rate) h) (
  div-mul-le_self second (at_least_0 c.rate),
  above (second / at_least_0 c.rate) (at_least_0 c.rate) second (lt-div-mul-add h),
)

positive-IsUsable : (c : Config) → 0 < at_least_0 c.pkt_size → 0 < at_least_0 c.rate → IsUsable c
positive-IsUsable c s r = record {
  size = s;
  rate = r;
  room = sample_cap_bounds c;
  period = period_ns_bounds c r;
}

check_config-IsUsable : (c d : Config) → check_config c ≡ go_on d → IsUsable d
unfolding check_config
check_config-IsUsable c d h = checked _ _ refl refl h
  where
    checked :
        (x y : Bool)
        → is_positive c.pkt_size ≡ x
        → is_positive c.rate ≡ y
        → (if not x then leave 1 else if not y then leave 1 else go_on c) ≡ go_on d
        → IsUsable d
    checked true true size rate e =
        subst IsUsable (cc) (positive-IsUsable c (ltb→lt _ _ size) (ltb→lt _ _ rate))
    checked true false size rate e = cc
    checked false y size rate e = cc

module _ (atoi atol : Bytes → ℤ) where
  -- The cases of `switch (opt)`.
  unfoldable pub apply_option : ℕ → Bytes → Config → Choice
  apply_option opt optarg c =
      if opt == b'H'
      then go_on (record c { host = optarg })
      else if opt == b'p'
      then go_on (record c { port = atoi optarg })
      else if opt == b's'
      then go_on (record c { pkt_size = atoi optarg })
      else if opt == b'r'
      then go_on (record c { rate = atoi optarg })
      else if opt == b'd'
      then go_on (record c { duration = atoi optarg })
      else if opt == b'n'
      then go_on (record c { max_txns = atol optarg })
      else if opt == b'w'
      then go_on (record c { warmup_secs = atoi optarg })
      else if opt == b'v'
      then go_on (record c { verbose = true })
      else if opt == b'h'
      then leave 0
      else leave 1

  unfoldable pub parse_options : List (ℕ × Bytes) → Config → Choice
  parse_options [] c = check_config c
  parse_options ((opt, optarg) ∷ os) c = and_then (apply_option opt optarg c) (parse_options os)

  and_then-IsUsable :
      (x : Choice) (os : List (ℕ × Bytes)) (d : Config)
      → ((c : Config) → parse_options os c ≡ go_on d → IsUsable d)
      → and_then x (parse_options os) ≡ go_on d
      → IsUsable d
  and_then-IsUsable (go_on c) os d ih h = ih c h
  and_then-IsUsable (leave n) os d ih h = cc

  -- If the options are accepted, whatever `atoi` and `atol` return, the size and the rate are positive,
  -- the array has room for 1024 to 4000000 samples, and the period is the greatest whole number of
  -- nanoseconds that fits into a second as often as the rate says.
  pub parse_options-IsUsable :
      (os : List (ℕ × Bytes)) (c d : Config) → parse_options os c ≡ go_on d → IsUsable d
  unfolding parse_options
  parse_options-IsUsable [] c d h = check_config-IsUsable c d h
  parse_options-IsUsable ((o, a) ∷ os) c d h =
      and_then-IsUsable (apply_option o a c) os d (λ c' e. parse_options-IsUsable os c' d e) h
