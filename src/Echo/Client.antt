-- ===== src/Echo/Client.antt =====
-- examples/kcuttcp/eclnt.c: the calls on the socket, the pacing and the loops of `main`. Times are
-- nanoseconds of the monotonic clock, which the code turns into seconds.
pub mod Options
pub mod Exchange
pub mod Loops
pub mod Pace
pub mod Connect
pub mod Measure
mod Tests
use symbi_os.Base.{
  ℕ, zero, suc, ◌+◌, ◌-◌, ◌*◌, ◌/◌, ◌%◌, Bool, true, false, not, ◌&&◌, List, [], ◌∷◌, ◌++◌, ltb,
  leb, Option, none, some, if◌then◌else◌, Bytes,
}
use symbi_os.Base.Lists.{length, drop}
use symbi_os.Echo.{
  Kernel, Reply, ok, error, socket, set_option, connect, close, Trace, M, pure, stop, ◌>>=◌, ◌>>◌,
  sys_open, sys_control, sys_read, sys_write, sys_sleep, sys_clock,
}

abbrev pub second : ℕ
second = 1000000000

-- `struct timespec`
pub record Timespec : Type 0 where
  pub tv_sec : ℕ
  pub tv_nsec : ℕ

unfoldable pub ts_add_ns : Timespec → ℕ → Timespec
ts_add_ns ts ns =
    let n = ts.tv_nsec + ns in
    if leb second n
    then record { tv_sec = ts.tv_sec + 1; tv_nsec = n - second }
    else record { tv_sec = ts.tv_sec; tv_nsec = n }

-- A time as a number.
abbrev pub in_ns : Timespec → ℕ
in_ns ts = ts.tv_sec * second + ts.tv_nsec

abbrev pub timespec_of : ℕ → Timespec
timespec_of t = record { tv_sec = t / second; tv_nsec = t % second }

-- `int` and `long`: `negsuc n` is -(n + 1).
pub data ℤ : Type 0 where
  pos : ℕ → ℤ
  negsuc : ℕ → ℤ

-- A number, or 0 for one below 0.
abbrev pub at_least_0 : ℤ → ℕ
at_least_0 (pos n) = n
at_least_0 (negsuc n) = 0

abbrev pub is_positive : ℤ → Bool
is_positive i = ltb 0 (at_least_0 i)

pub record Config : Type 0 where
  pub host : Bytes
  pub port : ℤ
  pub pkt_size : ℤ
  pub rate : ℤ
  pub duration : ℤ
  pub max_txns : ℤ
  pub warmup_secs : ℤ
  pub verbose : Bool

-- `MAX_SAMPLES`
abbrev pub max_samples : ℕ
max_samples = 4000000

-- `duration + 4`, or 0 where it is negative.
abbrev pub extended : ℤ → ℕ
extended (pos d) = d + 4
extended (negsuc d) = 4 - suc d

-- The number of samples that there is room for. A negative product is raised like 0.
unfoldable pub sample_cap : Config → ℕ
sample_cap c =
    let wanted =
      if is_positive c.max_txns
      then at_least_0 c.max_txns
      else at_least_0 c.rate * extended c.duration in
    let raised = if ltb wanted 1024 then 1024 else wanted in
    if ltb max_samples raised then max_samples else raised

-- `(long)(1e9 / (double)rate)`
unfoldable pub period_ns : Config → ℕ
period_ns c = let r = at_least_0 c.rate in if ltb 0 r then second / r else 0

-- What follows a `write` of the loop in `write_all`.
abbrev pub after_part : (ℕ → M Bool) → Reply ℕ → M Bool
after_part next (error e) = pure false
after_part next (ok zero) = pure false
after_part next (ok (suc w)) = next (suc w)

-- What follows a `read` of the loop in `read_all`.
abbrev pub after_bytes : (Bytes → M (Option Bytes)) → Reply Bytes → M (Option Bytes)
after_bytes next (error e) = pure none
after_bytes next (ok []) = pure none
after_bytes next (ok (b ∷ bs)) = next (b ∷ bs)

module _ (k : Kernel) where
  abbrev pub after_connect : ℕ → Bool → M (Option ℕ)
  after_connect fd true = pure (some fd)
  after_connect fd false = sys_control k close fd >> pure none

  -- What follows `socket`: `valid` is whether `inet_pton` takes the host for an address.
  unfoldable pub after_socket : Bool → Reply ℕ → M (Option ℕ)
  after_socket valid (error e) = pure none
  after_socket valid (ok fd) = do
    sys_control k set_option fd
    if valid
        then (sys_control k connect fd >>= after_connect fd)
        else (sys_control k close fd >> pure none)

  unfoldable pub tcp_connect : Bool → M (Option ℕ)
  unfolding after_socket
  tcp_connect valid = sys_open k socket >>= after_socket valid

  -- Whether all the bytes were written. A `write` takes no more bytes than it is given.
  unfoldable pub write_all : ℕ → ℕ → Bytes → M Bool
  write_all zero fd buf = stop
  write_all (suc f) fd [] = pure true
  write_all (suc f) fd (b ∷ bs) =
      let next = λ (w : ℕ). write_all f fd (drop w (b ∷ bs)) in
      sys_write k fd (b ∷ bs) >>= after_part next

  -- The `n` bytes that were read after those of `got`.
  unfoldable pub read_all : ℕ → ℕ → ℕ → Bytes → M (Option Bytes)
  read_all zero fd n got = stop
  read_all (suc f) fd zero got = pure (some got)
  read_all (suc f) fd (suc n) got =
      let next = λ (bs : Bytes). read_all f fd (suc n - length bs) (got ++ bs) in
      sys_read k fd (suc n) >>= after_bytes next

  abbrev pub then_read : ℕ → ℕ → ℕ → Bool → M (Option Bytes)
  then_read f fd n true = read_all f fd n []
  then_read f fd n false = pure none

  -- `write_all` and then `read_all` of as many bytes.
  unfoldable pub transact : ℕ → ℕ → Bytes → M (Option Bytes)
  transact f fd buf = write_all f fd buf >>= then_read f fd (length buf)
