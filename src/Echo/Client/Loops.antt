-- ===== src/Echo/Client/Loops.antt =====
-- The warm-up, the measurement and `main` of examples/kcuttcp/eclnt.c. Whether a signal has set
-- `g_stop` is a function of the calls made so far; the statistics at the end are left out.
use symbi_os.Base.{
  ℕ, zero, suc, ◌+◌, ◌-◌, ◌*◌, Bool, true, false, not, ◌&&◌, ◌||◌, List, [], ◌∷◌, ◌++◌, ltb, leb,
  Option, none, some, if◌then◌else◌, Bytes,
}
use symbi_os.Base.Lists.{length}
use symbi_os.Echo.{
  Kernel, Trace, M, pure, stop, ◌>>=◌, ◌>>◌, close, sys_control, sys_sleep, sys_clock,
}
use symbi_os.Echo.Client.{
  Timespec, ts_add_ns, in_ns, timespec_of, ℤ, pos, negsuc, Config, second, at_least_0, is_positive,
  sample_cap, period_ns, transact, tcp_connect,
}
use symbi_os.Echo.Client.Options.{Choice, go_on, leave, parse_options, defaults}

-- The time some seconds after another, at 0 where that is before the clock started.
abbrev pub plus_seconds : ℕ → ℤ → ℕ
plus_seconds t (pos s) = t + s * second
plus_seconds t (negsuc s) = t - suc s * second

-- `lat`, of which `n` entries are filled, and the variables of the loop.
pub record Progress : Type 0 where
  pub samples : List ℕ
  pub nxt : Timespec
  pub prog_at : ℕ

-- `memset(buf, 0x42, n)`
abbrev pub pattern_of : ℕ → Bytes
pattern_of zero = []
pattern_of (suc n) = 0x42 ∷ pattern_of n

module _ (k : Kernel) (g_stop : Trace → Bool) where
  abbrev pub stopped : M Bool
  stopped t = pure (g_stop t) t

  module _ (c : Config) (fd : ℕ) (sndbuf : Bytes) where
    abbrev pub after_warm : M Bool → Option Bytes → M Bool
    after_warm next none = pure false
    after_warm next (some _) = next

    -- The warm-up until a time: whether every transaction succeeded.
    unfoldable pub warm_up : ℕ → ℕ → Timespec → M Bool
    warm_up zero wend nxt = stop
    warm_up (suc f) wend nxt =
        let next = warm_up f wend (ts_add_ns nxt (period_ns c)) in
        let round =
          (sys_sleep k (in_ns nxt)
            >> (transact k (suc (length sndbuf)) fd sndbuf >>= after_warm next)) in
        sys_clock k >>= λ now. stopped >>= λ s. if ltb now wend && not s then round else pure true

    -- The first stopping condition.
    unfoldable pub reached : ℕ → ℕ → M Bool
    reached t_end n =
        if is_positive c.max_txns
        then pure (leb (at_least_0 c.max_txns) n)
        else (sys_clock k >>= λ now. pure (leb t_end now))

    unfoldable pub pace : Timespec → M Timespec
    pace nxt =
        if ltb 0 (period_ns c)
        then (sys_sleep k (in_ns nxt) >> pure (ts_add_ns nxt (period_ns c)))
        else pure nxt

    -- The progress report, once a second.
    unfoldable pub report : ℕ → M ℕ
    report prog_at =
        if c.verbose
        then pure prog_at
        else (sys_clock k >>= λ now. pure (if leb prog_at now then prog_at + second else prog_at))

    -- What follows a transaction that began at `t0`.
    abbrev pub after_txn : (Progress → M Progress) → Progress → ℕ → Option Bytes → M Progress
    after_txn next s t0 none = pure s
    after_txn next s t0 (some _) = do
      t1 ← sys_clock k
      prog_at ← report s.prog_at
      next (record s { samples = s.samples ++ (t1 - t0) ∷ []; prog_at = prog_at })

    unfoldable pub single : (Progress → M Progress) → Progress → M Progress
    single next s = do
      nxt ← pace s.nxt
      t0 ← sys_clock k
      reply ← transact k (suc (length sndbuf)) fd sndbuf
      after_txn next (record s { nxt = nxt }) t0 reply

    -- The measurement loop.
    unfoldable pub measure : ℕ → ℕ → Progress → M Progress
    measure zero t_end s = stop
    measure (suc f) t_end s =
        let next = measure f t_end in
        stopped >>= λ halt.
        if halt
        then pure s
        else (reached t_end (length s.samples) >>= λ over.
            if over || leb (sample_cap c) (length s.samples) then pure s else single next s)

    abbrev pub measure_if : ℕ → ℕ → Progress → Bool → M (Option Progress)
    measure_if f t_end s true = measure f t_end s >>= λ r. pure (some r)
    measure_if f t_end s false = pure none

    -- The warm-up, if there is one.
    unfoldable pub warm : ℕ → M Bool
    warm f =
        if is_positive c.warmup_secs
        then (sys_clock k >>= λ now.
            sys_clock k >>= λ start. warm_up f (plus_seconds now c.warmup_secs) (timespec_of start))
        else pure true

    -- From the buffers to the end of `main`, which returns 0. The value is the samples, if the
    -- measurement began.
    unfoldable pub session : ℕ → M (Option Progress)
    session f = do
      fine ← warm f
      t_start ← sys_clock k
      start ← sys_clock k
      r ←
          measure_if f (plus_seconds t_start c.duration)
            (record { samples = []; nxt = timespec_of start; prog_at = t_start + second }) fine
      sys_clock k
      sys_control k close fd
      pure r

  -- `got_buffers` and `got_samples` are whether `malloc` succeeds; `is_address` is `inet_pton`.
  module _ (is_address : Bytes → Bool) (got_buffers got_samples : Bool) where
    abbrev pub with_connection : ℕ → Config → Option ℕ → M ℕ
    with_connection f c none = pure 1
    with_connection f c (some fd) =
        if got_buffers && got_samples
        then (session c fd (pattern_of (at_least_0 c.pkt_size)) f >> pure 0)
        else pure 1

    abbrev pub with_config : ℕ → Choice → M ℕ
    with_config f (leave n) = pure n
    with_config f (go_on c) = tcp_connect k (is_address c.host) >>= with_connection f c

    unfoldable pub client_main : (Bytes → ℤ) → (Bytes → ℤ) → List (ℕ × Bytes) → ℕ → M ℕ
    client_main atoi atol options f = with_config f (parse_options atoi atol options defaults)
