-- ===== src/Echo/Client/Measure.antt =====
-- The measurement loop of the client: samples, pace and end.
mod Stages
pub use Stages.{IsMeasured}
use Stages.{IsOnTime, IsPaused}
use symbi_os.Base.{◌≡◌, ◌∙◌, ℕ, ◌<◌, ◌≤◌, Bool, true, false, List, Bytes}
use symbi_os.Base.Lists.{length}
use symbi_os.Echo.{Kernel, Trace, M, Outcome}
use symbi_os.Echo.Laws.{Ensures}
use symbi_os.Echo.Client.{Config, second, period_ns, is_positive, at_least_0}
use symbi_os.Echo.Client.Exchange.{IsEchoed, IsBehind}
use symbi_os.Echo.Client.Loops.{Progress}
use symbi_os.Echo.Client.Pace.{schedule, schedule_next, schedule, ts_add_ns_lem}

module _ (k : Kernel) (g_stop : Trace → Bool) (c : Config) (fd : ℕ) (sndbuf : Bytes)
    (peer : IsEchoed k fd) (paced : 0 < period_ns c) (slow : period_ns c ≤ second) (base : List ℕ)
    (start : ℕ) where
  abbrev At : Progress → Trace → Type 0
  At s u = IsOnTime c fd base start s u

  abbrev Paused : Progress → Trace → Type 0
  Paused s u = IsPaused c base start s u

  abbrev Ends : Outcome Progress → Type 0
  Ends o = Ensures (λ s u. IsMeasured c fd base start s u) (λ _. ⊥) o

  abbrev Continue : (Progress → M Progress) → ℕ → Type 0
  Continue next n = (s : Progress) (u : Trace) → At s u → length s.samples ≡ n → Ends (next s u)

  -- What the first stopping condition leaves to do.
  abbrev Wanted : Progress → Bool → Type 0
  Wanted s over =
      over ≡ false → is_positive c.max_txns ≡ true → length s.samples < at_least_0 c.max_txns
