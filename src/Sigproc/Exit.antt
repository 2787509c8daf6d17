-- ===== src/Sigproc/Exit.antt =====
-- Which signals end the loop, by `sigEvent` of sigproc.c.
use symbi_os.Base.{ℕ, ◌≡◌, ◌≢◌, ◌↔◌, refl, true, Bool, some, [], arith}
use symbi_os.Base.Machine.{done}
use symbi_os.Event.{Mask, exit_loop}
use symbi_os.Sigproc.Signal.{quit}
use symbi_os.Sigproc.{
  sig_add_term_signals, Sigproc, has_signal, sig_event, sigproc_init, sigproc_register_events,
}

-- After `sigprocInit` the object can be registered. Of the signals that it then blocks and receives
-- as events, `sigEvent` ends the loop for each but `SIGQUIT`, which it takes for unknown, and only
-- where input is signalled.
pub sig_event-sigproc_init :
    (s : Sigproc) (fd : ℕ) (iszeroed : Bool)
    → (s' : Sigproc) × (sigproc_init true (some fd) iszeroed s ≡ done tt s')
      × (sigproc_register_events true s' ≡ done tt s')
      × ((signo : ℕ) (e : Mask)
          → has_signal signo s'.mask ≡ true
          → ((sig_event signo e).1 ≡ exit_loop) ↔ ((signo ≢ quit) × (e.epollin ≡ true)))
unfolding sigproc_init sig_event sigproc_register_events
sig_event-sigproc_init s fd iszeroed = (
  record { mask = sig_add_term_signals []; sfd = some fd; wired = true },
  ground arith,
  refl,
  λ signo e h. ground arith,
)
