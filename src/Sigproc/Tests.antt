-- ===== src/Sigproc/Tests.antt =====
-- An instance of the theorem on signals.
use symbi_os.Base.{ℕ, ◌≡◌, ◌≢◌, ◌↔◌, true, false, some, none, []}
use symbi_os.Base.Machine.{done}
use symbi_os.Event.{Mask, exit_loop}
use symbi_os.Sigproc.Signal.{quit}
use symbi_os.Sigproc.{Sigproc, has_signal, sig_event, sigproc_init, sigproc_register_events}
use symbi_os.Sigproc.Exit.{sig_event-sigproc_init}

abbrev fresh : Sigproc
fresh = record { mask = []; sfd = none; wired = false }

sig_event-sigproc_init_test :
    (s' : Sigproc) × (sigproc_init true (some 4) false fresh ≡ done tt s')
    × (sigproc_register_events true s' ≡ done tt s')
    × ((signo : ℕ) (e : Mask)
        → has_signal signo s'.mask ≡ true
        → ((sig_event signo e).1 ≡ exit_loop) ↔ ((signo ≢ quit) × (e.epollin ≡ true)))
sig_event-sigproc_init_test = sig_event-sigproc_init fresh 4 false
