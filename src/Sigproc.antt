-- ===== src/Sigproc.antt =====
-- The signal object of kld (examples/tools/src/kld/sigproc.h, sigproc.c, `sigprocCleanup` of
-- main.c). Signals carry their numbers on Linux for x86.
pub mod Exit
pub mod Signal
mod Tests
use Signal
use symbi_os.Base.{
  ℕ, ◌≡◌, Bool, true, false, not, ◌||◌, Option, none, some, List, [], ◌∷◌, ◌==◌, if◌then◌else◌,
  is_some,
}
use symbi_os.Base.Machine.{M, pure, ◌>>=◌, ◌>>◌, get, put, assert, nyi}
use symbi_os.Event.{HandlerRc, success, exit_loop, Mask, Handled, clear_in}

abbrev pub has_signal : ℕ → List ℕ → Bool
has_signal n [] = false
has_signal n (m ∷ ms) = (n == m) || has_signal n ms

-- `sigAddTermSignals`
unfoldable pub sig_add_term_signals : List ℕ → List ℕ
sig_add_term_signals mask =
    Signal.alrm ∷ Signal.term ∷ Signal.int ∷ Signal.hup ∷ Signal.quit ∷ Signal.usr1 ∷ Signal.vtalrm
    ∷ Signal.usr2 ∷ Signal.pipe ∷ Signal.io ∷ mask

-- `sigproc_t`; `wired` says that `ed` names this object and `sigEvent`.
pub record Sigproc : Type 0 where
  pub mask : List ℕ
  pub sfd : Option ℕ
  pub wired : Bool

-- The `switch` of `sigEvent`.
unfoldable pub sig_switch : ℕ → HandlerRc
sig_switch n =
    if n == Signal.alrm
      || n == Signal.term
      || n == Signal.int
      || n == Signal.hup
      || n == Signal.kill
      || n == Signal.usr1
      || n == Signal.vtalrm
      || n == Signal.usr2
      || n == Signal.pipe
      || n == Signal.io
    then exit_loop
    else success

-- `sigEvent`, with the number of the signal that `read` delivers.
unfoldable pub sig_event : (signo : ℕ) → Mask → Handled × HandlerRc
unfolding sig_switch
sig_event signo e = (clear_in e, if e.epollin then sig_switch signo else success)

unfoldable pub sigproc_reset : (iszeroed : Bool) → Sigproc → Sigproc
sigproc_reset iszeroed s =
    let zeroed = if iszeroed then s else record { mask = []; sfd = none; wired = false } in
    record zeroed { sfd = none; wired = true }

-- `blocks` is what `sigprocmask` answers, `fd` what `signalfd` answers.
unfoldable pub sigproc_init :
    (blocks : Bool) → (fd : Option ℕ) → (iszeroed : Bool) → M Sigproc (Unit {0})
unfolding sigproc_reset sig_add_term_signals
sigproc_init blocks fd iszeroed = do
  s ← get
  put (record (sigproc_reset iszeroed s) { mask = sig_add_term_signals [] })
  assert blocks
  t ← get
  put (record t { sfd = fd })
  assert (is_some fd)

-- The assertions, and the answer of `epoll_ctl`.
unfoldable pub sigproc_register_events : (added : Bool) → M Sigproc (Unit {0})
sigproc_register_events added = do
  s ← get
  assert (is_some s.sfd)
  assert s.wired
  if not added then nyi else pure tt

unfoldable pub sigproc_cleanup : Sigproc → Sigproc
sigproc_cleanup s = if is_some s.sfd then record s { sfd = none; mask = [] } else s
