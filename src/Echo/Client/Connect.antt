-- ===== src/Echo/Client/Connect.antt =====
-- The descriptors that `tcp_connect` opens and closes.
use symbi_os.Base.{
  arith, refl, ◌≡◌, ℕ, Bool, true, false, ◌||◌, ◌∷◌, ◌==◌, Option, none, some, if◌then◌else◌,
}
use symbi_os.Echo.{
  ◌>>=◌, ◌>>◌, Kernel, Reply, ok, error, Trace, controlled, opened, socket, set_option, connect,
  close, is_open, pure, sys_control,
}
use symbi_os.Echo.Laws.{Ensures, IsPosix}
use symbi_os.Echo.Client.{tcp_connect, after_socket, after_connect}

-- The open descriptors after an attempt to connect: one more, or the same.
abbrev pub IsConnected : Trace → Option ℕ → Trace → Type 0
IsConnected t none u = (f : ℕ) → is_open f u ≡ is_open f t
IsConnected t (some fd) u =
    (is_open fd t ≡ false) × ((f : ℕ) → is_open f u ≡ (f == fd || is_open f t))

module _ (k : Kernel) (t : Trace) (fd : ℕ) (new : is_open fd t ≡ false) where
  abbrev with_option : Bool → Trace
  with_option b = controlled set_option fd b ∷ opened socket (ok fd) ∷ t

  closed_again :
      (b c : Bool) (f : ℕ) → is_open f (controlled close fd c ∷ with_option b) ≡ is_open f t
  unfolding is_open
  closed_again b c f = ground arith

  connect_lem :
      (b c : Bool)
      → Ensures
          (IsConnected t)
          (λ _. ⊥)
          (after_connect k fd c (controlled connect fd c ∷ with_option b))
  unfolding is_open
  connect_lem b true = (new, λ f. ground arith)
  connect_lem b false = λ f. ground arith

  after_option :
      (valid b : Bool)
      → Ensures
          (IsConnected t)
          (λ _. ⊥)
          ((if valid
              then (sys_control k connect fd >>= after_connect k fd)
              else (sys_control k close fd >> pure none))
            (with_option b))
  after_option true b = connect_lem b _
  after_option false b = closed_again b _

after_socket_lem :
    (k : Kernel) (valid : Bool) (t : Trace) (r : Reply ℕ)
    → ((fd : ℕ) → r ≡ Reply.ok fd → is_open fd t ≡ false)
    → Ensures (IsConnected t) (λ _. ⊥) (after_socket k valid r (opened socket r ∷ t))
unfolding after_socket is_open
after_socket_lem k valid t (error e) fresh = λ f. refl
after_socket_lem k valid t (ok fd) fresh = after_option k t fd (fresh fd refl) valid _

-- Over every kernel that gives out only descriptors that are not open, `tcp_connect` returns a
-- descriptor that was not open and is the only one that it leaves open, or fails and leaves no
-- descriptor open that was not open before.
pub tcp_connect_lem :
    (k : Kernel) (valid : Bool) (t : Trace)
    → IsPosix k
    → Ensures (IsConnected t) (λ _. ⊥) (tcp_connect k valid t)
unfolding tcp_connect
tcp_connect_lem k valid t posix = after_socket_lem k valid t _ (λ fd e. posix.fresh t socket fd e)
