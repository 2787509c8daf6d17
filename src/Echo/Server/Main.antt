-- ===== src/Echo/Server/Main.antt =====
-- The server from its start.
use mathlib.Core.List.{append-nil}
use symbi_os.Base.{
  ==_iff, arith, refl, sym, ◌≡◌, ◌∙◌, ℕ, Bool, true, false, [], ◌∷◌, Bool-cases, inl, inr, ◌⊎◌,
  ◌==◌, if◌then◌else◌, Option, none, some,
}
use symbi_os.Echo.{
  Kernel, Reply, ok, error, Trace, M, controlled, opened, epoll_add, epoll_del, close, get_flags,
  set_flags, set_option, bind, listen, connect, socket, epoll_create, Op, received, written,
  is_open, is_registered, ◌>>=◌, pure, sys_control, sys_open,
}
use symbi_os.Echo.Laws.{Ensures, Ensures-bind, IsPosix, IsPrefixed, IsSettled}
use symbi_os.Echo.Server.{set_nonblock, serve, setup, after_socket, after_epoll, run, server_main}
use symbi_os.Echo.Server.Serve.{serve_lem}

-- Before the epoll object there is: nothing is registered, and only the socket is open.
record IsStarting (lfd : ℕ) (t : Trace) (f : ℕ) : Type 0 where
  no_input : received f t ≡ []
  no_output : written f t ≡ []
  unregistered : is_registered f t ≡ false
  only : is_open f t ≡ (f == lfd)

abbrev AfterSetup : Option (ℕ × ℕ) → Trace → Type 0
AfterSetup none t = IsPrefixed t
AfterSetup (some (lfd, epfd)) t = IsSettled lfd epfd t

-- A call that changes none of the views.
IsQuiet : Op → Type 0
IsQuiet op =
    (fd f : ℕ) (b : Bool) (t : Trace)
    → (received f (controlled op fd b ∷ t) ≡ received f t)
      × (written f (controlled op fd b ∷ t) ≡ written f t)
      × (is_open f (controlled op fd b ∷ t) ≡ is_open f t)
      × (is_registered f (controlled op fd b ∷ t) ≡ is_registered f t)

-- `epoll_ctl` and `close` change what is registered and open, the other calls do not.
abbrev is_plain : Op → Bool
is_plain epoll_add = false
is_plain epoll_del = false
is_plain close = false
is_plain _ = true

is_plain-IsQuiet : (op : Op) → is_plain op ≡ true → IsQuiet op
unfolding IsQuiet received written is_open is_registered
is_plain-IsQuiet get_flags h fd f b t = (refl, refl, refl, refl)
is_plain-IsQuiet set_flags h fd f b t = (refl, refl, refl, refl)
is_plain-IsQuiet set_option h fd f b t = (refl, refl, refl, refl)
is_plain-IsQuiet bind h fd f b t = (refl, refl, refl, refl)
is_plain-IsQuiet listen h fd f b t = (refl, refl, refl, refl)
is_plain-IsQuiet connect h fd f b t = (refl, refl, refl, refl)
is_plain-IsQuiet epoll_add h fd f b t = cc
is_plain-IsQuiet epoll_del h fd f b t = cc
is_plain-IsQuiet close h fd f b t = cc

module _ (k : Kernel) (lfd : ℕ) where
  abbrev IsReady : M (Option (ℕ × ℕ)) → Type 0
  IsReady m = (t : Trace) → ((f : ℕ) → IsStarting lfd t f) → Ensures AfterSetup IsPrefixed (m t)

  IsStarting-IsPrefixed : (t : Trace) → ((f : ℕ) → IsStarting lfd t f) → IsPrefixed t
  IsStarting-IsPrefixed t s f = ([], (s f).no_input ∙ sym (append-nil _ ∙ (s f).no_output))

  -- One call of the setup and what follows it when it succeeds.
  then_if : (b : Bool) (m : M (Option (ℕ × ℕ))) → IsReady m → IsReady (if b then m else pure none)
  then_if true m h t s = h t s
  then_if false m h t s = IsStarting-IsPrefixed t s

  IsStarting-quiet :
      (op : Op) (b : Bool) (t : Trace)
      → IsQuiet op
      → ((f : ℕ) → IsStarting lfd t f)
      → (f : ℕ) → IsStarting lfd (controlled op lfd b ∷ t) f
  unfolding IsQuiet
  IsStarting-quiet op b t q s f =
      let same = q lfd f b t in
      record {
        no_input = same.0 ∙ (s f).no_input;
        no_output = same.1 ∙ (s f).no_output;
        only = same.2 ∙ (s f).only;
        unregistered = same.3 ∙ (s f).unregistered;
      }

  quiet_step :
      (op : Op) (next : Bool → M (Option (ℕ × ℕ)))
      → is_plain op ≡ true
      → ((b : Bool) → IsReady (next b))
      → IsReady (sys_control k op lfd >>= next)
  quiet_step op next q h t s = h _ _ (IsStarting-quiet op _ t (is_plain-IsQuiet op q) s)

  nonblock_step :
      (next : Bool → M (Option (ℕ × ℕ)))
      → ((b : Bool) → IsReady (next b))
      → IsReady (set_nonblock k lfd >>= next)
  unfolding set_nonblock
  nonblock_step next h t s =
      go _ (IsStarting-quiet get_flags _ t (is_plain-IsQuiet get_flags refl) s)
    where
      go :
          (b : Bool) {u : Trace}
          → ((f : ℕ) → IsStarting lfd u f)
          → Ensures AfterSetup IsPrefixed
              (((if b then sys_control k set_flags lfd else pure false) >>= next) u)
      go true {u} s = quiet_step set_flags next refl h u s
      go false {u} s = h false u s

  -- The epoll object, and the listening socket in it.
  module _ (t : Trace) (s : (f : ℕ) → IsStarting lfd t f) (epfd : ℕ) (b : Bool) where
    abbrev with_epoll : Trace
    with_epoll = controlled epoll_add lfd b ∷ opened epoll_create (ok epfd) ∷ t

    with_epoll-no_input : (f : ℕ) → received f with_epoll ≡ []
    unfolding received
    with_epoll-no_input f = ground (arith, (s f).no_input)

    with_epoll-no_output : (f : ℕ) → written f with_epoll ≡ []
    unfolding written
    with_epoll-no_output f = ground (arith, (s f).no_output)

    with_epoll-IsPrefixed : IsPrefixed with_epoll
    with_epoll-IsPrefixed f =
        ([], with_epoll-no_input f ∙ sym (append-nil _ ∙ with_epoll-no_output f))

    with_epoll-held :
        (f : ℕ)
        → is_open f with_epoll ≡ true
        → (f ≡ lfd) ⊎ (f ≡ epfd) ⊎ (is_registered f with_epoll ≡ true)
    unfolding is_open
    with_epoll-held f h = elim (Bool-cases (f == epfd)) [
      | inl e ↦ inr (inl ((==_iff f epfd).0 e))
      | inr ne ↦ inl ((==_iff f lfd).0 (sym (s f).only ∙ ground arith))
    ]

    with_epoll-known : (f : ℕ) → is_registered f with_epoll ≡ true → is_open f with_epoll ≡ true
    unfolding is_open is_registered
    with_epoll-known f h = ground (arith, (s f).only, (s f).unregistered)

    with_epoll-IsSettled : IsSettled lfd epfd with_epoll
    with_epoll-IsSettled f = record {
      prefix = with_epoll-IsPrefixed f;
      idle = λ h. with_epoll-no_input f ∙ sym (with_epoll-no_output f);
      held = with_epoll-held f;
      known = with_epoll-known f;
    }

  epoll_added :
      (t : Trace) (s : (f : ℕ) → IsStarting lfd t f) (epfd : ℕ) (b : Bool)
      → Ensures AfterSetup IsPrefixed
          ((if b then pure (some (lfd, epfd)) else pure none) (with_epoll t s epfd b))
  epoll_added t s epfd true = with_epoll-IsSettled t s epfd true
  epoll_added t s epfd false = with_epoll-IsPrefixed t s epfd false

  after_epoll_lem :
      (t : Trace) (r : Reply ℕ)
      → ((f : ℕ) → IsStarting lfd t f)
      → Ensures AfterSetup IsPrefixed (after_epoll k lfd r (opened epoll_create r ∷ t))
  unfolding after_epoll received written
  after_epoll_lem t (error e) s = IsStarting-IsPrefixed t s
  after_epoll_lem t (ok epfd) s = epoll_added t s epfd _

  epoll-IsReady : IsReady (sys_open k epoll_create >>= after_epoll k lfd)
  epoll-IsReady t s = after_epoll_lem t _ s

  IsStarting-opened : (f : ℕ) → IsStarting lfd (opened socket (ok lfd) ∷ []) f
  unfolding received written is_open is_registered
  IsStarting-opened f = record {
    no_input = ground arith;
    no_output = ground arith;
    unregistered = ground arith;
    only = ground arith;
  }

module _ (k : Kernel) where
  after_socket_lem :
      (r : Reply ℕ) → Ensures AfterSetup IsPrefixed (after_socket k r (opened socket r ∷ []))
  unfolding after_socket received written
  after_socket_lem (error e) = λ f. ([], refl)
  after_socket_lem (ok lfd) =
      quiet_step k lfd set_option _ refl
        (λ _. quiet_step k lfd bind _ refl (λ b. then_if k lfd b _ (
          quiet_step k lfd listen _ refl (λ c.
            then_if k lfd c _
              (nonblock_step k lfd _ (λ d. then_if k lfd d _ (epoll-IsReady k lfd)))))))
        _ (IsStarting-opened k lfd)

  pub setup_lem : Ensures AfterSetup IsPrefixed (setup k [])
  unfolding setup
  setup_lem = after_socket_lem _

-- After `main` what came in on each connection has gone out but for some last bytes; and if it
-- returned 0, an open descriptor is that of a registered connection on which all has gone out.
abbrev pub AfterMain : ℕ → Trace → Type 0
AfterMain rc t =
    IsPrefixed t
    × (rc ≡ 0
        → (f : ℕ) → is_open f t ≡ true
        → (is_registered f t ≡ true) × (received f t ≡ written f t))

-- The last two calls.
AfterMain-closed :
    (lfd epfd : ℕ) (b c : Bool) (t : Trace)
    → IsSettled lfd epfd t
    → AfterMain 0 (controlled close lfd c ∷ controlled close epfd b ∷ t)
unfolding received written is_open is_registered
AfterMain-closed lfd epfd b c t s = (
  λ f. (s f).prefix,
  λ z f o.
      let registered : is_registered f t ≡ true = ground (arith, (s f).held) in
      (ground arith, (s f).idle registered),
)

run_lem :
    (k : Kernel) (f : ℕ)
    → IsPosix k
    → (r : Option (ℕ × ℕ)) (t : Trace) → AfterSetup r t
    → Ensures AfterMain IsPrefixed (run k f r t)
unfolding run
run_lem k f posix none t h = (h, λ z. cc)
run_lem k f posix (some (lfd, epfd)) t h =
    Ensures-bind (λ _ u. IsSettled lfd epfd u) IsPrefixed AfterMain IsPrefixed (serve k f lfd t) _
      (serve_lem k posix lfd epfd f t h) (λ _ u p. AfterMain-closed lfd epfd _ _ u p) (λ u p. p)

-- Over every kernel that gives out only descriptors that are not open, and whose `epoll_wait`
-- names registered descriptors, once each: at the end of a run of the server, and wherever the
-- fuel cuts it, what was written to each connection is, in order, a first part of what was read
-- from it. If `main` returns 0, every descriptor that is still open is that of a registered
-- connection, on which all that was read was written back.
pub server_main_lem :
    (k : Kernel) → IsPosix k → (f : ℕ) → Ensures AfterMain IsPrefixed (server_main k f [])
unfolding server_main
server_main_lem k posix f =
    Ensures-bind AfterSetup IsPrefixed AfterMain IsPrefixed (setup k []) (run k f) (setup_lem k)
      (λ r t h. run_lem k f posix r t h) (λ t h. h)
