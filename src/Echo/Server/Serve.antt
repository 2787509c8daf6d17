-- ===== src/Echo/Server/Serve.antt =====
-- The rounds of the server.
use symbi_os.Base.{refl, ◌≡◌, ℕ, zero, suc, true, List, [], ◌∷◌, Bool-cases, inl, inr, ◌==◌, ◌||◌}
use symbi_os.Echo.{
  Kernel, Reply, ok, error, again, interrupted, other, Trace, received, written, is_open,
  is_registered, Ready, ◌>>◌, waited,
}
use symbi_os.Echo.Laws.{
  Ensures, Ensures-bind, Ensures-weaken, IsPosix, IsPrefixed, IsSettled, Keeps, AllRegistered,
  AllDistinct, NoneOf,
}
use symbi_os.Echo.Server.{handle, handle_all, serve, after_wait}
use symbi_os.Echo.Server.Rounds.{IsSettledAt-quiet, After, close_fd_lem, drained}
use symbi_os.Echo.Server.Accept.{accept_loop_lem, AfterAccept}

AllRegistered-mono :
    (es : List Ready) (t u : Trace)
    → ((g : ℕ) → is_registered g t ≡ true → is_registered g u ≡ true)
    → AllRegistered t es
    → AllRegistered u es
AllRegistered-mono [] t u keep h = tt
AllRegistered-mono (e ∷ es) t u keep h = (keep e.fd h.0, AllRegistered-mono es t u keep h.1)

AllRegistered-Keeps :
    (fd : ℕ) (es : List Ready) (t u : Trace)
    → NoneOf fd es
    → Keeps fd t u
    → AllRegistered t es
    → AllRegistered u es
AllRegistered-Keeps fd [] t u apart keep h = tt
AllRegistered-Keeps fd (e ∷ es) t u apart keep h =
    (keep e.fd apart.0 h.0, AllRegistered-Keeps fd es t u apart.1 keep h.1)

module _ (k : Kernel) (posix : IsPosix k) (lfd epfd : ℕ) where
  handle_lem :
      (f : ℕ) (e : Ready) (t : Trace)
      → IsSettled lfd epfd t
      → is_registered e.fd t ≡ true
      → Ensures (After k lfd epfd e.fd t) IsPrefixed (handle k f lfd e t)
  unfolding handle
  handle_lem f e t s r = elim (Bool-cases (e.fd == lfd)) [
    | inl listening ↦ rw listening (
        Ensures-weaken (AfterAccept lfd epfd t) (After k lfd epfd e.fd t) IsPrefixed IsPrefixed _
          (accept_loop_lem k posix lfd epfd f t s) (λ _ u p. (p.0, λ g ne h. p.1 g h)) (λ u p. p))
    | inr client ↦ rw client (elim (Bool-cases (e.err || e.hup)) [
      | inl gone ↦
          rw gone (close_fd_lem k lfd epfd e.fd t t (s e.fd).prefix (λ f ne. s f) (λ g ne h. h))
      | inr there ↦ rw there (elim (Bool-cases e.input) [
        | inl input ↦ rw input (drained k lfd epfd f e.fd t s r)
        | inr nothing ↦ rw nothing (s, λ g ne h. h)
      ])
    ])
  ]

  abbrev AfterRound : Unit {0} → Trace → Type 0
  AfterRound _ u = IsSettled lfd epfd u

  handle_all_lem :
      (f : ℕ) (es : List Ready) (t : Trace)
      → IsSettled lfd epfd t
      → AllRegistered t es
      → AllDistinct es
      → Ensures AfterRound IsPrefixed (handle_all k f lfd es t)
  unfolding handle_all
  handle_all_lem f [] t s r d = s
  handle_all_lem f (e ∷ es) t s r d =
      Ensures-bind (After k lfd epfd e.fd t) IsPrefixed AfterRound IsPrefixed (handle k f lfd e t)
        (λ _. handle_all k f lfd es) (handle_lem f e t s r.0)
        (λ _ u p. handle_all_lem f es u p.0 (AllRegistered-Keeps e.fd es t u d.0 p.1 r.1) d.1)
        (λ u p. p)

  IsSettled-waited :
      (w : Reply (List Ready)) (t : Trace)
      → IsSettled lfd epfd t
      → IsSettled lfd epfd (waited w ∷ t)
  unfolding received written is_open is_registered
  IsSettled-waited w t s f = IsSettledAt-quiet lfd epfd t _ f refl refl refl refl (s f)

  after_wait_lem :
      (f : ℕ) (t : Trace) (w : Reply (List Ready))
      → k.epoll_wait t ≡ w
      → IsSettled lfd epfd t
      → ((u : Trace) → IsSettled lfd epfd u → Ensures AfterRound IsPrefixed (serve k f lfd u))
      → Ensures AfterRound IsPrefixed (
          after_wait
            (serve k f lfd)
            (λ es. handle_all k f lfd es >> serve k f lfd)
            w
            (waited w ∷ t))
  unfolding is_registered
  after_wait_lem f t (error interrupted) h s ih = ih _ (IsSettled-waited _ t s)
  after_wait_lem f t (error again) h s ih = IsSettled-waited _ t s
  after_wait_lem f t (error other) h s ih = IsSettled-waited _ t s
  after_wait_lem f t (ok es) h s ih =
      Ensures-bind AfterRound IsPrefixed AfterRound IsPrefixed
        (handle_all k f lfd es (waited (ok es) ∷ t)) (λ _. serve k f lfd)
        (handle_all_lem f es _ (IsSettled-waited _ t s)
          (AllRegistered-mono es t (waited (ok es) ∷ t) (λ g r. r) (posix.ready t es h))
          (posix.distinct t es h))
        (λ _ u p. ih u p) (λ u p. p)

  pub serve_lem :
      (f : ℕ) (t : Trace) → IsSettled lfd epfd t → Ensures AfterRound IsPrefixed (serve k f lfd t)
  unfolding serve
  serve_lem zero t s = λ f. (s f).prefix
  serve_lem (suc f) t s = after_wait_lem f t _ refl s (serve_lem f)
