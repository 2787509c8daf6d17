-- ===== src/Echo/Server/Accept.antt =====
-- The loop of the server over `accept`.
use mathlib.Core.List.{append-nil}
use symbi_os.Base.{
  ==_iff, arith, refl, sym, ◌≡◌, ◌≢◌, ◌∙◌, ℕ, zero, suc, Bool, true, false, [], ◌∷◌, Bool-cases,
  inl, inr, ◌==◌, if◌then◌else◌,
}
use symbi_os.Echo.{
  Kernel, Reply, ok, error, Trace, Call, controlled, opened, epoll_add, close, accept, get_flags,
  set_flags, received, written, is_open, is_registered, Source, ◌>>=◌, ◌>>◌, pure, sys_control,
}
use symbi_os.Echo.Laws.{
  Ensures, Ensures-bind, Ensures-weaken, IsPosix, IsPrefixed, IsSettledAt, IsSettled,
}
use symbi_os.Echo.Server.{after_accept, set_nonblock, register, accept_loop}
use symbi_os.Echo.Server.Rounds.{IsSettledAt-quiet, everywhere, IsSettled-close}

-- No registered descriptor is lost.
abbrev pub KeepsAll : Trace → Trace → Type 0
KeepsAll t t' = (g : ℕ) → is_registered g t ≡ true → is_registered g t' ≡ true

-- After new connections were taken from the listening socket.
abbrev pub AfterAccept : ℕ → ℕ → Trace → Unit {0} → Trace → Type 0
AfterAccept lfd epfd t _ u = IsSettled lfd epfd u × KeepsAll t u

-- A connection that is not registered yet, in a run that had reached `t`.
record IsNew (lfd epfd fd : ℕ) (t v : Trace) : Type 0 where
  others : (f : ℕ) → f ≢ fd → IsSettledAt lfd epfd v f
  idle : received fd v ≡ written fd v
  held : is_open fd v ≡ true
  kept : (g : ℕ) → g ≢ fd → is_registered g t ≡ true → is_registered g v ≡ true
  before : is_registered fd t ≡ false

module _ (lfd epfd fd : ℕ) (t : Trace) where
  IsNew-opened :
      (s : Source)
      → is_open fd t ≡ false
      → IsSettled lfd epfd t
      → IsNew lfd epfd fd t (opened s (ok fd) ∷ t)
  unfolding received written is_open is_registered
  IsNew-opened s closed settled = record {
    others = λ f ne.
        IsSettledAt-quiet lfd epfd t (opened s (ok fd) ∷ t) f (ground arith) (ground arith)
          (ground arith) (ground arith) (settled f);
    idle = ground arith;
    held = ground arith;
    kept = λ g ne r. ground arith;
    before = elim (Bool-cases (is_registered fd t)) [
      | inl r ↦ cc ((settled fd).known r)
      | inr r ↦ r
    ];
  }

  module _ (v : Trace) (new : IsNew lfd epfd fd t v) where
    IsNew-quiet :
        (v' : Trace)
        → ((f : ℕ) → received f v' ≡ received f v)
        → ((f : ℕ) → written f v' ≡ written f v)
        → ((f : ℕ) → is_open f v' ≡ is_open f v)
        → ((f : ℕ) → is_registered f v' ≡ is_registered f v)
        → IsNew lfd epfd fd t v'
    IsNew-quiet v' r w o g = record {
      others = λ f ne. IsSettledAt-quiet lfd epfd v v' f (r f) (w f) (o f) (g f) (new.others f ne);
      idle = r fd ∙ new.idle ∙ sym (w fd);
      held = o fd ∙ new.held;
      kept = λ f ne h. g f ∙ new.kept f ne h;
      before = new.before;
    }

    IsNew-get_flags : (b : Bool) → IsNew lfd epfd fd t (controlled get_flags fd b ∷ v)
    unfolding received written is_open is_registered
    IsNew-get_flags b = IsNew-quiet _ (λ f. refl) (λ f. refl) (λ f. refl) (λ f. refl)

    IsNew-set_flags : (b : Bool) → IsNew lfd epfd fd t (controlled set_flags fd b ∷ v)
    unfolding received written is_open is_registered
    IsNew-set_flags b = IsNew-quiet _ (λ f. refl) (λ f. refl) (λ f. refl) (λ f. refl)

    IsNew-not_added : IsNew lfd epfd fd t (controlled epoll_add fd false ∷ v)
    unfolding received written is_open is_registered
    IsNew-not_added = IsNew-quiet _ (λ f. refl) (λ f. refl) (λ f. refl) (λ f. refl)

    IsSettledAt-added : IsSettledAt lfd epfd (controlled epoll_add fd true ∷ v) fd
    unfolding received written is_open is_registered
    IsSettledAt-added = record {
      prefix = ([], new.idle ∙ sym (append-nil (written fd v)));
      idle = λ h. new.idle;
      held = λ h. inr (inr (ground arith));
      known = λ h. new.held;
    }

    KeepsAll-new :
        (c : Call)
        → ((g : ℕ) → g ≢ fd → is_registered g (c ∷ v) ≡ is_registered g v)
        → KeepsAll t (c ∷ v)
    KeepsAll-new c same g r = elim (Bool-cases (g == fd)) [
      | inl e ↦ cc (new.before, (==_iff g fd).0 e)
      | inr ne ↦ let apart : g ≢ fd = ground arith in same g apart ∙ new.kept g apart r
    ]

    added : AfterAccept lfd epfd t tt (controlled epoll_add fd true ∷ v)
    unfolding received written is_open is_registered
    added = (
      everywhere (IsSettledAt lfd epfd (controlled epoll_add fd true ∷ v)) fd IsSettledAt-added
          (λ f ne.
            IsSettledAt-quiet lfd epfd v (controlled epoll_add fd true ∷ v) f refl refl refl
              (ground arith) (new.others f ne)),
      KeepsAll-new (controlled epoll_add fd true) (λ g ne. ground arith),
    )

    refused : (b : Bool) → AfterAccept lfd epfd t tt (controlled close fd b ∷ v)
    unfolding is_registered
    refused b = (
      IsSettled-close lfd epfd fd b v ([], new.idle ∙ sym (append-nil (written fd v))) new.others,
      KeepsAll-new (controlled close fd b) (λ g ne. ground arith),
    )

module _ (k : Kernel) (lfd epfd fd : ℕ) (t : Trace) where
  nonblocking_lem :
      (v : Trace)
      → IsNew lfd epfd fd t v
      → Ensures (λ _ u. IsNew lfd epfd fd t u) IsPrefixed (set_nonblock k fd v)
  unfolding set_nonblock
  nonblocking_lem v new = go _ (IsNew-get_flags lfd epfd fd t v new _)
    where
      go :
          (flags : Bool) {u : Trace}
          → IsNew lfd epfd fd t u
          → Ensures
              (λ _ w. IsNew lfd epfd fd t w)
              IsPrefixed
              ((if flags then sys_control k set_flags fd else pure false) u)
      go true {u} h = IsNew-set_flags lfd epfd fd t u h _
      go false h = h

  registered_lem :
      (b : Bool) (u : Trace)
      → IsNew lfd epfd fd t u
      → Ensures (AfterAccept lfd epfd t) IsPrefixed (
          (if b then pure tt else (sys_control k close fd >> pure tt))
            (controlled epoll_add fd b ∷ u))
  registered_lem true u h = added lfd epfd fd t u h
  registered_lem false u h = refused lfd epfd fd t _ (IsNew-not_added lfd epfd fd t u h) _

  register_lem :
      (v : Trace)
      → IsNew lfd epfd fd t v
      → Ensures (AfterAccept lfd epfd t) IsPrefixed (register k fd v)
  unfolding register
  register_lem v new =
      Ensures-bind (λ _ u. IsNew lfd epfd fd t u) IsPrefixed (AfterAccept lfd epfd t) IsPrefixed
        (set_nonblock k fd v) _ (nonblocking_lem v new) then_register (λ u p. p)
    where
      then_register :
          (b : Bool) (u : Trace)
          → IsNew lfd epfd fd t u
          → Ensures (AfterAccept lfd epfd t) IsPrefixed (
              (if b
                  then (sys_control k epoll_add fd >>= λ c.
                      if c then pure tt else (sys_control k close fd >> pure tt))
                  else (sys_control k close fd >> pure tt))
                u)
      then_register true u h = registered_lem _ u h
      then_register false u h = refused lfd epfd fd t u h _

module _ (k : Kernel) (posix : IsPosix k) (lfd epfd : ℕ) where
  connected_lem :
      (f : ℕ) (t : Trace) (r : Reply ℕ)
      → k.open_fd t (accept lfd) ≡ r
      → IsSettled lfd epfd t
      → ((u : Trace)
          → IsSettled lfd epfd u
          → Ensures (AfterAccept lfd epfd u) IsPrefixed (accept_loop k f lfd u))
      → Ensures (AfterAccept lfd epfd t) IsPrefixed (
          after_accept (λ cfd. register k cfd >> accept_loop k f lfd) r (opened (accept lfd) r ∷ t))
  unfolding received written is_open is_registered
  connected_lem f t (error e) h s ih =
      (λ g. IsSettledAt-quiet lfd epfd t _ g refl refl refl refl (s g), λ g r. r)
  connected_lem f t (ok fd) h s ih =
      Ensures-bind (AfterAccept lfd epfd t) IsPrefixed (AfterAccept lfd epfd t) IsPrefixed
        (register k fd (opened (accept lfd) (ok fd) ∷ t)) (λ _. accept_loop k f lfd)
        (register_lem k lfd epfd fd t _
          (IsNew-opened lfd epfd fd t (accept lfd) (posix.fresh t (accept lfd) fd h) s))
        (λ _ u p.
          Ensures-weaken (AfterAccept lfd epfd u) (AfterAccept lfd epfd t) IsPrefixed IsPrefixed
            (accept_loop k f lfd u) (ih u p.0) (λ _ w q. (q.0, λ g r. q.1 g (p.1 g r))) (λ w q. q))
        (λ u p. p)

  pub accept_loop_lem :
      (f : ℕ) (t : Trace)
      → IsSettled lfd epfd t
      → Ensures (AfterAccept lfd epfd t) IsPrefixed (accept_loop k f lfd t)
  unfolding accept_loop
  accept_loop_lem zero t s = λ f. (s f).prefix
  accept_loop_lem (suc f) t s = connected_lem f t _ refl s (accept_loop_lem f)
