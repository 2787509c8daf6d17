-- ===== src/Echo/Server/Rounds.antt =====
-- The descriptors of the server between two rounds, and `close_fd`.
use mathlib.Core.Path.{subst}
use mathlib.Core.List.{append-nil}
use symbi_os.Base.{
  ==_iff, arith, refl, sym, ◌≡◌, ◌≢◌, ◌∙◌, ℕ, Bool, true, false, [], ◌∷◌, Bool-cases, inl, inr,
  ◌==◌,
}
use symbi_os.Echo.{
  Kernel, Trace, controlled, epoll_del, close, received, written, is_open, is_registered, ◌>>=◌,
}
use symbi_os.Echo.Laws.{
  Ensures, Ensures-bind, Left, Frame, IsPrefixed, IsSettledAt, IsSettled, Keeps,
}
use symbi_os.Echo.Server.{drain, close_fd, close_if}
use symbi_os.Echo.Server.Drain.{AfterCalls, drain_lem}

pub Keeps-trans : {fd : ℕ} (t u v : Trace) → Keeps fd t u → Keeps fd u v → Keeps fd t v
Keeps-trans t u v a b g ne r = b g ne (a g ne r)

-- Calls that open, register or close nothing.
pub IsSettledAt-quiet :
    (lfd epfd : ℕ) (t t' : Trace) (f : ℕ)
    → received f t' ≡ received f t
    → written f t' ≡ written f t
    → is_open f t' ≡ is_open f t
    → is_registered f t' ≡ is_registered f t
    → IsSettledAt lfd epfd t f
    → IsSettledAt lfd epfd t' f
IsSettledAt-quiet lfd epfd t t' f r w o g s = record {
  prefix = (s.prefix.0, rw (r, w) s.prefix.1);
  idle = λ h. r ∙ s.idle (sym g ∙ h) ∙ sym w;
  held = λ h. rw g (s.held (sym o ∙ h));
  known = λ h. o ∙ s.known (sym g ∙ h);
}

pub everywhere : (P : ℕ → Type 0) (fd : ℕ) → P fd → ((f : ℕ) → f ≢ fd → P f) → (f : ℕ) → P f
everywhere P fd here elsewhere f = elim (Bool-cases (f == fd)) [
  | inl same ↦ subst P (sym ((==_iff f fd).0 same)) here
  | inr ne ↦ elsewhere f (ground arith)
]

-- The descriptors after calls on one of them that is registered.
module _ (lfd epfd fd : ℕ) (t t' : Trace) (settled : IsSettled lfd epfd t)
    (frame : Frame fd t t') where
  IsSettled-elsewhere : (f : ℕ) → f ≢ fd → IsSettledAt lfd epfd t' f
  IsSettled-elsewhere f ne =
      IsSettledAt-quiet lfd epfd t t' f (frame.same_received f ne) (frame.same_written f ne)
        (frame.same_open f) (frame.same_registered f) (settled f)

  pub IsPrefixed-after : Left fd true t' → IsPrefixed t'
  IsPrefixed-after l =
      everywhere (λ f. Left f true t') fd l (λ f ne. (IsSettled-elsewhere f ne).prefix)

  pub IsSettled-after : Left fd false t' → IsSettled lfd epfd t'
  IsSettled-after l =
      everywhere (IsSettledAt lfd epfd t') fd
        (record {
          prefix = ([], l ∙ sym (append-nil (written fd t')));
          idle = λ h. l;
          held =
              λ h. rw (frame.same_registered fd) ((settled fd).held (sym (frame.same_open fd) ∙ h));
          known = λ h. frame.same_open fd ∙ (settled fd).known (sym (frame.same_registered fd) ∙ h);
        })
        IsSettled-elsewhere

-- The descriptors after `close`, and after `epoll_ctl` has deleted one.
module _ (lfd epfd fd : ℕ) (b : Bool) (t : Trace) where
  IsSettledAt-close_other :
      (f : ℕ)
      → f ≢ fd
      → IsSettledAt lfd epfd t f
      → IsSettledAt lfd epfd (controlled close fd b ∷ t) f
  unfolding received written is_open is_registered
  IsSettledAt-close_other f ne s =
      IsSettledAt-quiet lfd epfd t (controlled close fd b ∷ t) f refl refl (ground arith)
        (ground arith) s

  IsSettledAt-close_self : Left fd true t → IsSettledAt lfd epfd (controlled close fd b ∷ t) fd
  unfolding received written is_open is_registered
  IsSettledAt-close_self l = record {
    prefix = l;
    idle = λ h. ground arith;
    held = λ h. ground arith;
    known = λ h. ground arith;
  }

  pub IsSettled-close :
      Left fd true t
      → ((f : ℕ) → f ≢ fd → IsSettledAt lfd epfd t f)
      → IsSettled lfd epfd (controlled close fd b ∷ t)
  IsSettled-close l others =
      everywhere (IsSettledAt lfd epfd (controlled close fd b ∷ t)) fd (IsSettledAt-close_self l)
        (λ f ne. IsSettledAt-close_other f ne (others f ne))

  IsSettledAt-delete_other :
      (f : ℕ)
      → f ≢ fd
      → IsSettledAt lfd epfd t f
      → IsSettledAt lfd epfd (controlled epoll_del fd b ∷ t) f
  unfolding received written is_open is_registered
  IsSettledAt-delete_other f ne s =
      IsSettledAt-quiet lfd epfd t (controlled epoll_del fd b ∷ t) f refl refl refl (ground arith) s

Keeps-close_fd :
    (fd : ℕ) (b c : Bool) (t : Trace)
    → Keeps fd t (controlled close fd c ∷ controlled epoll_del fd b ∷ t)
unfolding is_registered
Keeps-close_fd fd b c t g ne h = ground arith

module _ (k : Kernel) (lfd epfd : ℕ) where
  -- What handling an event of a descriptor keeps.
  abbrev pub After : {A : Type 0} → ℕ → Trace → A → Trace → Type 0
  After fd t _ t' = IsSettled lfd epfd t' × Keeps fd t t'

  pub close_fd_lem :
      (fd : ℕ) (t u : Trace)
      → Left fd true u
      → ((f : ℕ) → f ≢ fd → IsSettledAt lfd epfd u f)
      → Keeps fd t u
      → Ensures (After fd t) IsPrefixed (close_if k fd true u)
  unfolding close_fd received written
  close_fd_lem fd t u l others kept =
      let deleted = k.control u epoll_del fd in
      let v = controlled epoll_del fd deleted ∷ u in
      (
        IsSettled-close lfd epfd fd _ v l
            (λ f ne. IsSettledAt-delete_other lfd epfd fd deleted u f ne (others f ne)),
        Keeps-trans t u _ kept (Keeps-close_fd fd deleted _ u),
      )

  close_if_lem :
      (fd : ℕ) (t : Trace) (c : Bool) (u : Trace)
      → IsSettled lfd epfd t
      → AfterCalls fd t c u
      → Ensures (After fd t) IsPrefixed (close_if k fd c u)
  close_if_lem fd t true u s h =
      close_fd_lem fd t u h.1 (IsSettled-elsewhere lfd epfd fd t u s h.0)
        (λ g ne r. h.0.same_registered g ∙ r)
  close_if_lem fd t false u s h =
      (IsSettled-after lfd epfd fd t u s h.0 h.1, λ g ne r. h.0.same_registered g ∙ r)

  pub drained :
      (f fd : ℕ) (t : Trace)
      → IsSettled lfd epfd t
      → is_registered fd t ≡ true
      → Ensures (After fd t) IsPrefixed ((drain k f fd >>= close_if k fd) t)
  drained f fd t s r =
      Ensures-bind (AfterCalls fd t) (AfterCalls fd t true) (After fd t) IsPrefixed (drain k f fd t)
        (close_if k fd) (drain_lem k fd f t ((s fd).idle r)) (λ c u h. close_if_lem fd t c u s h)
        (λ u h. IsPrefixed-after lfd epfd fd t u s h.0 h.1)
