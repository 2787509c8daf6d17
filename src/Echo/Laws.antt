-- ===== src/Echo/Laws.antt =====
-- What is assumed of the kernel, and what is claimed of a run that may have been cut short.
use symbi_os.Base.{◌≡◌, ◌≢◌, ℕ, Bool, true, false, ◌⊎◌, List, [], ◌∷◌, ◌++◌, Bytes}
use symbi_os.Echo.{
  Kernel, Reply, Ready, Trace, Outcome, returned, cut, M, and_then, received, written, is_open,
  is_registered, Source,
}

abbrev pub Ensures : {A : Type 0} → (A → Trace → Type 0) → (Trace → Type 0) → Outcome A → Type 0
Ensures Q C (returned a t) = Q a t
Ensures Q C (cut t) = C t

pub Ensures-bind :
    {A B : Type 0} (P : A → Trace → Type 0) (C : Trace → Type 0) (Q : B → Trace → Type 0)
    (D : Trace → Type 0) (o : Outcome A) (f : A → M B)
    → Ensures P C o
    → ((a : A) (t : Trace) → P a t → Ensures Q D (f a t))
    → ((t : Trace) → C t → D t)
    → Ensures Q D (and_then o f)
Ensures-bind P C Q D (returned a t) f h next stopped = next a t h
Ensures-bind P C Q D (cut t) f h next stopped = stopped t h

pub Ensures-weaken :
    {A : Type 0} (P Q : A → Trace → Type 0) (C D : Trace → Type 0) (o : Outcome A)
    → Ensures P C o
    → ((a : A) (t : Trace) → P a t → Q a t)
    → ((t : Trace) → C t → D t)
    → Ensures Q D o
Ensures-weaken P Q C D (returned a t) h after stopped = after a t h
Ensures-weaken P Q C D (cut t) h after stopped = stopped t h

pub Ensures-both :
    {A : Type 0} (P Q : A → Trace → Type 0) (C D : Trace → Type 0) (o : Outcome A)
    → Ensures P C o
    → Ensures Q D o
    → Ensures (λ a t. P a t × Q a t) (λ t. C t × D t) o
Ensures-both P Q C D (returned a t) p q = (p, q)
Ensures-both P Q C D (cut t) p q = (p, q)

-- Every ready descriptor is registered, and none is named twice.
abbrev pub AllRegistered : Trace → List Ready → Type 0
AllRegistered t [] = Unit
AllRegistered t (e ∷ es) = (is_registered e.fd t ≡ true) × AllRegistered t es

abbrev pub NoneOf : ℕ → List Ready → Type 0
NoneOf f [] = Unit
NoneOf f (e ∷ es) = (e.fd ≢ f) × NoneOf f es

abbrev pub AllDistinct : List Ready → Type 0
AllDistinct [] = Unit
AllDistinct (e ∷ es) = NoneOf e.fd es × AllDistinct es

-- A new descriptor is one that is not open; `epoll_wait` names registered descriptors, once each.
pub record IsPosix (k : Kernel) : Type 0 where
  pub fresh : (t : Trace) (s : Source) (f : ℕ) → k.open_fd t s ≡ Reply.ok f → is_open f t ≡ false
  pub ready : (t : Trace) (es : List Ready) → k.epoll_wait t ≡ Reply.ok es → AllRegistered t es
  pub distinct : (t : Trace) (es : List Ready) → k.epoll_wait t ≡ Reply.ok es → AllDistinct es

-- All but some last bytes of what came in on a descriptor went out on it, in order; or all did.
abbrev pub Left : ℕ → Bool → Trace → Type 0
Left f true t = (rest : Bytes) × (received f t ≡ written f t ++ rest)
Left f false t = received f t ≡ written f t

abbrev pub IsPrefixed : Trace → Type 0
IsPrefixed t = (f : ℕ) → Left f true t

-- What differs after calls that read and write one descriptor.
pub record Frame (fd : ℕ) (t t' : Trace) : Type 0 where
  pub same_open : (f : ℕ) → is_open f t' ≡ is_open f t
  pub same_registered : (f : ℕ) → is_registered f t' ≡ is_registered f t
  pub same_received : (f : ℕ) → f ≢ fd → received f t' ≡ received f t
  pub same_written : (f : ℕ) → f ≢ fd → written f t' ≡ written f t

-- A descriptor between two rounds: what came in has gone out, unless the connection was closed; and
-- it is open only if it is that of the server itself or one of a registered connection.
pub record IsSettledAt (lfd epfd : ℕ) (t : Trace) (f : ℕ) : Type 0 where
  pub prefix : Left f true t
  pub idle : is_registered f t ≡ true → received f t ≡ written f t
  pub held : is_open f t ≡ true → (f ≡ lfd) ⊎ (f ≡ epfd) ⊎ (is_registered f t ≡ true)
  pub known : is_registered f t ≡ true → is_open f t ≡ true

abbrev pub IsSettled : ℕ → ℕ → Trace → Type 0
IsSettled lfd epfd t = (f : ℕ) → IsSettledAt lfd epfd t f

-- The other registered descriptors stay registered.
abbrev pub Keeps : ℕ → Trace → Trace → Type 0
Keeps fd t t' = (g : ℕ) → g ≢ fd → is_registered g t ≡ true → is_registered g t' ≡ true
