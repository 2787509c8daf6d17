-- ===== src/Echo/Tests.antt =====
-- The echo server and its client at concrete kernels.
use mathlib.Core.Path.{subst}
use symbi_os.Base.{
  ◌<◌, ◌≤◌, arith, refl, ◌≡◌, ℕ, zero, suc, ◌+◌, Bool, true, false, List, [], ◌∷◌, ◌==◌, ltb,
  if◌then◌else◌, Bytes, codes, Bool-cases, inl, inr,
}
use symbi_os.Base.Lists.{length}
use symbi_os.Echo.{
  Kernel, Reply, ok, error, again, interrupted, other, Trace, opened, waited, accept, socket,
  epoll_create, Source, Ready, received, written, is_open, is_registered, Outcome, returned, cut,
}
use symbi_os.Echo.Laws.{Ensures, IsPosix, IsPrefixed, AllRegistered, AllDistinct}
use symbi_os.Echo.Server.{
  server_main, set_nonblock, serve, handle_all, handle, accept_loop, register, drain, write_loop,
}
use symbi_os.Echo.Server.Main.{AfterMain, server_main_lem}
use symbi_os.Echo.Server.Drain.{AfterCalls}
use symbi_os.Echo.Server.Progress.{IsPatient, refusals, drain_total}

-- How many descriptors a run has asked for, and how often it has waited.
abbrev opens : Trace → ℕ
opens [] = 0
opens (opened s r ∷ t) = suc (opens t)
opens (_ ∷ t) = opens t

abbrev waits : Trace → ℕ
waits [] = 0
waits (waited w ∷ t) = suc (waits t)
waits (_ ∷ t) = waits t

-- A descriptor if it is not open.
abbrev unless_open : ℕ → Trace → Reply ℕ
unless_open f t = if is_open f t then error other else ok f

abbrev ready_input : ℕ → Ready
ready_input f = record { fd = f; err = false; hup = false; input = true }

abbrev if_registered : ℕ → Trace → Reply (List Ready)
if_registered f t = if is_registered f t then ok (ready_input f ∷ []) else error other

abbrev message : Bytes
message = codes "hi!"

-- One client, 5, connects to the listening socket 3 and sends a message; the epoll object is 4. Every
-- second `write` is refused, and the others take two bytes at most.
abbrev small_open : Trace → Source → Reply ℕ
small_open t (accept l) = if ltb (opens t) 3 then unless_open (3 + opens t) t else error again
small_open t socket = unless_open (3 + opens t) t
small_open t epoll_create = unless_open (3 + opens t) t

abbrev small_write : Trace → ℕ → Bytes → Reply ℕ
small_write t f bs =
    if refusals t == 0 then error again else ok (if ltb 2 (length bs) then 2 else length bs)

abbrev small_wait : Trace → Reply (List Ready)
small_wait t =
    if waits t == 0
    then if_registered 3 t
    else if waits t == 1
    then error interrupted
    else if waits t == 2
    then if_registered 5 t
    else error other

abbrev small : Kernel
small = record {
  open_fd = small_open;
  control = λ t op f. true;
  read = λ t f n. if length (received f t) == 0 then ok message else error again;
  write = small_write;
  epoll_wait = small_wait;
  clock = λ t. length t;
}

outcome_of : Outcome ℕ → Bytes
outcome_of (returned rc t) = rc ∷ written 5 t
outcome_of (cut t) = []

echoed_hi : outcome_of (server_main small 12 []) ≡ 0 ∷ message
unfolding outcome_of server_main set_nonblock serve handle_all handle accept_loop register drain
    write_loop written received is_open is_registered refusals
echoed_hi = refl

unless_open-fresh : (n f : ℕ) (t : Trace) → unless_open n t ≡ ok f → is_open f t ≡ false
unless_open-fresh n f t h = elim (Bool-cases (is_open n t)) [
  | inl old ↦ ground (arith, old)
  | inr new ↦ ground (arith, new)
]

-- Of the two branches of a conditional.
either :
    {A Q : Type 0} (b : Bool) (x y z : A) → (x ≡ z → Q) → (y ≡ z → Q) → (if b then x else y) ≡ z → Q
either true x y z f g h = f h
either false x y z f g h = g h

small-fresh : (t : Trace) (s : Source) (f : ℕ) → small_open t s ≡ ok f → is_open f t ≡ false
small-fresh t (accept l) f h =
    either (ltb (opens t) 3) (unless_open (3 + opens t) t) (error again) (ok f)
      (unless_open-fresh (3 + opens t) f t) (λ e. cc) h
small-fresh t socket f h = unless_open-fresh (3 + opens t) f t h
small-fresh t epoll_create f h = unless_open-fresh (3 + opens t) f t h

abbrev IsFine : Trace → List Ready → Type 0
IsFine t es = AllRegistered t es × AllDistinct es

if_registered-IsFine :
    (n : ℕ) (t : Trace) (es : List Ready) → if_registered n t ≡ ok es → IsFine t es
if_registered-IsFine n t es h = one (is_registered n t) refl h
  where
    one :
        (b : Bool)
        → is_registered n t ≡ b
        → (if b then ok (ready_input n ∷ []) else error other) ≡ ok es
        → IsFine t es
    one true e q =
        let same : ready_input n ∷ [] ≡ es = cc in subst (IsFine t) same ((e, tt), (tt, tt))
    one false e q = cc

small-IsFine : (t : Trace) (es : List Ready) → small_wait t ≡ ok es → IsFine t es
small-IsFine t es h =
    either (waits t == 0) (if_registered 3 t) _ (ok es) (if_registered-IsFine 3 t es)
      (either (waits t == 1) (error interrupted) _ (ok es) (λ e. cc)
        (either (waits t == 2) (if_registered 5 t) (error other) (ok es)
          (if_registered-IsFine 5 t es) (λ e. cc)))
      h

small-IsPosix : IsPosix small
small-IsPosix = record {
  fresh = small-fresh;
  ready = λ t es h. (small-IsFine t es h).0;
  distinct = λ t es h. (small-IsFine t es h).1;
}

server_main_lem_example : Ensures AfterMain IsPrefixed (server_main small 12 [])
server_main_lem_example = server_main_lem small small-IsPosix 12

-- A connection with the message in it, when nothing was read yet.
abbrev connected : Trace
connected = opened (accept 3) (ok 5) ∷ []

small-patience : (t : Trace) (bs : Bytes) → small_write t 5 bs ≡ error again → refusals t < 1
small-patience t bs h = ground arith

small-progress :
    (t : Trace) (bs : Bytes) (m : ℕ) → 0 < length bs → small_write t 5 bs ≡ ok m → 0 < m
small-progress t bs m h e = ground arith

small-bounded :
    (t : Trace) (bs : Bytes)
    → (if length (received 5 t) == 0 then ok message else error again) ≡ ok bs
    → length (received 5 t) + length bs ≤ 3
small-bounded t bs h = first (length (received 5 t)) h
  where
    first : (n : ℕ) → (if n == 0 then ok message else error again) ≡ ok bs → n + length bs ≤ 3
    first zero e = let same : message ≡ bs = cc in subst (λ x. 0 + length x ≤ 3) same (omega arith)
    first (suc n) e = ground (arith, e)

small-IsPatient : IsPatient small 5 1 3
small-IsPatient = record {
  patience = small-patience;
  progress = small-progress;
  bounded = small-bounded;
}

drain_total_example : Ensures (AfterCalls 5 connected) (λ _. ⊥) (drain small 12 5 connected)
unfolding received written refusals
drain_total_example =
    drain_total small 5 1 3 12 connected small-IsPatient (omega arith) (omega arith) refl
