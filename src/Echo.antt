-- ===== src/Echo.antt =====
-- The echo server and its client (examples/kcuttcp): system calls, and what a run has called.
-- The kernel is a parameter: its answers are functions of the calls made so far.
use symbi_os.Base.{
  arith, ◌≡◌, ℕ, Bool, true, false, not, ◌&&◌, List, [], ◌∷◌, ◌++◌, ◌==◌, if◌then◌else◌, Bytes,
}
use symbi_os.Base.Lists.{take}
pub mod Server
pub mod Laws
pub mod Client
mod Tests

-- `errno` after a call that returned -1: `EAGAIN` or `EWOULDBLOCK`, `EINTR`, or any other.
pub data Errno : Type 0 where
  again : Errno
  interrupted : Errno
  other : Errno

pub data Reply (A : Type 0) : Type 0 where
  ok : A → Reply A
  error : Errno → Reply A

-- What makes a descriptor: `socket`, `epoll_create1`, `accept` on a listening descriptor.
pub data Source : Type 0 where
  socket : Source
  epoll_create : Source
  accept : ℕ → Source

-- Calls on a descriptor that succeed or return -1. `epoll_ctl` is for the descriptor that it adds
-- or deletes; `get_flags` and `set_flags` are `fcntl`.
pub data Op : Type 0 where
  get_flags set_flags set_option bind listen connect epoll_add epoll_del close : Op

-- `struct epoll_event`: the descriptor, and the bits `EPOLLERR`, `EPOLLHUP`, `EPOLLIN`.
pub record Ready : Type 0 where
  pub fd : ℕ
  pub err : Bool
  pub hup : Bool
  pub input : Bool

-- A call with what it returned.
pub data Call : Type 0 where
  opened : Source → Reply ℕ → Call
  controlled : Op → ℕ → Bool → Call
  did_read : ℕ → Reply Bytes → Call
  did_write : ℕ → Bytes → Reply ℕ → Call
  waited : Reply (List Ready) → Call
  slept : ℕ → Call
  timed : ℕ → Call

-- The calls of a run, the last one first.
abbrev pub Trace : Type 0
Trace = List Call

pub record Kernel : Type 0 where
  pub open_fd : Trace → Source → Reply ℕ
  pub control : Trace → Op → ℕ → Bool
  pub read : Trace → ℕ → ℕ → Reply Bytes
  pub write : Trace → ℕ → Bytes → Reply ℕ
  pub epoll_wait : Trace → Reply (List Ready)
  pub clock : Trace → ℕ

-- A piece of code has returned, or the model's fuel was used up in it, after some calls.
pub data Outcome (A : Type 0) : Type 0 where
  returned : A → Trace → Outcome A
  cut : Trace → Outcome A

abbrev pub M : Type 0 → Type 0
M A = Trace → Outcome A

abbrev pub and_then : {A B : Type 0} → Outcome A → (A → M B) → Outcome B
and_then (returned a t) f = f a t
and_then (cut t) f = cut t

infixl 5 ◌>>=◌ ◌>>◌
abbrev pub ◌>>=◌ : {A B : Type 0} → M A → (A → M B) → M B
◌>>=◌ m f t = and_then (m t) f

abbrev pub ◌>>◌ : {A B : Type 0} → M A → M B → M B
◌>>◌ m n t = and_then (m t) (λ _. n)

abbrev pub pure : {A : Type 0} → A → M A
pure a t = returned a t

abbrev pub stop : {A : Type 0} → M A
stop t = cut t

module _ (k : Kernel) where
  abbrev pub sys_open : Source → M (Reply ℕ)
  sys_open s t = let r = k.open_fd t s in returned r (opened s r ∷ t)

  abbrev pub sys_control : Op → ℕ → M Bool
  sys_control op fd t = let b = k.control t op fd in returned b (controlled op fd b ∷ t)

  abbrev pub sys_read : ℕ → ℕ → M (Reply Bytes)
  sys_read fd n t = let r = k.read t fd n in returned r (did_read fd r ∷ t)

  abbrev pub sys_write : ℕ → Bytes → M (Reply ℕ)
  sys_write fd bs t = let r = k.write t fd bs in returned r (did_write fd bs r ∷ t)

  abbrev pub sys_epoll_wait : M (Reply (List Ready))
  sys_epoll_wait t = let r = k.epoll_wait t in returned r (waited r ∷ t)

  -- `clock_nanosleep` until a time.
  abbrev pub sys_sleep : ℕ → M (Unit {0})
  sys_sleep until t = returned tt (slept until ∷ t)

  abbrev pub sys_clock : M ℕ
  sys_clock t = let c = k.clock t in returned c (timed c ∷ t)

-- Views of a trace. A descriptor that is returned again stands for a new connection.
abbrev pub received_by : ℕ → Call → Bytes → Bytes
received_by f (opened s (ok g)) bs = if f == g then [] else bs
received_by f (did_read g (ok r)) bs = if f == g then bs ++ r else bs
received_by f _ bs = bs

-- The bytes read from a descriptor, in order.
unfoldable pub received : ℕ → Trace → Bytes
received f [] = []
received f (c ∷ t) = received_by f c (received f t)

abbrev pub written_by : ℕ → Call → Bytes → Bytes
written_by f (opened s (ok g)) bs = if f == g then [] else bs
written_by f (did_write g offered (ok n)) bs = if f == g then bs ++ take n offered else bs
written_by f _ bs = bs

-- The bytes that the kernel took for a descriptor, in order.
unfoldable pub written : ℕ → Trace → Bytes
written f [] = []
written f (c ∷ t) = written_by f c (written f t)

abbrev pub opened_by : ℕ → Call → Bool → Bool
opened_by f (opened s (ok g)) b = if f == g then true else b
opened_by f (controlled close g _) b = if f == g then false else b
opened_by f _ b = b

unfoldable pub is_open : ℕ → Trace → Bool
is_open f [] = false
is_open f (c ∷ t) = opened_by f c (is_open f t)

abbrev pub registered_by : ℕ → Call → Bool → Bool
registered_by f (opened s (ok g)) b = if f == g then false else b
registered_by f (controlled epoll_add g true) b = if f == g then true else b
registered_by f (controlled epoll_del g _) b = if f == g then false else b
registered_by f (controlled close g _) b = if f == g then false else b
registered_by f _ b = b

-- Known to the epoll object.
unfoldable pub is_registered : ℕ → Trace → Bool
is_registered f [] = false
is_registered f (c ∷ t) = registered_by f c (is_registered f t)

pub received-did_read :
    (fd : ℕ) (bs : Bytes) (t : Trace) → received fd (did_read fd (ok bs) ∷ t) ≡ received fd t ++ bs
unfolding received
received-did_read fd bs t = ground arith

pub written-did_write :
    (fd n : ℕ) (offered : Bytes) (t : Trace)
    → written fd (did_write fd offered (ok n) ∷ t) ≡ written fd t ++ take n offered
unfolding written
written-did_write fd n offered t = ground arith
