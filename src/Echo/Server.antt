-- ===== src/Echo/Server.antt =====
-- `main` of examples/kcuttcp/esrv.c. This is the build with `read` and `write`. The one with KCUT_TCP
-- calls `kcut_tcp_read` and `kcut_tcp_write` in their place, which may return other negative numbers
-- than -1, and is not modelled.
pub mod Drain
mod Rounds
mod Accept
pub mod Progress
mod Serve
pub mod Main
use symbi_os.Base.{
  some, none, Option, ℕ, zero, suc, ◌+◌, Bool, true, false, ◌||◌, List, [], ◌∷◌, ◌==◌, ltb,
  if◌then◌else◌, Bytes,
}
use symbi_os.Base.Lists.{length, drop}
use symbi_os.Echo.{
  Kernel, Reply, ok, error, again, interrupted, other, socket, epoll_create, accept, get_flags,
  set_flags, set_option, bind, listen, epoll_add, epoll_del, close, Ready, M, pure, stop, ◌>>=◌,
  ◌>>◌, sys_open, sys_control, sys_read, sys_write, sys_epoll_wait,
}

-- `BUF_SIZE`
abbrev pub buf_size : ℕ
buf_size = 4096

-- What follows a `write` in the loop that writes.
abbrev pub after_attempt : M Bool → (ℕ → M Bool) → Reply ℕ → M Bool
after_attempt retry next (error again) = retry
after_attempt retry next (error e) = pure true
after_attempt retry next (ok nw) = next nw

-- What follows the loop that writes.
abbrev pub after_write : M Bool → Bool → M Bool
after_write more true = pure true
after_write more false = more

-- What follows a `read`.
abbrev pub after_read : (Bytes → M Bool) → Reply Bytes → M Bool
after_read echo (error again) = pure false
after_read echo (error e) = pure true
after_read echo (ok []) = pure true
after_read echo (ok (b ∷ bs)) = echo (b ∷ bs)

-- What follows an `accept`.
abbrev pub after_accept : (ℕ → M (Unit {0})) → Reply ℕ → M (Unit {0})
after_accept connected (error e) = pure tt
after_accept connected (ok cfd) = connected cfd

-- What follows an `epoll_wait`.
abbrev pub after_wait :
    M (Unit {0}) → (List Ready → M (Unit {0})) → Reply (List Ready) → M (Unit {0})
after_wait next handled (error interrupted) = next
after_wait next handled (error e) = pure tt
after_wait next handled (ok es) = handled es

module _ (k : Kernel) where
  -- `fcntl(fd, F_GETFL)`, then `fcntl(fd, F_SETFL, flags | O_NONBLOCK)`: whether both succeed.
  unfoldable pub set_nonblock : ℕ → M Bool
  set_nonblock fd = do
    flags ← sys_control k get_flags fd
    if flags then sys_control k set_flags fd else pure false

  unfoldable pub close_fd : ℕ → M Bool
  close_fd fd = do sys_control k epoll_del fd; sys_control k close fd

  -- `while (sent < nr)`: whether the connection is to be closed.
  unfoldable pub write_loop : ℕ → ℕ → Bytes → ℕ → M Bool
  write_loop zero fd buf sent = stop
  write_loop (suc f) fd buf sent =
      let retry = write_loop f fd buf sent in
      let next = λ (nw : ℕ). write_loop f fd buf (sent + nw) in
      if ltb sent (length buf)
      then (sys_write k fd (drop sent buf) >>= after_attempt retry next)
      else pure false

  -- The loop that reads the descriptor until nothing is left, and echoes: whether the connection is
  -- to be closed.
  unfoldable pub drain : ℕ → ℕ → M Bool
  drain zero fd = stop
  drain (suc f) fd =
      let more = drain f fd in
      sys_read k fd buf_size >>= after_read (λ buf. write_loop f fd buf 0 >>= after_write more)

  -- What follows a new connection, before the next `accept`.
  unfoldable pub register : ℕ → M (Unit {0})
  register cfd = do
    nonblocking ← set_nonblock cfd
    if nonblocking
        then (do
          added ← sys_control k epoll_add cfd
          if added then pure tt else (sys_control k close cfd >> pure tt))
        else (sys_control k close cfd >> pure tt)

  unfoldable pub accept_loop : ℕ → ℕ → M (Unit {0})
  accept_loop zero lfd = stop
  accept_loop (suc f) lfd =
      let more = accept_loop f lfd in
      sys_open k (accept lfd) >>= after_accept (λ cfd. register cfd >> more)

  abbrev pub close_if : ℕ → Bool → M (Unit {0})
  close_if fd true = close_fd fd >> pure tt
  close_if fd false = pure tt

  -- The body of the loop over `events`.
  unfoldable pub handle : ℕ → ℕ → Ready → M (Unit {0})
  handle f lfd e =
      if e.fd == lfd
      then accept_loop f lfd
      else if e.err || e.hup
      then close_if e.fd true
      else if e.input
      then (drain f e.fd >>= close_if e.fd)
      else pure tt

  unfoldable pub handle_all : ℕ → ℕ → List Ready → M (Unit {0})
  handle_all f lfd [] = pure tt
  handle_all f lfd (e ∷ es) = handle f lfd e >> handle_all f lfd es

  -- The loop over `epoll_wait`.
  unfoldable pub serve : ℕ → ℕ → M (Unit {0})
  serve zero lfd = stop
  serve (suc f) lfd =
      let next = serve f lfd in
      sys_epoll_wait k >>= after_wait next (λ es. handle_all f lfd es >> next)

  -- What follows `epoll_create1`: the descriptors of the listening socket and of the epoll object,
  -- or `return 1`.
  unfoldable pub after_epoll : ℕ → Reply ℕ → M (Option (ℕ × ℕ))
  after_epoll lfd (error e) = pure none
  after_epoll lfd (ok epfd) = do
    added ← sys_control k epoll_add lfd
    if added then pure (some (lfd, epfd)) else pure none

  -- What follows `socket`.
  unfoldable pub after_socket : Reply ℕ → M (Option (ℕ × ℕ))
  after_socket (error e) = pure none
  after_socket (ok lfd) = do
    sys_control k set_option lfd
    bound ← sys_control k bind lfd
    if bound
        then (do
          listening ← sys_control k listen lfd
          if listening
              then (do
                nonblocking ← set_nonblock lfd
                if nonblocking then (sys_open k epoll_create >>= after_epoll lfd) else pure none)
              else pure none)
        else pure none

  unfoldable pub setup : M (Option (ℕ × ℕ))
  unfolding after_socket after_epoll
  setup = sys_open k socket >>= after_socket

  -- What `main` does after the setup, and the value that it returns.
  unfoldable pub run : ℕ → Option (ℕ × ℕ) → M ℕ
  run f none = pure 1
  run f (some (lfd, epfd)) = do
    serve f lfd
    sys_control k close epfd
    sys_control k close lfd
    pure 0

  unfoldable pub server_main : ℕ → M ℕ
  unfolding setup run
  server_main f = setup >>= run f
