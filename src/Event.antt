-- ===== src/Event.antt =====
-- Events and their dispatch in kld (examples/tools/src/kld/event.h, `fsEvent` of fs.c, `kldfsLoop` of
-- kldfs.c). An event mask is the four bits that the code tests, and the rest of the word.
pub mod Loop
pub mod Unknown
mod Tests
use symbi_os.Base.{
  ℕ, Bool, true, false, not, ◌&&◌, Option, none, some, List, [], ◌∷◌, ◌==◌, if◌then◌else◌, ltb,
}

-- `evnthdlrrc_t`
pub data HandlerRc : Type 0 where
  success failed exit_loop : HandlerRc

pub record Mask : Type 0 where
  pub epollin : Bool
  pub epollhup : Bool
  pub epollrdhup : Bool
  pub epollerr : Bool
  pub others : ℕ

-- `evnts == 0`
abbrev pub is_zero : Mask → Bool
is_zero e = not e.epollin && not e.epollhup && not e.epollrdhup && not e.epollerr && e.others == 0

-- What is left of the mask at `done`, and whether "unknown events" was reported before.
pub record Handled : Type 0 where
  pub left : Mask
  pub unknown : Bool

abbrev pub ended : Mask → Handled
ended e = record { left = e; unknown = false }

-- The tests behind the one of `EPOLLIN`, which `fsEvent` and `sigEvent` share.
unfoldable pub report_rest : Mask → Handled
report_rest e = if is_zero e then ended e else record { left = e; unknown = true }

unfoldable pub clear_err : Mask → Handled
unfolding report_rest
clear_err e =
    if not e.epollerr
    then report_rest e
    else (let e' = record e { epollrdhup = false } in
        if is_zero e' then ended e' else report_rest e')

unfoldable pub clear_rdhup : Mask → Handled
unfolding clear_err
clear_rdhup e =
    if not e.epollrdhup
    then clear_err e
    else (let e' = record e { epollrdhup = false } in if is_zero e' then ended e' else clear_err e')

unfoldable pub clear_hup : Mask → Handled
unfolding clear_rdhup
clear_hup e =
    if not e.epollhup
    then clear_rdhup e
    else (let e' = record e { epollhup = false } in if is_zero e' then ended e' else clear_rdhup e')

-- `evnts & ~EPOLLIN` where it was set, and what follows
unfoldable pub clear_in : Mask → Handled
unfolding clear_hup
clear_in e =
    if not e.epollin
    then clear_hup e
    else (let e' = record e { epollin = false } in if is_zero e' then ended e' else clear_hup e')

-- `fsEvent`: whether `fuse_session_receive_buf` and `fuse_session_process_buf` are called, the mask
-- at the end, and the result. `received` is what the first returns, with 0 for a negative number.
pub record FsEvent : Type 0 where
  pub receives : Bool
  pub processes : Bool
  pub handled : Handled
  pub rc : HandlerRc

unfoldable pub fs_event : (received : ℕ) → Mask → FsEvent
unfolding clear_in
fs_event received e = record {
  receives = e.epollin;
  processes = e.epollin && ltb 0 received;
  handled = clear_in e;
  rc = success;
}
