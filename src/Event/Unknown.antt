-- ===== src/Event/Unknown.antt =====
-- Which events `fsEvent` of fs.c reports as unknown.
use symbi_os.Base.{ℕ, ◌≡◌, false, not, ◌&&◌, ◌||◌, ◌==◌, arith}
use symbi_os.Event.{Mask, fs_event, success}

-- A handler ends with "unknown events" exactly if an error was signalled or a bit outside the four
-- was set: the branch for `EPOLLERR` clears the bit of `EPOLLRDHUP` and leaves its own. The bits of
-- `EPOLLIN`, `EPOLLHUP` and `EPOLLRDHUP` are clear at the end, that of `EPOLLERR` stays, and the
-- request is processed exactly if input was signalled and something was received.
pub fs_event_lem :
    (received : ℕ) (e : Mask)
    → ((fs_event received e).handled.unknown ≡ (e.epollerr || not (e.others == 0)))
      × ((fs_event received e).handled.left.epollin ≡ false)
      × ((fs_event received e).handled.left.epollhup ≡ false)
      × ((fs_event received e).handled.left.epollrdhup ≡ false)
      × ((fs_event received e).handled.left.epollerr ≡ e.epollerr)
      × ((fs_event received e).processes ≡ (e.epollin && not (received == 0)))
      × ((fs_event received e).rc ≡ success)
unfolding fs_event
fs_event_lem received e = ground arith
