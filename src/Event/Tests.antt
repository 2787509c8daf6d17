-- ===== src/Event/Tests.antt =====
-- Instances of the theorems on events.
use symbi_os.Base.{
  ℕ, ◌≡◌, true, false, Option, none, some, refl, List, [], ◌∷◌, ◌==◌, if◌then◌else◌,
}
use symbi_os.Event.{HandlerRc, success, failed, exit_loop, Mask, fs_event}
use symbi_os.Event.Unknown.{fs_event_lem}
use symbi_os.Event.Loop.{
  Wait, wait_error, ready, eintr, returned, aborted, kldfs_loop, all_happenings, Ends,
  kldfs_loop-Ends,
}

-- Input, and an error.
abbrev in_and_err : Mask
in_and_err = record {
  epollin = true;
  epollhup = false;
  epollrdhup = true;
  epollerr = true;
  others = 0;
}

fs_event_lem_test :
    ((fs_event 12 in_and_err).handled.unknown ≡ true)
    × ((fs_event 12 in_and_err).handled.left.epollin ≡ false)
    × ((fs_event 12 in_and_err).handled.left.epollhup ≡ false)
    × ((fs_event 12 in_and_err).handled.left.epollrdhup ≡ false)
    × ((fs_event 12 in_and_err).handled.left.epollerr ≡ true)
    × ((fs_event 12 in_and_err).processes ≡ true)
    × ((fs_event 12 in_and_err).rc ≡ success)
fs_event_lem_test = fs_event_lem 12 in_and_err

-- Source 0 succeeds, source 1 asks to exit, source 2 fails, and source 3 has no handler; each handler
-- notes its source in the state.
abbrev note : ℕ → Option (List ℕ → List ℕ × HandlerRc)
note e =
    if e == 3
    then none
    else some λ s. (e ∷ s, if e == 0 then success else if e == 1 then exit_loop else failed)

abbrev waits : List (Wait (Option ℕ))
waits =
    ready (some 0 ∷ some 0 ∷ [])
    ∷ wait_error eintr
    ∷ ready (some 0 ∷ some 1 ∷ none ∷ [])
    ∷ wait_error 9
    ∷ []

kldfs_loop_exits : kldfs_loop note waits [] ≡ returned true (1 ∷ 0 ∷ 0 ∷ 0 ∷ [])
unfolding kldfs_loop
kldfs_loop_exits = refl

kldfs_loop_aborts : kldfs_loop note (ready (some 0 ∷ some 3 ∷ []) ∷ []) [] ≡ aborted (0 ∷ [])
unfolding kldfs_loop
kldfs_loop_aborts = refl

kldfs_loop-Ends_example : Ends note (all_happenings note waits) [] (kldfs_loop note waits [])
kldfs_loop-Ends_example = kldfs_loop-Ends note waits []
