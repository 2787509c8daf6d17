-- ===== src/Event/Loop.antt =====
-- `kldfsLoop` of kldfs.c over what `epoll_wait` returns, round by round.
use symbi_os.Base.{
  arith, refl, ◌≡◌, ℕ, Bool, true, false, ◌||◌, Option, none, some, List, [], ◌∷◌, ◌++◌, map, ◌==◌,
  if◌then◌else◌, Option-cases, ◌⊎◌, inl, inr,
}
use mathlib.Core.Path.{ap, fun_ext, subst, sym}
use symbi_os.Event.{HandlerRc, success, failed, exit_loop}

-- `epoll_wait` fails with an errno, or names the sources that are ready with their events.
pub data Wait (E : Type 0) : Type 0 where
  wait_error : ℕ → Wait E
  ready : List E → Wait E

abbrev pub eintr : ℕ
eintr = 4

abbrev pub einval : ℕ
einval = 22

-- The loop goes on, has returned, or has stopped at an assertion.
pub data LoopState (S : Type 0) : Type 0 where
  going : S → LoopState S
  returned : Bool → S → LoopState S
  aborted : S → LoopState S

-- `hdlr` is the handler that the descriptor of an event source names, if it names one.
module _ {E S : Type 0} (hdlr : E → Option (S → S × HandlerRc)) where
  abbrev pub after_handler : HandlerRc → S → LoopState S → LoopState S
  after_handler success s rest = rest
  after_handler exit_loop s rest = returned true s
  after_handler failed s rest = returned false s

  -- The handlers of one round, in order. An event whose pointer is null, or whose descriptor names no
  -- handler, stops the program.
  unfoldable pub dispatch : List (Option E) → S → LoopState S
  dispatch [] s = going s
  dispatch (none ∷ es) s = aborted s
  dispatch (some e ∷ es) s = elim (hdlr e) [
    | none ↦ aborted s
    | some h ↦ let rest = dispatch es (h s).0 in after_handler (h s).1 (h s).0 rest
  ]

  unfoldable pub round : Wait (Option E) → S → LoopState S
  unfolding dispatch
  round (wait_error errno) s =
      if errno == eintr || errno == einval then going s else returned false s
  round (ready es) s = dispatch es s

  abbrev continue_with : LoopState S → (S → LoopState S) → LoopState S
  continue_with (going s) k = k s
  continue_with (returned b s) k = returned b s
  continue_with (aborted s) k = aborted s

  unfoldable pub kldfs_loop : List (Wait (Option E)) → S → LoopState S
  unfolding round
  kldfs_loop [] s = going s
  kldfs_loop (w ∷ ws) s = continue_with (round w s) (λ t. kldfs_loop ws t)

  -- What happens, event by event: an error of `epoll_wait` that ends the loop, or an event.
  pub data Happening : Type 0 where
    bad_wait : Happening
    event : Option E → Happening

  abbrev pub happenings : Wait (Option E) → List Happening
  happenings (wait_error errno) = if errno == eintr || errno == einval then [] else bad_wait ∷ []
  happenings (ready es) = map event es

  abbrev pub all_happenings : List (Wait (Option E)) → List Happening
  all_happenings [] = []
  all_happenings (w ∷ ws) = happenings w ++ all_happenings ws

  -- The handler of this event succeeds, and takes the state to another.
  abbrev pub Succeeds : Happening → S → S → Type 0
  Succeeds bad_wait s t = ⊥
  Succeeds (event none) s t = ⊥
  Succeeds (event (some e)) s t = (h : S → S × HandlerRc) × (hdlr e ≡ some h) × (h s ≡ (t, success))

  abbrev pub AllSucceed : List Happening → S → S → Type 0
  AllSucceed [] s t = s ≡ t
  AllSucceed (c ∷ cs) s t = (u : S) × Succeeds c s u × AllSucceed cs u t

  -- How this ends the loop, if it does.
  abbrev pub Stops : Happening → S → LoopState S → Type 0
  Stops bad_wait s r = r ≡ returned false s
  Stops (event none) s r = r ≡ aborted s
  Stops (event (some e)) s r =
      ((hdlr e ≡ none) × (r ≡ aborted s))
      ⊎ ((h : S → S × HandlerRc) × (t : S) × (hdlr e ≡ some h)
          × (((h s ≡ (t, exit_loop)) × (r ≡ returned true t))
              ⊎ ((h s ≡ (t, failed)) × (r ≡ returned false t))))

  -- All succeed, or there is a first that stops the loop.
  abbrev pub Ends : List Happening → S → LoopState S → Type 0
  Ends cs s r =
      ((t : S) × AllSucceed cs s t × (r ≡ going t))
      ⊎ ((before : List Happening) × (c : Happening) × (after : List Happening) × (u : S) × (cs
            ≡ before ++ c ∷ after)
          × AllSucceed before s u
          × Stops c u r)

  -- The same as one pass.
  abbrev pass : List Happening → S → LoopState S
  pass [] s = going s
  pass (bad_wait ∷ cs) s = returned false s
  pass (event none ∷ cs) s = aborted s
  pass (event (some e) ∷ cs) s = elim (hdlr e) [
    | none ↦ aborted s
    | some h ↦ let rest = pass cs (h s).0 in after_handler (h s).1 (h s).0 rest
  ]

  -- One round, and then what `k` does, as a pass over its events.
  pass-ready :
      (es : List (Option E)) (cs : List Happening) (s : S)
      → pass (map event es ++ cs) s ≡ continue_with (dispatch es s) (pass cs)
  unfolding dispatch
  pass-ready [] cs s = refl
  pass-ready (none ∷ es) cs s = refl
  pass-ready (some e ∷ es) cs s = elim (Option-cases (hdlr e)) [
    | inl q ↦ ground (arith, q)
    | inr (h, q) ↦ ground (arith, q, pass-ready es cs (h s).0)
  ]

  pass-happenings :
      (w : Wait (Option E)) (cs : List Happening) (s : S)
      → pass (happenings w ++ cs) s ≡ continue_with (round w s) (pass cs)
  unfolding round
  pass-happenings (wait_error errno) cs s = ground arith
  pass-happenings (ready es) cs s = pass-ready es cs s

  kldfs_loop-pass :
      (ws : List (Wait (Option E))) (s : S) → kldfs_loop ws s ≡ pass (all_happenings ws) s
  unfolding kldfs_loop
  kldfs_loop-pass [] s = refl
  kldfs_loop-pass (w ∷ ws) s =
      rw (pass-happenings w (all_happenings ws) s)
        (ap (continue_with (round w s)) (fun_ext (kldfs_loop-pass ws)))

  Ends-after :
      (c : Happening) (cs : List Happening) (s u : S) (r : LoopState S)
      → Succeeds c s u
      → Ends cs u r
      → Ends (c ∷ cs) s r
  Ends-after c cs s u r first (inl (t, all, e)) = inl (t, (u, first, all), e)
  Ends-after c cs s u r first (inr (before, d, after, v, split, all, stops)) =
      inr (c ∷ before, d, after, v, ap (λ l. c ∷ l) split, (u, first, all), stops)

  -- The rest of the pass, after the handler has answered.
  answered-Ends :
      (e : E) (cs : List Happening) (s : S) (h : S → S × HandlerRc) (t : S) (rc : HandlerRc)
      → hdlr e ≡ some h
      → h s ≡ (t, rc)
      → Ends cs t (pass cs t)
      → Ends (event (some e) ∷ cs) s (after_handler rc t (pass cs t))
  answered-Ends e cs s h t success q a rest =
      Ends-after (event (some e)) cs s t (pass cs t) (h, q, a) rest
  answered-Ends e cs s h t exit_loop q a rest =
      inr ([], event (some e), cs, s, refl, refl, inr (h, t, q, inl (a, refl)))
  answered-Ends e cs s h t failed q a rest =
      inr ([], event (some e), cs, s, refl, refl, inr (h, t, q, inr (a, refl)))

  pass-Ends : (cs : List Happening) (s : S) → Ends cs s (pass cs s)
  pass-Ends [] s = inl (s, refl, refl)
  pass-Ends (bad_wait ∷ cs) s = inr ([], bad_wait, cs, s, refl, refl, refl)
  pass-Ends (event none ∷ cs) s = inr ([], event none, cs, s, refl, refl, refl)
  pass-Ends (event (some e) ∷ cs) s = elim (Option-cases (hdlr e)) [
    | inl q ↦ inr ([], event (some e), cs, s, refl, refl, inl (q, ground (arith, q)))
    | inr (h, q) ↦
        let a = answered-Ends e cs s h (h s).0 (h s).1 q refl (pass-Ends cs (h s).0) in
        let eq : pass (event (some e) ∷ cs) s ≡ after_handler (h s).1 (h s).0 (pass cs (h s).0) =
          ground (arith, q) in
        subst (Ends (event (some e) ∷ cs) s) (sym eq) a
  ]

  -- `kldfsLoop` calls the handlers of the events of all rounds in order, each on the state that the
  -- one before left, for as long as they succeed. The first event at which this is not so decides how
  -- it ends: it returns true where the handler asks to exit, false where the handler fails or
  -- `epoll_wait` fails with another error than `EINTR` or `EINVAL`, and stops at an assertion where
  -- the event has no descriptor or its descriptor no handler. If there is none, the loop goes on.
  pub kldfs_loop-Ends :
      (ws : List (Wait (Option E))) (s : S) → Ends (all_happenings ws) s (kldfs_loop ws s)
  kldfs_loop-Ends ws s = rw (kldfs_loop-pass ws s) (pass-Ends (all_happenings ws) s)
