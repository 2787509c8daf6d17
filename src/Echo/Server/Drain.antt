-- ===== src/Echo/Server/Drain.antt =====
-- The loops of the server over one connection: `read`, and `write` of what was read.
use symbi_os.Base.{
  arith, refl, sym, ◌≡◌, ◌∙◌, ap, ℕ, zero, suc, ◌+◌, Bool, true, false, [], ◌∷◌, ◌++◌, Bytes,
  Bool-cases, ltb, ◌≤◌, inl, inr,
}
use mathlib.Core.List.{append_assoc, append-nil}
use symbi_os.Base.Lists.{length, drop, take, take-append-drop}
use symbi_os.Echo.{
  received-did_read, written-did_write, ◌>>=◌, Errno, M, Kernel, Reply, ok, error, again,
  interrupted, other, Trace, did_read, did_write, received, written, is_open, is_registered,
}
use symbi_os.Echo.Laws.{Ensures, Ensures-bind, Ensures-weaken, Left, Frame}
use symbi_os.Echo.Server.{after_read, after_attempt, write_loop, drain, after_write}

Frame-refl : (fd : ℕ) (t : Trace) → Frame fd t t
Frame-refl fd t = record {
  same_open = λ f. refl;
  same_registered = λ f. refl;
  same_received = λ f h. refl;
  same_written = λ f h. refl;
}

Frame-trans : {fd : ℕ} {t u v : Trace} → Frame fd t u → Frame fd u v → Frame fd t v
Frame-trans a b = record {
  same_open = λ f. b.same_open f ∙ a.same_open f;
  same_registered = λ f. b.same_registered f ∙ a.same_registered f;
  same_received = λ f h. b.same_received f h ∙ a.same_received f h;
  same_written = λ f h. b.same_written f h ∙ a.same_written f h;
}

Frame-did_read : (fd : ℕ) (r : Reply Bytes) (t : Trace) → Frame fd t (did_read fd r ∷ t)
unfolding received written is_open is_registered
Frame-did_read fd (ok bs) t = record {
  same_open = λ f. refl;
  same_registered = λ f. refl;
  same_received = λ f h. ground arith;
  same_written = λ f h. refl;
}
Frame-did_read fd (error e) t = record {
  same_open = λ f. refl;
  same_registered = λ f. refl;
  same_received = λ f h. refl;
  same_written = λ f h. refl;
}

Frame-did_write :
    (fd : ℕ) (bs : Bytes) (r : Reply ℕ) (t : Trace) → Frame fd t (did_write fd bs r ∷ t)
unfolding received written is_open is_registered
Frame-did_write fd bs (ok n) t = record {
  same_open = λ f. refl;
  same_registered = λ f. refl;
  same_received = λ f h. refl;
  same_written = λ f h. ground arith;
}
Frame-did_write fd bs (error e) t = record {
  same_open = λ f. refl;
  same_registered = λ f. refl;
  same_received = λ f h. refl;
  same_written = λ f h. refl;
}

-- After some calls on the descriptor, and when they were cut short.
abbrev pub AfterCalls : ℕ → Trace → Bool → Trace → Type 0
AfterCalls fd t c t' = Frame fd t t' × Left fd c t'

AfterCalls-trans :
    {fd : ℕ} {t u : Trace}
    → Frame fd t u
    → (c : Bool) (v : Trace) → AfterCalls fd u c v
    → AfterCalls fd t c v
AfterCalls-trans a c v h = (Frame-trans a h.0, h.1)

drop-past : (s : ℕ) (bs : Bytes) → length bs ≤ s → drop s bs ≡ []
drop-past zero [] h = refl
drop-past zero (b ∷ bs) h = absurd (omega arith)
drop-past (suc s) [] h = refl
drop-past (suc s) (b ∷ bs) h = drop-past s bs (omega arith)

drop-nil : (n : ℕ) → drop {A = ℕ} n [] ≡ []
drop-nil zero = refl
drop-nil (suc n) = refl

drop-add : (s n : ℕ) (bs : Bytes) → drop (s + n) bs ≡ drop n (drop s bs)
drop-add zero n bs = ground arith
drop-add (suc s) n [] = drop-nil (suc s + n) ∙ sym (drop-nil n)
drop-add (suc s) n (b ∷ bs) =
    let carried : suc s + n ≡ suc (s + n) = omega arith in rw carried (drop-add s n bs)

-- Bytes that the kernel took from those that were left.
left_after_write :
    (fd n s : ℕ) (buf : Bytes) (t : Trace)
    → received fd t ≡ written fd t ++ drop s buf
    → received fd (did_write fd (drop s buf) (ok n) ∷ t)
      ≡ written fd (did_write fd (drop s buf) (ok n) ∷ t) ++ drop (s + n) buf
unfolding received
left_after_write fd n s buf t h =
    rw
      (
        written-did_write fd n (drop s buf) t,
        drop-add s n buf,
        append_assoc (written fd t) (take n (drop s buf)) (drop n (drop s buf)),
        take-append-drop n (drop s buf),
      )
      h

module _ (k : Kernel) (fd : ℕ) where
  abbrev IsEchoing : (M Bool) → Trace → Type 0
  IsEchoing m t = Ensures (AfterCalls fd t) (AfterCalls fd t true) (m t)

  IsEchoing-later :
      (m : M Bool) {t u : Trace}
      → Frame fd t u
      → IsEchoing m u
      → Ensures (AfterCalls fd t) (AfterCalls fd t true) (m u)
  IsEchoing-later m {t} {u} a h =
      Ensures-weaken _ _ _ _ (m u) h (AfterCalls-trans a) (AfterCalls-trans a true)

  -- What was to be written when the kernel refused some bytes is still to be written.
  refused :
      (o rest : Bytes) (e : Errno) (t : Trace)
      → received fd t ≡ written fd t ++ rest
      → received fd (did_write fd o (error e) ∷ t)
        ≡ written fd (did_write fd o (error e) ∷ t) ++ rest
  unfolding received written
  refused o rest e t h = h

  abbrev attempted : ℕ → Bytes → ℕ → Reply ℕ → M Bool
  attempted f buf sent r =
      after_attempt (write_loop k f fd buf sent) (λ nw. write_loop k f fd buf (sent + nw)) r

  attempted_lem :
      (f : ℕ) (buf : Bytes) (sent : ℕ) (t : Trace) (r : Reply ℕ)
      → received fd t ≡ written fd t ++ drop sent buf
      → ((s : ℕ) (u : Trace)
          → received fd u ≡ written fd u ++ drop s buf
          → IsEchoing (write_loop k f fd buf s) u)
      → Ensures
          (AfterCalls fd t)
          (AfterCalls fd t true)
          (attempted f buf sent r (did_write fd (drop sent buf) r ∷ t))
  attempted_lem f buf sent t (error again) h ih =
      IsEchoing-later (write_loop k f fd buf sent)
        (Frame-did_write fd (drop sent buf) (error again) t)
        (ih sent _ (refused (drop sent buf) (drop sent buf) again t h))
  attempted_lem f buf sent t (error interrupted) h ih = (
    Frame-did_write fd (drop sent buf) (error interrupted) t,
    (drop sent buf, refused (drop sent buf) (drop sent buf) interrupted t h),
  )
  attempted_lem f buf sent t (error other) h ih = (
    Frame-did_write fd (drop sent buf) (error other) t,
    (drop sent buf, refused (drop sent buf) (drop sent buf) other t h),
  )
  attempted_lem f buf sent t (ok n) h ih =
      IsEchoing-later (write_loop k f fd buf (sent + n))
        (Frame-did_write fd (drop sent buf) (ok n) t)
        (ih (sent + n) _ (left_after_write fd n sent buf t h))

  write_loop_lem :
      (f : ℕ) (buf : Bytes) (sent : ℕ) (t : Trace)
      → received fd t ≡ written fd t ++ drop sent buf
      → IsEchoing (write_loop k f fd buf sent) t
  unfolding write_loop
  write_loop_lem zero buf sent t h = (Frame-refl fd t, (drop sent buf, h))
  write_loop_lem (suc f) buf sent t h = elim (Bool-cases (ltb sent (length buf))) [
    | inl more ↦ rw more (attempted_lem f buf sent t _ h (write_loop_lem f buf))
    | inr done ↦ rw done (Frame-refl fd t, settled (ground arith))
  ]
    where
      settled : length buf ≤ sent → received fd t ≡ written fd t
      settled past =
          h ∙ ap (λ bs. written fd t ++ bs) (drop-past sent buf past) ∙ append-nil (written fd t)

  -- All that came in went out, when nothing more comes in.
  abbrev IsIdle : Trace → Type 0
  IsIdle t = received fd t ≡ written fd t

  nothing-Left : (t : Trace) → IsIdle t → Left fd true t
  nothing-Left t h = ([], h ∙ sym (append-nil (written fd t)))

  after_write_lem :
      (f : ℕ) {t : Trace} (c : Bool) (u : Trace)
      → ((v : Trace) → IsIdle v → IsEchoing (drain k f fd) v)
      → AfterCalls fd t c u
      → Ensures (AfterCalls fd t) (AfterCalls fd t true) (after_write (drain k f fd) c u)
  after_write_lem f true u ih h = h
  after_write_lem f false u ih h = IsEchoing-later (drain k f fd) h.0 (ih u h.1)

  abbrev echo : ℕ → Bytes → M Bool
  echo f buf = write_loop k f fd buf 0 >>= after_write (drain k f fd)

  after_read_lem :
      (f : ℕ) (t : Trace) (r : Reply Bytes)
      → IsIdle t
      → ((v : Trace) → IsIdle v → IsEchoing (drain k f fd) v)
      → Ensures (AfterCalls fd t) (AfterCalls fd t true) (after_read (echo f) r (did_read fd r ∷ t))
  unfolding received written
  after_read_lem f t (error again) h ih = (Frame-did_read fd (error again) t, h)
  after_read_lem f t (error interrupted) h ih =
      (Frame-did_read fd (error interrupted) t, nothing-Left t h)
  after_read_lem f t (error other) h ih = (Frame-did_read fd (error other) t, nothing-Left t h)
  after_read_lem f t (ok []) h ih =
      (Frame-did_read fd (ok []) t, ([], received-did_read fd [] t ∙ ap (λ bs. bs ++ []) h))
  after_read_lem f t (ok (b ∷ bs)) h ih =
      Ensures-bind (AfterCalls fd t) (AfterCalls fd t true) (AfterCalls fd t) (AfterCalls fd t true)
        (write_loop k f fd (b ∷ bs) 0 (did_read fd (ok (b ∷ bs)) ∷ t)) (after_write (drain k f fd))
        (IsEchoing-later (write_loop k f fd (b ∷ bs) 0) (Frame-did_read fd (ok (b ∷ bs)) t) (
          write_loop_lem f (b ∷ bs) 0 _
            (received-did_read fd (b ∷ bs) t ∙ ap (λ w. w ++ b ∷ bs) h)))
        (λ c u p. after_write_lem f c u ih p) (λ u p. p)

  pub drain_lem : (f : ℕ) (t : Trace) → received fd t ≡ written fd t → IsEchoing (drain k f fd) t
  unfolding drain
  drain_lem zero t h = (Frame-refl fd t, nothing-Left t h)
  drain_lem (suc f) t h = after_read_lem f t _ h (drain_lem f)
