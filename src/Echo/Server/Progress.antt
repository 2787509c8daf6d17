-- ===== src/Echo/Server/Progress.antt =====
-- The steps that the loops over one connection take.
use symbi_os.Base.{
  arith, ap, refl, ◌≡◌, ◌∙◌, ℕ, zero, suc, ◌+◌, ◌-◌, ◌*◌, ◌<◌, ◌≤◌, Bool, true, false, [], ◌∷◌,
  Bytes, Bool-cases, ltb→lt, inl, inr, ltb,
}
use symbi_os.Base.Lists.{length, drop, length-append, length-drop}
use symbi_os.Echo.{
  ◌>>=◌, Kernel, Reply, ok, error, again, interrupted, other, Trace, Outcome, returned, cut,
  did_read, did_write, received, written, received-did_read,
}
use symbi_os.Echo.Laws.{Ensures-both, Ensures, Ensures-bind, Ensures-weaken}
use symbi_os.Echo.Server.{write_loop, drain, after_write, after_attempt, after_read, buf_size}
use symbi_os.Echo.Server.Drain.{AfterCalls, drain_lem}

-- How many writes in a row the kernel has refused with `EAGAIN`, up to now.
unfoldable pub refusals : Trace → ℕ
refusals (did_write fd bs (error again) ∷ t) = suc (refusals t)
refusals _ = 0

-- The kernel refuses at most `n` writes in a row, and takes a byte at least when it does not; and
-- the peer sends no more than `total` bytes.
pub record IsPatient (k : Kernel) (fd n total : ℕ) : Type 0 where
  pub patience : (t : Trace) (bs : Bytes) → k.write t fd bs ≡ Reply.error again → refusals t < n
  pub progress :
      (t : Trace) (bs : Bytes) (m : ℕ) → 0 < length bs → k.write t fd bs ≡ Reply.ok m → 0 < m
  pub bounded :
      (t : Trace) (bs : Bytes)
      → k.read t fd buf_size ≡ Reply.ok bs
      → length (received fd t) + length bs ≤ total

module _ (k : Kernel) (fd n total : ℕ) (patient : IsPatient k fd n total) where
  -- The run returns, the bytes read are those that were read before, and no refusal is left over.
  abbrev Returns : Trace → Outcome Bool → Type 0
  Returns t o = Ensures (λ _ u. (received fd u ≡ received fd t) × (refusals u ≤ n)) (λ _. ⊥) o

  Returns-later :
      (t u : Trace) (o : Outcome Bool) → received fd u ≡ received fd t → Returns u o → Returns t o
  Returns-later t u (returned c v) e h = (h.0 ∙ e, h.1)
  Returns-later t u (cut v) e h = h

  abbrev Enough : ℕ → ℕ → Trace → Type 0
  Enough f left t = left * suc n + n < f + refusals t

  attempt-Returns :
      (f : ℕ) (buf : Bytes) (sent : ℕ) (t : Trace) (r : Reply ℕ)
      → k.write t fd (drop sent buf) ≡ r
      → sent < length buf
      → refusals t ≤ n
      → Enough (suc f) (length buf - sent) t
      → ((s : ℕ) (u : Trace)
          → refusals u ≤ n
          → Enough f (length buf - s) u
          → Returns u (write_loop k f fd buf s u))
      → Returns t (
          after_attempt
            (write_loop k f fd buf sent)
            (λ nw. write_loop k f fd buf (sent + nw))
            r
            (did_write fd (drop sent buf) r ∷ t))
  unfolding received refusals
  attempt-Returns f buf sent t (error again) e more calm h ih =
      Returns-later t (did_write fd (drop sent buf) (error again) ∷ t)
        (write_loop k f fd buf sent (did_write fd (drop sent buf) (error again) ∷ t)) refl
        (ih sent _ (patient.patience t _ e) (omega arith))
  attempt-Returns f buf sent t (error interrupted) e more calm h ih = (refl, omega arith)
  attempt-Returns f buf sent t (error other) e more calm h ih = (refl, omega arith)
  attempt-Returns f buf sent t (ok m) e more calm h ih =
      Returns-later t (did_write fd (drop sent buf) (ok m) ∷ t)
        (write_loop k f fd buf (sent + m) (did_write fd (drop sent buf) (ok m) ∷ t)) refl
        (ih (sent + m) _ (omega arith)
          (fewer m (patient.progress t _ m (omega (arith, length-drop sent buf)) e)))
    where
      fewer : (m : ℕ) → 0 < m → (length buf - (sent + m)) * suc n + n < f + 0
      fewer m p =
          let step : (length buf - (sent + m) + 1) * suc n ≤ (length buf - sent) * suc n =
            grind arith in
          omega arith

  write_loop-Returns :
      (f : ℕ) (buf : Bytes) (sent : ℕ) (t : Trace)
      → refusals t ≤ n
      → Enough f (length buf - sent) t
      → Returns t (write_loop k f fd buf sent t)
  unfolding write_loop
  write_loop-Returns zero buf sent t r h = omega arith
  write_loop-Returns (suc f) buf sent t r h = elim (Bool-cases (ltb sent (length buf))) [
    | inl more ↦
        rw more
          (attempt-Returns f buf sent t _ refl (ltb→lt _ _ more) r h (write_loop-Returns f buf))
    | inr done ↦ rw done (refl, r)
  ]

  -- `drain` with room for every byte that may come.
  abbrev Room : ℕ → Trace → Type 0
  Room f t = (total - length (received fd t)) * suc (suc n) + n + 1 < f

  abbrev Ends : Outcome Bool → Type 0
  Ends o = Ensures (λ _ _. Unit {0}) (λ _. ⊥) o

  after_write-Ends :
      (f : ℕ) (c : Bool) (u : Trace) → Ends (drain k f fd u) → Ends (after_write (drain k f fd) c u)
  after_write-Ends f true u h = tt
  after_write-Ends f false u h = h

  abbrev Goes : ℕ → Type 0
  Goes f = (u : Trace) → refusals u ≤ n → Room f u → Ends (drain k f fd u)

  -- A round that has read some bytes.
  echo-Ends :
      (f : ℕ) (b : ℕ) (bs : Bytes) (t : Trace)
      → length (received fd t) + length (b ∷ bs) ≤ total
      → Room (suc f) t
      → Goes f
      → Ends (
          (write_loop k f fd (b ∷ bs) 0 >>= after_write (drain k f fd))
            (did_read fd (ok (b ∷ bs)) ∷ t))
  unfolding refusals
  echo-Ends f b bs t fits h ih =
      let v : Trace = did_read fd (ok (b ∷ bs)) ∷ t in
      let more : length (received fd v) ≡ length (received fd t) + suc (length bs) =
        ap length (received-did_read fd (b ∷ bs) t) ∙ length-append (received fd t) (b ∷ bs) in
      let writes : (length (b ∷ bs) - 0) * suc n + n < f + 0 = grind arith in
      let reads : (total - length (received fd v)) * suc (suc n) + n + 1 < f = grind arith in
      Ensures-bind (λ _ u. (received fd u ≡ received fd v) × (refusals u ≤ n)) (λ _. ⊥)
        (λ _ _. Unit {0}) (λ _. ⊥) (write_loop k f fd (b ∷ bs) 0 v) (after_write (drain k f fd))
        (write_loop-Returns f (b ∷ bs) 0 v (omega arith) writes)
        (λ c u p. after_write-Ends f c u (ih u p.1 (rw p.0 reads))) (λ u p. p)

  after_read-Ends :
      (f : ℕ) (t : Trace) (r : Reply Bytes)
      → k.read t fd buf_size ≡ r
      → Room (suc f) t
      → Goes f
      → Ends (
          after_read
            (λ buf. write_loop k f fd buf 0 >>= after_write (drain k f fd))
            r
            (did_read fd r ∷ t))
  after_read-Ends f t (error again) e h ih = tt
  after_read-Ends f t (error interrupted) e h ih = tt
  after_read-Ends f t (error other) e h ih = tt
  after_read-Ends f t (ok []) e h ih = tt
  after_read-Ends f t (ok (b ∷ bs)) e h ih = echo-Ends f b bs t (patient.bounded t _ e) h ih

  drain-Ends : (f : ℕ) (t : Trace) → refusals t ≤ n → Room f t → Ends (drain k f fd t)
  unfolding drain
  drain-Ends zero t r h = omega arith
  drain-Ends (suc f) t r h = after_read-Ends f t _ refl h (drain-Ends f)

-- If the kernel refuses at most `n` writes in a row and otherwise takes a byte at least, and the
-- peer sends at most `total` bytes, the loop that drains a connection on which all was echoed
-- before returns, with fuel for each byte that may still come and `n + 1` attempts to write it.
-- What was written is then a first part of what was read, and all of it unless the connection is
-- to be closed; the other connections and the open and registered descriptors are as before.
pub drain_total :
    (k : Kernel) (fd n total f : ℕ) (t : Trace)
    → IsPatient k fd n total
    → refusals t ≤ n
    → (total - length (received fd t)) * suc (suc n) + n + 1 < f
    → received fd t ≡ written fd t
    → Ensures (AfterCalls fd t) (λ _. ⊥) (drain k f fd t)
drain_total k fd n total f t patient r h idle =
    Ensures-weaken (λ c u. AfterCalls fd t c u × Unit {0}) (AfterCalls fd t)
      (λ u. AfterCalls fd t true u × ⊥) (λ _. ⊥) (drain k f fd t)
      (Ensures-both (AfterCalls fd t) (λ _ _. Unit {0}) (AfterCalls fd t true) (λ _. ⊥)
        (drain k f fd t) (drain_lem k fd f t idle) (drain-Ends k fd n total patient f t r h))
      (λ c u p. p.0) (λ u p. p.1)
