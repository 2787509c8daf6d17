-- ===== src/Echo/Client/Exchange.antt =====
-- One transaction of the client with a peer that echoes.
use mathlib.Core.List.{append_assoc, append-nil, append_cancel_left}
use symbi_os.Base.{
  arith, ap, refl, sym, ◌≡◌, ◌∙◌, ℕ, zero, suc, ◌-◌, ◌<◌, ◌≤◌, Bool, true, false, [], ◌∷◌, ◌++◌,
  Bytes, Option, none, some,
}
use symbi_os.Base.Lists.{length, drop, take, take-append-drop, length-append, length-drop}
use symbi_os.Echo.{
  Kernel, Reply, ok, error, Trace, did_read, did_write, received, written, received-did_read,
  written-did_write,
}
use symbi_os.Echo.Laws.{Ensures, Ensures-bind, Ensures-weaken}
use symbi_os.Echo.Client.{write_all, read_all, transact, after_part, after_bytes, then_read}

-- How far some bytes were written.
abbrev Sent : ℕ → Bytes → Trace → Bool → Trace → Type 0
Sent fd buf t true u = (received fd u ≡ received fd t) × (written fd u ≡ written fd t ++ buf)
Sent fd buf t false u =
    (received fd u ≡ received fd t)
    × ((p : Bytes) × (rest : Bytes) × (written fd u ≡ written fd t ++ p) × (buf ≡ p ++ rest))

module _ (k : Kernel) (fd : ℕ) where
  -- A `write` that took some bytes, and what follows it.
  Sent-part :
      (n : ℕ) (buf : Bytes) (t : Trace) (c : Bool) (u : Trace)
      → Sent fd (drop n buf) (did_write fd buf (ok n) ∷ t) c u
      → Sent fd buf t c u
  unfolding received
  Sent-part n buf t true u h = (
    h.0,
    h.1
        ∙ ap (λ w. w ++ drop n buf) (written-did_write fd n buf t)
        ∙ append_assoc (written fd t) (take n buf) (drop n buf)
        ∙ ap (λ w. written fd t ++ w) (take-append-drop n buf),
  )
  Sent-part n buf t false u (r, (p, q, w, e)) = (
    r,
    (
      take n buf ++ p,
      q,
      w
          ∙ ap (λ w. w ++ p) (written-did_write fd n buf t)
          ∙ append_assoc (written fd t) (take n buf) p,
      sym (take-append-drop n buf)
          ∙ ap (λ w. take n buf ++ w) e
          ∙ sym (append_assoc (take n buf) p q),
    ),
  )

  after_part_lem :
      (f : ℕ) (buf : Bytes) (t : Trace) (r : Reply ℕ)
      → length buf < suc f
      → 0 < length buf
      → ((rest : Bytes) (u : Trace)
          → length rest < f
          → Ensures (Sent fd rest u) (λ _. ⊥) (write_all k f fd rest u))
      → Ensures
          (Sent fd buf t)
          (λ _. ⊥)
          (after_part (λ w. write_all k f fd (drop w buf)) r (did_write fd buf r ∷ t))
  unfolding received written
  after_part_lem f buf t (error e) h some_left ih = (refl, ([], buf, sym (append-nil _), refl))
  after_part_lem f buf t (ok zero) h some_left ih =
      (refl, ([], buf, ground (arith, append-nil (written fd t)), refl))
  after_part_lem f buf t (ok (suc w)) h some_left ih =
      Ensures-weaken (Sent fd (drop (suc w) buf) (did_write fd buf (ok (suc w)) ∷ t))
        (Sent fd buf t) (λ _. ⊥) (λ _. ⊥)
        (write_all k f fd (drop (suc w) buf) (did_write fd buf (ok (suc w)) ∷ t))
        (ih (drop (suc w) buf) _ (omega (arith, length-drop (suc w) buf)))
        (λ c u p. Sent-part (suc w) buf t c u p) (λ u p. p)

  write_all_lem :
      (f : ℕ) (buf : Bytes) (t : Trace)
      → length buf < f
      → Ensures (Sent fd buf t) (λ _. ⊥) (write_all k f fd buf t)
  unfolding write_all
  write_all_lem zero buf t h = omega arith
  write_all_lem (suc f) [] t h = (refl, sym (append-nil (written fd t)))
  write_all_lem (suc f) (b ∷ bs) t h =
      after_part_lem f (b ∷ bs) t _ h (omega arith) (write_all_lem f)

-- What comes in on the descriptor is, in order, a first part of what went out, and no read returns
-- more than it asks for.
pub record IsEchoed (k : Kernel) (fd : ℕ) : Type 0 where
  pub within : (t : Trace) (n : ℕ) (bs : Bytes) → k.read t fd n ≡ Reply.ok bs → length bs ≤ n
  pub echoed :
      (t : Trace) (n : ℕ) (bs : Bytes)
      → k.read t fd n ≡ Reply.ok bs
      → (rest : Bytes) × (written fd t ≡ (received fd t ++ bs) ++ rest)

abbrev pub IsBehind : ℕ → Trace → Type 0
IsBehind fd t = (rest : Bytes) × (written fd t ≡ received fd t ++ rest)

-- What was read of `n` bytes, after those of `got`.
abbrev Got : ℕ → ℕ → Bytes → Trace → Option Bytes → Trace → Type 0
Got fd n got t none u = (written fd u ≡ written fd t) × IsBehind fd u
Got fd n got t (some buf) u =
    (written fd u ≡ written fd t)
    × IsBehind fd u
    × ((new : Bytes) × (buf ≡ got ++ new)
        × (length new ≡ n)
        × (received fd u ≡ received fd t ++ new))

module _ (k : Kernel) (fd : ℕ) (peer : IsEchoed k fd) where
  Got-part :
      (n : ℕ) (bs got : Bytes) (t : Trace) (r : Option Bytes) (u : Trace)
      → length bs ≤ n
      → Got fd (n - length bs) (got ++ bs) (did_read fd (ok bs) ∷ t) r u
      → Got fd n got t r u
  unfolding written
  Got-part n bs got t none u within h = h
  Got-part n bs got t (some buf) u within (w, behind, (new, e, l, r)) = (
    w,
    behind,
    (
      bs ++ new,
      e ∙ append_assoc got bs new,
      omega (arith, l, length-append bs new),
      r ∙ ap (λ x. x ++ new) (received-did_read fd bs t) ∙ append_assoc (received fd t) bs new,
    ),
  )

  after_bytes_lem :
      (f n : ℕ) (got : Bytes) (t : Trace) (r : Reply Bytes)
      → k.read t fd (suc n) ≡ r
      → n < f
      → IsBehind fd t
      → ((m : ℕ) (g : Bytes) (u : Trace)
          → m < f
          → IsBehind fd u
          → Ensures (Got fd m g u) (λ _. ⊥) (read_all k f fd m g u))
      → Ensures
          (Got fd (suc n) got t)
          (λ _. ⊥)
          (after_bytes
            (λ bs. read_all k f fd (suc n - length bs) (got ++ bs))
            r
            (did_read fd r ∷ t))
  unfolding received written
  after_bytes_lem f n got t (error e) eq h behind ih = (refl, behind)
  after_bytes_lem f n got t (ok []) eq h behind ih =
      (refl, (behind.0, ground (arith, behind.1, append-nil (received fd t))))
  after_bytes_lem f n got t (ok (b ∷ bs)) eq h behind ih =
      let v : Trace = did_read fd (ok (b ∷ bs)) ∷ t in
      let more = peer.echoed t (suc n) (b ∷ bs) eq in
      Ensures-weaken (Got fd (suc n - length (b ∷ bs)) (got ++ b ∷ bs) v) (Got fd (suc n) got t)
        (λ _. ⊥) (λ _. ⊥) (read_all k f fd (suc n - length (b ∷ bs)) (got ++ b ∷ bs) v)
        (ih _ _ v (omega arith)
          (more.0, more.1 ∙ ap (λ x. x ++ more.0) (sym (received-did_read fd (b ∷ bs) t))))
        (λ r u p. Got-part (suc n) (b ∷ bs) got t r u (peer.within t (suc n) (b ∷ bs) eq) p)
        (λ u p. p)

  read_all_lem :
      (f n : ℕ) (got : Bytes) (t : Trace)
      → n < f
      → IsBehind fd t
      → Ensures (Got fd n got t) (λ _. ⊥) (read_all k f fd n got t)
  unfolding read_all
  read_all_lem zero n got t h behind = omega arith
  read_all_lem (suc f) zero got t h behind =
      (refl, behind, ([], sym (append-nil got), refl, sym (append-nil _)))
  read_all_lem (suc f) (suc n) got t h behind =
      after_bytes_lem f n got t _ refl (omega arith) behind (read_all_lem f)

length-zero : (bs : Bytes) → length bs ≡ 0 → bs ≡ []
length-zero [] h = refl
length-zero (b ∷ bs) h = absurd (omega arith)

-- After a transaction with `buf`: the reply is `buf`, and all that went out has come back; or the
-- transaction failed, and no more came back than went out.
abbrev pub Exchanged : ℕ → Bytes → Option Bytes → Trace → Type 0
Exchanged fd buf none u = IsBehind fd u
Exchanged fd buf (some reply) u = (reply ≡ buf) × (received fd u ≡ written fd u)

-- As many bytes as were sent have come back from a peer that echoes.
reply_is_sent :
    (fd : ℕ) (buf new : Bytes) (t v u : Trace)
    → received fd t ≡ written fd t
    → written fd v ≡ written fd t ++ buf
    → written fd u ≡ written fd v
    → received fd u ≡ received fd t ++ new
    → length new ≡ length buf
    → IsBehind fd u
    → new ≡ buf
reply_is_sent fd buf new t v u idle sent quiet got size (rest, behind) =
    sym (append-nil new) ∙ ap (λ x. new ++ x) (sym nothing_left) ∙ sym split
  where
    split : buf ≡ new ++ rest
    split = append_cancel_left (written fd t) buf (new ++ rest) (
        sym sent
        ∙ sym quiet
        ∙ behind
        ∙ ap (λ x. x ++ rest) (got ∙ ap (λ x. x ++ new) idle)
        ∙ append_assoc (written fd t) new rest)

    nothing_left : rest ≡ []
    nothing_left = length-zero rest (omega (arith, size, ap length split, length-append new rest))

module _ (k : Kernel) (fd : ℕ) (peer : IsEchoed k fd) where
  after_write_all :
      (f : ℕ) (buf : Bytes) (t : Trace) (c : Bool) (v : Trace)
      → length buf < f
      → received fd t ≡ written fd t
      → Sent fd buf t c v
      → Ensures (Exchanged fd buf) (λ _. ⊥) (then_read k f fd (length buf) c v)
  after_write_all f buf t false v h idle (r, (p, q, w, e)) =
      (p, w ∙ ap (λ x. x ++ p) (sym idle ∙ sym r))
  after_write_all f buf t true v h idle (r, w) =
      Ensures-weaken (Got fd (length buf) [] v) (Exchanged fd buf) (λ _. ⊥) (λ _. ⊥)
        (read_all k f fd (length buf) [] v)
        (read_all_lem k fd peer f (length buf) [] v h
          (buf, w ∙ ap (λ x. x ++ buf) (sym idle ∙ sym r)))
        finish (λ u p. p)
    where
      finish : (o : Option Bytes) (u : Trace) → Got fd (length buf) [] v o u → Exchanged fd buf o u
      finish none u g = g.1
      finish (some reply) u (quiet, behind, (new, e, size, got)) =
          let same : new ≡ buf =
            reply_is_sent fd buf new t v u idle w quiet (got ∙ ap (λ x. x ++ new) r) size behind in
          (
            e ∙ same,
            got
                ∙ ap (λ x. x ++ new) (r ∙ idle)
                ∙ ap (λ x. written fd t ++ x) same
                ∙ sym (quiet ∙ w),
          )

  -- On a connection from which everything that was sent has come back, to a peer that sends back
  -- what it receives, a transaction returns: with a reply that equals the bytes sent, after which
  -- again everything that was sent has come back; or it fails, and what came back is a first part
  -- of what was sent.
  pub transact_lem :
      (f : ℕ) (buf : Bytes) (t : Trace)
      → length buf < f
      → received fd t ≡ written fd t
      → Ensures (Exchanged fd buf) (λ _. ⊥) (transact k f fd buf t)
  unfolding transact
  transact_lem f buf t h idle =
      Ensures-bind (Sent fd buf t) (λ _. ⊥) (Exchanged fd buf) (λ _. ⊥) (write_all k f fd buf t)
        (then_read k f fd (length buf)) (write_all_lem k fd f buf t h)
        (λ c v p. after_write_all f buf t c v h idle p) (λ u p. p)
