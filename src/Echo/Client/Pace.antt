-- ===== src/Echo/Client/Pace.antt =====
-- The times for which the client sleeps.
use mathlib.Core.List.{append_assoc}
use symbi_os.Base.{
  arith, refl, ◌≡◌, ◌∙◌, ℕ, zero, suc, ◌+◌, ◌-◌, ◌*◌, ◌<◌, ◌≤◌, Bool, true, false, List, [], ◌∷◌,
  ◌++◌, Bytes,
}
use symbi_os.Base.Lists.{length, drop}
use symbi_os.Echo.{Kernel, Reply, ok, error, Trace, Call, slept, did_read, did_write, Outcome}
use symbi_os.Echo.Laws.{Ensures, Ensures-bind, Ensures-weaken}
use symbi_os.Echo.Client.{
  write_all, read_all, transact, after_part, after_bytes, then_read, Timespec, ts_add_ns, in_ns,
  second,
}

abbrev pub slots_by : Call → List ℕ → List ℕ
slots_by (slept t) ts = ts ++ t ∷ []
slots_by _ ts = ts

-- The times for which a run has slept, in order.
unfoldable pub slots : Trace → List ℕ
slots [] = []
slots (c ∷ t) = slots_by c (slots t)

-- `m` times, one period after the other.
unfoldable pub schedule : ℕ → ℕ → ℕ → List ℕ
schedule start period zero = []
schedule start period (suc m) = schedule start period m ++ (start + m * period) ∷ []

-- One more slot.
pub schedule_next :
    (base past : List ℕ) (start period m now : ℕ)
    → past ≡ base ++ schedule start period m
    → now ≡ start + m * period
    → past ++ now ∷ [] ≡ base ++ schedule start period (suc m)
unfolding schedule
schedule_next base past start period m now h e =
    rw (h, e) (append_assoc base (schedule start period m) ((start + m * period) ∷ []))

-- Adding nanoseconds, a second at most, to a time.
pub ts_add_ns_lem :
    (ts : Timespec) (ns : ℕ)
    → ts.tv_nsec < second
    → ns ≤ second
    → (in_ns (ts_add_ns ts ns) ≡ in_ns ts + ns) × ((ts_add_ns ts ns).tv_nsec < second)
unfolding ts_add_ns
ts_add_ns_lem ts ns h k = ground arith

-- Calls that sleep for nothing.
module _ (k : Kernel) (fd : ℕ) where
  abbrev pub Awake : {A : Type 0} → Trace → Outcome A → Type 0
  Awake {A} t o = Ensures {A = A} (λ _ u. slots u ≡ slots t) (λ u. slots u ≡ slots t) o

  write_all-Awake : (f : ℕ) (buf : Bytes) (t : Trace) → Awake t (write_all k f fd buf t)
  unfolding write_all slots
  write_all-Awake zero buf t = refl
  write_all-Awake (suc f) [] t = refl
  write_all-Awake (suc f) (b ∷ bs) t = after _ (write_all-Awake f)
    where
      after :
          (r : Reply ℕ)
          → ((rest : Bytes) (u : Trace) → Awake u (write_all k f fd rest u))
          → Awake t
              (after_part (λ w. write_all k f fd (drop w (b ∷ bs))) r (did_write fd (b ∷ bs) r ∷ t))
      after (error e) ih = refl
      after (ok zero) ih = refl
      after (ok (suc w)) ih = ih _ _

  read_all-Awake : (f n : ℕ) (got : Bytes) (t : Trace) → Awake t (read_all k f fd n got t)
  unfolding read_all slots
  read_all-Awake zero n got t = refl
  read_all-Awake (suc f) zero got t = refl
  read_all-Awake (suc f) (suc n) got t = after _ (read_all-Awake f)
    where
      after :
          (r : Reply Bytes)
          → ((m : ℕ) (g : Bytes) (u : Trace) → Awake u (read_all k f fd m g u))
          → Awake t (
              after_bytes
                (λ bs. read_all k f fd (suc n - length bs) (got ++ bs))
                r
                (did_read fd r ∷ t))
      after (error e) ih = refl
      after (ok []) ih = refl
      after (ok (b ∷ bs)) ih = ih _ _ _

  pub transact-Awake : (f : ℕ) (buf : Bytes) (t : Trace) → Awake t (transact k f fd buf t)
  unfolding transact
  transact-Awake f buf t =
      Ensures-bind (λ _ u. slots u ≡ slots t) (λ u. slots u ≡ slots t) (λ _ u. slots u ≡ slots t)
        (λ u. slots u ≡ slots t) (write_all k f fd buf t) (then_read k f fd (length buf))
        (write_all-Awake f buf t) received_reply (λ u p. p)
    where
      received_reply :
          (c : Bool) (u : Trace)
          → slots u ≡ slots t
          → Ensures
              (λ _ v. slots v ≡ slots t)
              (λ v. slots v ≡ slots t)
              (then_read k f fd (length buf) c u)
      received_reply true u p =
          Ensures-weaken (λ _ v. slots v ≡ slots u) (λ _ v. slots v ≡ slots t)
            (λ v. slots v ≡ slots u) (λ v. slots v ≡ slots t) (read_all k f fd (length buf) [] u)
            (read_all-Awake f (length buf) [] u) (λ _ v q. q ∙ p) (λ v q. q ∙ p)
      received_reply false u p = p
