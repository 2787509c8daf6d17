-- ===== src/Echo/Client/Tests.antt =====
-- The client at a concrete peer that echoes.
use mathlib.Core.Path.{subst}
use mathlib.Core.List.{append_assoc}
use symbi_os.Base.{
  arith, refl, sym, ◌≡◌, ◌∙◌, ap, ℕ, ◌-◌, ◌*◌, ◌≤◌, Bool, true, false, List, [], ◌∷◌, ◌++◌, ltb,
  if◌then◌else◌, Bytes, codes, bytes_eq, bytes_eq_iff,
}
use symbi_os.Base.Lists.{length, take, drop, take-append-drop, length-take}
use symbi_os.Echo.{
  Kernel, Reply, ok, error, other, Trace, received, written, is_open, Outcome, returned, cut,
}
use symbi_os.Echo.Laws.{Ensures, IsPosix}
use symbi_os.Echo.Client.{
  ℤ, pos, Config, sample_cap, period_ns, transact, write_all, read_all, tcp_connect, timespec_of,
  Timespec,
}
use symbi_os.Echo.Client.Options.{parse_options, apply_option, check_config, defaults}
use symbi_os.Echo.Client.Loops.{client_main, session, measure, warm, reached, single, pace, report}
use symbi_os.Echo.Client.Exchange.{IsEchoed, Exchanged, transact_lem}
use symbi_os.Echo.Client.Connect.{IsConnected, tcp_connect_lem}

abbrev unread : Trace → ℕ → Bytes
unread t f = drop (length (received f t)) (written f t)

-- A peer that sends back what it got, and refuses a connection that is in any other state.
abbrev echo_read : Trace → ℕ → ℕ → Reply Bytes
echo_read t f n =
    if bytes_eq (take (length (received f t)) (written f t)) (received f t)
    then ok (take n (unread t f))
    else error other

-- Every new descriptor is 3, and a `write` takes two bytes at most.
abbrev echo : Kernel
echo = record {
  open_fd = λ t s. if is_open 3 t then error other else ok 3;
  control = λ t op f. true;
  read = echo_read;
  write = λ t f bs. ok (if ltb 2 (length bs) then 2 else length bs);
  epoll_wait = λ t. error other;
  clock = λ t. length t * 1000;
}

-- One digit is enough for a test.
abbrev digit : Bytes → ℤ
digit [] = pos 0
digit (d ∷ ds) = pos (d - b'0')

-- `-s 3 -n 2 -w 0`
abbrev arguments : List (ℕ × Bytes)
arguments = (b's', codes "3") ∷ (b'n', codes "2") ∷ (b'w', codes "0") ∷ []

abbrev chosen : Config
chosen = record defaults { pkt_size = pos 3; max_txns = pos 2; warmup_secs = pos 0 }

outcome_of : Outcome ℕ → Bytes
outcome_of (returned rc t) = rc ∷ received 3 t
outcome_of (cut t) = []

two_transactions :
    outcome_of (client_main echo (λ t. false) (λ h. true) true true digit digit arguments 9 [])
    ≡ 0 ∷ 0x42 ∷ 0x42 ∷ 0x42 ∷ 0x42 ∷ 0x42 ∷ 0x42 ∷ []
unfolding outcome_of client_main parse_options apply_option check_config sample_cap period_ns
    received written is_open tcp_connect session warm measure reached single pace transact write_all
    read_all report
two_transactions = refl

-- What the peer sends back, in two cuts of what it got.
echo_part :
    (w r bs : Bytes) (n : ℕ)
    → (if bytes_eq (take (length r) w) r then ok (take n (drop (length r) w)) else error other)
      ≡ ok bs
    → (length bs ≤ n) × ((rest : Bytes) × (w ≡ (r ++ bs) ++ rest))
echo_part w r bs n h = sent (bytes_eq (take (length r) w) r) refl h
  where
    whole :
        (b : Bytes)
        → b ≡ r
        → w ≡ b ++ drop (length r) w
        → w ≡ (r ++ take n (drop (length r) w)) ++ drop n (drop (length r) w)
    whole b e parts =
        parts
        ∙ ap (λ x. x ++ drop (length r) w) e
        ∙ ap (λ x. r ++ x) (sym (take-append-drop n (drop (length r) w)))
        ∙ sym (append_assoc r (take n (drop (length r) w)) (drop n (drop (length r) w)))

    sent :
        (b : Bool)
        → bytes_eq (take (length r) w) r ≡ b
        → (if b then ok (take n (drop (length r) w)) else error other) ≡ ok bs
        → (length bs ≤ n) × ((rest : Bytes) × (w ≡ (r ++ bs) ++ rest))
    sent true e q =
        let same : take n (drop (length r) w) ≡ bs = cc in
        subst (λ x. (length x ≤ n) × ((rest : Bytes) × (w ≡ (r ++ x) ++ rest))) same
          (
            omega (arith, length-take n (drop (length r) w)),
            (
              drop n (drop (length r) w),
              whole (take (length r) w) ((bytes_eq_iff _ r).0 e)
                  (sym (take-append-drop (length r) w)),
            ),
          )
    sent false e q = cc

echo-IsEchoed : IsEchoed echo 3
echo-IsEchoed = record {
  within = λ t n bs h. (echo_part (written 3 t) (received 3 t) bs n h).0;
  echoed = λ t n bs h. (echo_part (written 3 t) (received 3 t) bs n h).1;
}

abbrev three_bytes : Bytes
three_bytes = codes "abc"

transact_lem_example : Ensures (Exchanged 3 three_bytes) (λ _. ⊥) (transact echo 4 3 three_bytes [])
unfolding received written
transact_lem_example = transact_lem echo 3 echo-IsEchoed 4 three_bytes [] (omega arith) refl

abbrev at_start : Timespec
at_start = timespec_of 5

echo-IsPosix : IsPosix echo
unfolding is_open
echo-IsPosix = record {
  fresh = λ t s f h. fresh t f (is_open 3 t) refl h;
  ready = λ t es h. cc;
  distinct = λ t es h. cc;
}
  where
    fresh :
        (t : Trace) (f : ℕ) (b : Bool)
        → is_open 3 t ≡ b
        → (if b then error other else ok 3) ≡ ok f
        → is_open f t ≡ false
    fresh t f true e h = cc
    fresh t f false e h = let same : ◌≡◌ {A = ℕ} 3 f = cc in subst (λ x. is_open x t ≡ false) same e

tcp_connect_lem_example : Ensures (IsConnected []) (λ _. ⊥) (tcp_connect echo false [])
tcp_connect_lem_example = tcp_connect_lem echo false [] echo-IsPosix
