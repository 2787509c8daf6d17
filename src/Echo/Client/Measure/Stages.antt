-- ===== src/Echo/Client/Measure/Stages.antt =====
-- Where the measurement loop of the client stands, before, in and after a pass.
use mathlib.Core.List.{append-nil}
use symbi_os.Base.{arith, sym, ◌≡◌, ◌∙◌, ℕ, suc, ◌+◌, ◌*◌, ◌<◌, ◌≤◌, true, List, [], ◌∷◌, ◌++◌}
use symbi_os.Base.Lists.{length, length-append}
use symbi_os.Echo.{Trace, slept, timed, received, written}
use symbi_os.Echo.Client.{
  ts_add_ns, in_ns, Config, second, sample_cap, period_ns, is_positive, at_least_0,
}
use symbi_os.Echo.Client.Exchange.{IsBehind}
use symbi_os.Echo.Client.Loops.{Progress}
use symbi_os.Echo.Client.Pace.{schedule, slots, schedule_next, ts_add_ns_lem}

-- Where the loop stands after a number of transactions. The run had slept until the times of `base`
-- before it.
pub record IsOnTime (c : Config) (fd : ℕ) (base : List ℕ) (start : ℕ) (s : Progress) (u : Trace)
    : Type 0 where
  pub fits : length s.samples ≤ sample_cap c
  pub asked : is_positive c.max_txns ≡ true → length s.samples ≤ at_least_0 c.max_txns
  pub slept_until : slots u ≡ base ++ schedule start (period_ns c) (length s.samples)
  pub next : in_ns s.nxt ≡ start + length s.samples * period_ns c
  pub whole : s.nxt.tv_nsec < second
  pub idle : received fd u ≡ written fd u

-- After the loop: the samples fit and are no more than were asked for, the client has slept until
-- each slot of the schedule, and no more came back than went out.
pub record IsMeasured (c : Config) (fd : ℕ) (base : List ℕ) (start : ℕ) (s : Progress) (u : Trace)
    : Type 0 where
  pub fits : length s.samples ≤ sample_cap c
  pub asked : is_positive c.max_txns ≡ true → length s.samples ≤ at_least_0 c.max_txns
  pub rounds : ℕ
  pub tried : (length s.samples ≤ rounds) × (rounds ≤ length s.samples + 1)
  pub slept_until : slots u ≡ base ++ schedule start (period_ns c) rounds
  pub behind : IsBehind fd u

-- After the pause and before the transaction.
pub record IsPaused (c : Config) (base : List ℕ) (start : ℕ) (s : Progress) (u : Trace)
    : Type 0 where
  pub room : length s.samples < sample_cap c
  pub wanted : is_positive c.max_txns ≡ true → length s.samples < at_least_0 c.max_txns
  pub slept_until : slots u ≡ base ++ schedule start (period_ns c) (suc (length s.samples))
  pub next : in_ns s.nxt ≡ start + (suc (length s.samples)) * period_ns c
  pub whole : s.nxt.tv_nsec < second

module _ {c : Config} {base : List ℕ} {start : ℕ} where
  pub IsPaused-later :
      (s : Progress) (u v : Trace)
      → slots v ≡ slots u
      → IsPaused c base start s u
      → IsPaused c base start s v
  IsPaused-later s u v e h = record {
    room = h.room;
    wanted = h.wanted;
    slept_until = e ∙ h.slept_until;
    next = h.next;
    whole = h.whole;
  }

module _ {c : Config} {fd : ℕ} {base : List ℕ} {start : ℕ} where
  pub IsOnTime-timed :
      (s : Progress) (now : ℕ) (u : Trace)
      → IsOnTime c fd base start s u
      → IsOnTime c fd base start s (timed now ∷ u)
  unfolding slots received written
  IsOnTime-timed s now u h = record {
    fits = h.fits;
    asked = h.asked;
    slept_until = h.slept_until;
    next = h.next;
    whole = h.whole;
    idle = h.idle;
  }

  pub IsMeasured-end :
      (s : Progress) (u : Trace) → IsOnTime c fd base start s u → IsMeasured c fd base start s u
  IsMeasured-end s u h = record {
    fits = h.fits;
    asked = h.asked;
    rounds = length s.samples;
    tried = omega arith;
    slept_until = h.slept_until;
    behind = ([], sym h.idle ∙ sym (append-nil _));
  }

  pub still :
      (s : Progress) (now : ℕ) (u : Trace)
      → IsOnTime c fd base start s u
      → received fd (timed now ∷ slept (in_ns s.nxt) ∷ u)
        ≡ written fd (timed now ∷ slept (in_ns s.nxt) ∷ u)
  unfolding received written
  still s now u h = h.idle

  pub IsPaused-pause :
      period_ns c ≤ second
      → (s : Progress) (now : ℕ) (u : Trace) → IsOnTime c fd base start s u
      → length s.samples < sample_cap c
      → (is_positive c.max_txns ≡ true → length s.samples < at_least_0 c.max_txns)
      → IsPaused c base start
          (record s { nxt = ts_add_ns s.nxt (period_ns c) })
          (timed now ∷ slept (in_ns s.nxt) ∷ u)
  unfolding slots
  IsPaused-pause slow s now u h room wanted =
      let added = ts_add_ns_lem s.nxt (period_ns c) h.whole slow in
      record {
        room = room;
        wanted = wanted;
        slept_until =
            schedule_next base (slots u) start (period_ns c) (length s.samples) (in_ns s.nxt)
              h.slept_until h.next;
        next = added.0 ∙ omega (arith, h.next);
        whole = added.1;
      }

  -- A transaction that was counted.
  pub IsOnTime-counted :
      (s : Progress) (rtt prog : ℕ) (u : Trace)
      → IsPaused c base start s u
      → received fd u ≡ written fd u
      → IsOnTime c fd base start (record s { samples = s.samples ++ rtt ∷ []; prog_at = prog }) u
  IsOnTime-counted s rtt prog u h idle =
      let more : length (s.samples ++ rtt ∷ []) ≡ suc (length s.samples) =
        omega (arith, length-append s.samples (rtt ∷ [])) in
      record {
        fits = omega (arith, more, h.room);
        asked = λ m. omega (arith, more, h.wanted m);
        slept_until = rw more h.slept_until;
        next = rw more h.next;
        whole = h.whole;
        idle = idle;
      }

  -- One that failed.
  pub IsMeasured-failed :
      (s : Progress) (u : Trace)
      → IsPaused c base start s u
      → IsBehind fd u
      → IsMeasured c fd base start s u
  IsMeasured-failed s u h behind = record {
    fits = omega (arith, h.room);
    asked = λ m. omega (arith, h.wanted m);
    rounds = suc (length s.samples);
    tried = omega arith;
    slept_until = h.slept_until;
    behind = behind;
  }

  pub IsOnTime-prog :
      (s : Progress) (p : ℕ) (u : Trace)
      → IsOnTime c fd base start s u
      → IsOnTime c fd base start (record s { prog_at = p }) u
  IsOnTime-prog s p u h = record {
    fits = h.fits;
    asked = h.asked;
    slept_until = h.slept_until;
    next = h.next;
    whole = h.whole;
    idle = h.idle;
  }
