-- ===== src/Kcut/Shortcut/Cycle.antt =====
-- How often `kcut_tcp_read` of examples/kcuttest/kcut_tcpmsg.h makes a system call.
use symbi_os.Base.{
  ℕ, zero, suc, ◌+◌, ◌-◌, ◌%◌, ◌^◌, ◌<◌, ◌≡◌, true, false, List, [], ◌∷◌, ◌++◌, arith, ◌==◌,
  if◌then◌else◌, is_some, ◌&&◌,
}
use symbi_os.Base.Machine.{M, Run, done, abort, fault, out_of_fuel, exited, and_then}
use native.Mathlib.Nat.{mod-add-mod, mod-lt, mod-eq_of_lt, mod_self}
use native.Mathlib.Numerals.{add-one}
use mathlib.Core.Path.{subst}
use native.Mathlib.Decide.{ℕ_discrete}
use symbi_os.Kcut.Shortcut.{
  World, Process, Call, kcut_tos_offset, switched, bracketed, read_directly, read_plainly,
  kcut_tcp_read, recv_function,
}
use symbi_os.Kcut.Shortcut.Session.{Operation, operate}

-- `n` reads of the same kind
abbrev pub many : ℕ → Operation → List Operation
many zero o = []
many (suc n) o = o ∷ many n o

-- The calls of `n` reads, the last first: of every `t + 1`, the first is a system call.
unfoldable pub alternating : ℕ → Call → Call → ℕ → List Call
alternating t plain quick zero = []
alternating t plain quick (suc n) =
    (if n % suc t == 0 then plain else quick) ∷ alternating t plain quick n

-- What is left of `kcut_cnt` after `r` of `t + 1` reads.
abbrev pub count_left : ℕ → ℕ → ℕ
count_left t r = if r == 0 then 0 else suc t - r

suc_mod : (n t : ℕ) → suc n % suc t ≡ (if n % suc t == t then 0 else suc (n % suc t))
suc_mod n t = elim (ℕ_discrete (n % suc t) t) [
  | yes e ↦ ground (arith, e, step, mod_self (suc t), add-one (n % suc t))
  | no ne ↦ ground (
    arith,
    ne,
    step,
    add-one (n % suc t),
    mod-eq_of_lt {n = n % suc t + 1} {m = suc t}
        (omega (arith, mod-lt n {m = suc t} (omega arith))),
  )
]
  where
    step : (n % suc t + 1) % suc t ≡ suc n % suc t
    step = rw (← add-one n) (mod-add-mod n (suc t) 1)

abbrev pub plain : ℕ → ℕ → Call
plain fd count = Call.plain_read fd count

abbrev pub quick : World → ℕ → ℕ → Call
quick w fd count = Call.direct (recv_function w fd count) w.bracket_stack

module _ (w : World) (fd count t : ℕ) (before : List Call) where
  -- The state after `n` reads.
  pub record IsAfter (n : ℕ) (p : Process) : Type 0 where
    pub raised : p.elevated ≡ true
    pub bound : p.threshold ≡ t
    pub left : p.read_cnt ≡ count_left t (n % suc t)
    pub made : p.calls ≡ alternating t (plain fd count) (quick w fd count) n ++ before
    pub found : (w.bracket_stack && p.tos_val == 0) ≡ true → is_some w.tos ≡ true

-- The run ends, with a state that has the property.
abbrev pub Ends : {A : Type 0} → (Process → Type 0) → Run Process A → Type 0
Ends Q (done a p) = Q p
Ends Q _ = ⊥

Ends-bind :
    {A B : Type 0} (P Q : Process → Type 0) (r : Run Process A) (f : A → M Process B)
    → Ends P r
    → ((a : A) (p : Process) → P p → Ends Q (f a p))
    → Ends Q (and_then r f)
Ends-bind P Q (done a p) f h next = next a p h
Ends-bind P Q abort f h next = absurd h
Ends-bind P Q fault f h next = absurd h
Ends-bind P Q out_of_fuel f h next = absurd h
Ends-bind P Q (exited n) f h next = absurd h

module _ (w : World) (fd count t : ℕ) (before : List Call) (unbracketed : w.bracket_priv ≡ false)
    (small : t < 2 ^ 31) where
  read-IsAfter :
      (n : ℕ) (p : Process)
      → IsAfter w fd count t before n p
      → Ends (IsAfter w fd count t before (suc n)) (kcut_tcp_read w fd count p)
  unfolding kcut_tcp_read read_directly read_plainly bracketed switched kcut_tos_offset alternating
  read-IsAfter n p h =
      ground (arith, unbracketed, h, suc_mod n t, mod-lt n {m = suc t} (omega arith))

  more_reads :
      (m n : ℕ) (p : Process)
      → IsAfter w fd count t before n p
      → Ends (IsAfter w fd count t before (m + n)) (operate w (many m (Operation.reads fd count)) p)
  unfolding operate
  more_reads zero n p h = subst (λ k. IsAfter w fd count t before k p) (omega arith) h
  more_reads (suc m) n p h =
      Ends-bind (IsAfter w fd count t before (suc n)) (IsAfter w fd count t before (suc m + n))
        (kcut_tcp_read w fd count p) _ (read-IsAfter n p h)
        (λ _ q e.
          subst
            (λ k.
              Ends (IsAfter w fd count t before k)
                (operate w (many m (Operation.reads fd count)) q))
            (omega arith) (more_reads m (suc n) q e))

  -- Without BRACKET_PRIV, in an elevated thread with a fresh counter that can find the kernel's stack
  -- if it needs it, `n` reads return, whatever the kernel answers. Of every `t + 1` of them, where `t`
  -- is KCUT_THRESHOLD and below 2^31, the first is a system call, and the others call the kernel's
  -- function; the thread is elevated after them.
  pub reads-alternating :
      (n : ℕ) (p : Process)
      → p.elevated ≡ true
      → p.threshold ≡ t
      → p.read_cnt ≡ 0
      → p.calls ≡ before
      → ((w.bracket_stack && p.tos_val == 0) ≡ true → is_some w.tos ≡ true)
      → Ends
          (λ q.
            (q.calls ≡ alternating t (plain fd count) (quick w fd count) n ++ before)
            × (q.elevated ≡ true))
          (operate w (many n (Operation.reads fd count)) p)
  unfolding alternating
  reads-alternating n p raised bound fresh made found =
      weaken (operate w (many n (Operation.reads fd count)) p) (
        more_reads n 0 p (record {
          raised = raised;
          bound = bound;
          left = ground (arith, fresh);
          made = made;
          found = found;
        }))
    where
      weaken :
          (r : Run Process (Unit {0}))
          → Ends (IsAfter w fd count t before (n + 0)) r
          → Ends
              (λ q.
                (q.calls ≡ alternating t (plain fd count) (quick w fd count) n ++ before)
                × (q.elevated ≡ true))
              r
      weaken (done a q) h = (
        subst (λ k. q.calls ≡ alternating t (plain fd count) (quick w fd count) k ++ before)
            (omega arith) h.made,
        h.raised,
      )
      weaken abort h = h
      weaken fault h = h
      weaken out_of_fuel h = h
      weaken (exited _) h = h
