-- ===== src/Kcut/Shortcut/Session.antt =====
-- A program that uses the shortcuts of examples/kcuttest: privileges over a whole session.
use symbi_os.Base.{ℕ, ◌≡◌, Bool, true, false, not, ◌&&◌, List, [], ◌∷◌, arith}
use symbi_os.Base.Machine.{
  M, Run, done, abort, fault, out_of_fuel, exited, pure, and_then, ◌>>=◌, ◌>>◌,
}
use symbi_os.Kcut.Shortcut.{
  World, Process, when, kcut_tos_offset, switched, acquire_on, release_on, kcut_evacuate, kcut_init,
  kcut_cleanup, bracketed, read_directly, read_plainly, kcut_tcp_read, write_directly,
  write_plainly, kcut_tcp_write, KernelFunction,
}

pub data Operation : Type 0 where
  reads writes : (fd count : ℕ) → Operation

-- A run ends with a state that has the property, or at a failed assertion, and never calls the kernel
-- from a thread that is not elevated.
abbrev pub Safe : {A : Type 0} → (Process → Type 0) → Run Process A → Type 0
Safe Q (done a p) = Q p
Safe Q abort = Unit
Safe Q fault = ⊥
Safe Q out_of_fuel = ⊥
Safe Q (exited _) = ⊥

pub Safe-bind :
    {A B : Type 0} (P Q : Process → Type 0) (r : Run Process A) (f : A → M Process B)
    → Safe P r
    → ((a : A) (p : Process) → P p → Safe Q (f a p))
    → Safe Q (and_then r f)
Safe-bind P Q (done a p) f h next = next a p h
Safe-bind P Q abort f h next = h
Safe-bind P Q fault f h next = h
Safe-bind P Q out_of_fuel f h next = h
Safe-bind P Q (exited n) f h next = h

module _ (w : World) where
  unfoldable pub operate : List Operation → M Process (Unit {0})
  operate [] = pure tt
  operate (Operation.reads fd count ∷ ops) = do _ ← kcut_tcp_read w fd count; operate ops
  operate (Operation.writes fd count ∷ ops) = do _ ← kcut_tcp_write w fd count; operate ops

  -- `kcut_init`, the operations of the program, and `kcut_cleanup`.
  unfoldable pub session : List Operation → M Process (Unit {0})
  unfolding operate
  session ops = do kcut_init w; operate ops; kcut_cleanup w

  -- The privileges between the operations.
  abbrev IsOpen : Process → Type 0
  IsOpen p = p.elevated ≡ not w.bracket_priv

  abbrev pub IsLowered : Process → Type 0
  IsLowered p = p.elevated ≡ false

  switched-Safe :
      (f : KernelFunction) (b : Bool) (p : Process)
      → p.elevated ≡ true
      → Safe (λ q. q.elevated ≡ true) (switched w f p)
  unfolding switched kcut_tos_offset
  switched-Safe f b p h = ground (arith, h)

  pub evacuate-Safe : (b : Bool) (p : Process) → Safe IsLowered (kcut_evacuate w b p)
  unfolding kcut_evacuate acquire_on release_on switched kcut_tos_offset
  evacuate-Safe b p = ground arith

  init-Safe : (p : Process) → Safe IsOpen (kcut_init w p)
  unfolding kcut_init
  init-Safe p =
      Safe-bind (λ _. Unit) IsOpen (when w.evacuate (kcut_evacuate w true) p) _ evacuated
        (λ _ q _. ground arith)
    where
      evacuated : Safe (λ _. Unit) (when w.evacuate (kcut_evacuate w true) p)
      evacuated = ground (arith, evacuate-Safe true p)

  cleanup-Safe : (p : Process) → IsOpen p → Safe IsLowered (kcut_cleanup w p)
  unfolding kcut_cleanup
  cleanup-Safe p h =
      Safe-bind (λ q. q.elevated && w.bracket_priv ≡ false) IsLowered
        (when w.evacuate (kcut_evacuate w false) p) _ evacuated (λ _ q e. ground (arith, e))
    where
      evacuated :
          Safe
            (λ q. q.elevated && w.bracket_priv ≡ false)
            (when w.evacuate (kcut_evacuate w false) p)
      evacuated = ground (arith, evacuate-Safe false p, h)

  read-Safe : (fd count : ℕ) (p : Process) → IsOpen p → Safe IsOpen (kcut_tcp_read w fd count p)
  unfolding kcut_tcp_read read_directly read_plainly bracketed switched kcut_tos_offset
  read-Safe fd count p h = ground (arith, h)

  write-Safe : (fd count : ℕ) (p : Process) → IsOpen p → Safe IsOpen (kcut_tcp_write w fd count p)
  unfolding kcut_tcp_write write_directly write_plainly bracketed switched kcut_tos_offset
  write-Safe fd count p h = ground (arith, h)

  operate-Safe : (ops : List Operation) (p : Process) → IsOpen p → Safe IsOpen (operate ops p)
  unfolding operate
  operate-Safe [] p h = h
  operate-Safe (Operation.reads fd count ∷ ops) p h =
      Safe-bind IsOpen IsOpen (kcut_tcp_read w fd count p) _ (read-Safe fd count p h)
        (λ _ q e. operate-Safe ops q e)
  operate-Safe (Operation.writes fd count ∷ ops) p h =
      Safe-bind IsOpen IsOpen (kcut_tcp_write w fd count p) _ (write-Safe fd count p h)
        (λ _ q e. operate-Safe ops q e)

  -- However the program is built, whatever the calls return, and whichever reads and writes it makes,
  -- a session from `kcut_init` to `kcut_cleanup` stops at a failed assertion, or ends with a thread
  -- that is not elevated; and it never runs a function of the kernel while it is not elevated.
  pub session-Safe : (ops : List Operation) (p : Process) → Safe IsLowered (session ops p)
  unfolding session
  session-Safe ops p = Safe-bind IsOpen IsLowered (kcut_init w p) _ (init-Safe p) (λ _ q e.
      Safe-bind IsOpen IsLowered (operate ops q) _ (operate-Safe ops q e)
        (λ _ r f. cleanup-Safe r f))
