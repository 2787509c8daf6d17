-- ===== src/Migration/Privileges.antt =====
-- The privileges of examples/cpu_migration/main.c, in each of its modes.
use symbi_os.Base.{ℕ, zero, suc, ◌≡◌, refl, Bool, true, false, Option, List, ◌∷◌, Bytes, arith}
use symbi_os.Base.Machine.{M, Run, done, abort, fault, out_of_fuel, exited, and_then}
use symbi_os.Migration.{
  World, Process, Mode, Call, mode_of, work, io_work, write_part, read_part, report_round, rounds,
  remove_file, main,
}

-- The run ends, with a state that has the property.
abbrev pub Returns : {A : Type 0} → (Process → Type 0) → Run Process A → Type 0
Returns Q (done a p) = Q p
Returns Q _ = ⊥

Returns-bind :
    {A B : Type 0} (P Q : Process → Type 0) (r : Run Process A) (f : A → M Process B)
    → Returns P r
    → ((a : A) (p : Process) → P p → Returns Q (f a p))
    → Returns Q (and_then r f)
Returns-bind P Q (done a p) f h next = next a p h
Returns-bind P Q abort f h next = absurd h
Returns-bind P Q fault f h next = absurd h
Returns-bind P Q out_of_fuel f h next = absurd h
Returns-bind P Q (exited n) f h next = absurd h

abbrev IsUp : Process → Type 0
IsUp p = p.elevated ≡ true

-- Whether the file is left behind by the last call.
abbrev pub is_removed : List Call → Bool
is_removed (Call.unlink ∷ _) = true
is_removed _ = false

abbrev pub is_io : Mode → Bool
is_io Mode.io = true
is_io _ = false

module _ (w : World) where
  report_round-IsUp : (p : Process) → IsUp p → Returns IsUp (report_round w p)
  unfolding report_round
  report_round-IsUp p h = ground (arith, h)

  work-IsUp : (m : Mode) (p : Process) → IsUp p → Returns IsUp (work w m p)
  unfolding work io_work write_part read_part
  work-IsUp m p h = ground (arith, h)

  rounds-IsUp : (n : ℕ) (m : Mode) (p : Process) → IsUp p → Returns IsUp (rounds w n m p)
  unfolding rounds
  rounds-IsUp zero m p h = h
  rounds-IsUp (suc n) m p h =
      Returns-bind IsUp IsUp (report_round w p) _ (report_round-IsUp p h) λ _ q e.
        Returns-bind IsUp IsUp (work w m q) _ (work-IsUp m q e) λ _ r f. rounds-IsUp n m r f

  removed_file-lowered :
      (m : Mode) (p : Process)
      → p.elevated ≡ false
      → Returns
          (λ q. (q.elevated ≡ false) × (is_io m ≡ true → is_removed q.calls ≡ true))
          (remove_file w m p)
  removed_file-lowered m p h = ground (arith, h)

  -- Whatever the argument and the answers of the system are, the program returns, with a thread that
  -- is not elevated, after a hundred rounds in which every call of the kernel was made in an elevated
  -- one; after the mode "io" its last call removes the file.
  pub main-Returns :
      (arg : Option Bytes) (p : Process)
      → Returns
          (λ q. (q.elevated ≡ false) × (is_io (mode_of arg) ≡ true → is_removed q.calls ≡ true))
          (main w arg p)
  unfolding main
  main-Returns arg p =
      Returns-bind IsUp _ (rounds w 100 (mode_of arg) (record p { elevated = true })) _
        (rounds-IsUp 100 (mode_of arg) (record p { elevated = true }) refl)
        λ _ q e.
          Returns-bind
            (λ r. (r.elevated ≡ false) × (is_io (mode_of arg) ≡ true → is_removed r.calls ≡ true)) _
            (remove_file w (mode_of arg) (record q { elevated = false })) _
            (removed_file-lowered (mode_of arg) (record q { elevated = false }) refl) λ _ r f. f
