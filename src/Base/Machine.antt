-- ===== src/Base/Machine.antt =====
-- C code over an explicit state `S`: a run ends with a value and a new state, stops at a failed
-- `assert` or at `NYI`, leaves by `exit`, uses a null or freed pointer, or runs out of the model's fuel.
use Prim.Native.Nat.{ℕ}
use mathlib.Core.Bool.{Bool, true, false}
use mathlib.Core.Option.{Option, none, some}

pub data Run (S A : Type 0) : Type 0 where
  done : A → S → Run S A
  abort : Run S A
  fault : Run S A
  out_of_fuel : Run S A
  exited : ℕ → Run S A

abbrev pub M : Type 0 → Type 0 → Type 0
M S A = S → Run S A

abbrev pub pure : {S A : Type 0} → A → M S A
pure a s = done a s

infixl 5 ◌>>=◌ ◌>>◌
abbrev pub and_then : {S A B : Type 0} → Run S A → (A → M S B) → Run S B
and_then (done a s) f = f a s
and_then abort f = abort
and_then fault f = fault
and_then out_of_fuel f = out_of_fuel
and_then (exited n) f = exited n

abbrev pub ◌>>=◌ : {S A B : Type 0} → M S A → (A → M S B) → M S B
◌>>=◌ m f s = and_then (m s) f

abbrev pub ◌>>◌ : {S A B : Type 0} → M S A → M S B → M S B
◌>>◌ m k s = and_then (m s) (λ _. k)

abbrev pub get : {S : Type 0} → M S S
get s = done s s

abbrev pub put : {S : Type 0} → S → M S (Unit {0})
put s _ = done tt s

-- `assert(b)`
abbrev pub assert : {S : Type 0} → Bool → M S (Unit {0})
assert true s = done tt s
assert false s = abort

-- The value behind a pointer: `none` is `NULL`, or memory that was freed.
abbrev pub deref : {S A : Type 0} → Option A → M S A
deref none s = fault
deref (some a) s = done a s

-- `NYI`, and any other stop by `assert(0)`
abbrev pub nyi : {S A : Type 0} → M S A
nyi s = abort

-- `exit(n)`
abbrev pub exit : {S A : Type 0} → ℕ → M S A
exit n s = exited n
