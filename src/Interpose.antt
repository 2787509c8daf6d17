-- ===== src/Interpose.antt =====
-- The exception handlers of the interposer (examples/idtr_interposer/kmod/common.h and interpos.c):
-- the assembly around the C functions, on words of 64 bits and a stack that grows to the left.
pub mod Preserve
mod Tests
use symbi_os.Base.{
  ◌*◌, ℕ, zero, suc, ◌+◌, ◌/◌, ◌%◌, ◌^◌, Bool, true, false, not, ◌||◌, Option, none, some, List, [],
  ◌∷◌, ◌++◌, map, ◌==◌, if◌then◌else◌,
}

-- A word as its bits, from the lowest; the code only moves words and sets and mixes bits.
abbrev pub Word : Type 0
Word = ℕ → Bool

abbrev pub word_of : ℕ → Word
word_of n i = n / 2 ^ i % 2 == 1

abbrev pub bit_xor : Bool → Bool → Bool
bit_xor true b = not b
bit_xor false b = b

abbrev pub word_xor : Word → Word → Word
word_xor a b i = bit_xor (a i) (b i)

abbrev pub word_or : Word → Word → Word
word_or a b i = a i || b i

pub data Reg : Type 0 where
  di si dx cx ax r8 r9 r10 r11 bx bp r12 r13 r14 r15 : Reg

abbrev pub reg_number : Reg → ℕ
reg_number di = 0
reg_number si = 1
reg_number dx = 2
reg_number cx = 3
reg_number ax = 4
reg_number r8 = 5
reg_number r9 = 6
reg_number r10 = 7
reg_number r11 = 8
reg_number bx = 9
reg_number bp = 10
reg_number r12 = 11
reg_number r13 = 12
reg_number r14 = 13
reg_number r15 = 14

abbrev pub set_reg : (Reg → Word) → Reg → Word → Reg → Word
set_reg regs r w q = if reg_number r == reg_number q then w else regs q

-- The CPU at a point of the handler; `pc` is where it goes on.
pub record Cpu : Type 0 where
  pub regs : Reg → Word
  pub stack : List Word
  pub pc : Option Word

unfoldable pub push_reg : Reg → Cpu → Cpu
push_reg r c = record c { stack = c.regs r ∷ c.stack }

-- The top of the stack; nothing is popped from an empty one.
unfoldable pub pop_into : Reg → List Word → Cpu → Cpu
pop_into r [] c = c
pop_into r (w ∷ ws) c = record c { regs = set_reg c.regs r w; stack = ws }

abbrev pub pop_reg : Reg → Cpu → Cpu
pop_reg r c = pop_into r c.stack c

unfoldable pub push_list : List Reg → Cpu → Cpu
push_list [] c = c
push_list (r ∷ rs) c = push_list rs (push_reg r c)

unfoldable pub pop_list : List Reg → Cpu → Cpu
pop_list [] c = c
pop_list (r ∷ rs) c = pop_list rs (pop_reg r c)

-- `PUSH_REGS` and `POP_REGS`
abbrev pub push_order : List Reg
push_order = di ∷ si ∷ dx ∷ cx ∷ ax ∷ r8 ∷ r9 ∷ r10 ∷ r11 ∷ bx ∷ bp ∷ r12 ∷ r13 ∷ r14 ∷ r15 ∷ []

abbrev pub pop_order : List Reg
pop_order = r15 ∷ r14 ∷ r13 ∷ r12 ∷ bp ∷ bx ∷ r11 ∷ r10 ∷ r9 ∷ r8 ∷ ax ∷ cx ∷ dx ∷ si ∷ di ∷ []

unfoldable pub push_regs : Cpu → Cpu
unfolding push_list push_reg
push_regs = push_list push_order

unfoldable pub pop_regs : Cpu → Cpu
unfolding pop_list pop_into
pop_regs = pop_list pop_order

-- A write to one word of `pt_r`: fifteen registers stand first, then `orig_ax`, then `ip`.
abbrev pub on_word : ℕ → (Word → Word) → List Word → List Word
on_word n f [] = []
on_word zero f (w ∷ ws) = f w ∷ ws
on_word (suc n) f (w ∷ ws) = w ∷ on_word n f ws

abbrev pub orig_ax : ℕ
orig_ax = 15

abbrev pub ip : ℕ
ip = 16

abbrev pub user_ft : Word
user_ft = word_of (1 * 2 ^ 2)

abbrev pub wr_ft : Word
wr_ft = word_of (1 * 2 ^ 1)

-- `df_c_entry` and `tf_c_entry`, on the error code
unfoldable pub df_c_entry : Word → Word
df_c_entry _ = word_or user_ft wr_ft

unfoldable pub tf_c_entry : Word → Word
tf_c_entry code = word_or code user_ft

-- The C function gets the pointer to the saved words and rewrites the one at `field` by `f`; `clobber`
-- gives the registers when it returns.
unfoldable pub call_targ : (field : ℕ) → (f : Word → Word) → ((Reg → Word) → Reg → Word) → Cpu → Cpu
call_targ field f clobber c = record c { regs = clobber c.regs; stack = on_word field f c.stack }

abbrev pub page_fault_entry : Word
page_fault_entry = word_of 0xffffffff81001290

-- The `xor` of the top of the stack into `%rax`, and of `%rax` into the top of the stack
unfoldable pub xor_top_into_ax : List Word → Cpu → Cpu
xor_top_into_ax [] c = c
xor_top_into_ax (w ∷ ws) c = record c { regs = set_reg c.regs ax (word_xor (c.regs ax) w) }

unfoldable pub xor_ax_into_top : List Word → Cpu → Cpu
xor_ax_into_top [] c = c
xor_ax_into_top (w ∷ ws) c = record c { stack = word_xor w (c.regs ax) ∷ ws }

-- `ret`
unfoldable pub ret : List Word → Cpu → Cpu
ret [] c = c
ret (w ∷ ws) c = record c { stack = ws; pc = some w }

-- `RET_TO_PG_FT`
unfoldable pub ret_to_pg_ft : Cpu → Cpu
unfolding push_reg xor_top_into_ax xor_ax_into_top ret
ret_to_pg_ft c0 =
    let c1 = push_reg ax c0 in
    let c2 = record c1 { regs = set_reg c1.regs ax page_fault_entry } in
    let c3 = xor_top_into_ax c2.stack c2 in
    let c4 = xor_ax_into_top c3.stack c3 in let c5 = xor_top_into_ax c4.stack c4 in ret c5.stack c5

-- `INTERPOSER_HANDLER`
unfoldable pub interposer_handler : (Word → Word) → ((Reg → Word) → Reg → Word) → Cpu → Cpu
unfolding push_regs call_targ pop_regs ret_to_pg_ft
interposer_handler f clobber c = ret_to_pg_ft (pop_regs (call_targ orig_ax f clobber (push_regs c)))

abbrev pub fake_error : Word
fake_error = word_of 0xbadbad

-- The word on top of the stack is dropped.
unfoldable pub drop_top : List Word → Cpu → Cpu
drop_top [] c = c
drop_top (w ∷ ws) c = record c { stack = ws }

-- `TRAP_HANDLER`, up to `iretq`. The C function rewrites the saved instruction pointer by `f`: in
-- `bp_c_entry` it counts back by one, in `db_c_entry` it stays.
unfoldable pub trap_handler : (f : Word → Word) → ((Reg → Word) → Reg → Word) → Cpu → Cpu
unfolding push_regs call_targ pop_regs drop_top
trap_handler f clobber c0 =
    let c1 = record c0 { stack = fake_error ∷ c0.stack } in
    let c2 = pop_regs (call_targ ip f clobber (push_regs c1)) in drop_top c2.stack c2
