-- ===== src/Kcut/StackTest.antt =====
-- examples/kcuttest/mmap_stack_test.c: `mmap_stack_test`, without the counters and the residency that it
-- only prints.
pub mod Pages
pub mod Resources
use symbi_os.Base.{
  ℕ, zero, suc, ◌+◌, ◌-◌, ◌*◌, ◌/◌, ◌%◌, ◌^◌, Bool, true, false, not, ◌&&◌, Option, none, some,
  List, [], ◌∷◌, ◌==◌, if◌then◌else◌, is_some,
}

abbrev pub page_size : ℕ
page_size = 4096

abbrev pub map_size : ℕ
map_size = 2 * 1024 * 1024

abbrev pub num_pages : ℕ
num_pages = map_size / page_size

-- What the calls return: whether they succeed, the memory that `mmap` and `malloc` give, the bytes that
-- `mincore` stores for the mapping.
pub record World : Type 0 where
  pub sigaction : Bool
  pub mkstemp : Bool
  pub ftruncate : Bool
  pub mmap : Option ℕ
  pub malloc : Bool
  pub mincore : Option (ℕ → ℕ)

-- What the function holds: the handler of SIGSEGV, the file, the mapping and the vector. `written` has
-- the addresses of its bytes that it wrote, the last first, and `stack` where `rsp` was.
pub record Held : Type 0 where
  pub handler : Bool
  pub file : Bool
  pub mapping : Bool
  pub vector : Bool
  pub written : List ℕ
  pub stack : Option ℕ
  pub cr4_writes : ℕ

abbrev pub nothing_held : Held
nothing_held = record {
  handler = false;
  file = false;
  mapping = false;
  vector = false;
  written = [];
  stack = none;
  cr4_writes = 0;
}

abbrev pub minus_one : ℕ
minus_one = 2 ^ 32 - 1

-- `!(vec[i] & 1)`
abbrev pub is_absent : (ℕ → ℕ) → ℕ → Bool
is_absent vec i = vec i % 2 == 0

abbrev pub are_absent : (ℕ → ℕ) → ℕ → Bool
are_absent vec i = is_absent vec i && is_absent vec (i + 1) && is_absent vec (i + 2)

-- The loop that looks for page A, from `i` down to 1.
unfoldable pub find_page : (ℕ → ℕ) → ℕ → Option ℕ
find_page vec zero = none
find_page vec (suc i) = if are_absent vec (suc i) then some (suc i) else find_page vec i

abbrev pub cleanup : ℕ → Held → ℕ × Held
cleanup ret h = (ret, record h { vector = false; mapping = false; file = false; handler = false })

-- The access on the moved stack: a write to page C, or one to a reserved bit of CR4. What calls and
-- faults push on the moved stack depends on the compiler and the machine, and is not in `written`.
unfoldable pub stack_access : ℕ → ℕ → ℕ → Held → Held
stack_access operation page_b page_c h =
    let s = record h { stack = some (if operation == 2 then page_b + 0x40 else page_b + 16) } in
    if operation == 0
    then record s { written = page_c ∷ s.written }
    else record s { cr4_writes = s.cr4_writes + 1 }

-- From the choice of the pages on. Whether the access returns or the handler of its fault jumps behind
-- it, the result is 0.
unfoldable pub with_pages : World → ℕ → ℕ → ℕ → Held → ℕ × Held
unfolding stack_access
with_pages w operation area a h =
    let page_b = area + (a + 1) * page_size in
    let page_c = area + (a + 2) * page_size in
    cleanup 0 (stack_access operation page_b page_c (record h { written = page_b ∷ h.written }))

unfoldable pub with_area : World → ℕ → ℕ → Held → ℕ × Held
unfolding with_pages
with_area w operation area h =
    if w.malloc
    then (let v = record h { vector = true } in
        elim w.mincore [
          | none ↦ cleanup minus_one v
          | some vec ↦ elim (find_page vec (num_pages - 3)) [
            | none ↦ cleanup minus_one v
            | some a ↦ with_pages w operation area a v
          ]
        ])
    else cleanup minus_one h

unfoldable pub with_file : World → ℕ → Held → ℕ × Held
unfolding with_area
with_file w operation h =
    if w.ftruncate
    then elim w.mmap [
      | none ↦ (minus_one, record h { file = false })
      | some area ↦ with_area w operation area (record h { mapping = true })
    ]
    else (minus_one, record h { file = false })

-- The return value, as 32 bits, and what is held then.
unfoldable pub mmap_stack_test : World → ℕ → ℕ × Held
unfolding with_file
mmap_stack_test w operation =
    if w.sigaction
    then (let h = record nothing_held { handler = true } in
        if w.mkstemp then with_file w operation (record h { file = true }) else (minus_one, h))
    else (minus_one, nothing_held)
