-- ===== src/Kcut/StackTest/Resources.antt =====
-- What `mmap_stack_test` of examples/kcuttest/mmap_stack_test.c holds when it returns, and where it writes.
use symbi_os.Base.{
  ℕ, ◌+◌, ◌≤◌, ◌<◌, ◌≡◌, refl, true, false, not, ◌&&◌, none, some, List, [], ◌∷◌, arith, is_some,
  Option-cases, inl, inr,
}
use symbi_os.Kcut.StackTest.{
  World, Held, nothing_held, mmap_stack_test, with_file, with_area, with_pages, stack_access,
  find_page, map_size,
}
use symbi_os.Kcut.StackTest.Pages.{find_page-some}

-- All addresses are in the mapping.
abbrev pub AreIn : ℕ → List ℕ → Type 0
AreIn area [] = Unit
AreIn area (a ∷ rest) = (area ≤ a) × (a < area + map_size) × AreIn area rest

abbrev pub AreInside : ℕ → Held → Type 0
AreInside area h =
    AreIn area h.written × ((s : ℕ) → h.stack ≡ some s → (area ≤ s) × (s < area + map_size))

-- With the handler, the file and the mapping.
abbrev mapped : Held
mapped = record nothing_held { handler = true; file = true; mapping = true }

module _ (w : World) (operation area : ℕ) where
  with_area-released :
      (h : Held)
      → let r = (with_area w operation area h).1 in
        (r.file ≡ false) × (r.mapping ≡ false) × (r.vector ≡ false) × (r.handler ≡ false)
  unfolding with_area with_pages stack_access
  with_area-released h = ground arith

  stack_access-AreInside :
      (a : ℕ) (h : Held)
      → a ≤ 509
      → h.written ≡ []
      → AreInside area (with_pages w operation area a h).1
  unfolding with_pages stack_access
  stack_access-AreInside a h high none_written =
      (ground (arith, none_written), λ s q. ground (arith, q))

  with_area-AreInside :
      (h : Held) → h.written ≡ [] → h.stack ≡ none → AreInside area (with_area w operation area h).1
  unfolding with_area
  with_area-AreInside h e f = elim (Option-cases w.mincore) [
    | inl m ↦ ground (arith, m, e, f)
    | inr (vec, m) ↦ elim (Option-cases (find_page vec 509)) [
      | inl q ↦ ground (arith, m, q, e, f)
      | inr (a, q) ↦
          let (_, high, _, _) = find_page-some vec 509 a q in
          ground (arith, m, q, e, f, stack_access-AreInside a (record h { vector = true }) high e)
    ]
  ]

-- On every path the file, the mapping and the vector are given back. The handler of SIGSEGV stays in
-- place exactly if it was installed, and the file or the mapping could not be made.
pub mmap_stack_test-Held :
    (w : World) (operation : ℕ)
    → let h = (mmap_stack_test w operation).1 in
      (h.file ≡ false)
      × (h.mapping ≡ false)
      × (h.vector ≡ false)
      × (h.handler ≡ (w.sigaction && not (w.mkstemp && (w.ftruncate && is_some w.mmap))))
unfolding mmap_stack_test with_file
mmap_stack_test-Held w operation = elim (Option-cases w.mmap) [
  | inl e ↦ ground (arith, e)
  | inr (area, e) ↦ ground (arith, e, with_area-released w operation area mapped)
]

-- Where `mmap` gives a mapping, the addresses of the two explicit stores of the test (to page B and to
-- page C) lie in it, whichever pages are absent, and so does the place to which the stack is moved.
pub mmap_stack_test-AreInside :
    (w : World) (operation area : ℕ)
    → w.mmap ≡ some area
    → AreInside area (mmap_stack_test w operation).1
unfolding mmap_stack_test with_file
mmap_stack_test-AreInside w operation area e =
    ground (arith, e, with_area-AreInside w operation area mapped refl refl)
