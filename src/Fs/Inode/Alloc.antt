-- ===== src/Fs/Inode/Alloc.antt =====
-- `init_inotable`, `inoalloc` and `inofree` on a table with a given free list.
use symbi_os.Base.{
  update, ℕ, ◌+◌, ◌-◌, ◌<◌, ◌≡◌, sym, ◌≢◌, true, false, none, some, List, [], ◌∷◌, arith,
}
use symbi_os.Base.Machine.{done, abort, ◌>>=◌}
use symbi_os.Uthash.{Hashes}
use symbi_os.Fs.{ino_desc, Fs}
use symbi_os.Fs.Inode.{ino_max, inoalloc, inofree}
use symbi_os.Fs.Inode.Chain.{
  has, more, IsTable, FreeChain-frame, FreeChain-cons_inv, FreeChain-nil_inv,
}

module _ {H : Hashes} where
  -- The state that `inoalloc` leaves when it takes `i`.
  abbrev pub taken_state : ℕ → Fs H → Fs H
  taken_state i s = record s {
    ino_freelist = (s.ino_table i).next;
    ino_table = update s.ino_table i (ino_desc (s.ino_table i).file none);
    ino_numfree = s.ino_numfree - 1;
  }

  abbrev pub freed_state : ℕ → Fs H → Fs H
  freed_state i s = record s {
    ino_table = update s.ino_table i (ino_desc (s.ino_table i).file s.ino_freelist);
    ino_freelist = some i;
    ino_numfree = s.ino_numfree + 1;
  }

  pub inoalloc_run :
      (s : Fs H) {i : ℕ} {free : List ℕ}
      → IsTable s (i ∷ free)
      → (s.ino_table i).file ≡ none
      → inoalloc s ≡ done i (taken_state i s)
  unfolding inoalloc
  inoalloc_run s {i} {free} t clean =
      let (head, lt, out, c) = FreeChain-cons_inv t.chain in
      let made = t.made in let size = t.size in let count = t.count in ground arith

  pub taken_state-IsTable :
      (s : Fs H) {i : ℕ} {free : List ℕ} → IsTable s (i ∷ free) → IsTable (taken_state i s) free
  taken_state-IsTable s {i} {free} t =
      let (head, lt, out, c) = FreeChain-cons_inv t.chain in
      let count = t.count in
      record {
        made = t.made;
        size = t.size;
        chain = FreeChain-frame c (λ j h. ground arith);
        count = omega arith;
        taken = λ j l h. ground (arith, t.taken j l);
      }

  pub inofree_run :
      (s : Fs H) {i : ℕ} {free : List ℕ}
      → IsTable s free
      → i < ino_max
      → has i free ≡ false
      → inofree i s ≡ done true (freed_state i s)
  unfolding inofree
  inofree_run s {i} t lt out = let size = t.size in ground (arith, t.taken i lt)

  pub freed_state-IsTable :
      (s : Fs H) {i : ℕ} {free : List ℕ}
      → IsTable s free
      → i < ino_max
      → has i free ≡ false
      → IsTable (freed_state i s) (i ∷ free)
  freed_state-IsTable s {i} {free} t lt out =
      let count = t.count in
      record {
        made = t.made;
        size = t.size;
        chain =
            more s.ino_freelist lt (ground arith) out
              (FreeChain-frame t.chain (λ j h. ground arith));
        count = omega arith;
        taken = λ j l h. ground (arith, t.taken j l);
      }

  -- `inoalloc` takes the head of the free list, whose file must be unset: it returns that number,
  -- leaves the rest of the list free, and changes no other descriptor.
  pub inoalloc-IsTable :
      (s : Fs H) {i : ℕ} {free : List ℕ}
      → IsTable s (i ∷ free)
      → (s.ino_table i).file ≡ none
      → (s' : Fs H) × (inoalloc s ≡ done i s')
        × IsTable s' free
        × ((j : ℕ) → j ≢ i → s'.ino_table j ≡ s.ino_table j)
  inoalloc-IsTable s {i} t clean =
      (taken_state i s, inoalloc_run s t clean, taken_state-IsTable s t, λ j ne. ground arith)

  -- With no descriptor left `inoalloc` stops the program, since the table cannot grow.
  pub inoalloc_exhausted : (s : Fs H) → IsTable s [] → inoalloc s ≡ abort
  unfolding inoalloc
  inoalloc_exhausted s t =
      let head = FreeChain-nil_inv t.chain in
      let made = t.made in let count = t.count in ground arith

  -- After `inofree` of an inode with a file, the next `inoalloc` takes that inode and stops at the
  -- assertion that its file is unset, since `inofree` leaves the pointer in place.
  pub inoalloc-inofree_abort :
      (s : Fs H) {i p : ℕ} {free : List ℕ}
      → IsTable s free
      → i < ino_max
      → has i free ≡ false
      → (s.ino_table i).file ≡ some p
      → (inofree i >>= λ _. inoalloc) s ≡ abort
  unfolding inoalloc
  inoalloc-inofree_abort s t lt out kept =
      let made = t.made in rw (inofree_run s t lt out) (ground arith)

  -- Taking an inode and giving it back leaves the same free list, with the same head.
  pub inofree-inoalloc :
      (s : Fs H) {i : ℕ} {free : List ℕ}
      → IsTable s (i ∷ free)
      → (s.ino_table i).file ≡ none
      → (s' : Fs H) × ((inoalloc >>= inofree) s ≡ done true s')
        × IsTable s' (i ∷ free)
        × (s'.ino_freelist ≡ s.ino_freelist)
        × ((j : ℕ) → (s'.ino_table j).next ≡ (s.ino_table j).next)
  inofree-inoalloc s {i} {free} t clean =
      let (head, lt, out, c) = FreeChain-cons_inv t.chain in
      let t' = taken_state-IsTable s t in
      (
        freed_state i (taken_state i s),
        rw (inoalloc_run s t clean) (inofree_run (taken_state i s) t' lt out),
        freed_state-IsTable (taken_state i s) t' lt out,
        sym head,
        λ j. ground arith,
      )
