-- ===== src/Fs/Inode/Init.antt =====
-- `init_inotable` of fs.c, and the first `inoalloc`.
use symbi_os.Base.{update, ℕ, ◌+◌, ◌-◌, ◌<◌, ◌≡◌, refl, sym, ap, true, false, none, some, arith}
use symbi_os.Base.Machine.{done}
use symbi_os.Uthash.{Hashes}
use symbi_os.Fs.{InoDesc, ino_desc, Fs}
use symbi_os.Fs.Inode.{ino_max, link_entries, inoalloc}
use symbi_os.Fs.Inode.Chain.{
  IsTable, link_entries_lem, range_from, length-range_from, has-range_from, index_below,
  FreeChain-range_from,
}
use symbi_os.Fs.Inode.Alloc.{taken_state, taken_state-IsTable}

init_links :
    (t : ℕ → InoDesc) (i : ℕ)
    → i < ino_max
    → update (link_entries 255 0 t) 255 (ino_desc none none) i
      ≡ ino_desc none (index_below ino_max (i + 1))
init_links t i lt = ground (arith, link_entries_lem 255 0 i t)

module _ {H : Hashes} where
  abbrev init_state : Fs H → Fs H
  init_state s = record s {
    has_table = true;
    ino_table =
        update (link_entries (ino_max - 1) 0 s.ino_table) (ino_max - 1) (ino_desc none none);
    ino_num = ino_max;
    ino_freelist = some 0;
    ino_numfree = ino_max;
  }

  init_state-IsTable : (s : Fs H) → IsTable (init_state s) (range_from ino_max 0)
  init_state-IsTable s = record {
    made = refl;
    size = refl;
    chain =
        FreeChain-range_from ino_max _ (λ i lt. rw (init_links s.ino_table i lt)) ino_max 0
          (omega arith);
    count = sym (length-range_from ino_max 0);
    taken = λ i lt out. ground (arith, has-range_from ino_max 0 i);
  }

  -- The first `inoalloc` of a cleared file system makes the table of 256 descriptors, returns
  -- inode 0, and leaves 1 to 255 free, in order, with no file set.
  pub inoalloc_first :
      (s : Fs H)
      → s.has_table ≡ false
      → s.ino_num ≡ 0
      → (s' : Fs H) × (inoalloc s ≡ done 0 s')
        × IsTable s' (range_from 255 1)
        × ((i : ℕ) → i < ino_max → (s'.ino_table i).file ≡ none)
        × (s'.heap ≡ s.heap)
  unfolding range_from
  inoalloc_first s unset zeroed =
      let t = init_state-IsTable s in
      let clean = ap InoDesc.file (init_links s.ino_table 0 (omega arith)) in
      (
        taken_state 0 (init_state s),
        (unfold inoalloc in ground arith),
        taken_state-IsTable (init_state s) t,
        λ i lt. ground (arith, init_links s.ino_table i lt),
        refl,
      )
